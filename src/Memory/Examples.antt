-- ===== src/Memory/Examples.antt =====
-- A memory at concrete sizes.
use chronos_uvm.Prelude.{ℕ, ◌%◌, [], ◌∷◌, debug, arith}
use chronos_uvm.HostMemory.{HostMemory}
use chronos_uvm.HostMemory.Bump.{bump}
use chronos_uvm.Memory.{MmapGuardedMemory, new}
use chronos_uvm.Memory.Bounds.{IsValid, Translated, translate_lem, Grown, grow_lem}
use chronos_uvm.Memory.Pages.{PageRead, page_bytes_lem}
use chronos_uvm.Memory.Layout.{Builds, new_lem}

-- A host with another mapping, which protects nothing from 1048576 on.
abbrev M : HostMemory
M = bump 1048576

new_lem_example :
    Builds debug M 4096 10000 ((4096, 8192) ∷ []) (new debug M 4096 10000 ((4096, 8192) ∷ []))
new_lem_example = new_lem debug M 4096 10000 ((4096, 8192) ∷ []) (omega arith)

abbrev small : MmapGuardedMemory
small = record {
  base = 1048576;
  mapped_len = 16384;
  size_bytes = 4096;
  quota_bytes = 10000;
  dirty = record { bits = 0 ∷ []; capacity_pages = 3; count = 0 };
}

small-IsValid : IsValid small
small-IsValid = record { quota_fits = omega arith; size_le = omega arith; guarded = omega arith }

translate_lem_example : Translated 4000 97 small
translate_lem_example = translate_lem 4000 97 small small-IsValid

grow_lem_example : Grown 1 small
grow_lem_example = grow_lem 1 small small-IsValid

abbrev held : ℕ → ℕ
held offset = offset % 251

page_bytes_lem_example : PageRead debug held 1 small
page_bytes_lem_example = page_bytes_lem debug held 1 small
