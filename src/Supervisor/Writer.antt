-- ===== src/Supervisor/Writer.antt =====
-- An executor to evaluate the model on: each quantum writes its number to the first byte of the
-- memory, where there is one, be the page a partial one, and marks the page.
use chronos_uvm.Prelude.{
  ℕ, ◌+◌, ◌*◌, ◌<◌, ◌≡◌, refl, true, false, Option, none, some, ◌==◌, if◌then◌else◌, release, arith,
  dec_lt, ℕ_discrete,
}
use chronos_uvm.Prelude.Result.{ok}
use chronos_uvm.Page.{page_size}
use chronos_uvm.Blake3.Toy.{toy}
use chronos_uvm.Dirty.{DirtyPageSet, is_dirty, mark}
use chronos_uvm.Dirty.Marks.{Marked, mark_lem}
use chronos_uvm.Memory.Pages.{slice-ext}
use chronos_uvm.Cell.{Cell}
use chronos_uvm.Supervisor.{Quantum, QuantumExecutor}
use chronos_uvm.Supervisor.Cells.{pages_of, IsReadable, Ran, IsDisciplined}

abbrev pub written : (ℕ → ℕ) → ℕ → ℕ → ℕ
written held value offset = if offset == 0 then value else held offset

abbrev pub idle : Cell toy → (ℕ → ℕ) → ℕ → Quantum toy ℕ
idle c held n = record { result = ok 0; cell = c; held = held; exec = n }

abbrev pub marked : Cell toy → (ℕ → ℕ) → ℕ → Option DirtyPageSet → Quantum toy ℕ
marked c held n none = idle c held n
marked c held n (some d) = record {
  result = ok 1;
  cell = record c { memory = record c.memory { dirty = d } };
  held = written held n;
  exec = n + 1;
}

abbrev pub write :
    (c : Cell toy)
    → (ℕ → ℕ)
    → ℕ
    → Dec (0 < c.memory.dirty.capacity_pages)
    → Dec (0 < c.memory.size_bytes)
    → Quantum toy ℕ
write c held n (yes _) (yes _) = marked c held n (mark release 0 c.memory.dirty)
write c held n _ _ = idle c held n

abbrev pub writer : QuantumExecutor toy
writer = record {
  Exec = ℕ;
  run_quantum = λ c held max n.
      write c held n (dec_lt 0 c.memory.dirty.capacity_pages) (dec_lt 0 c.memory.size_bytes);
  register_digest = λ n c. n;
}

idle-Ran :
    (c : Cell toy) (held : ℕ → ℕ) (n : ℕ) → IsReadable c.memory → Ran toy c held (idle c held n)
idle-Ran c held n r = record {
  readable = r;
  marks_kept = λ i h. h;
  writes_marked = λ i h. refl;
  grown = refl;
  chain_kept = refl;
  checkpoint_tick_kept = refl;
  config_kept = refl;
  region_kept = refl;
}

marked-Ran :
    (c : Cell toy) (held : ℕ → ℕ) (n : ℕ) (d : DirtyPageSet)
    → IsReadable c.memory
    → 0 < c.memory.size_bytes
    → Marked c.memory.dirty 0 d
    → Ran toy c held (marked c held n (some d))
marked-Ran c held n d r room m = record {
  readable = record {
    bounds = record {
      quota_fits = r.bounds.quota_fits;
      size_le = r.bounds.size_le;
      guarded = r.bounds.guarded;
    };
    dirty_valid = m.valid;
    inside = λ i h. inside i h (ℕ_discrete i 0);
  };
  marks_kept = λ i h. rw (m.dirty i) (ground (arith, h));
  writes_marked = λ i h. unwritten i h;
  grown = refl;
  chain_kept = refl;
  checkpoint_tick_kept = refl;
  config_kept = refl;
  region_kept = refl;
}
  where
    inside : (i : ℕ) → is_dirty d i ≡ true → Dec (i ≡ 0) → i * page_size < c.memory.size_bytes
    inside i h (yes e) = omega (arith, e, room)
    inside i h (no o) = r.inside i (ground (arith, h, m.dirty i))

    unwritten : (i : ℕ) → is_dirty d i ≡ false → pages_of (written held n) i ≡ pages_of held i
    unwritten i h =
        let later : 0 < i = ground (arith, h, m.dirty i) in
        slice-ext (written held n) held (i * page_size) page_size (λ k l. ground (arith, later, l))

pub writer-IsDisciplined : IsDisciplined toy writer
writer-IsDisciplined c held max n r =
    ran (dec_lt 0 c.memory.dirty.capacity_pages) (dec_lt 0 c.memory.size_bytes)
  where
    ran :
        (room : Dec (0 < c.memory.dirty.capacity_pages)) (size : Dec (0 < c.memory.size_bytes))
        → Ran toy c held (write c held n room size)
    ran (yes room) (yes size) =
        let (d, done, m) = mark_lem release c.memory.dirty 0 r.dirty_valid room in
        rw done (marked-Ran c held n d r size m)
    ran (yes _) (no _) = idle-Ran c held n r
    ran (no _) (yes _) = idle-Ran c held n r
    ran (no _) (no _) = idle-Ran c held n r

-- Where there is a byte, it is written.
pub write_lem :
    (c : Cell toy) (held : ℕ → ℕ) (n : ℕ)
    → IsReadable c.memory
    → 0 < c.memory.dirty.capacity_pages
    → 0 < c.memory.size_bytes
    → (writer.run_quantum c held 1000 n).result ≡ ok 1
write_lem c held n r room size =
    wrote (dec_lt 0 c.memory.dirty.capacity_pages) (dec_lt 0 c.memory.size_bytes)
  where
    wrote :
        (d : Dec (0 < c.memory.dirty.capacity_pages)) (e : Dec (0 < c.memory.size_bytes))
        → (write c held n d e).result ≡ ok 1
    wrote (yes _) (yes _) =
        let (d, done, m) = mark_lem release c.memory.dirty 0 r.dirty_valid room in rw done
    wrote (yes _) (no no_size) = absurd (no_size size)
    wrote (no no_room) _ = absurd (no_room room)
