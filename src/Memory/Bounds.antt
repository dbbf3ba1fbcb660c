-- ===== src/Memory/Bounds.antt =====
-- The bounds of a tenant's memory: what `new` makes, what `translate` lets through, what `grow` keeps.
use chronos_uvm.Prelude.{ℕ, ◌+◌, ◌-◌, ◌*◌, ◌/◌, ◌%◌, ◌≤◌, ◌<◌, ◌≡◌, ap, ◌∙◌, u32, arith, dec_lt}
use chronos_uvm.Prelude.Result.{ok, err}
use chronos_uvm.Page.{page_size}
use native.Mathlib.Nat.{mod-eq_of_lt}
use chronos_uvm.Memory.{out_of_bounds, quota_exceeded, MmapGuardedMemory, checked, translate, grow}

-- The quota is a `u32`, what is committed is within it, and the whole quota lies below the guard page.
pub record IsValid (m : MmapGuardedMemory) : Type 0 where
  pub quota_fits : m.quota_bytes < u32
  pub size_le : m.size_bytes ≤ m.quota_bytes
  pub guarded : m.quota_bytes + page_size ≤ m.mapped_len

-- What `translate` may return for an access.
pub record Translated (guest_ptr len : ℕ) (m : MmapGuardedMemory) : Type 0 where
  inside :
      guest_ptr + len ≤ m.size_bytes
      → (translate guest_ptr len m ≡ ok (m.base + guest_ptr))
        × (m.base + guest_ptr + len ≤ m.base + m.mapped_len - page_size)
  outside :
      m.size_bytes < guest_ptr + len
      → translate guest_ptr len m ≡ err (out_of_bounds guest_ptr len m.size_bytes)

-- For any pointer and length, their sum beyond 32 bits included: an access that ends within the
-- committed size gets its address, and no byte of it reaches the guard page; every other access is
-- out of bounds.
pub translate_lem :
    (guest_ptr len : ℕ) (m : MmapGuardedMemory) → IsValid m → Translated guest_ptr len m
unfolding translate checked
translate_lem guest_ptr len m v = record {
  inside = λ h. (ground (arith, v.quota_fits, v.size_le), omega (arith, v.size_le, v.guarded));
  outside = λ h. ground arith;
}

-- What `grow` does: it refuses what is over the quota, and commits the rest.
pub record Grown (delta_pages : ℕ) (m : MmapGuardedMemory) : Type 0 where
  over :
      m.quota_bytes < m.size_bytes + delta_pages * page_size
      → grow delta_pages m
        ≡ (err (quota_exceeded ((m.size_bytes + delta_pages * page_size) % u32) m.quota_bytes), m)
  within :
      m.size_bytes + delta_pages * page_size ≤ m.quota_bytes
      → grow delta_pages m ≡ (
        ok (m.size_bytes / page_size),
        record m { size_bytes = m.size_bytes + delta_pages * page_size },
      )
  valid : IsValid (grow delta_pages m).1
  kept :
      (guest_ptr len a : ℕ)
      → translate guest_ptr len m ≡ ok a
      → translate guest_ptr len (grow delta_pages m).1 ≡ ok a

pub translate-ok :
    (guest_ptr len a : ℕ) (m : MmapGuardedMemory)
    → translate guest_ptr len m ≡ ok a
    → (guest_ptr + len ≤ m.size_bytes) × (m.base + guest_ptr ≡ a)
unfolding translate checked
translate-ok guest_ptr len a m h = ground (arith, h)

translate-larger :
    (guest_ptr len a size : ℕ) (m : MmapGuardedMemory)
    → IsValid m
    → m.size_bytes ≤ size
    → size ≤ m.quota_bytes
    → translate guest_ptr len m ≡ ok a
    → translate guest_ptr len (record m { size_bytes = size }) ≡ ok a
translate-larger guest_ptr len a size m v l u h =
    let (inside, at) = translate-ok guest_ptr len a m h in
    let larger =
      translate_lem guest_ptr len (record m { size_bytes = size })
        (record { quota_fits = v.quota_fits; size_le = u; guarded = v.guarded }) in
    (larger.inside (omega (arith, inside, l))).0 ∙ ap ok at

grow-within :
    (delta_pages : ℕ) (m : MmapGuardedMemory)
    → IsValid m
    → m.size_bytes + delta_pages * page_size ≤ m.quota_bytes
    → grow delta_pages m ≡ (
      ok (m.size_bytes / page_size),
      record m { size_bytes = m.size_bytes + delta_pages * page_size },
    )
unfolding grow
grow-within delta_pages m v h =
    rw
      (mod-eq_of_lt {n = m.size_bytes + delta_pages * page_size} {m = u32}
        (omega (arith, v.quota_fits)))
      (ground arith)

-- On a valid memory, for any number of pages: growth over the quota is refused and changes nothing,
-- growth within it commits just that many pages and returns how many there were; the memory stays
-- valid, and every access that was let through before still goes to the same address.
pub grow_lem : (delta_pages : ℕ) (m : MmapGuardedMemory) → IsValid m → Grown delta_pages m
unfolding grow
grow_lem delta_pages m v = split (dec_lt m.quota_bytes (m.size_bytes + delta_pages * page_size))
  where
    split : Dec (m.quota_bytes < m.size_bytes + delta_pages * page_size) → Grown delta_pages m
    split (yes o) =
        let same : grow delta_pages m ≡ (
          err (quota_exceeded ((m.size_bytes + delta_pages * page_size) % u32) m.quota_bytes),
          m,
        ) =
          ground arith in
        record {
          over = λ h. same;
          within = λ h. absurd (omega arith);
          valid = rw same v;
          kept = λ guest_ptr len a h. rw same h;
        }
    split (no n) =
        let done = grow-within delta_pages m v (omega arith) in
        record {
          over = λ h. absurd (n h);
          within = λ h. done;
          valid =
              rw done
                (record { quota_fits = v.quota_fits; size_le = omega arith; guarded = v.guarded });
          kept = λ guest_ptr len a h. rw done (
              translate-larger guest_ptr len a (m.size_bytes + delta_pages * page_size) m v
                (omega arith) (omega arith) h);
        }
