-- ===== src/LinuxRing/UserData.antt =====
-- The user data of an entry: three fields in one word, and back.
use Prim.Native.Nat.{bit_and, bit_or}
use chronos_uvm.Prelude.{
  ℕ, ◌+◌, ◌*◌, ◌/◌, ◌%◌, ◌^◌, ◌<◌, ◌≡◌, refl, sym, ap, ◌∙◌, some, true, Profile, lt→ltb,
  debug_assert_holds, u64, arith,
}
use chronos_uvm.Prelude.Bits.{bit, bit_or-fields, bit_and-mask}
use native.Mathlib.Nat.{mod-eq_of_lt}
use chronos_uvm.LinuxRing.{low_20, pack_user_data, unpack_user_data}

-- The word that three fields in range make.
abbrev pub packed : ℕ → ℕ → ℕ → ℕ
packed cell guest_fd request_id = cell * 2 ^ 40 + guest_fd * 2 ^ 20 + request_id

module _ (p : Profile) (cell guest_fd request_id : ℕ) (c : cell < 2 ^ 24) (g : guest_fd < 2 ^ 20)
    (i : request_id < 2 ^ 20) where
  cell_field : cell * 2 ^ 40 % u64 ≡ cell * 2 ^ 40
  cell_field = mod-eq_of_lt {n = cell * 2 ^ 40} {m = u64} (omega arith)

  fd_field : guest_fd * 2 ^ 20 % u64 ≡ guest_fd * 2 ^ 20
  fd_field = mod-eq_of_lt {n = guest_fd * 2 ^ 20} {m = u64} (omega arith)

  id_field : bit_and request_id low_20 ≡ request_id
  id_field =
      ap (λ (t : ℕ). bit_and t low_20) {x = request_id} {y = 0 * bit 20 + request_id} (omega arith)
      ∙ bit_and-mask 20 0 request_id i

  -- The cell and the descriptor as one field above the request.
  upper : cell * 2 ^ 40 + guest_fd * 2 ^ 20 ≡ (cell * 2 ^ 20 + guest_fd) * bit 20
  upper = omega arith

  joined :
      bit_or (bit_or (cell * 2 ^ 40) (guest_fd * 2 ^ 20)) request_id
      ≡ packed cell guest_fd request_id
  joined =
      ap (λ (t : ℕ). bit_or t request_id)
        (bit_or-fields 40 cell (guest_fd * 2 ^ 20) (omega arith) ∙ upper)
      ∙ bit_or-fields 20 (cell * 2 ^ 20 + guest_fd) request_id i
      ∙ ap (λ (t : ℕ). t + request_id) (sym upper)

  pack_lem : pack_user_data p cell guest_fd request_id ≡ some (packed cell guest_fd request_id)
  unfolding pack_user_data
  pack_lem =
      rw
        (
          lt→ltb cell (2 ^ 24) c,
          lt→ltb guest_fd (2 ^ 20) g,
          lt→ltb request_id (2 ^ 20) i,
          debug_assert_holds p true refl,
          cell_field,
          fd_field,
          id_field,
        )
        (ap some joined)

  unpack_lem : unpack_user_data (packed cell guest_fd request_id) ≡ (cell, guest_fd, request_id)
  unfolding unpack_user_data
  unpack_lem = pair3 cells fds ids
    where
      pair3 :
          {a a' b b' d d' : ℕ}
          → a ≡ a'
          → b ≡ b'
          → d ≡ d'
          → ◌≡◌ {A = ℕ × ℕ × ℕ} (a, b, d) (a', b', d')
      pair3 x y z = rw (x, y, z)

      cells : packed cell guest_fd request_id / 2 ^ 40 ≡ cell
      cells = omega arith

      fds : bit_and (packed cell guest_fd request_id / 2 ^ 20) low_20 ≡ guest_fd
      fds =
          ap (λ (t : ℕ). bit_and t low_20) {x = packed cell guest_fd request_id / 2 ^ 20}
            {y = cell * 2 ^ 20 + guest_fd} (omega arith)
          ∙ bit_and-mask 20 cell guest_fd g

      ids : bit_and (packed cell guest_fd request_id) low_20 ≡ request_id
      ids =
          ap (λ (t : ℕ). bit_and (t + request_id) low_20) upper
          ∙ bit_and-mask 20 (cell * 2 ^ 20 + guest_fd) request_id i

  -- For a cell of 24 bits, and a descriptor and a request of 20 bits each, packing does not panic in
  -- either build, and unpacking the word gives the three back.
  pub unpack-pack :
      (bits : ℕ) × (pack_user_data p cell guest_fd request_id ≡ some bits)
      × (bits < u64)
      × (unpack_user_data bits ≡ (cell, guest_fd, request_id))
  unpack-pack = (packed cell guest_fd request_id, pack_lem, omega arith, unpack_lem)
