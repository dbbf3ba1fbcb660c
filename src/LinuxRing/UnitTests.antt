-- ===== src/LinuxRing/UnitTests.antt =====
-- The unit test of chronos-io/src/linux_ring.rs, on the model.
use chronos_uvm.Prelude.{Bool, true, ◌&&◌, ◌==◌, ◌≡◌, refl, Option, some, debug, ◌>>=◌}
use chronos_uvm.LinuxRing.{pack_user_data, unpack_user_data}

user_data_packing_round_trips : Option Bool
unfolding pack_user_data unpack_user_data
user_data_packing_round_trips = do
  packed ← pack_user_data debug 12345 99 555
  let (c2, g2, r2) = unpack_user_data packed
  some (c2 == 12345 && g2 == 99 && r2 == 555)

unit_tests_pass : user_data_packing_round_trips ≡ some true
unfolding user_data_packing_round_trips
unit_tests_pass = refl
