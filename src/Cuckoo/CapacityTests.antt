-- ===== src/Cuckoo/CapacityTests.antt =====
-- The capacity helpers at concrete values.
use ikpir.Prelude.{ℕ, ◌^◌, ◌≡◌, ◌↔◌, Bool, true, some, arith}
use ikpir.Cuckoo.Capacity.{
  next_power_of_3, is_power_of_3, IsNextPower, next_power_of_3-IsNextPower, is_power_of_3_lem,
}

next_power_of_3_example : (p : ℕ) × ((next_power_of_3 10 ≡ some p) × IsNextPower 3 10 p)
next_power_of_3_example = next_power_of_3-IsNextPower 10 (omega arith)

is_power_of_3_example :
    (b : Bool) × ((is_power_of_3 27 ≡ some b) × ((b ≡ true) ↔ ((t : ℕ) × (27 ≡ 3 ^ t))))
is_power_of_3_example = is_power_of_3_lem 27 (omega arith)
