-- ===== src/Client/Tests.antt =====
-- The client's theorems at concrete values.
use ikpir.Prelude.{ℕ, ◌-◌, ◌^◌, ◌≡◌, ◌≢◌, arith}
use ikpir.Client.ConstantTime.{ct_eq_u64_mask, ct_eq_u64_mask_lem}

ct_eq_u64_mask_example :
    (◌≡◌ {A = ℕ} 5 9 → ct_eq_u64_mask 5 9 ≡ 2 ^ 64 - 1) × (◌≢◌ {A = ℕ} 5 9 → ct_eq_u64_mask 5 9 ≡ 0)
ct_eq_u64_mask_example = ct_eq_u64_mask_lem 5 9 (ground arith) (ground arith)
