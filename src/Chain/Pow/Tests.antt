-- ===== src/Chain/Pow/Tests.antt =====
-- ASERT on concrete schedules: blocks of 3600 seconds and a half-life of two days.
use coinbasechain.Base.{
  ℕ, ◌+◌, ◌-◌, ◌*◌, ◌/◌, ◌^◌, ◌≡◌, ◌≤◌, refl, false, none, some, [], ◌∷◌, arith,
}
use coinbasechain.Base.Map.{lookup, bytes_key, bytes_eq}
use coinbasechain.Chain.Index.{BlockIndex, Index, get_ancestor}
use coinbasechain.Chain.Arith.{get_compact, set_compact}
use coinbasechain.Chain.Pow.{
  factor_of, late_exponent, early_exponent, apply_shift, calculate_asert, clamp, ConsensusParams,
  get_next_work_required,
}
use coinbasechain.Chain.Pow.Asert.{calculate_asert-whole}
use coinbasechain.Chain.Pow.Required.{IsTarget, get_next_work_required-IsTarget}

abbrev limit : ℕ
limit = 2 ^ 240

calculate_asert-whole_example :
    (calculate_asert (2 ^ 200) 3600 (3600 * (9 + 1) + 2 * 172800) 9 limit 172800
      ≡ some (clamp limit (2 ^ 200 * 2 ^ 2)))
    × (2 * 172800 ≤ 3600 * (9 + 1)
        → calculate_asert (2 ^ 200) 3600 (3600 * (9 + 1) - 2 * 172800) 9 limit 172800
          ≡ some (clamp limit (2 ^ 200 / 2 ^ 2)))
calculate_asert-whole_example =
    calculate_asert-whole (2 ^ 200) 3600 9 limit 172800 2 (omega arith) (omega arith) (omega arith)
      (omega arith) (omega arith)

abbrev params : ConsensusParams
params = record {
  pow_limit = limit;
  is_regtest = false;
  asert_anchor_height = 0;
  pow_target_spacing = 3600;
  asert_half_life = 172800;
  random_x_epoch_duration = 7200;
  hash_genesis_block = [];
  network_expiration_interval = 0;
  minimum_chain_work = 0;
}

-- The anchor at height 0, and the target of the block after it.
abbrev anchor : BlockIndex
anchor = record {
  status = 2;
  prev = none;
  skip = none;
  height = 0;
  chain_work = 2;
  version = 1;
  miner_address = [];
  time = 5000;
  bits = 0x1e00ffff;
  nonce = 0;
  hash_random_x = [];
  time_received = 0;
  time_max = 5000;
}

abbrev anchored : Index
anchored = (1 ∷ [], anchor) ∷ []

second_block : (bits : ℕ) × (get_next_work_required params anchored (some (1 ∷ [])) ≡ some bits)
unfolding get_next_work_required lookup calculate_asert factor_of late_exponent early_exponent
    apply_shift get_compact set_compact get_ancestor bytes_eq
second_block = (_, refl)

get_next_work_required-IsTarget_example : IsTarget limit second_block.0
get_next_work_required-IsTarget_example =
    get_next_work_required-IsTarget params anchored (some (1 ∷ [])) second_block.0 (omega arith)
      (omega arith) second_block.1
