-- ===== src/Chain/Contextual/Tests.antt =====
-- Headers after one block of a regtest chain, that block being of time 5000.
use coinbasechain.Base.{ℕ, ◌*◌, ◌^◌, ◌≡◌, refl, true, none, some, [], ◌∷◌}
use coinbasechain.Base.Map.{lookup, bytes_key, bytes_eq}
use coinbasechain.Chain.Header.{BlockHeader}
use coinbasechain.Chain.Arith.{get_compact}
use coinbasechain.Chain.Index.{BlockIndex, Index}
use coinbasechain.Chain.Pow.{ConsensusParams}
use coinbasechain.Chain.Contextual.{
  valid, invalid, time_too_old, time_too_new, contextual_check_block_header,
}
use coinbasechain.Chain.Contextual.Explained.{Explained}

abbrev params : ConsensusParams
params = record {
  pow_limit = 0x7fffff * 2 ^ 232;
  is_regtest = true;
  asert_anchor_height = 0;
  pow_target_spacing = 3600;
  asert_half_life = 172800;
  random_x_epoch_duration = 7200;
  hash_genesis_block = [];
  network_expiration_interval = 100;
  minimum_chain_work = 0;
}

abbrev entry : BlockIndex
entry = record {
  status = 2;
  prev = none;
  skip = none;
  height = 0;
  chain_work = 2;
  version = 1;
  miner_address = [];
  time = 5000;
  bits = 0x207fffff;
  nonce = 0;
  hash_random_x = [];
  time_received = 0;
  time_max = 5000;
}

abbrev chain : Index
chain = (1 ∷ [], entry) ∷ []

abbrev header : ℕ → BlockHeader
header time = record {
  version = 1;
  hash_prev_block = 1 ∷ [];
  miner_address = [];
  time = time;
  bits = 0x207fffff;
  nonce = 0;
  hash_random_x = [];
}

later_valid : contextual_check_block_header params chain (some (1 ∷ [])) 5000 (header 5001) ≡ valid
unfolding contextual_check_block_header lookup bytes_eq get_compact
later_valid = refl

same_time_refused :
    contextual_check_block_header params chain (some (1 ∷ [])) 5000 (header 5000)
    ≡ invalid time_too_old
unfolding contextual_check_block_header lookup bytes_eq get_compact
same_time_refused = refl

future_refused :
    contextual_check_block_header params chain (some (1 ∷ [])) 5000 (header 12201)
    ≡ invalid time_too_new
unfolding contextual_check_block_header lookup bytes_eq get_compact
future_refused = refl
