-- ===== src/Chain/Acceptance/Tests.antt =====
-- A node with one block and one orphan, whose parent comes. A hash is the first byte of the header.
use coinbasechain.Base.{ℕ, ◌*◌, ◌^◌, ◌≢◌, true, none, some, List, [], ◌∷◌, take}
use coinbasechain.Base.Map.{lookup, bytes_key, nat_key}
use coinbasechain.Chain.Header.{BlockHeader, get_hash, serialize}
use coinbasechain.Chain.Index.{Index, add_to_block_index}
use coinbasechain.Chain.Index.Ancestors.{IsIndex}
use coinbasechain.Chain.Index.Adding.{add_to_block_index-IsIndex}
use coinbasechain.Chain.Orphans.{OrphanHeader}
use coinbasechain.Chain.Acceptance.{Environment, Node, Acceptance, accept_block_header}
use coinbasechain.Chain.Acceptance.Accepting.{Accepts}
use coinbasechain.Chain.Acceptance.Orphanage.{accept_block_header-Accepts}

abbrev env : Environment
env = record {
  sha256 = λ bytes. take 1 bytes;
  calculate_hash = λ epoch header. some (1 ∷ []);
  calculate_commitment = λ header rx_hash. [];
  params = record {
    pow_limit = 0x7fffff * 2 ^ 232;
    is_regtest = true;
    asert_anchor_height = 0;
    pow_target_spacing = 3600;
    asert_half_life = 172800;
    random_x_epoch_duration = 7200;
    hash_genesis_block = 1 ∷ [];
    network_expiration_interval = 0;
    minimum_chain_work = 0;
  };
  adjusted_time = 1000;
  now = 1000;
}

abbrev header : ℕ → List ℕ → BlockHeader
header n prev = record {
  version = n;
  hash_prev_block = prev;
  miner_address = [];
  time = 100 * n;
  bits = 0x207fffff;
  nonce = 0;
  hash_random_x = 1 ∷ [];
}

empty-IsIndex : IsIndex []
unfolding lookup
empty-IsIndex = record { distinct = tt; linked = λ b e h. cc; skips = λ b e s h k. cc }

abbrev one_block : Index
one_block = (add_to_block_index env.sha256 (header 1 []) []).0

genesis-other : [] ≢ get_hash env.sha256 (header 1 [])
unfolding get_hash serialize
genesis-other e = cc

one_block-IsIndex : IsIndex one_block
one_block-IsIndex =
    (add_to_block_index-IsIndex env.sha256 (header 1 []) [] empty-IsIndex genesis-other).0

abbrev waiting_orphan : OrphanHeader
waiting_orphan = record { header = header 3 (2 ∷ []); time_received = 900; peer_id = 7 }

abbrev node : Node
node = record {
  chainstate = record {
    index = one_block;
    chain = some (1 ∷ []) ∷ [];
    selector = record { candidates = []; best_header = none };
    failed_blocks = [];
  };
  pool = record { orphans = (3 ∷ [], waiting_orphan) ∷ []; peer_count = (7, 1) ∷ [] };
}

accept_block_header-Accepts_example :
    Accepts node
      (get_hash env.sha256 (header 2 (1 ∷ [])))
      (accept_block_header env (header 2 (1 ∷ [])) true node)
accept_block_header-Accepts_example =
    accept_block_header-Accepts env (header 2 (1 ∷ [])) true node one_block-IsIndex
