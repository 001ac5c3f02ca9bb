-- ===== src/Chain/Processing/Sample.antt =====
-- A node that has started, for the tests. A hash is the first byte of the header.
use coinbasechain.Base.{
  ℕ, ◌*◌, ◌^◌, ◌≡◌, ◌≢◌, refl, sym, subst, Bool, true, some, List, [], ◌∷◌, take,
}
use coinbasechain.Base.Map.{bytes_key, nat_key}
use coinbasechain.Chain.Header.{BlockHeader, get_hash, serialize, all_zero}
use coinbasechain.Chain.Index.{Hash}
use coinbasechain.Chain.Acceptance.{Environment, Node}
use coinbasechain.Chain.Processing.{Startup, initialize}
use coinbasechain.Chain.Processing.Soundness.{Sound}
use coinbasechain.Chain.Processing.Starting.{nothing_yet, initialize-Sound}

abbrev pub first_byte : List ℕ → List ℕ
first_byte bytes = take 1 bytes

abbrev pub env : Environment
env = record {
  sha256 = first_byte;
  calculate_hash = λ epoch header. some (1 ∷ []);
  calculate_commitment = λ header rx_hash. [];
  params = record {
    pow_limit = 0x7fffff * 2 ^ 232;
    is_regtest = true;
    asert_anchor_height = 0;
    pow_target_spacing = 3600;
    asert_half_life = 172800;
    random_x_epoch_duration = 7200;
    hash_genesis_block = 1 ∷ [];
    network_expiration_interval = 0;
    minimum_chain_work = 0;
  };
  adjusted_time = 1000;
  now = 1000;
}

abbrev pub header : ℕ → List ℕ → BlockHeader
header n prev = record {
  version = n;
  hash_prev_block = prev;
  miner_address = [];
  time = 100 * n;
  bits = 0x207fffff;
  nonce = 0;
  hash_random_x = 1 ∷ [];
}

pub genesis-other : [] ≢ get_hash first_byte (header 1 [])
unfolding get_hash serialize
genesis-other e = cc

pub no_parent : all_zero [] ≡ true
unfolding all_zero
no_parent = refl

abbrev pub root : Hash
root = get_hash first_byte (header 1 [])

abbrev pub started : Startup
started = (initialize first_byte (header 1 []) nothing_yet).0

pub started-Sound : Sound (get_hash first_byte (header 1 [])) started.chainstate
started-Sound =
    let (s, eq, sound, _, _, _, _, _) =
      initialize-Sound first_byte (header 1 []) no_parent genesis-other in
    subst (λ (r : Startup × Bool). Sound (get_hash first_byte (header 1 [])) r.0.chainstate)
      (sym eq) sound

abbrev pub node : Node
node = record { chainstate = started.chainstate; pool = record { orphans = []; peer_count = [] } }
