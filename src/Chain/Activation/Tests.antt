-- ===== src/Chain/Activation/Tests.antt =====
-- A chain of two blocks whose tip is still the first, and one candidate. A hash is the first byte.
use coinbasechain.Base.{ℕ, ◌*◌, ◌≡◌, ◌≢◌, inr, refl, none, some, List, [], ◌∷◌, take, arith}
use coinbasechain.Base.Map.{has, lookup, insert, bytes_key, bytes_eq, bytes_less}
use coinbasechain.Chain.Header.{BlockHeader, get_hash, serialize, all_zero}
use coinbasechain.Chain.Arith.{get_block_proof, set_compact}
use coinbasechain.Chain.Index.{
  BlockIndex, Index, add_to_block_index, get_ancestor, get_skip_height, new_entry,
}
use coinbasechain.Chain.Index.Ancestors.{up, IsIndex}
use coinbasechain.Chain.Index.Adding.{add_to_block_index-IsIndex}
use coinbasechain.Chain.Index.Changing.{changed-IsIndex}
use coinbasechain.Chain.Active.{set_tip, last_common_ancestor}
use coinbasechain.Chain.Selection.{may_lead}
use coinbasechain.Chain.Activation.{
  Chainstate, block_connected, chain_tip, Activation, activate_best_chain, activate_best_chain_step,
}
use coinbasechain.Chain.Activation.Leading.{Leads, set_tip-Leads}
use coinbasechain.Chain.Activation.Switching.{
  Switched, announcement, activate_best_chain_step-Switched,
}
use coinbasechain.Chain.Activation.Settled.{Best}
use coinbasechain.Chain.Activation.Best.{activate_best_chain-Best}

abbrev first_byte : List ℕ → List ℕ
first_byte bytes = take 1 bytes

abbrev header : ℕ → List ℕ → BlockHeader
header n prev = record {
  version = n;
  hash_prev_block = prev;
  miner_address = [];
  time = 100 * n;
  bits = 0x207fffff;
  nonce = 0;
  hash_random_x = [];
}

empty-IsIndex : IsIndex []
unfolding lookup
empty-IsIndex = record { distinct = tt; linked = λ b e h. cc; skips = λ b e s h k. cc }

abbrev one_block : Index
one_block = (add_to_block_index first_byte (header 1 []) []).0

genesis-other : [] ≢ get_hash first_byte (header 1 [])
unfolding get_hash serialize
genesis-other e = cc

one_block-IsIndex : IsIndex one_block
one_block-IsIndex =
    (add_to_block_index-IsIndex first_byte (header 1 []) [] empty-IsIndex genesis-other).0

abbrev two_blocks : Index
two_blocks = (add_to_block_index first_byte (header 2 (1 ∷ [])) one_block).0

second-other : 1 ∷ [] ≢ get_hash first_byte (header 2 (1 ∷ []))
unfolding get_hash serialize
second-other e = cc

two_blocks-IsIndex : IsIndex two_blocks
two_blocks-IsIndex =
    (add_to_block_index-IsIndex first_byte (header 2 (1 ∷ [])) one_block one_block-IsIndex
      second-other).0

abbrev second : BlockIndex
second = record (new_entry (header 2 (1 ∷ [])) (some (1 ∷ [])) 1 4 200) { skip = some (1 ∷ []) }

second-found : lookup (2 ∷ []) two_blocks ≡ some second
unfolding add_to_block_index get_hash serialize has lookup insert bytes_eq bytes_less all_zero
    get_block_proof set_compact get_ancestor get_skip_height
second-found = refl

-- The second block is valid.
abbrev valid_second : BlockIndex
valid_second = record second { status = 2 }

abbrev blocks : Index
blocks = insert (2 ∷ []) valid_second two_blocks

blocks-IsIndex : IsIndex blocks
blocks-IsIndex =
    changed-IsIndex two_blocks (2 ∷ []) second valid_second second-found
      (refl, refl, refl, refl, refl, refl, refl) two_blocks-IsIndex

abbrev genesis_entry : BlockIndex
genesis_entry = new_entry (header 1 []) none 0 2 100

genesis-found : lookup (1 ∷ []) blocks ≡ some genesis_entry
unfolding add_to_block_index get_hash serialize has lookup insert bytes_eq bytes_less all_zero
    get_block_proof set_compact get_ancestor get_skip_height
genesis-found = refl

valid-found : lookup (2 ∷ []) blocks ≡ some valid_second
unfolding add_to_block_index get_hash serialize has lookup insert bytes_eq bytes_less all_zero
    get_block_proof set_compact get_ancestor get_skip_height
valid-found = refl

abbrev behind : Chainstate
behind = record {
  index = blocks;
  chain = set_tip blocks (1 ∷ []) [];
  selector = record { candidates = (2 ∷ []) ∷ []; best_header = some (2 ∷ []) };
  failed_blocks = [];
}

behind-Leads : Leads blocks behind.chain (1 ∷ []) genesis_entry
behind-Leads =
    set_tip-Leads blocks blocks-IsIndex (1 ∷ []) genesis_entry [] genesis-found
      (λ h j x low there. cc)

fork-found : last_common_ancestor blocks (1 ∷ []) (2 ∷ []) ≡ some (1 ∷ [])
unfolding add_to_block_index get_hash serialize has lookup insert bytes_eq bytes_less all_zero
    get_block_proof set_compact get_ancestor get_skip_height last_common_ancestor
fork-found = refl

abbrev depth : ℕ
depth = 3

activate_best_chain_step-Switched_example :
    (i : ℕ) × (j : ℕ) × (up blocks i (1 ∷ []) ≡ some (1 ∷ []))
    × (up blocks j (2 ∷ []) ≡ some (1 ∷ []))
    × Switched behind []
        (announcement blocks i (1 ∷ []) j (2 ∷ []))
        (2 ∷ [])
        valid_second
        (activate_best_chain_step depth (2 ∷ []) behind [])
activate_best_chain_step-Switched_example =
    activate_best_chain_step-Switched behind blocks-IsIndex depth (1 ∷ []) (2 ∷ []) (1 ∷ [])
      genesis_entry valid_second [] behind-Leads valid-found (omega arith) fork-found
      (inr (omega arith))

activate_best_chain-Best_example :
    Best depth behind
      (1 ∷ [])
      genesis_entry
      behind.selector.candidates
      (activate_best_chain depth none behind)
activate_best_chain-Best_example =
    activate_best_chain-Best depth behind blocks-IsIndex (1 ∷ []) genesis_entry behind-Leads
      (tt, tt) ((valid_second, valid-found, (1 ∷ [], fork-found)), tt)

-- The tip moves, and the notices are those of the second block.
moved :
    (r : Activation) × (activate_best_chain depth none behind ≡ some r)
    × (r.events ≡ block_connected (2 ∷ []) ∷ chain_tip (2 ∷ []) 1 ∷ [])
unfolding activate_best_chain add_to_block_index get_hash serialize has lookup insert bytes_eq
    bytes_less all_zero get_block_proof set_compact get_ancestor get_skip_height may_lead
moved = (_, refl, refl)
