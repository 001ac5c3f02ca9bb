-- ===== src/Chain/Active/Tests.antt =====
-- The active chain over a single block.
use coinbasechain.Base.{
  ℕ, ◌+◌, ◌*◌, ◌≡◌, ◌≢◌, ap, refl, none, some, List, [], ◌∷◌, take, length, arith,
}
use coinbasechain.Base.Map.{has, bytes_less, lookup, insert, bytes_key, bytes_eq}
use coinbasechain.Chain.Index.{
  BlockIndex, Index, add_to_block_index, new_entry, get_ancestor, get_skip_height,
}
use coinbasechain.Chain.Arith.{get_block_proof, set_compact}
use coinbasechain.Chain.Header.{BlockHeader, get_hash, serialize, all_zero}
use coinbasechain.Chain.Index.Adding.{add_to_block_index-IsIndex}
use coinbasechain.Chain.Index.Ancestors.{IsIndex}
use coinbasechain.Chain.Active.{set_tip, last_common_ancestor}
use coinbasechain.Chain.Active.Filling.{Consistent, Holds}
use coinbasechain.Chain.Active.Forks.{LastCommon, last_common_ancestor-LastCommon}
use coinbasechain.Chain.Active.Tip.{set_tip-Holds}

abbrev first_byte : List ℕ → List ℕ
first_byte bytes = take 1 bytes

abbrev header : ℕ → List ℕ → BlockHeader
header n prev = record {
  version = n;
  hash_prev_block = prev;
  miner_address = [];
  time = 100 * n;
  bits = 0x207fffff;
  nonce = 0;
  hash_random_x = [];
}

empty-IsIndex : IsIndex []
unfolding lookup
empty-IsIndex = record { distinct = tt; linked = λ b e h. cc; skips = λ b e s h k. cc }

root-other : (header 1 []).hash_prev_block ≢ get_hash first_byte (header 1 [])
unfolding get_hash serialize
root-other e = cc

abbrev sum_of : List ℕ → ℕ
sum_of [] = 0
sum_of (x ∷ xs) = x + sum_of xs

child-other : (header 2 (1 ∷ [])).hash_prev_block ≢ get_hash first_byte (header 2 (1 ∷ []))
unfolding get_hash serialize
child-other e = ground (arith, ap sum_of e)

abbrev blocks : Index
blocks =
    (add_to_block_index first_byte (header 2 (1 ∷ []))
      (add_to_block_index first_byte (header 1 []) []).0).0

blocks-IsIndex : IsIndex blocks
blocks-IsIndex =
    (add_to_block_index-IsIndex first_byte (header 2 (1 ∷ []))
      (add_to_block_index first_byte (header 1 []) []).0
      ((add_to_block_index-IsIndex first_byte (header 1 []) [] empty-IsIndex root-other).0)
      child-other).0

abbrev child : BlockIndex
child = record (new_entry (header 2 (1 ∷ [])) (some (1 ∷ [])) 1 4 200) { skip = some (1 ∷ []) }

child-found : lookup (2 ∷ []) blocks ≡ some child
unfolding add_to_block_index get_hash serialize has lookup insert bytes_eq bytes_less all_zero
    get_block_proof set_compact get_ancestor get_skip_height
child-found = refl

set_tip-Holds_example :
    (length (set_tip blocks (2 ∷ []) []) ≡ child.height + 1)
    × Holds blocks (set_tip blocks (2 ∷ []) []) (2 ∷ []) child.height
    × ((h : ℕ) → Consistent blocks (set_tip blocks (2 ∷ []) []) h)
set_tip-Holds_example =
    set_tip-Holds blocks (2 ∷ []) child [] blocks-IsIndex child-found (λ h j x low there. cc)

abbrev root : BlockIndex
root = new_entry (header 1 []) none 0 2 100

root-found : lookup (1 ∷ []) blocks ≡ some root
unfolding add_to_block_index get_hash serialize has lookup insert bytes_eq bytes_less all_zero
    get_block_proof set_compact get_ancestor get_skip_height
root-found = refl

last_common_ancestor-LastCommon_example :
    LastCommon blocks (2 ∷ []) (1 ∷ []) (last_common_ancestor blocks (2 ∷ []) (1 ∷ []))
last_common_ancestor-LastCommon_example =
    last_common_ancestor-LastCommon blocks blocks-IsIndex (2 ∷ []) (1 ∷ []) child root child-found
      root-found
