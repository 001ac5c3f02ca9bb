-- ===== src/Chain/Selection.antt =====
-- chain/chain_selector.cpp: the blocks that may become the tip, in a std::set under
-- CBlockIndexWorkComparator. The set is the list of its elements in iteration order; its insert,
-- find and erase tell elements apart by the comparator alone. A pointer is a hash in the index.
pub mod Order
pub mod Sets
pub mod Choice
mod Tests
use coinbasechain.Base.{
  ℕ, ltb, ◌==◌, if◌then◌else◌, Bool, true, false, not, ◌&&◌, ◌||◌, Option, none, some, List, [],
  ◌∷◌,
}
use coinbasechain.Base.Map.{lookup, bytes_key, bytes_eq, bytes_less}
use coinbasechain.Chain.Index.{Hash, BlockIndex, Index, is_failed, is_valid, block_valid_tree}
use coinbasechain.Chain.Active.{Chain, tip, contains, is_block}

abbrev pub chain_work_of : Index → Hash → ℕ
chain_work_of m b = elim (lookup b m) [ none ↦ 0 | some e ↦ e.chain_work ]

abbrev pub height_of : Index → Hash → ℕ
height_of m b = elim (lookup b m) [ none ↦ 0 | some e ↦ e.height ]

-- CBlockIndexWorkComparator.
unfoldable pub precedes : Index → Hash → Hash → Bool
precedes m a b =
    if not (chain_work_of m a == chain_work_of m b)
    then ltb (chain_work_of m b) (chain_work_of m a)
    else if not (height_of m a == height_of m b)
    then ltb (height_of m b) (height_of m a)
    else bytes_less a b

abbrev pub Candidates : Type 0
Candidates = List Hash

-- m_candidates.insert
unfoldable pub add_candidate : Index → Hash → Candidates → Candidates
add_candidate m a [] = a ∷ []
add_candidate m a (b ∷ s) =
    let rest = b ∷ add_candidate m a s in
    if precedes m a b then a ∷ b ∷ s else if precedes m b a then rest else b ∷ s

-- m_candidates.find and erase of what it finds, and m_candidates.erase(pindex).
unfoldable pub remove_candidate : Index → Hash → Candidates → Candidates
remove_candidate m a [] = []
remove_candidate m a (b ∷ s) =
    let rest = b ∷ remove_candidate m a s in
    if precedes m a b then b ∷ s else if precedes m b a then rest else s

pub record ChainSelector : Type 0 where
  pub candidates : Candidates
  pub best_header : Option Hash

-- !(nStatus & BLOCK_FAILED_MASK) and IsValid(BLOCK_VALID_TREE)
unfoldable pub may_lead : Index → Hash → Bool
unfolding is_valid
may_lead m b = elim (lookup b m) [
  | none ↦ false
  | some e ↦ not (is_failed e || not (is_valid block_valid_tree e))
]

unfoldable pub scan : Index → Candidates → Candidates × Option Hash
unfolding may_lead
scan m [] = ([], none)
scan m (b ∷ s) = let rest = scan m s in if may_lead m b then (b ∷ s, some b) else rest

unfoldable pub find_most_work_chain : Index → ChainSelector → ChainSelector × Option Hash
unfolding scan
find_most_work_chain m s =
    let (left, found) = scan m s.candidates in (record s { candidates = left }, found)

-- Whether some entry has the block as its parent.
unfoldable pub has_children : Hash → Index → Bool
has_children b [] = false
has_children b ((h, e) ∷ m) = if is_block e.prev b then true else has_children b m

-- A failed assert on nChainWork is `none`.
unfoldable pub try_add_block_index_candidate :
    Index → Option Hash → ChainSelector → Option ChainSelector
unfolding is_valid has_children add_candidate remove_candidate
try_add_block_index_candidate m none s = some s
try_add_block_index_candidate m (some b) s = elim (lookup b m) [
  | none ↦ none
  | some e ↦
      if e.chain_work == 0
      then none
      else if not (is_valid block_valid_tree e)
      then some s
      else if has_children b m
      then some s
      else let parent_gone : Candidates = elim e.prev [
        | none ↦ s.candidates
        | some p ↦ remove_candidate m p s.candidates
      ] in
        some (record s { candidates = add_candidate m b parent_gone })
]

-- The five rules of PruneBlockIndexCandidates, for a candidate and the tip.
unfoldable pub is_stale : Index → Chain → Hash → Hash → Bool
unfolding contains has_children may_lead
is_stale m c t b =
    ltb (chain_work_of m b) (chain_work_of m t)
    || bytes_eq b t
    || contains m c b
    || has_children b m
    || not (may_lead m b)

unfoldable pub drop_stale : Index → Chain → Hash → Candidates → Candidates
unfolding is_stale
drop_stale m c t [] = []
drop_stale m c t (b ∷ s) =
    let rest = drop_stale m c t s in if is_stale m c t b then rest else b ∷ rest

unfoldable pub prune_block_index_candidates : Index → Chain → ChainSelector → ChainSelector
unfolding drop_stale
prune_block_index_candidates m c s = elim (tip c) [
  | none ↦ s
  | some t ↦ record s { candidates = drop_stale m c t s.candidates }
]

abbrev pub add_candidate_unchecked : Index → Option Hash → ChainSelector → ChainSelector
add_candidate_unchecked m none s = s
add_candidate_unchecked m (some b) s = record s { candidates = add_candidate m b s.candidates }

abbrev pub clear_candidates : ChainSelector → ChainSelector
clear_candidates s = record s { candidates = [] }

abbrev pub update_best_header : Index → Option Hash → ChainSelector → ChainSelector
update_best_header m none s = s
update_best_header m (some b) s = elim s.best_header [
  | none ↦ record s { best_header = some b }
  | some h ↦
      if ltb (chain_work_of m h) (chain_work_of m b) then record s { best_header = some b } else s
]

abbrev pub remove : Index → Option Hash → ChainSelector → ChainSelector
remove m none s = s
remove m (some b) s = record s { candidates = remove_candidate m b s.candidates }
