-- ===== src/Chain/Invalidation.antt =====
-- chain/chainstate_manager.cpp: InvalidateBlock. The competing forks are kept in the order of the
-- index, and not by their work, since the set of candidates has an order of its own.
pub mod Soundness
pub mod Flags
pub mod Failing
pub mod Descendants
pub mod Sweeping
pub mod Offering
pub mod Results
mod Tests
use coinbasechain.Base.{
  ℕ, zero, suc, ◌+◌, ◌-◌, Bool, true, false, not, ◌&&◌, ◌||◌, Option, none, some, List, [], ◌∷◌,
  map, ltb, leb, ◌==◌, if◌then◌else◌, bit_and, length, keep,
}
use coinbasechain.Base.Map.{lookup, insert, bytes_key, bytes_eq}
use coinbasechain.Chain.Index.{
  Hash, BlockIndex, Index, parent, is_valid, block_valid_tree, block_failed_valid,
  block_failed_child, get_ancestor,
}
use coinbasechain.Chain.Active.{Chain, tip, contains, is_block}
use coinbasechain.Chain.Selection.{
  ChainSelector, chain_work_of, height_of, add_candidate_unchecked, has_children, remove,
}
use coinbasechain.Chain.Activation.{Chainstate, Attempt, disconnect_tip, mark_failed, note_failed}

abbrev pub keys : Index → List Hash
keys m = map (λ x. x.0) m

-- The blocks that are not in the active chain, have at least the work of a block, and are valid.
unfoldable pub competing : Index → Chain → Hash → List Hash
unfolding contains is_valid
competing m c p = keys (
    keep
      (λ x.
        not (contains m c x.0)
        && leb (chain_work_of m p) x.1.chain_work
        && is_valid block_valid_tree x.1)
      m)

-- Blocks that become candidates.
unfoldable pub add_all : Index → List Hash → ChainSelector → ChainSelector
add_all m [] s = s
add_all m (b ∷ bs) s = add_all m bs (add_candidate_unchecked m (some b) s)

-- The candidates after a tip was disconnected, and the forks that are left.
unfoldable pub fall_back :
    Index → Hash → Option Hash → List Hash → ChainSelector → ChainSelector × List Hash
unfolding add_all
fall_back m t none forks s = (remove m (some t) s, forks)
fall_back m t (some p) forks s =
    let enough : Hash → Bool = λ f. leb (chain_work_of m p) (chain_work_of m f) in
    let begun = add_candidate_unchecked m (some p) (remove m (some t) s) in
    (add_all m (keep enough forks) begun, keep (λ f. not (enough f)) forks)

-- The loop that disconnects tips until the block is not in the active chain.
unfoldable pub disconnect_through : ℕ → Hash → List Hash → Attempt → Attempt
unfolding contains disconnect_tip fall_back
disconnect_through zero b forks a = a
disconnect_through (suc fuel) b forks a =
    let m = a.state.index in
    elim (tip a.state.chain) [
      | none ↦ a
      | some t ↦ elim (contains m a.state.chain b) [
        | false ↦ a
        | true ↦
            let next = disconnect_tip a.state a.events in
            let (selector, left) = fall_back m t (parent m t) forks next.state.selector in
            let fallen = record next { state = record next.state { selector = selector } } in
            elim next.done [ false ↦ next | true ↦ disconnect_through fuel b left fallen ]
      ]
    ]

-- nStatus | BLOCK_FAILED_VALID.
abbrev pub failed_valid_status : ℕ → ℕ
failed_valid_status status =
    if bit_and status block_failed_valid == 0 then status + block_failed_valid else status

-- (nStatus & ~BLOCK_FAILED_VALID) | BLOCK_FAILED_CHILD.
abbrev pub failed_child_status : ℕ → ℕ
failed_child_status status =
    let cleared =
      if bit_and status block_failed_valid == 0 then status else status - block_failed_valid in
    if bit_and cleared block_failed_child == 0 then cleared + block_failed_child else cleared

-- A block and its new status: it is failed, and no candidate.
abbrev pub fail : Hash → BlockIndex → Chainstate → Chainstate
fail h e s =
    let m = insert h e s.index in
    record s {
      index = m;
      failed_blocks = note_failed h s.failed_blocks;
      selector = remove m (some h) s.selector;
    }

-- The pass that marks the descendants of a block at a height.
unfoldable pub fail_descendants : List Hash → Hash → ℕ → Chainstate → Chainstate
unfolding get_ancestor
fail_descendants [] b height s = s
fail_descendants (h ∷ hs) b height s = elim (lookup h s.index) [
  | none ↦ fail_descendants hs b height s
  | some e ↦ elim (not (bytes_eq h b) && is_block (get_ancestor s.index h height) b) [
    | false ↦ fail_descendants hs b height s
    | true ↦
        let marked = record e { status = failed_child_status e.status } in
        fail_descendants hs b height (fail h marked s)
  ]
]

-- The last pass: valid blocks without children that have at least the tip's work.
unfoldable pub leaves : Index → Hash → List Hash
unfolding is_valid has_children
leaves m t = keys (
    keep
      (λ x.
        is_valid block_valid_tree x.1
        && leb (chain_work_of m t) x.1.chain_work
        && not (has_children x.0 m))
      m)

-- From the disconnected state on.
unfoldable pub mark_and_clean : Hash → BlockIndex → Chainstate → Chainstate
unfolding fail_descendants leaves add_all
mark_and_clean b e s =
    let begun = fail b (record e { status = failed_valid_status e.status }) s in
    let done = fail_descendants (keys begun.index) b e.height begun in
    elim (tip done.chain) [
      | none ↦ done
      | some t ↦ record done { selector = add_all done.index (leaves done.index t) done.selector }
    ]

unfoldable pub invalidate_block : Hash → Chainstate → Attempt
unfolding competing disconnect_through mark_and_clean contains
invalidate_block b s =
    let refused : Attempt = record { state = s; events = []; done = false } in
    elim (lookup b s.index) [
      | none ↦ refused
      | some e ↦ elim (e.height == 0) [
        | true ↦ refused
        | false ↦
            let forks : List Hash = elim e.prev [
              | none ↦ []
              | some p ↦ competing s.index s.chain p
            ] in
            let a =
              disconnect_through (length s.chain + 1) b forks
                (record { state = s; events = []; done = true }) in
            if not a.done || contains a.state.index a.state.chain b
            then record a { events = []; done = false }
            else record a { state = mark_and_clean b e a.state }
      ]
    ]
