-- ===== src/Chain/Processing/Candidates.antt =====
-- A block of the index that is offered to the candidates.
use coinbasechain.Base.{
  ◌≡◌, ◌⊎◌, inl, inr, refl, arith, true, false, not, Option, none, some, ◌==◌, Option_elim, if_elim,
  All,
}
use coinbasechain.Base.Map.{lookup, bytes_key, bytes_eq_refl}
use coinbasechain.Chain.Index.{Hash, BlockIndex, Index, is_valid, block_valid_tree}
use coinbasechain.Chain.Selection.{
  Candidates, ChainSelector, chain_work_of, remove_candidate, may_lead, has_children,
  try_add_block_index_candidate,
}
use coinbasechain.Chain.Selection.Sets.{
  IsSorted, is_member, all-add_candidate_any, add_candidate-IsSorted, all-remove_candidate,
  remove_candidate-IsSorted, is_member-add_candidate,
}

-- An assert fails only for a block without work. The candidates stay sorted, and what holds of all
-- of them and of the block still does; the block is one of them, if it has no children and is valid.
abbrev pub Offered : Index → Hash → (Hash → Type 0) → Option ChainSelector → Type 0
Offered m b P none = chain_work_of m b ≡ 0
Offered m b P (some s) =
    IsSorted m s.candidates
    × All P s.candidates
    × ((has_children b m ≡ true) ⊎ (may_lead m b ≡ false) ⊎ (is_member b s.candidates ≡ true))

pub try_add_block_index_candidate-Offered :
    (m : Index) (b : Hash) (e : BlockIndex) (P : Hash → Type 0) (s : ChainSelector)
    → lookup b m ≡ some e
    → P b
    → IsSorted m s.candidates
    → All P s.candidates
    → Offered m b P (try_add_block_index_candidate m (some b) s)
unfolding try_add_block_index_candidate may_lead
try_add_block_index_candidate-Offered m b e P s known one sorted all =
    rw (known, try_add_block_index_candidate)
      (if_elim (Offered m b P) (e.chain_work == 0)
        (λ empty. rw (known, chain_work_of) (ground arith))
        λ some_work.
          if_elim (Offered m b P) (not (is_valid block_valid_tree e))
            (λ bad. (sorted, all, inr (inl (rw (known, may_lead) (ground arith)))))
            λ good.
              if_elim (Offered m b P) (has_children b m) (λ inner. (sorted, all, inl inner))
                λ leaf.
                  let left : Candidates = elim e.prev [
                    | none ↦ s.candidates
                    | some p ↦ remove_candidate m p s.candidates
                  ] in
                  let fit : IsSorted m left × All P left =
                    Option_elim (λ (l : Candidates). IsSorted m l × All P l) e.prev
                      (λ root. (sorted, all))
                      λ p linked. (
                        remove_candidate-IsSorted m p s.candidates sorted,
                        all-remove_candidate m P p s.candidates all,
                      ) in
                  (
                    add_candidate-IsSorted m b left fit.0,
                    all-add_candidate_any m P b left one fit.1,
                    inr (inr (rw (is_member-add_candidate m b b left) (rw (bytes_eq_refl b) refl))),
                  ))
