-- ===== src/Chain/Processing/Loading.antt =====
-- The candidates after a start from a file.
use coinbasechain.Base.{
  ◌≡◌, inl, inr, refl, ◌∙◌, arith, Bool, true, false, not, ◌&&◌, ◌||◌, none, some, [], ◌∷◌, All,
  Bool-cases,
}
use coinbasechain.Base.Map.{lookup, bytes_key, bytes_eq, Distinct-listed}
use coinbasechain.Chain.Index.{Hash, BlockIndex, Index, is_valid, block_valid_tree}
use coinbasechain.Chain.Index.Ancestors.{IsIndex}
use coinbasechain.Chain.Selection.{
  ChainSelector, has_children, add_candidate_unchecked, update_best_header,
}
use coinbasechain.Chain.Selection.Sets.{
  IsSorted, is_member, add_candidate-IsSorted, all-add_candidate_any, is_member-add_candidate,
  update_best_header-candidates,
}
use coinbasechain.Chain.Processing.{rebuild_candidates, load_candidates}

-- A valid block of the index that has no children.
abbrev pub Leaf : Index → Hash → Type 0
Leaf m b =
    (e : BlockIndex) × (lookup b m ≡ some e)
    × (has_children b m ≡ false)
    × (is_valid block_valid_tree e ≡ true)

-- Whether a block is such a leaf among some entries.
abbrev pub is_listed : Index → Hash → Index → Bool
is_listed m b [] = false
is_listed m b ((h, e) ∷ rest) =
    not (has_children h m) && is_valid block_valid_tree e && bytes_eq h b || is_listed m b rest

-- The candidates are sorted, each is a leaf, and each leaf that was passed is one of them.
abbrev pub Rebuilt : Index → Index → ChainSelector → ChainSelector → Type 0
Rebuilt m rest s r =
    IsSorted m r.candidates
    × All (Leaf m) r.candidates
    × ((b : Hash) → is_member b r.candidates ≡ is_listed m b rest || is_member b s.candidates)

module _ (m : Index) where
  rebuild_candidates-Rebuilt :
      (rest : Index) (s : ChainSelector)
      → All (λ x. lookup x.0 m ≡ some x.1) rest
      → IsSorted m s.candidates
      → All (Leaf m) s.candidates
      → Rebuilt m rest s (rebuild_candidates m rest s)
  unfolding rebuild_candidates
  rebuild_candidates-Rebuilt [] s listed sorted all = (sorted, all, λ b. refl)
  rebuild_candidates-Rebuilt ((h, e) ∷ rest) s listed sorted all =
      elim (Bool-cases (not (has_children h m) && is_valid block_valid_tree e)) [
        | inr inner ↦
            let (sorted', all', member) = rebuild_candidates-Rebuilt rest s listed.1 sorted all in
            rw inner (sorted', all', λ b. member b ∙ ground arith)
        | inl leaf ↦
            let added = add_candidate_unchecked m (some h) s in
            let same = update_best_header-candidates m h added in
            let entry : Leaf m h = (e, listed.0, ground arith, ground arith) in
            let (sorted', all', member) =
              rebuild_candidates-Rebuilt rest (update_best_header m (some h) added) listed.1
                (rw same (add_candidate-IsSorted m h s.candidates sorted))
                (rw same (all-add_candidate_any m (Leaf m) h s.candidates entry all)) in
            rw leaf (
              sorted',
              all',
              λ b.
                  member b
                  ∙ (rw same (rw (is_member-add_candidate m h b s.candidates) (ground arith))),
            )
      ]

  -- After Load the candidates are sorted, and are exactly the valid blocks without children.
  pub load_candidates-Rebuilt :
      (s : ChainSelector)
      → IsIndex m
      → Rebuilt m m (record { candidates = []; best_header = none }) (load_candidates m s)
  unfolding load_candidates
  load_candidates-Rebuilt s ok =
      rebuild_candidates-Rebuilt m (record { candidates = []; best_header = none })
        (Distinct-listed m ok.distinct) tt tt
