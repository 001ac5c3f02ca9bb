-- ===== src/Chain/Selection/Sets.antt =====
-- The candidates are sorted, without duplicates, under every operation; membership is that of a set.
use coinbasechain.Base.{
  ◌≡◌, inl, inr, refl, arith, Bool, true, false, not, ◌&&◌, ◌||◌, [], ◌∷◌, if_elim, Option_elim,
  ltb, some, Bool-cases, All, All-map,
}
use coinbasechain.Base.Map.{bytes_eq, bytes_eq_iff, bytes_eq_refl}
use coinbasechain.Chain.Index.{Hash, Index}
use coinbasechain.Chain.Active.{Chain, tip}
use coinbasechain.Chain.Selection.{
  Candidates, ChainSelector, chain_work_of, precedes, add_candidate, remove_candidate, is_stale,
  drop_stale, prune_block_index_candidates, update_best_header,
}
use coinbasechain.Chain.Selection.Order.{precedes_trans, precedes_irrefl, precedes_total}

abbrev pub IsSorted : Index → Candidates → Type 0
IsSorted m [] = Unit
IsSorted m (b ∷ s) = All (λ c. precedes m b c ≡ true) s × IsSorted m s

-- m_candidates.count(pindex), by the elements themselves.
abbrev pub is_member : Hash → Candidates → Bool
is_member b [] = false
is_member b (c ∷ s) = bytes_eq c b || is_member b s

module _ (m : Index) where
  all_after :
      (a b : Hash) (s : Candidates)
      → precedes m a b ≡ true
      → All (λ c. precedes m b c ≡ true) s
      → All (λ c. precedes m a c ≡ true) s
  all_after a b [] h all = tt
  all_after a b (c ∷ s) h all = (precedes_trans m a b c h all.0, all_after a b s h all.1)

  all-add_candidate :
      (a b : Hash) (s : Candidates)
      → precedes m b a ≡ true
      → All (λ c. precedes m b c ≡ true) s
      → All (λ c. precedes m b c ≡ true) (add_candidate m a s)
  unfolding add_candidate
  all-add_candidate a b [] h all = (h, tt)
  all-add_candidate a b (c ∷ s) h all = ground (arith, all-add_candidate a b s)

  pub add_candidate-IsSorted :
      (a : Hash) (s : Candidates) → IsSorted m s → IsSorted m (add_candidate m a s)
  unfolding add_candidate
  add_candidate-IsSorted a [] h = (tt, tt)
  add_candidate-IsSorted a (b ∷ s) h =
      if_elim (IsSorted m) (precedes m a b) (λ before. ((before, all_after a b s before h.0), h))
        (λ not_before.
          if_elim (IsSorted m) (precedes m b a)
            (λ after. (all-add_candidate a b s after h.0, add_candidate-IsSorted a s h.1))
            (λ same. h))

  pub all-remove_candidate :
      (P : Hash → Type 0) (a : Hash) (s : Candidates) → All P s → All P (remove_candidate m a s)
  unfolding remove_candidate
  all-remove_candidate P a [] all = tt
  all-remove_candidate P a (c ∷ s) all = ground (arith, all-remove_candidate P a s)

  pub remove_candidate-IsSorted :
      (a : Hash) (s : Candidates) → IsSorted m s → IsSorted m (remove_candidate m a s)
  unfolding remove_candidate
  remove_candidate-IsSorted a [] h = tt
  remove_candidate-IsSorted a (b ∷ s) h =
      if_elim (IsSorted m) (precedes m a b) (λ before. h)
        (λ not_before.
          if_elim (IsSorted m) (precedes m b a)
            (λ after. (
              all-remove_candidate (λ c. precedes m b c ≡ true) a s h.0,
              remove_candidate-IsSorted a s h.1,
            ))
            (λ same. h.1))

  pub all-add_candidate_any :
      (P : Hash → Type 0) (a : Hash) (s : Candidates) → P a → All P s → All P (add_candidate m a s)
  unfolding add_candidate
  all-add_candidate_any P a [] h all = (h, tt)
  all-add_candidate_any P a (c ∷ s) h all = ground (arith, all-add_candidate_any P a s h)

  all-drop_stale :
      (P : Hash → Type 0) (c : Chain) (t : Hash) (s : Candidates)
      → All P s
      → All P (drop_stale m c t s)
  unfolding drop_stale
  all-drop_stale P c t [] all = tt
  all-drop_stale P c t (b ∷ s) all = ground (arith, all-drop_stale P c t s)

  -- Elements come and go as in a set of blocks.
  pub is_member-add_candidate :
      (a b : Hash) (s : Candidates)
      → is_member b (add_candidate m a s) ≡ bytes_eq a b || is_member b s
  unfolding add_candidate
  is_member-add_candidate a b [] = refl
  is_member-add_candidate a b (c ∷ s) =
      ground (arith, is_member-add_candidate a b s, precedes_total m a c)

  not_after :
      (a : Hash) (s : Candidates) → All (λ c. precedes m a c ≡ true) s → is_member a s ≡ false
  not_after a [] all = refl
  not_after a (c ∷ s) all =
      ground (arith, not_after a s all.1, bytes_eq_iff c a, precedes_irrefl m a)

  absent :
      (a b : Hash) (s : Candidates)
      → is_member a s ≡ false
      → is_member b s ≡ not (bytes_eq a b) && is_member b s
  absent a b s h = elim (Bool-cases (bytes_eq a b)) [
    | inl same ↦
        let e : a ≡ b = (bytes_eq_iff a b).0 same in rw (← e) (rw (h, bytes_eq_refl a) refl)
    | inr other ↦ rw other refl
  ]

  other_than :
      (a b c : Hash) → precedes m c a ≡ true → bytes_eq c b ≡ not (bytes_eq a b) && bytes_eq c b
  other_than a b c h = elim (Bool-cases (bytes_eq c b)) [
    | inr other ↦ ground arith
    | inl same ↦
        let e : c ≡ b = (bytes_eq_iff c b).0 same in
        let after : precedes m b a ≡ true = (rw e at (h)) in
        ground (arith, bytes_eq_iff a b, precedes_irrefl m a)
  ]

  pub is_member-remove_candidate :
      (a b : Hash) (s : Candidates)
      → IsSorted m s
      → is_member b (remove_candidate m a s) ≡ not (bytes_eq a b) && is_member b s
  unfolding remove_candidate
  is_member-remove_candidate a b [] h = ground arith
  is_member-remove_candidate a b (c ∷ s) h =
      if_elim (λ r. is_member b r ≡ not (bytes_eq a b) && is_member b (c ∷ s)) (precedes m a c)
        (λ before. absent a b (c ∷ s) (not_after a (c ∷ s) (before, all_after a c s before h.0)))
        (λ not_before.
          if_elim (λ r. is_member b r ≡ not (bytes_eq a b) && is_member b (c ∷ s)) (precedes m c a)
            (λ after. ground (arith, is_member-remove_candidate a b s h.1, other_than a b c after))
            (λ not_after_it.
              let same : a ≡ c = precedes_total m a c not_before not_after_it in
              rw same (ground (arith, absent c b s (not_after c s h.0)))))

  pub all-members : (s : Candidates) → All (λ c. is_member c s ≡ true) s
  all-members [] = tt
  all-members (b ∷ s) =
      (ground (arith, bytes_eq_refl b), All-map (λ c h. ground arith) s (all-members s))

  drop_stale-IsSorted :
      (c : Chain) (t : Hash) (s : Candidates) → IsSorted m s → IsSorted m (drop_stale m c t s)
  unfolding drop_stale
  drop_stale-IsSorted c t [] h = tt
  drop_stale-IsSorted c t (b ∷ s) h =
      if_elim (IsSorted m) (is_stale m c t b) (λ _. drop_stale-IsSorted c t s h.1)
        (λ _.
          (all-drop_stale (λ d. precedes m b d ≡ true) c t s h.0, drop_stale-IsSorted c t s h.1))

  -- Pruning keeps what holds of all candidates, and their order.
  pub all-prune :
      (P : Hash → Type 0) (c : Chain) (s : ChainSelector)
      → All P s.candidates
      → All P (prune_block_index_candidates m c s).candidates
  unfolding prune_block_index_candidates
  all-prune P c s all =
      Option_elim (λ (r : ChainSelector). All P r.candidates) (tip c) (λ _. all)
        (λ t _. all-drop_stale P c t s.candidates all)

  pub prune-IsSorted :
      (c : Chain) (s : ChainSelector)
      → IsSorted m s.candidates
      → IsSorted m (prune_block_index_candidates m c s).candidates
  unfolding prune_block_index_candidates
  prune-IsSorted c s h =
      Option_elim (λ (r : ChainSelector). IsSorted m r.candidates) (tip c) (λ _. h)
        (λ t _. drop_stale-IsSorted c t s.candidates h)

  pub update_best_header-candidates :
      (b : Hash) (s : ChainSelector) → (update_best_header m (some b) s).candidates ≡ s.candidates
  update_best_header-candidates b s =
      Option_elim (λ (r : ChainSelector). r.candidates ≡ s.candidates) s.best_header (λ first. refl)
        λ h best.
          if_elim (λ (r : ChainSelector). r.candidates ≡ s.candidates)
            (ltb (chain_work_of m h) (chain_work_of m b)) (λ _. refl) (λ _. refl)
