-- ===== src/Chain/Selection/Choice.antt =====
-- FindMostWorkChain chooses the valid candidate with the most work.
use coinbasechain.Base.{
  ◌≡◌, ◌⊎◌, inl, inr, refl, arith, true, false, Option, none, some, [], ◌∷◌, if_elim, All, All-map,
}
use coinbasechain.Base.Map.{bytes_eq_refl}
use coinbasechain.Chain.Index.{Hash, Index}
use coinbasechain.Chain.Selection.{
  Candidates, ChainSelector, precedes, may_lead, scan, find_most_work_chain,
}
use coinbasechain.Chain.Selection.Sets.{IsSorted, is_member, all-members}

-- A candidate is not valid, or it is the chosen one or comes after it.
abbrev pub Behind : Index → Hash → Hash → Type 0
Behind m b c = (may_lead m c ≡ false) ⊎ (c ≡ b) ⊎ (precedes m b c ≡ true)

-- What is left of the candidates and the choice, from the candidates alone.
abbrev pub Chosen : Index → Candidates → Candidates → Option Hash → Type 0
Chosen m s left none = (left ≡ []) × All (λ c. may_lead m c ≡ false) s
Chosen m s left (some b) =
    (may_lead m b ≡ true)
    × (is_member b s ≡ true)
    × All (Behind m b) s
    × All (λ c. (may_lead m c ≡ false) ⊎ (is_member c left ≡ true)) s
    × IsSorted m left

module _ (m : Index) where
  behind : (b : Hash) (s : Candidates) → All (λ c. precedes m b c ≡ true) s → All (Behind m b) s
  behind b [] all = tt
  behind b (c ∷ s) all = (inr (inr all.0), behind b s all.1)

  pub scan-Chosen : (s : Candidates) → IsSorted m s → Chosen m s (scan m s).0 (scan m s).1
  unfolding scan
  scan-Chosen [] h = (refl, tt)
  scan-Chosen (b ∷ s) h =
      if_elim {A = Candidates × Option Hash} (λ r. Chosen m (b ∷ s) r.0 r.1) (may_lead m b)
        (λ valid. (
          valid,
          ground (arith, bytes_eq_refl b),
          (inr (inl refl), behind b s h.0),
          All-map (λ c there. inr there) (b ∷ s) (all-members m (b ∷ s)),
          h,
        ))
        (λ invalid. skip b s (scan m s).0 (scan m s).1 invalid (scan-Chosen s h.1))
    where
      skip :
          (b : Hash) (s left : Candidates) (r : Option Hash)
          → may_lead m b ≡ false
          → Chosen m s left r
          → Chosen m (b ∷ s) left r
      skip b s left none invalid (e, all) = (e, (invalid, all))
      skip b s left (some c) invalid (valid, there, all, kept, sorted) =
          (valid, ground arith, (inl invalid, all), (inl invalid, kept), sorted)

  -- FindMostWorkChain gives a valid candidate that comes before all other valid ones in the order of
  -- work, height and hash, and none only if no candidate is valid; it drops no valid candidate, and
  -- the rest stays sorted.
  pub find_most_work_chain-Chosen :
      (s : ChainSelector)
      → IsSorted m s.candidates
      → Chosen m s.candidates (find_most_work_chain m s).0.candidates (find_most_work_chain m s).1
  unfolding find_most_work_chain
  find_most_work_chain-Chosen s h = scan-Chosen s.candidates h
