-- ===== src/Chain/Processing/Carrying.antt =====
-- What is known of a block, of the active chain and of the candidates holds when the index grows.
use coinbasechain.Base.{
  ℕ, zero, suc, ◌≡◌, refl, sym, ap, subst, ◌∙◌, arith, true, none, some, [], ◌∷◌, Option-cases, inl,
  inr, All,
}
use coinbasechain.Base.Map.{lookup, bytes_key}
use coinbasechain.Chain.Index.{Hash, BlockIndex, Index, parent}
use coinbasechain.Chain.Index.Ancestors.{up, Linked, IsIndex, up-suc, up-height}
use coinbasechain.Chain.Index.Changing.{Grows}
use coinbasechain.Chain.Active.{Chain, last_common_ancestor}
use coinbasechain.Chain.Active.Filling.{Consistent}
use coinbasechain.Chain.Active.Forks.{LastCommon, last_common_ancestor-LastCommon}
use coinbasechain.Chain.Selection.{Candidates, chain_work_of, height_of, precedes}
use coinbasechain.Chain.Selection.Sets.{IsSorted}
use coinbasechain.Chain.Activation.Leading.{Leads}

abbrev pub Known : Index → Hash → Type 0
Known m b = (e : BlockIndex) × (lookup b m ≡ some e)

-- Every block without a parent is the genesis block.
abbrev pub OneRoot : Hash → Index → Type 0
OneRoot g m = (b : Hash) (e : BlockIndex) → lookup b m ≡ some e → e.prev ≡ none → b ≡ g

module _ (m m' : Index) (ok : IsIndex m) (grows : Grows m m') where
  up-grown : (n : ℕ) (b : Hash) (e : BlockIndex) → lookup b m ≡ some e → up m' n b ≡ up m n b
  unfolding up
  up-grown zero b e h = refl
  up-grown (suc n) b e h =
      let (d, found, same) = grows b e h in
      elim (Option-cases e.prev) [
        | inl genesis ↦
            let old : parent m b ≡ none = ground (arith, h) in
            let root : d.prev ≡ none = same.0 ∙ genesis in
            let new : parent m' b ≡ none = ground (arith, found) in rw (old, up) (rw (new, up) refl)
        | inr (p, linked) ↦
            let (q, there, _, _, _) : Linked m e (some p) = (rw linked at (ok.linked b e h)) in
            up-suc m' n b p d found (same.0 ∙ linked)
            ∙ (up-grown n p q there ∙ sym (up-suc m n b p e h linked))
      ]

  Consistent-grown : (c : Chain) (h : ℕ) → Consistent m c h → Consistent m' c h
  Consistent-grown c h good j x low there =
      let (e, found, level, below) = good j x low there in
      let (d, found', same) = grows x e found in
      (d, found', same.2 ∙ level, λ p linked. below p (sym (same.0) ∙ linked))

  pub Leads-grown :
      (c : Chain) (t : Hash) (e : BlockIndex)
      → Leads m c t e
      → (d : BlockIndex) × Leads m' c t d × (d.chain_work ≡ e.chain_work)
  Leads-grown c t e leads =
      let (d, found, same) = grows t e leads.known in
      (
        d,
        record {
          known = found;
          at_tip = leads.at_tip;
          size = omega (arith, leads.size, same.2);
          holds = λ k low.
              rw (same.2)
                (leads.holds k (omega (arith, same.2)) ∙ sym (up-grown k t e leads.known));
          consistent = λ h. Consistent-grown c h (leads.consistent h);
        },
        same.3,
      )

  pub Known-grown : (b : Hash) → Known m b → Known m' b
  Known-grown b (e, h) = let (d, found, _) = grows b e h in (d, found)

  chain_work_of-grown : (b : Hash) → Known m b → chain_work_of m' b ≡ chain_work_of m b
  chain_work_of-grown b (e, h) =
      let (d, found, same) = grows b e h in
      rw (found, chain_work_of) (rw (h, chain_work_of) (same.3))

  height_of-grown : (b : Hash) → Known m b → height_of m' b ≡ height_of m b
  height_of-grown b (e, h) =
      let (d, found, same) = grows b e h in rw (found, height_of) (rw (h, height_of) (same.2))

  precedes-grown : (a b : Hash) → Known m a → Known m b → precedes m' a b ≡ precedes m a b
  unfolding precedes
  precedes-grown a b ka kb =
      rw
        (
          chain_work_of-grown a ka,
          chain_work_of-grown b kb,
          height_of-grown a ka,
          height_of-grown b kb,
        )
        refl

  pub IsSorted-grown : (s : Candidates) → All (Known m) s → IsSorted m s → IsSorted m' s
  IsSorted-grown [] known sorted = tt
  IsSorted-grown (b ∷ s) known sorted =
      (before s known.1 sorted.0, IsSorted-grown s known.1 sorted.1)
    where
      before :
          (s : Candidates)
          → All (Known m) s
          → All (λ c. precedes m b c ≡ true) s
          → All (λ c. precedes m' b c ≡ true) s
      before [] ks all = tt
      before (c ∷ s) ks all = (precedes-grown b c known.0 ks.0 ∙ all.0, before s ks.1 all.1)

module _ (g : Hash) (m : Index) (ok : IsIndex m) (root : OneRoot g m) where
  -- The walk from a block back ends at the genesis block.
  up-genesis : (b : Hash) (e : BlockIndex) → lookup b m ≡ some e → up m e.height b ≡ some g
  up-genesis b e h =
      let (x, q, walk, found, level) = up-height m ok e.height b e h (omega arith) in
      elim (Option-cases q.prev) [
        | inl none_there ↦ walk ∙ ap some (root x q found none_there)
        | inr (p, linked) ↦
            let (r, _, higher, _, _) : Linked m q (some p) = (rw linked at (ok.linked x q found)) in
            absurd (omega arith)
      ]

  -- Any two branches meet.
  pub last_common_ancestor_exists :
      (a b : Hash) (ea eb : BlockIndex)
      → lookup a m ≡ some ea
      → lookup b m ≡ some eb
      → (f : Hash) × (last_common_ancestor m a b ≡ some f)
  last_common_ancestor_exists a b ea eb ha hb = elim (Option-cases (last_common_ancestor m a b)) [
    | inr found ↦ found
    | inl apart ↦
        let never : LastCommon m a b none =
          subst (LastCommon m a b) apart (last_common_ancestor-LastCommon m ok a b ea eb ha hb) in
        absurd (never ea.height eb.height g (up-genesis a ea ha) (up-genesis b eb hb))
  ]
