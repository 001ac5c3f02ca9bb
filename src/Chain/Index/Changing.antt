-- ===== src/Chain/Index/Changing.antt =====
-- Changing the status of an entry, or when it was received, keeps an index well formed.
use coinbasechain.Base.{
  ℕ, zero, suc, ◌-◌, ◌≡◌, refl, sym, subst, ap, ◌∙◌, arith, Option, none, some, Option-cases,
  Bool-cases, inl, inr,
}
use coinbasechain.Base.Map.{
  lookup, insert, bytes_key, bytes_eq, bytes_eq_iff, Distinct-insert, lookup-insert,
}
use coinbasechain.Chain.Arith.{get_block_proof}
use coinbasechain.Chain.Index.{Hash, BlockIndex, Index, parent, get_skip_height}
use coinbasechain.Chain.Index.Ancestors.{up, Linked, IsIndex}

-- What the links of the index depend on is the same.
abbrev pub SameLinks : BlockIndex → BlockIndex → Type 0
SameLinks e d =
    (d.prev ≡ e.prev)
    × (d.skip ≡ e.skip)
    × (d.height ≡ e.height)
    × (d.chain_work ≡ e.chain_work)
    × (d.bits ≡ e.bits)
    × (d.time ≡ e.time)
    × (d.time_max ≡ e.time_max)

pub unchanged : (q : BlockIndex) → SameLinks q q
unchanged q = (refl, refl, refl, refl, refl, refl, refl)

module _ (m : Index) (b : Hash) (e d : BlockIndex) where
  module _ (known : lookup b m ≡ some e) (same : SameLinks e d) where
    abbrev changed : Index
    changed = insert b d m

    -- Each entry is still there, if it is not the one that was changed.
    pub lookup-changed :
        (x : Hash) (q : BlockIndex)
        → lookup x m ≡ some q
        → (r : BlockIndex) × (lookup x changed ≡ some r) × SameLinks q r
    lookup-changed x q h = elim (Bool-cases (bytes_eq b x)) [
      | inr other ↦ (q, lookup-insert b x d m ∙ (rw other h), unchanged q)
      | inl here ↦
          let eq : b ≡ x = (bytes_eq_iff b x).0 here in
          let entry : some e ≡ some q = sym known ∙ (rw eq h) in
          let old : e ≡ q = cc in (d, lookup-insert b x d m ∙ (rw here refl), rw (← old) same)
    ]

    changed-lookup :
        (x : Hash) (r : BlockIndex)
        → lookup x changed ≡ some r
        → (q : BlockIndex) × (lookup x m ≡ some q) × SameLinks q r
    changed-lookup x r h = elim (Bool-cases (bytes_eq b x)) [
      | inr other ↦ (r, sym (rw other at (lookup-insert b x d m)) ∙ h, unchanged r)
      | inl here ↦
          let eq : b ≡ x = (bytes_eq_iff b x).0 here in
          let entry : some d ≡ some r = sym (rw here at (lookup-insert b x d m)) ∙ h in
          let new : d ≡ r = cc in (e, rw (← eq) known, rw (← new) same)
    ]

    parent-changed : (x : Hash) → parent changed x ≡ parent m x
    parent-changed x = elim (Bool-cases (bytes_eq b x)) [
      | inr other ↦
          let there : lookup x changed ≡ lookup x m = lookup-insert b x d m ∙ (rw other refl) in
          rw (there, parent) refl
      | inl here ↦
          let eq : b ≡ x = (bytes_eq_iff b x).0 here in
          let there : lookup x changed ≡ some d = lookup-insert b x d m ∙ (rw here refl) in
          let old : lookup x m ≡ some e = rw (← eq) known in
          rw (there, parent) (rw (old, parent) same.0)
    ]

    pub up-changed : (n : ℕ) (x : Hash) → up changed n x ≡ up m n x
    unfolding up
    up-changed zero x = refl
    up-changed (suc n) x = elim (Option-cases (parent m x)) [
      | inl root ↦ rw (parent-changed x ∙ root, up) (rw (root, up) refl)
      | inr (p, there) ↦ rw (parent-changed x ∙ there, up) (rw (there, up) (up-changed n p))
    ]

    Linked-changed :
        (q r : BlockIndex) (p : Option Hash) → SameLinks q r → Linked m q p → Linked changed r p
    Linked-changed q r none s (height, work, time) =
        (cc, s.3 ∙ (work ∙ ap get_block_proof (sym (s.4))), cc)
    Linked-changed q r (some p) s (x, there, height, work, time) =
        let (y, there', t) = lookup-changed p x there in
        (
          y,
          there',
          omega (arith, s.2, height, t.2),
          s.3 ∙ (work ∙ rw (t.3, s.4) refl),
          s.6 ∙ (time ∙ rw (t.6, s.5) refl),
        )

    pub changed-IsIndex : IsIndex m → IsIndex changed
    changed-IsIndex ok = record {
      distinct = Distinct-insert b d m ok.distinct;
      linked = λ x r h.
          let (q, old, s) = changed-lookup x r h in
          subst (Linked changed r) (sym (s.0)) (Linked-changed q r q.prev s (ok.linked x q old));
      skips = λ x r k h skip.
          let (q, old, s) = changed-lookup x r h in
          let steps : r.height - get_skip_height r.height ≡ q.height - get_skip_height q.height =
            ap (λ h. h - get_skip_height h) (s.2) in
          up-changed (r.height - get_skip_height r.height) x
          ∙ (rw steps (ok.skips x q k old (sym (s.1) ∙ skip)));
    }

pub SameLinks-trans : (a b c : BlockIndex) → SameLinks a b → SameLinks b c → SameLinks a c
SameLinks-trans a b c h k =
    (k.0 ∙ h.0, k.1 ∙ h.1, k.2 ∙ h.2, k.3 ∙ h.3, k.4 ∙ h.4, k.5 ∙ h.5, k.6 ∙ h.6)

-- Every entry is kept, with its links, height and work.
abbrev pub Grows : Index → Index → Type 0
Grows m m' =
    (b : Hash) (e : BlockIndex)
    → lookup b m ≡ some e
    → (d : BlockIndex) × (lookup b m' ≡ some d) × SameLinks e d

pub Grows-refl : (m : Index) → Grows m m
Grows-refl m b e h = (e, h, unchanged e)

pub Grows-trans : (m m' m'' : Index) → Grows m m' → Grows m' m'' → Grows m m''
Grows-trans m m' m'' f g b e h =
    let (d, found, same) = f b e h in
    let (x, found', same') = g b d found in (x, found', SameLinks-trans e d x same same')

pub changed-Grows :
    (m : Index) (b : Hash) (e d : BlockIndex)
    → lookup b m ≡ some e
    → SameLinks e d
    → Grows m (insert b d m)
changed-Grows m b e d known same x q h = lookup-changed m b e d known same x q h

-- A block without a parent was there before, without a parent.
abbrev pub NoNewRoots : Index → Index → Type 0
NoNewRoots m m' =
    (b : Hash) (d : BlockIndex)
    → lookup b m' ≡ some d
    → d.prev ≡ none
    → (e : BlockIndex) × (lookup b m ≡ some e) × (e.prev ≡ none)

pub NoNewRoots-refl : (m : Index) → NoNewRoots m m
NoNewRoots-refl m b d h root = (d, h, root)

pub NoNewRoots-trans : (m m' m'' : Index) → NoNewRoots m m' → NoNewRoots m' m'' → NoNewRoots m m''
NoNewRoots-trans m m' m'' f g b d h root = let (e, found, root') = g b d h root in f b e found root'

pub changed-NoNewRoots :
    (m : Index) (b : Hash) (e d : BlockIndex)
    → lookup b m ≡ some e
    → SameLinks e d
    → NoNewRoots m (insert b d m)
changed-NoNewRoots m b e d known same x r h root =
    let (q, old, links) = changed-lookup m b e d known same x r h in (q, old, sym (links.0) ∙ root)
