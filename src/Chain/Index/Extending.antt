-- ===== src/Chain/Index/Extending.antt =====
-- An index with one more entry, which agrees with its parent.
use coinbasechain.Base.{
  ℕ, zero, suc, ◌+◌, ◌-◌, ◌≡◌, ◌⊎◌, refl, sym, ◌∙◌, arith, false, Option, none, some, ltb,
  if◌then◌else◌, Option-cases, Bool-cases, inl, inr,
}
use coinbasechain.Base.Map.{
  has, lookup, insert, bytes_key, bytes_eq, bytes_eq_iff, Distinct, lookup-insert, lookup-has,
}
use coinbasechain.Chain.Index.{Hash, BlockIndex, Index, parent, get_skip_height, get_ancestor}
use coinbasechain.Chain.Index.Ancestors.{up, Linked, IsIndex, up-suc}
use coinbasechain.Chain.Index.Skips.{get_skip_height-lt, get_ancestor-up}

-- Every entry of the one is an entry of the other.
abbrev pub Extends : Index → Index → Type 0
Extends m m' = (b : Hash) (e : BlockIndex) → lookup b m ≡ some e → lookup b m' ≡ some e

Linked-Extends :
    (m m' : Index) (e : BlockIndex) (p : Option Hash) → Extends m m' → Linked m e p → Linked m' e p
Linked-Extends m m' e none ext l = l
Linked-Extends m m' e (some p) ext (q, there, a, b, c) = (q, ext p q there, a, b, c)

-- Going back from an old block is the same in both.
pub up-Extends :
    (m m' : Index) (n : ℕ) (b : Hash) (e : BlockIndex)
    → IsIndex m
    → Extends m m'
    → lookup b m ≡ some e
    → up m' n b ≡ up m n b
unfolding up
up-Extends m m' zero b e ok ext h = refl
up-Extends m m' (suc n) b e ok ext h = elim (Option-cases e.prev) [
  | inl genesis ↦
      let old : parent m b ≡ none = ground (arith, h) in
      let new : parent m' b ≡ none = ground (arith, ext b e h) in rw (old, up) (rw (new, up) refl)
  | inr (p, linked) ↦
      let (q, there, _, _, _) : Linked m e (some p) = (rw linked at (ok.linked b e h)) in
      up-suc m' n b p e (ext b e h) linked
      ∙ (up-Extends m m' n p q ok ext there ∙ sym (up-suc m n b p e h linked))
]

-- One new entry that agrees with its parent keeps an index well formed.
pub IsIndex-extend :
    (m m' : Index) (hash : Hash) (new : BlockIndex)
    → IsIndex m
    → Extends m m'
    → Distinct m'
    → ((b : Hash) (e : BlockIndex)
        → lookup b m' ≡ some e
        → (lookup b m ≡ some e) ⊎ ((b ≡ hash) × (e ≡ new)))
    → Linked m new new.prev
    → ((s : Hash)
        → new.skip ≡ some s
        → up m' (new.height - get_skip_height new.height) hash ≡ some s)
    → IsIndex m'
IsIndex-extend m m' hash new ok ext d split linked skips = record {
  distinct = d;
  linked = λ b e h. elim (split b e h) [
    | inl old ↦ Linked-Extends m m' e e.prev ext (ok.linked b e old)
    | inr (_, same) ↦ rw same (Linked-Extends m m' new new.prev ext linked)
  ];
  skips = λ b e s h k. elim (split b e h) [
    | inl old ↦
        up-Extends m m' (e.height - get_skip_height e.height) b e ok ext old ∙ ok.skips b e s old k
    | inr (here, same) ↦ rw (here, same) (skips s (rw same at (k)))
  ];
}

module _ (m : Index) (hash : Hash) (new : BlockIndex) (m' : Index) where
  -- What an index looks like to lookups after one key was written, however often.
  abbrev pub Written : Type 0
  Written = (b : Hash) → lookup b m' ≡ (if bytes_eq hash b then some new else lookup b m)

  pub Written-Extends : Written → has hash m ≡ false → Extends m m'
  Written-Extends w absent b e h = ground (arith, w b, bytes_eq_iff hash b, lookup-has b m h)

  pub Written-split :
      Written
      → (b : Hash) (e : BlockIndex) → lookup b m' ≡ some e
      → (lookup b m ≡ some e) ⊎ ((b ≡ hash) × (e ≡ new))
  Written-split w b e h = elim (Bool-cases (bytes_eq hash b)) [
    | inl here ↦
        let same : hash ≡ b = (bytes_eq_iff hash b).0 here in
        let found : some new ≡ some e = sym (rw here at (w b)) ∙ h in inr (sym same, cc)
    | inr other ↦ inl (sym (rw other at (w b)) ∙ h)
  ]

  pub Written-here : Written → lookup hash m' ≡ some new
  Written-here w = ground (arith, w hash, bytes_eq_iff hash hash)

pub insert-Written :
    (m : Index) (hash : Hash) (old new : BlockIndex) (m' : Index)
    → Written m hash old m'
    → Written m hash new (insert hash new m')
insert-Written m hash old new m' w b = ground (arith, lookup-insert hash b new m', w b)

-- A child entry, written once without its skip pointer and once with it.
module _ (m : Index) (ok : IsIndex m) (hash prev : Hash) (p : BlockIndex) where
  module _ (absent : has hash m ≡ false) (there : lookup prev m ≡ some p) where
    pub with_child-IsIndex :
        (e : BlockIndex) (m' : Index)
        → Written m hash e m'
        → Distinct m'
        → Linked m e e.prev
        → e.prev ≡ some prev
        → e.height ≡ p.height + 1
        → ((s : Hash) → e.skip ≡ some s → up m (p.height - get_skip_height e.height) prev ≡ some s)
        → IsIndex m'
    with_child-IsIndex e m' w d linked to_prev height skips =
        let ext = Written-Extends m hash e m' w absent in
        IsIndex-extend m m' hash e ok ext d (Written-split m hash e m' w) linked λ s k.
          let lower = get_skip_height-lt e.height (omega arith) in
          let steps : e.height - get_skip_height e.height
              ≡ suc (p.height - get_skip_height e.height) =
            omega arith in
          rw steps (
            up-suc m' (p.height - get_skip_height e.height) hash prev e (Written-here m hash e m' w)
              to_prev
            ∙ (up-Extends m m' (p.height - get_skip_height e.height) prev p ok ext there
                ∙ skips s k))

    pub build_skip-up :
        (e : BlockIndex) (linked : Index)
        → IsIndex linked
        → Extends m linked
        → e.height ≡ p.height + 1
        → get_ancestor linked prev (get_skip_height e.height)
          ≡ up m (p.height - get_skip_height e.height) prev
    build_skip-up e linked ok' ext height =
        let k = get_skip_height e.height in
        let lower = get_skip_height-lt e.height (omega arith) in
        let below : ltb p.height k ≡ false = ground arith in
        get_ancestor-up linked prev p k ok' (ext prev p there)
        ∙ (rw below (up-Extends m linked (p.height - k) prev p ok ext there))
