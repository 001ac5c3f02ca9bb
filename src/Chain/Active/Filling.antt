-- ===== src/Chain/Active/Filling.antt =====
-- The loop of SetTip fills the slots below a block with its ancestors.
use coinbasechain.Base.{
  ℕ, zero, suc, ◌+◌, ◌-◌, ◌<◌, ◌≤◌, ◌≡◌, refl, sym, ap, subst, ◌∙◌, arith, true, false, Option,
  none, some, [], ◌∷◌, ltb, leb, ◌==◌, if◌then◌else◌, Option_elim, Bool_elim, length, length-append,
  length-replicate, length-take, take, replicate,
}
use coinbasechain.Base.Map.{lookup, bytes_key, bytes_eq_iff}
use coinbasechain.Chain.Index.{Hash, BlockIndex, Index}
use coinbasechain.Chain.Index.Ancestors.{up, Linked, IsIndex, up-suc, parent_of}
use coinbasechain.Chain.Active.{Chain, at, is_block, resize, set_slot, fill}

at-set_slot :
    (h j : ℕ) (b : Hash) (c : Chain)
    → h < length c
    → at (set_slot h b c) j ≡ (if h == j then some b else at c j)
at-set_slot h j b [] k = absurd (omega arith)
at-set_slot zero zero b (x ∷ c) k = refl
at-set_slot zero (suc j) b (x ∷ c) k = ground arith
at-set_slot (suc h) zero b (x ∷ c) k = ground arith
at-set_slot (suc h) (suc j) b (x ∷ c) k = ground (arith, at-set_slot h j b c)

length-set_slot : (h : ℕ) (b : Hash) (c : Chain) → length (set_slot h b c) ≡ length c
length-set_slot h b [] = refl
length-set_slot zero b (x ∷ c) = refl
length-set_slot (suc h) b (x ∷ c) = ap suc (length-set_slot h b c)

at-none : (n j : ℕ) → at (replicate n none) j ≡ none
at-none zero j = refl
at-none (suc n) zero = refl
at-none (suc n) (suc j) = at-none n j

pub at-resize : (n j : ℕ) (c : Chain) → at (resize n c) j ≡ (if ltb j n then at c j else none)
at-resize zero j c = ground (arith, at-none (zero - length c) j)
at-resize (suc n) j [] = ground (arith, at-none (suc n) j)
at-resize (suc n) zero (x ∷ c) = ground arith
at-resize (suc n) (suc j) (x ∷ c) = ground (arith, at-resize n j c)

pub length-resize : (n : ℕ) (c : Chain) → length (resize n c) ≡ n
length-resize n c = omega (
  arith,
  length-append (take n c) (replicate (n - length c) none),
  length-take n c,
  length-replicate {A = Option Hash} (n - length c) none,
)

-- Up to a height, a block in a slot is of that height, and its parent is in the slot below.
abbrev pub Consistent : Index → Chain → ℕ → Type 0
Consistent m c h =
    (j : ℕ) (x : Hash)
    → j ≤ h
    → at c j ≡ some x
    → (e : BlockIndex) × (lookup x m ≡ some e)
      × (e.height ≡ j)
      × ((p : Hash) → e.prev ≡ some p → at c (j - 1) ≡ some p)

pub is_block-at : (o : Option Hash) (b : Hash) → is_block o b ≡ true → o ≡ some b
is_block-at none b h = cc
is_block-at (some x) b h = ap some ((bytes_eq_iff x b).0 h)

-- From a height down, the slots hold the ancestors of a block.
abbrev pub Holds : Index → Chain → Hash → ℕ → Type 0
Holds m c b h = (k : ℕ) → k ≤ h → at c (h - k) ≡ up m k b

module _ (m : Index) (ok : IsIndex m) where
  Consistent-Holds :
      (c : Chain) (h : ℕ) (b : Hash) → Consistent m c h → at c h ≡ some b → Holds m c b h
  unfolding up
  Consistent-Holds c h b good top zero low = let same : h - 0 ≡ h = omega arith in rw same top
  Consistent-Holds c h b good top (suc k) low =
      let (e, found, level, below) = good h b (omega arith) top in
      let (p, q, linked, there, lower) = parent_of m ok b e found (omega arith) in
      let same : h - suc k ≡ (h - 1) - k = omega arith in
      rw same (
        Consistent-Holds c (h - 1) p (λ j x low'. good j x (omega arith)) (below p linked) k
          (omega arith)
        ∙ sym (up-suc m k b p e found linked))

  -- What the loop of SetTip makes of a chain that is consistent so far.
  abbrev pub Filled : Chain → Hash → ℕ → Chain → Type 0
  Filled c b h r = (length r ≡ length c) × Holds m r b h × ((j : ℕ) → h < j → at r j ≡ at c j)

  abbrev pub Fills : ℕ → Type 0
  Fills fuel =
      (b : Hash) (e : BlockIndex) (c : Chain)
      → lookup b m ≡ some e
      → e.height < fuel
      → e.height < length c
      → Consistent m c e.height
      → Filled c b e.height (fill m fuel b c)

  module _ (b : Hash) (e : BlockIndex) (c : Chain) (found : lookup b m ≡ some e) where
    module _ (room : e.height < length c) (good : Consistent m c e.height) where
      abbrev set : Chain
      set = set_slot e.height b c

      set-at : (j : ℕ) → at set j ≡ (if e.height == j then some b else at c j)
      set-at j = at-set_slot e.height j b c room

      set-Consistent : (h : ℕ) → h < e.height → Consistent m set h
      set-Consistent h lower j x low there =
          let old : at c j ≡ some x = sym (set-at j ∙ ground arith) ∙ there in
          let (d, found', level, below) = good j x (omega arith) old in
          (d, found', level, λ p linked. set-at (j - 1) ∙ (ground arith ∙ below p linked))

      fill_root : e.prev ≡ none → Filled c b e.height set
      unfolding up
      fill_root root =
          let (bottom, _, _) : Linked m e none = (rw root at (ok.linked b e found)) in
          (
            length-set_slot e.height b c,
            λ k low.
                let zero_k : k ≡ 0 = omega arith in
                let slot : e.height - k ≡ e.height = omega arith in
                rw (slot, zero_k) (set-at e.height ∙ ground arith),
            λ j k. set-at j ∙ ground arith,
          )

      fill_parent :
          (fuel : ℕ) (p : Hash)
          → Fills fuel
          → e.height < suc fuel
          → e.prev ≡ some p
          → Filled c b e.height (fill m fuel p set)
      unfolding up
      fill_parent fuel p ih enough linked =
          let (q, there, lower, _, _) : Linked m e (some p) =
            (rw linked at (ok.linked b e found)) in
          let size = length-set_slot e.height b c in
          let (same_size, holds, above) =
            ih p q set there (omega arith) (omega (arith, size))
              (set-Consistent q.height (omega arith)) in
          (
            same_size ∙ size,
            λ k low. slot fuel p q there lower linked holds above k low,
            λ j high. above j (omega arith) ∙ (set-at j ∙ ground arith),
          )
        where
          slot :
              (fuel : ℕ) (p : Hash) (q : BlockIndex)
              → lookup p m ≡ some q
              → e.height ≡ q.height + 1
              → e.prev ≡ some p
              → Holds m (fill m fuel p set) p q.height
              → ((j : ℕ) → q.height < j → at (fill m fuel p set) j ≡ at set j)
              → Holds m (fill m fuel p set) b e.height
          slot fuel p q there lower linked holds above zero low =
              let same : e.height - 0 ≡ e.height = omega arith in
              rw same (above e.height (omega arith) ∙ (set-at e.height ∙ ground arith))
          slot fuel p q there lower linked holds above (suc k) low =
              let same : e.height - suc k ≡ q.height - k = omega arith in
              rw same (holds k (omega arith) ∙ sym (up-suc m k b p e found linked))

  pub fill-Filled : (fuel : ℕ) → Fills fuel
  unfolding fill
  fill-Filled zero b e c found enough room good = absurd (omega arith)
  fill-Filled (suc fuel) b e c found enough room good =
      let fits : (if leb (length c) e.height then resize (e.height + 1) c else c) ≡ c =
        ground arith in
      rw (found, fill)
        (subst (λ c'. Filled c b e.height (turn c')) (sym fits)
          (Bool_elim (Filled c b e.height) (is_block (at c e.height) b)
            (λ right. (
              refl,
              Consistent-Holds c e.height b good (is_block-at (at c e.height) b right),
              λ j k. refl,
            ))
            (λ wrong.
              Option_elim (Filled c b e.height) e.prev
                (λ root. fill_root b e c found room good root)
                (λ p linked.
                  fill_parent b e c found room good fuel p (λ b' e' c'. fill-Filled fuel b' e' c')
                    enough linked))))
    where
      turn : Chain → Chain
      turn c' = elim (is_block (at c' e.height) b) [
        | true ↦ c'
        | false ↦
            let set = set_slot e.height b c' in
            elim e.prev [ none ↦ set | some p ↦ fill m fuel p set ]
      ]
