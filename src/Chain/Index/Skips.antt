-- ===== src/Chain/Index/Skips.antt =====
-- The skip list finds the same ancestors as going from parent to parent.
use coinbasechain.Base.Bits.{bit_and-le_left, bit_and-le_right}
use coinbasechain.Base.{
  ℕ, zero, suc, ◌+◌, ◌-◌, ◌<◌, ◌≤◌, bit_and, ◌≡◌, refl, sym, ◌∙◌, arith, true, Option, none, some,
  ltb, ltb-false, ltb→lt, ◌==◌, if◌then◌else◌, if_elim, Option_elim, Bool-cases, inl, inr,
}
use coinbasechain.Base.Map.{lookup, bytes_key}
use coinbasechain.Chain.Index.{
  Hash, BlockIndex, Index, get_skip_height, invert_lowest_one, takes_skip, walk_step, walk_back,
  get_ancestor,
}
use coinbasechain.Chain.Index.Ancestors.{up, IsIndex, up-suc, up-add, parent_of, up-height}

-- A skip leads strictly down.
pub get_skip_height-lt : (h : ℕ) → 1 ≤ h → get_skip_height h < h
unfolding get_skip_height invert_lowest_one
get_skip_height-lt h high =
    if_elim {A = ℕ} (λ k. k < h) (ltb h 2) (λ _. omega arith)
      λ two.
        if_elim {A = ℕ} (λ k. k < h) (bit_and h 1 == 1)
          (λ _. ground (
            arith,
            bit_and-le_right (h - 1) (h - 1 - 1),
            bit_and-le_left (bit_and (h - 1) (h - 1 - 1)) (bit_and (h - 1) (h - 1 - 1) - 1),
          ))
          (λ _. ground (arith, bit_and-le_right h (h - 1)))

takes_skip-le : (height walk : ℕ) → takes_skip height walk ≡ true → height ≤ get_skip_height walk
takes_skip-le height walk h = ground arith

pub same_end : {A : Type 0} {x y : A} (o : Option A) → o ≡ some x → o ≡ some y → x ≡ y
same_end o h k = cc

module _ (m : Index) (ok : IsIndex m) where
  -- One turn arrives at an ancestor, between the height that is looked for and the old one.
  abbrev Arrives : ℕ → Hash → BlockIndex → Option (ℕ × Hash) → Type 0
  Arrives height b e r =
      (walk : ℕ) × (c : Hash) × (q : BlockIndex) × (r ≡ some (walk, c))
      × (lookup c m ≡ some q)
      × (q.height ≡ walk)
      × (height ≤ walk)
      × (walk < e.height)
      × (up m (e.height - walk) b ≡ some c)

  walk_step-Arrives :
      (height : ℕ) (b : Hash) (e : BlockIndex)
      → lookup b m ≡ some e
      → height < e.height
      → Arrives height b e (walk_step m height e.height b)
  unfolding walk_step up
  walk_step-Arrives height b e h low =
      let (p, q, linked, there, level) = parent_of m ok b e h (omega arith) in
      let one : e.height - (e.height - 1) ≡ suc 0 = omega arith in
      let path : up m (e.height - (e.height - 1)) b ≡ some p = rw one (up-suc m 0 b p e h linked) in
      let back : Arrives height b e
          (elim e.prev [ none ↦ none | some p ↦ some (e.height - 1, p) ]) =
        (e.height - 1, p, q, rw linked refl, there, omega arith, omega arith, omega arith, path) in
      rw (h, walk_step)
        (Option_elim (Arrives height b e) e.skip (λ _. back)
          λ s skips.
            if_elim (Arrives height b e) (takes_skip height e.height)
              (λ takes.
                let k = get_skip_height e.height in
                let lower = get_skip_height-lt e.height (omega arith) in
                let jump = ok.skips b e s h skips in
                let (c, r, path', found, level') =
                  up-height m ok (e.height - k) b e h (omega arith) in
                let same : c ≡ s = same_end (up m (e.height - k) b) path' jump in
                (
                  k,
                  s,
                  r,
                  refl,
                  rw (← same) found,
                  omega arith,
                  takes_skip-le height e.height takes,
                  lower,
                  jump,
                ))
              (λ _. back))

  -- With fuel for the heights in between, the loop ends at the ancestor of the height asked for.
  walk_back-up :
      (height fuel : ℕ) (b : Hash) (e : BlockIndex)
      → lookup b m ≡ some e
      → height ≤ e.height
      → e.height < height + fuel
      → walk_back m height fuel e.height b ≡ up m (e.height - height) b
  unfolding walk_back up
  walk_back-up height zero b e h low enough = absurd (omega arith)
  walk_back-up height (suc fuel) b e h low enough = elim (Bool-cases (ltb height e.height)) [
    | inr done ↦
        let here : e.height - height ≡ 0 = ground arith in rw (done, walk_back) (rw (here, up) refl)
    | inl more ↦
        let (walk, c, q, step, found, level, above, lower, path) =
          walk_step-Arrives height b e h (ltb→lt height e.height more) in
        let rest : walk_back m height fuel q.height c ≡ up m (q.height - height) c =
          walk_back-up height fuel c q found (omega arith) (omega arith) in
        let split : e.height - height ≡ (e.height - walk) + (walk - height) = omega arith in
        rw (more, walk_back)
          (rw step (
            rw split
              ((rw level at (rest)) ∙ sym (up-add m (e.height - walk) (walk - height) b c path))))
  ]

-- GetAncestor, skips and all, is the walk from parent to parent: the block at the height that is
-- asked for if it is not above the block itself, and nothing otherwise.
pub get_ancestor-up :
    (m : Index) (b : Hash) (e : BlockIndex) (height : ℕ)
    → IsIndex m
    → lookup b m ≡ some e
    → get_ancestor m b height ≡ (if ltb e.height height then none else up m (e.height - height) b)
unfolding get_ancestor
get_ancestor-up m b e height ok h =
    rw (h, get_ancestor)
      (elim (Bool-cases (ltb e.height height)) [
        | inl above ↦ rw above refl
        | inr below ↦ rw below (
            walk_back-up m ok height (e.height + 1) b e h (ltb-false e.height height below)
              (omega arith))
      ])
