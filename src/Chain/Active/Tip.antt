-- ===== src/Chain/Active/Tip.antt =====
-- SetTip fills the chain with the ancestors of the tip.
use coinbasechain.Base.{
  ℕ, zero, suc, ◌+◌, ◌-◌, ◌≤◌, ◌≡◌, refl, sym, ◌∙◌, arith, true, none, some, [], ◌∷◌, ltb, leb,
  leb→le, Bool-cases, inl, inr, length,
}
use coinbasechain.Base.Map.{lookup, bytes_key}
use coinbasechain.Chain.Index.{Hash, BlockIndex, Index}
use coinbasechain.Chain.Index.Ancestors.{up, Linked, IsIndex, up-suc, up-add, up-height}
use coinbasechain.Chain.Active.{Chain, at, resize, fill, set_tip}
use coinbasechain.Chain.Index.Skips.{same_end}
use coinbasechain.Chain.Active.Filling.{Consistent, Holds, at-resize, length-resize, fill-Filled}

at-past : (c : Chain) (j : ℕ) → length c ≤ j → at c j ≡ none
at-past [] j h = refl
at-past (x ∷ c) zero h = absurd (omega arith)
at-past (x ∷ c) (suc j) h = at-past c j (omega arith)

resize-Consistent :
    (m : Index) (c : Chain) (n h : ℕ) → ((h' : ℕ) → Consistent m c h') → Consistent m (resize n c) h
resize-Consistent m c n h good j x low there =
    let inside : ltb j n ≡ true = ground (arith, at-resize n j c) in
    let old : at c j ≡ some x = ground (arith, at-resize n j c) in
    let (e, found, level, below) = good j j x (omega arith) old in
    (e, found, level, λ p linked. at-resize n (j - 1) c ∙ ground (arith, below p linked))

-- A chain that holds the ancestors of its last block is consistent at every height.
Holds-Consistent :
    (m : Index) (c : Chain) (b : Hash) (e : BlockIndex) (h : ℕ)
    → IsIndex m
    → lookup b m ≡ some e
    → length c ≡ e.height + 1
    → Holds m c b e.height
    → Consistent m c h
unfolding up
Holds-Consistent m c b e h ok found size holds j x low there = elim (Bool-cases (leb j e.height)) [
  | inr past ↦ absurd (ground (arith, at-past c j))
  | inl within ↦
      let n = e.height - j in
      let below : j ≤ e.height = leb→le j e.height within in
      let same : e.height - n ≡ j = omega arith in
      let here : up m n b ≡ some x = sym (holds n (omega arith)) ∙ (rw same there) in
      let (d, q, path, found', level) = up-height m ok n b e found (omega arith) in
      let eq : d ≡ x = same_end (up m n b) path here in
      (
        q,
        rw (← eq) found',
        omega arith,
        λ p linked.
            let (r, _, lower, _, _) : Linked m q (some p) = (rw linked at (ok.linked d q found')) in
            let up_one : e.height - (n + 1) ≡ j - 1 = omega arith in
            let slot : at c (j - 1) ≡ up m (n + 1) b =
              (rw up_one at (holds (n + 1) (omega arith))) in
            slot ∙ (up-add m n 1 b d path ∙ up-suc m 0 d p q found' linked),
      )
]

-- On a well-formed index, and if each block of the old chain stands at its height on the one below,
-- the chain after SetTip has one block for each height up to the tip's, and they are the tip's
-- ancestors; and each stands on the one below.
pub set_tip-Holds :
    (m : Index) (b : Hash) (e : BlockIndex) (c : Chain)
    → IsIndex m
    → lookup b m ≡ some e
    → ((h : ℕ) → Consistent m c h)
    → (length (set_tip m b c) ≡ e.height + 1)
      × Holds m (set_tip m b c) b e.height
      × ((h : ℕ) → Consistent m (set_tip m b c) h)
unfolding set_tip
set_tip-Holds m b e c ok found good =
    let size = length-resize (e.height + 1) c in
    let (same, holds, _) =
      fill-Filled m ok (e.height + 1) b e (resize (e.height + 1) c) found (omega arith)
        (omega (arith, size)) (resize-Consistent m c (e.height + 1) e.height good) in
    rw (found, set_tip)
      (
        same ∙ size,
        holds,
        λ h.
            Holds-Consistent m (fill m (e.height + 1) b (resize (e.height + 1) c)) b e h ok found
              (same ∙ size) holds,
      )
