-- ===== src/Chain/Acceptance/Marking.antt =====
-- Marking the descendants of a failed block, and the end of an acceptance, keep the index.
use coinbasechain.Base.{ℕ, zero, suc, ◌≡◌, ◌∙◌, refl, arith, some, Option_elim, Bool_elim}
use coinbasechain.Base.Map.{lookup, insert, bytes_key, bytes_eq, lookup-insert, bytes_eq_refl}
use coinbasechain.Chain.Index.{Hash, BlockIndex, Index, raise_validity}
use coinbasechain.Chain.Index.Ancestors.{IsIndex}
use coinbasechain.Chain.Index.Changing.{
  SameLinks, Grows, Grows-refl, Grows-trans, NoNewRoots, NoNewRoots-refl, NoNewRoots-trans,
  changed-IsIndex, changed-Grows, changed-NoNewRoots,
}
use coinbasechain.Chain.Acceptance.{mark_child, mark_descent}

-- A well-formed index that keeps every entry of another, and has no roots but its.
abbrev pub Kept : Index → Index → Type 0
Kept m m' = IsIndex m' × Grows m m' × NoNewRoots m m'

pub Kept-trans : (m m' m'' : Index) → Kept m m' → Kept m' m'' → Kept m m''
Kept-trans m m' m'' h k = (k.0, Grows-trans m m' m'' h.1 k.1, NoNewRoots-trans m m' m'' h.2 k.2)

pub changed-Kept :
    (m : Index) (b : Hash) (e d : BlockIndex)
    → IsIndex m
    → lookup b m ≡ some e
    → SameLinks e d
    → Kept m (insert b d m)
changed-Kept m b e d ok known same = (
  changed-IsIndex m b e d known same ok,
  changed-Grows m b e d known same,
  changed-NoNewRoots m b e d known same,
)

pub mark_descent-Kept :
    (fuel : ℕ) (failed b : Hash) (m : Index) → IsIndex m → Kept m (mark_descent fuel failed b m)
unfolding mark_descent
mark_descent-Kept zero failed b m ok = (ok, Grows-refl m, NoNewRoots-refl m)
mark_descent-Kept (suc fuel) failed b m ok =
    Bool_elim (Kept m) (bytes_eq b failed) (λ here. (ok, Grows-refl m, NoNewRoots-refl m))
      λ other.
        Option_elim (Kept m) (lookup b m) (λ missing. (ok, Grows-refl m, NoNewRoots-refl m))
          λ e known.
            let marked = mark_child b e m in
            let kept : Kept m marked =
              changed-Kept m b e _ ok known (refl, refl, refl, refl, refl, refl, refl) in
            Option_elim (Kept m) e.prev (λ root. kept)
              λ p linked.
                Kept-trans m marked (mark_descent fuel failed p marked) kept
                  (mark_descent-Kept fuel failed p marked kept.0)

pub raise_validity-SameLinks : (up_to : ℕ) (e : BlockIndex) → SameLinks e (raise_validity up_to e).0
unfolding raise_validity
raise_validity-SameLinks up_to e = ground arith

pub lookup-insert_self : (b : Hash) (d : BlockIndex) (m : Index) → lookup b (insert b d m) ≡ some d
lookup-insert_self b d m = lookup-insert b b d m ∙ (rw (bytes_eq_refl b) refl)
