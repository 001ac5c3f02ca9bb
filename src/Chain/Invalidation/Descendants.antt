-- ===== src/Chain/Invalidation/Descendants.antt =====
-- The pass of InvalidateBlock over the descendants of a block: each is flagged and no candidate.
use coinbasechain.Base.{
  ℕ, ◌≡◌, refl, sym, ◌∙◌, arith, true, false, not, ◌&&◌, some, List, [], ◌∷◌, Option_elim,
  Bool_elim, Bool-cases, inl, inr,
}
use coinbasechain.Base.Map.{lookup, bytes_key, bytes_eq, bytes_eq_iff, lookup-insert}
use coinbasechain.Chain.Index.{Hash, BlockIndex, get_ancestor}
use coinbasechain.Chain.Index.Changing.{SameLinks, lookup-changed}
use coinbasechain.Chain.Active.{is_block}
use coinbasechain.Chain.Selection.Sets.{is_member}
use coinbasechain.Chain.Activation.{Chainstate}
use coinbasechain.Chain.Processing.Soundness.{Sound}
use coinbasechain.Chain.Invalidation.{failed_child_status, fail, fail_descendants}
use coinbasechain.Chain.Invalidation.Soundness.{fail-Sound}
use coinbasechain.Chain.Invalidation.Flags.{failed_child_status-FailedChild}
use coinbasechain.Chain.Invalidation.Failing.{
  Out, Gone, get_ancestor-changed, fail-Out, fail-Out_self,
}

abbrev child : BlockIndex → BlockIndex
child d = record d { status = failed_child_status d.status }

abbrev child-SameLinks : (d : BlockIndex) → SameLinks d (child d)
child-SameLinks d = (refl, refl, refl, refl, refl, refl, refl)

module _ (g b : Hash) (height : ℕ) where
  -- What holds of a state and stays when a descendant is failed holds after the pass.
  abbrev Stays : (Chainstate → Type 0) → Type 0
  Stays P =
      (s : Chainstate) (k : Hash) (d : BlockIndex)
      → Sound g s
      → lookup k s.index ≡ some d
      → bytes_eq k b ≡ false
      → is_block (get_ancestor s.index k height) b ≡ true
      → P s
      → P (fail k (child d) s)

  fail_descendants-keeps :
      (P : Chainstate → Type 0)
      → Stays P
      → (hs : List Hash) (s : Chainstate) → Sound g s
      → P s
      → P (fail_descendants hs b height s)
  unfolding fail_descendants
  fail_descendants-keeps P stays [] s sound p = p
  fail_descendants-keeps P stays (h ∷ hs) s sound p =
      let rest = fail_descendants-keeps P stays hs s sound p in
      Option_elim P (lookup h s.index) (λ _. rest)
        λ d found.
          Bool_elim P (not (bytes_eq h b) && is_block (get_ancestor s.index h height) b)
            (λ below.
              fail_descendants-keeps P stays hs (fail h (child d) s)
                (fail-Sound g s h d (child d) sound found (child-SameLinks d))
                (stays s h d sound found (ground arith) (ground arith) p))
            (λ _. rest)

  pub fail_descendants-Out :
      (x : Hash) (hs : List Hash) (s : Chainstate)
      → Sound g s
      → Out x s
      → Out x (fail_descendants hs b height s)
  fail_descendants-Out x hs s sound out =
      fail_descendants-keeps (Out x)
        (λ s k d sound found other below out.
          fail-Out g s k d (child d) sound found (child-SameLinks d) x out)
        hs s sound out

  -- A block that does not descend from the other keeps its entry.
  abbrev Apart : Hash → BlockIndex → Chainstate → Type 0
  Apart h d s = (lookup h s.index ≡ some d) × (is_block (get_ancestor s.index h height) b ≡ false)

  pub fail_descendants_others :
      (h : Hash) (d : BlockIndex) (hs : List Hash) (s : Chainstate)
      → Sound g s
      → Apart h d s
      → lookup h (fail_descendants hs b height s).index ≡ some d
  fail_descendants_others h d hs s sound apart =
      (fail_descendants-keeps (Apart h d)
        (λ s k q sound found other below apart.
          let different : bytes_eq k h ≡ false = elim (Bool-cases (bytes_eq k h)) [
            | inr no_match ↦ no_match
            | inl match ↦
                let eq : k ≡ h = (bytes_eq_iff k h).0 match in
                let not_under : is_block (get_ancestor s.index k height) b ≡ false =
                  rw eq (apart.1) in
                absurd (cc (sym below ∙ not_under))
          ] in
          let links = child-SameLinks q in
          (
            lookup-insert k h (child q) s.index ∙ (rw different (apart.0)),
            rw (get_ancestor-changed g s k q (child q) sound found links h d height (apart.0))
                (apart.1),
          ))
        hs s sound apart).0

  -- A descendant that is still to come.
  abbrev Below : Hash → Chainstate → Type 0
  Below h s =
      ((d : BlockIndex) × (lookup h s.index ≡ some d))
      × (is_block (get_ancestor s.index h height) b ≡ true)

  Below-Stays : (h : Hash) → Stays (Below h)
  Below-Stays h s k q sound found other below ((d, there), under) =
      let links = child-SameLinks q in
      let (r, found', _) = lookup-changed s.index k q (child q) found links h d there in
      (
        (r, found'),
        rw (get_ancestor-changed g s k q (child q) sound found links h d height there) under,
      )

  Gone-Stays : (h : Hash) → Stays (Gone h)
  Gone-Stays h s k q sound found other below ((d, there, flags), out) =
      let links = child-SameLinks q in
      let out' = fail-Out g s k q (child q) sound found links h out in
      elim (Bool-cases (bytes_eq k h)) [
        | inl match ↦ (
          (
            child q,
            lookup-insert k h (child q) s.index ∙ (rw match refl),
            failed_child_status-FailedChild q.status,
          ),
          out',
        )
        | inr no_match ↦
            ((d, lookup-insert k h (child q) s.index ∙ (rw no_match there), flags), out')
      ]

  pub fail_descendants-Gone :
      (h : Hash) (hs : List Hash) (s : Chainstate)
      → Sound g s
      → bytes_eq h b ≡ false
      → Below h s
      → is_member h hs ≡ true
      → Gone h (fail_descendants hs b height s)
  unfolding fail_descendants
  fail_descendants-Gone h [] s sound other below listed = absurd (cc)
  fail_descendants-Gone h (k ∷ hs) s sound other below listed =
      Option_elim (Gone h) (lookup k s.index)
        (λ absent.
          fail_descendants-Gone h hs s sound other below
            (ground (arith, bytes_eq_iff k h, below.0.1)))
        λ d found.
          let links = child-SameLinks d in
          let sound' = fail-Sound g s k d (child d) sound found links in
          Bool_elim (Gone h) (not (bytes_eq k b) && is_block (get_ancestor s.index k height) b)
            (λ under. elim (Bool-cases (bytes_eq k h)) [
              | inl match ↦
                  let eq : k ≡ h = (bytes_eq_iff k h).0 match in
                  let gone : Gone h (fail k (child d) s) = (
                    (
                      child d,
                      lookup-insert k h (child d) s.index ∙ (rw match refl),
                      failed_child_status-FailedChild d.status,
                    ),
                    rw (← eq) (fail-Out_self g s k d (child d) sound found links),
                  ) in
                  fail_descendants-keeps (Gone h) (Gone-Stays h) hs (fail k (child d) s) sound' gone
              | inr no_match ↦
                  fail_descendants-Gone h hs (fail k (child d) s) sound' other
                    (Below-Stays h s k d sound found (ground arith) (ground arith) below)
                    (ground arith)
            ])
            (λ not_under.
              let different : bytes_eq k h ≡ false = elim (Bool-cases (bytes_eq k h)) [
                | inr no_match ↦ no_match
                | inl match ↦
                    let eq : k ≡ h = (bytes_eq_iff k h).0 match in
                    let under : is_block (get_ancestor s.index k height) b ≡ true =
                      rw eq (below.1) in
                    let other' : bytes_eq k b ≡ false = rw eq other in ground arith
              ] in
              fail_descendants-Gone h hs s sound other below (ground arith))
