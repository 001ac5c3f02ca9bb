-- ===== src/Chain/Invalidation/Sweeping.antt =====
-- What InvalidateBlock leaves of the flags and the candidates, block by block.
use coinbasechain.Base.{
  ℕ, ◌-◌, ◌≡◌, ◌≢◌, refl, sym, ap, ◌∙◌, arith, Bool, true, false, not, ◌&&◌, Option, none, some,
  List, [], ◌∷◌, Option_elim, Bool-cases, inl, inr, ltb, leb, keep, All,
}
use coinbasechain.Base.Map.{
  lookup, bytes_key, bytes_eq, bytes_eq_iff, bytes_eq_refl, lookup-insert, Distinct-listed,
}
use coinbasechain.Chain.Index.{
  Hash, BlockIndex, Index, get_ancestor, is_failed, is_valid, block_valid_tree,
}
use coinbasechain.Chain.Index.Ancestors.{up, IsIndex}
use coinbasechain.Chain.Index.Skips.{get_ancestor-up}
use coinbasechain.Chain.Index.Changing.{SameLinks, lookup-changed}
use coinbasechain.Chain.Active.{tip, is_block}
use coinbasechain.Chain.Selection.{chain_work_of, has_children, may_lead}
use coinbasechain.Chain.Activation.{Chainstate}
use coinbasechain.Chain.Acceptance.Marking.{lookup-insert_self}
use coinbasechain.Chain.Processing.Soundness.{Sound}
use coinbasechain.Chain.Invalidation.{
  keys, add_all, failed_valid_status, fail, fail_descendants, leaves, mark_and_clean,
}
use coinbasechain.Chain.Invalidation.Soundness.{fail-Sound}
use coinbasechain.Chain.Invalidation.Flags.{
  FailedValid, failed_valid_status-FailedValid, FailedValid-is_failed, FailedChild-is_failed,
}
use coinbasechain.Chain.Invalidation.Failing.{
  Out, Gone, get_ancestor-changed, fail-Out_self, lookup-keys, add_all-Out,
}
use coinbasechain.Chain.Invalidation.Descendants.{
  fail_descendants-Out, fail_descendants_others, fail_descendants-Gone,
}

-- A block has the flag of an invalid block and is no candidate; each of its descendants has the flag
-- of a descendant and is no candidate; and every other entry is as it was.
abbrev pub Swept : Hash → BlockIndex → Index → Chainstate → Type 0
Swept b e m r =
    ((status : ℕ) × (lookup b r.index ≡ some (record e { status = status }))
      × FailedValid e.status status)
    × Out b r
    × ((h : Hash) (d : BlockIndex)
        → lookup h m ≡ some d
        → h ≢ b
        → get_ancestor m h e.height ≡ some b
        → Gone h r)
    × ((h : Hash) (d : BlockIndex)
        → lookup h m ≡ some d
        → get_ancestor m h e.height ≢ some b
        → lookup h r.index ≡ some d)

is_block-some : (o : Option Hash) (b : Hash) → is_block o b ≡ true → o ≡ some b
is_block-some none b h = cc
is_block-some (some x) b h = ap some ((bytes_eq_iff x b).0 h)

module _ (g b : Hash) (e : BlockIndex) (s : Chainstate) (sound : Sound g s) where
  module _ (known : lookup b s.index ≡ some e) where
    abbrev marked : BlockIndex
    marked = record e { status = failed_valid_status e.status }

    same : SameLinks e marked
    same = (refl, refl, refl, refl, refl, refl, refl)

    abbrev begun : Chainstate
    begun = fail b marked s

    begun-Sound : Sound g begun
    begun-Sound = fail-Sound g s b e marked sound known same

    abbrev done : Chainstate
    done = fail_descendants (keys begun.index) b e.height begun

    -- Whether a block descends from the other does not change.
    below-same :
        (h : Hash) (d : BlockIndex)
        → lookup h s.index ≡ some d
        → get_ancestor begun.index h e.height ≡ get_ancestor s.index h e.height
    below-same h d there = get_ancestor-changed g s b e marked sound known same h d e.height there

    itself : get_ancestor s.index b e.height ≡ some b
    unfolding up
    itself =
        let low : ltb e.height e.height ≡ false = ground arith in
        let none_up : e.height - e.height ≡ 0 = omega arith in
        get_ancestor-up s.index b e e.height sound.index known ∙ (rw (low, none_up) refl)

    begun-marked : lookup b begun.index ≡ some marked
    begun-marked = lookup-insert_self b marked s.index

    done-descendants :
        (h : Hash) (d : BlockIndex)
        → lookup h s.index ≡ some d
        → h ≢ b
        → get_ancestor s.index h e.height ≡ some b
        → Gone h done
    done-descendants h d there other under =
        let (r, found, _) = lookup-changed s.index b e marked known same h d there in
        let below : is_block (get_ancestor begun.index h e.height) b ≡ true =
          rw (below-same h d there) (rw under (bytes_eq_refl b)) in
        let different : bytes_eq h b ≡ false = ground (arith, bytes_eq_iff h b) in
        fail_descendants-Gone g b e.height h (keys begun.index) begun begun-Sound different
          ((r, found), below) (lookup-keys h begun.index r found)

    not_below :
        (h : Hash) (d : BlockIndex)
        → lookup h s.index ≡ some d
        → get_ancestor s.index h e.height ≢ some b
        → is_block (get_ancestor begun.index h e.height) b ≡ false
    not_below h d there apart =
        elim (Bool-cases (is_block (get_ancestor begun.index h e.height) b)) [
          | inr off ↦ off
          | inl under ↦ absurd (
              apart (
                sym (below-same h d there)
                ∙ is_block-some (get_ancestor begun.index h e.height) b under))
        ]

    done-others :
        (h : Hash) (d : BlockIndex)
        → lookup h s.index ≡ some d
        → get_ancestor s.index h e.height ≢ some b
        → lookup h done.index ≡ some d
    done-others h d there apart =
        let different : bytes_eq b h ≡ false = elim (Bool-cases (bytes_eq b h)) [
          | inr no_match ↦ no_match
          | inl match ↦
              let eq : b ≡ h = (bytes_eq_iff b h).0 match in
              let here : get_ancestor s.index h e.height ≡ some b = rw (← eq) itself in
              absurd (apart here)
        ] in
        let still : lookup h begun.index ≡ some d =
          lookup-insert b h marked s.index ∙ (rw different there) in
        fail_descendants_others g b e.height h d (keys begun.index) begun begun-Sound
          (still, not_below h d there apart)

    module _ (there : lookup b done.index ≡ some marked) where
      done-Swept : Swept b e s.index done
      done-Swept = (
        (marked.status, there, failed_valid_status-FailedValid e.status),
        fail_descendants-Out g b e.height b (keys begun.index) begun begun-Sound
            (fail-Out_self g s b e marked sound known same),
        done-descendants,
        done-others,
      )

      -- Blocks that may lead become candidates again.
      module _ (bs : List Hash) (all : All (λ c. may_lead done.index c ≡ true) bs) where
        added-Swept :
            Swept b e s.index (record done { selector = add_all done.index bs done.selector })
        unfolding may_lead
        added-Swept =
            let (flagged, out, descendants, others) = done-Swept in
            let bad : is_failed marked ≡ true =
              FailedValid-is_failed e.status marked (failed_valid_status-FailedValid e.status) in
            let no_lead : may_lead done.index b ≡ false = rw (there, may_lead) (rw bad refl) in
            (
              flagged,
              add_all-Out done.index b bs done.selector no_lead all out,
              λ h d known other under.
                  let ((q, found, flags), out') = descendants h d known other under in
                  let bad' : is_failed q ≡ true = FailedChild-is_failed q flags in
                  let no_lead' : may_lead done.index h ≡ false =
                    rw (found, may_lead) (rw bad' refl) in
                  ((q, found, flags), add_all-Out done.index h bs done.selector no_lead' all out'),
              others,
            )

-- The blocks of the last pass are valid.
module _ (m : Index) (ok : IsIndex m) (t : Hash) where
  abbrev takes : Hash × BlockIndex → Bool
  takes x =
      is_valid block_valid_tree x.1
      && leb (chain_work_of m t) x.1.chain_work
      && not (has_children x.0 m)

  entry-leads :
      (x : Hash × BlockIndex) → lookup x.0 m ≡ some x.1 → takes x ≡ true → may_lead m x.0 ≡ true
  unfolding may_lead is_valid
  entry-leads x found taken = rw (found, may_lead) (ground arith)

  kept-lead :
      (xs : Index)
      → All (λ x. lookup x.0 m ≡ some x.1) xs
      → All (λ c. may_lead m c ≡ true) (keys (keep takes xs))
  kept-lead [] all = tt
  kept-lead (x ∷ xs) all = elim (Bool-cases (takes x)) [
    | inl taken ↦ rw taken (entry-leads x (all.0) taken, kept-lead xs (all.1))
    | inr left ↦ rw left (kept-lead xs (all.1))
  ]

  leaves-lead : All (λ c. may_lead m c ≡ true) (leaves m t)
  unfolding leaves
  leaves-lead = kept-lead m (Distinct-listed m ok.distinct)

pub mark_and_clean-Swept :
    (g b : Hash) (e : BlockIndex) (s : Chainstate) (sound : Sound g s)
    → (known : lookup b s.index ≡ some e) → IsIndex (done g b e s sound known).index
    → lookup b (done g b e s sound known).index
      ≡ some (record e { status = failed_valid_status e.status })
    → Swept b e s.index (mark_and_clean b e s)
unfolding mark_and_clean
mark_and_clean-Swept g b e s sound known ok there =
    let d = done g b e s sound known in
    Option_elim (Swept b e s.index) (tip d.chain) (λ _. done-Swept g b e s sound known there)
      λ t _. added-Swept g b e s sound known there (leaves d.index t) (leaves-lead d.index ok t)
