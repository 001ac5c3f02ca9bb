-- ===== src/Chain/Invalidation/Results.antt =====
-- What InvalidateBlock leaves.
use coinbasechain.Base.{
  Option-cases, ℕ, ◌+◌, ◌≡◌, refl, sym, ap, subst, ◌∙◌, arith, Bool, true, false, not, ◌&&◌, ◌||◌,
  none, some, List, [], ◌∷◌, ◌==◌, if◌then◌else◌, Option_elim, Bool_elim, Bool-cases, inl, inr,
  length, All, leb,
}
use coinbasechain.Base.Map.{lookup, insert, bytes_key, bytes_eq, lookup-insert}
use coinbasechain.Chain.Index.{Hash, BlockIndex, Index, is_valid, block_valid_tree, get_ancestor}
use coinbasechain.Chain.Index.Changing.{SameLinks, Grows, Grows-refl, Grows-trans, changed-Grows}
use coinbasechain.Chain.Active.{Chain, tip, contains, is_block}
use coinbasechain.Chain.Selection.{chain_work_of, has_children}
use coinbasechain.Chain.Activation.{Chainstate, Attempt}
use coinbasechain.Chain.Acceptance.Marking.{lookup-insert_self}
use coinbasechain.Chain.Processing.Carrying.{Known}
use coinbasechain.Chain.Processing.Soundness.{Sound}
use coinbasechain.Chain.Invalidation.{
  keys, competing, add_all, disconnect_through, failed_child_status, failed_valid_status, fail,
  fail_descendants, leaves, mark_and_clean, invalidate_block,
}
use coinbasechain.Chain.Invalidation.Offering.{Offers, mark_and_clean-Offers}
use coinbasechain.Chain.Invalidation.Sweeping.{Swept, mark_and_clean-Swept}
use coinbasechain.Chain.Invalidation.Soundness.{
  add_all-Fit, all-keep, all-keys, entries-Known, selected-Sound, fail-Sound, through-Off, falling,
}

-- A correct state with the same chain, the entry of a block, and an index that has grown.
abbrev Marked : Hash → Chainstate → Hash → BlockIndex → Chainstate → Type 0
Marked g s b e r =
    Sound g r × (r.chain ≡ s.chain) × (lookup b r.index ≡ some e) × Grows s.index r.index

fail_descendants-Marked :
    (g : Hash) (hs : List Hash) (b : Hash) (e : BlockIndex) (height : ℕ) (s : Chainstate)
    → Sound g s
    → lookup b s.index ≡ some e
    → Marked g s b e (fail_descendants hs b height s)
unfolding fail_descendants
fail_descendants-Marked g [] b e height s sound known = (sound, refl, known, Grows-refl s.index)
fail_descendants-Marked g (h ∷ hs) b e height s sound known =
    let rest = fail_descendants-Marked g hs b e height s sound known in
    Option_elim (Marked g s b e) (lookup h s.index) (λ _. rest)
      λ d found.
        Bool_elim (Marked g s b e)
          (not (bytes_eq h b) && is_block (get_ancestor s.index h height) b)
          (λ below.
            let marked : BlockIndex = record d { status = failed_child_status d.status } in
            let same : SameLinks d marked = (refl, refl, refl, refl, refl, refl, refl) in
            let other : bytes_eq h b ≡ false = ground arith in
            let still : lookup b (insert h marked s.index) ≡ some e =
              lookup-insert h b marked s.index ∙ (rw other known) in
            let (sound', chain, there, grows) =
              fail_descendants-Marked g hs b e height (fail h marked s)
                (fail-Sound g s h d marked sound found same) still in
            (
              sound',
              chain,
              there,
              Grows-trans s.index (insert h marked s.index)
                  (fail_descendants hs b height (fail h marked s)).index
                  (changed-Grows s.index h d marked found same) grows,
            ))
          (λ _. rest)

mark_and_clean-Marked :
    (g : Hash) (b : Hash) (e : BlockIndex) (s : Chainstate)
    → Sound g s
    → lookup b s.index ≡ some e
    → Marked g s b (record e { status = failed_valid_status e.status }) (mark_and_clean b e s)
unfolding mark_and_clean leaves
mark_and_clean-Marked g b e s sound known =
    let marked : BlockIndex = record e { status = failed_valid_status e.status } in
    let same : SameLinks e marked = (refl, refl, refl, refl, refl, refl, refl) in
    let begun = fail b marked s in
    let (sound', chain, there, grows) =
      fail_descendants-Marked g (keys begun.index) b marked e.height begun
        (fail-Sound g s b e marked sound known same) (lookup-insert_self b marked s.index) in
    let done = fail_descendants (keys begun.index) b e.height begun in
    let all =
      Grows-trans s.index begun.index done.index (changed-Grows s.index b e marked known same)
        grows in
    Option_elim (Marked g s b marked) (tip done.chain) (λ _. (sound', chain, there, all))
      λ t _.
        let p : Hash × BlockIndex → Bool = λ x.
          is_valid block_valid_tree x.1
          && leb (chain_work_of done.index t) x.1.chain_work
          && not (has_children x.0 done.index) in
        (
          selected-Sound g done (add_all done.index (leaves done.index t) done.selector) sound' (
              add_all-Fit done.index (leaves done.index t) done.selector
                (all-keys done.index _ (
                  all-keep done.index (λ x. Known done.index x.0) p done.index
                    (entries-Known done.index sound'.index)))
                (sound'.sorted, sound'.known)),
          chain,
          there,
          all,
        )

-- The flags and the candidates after the passes over the index.
swept :
    (g : Hash) (b : Hash) (e : BlockIndex) (s : Chainstate)
    → Sound g s
    → lookup b s.index ≡ some e
    → Swept b e s.index (mark_and_clean b e s)
swept g b e s sound known =
    let marked : BlockIndex = record e { status = failed_valid_status e.status } in
    let same : SameLinks e marked = (refl, refl, refl, refl, refl, refl, refl) in
    let begun = fail b marked s in
    let (sound', _, there, _) =
      fail_descendants-Marked g (keys begun.index) b marked e.height begun
        (fail-Sound g s b e marked sound known same) (lookup-insert_self b marked s.index) in
    mark_and_clean-Swept g b e s sound known sound'.index there

-- What InvalidateBlock does with a block that is not in the index or has height 0, and with another.
abbrev pub Invalidated : Hash → Hash → Chainstate → Attempt → Type 0
Invalidated g b s a = elim (lookup b s.index) [
  | none ↦ a ≡ record { state = s; events = []; done = false }
  | some e ↦ elim (e.height == 0) [
    | true ↦ a ≡ record { state = s; events = []; done = false }
    | false ↦
        (a.done ≡ true)
        × Sound g a.state
        × (contains a.state.index a.state.chain b ≡ false)
        × Grows s.index a.state.index
        × Swept b e s.index a.state
        × Offers a.state
  ]
]

contains-grown :
    (m m' : Index) (c : Chain) (b : Hash) (e d : BlockIndex)
    → lookup b m ≡ some e
    → lookup b m' ≡ some d
    → d.height ≡ e.height
    → contains m' c b ≡ contains m c b
unfolding contains
contains-grown m m' c b e d known found same =
    rw (known, contains) (rw (found, contains) (rw same refl))

module _ (g : Hash) (b : Hash) (s : Chainstate) (sound : Sound g s) where
  competing-Known : (p : Hash) → All (Known s.index) (competing s.index s.chain p)
  unfolding competing
  competing-Known p =
      let fits : Hash × BlockIndex → Bool = λ x.
        not (contains s.index s.chain x.0)
        && leb (chain_work_of s.index p) x.1.chain_work
        && is_valid block_valid_tree x.1 in
      all-keys s.index _
        (all-keep s.index (λ x. Known s.index x.0) fits s.index (entries-Known s.index sound.index))

  -- From a correct state InvalidateBlock refuses a block that is not in the index, or that has height
  -- 0, and changes nothing. Any other block it takes off the active chain. The bit of an invalid block
  -- is set in its status, and nothing else of its entry changes; each of its descendants has the bit
  -- of a descendant, and not the other; neither it nor a descendant is a candidate; every other entry
  -- is as it was. Each valid block without children that has at least the work of the tip is a
  -- candidate. Every entry keeps its links, height and work, and the state is correct, with sorted
  -- candidates that are blocks of the index.
  pub invalidate_block-Invalidated : Invalidated g b s (invalidate_block b s)
  unfolding invalidate_block
  invalidate_block-Invalidated = elim (Option-cases (lookup b s.index)) [
    | inl absent ↦ rw (absent, Invalidated) (rw (absent, invalidate_block) refl)
    | inr (e, known) ↦ elim (Bool-cases (e.height == 0)) [
      | inl low ↦ rw (known, Invalidated) (rw low (rw (known, invalidate_block) (rw low refl)))
      | inr high ↦
          let (t, et, leads) = sound.leads in
          let forks : List Hash = elim e.prev [
            | none ↦ []
            | some p ↦ competing s.index s.chain p
          ] in
          let known_forks : All (Known s.index) forks =
            Option_elim (All (Known s.index)) e.prev (λ _. tt) (λ p _. competing-Known p) in
          let (c, sel, events, eq, led, fit, off) =
            through-Off g s sound.index b e known (ground arith) (length s.chain + 1) t et s.chain
              s.selector forks [] leads (sound.sorted, sound.known) known_forks
              (omega (arith, leads.size)) in
          let fallen : Chainstate = record s { chain = c; selector = sel } in
          let fallen-ok : Sound g fallen = record {
            index = sound.index;
            rooted = sound.rooted;
            leads = led;
            sorted = fit.0;
            known = fit.1;
          } in
          let (sound', chain, there, grows) = mark_and_clean-Marked g b e fallen fallen-ok known in
          let finish : Attempt → Attempt = λ a.
            if not a.done || contains a.state.index a.state.chain b
            then record a { events = []; done = false }
            else record a { state = mark_and_clean b e a.state } in
          let Done : Attempt → Type 0 = λ a.
            (a.done ≡ true)
            × Sound g a.state
            × (contains a.state.index a.state.chain b ≡ false)
            × Grows s.index a.state.index
            × Swept b e s.index a.state
            × Offers a.state in
          let gone : contains (mark_and_clean b e fallen).index (mark_and_clean b e fallen).chain b
              ≡ false =
            rw chain (
              contains-grown s.index (mark_and_clean b e fallen).index c b e _ known there refl
              ∙ off) in
          let left : Done (finish (falling g s sound.index b e known (ground arith) c sel events)) =
            rw off (
              refl,
              sound',
              gone,
              grows,
              swept g b e fallen fallen-ok known,
              mark_and_clean-Offers b e fallen,
            ) in
          let start = falling g s sound.index b e known (ground arith) s.chain s.selector [] in
          let whole : invalidate_block b s
              ≡ finish (disconnect_through (length s.chain + 1) b forks start) =
            rw (known, invalidate_block) (rw high refl) in
          rw (known, Invalidated) (rw high (subst Done (sym (whole ∙ ap finish eq)) left))
    ]
  ]

  -- Whether it refuses or not.
  pub invalidate_block-Sound :
      Sound g (invalidate_block b s).state × Grows s.index (invalidate_block b s).state.index
  invalidate_block-Sound =
      let outcome = invalidate_block-Invalidated in
      let nothing_done : invalidate_block b s ≡ record { state = s; events = []; done = false }
          → Sound g (invalidate_block b s).state
            × Grows s.index (invalidate_block b s).state.index =
        λ refused.
          subst (λ (a : Attempt). Sound g a.state × Grows s.index a.state.index) (sym refused)
            (sound, Grows-refl s.index) in
      elim (Option-cases (lookup b s.index)) [
        | inl absent ↦ nothing_done (rw (absent, Invalidated) at (outcome))
        | inr (e, known) ↦ elim (Bool-cases (e.height == 0)) [
          | inl low ↦ nothing_done (rw low at (rw (known, Invalidated) at (outcome)))
          | inr high ↦
              let (_, sound', _, grows, _, _) =
                (rw high at (rw (known, Invalidated) at (outcome))) in
              (sound', grows)
        ]
      ]
