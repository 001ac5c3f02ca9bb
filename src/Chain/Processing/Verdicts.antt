-- ===== src/Chain/Processing/Verdicts.antt =====
-- ProcessNewBlockHeader keeps the state of the node correct; what its answers tell.
use coinbasechain.Base.{
  ℕ, ◌≤◌, ◌≡◌, ◌≢◌, ◌⊎◌, inl, inr, refl, sym, ap, ◌∙◌, arith, Bool, true, false, Option, none, some,
  [], Bool-cases, if◌then◌else◌,
}
use coinbasechain.Base.Map.{lookup, bytes_key}
use coinbasechain.Chain.Header.{BlockHeader, get_hash}
use coinbasechain.Chain.Index.{Hash, BlockIndex}
use coinbasechain.Chain.Index.Changing.{Grows}
use coinbasechain.Chain.Active.{tip}
use coinbasechain.Chain.Selection.{
  ChainSelector, chain_work_of, has_children, try_add_block_index_candidate,
}
use coinbasechain.Chain.Contextual.{ValidationState, valid, invalid, error, throws}
use coinbasechain.Chain.Activation.{Chainstate, activate_best_chain}
use coinbasechain.Chain.Activation.Settled.{Settled, all-member}
use coinbasechain.Chain.Acceptance.{Environment, Node, Acceptance, is_throw}
use coinbasechain.Chain.Acceptance.Accepting.{index_of}
use coinbasechain.Chain.Acceptance.Orphanage.{accept_block_header-Accepts}
use coinbasechain.Chain.Processing.{Processing, process_new_block_header}
use coinbasechain.Chain.Processing.Carrying.{Known}
use coinbasechain.Chain.Processing.Candidates.{Offered, try_add_block_index_candidate-Offered}
use coinbasechain.Chain.Processing.Soundness.{
  Sound, tip_work, carried-Sound, activate_best_chain-Sound,
}

thrown-throws : (v : ValidationState) → is_throw v ≡ true → v ≡ throws
unfolding is_throw
thrown-throws valid e = cc
thrown-throws (invalid r) e = cc
thrown-throws error e = cc
thrown-throws throws e = refl

calm-throws : (v : ValidationState) → is_throw v ≡ false → v ≢ throws
unfolding is_throw
calm-throws valid e same = cc
calm-throws (invalid r) e same = cc
calm-throws error e same = cc
calm-throws throws e same = cc

module _ (depth : ℕ) (g : Hash) where
  -- What the answer tells: `none` where an exception or a failed assert ends the call.
  abbrev pub Verdict : Node → Hash → Processing → Option Bool → Type 0
  Verdict n b p none =
      (p.state ≡ throws) ⊎ (p.state ≡ valid) × (chain_work_of (index_of p.node) b ≡ 0)
  Verdict n b p (some false) = (p.state ≢ valid) × (p.state ≢ throws)
  Verdict n b p (some true) =
      (p.state ≡ valid)
      × Known (index_of p.node) b
      × ((has_children b (index_of p.node) ≡ true)
          ⊎ ((t : Hash) × (tip n.chainstate.chain ≡ some t)
              × Settled depth (index_of p.node) t (tip_work p.node.chainstate) b))

  abbrev pub Processed : Node → Hash → Option Processing → Type 0
  Processed n b o =
      (p : Processing) × (o ≡ some p)
      × Sound g p.node.chainstate
      × Grows (index_of n) (index_of p.node)
      × (tip_work n.chainstate ≤ tip_work p.node.chainstate)
      × Verdict n b p p.success

  -- Offering the block of a correct state to the candidates, and activating the best chain.
  module _ (n n' : Node) (b : Hash) (e : BlockIndex) (sound : Sound g n'.chainstate) where
    module _ (known : lookup b (index_of n') ≡ some e) (v : ValidationState) where
      module _ (state_valid : v ≡ valid) (grows : Grows (index_of n) (index_of n'))
          (same : n'.chainstate.chain ≡ n.chainstate.chain)
          (work : tip_work n'.chainstate ≡ tip_work n.chainstate) where
        activated :
            (selected : ChainSelector)
            → Offered (index_of n') b (Known (index_of n')) (some selected)
            → let s = record n'.chainstate { selector = selected } in
              Processed n b (elim (activate_best_chain depth none s) [
                | none ↦ none
                | some a ↦ some (record {
                  node = record n' { chainstate = a.state };
                  events = a.events;
                  state = v;
                  success = some a.success;
                })
              ])
        activated selected (sorted, all, there) =
            let s : Chainstate = record n'.chainstate { selector = selected } in
            let start : Sound g s = record {
              index = sound.index;
              rooted = sound.rooted;
              leads = sound.leads;
              sorted = sorted;
              known = all;
            } in
            let (r, eq, success, kept, sound', more, (t, at_tip, settled)) =
              activate_best_chain-Sound depth g s start in
            rw (eq, success)
              (
                _,
                refl,
                sound',
                rw kept grows,
                omega (arith, work, more),
                (
                  state_valid,
                  rw kept (e, known),
                  rw kept (elim there [
                    | inl inner ↦ inl inner
                    | inr (inl bad) ↦ inr (t, sym (ap tip same) ∙ at_tip, inl bad)
                    | inr (inr member) ↦ inr (
                      t,
                      sym (ap tip same) ∙ at_tip,
                      all-member (Settled depth s.index t (tip_work r.state)) b selected.candidates
                          settled member,
                    )
                  ]),
                ),
              )

  -- From a correct state ProcessNewBlockHeader ends in a correct one, with an index that has grown
  -- and a tip with at least as much work as before. Nothing is returned only where AcceptBlockHeader
  -- is left by an exception or a failed assert, its own or that of an orphan that it lets in, or
  -- where the valid block has no work. It answers no exactly where the header is refused. Where it
  -- answers yes the header is valid and its block is in the index; it has children already, or it is
  -- not valid, has no more work than the tip, or would need a reorganisation of at least the
  -- suspicious depth.
  pub process_new_block_header-Processed :
      (env : Environment) (header : BlockHeader) (n : Node)
      → Sound g n.chainstate
      → Processed n (get_hash env.sha256 header) (process_new_block_header env depth header n)
  unfolding process_new_block_header
  process_new_block_header-Processed env header n sound =
      let b = get_hash env.sha256 header in
      let (r, eq, fine, answers) = accept_block_header-Accepts env header true n sound.index in
      let (kept, _, same, same', _) = fine in
      let (sound', work) = carried-Sound g n.chainstate r.node.chainstate sound kept same same' in
      elim answers [
        | inr (no_block, bad) ↦
            rw (eq, process_new_block_header)
              (rw no_block (refused r sound' kept.1 (omega (arith, work)) bad))
        | inl (block, state_valid, (e, known)) ↦
            let s = r.node.chainstate in
            let offered =
              try_add_block_index_candidate-Offered s.index b e (Known s.index) s.selector known
                (e, known) sound'.sorted sound'.known in
            rw (eq, process_new_block_header)
              (rw block (
                after r.node e sound' known r.state state_valid kept.1 same work
                  (try_add_block_index_candidate s.index (some b) s.selector) offered))
      ]
    where
      refused :
          (r : Acceptance)
          → Sound g r.node.chainstate
          → Grows (index_of n) (index_of r.node)
          → tip_work n.chainstate ≤ tip_work r.node.chainstate
          → r.state ≢ valid
          → Processed n (get_hash env.sha256 header) (
              some (record {
                node = r.node;
                events = [];
                state = r.state;
                success = if is_throw r.state then none else some false;
              }))
      refused r sound' grows work bad = elim (Bool-cases (is_throw r.state)) [
        | inl thrown ↦ rw thrown (_, refl, sound', grows, work, inl (thrown-throws r.state thrown))
        | inr calm ↦ rw calm (_, refl, sound', grows, work, (bad, calm-throws r.state calm))
      ]

      after :
          (n' : Node) (e : BlockIndex)
          → Sound g n'.chainstate
          → lookup (get_hash env.sha256 header) (index_of n') ≡ some e
          → (v : ValidationState) → v ≡ valid
          → Grows (index_of n) (index_of n')
          → n'.chainstate.chain ≡ n.chainstate.chain
          → tip_work n'.chainstate ≡ tip_work n.chainstate
          → (o : Option ChainSelector)
          → Offered (index_of n') (get_hash env.sha256 header) (Known (index_of n')) o
          → Processed n (get_hash env.sha256 header) (elim o [
            | none ↦ some (record { node = n'; events = []; state = v; success = none })
            | some selected ↦
                elim (activate_best_chain depth none
                  (record n'.chainstate { selector = selected })) [
                    | none ↦ none
                    | some a ↦ some (record {
                      node = record n' { chainstate = a.state };
                      events = a.events;
                      state = v;
                      success = some a.success;
                    })
                  ]
          ])
      after n' e sound' known v state_valid grows same work none empty =
          (_, refl, sound', grows, omega (arith, work), inr (state_valid, empty))
      after n' e sound' known v state_valid grows same work (some selected) offered =
          activated n n' (get_hash env.sha256 header) e sound' known v state_valid grows same work
            selected offered
