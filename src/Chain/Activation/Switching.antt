-- ===== src/Chain/Activation/Switching.antt =====
-- A step of ActivateBestChain to a branch with more work.
use coinbasechain.Base.{
  ℕ, ◌+◌, ◌-◌, ◌<◌, ◌≡◌, ◌⊎◌, refl, ap, subst, ◌∙◌, arith, false, not, ◌&&◌, some, List, [], ◌∷◌,
  ◌++◌, map, reverse, leb, ◌==◌, if◌then◌else◌,
}
use coinbasechain.Base.Map.{lookup, bytes_key, bytes_eq}
use coinbasechain.Chain.Index.{Hash, BlockIndex, Index}
use coinbasechain.Chain.Index.Ancestors.{up, IsIndex}
use coinbasechain.Chain.Active.{Chain, last_common_ancestor}
use coinbasechain.Chain.Active.Forks.{LastCommon, last_common_ancestor-LastCommon, ancestor_height}
use coinbasechain.Chain.Selection.{chain_work_of, height_of, prune_block_index_candidates}
use coinbasechain.Chain.Activation.{
  Chainstate, Notice, block_connected, block_disconnected, chain_tip, ok, Attempt, StepResult,
  connect_all, restore, disconnect_to, take_off, put_on, switch, activate_best_chain_step,
}
use coinbasechain.Chain.Activation.Leading.{
  Leads, path, branch-path, moved, disconnect_to-Moved, connect_all-connects, not_same,
}

-- What subscribers hear of a switch: the blocks of the old branch from the tip down, those of the
-- new one from the fork up, and the new tip.
abbrev pub announcement : Index → ℕ → Hash → ℕ → Hash → List Notice
announcement m i t j b =
    (map block_disconnected (path m i t) ++ map block_connected (reverse (path m j b)))
    ++ chain_tip b (height_of m b) ∷ []

-- The chain leads to the block, the notices are those of the two branches, the candidates are
-- pruned, and nothing else has changed.
abbrev pub Switched :
    Chainstate → List Notice → List Notice → Hash → BlockIndex → StepResult → Type 0
Switched s events heard b e r =
    (c : Chain) × Leads s.index c b e
    × (r ≡ record {
      state = record s { chain = c; selector = prune_block_index_candidates s.index c s.selector };
      events = events ++ heard;
      result = ok;
    })

module _ (s : Chainstate) (good : IsIndex s.index) where
  abbrev m : Index
  m = s.index

  put_on-Switched :
      (j : ℕ) (b f : Hash) (eb ef : BlockIndex) (c : Chain) (taken : List Hash)
      (events heard : List Notice)
      → Leads m c f ef
      → lookup b m ≡ some eb
      → up m j b ≡ some f
      → Switched s events
          ((heard ++ map block_connected (reverse (path m j b)))
            ++ chain_tip b (height_of m b) ∷ [])
          b
          eb
          (put_on b (some f) (moved s good c heard, taken) events)
  unfolding put_on
  put_on-Switched j b f eb ef c taken events heard leads known k =
      let (q, _, level) = ancestor_height m good j b f eb known k in
      let high : height_of m b ≡ eb.height = rw (known, height_of) refl in
      let blocks = branch-path m good j (height_of m b + 1) b f eb known k (omega arith) in
      let (c', leads', eq) = connect_all-connects s good j b f eb ef c heard leads known k in
      let finish : Attempt → StepResult = λ on.
        if not on.done then restore (some f) taken on events else record {
          state = record on.state {
            selector = prune_block_index_candidates on.state.index on.state.chain on.state.selector;
          };
          events = events ++ (on.events ++ chain_tip b (height_of m b) ∷ []);
          result = ok;
        } in
      (c', leads', ap (λ r. finish (connect_all r (moved s good c heard))) blocks ∙ ap finish eq)

  -- How far back the fork is from the tip, and whether that is not suspicious.
  abbrev pub MayReorganise : ℕ → Hash → Hash → Type 0
  MayReorganise depth t f = (depth ≡ 0) ⊎ (height_of m t < height_of m f + depth)

  switch-Switched :
      (i j : ℕ) (t b f : Hash) (et eb ef : BlockIndex) (events : List Notice)
      → Leads m s.chain t et
      → lookup b m ≡ some eb
      → lookup f m ≡ some ef
      → up m i t ≡ some f
      → up m j b ≡ some f
      → Switched s events (announcement m i t j b) b eb (switch b (some t) (some f) s events)
  unfolding switch take_off
  switch-Switched i j t b f et eb ef events leads known there pt pb =
      let (_, _, level) = ancestor_height m good i t f et leads.known pt in
      let high : height_of m t ≡ et.height = rw (leads.known, height_of) refl in
      let (c, at_fork, eq) =
        disconnect_to-Moved s good i (height_of m t + 1) t f et ef s.chain [] [] leads there pt
          (omega arith) in
      let off = disconnect_to (height_of m t + 1) f (some t) (moved s good s.chain []) [] in
      let (c', leads', eq') =
        put_on-Switched j b f eb ef c off.1 events (map block_disconnected (path m i t)) at_fork
          known pb in
      (c', leads', ap (λ a. put_on b (some f) (a, off.1) events) eq ∙ eq')

  step-switch :
      (depth : ℕ) (t b f : Hash) (et eb : BlockIndex) (events : List Notice)
      → Leads m s.chain t et
      → lookup b m ≡ some eb
      → et.chain_work < eb.chain_work
      → last_common_ancestor m t b ≡ some f
      → MayReorganise depth t f
      → activate_best_chain_step depth b s events ≡ switch b (some t) (some f) s events
  unfolding activate_best_chain_step
  step-switch depth t b f et eb events leads known more fork shallow =
      let work : chain_work_of m t ≡ et.chain_work = rw (leads.known, chain_work_of) refl in
      let work' : chain_work_of m b ≡ eb.chain_work = rw (known, chain_work_of) refl in
      let other : bytes_eq t b ≡ false =
        not_same t b (λ same. absurd (omega (arith, ap (chain_work_of m) same))) in
      let heavier : leb (chain_work_of m b) (chain_work_of m t) ≡ false = ground arith in
      let fine : not (depth == 0) && leb depth (height_of m t - height_of m f) ≡ false =
        ground arith in
      rw (leads.at_tip, activate_best_chain_step) (rw other (rw heavier (rw fork (rw fine refl))))

  -- A step to a candidate with more work than the tip, whose fork from the active chain is not as
  -- deep as is suspicious, leaves the chain with exactly the ancestors of the candidate; its notices
  -- are the blocks of the old branch from the tip down to the fork, those of the new one up from it,
  -- and the new tip; the candidates are pruned, and nothing else changes.
  pub activate_best_chain_step-Switched :
      (depth : ℕ) (t b f : Hash) (et eb : BlockIndex) (events : List Notice)
      → Leads m s.chain t et
      → lookup b m ≡ some eb
      → et.chain_work < eb.chain_work
      → last_common_ancestor m t b ≡ some f
      → MayReorganise depth t f
      → (i : ℕ) × (j : ℕ) × (up m i t ≡ some f)
        × (up m j b ≡ some f)
        × Switched s events
            (announcement m i t j b)
            b
            eb
            (activate_best_chain_step depth b s events)
  unfolding activate_best_chain_step
  activate_best_chain_step-Switched depth t b f et eb events leads known more fork shallow =
      let (i, j, pt, pb, _) : LastCommon m t b (some f) =
        subst (LastCommon m t b) fork
          (last_common_ancestor-LastCommon m good t b et eb leads.known known) in
      let (ef, there, level) = ancestor_height m good i t f et leads.known pt in
      let (c, leads', eq) = switch-Switched i j t b f et eb ef events leads known there pt pb in
      (
        i,
        j,
        pt,
        pb,
        (c, leads', step-switch depth t b f et eb events leads known more fork shallow ∙ eq),
      )
