-- ===== src/Chain/Activation/Best.antt =====
-- ActivateBestChain ends on the best chain that local policy allows.
use coinbasechain.Base.{
  ℕ, zero, suc, ◌+◌, ◌-◌, ◌≤◌, ◌<◌, ◌≡◌, ◌⊎◌, refl, sym, ap, subst, ◌∙◌, arith, true, false, not,
  ◌&&◌, Option, none, some, List, [], leb, leb→le, leb-false, ◌==◌, Option_elim, Bool_elim,
  Bool-cases, inl, inr, length, All, All-map,
}
use coinbasechain.Base.Map.{lookup, bytes_key, bytes_eq, bytes_eq_iff}
use coinbasechain.Chain.Index.{Hash, BlockIndex, Index}
use coinbasechain.Chain.Index.Ancestors.{IsIndex}
use coinbasechain.Chain.Active.{tip, is_block, last_common_ancestor}
use coinbasechain.Chain.Selection.{
  Candidates, chain_work_of, height_of, may_lead, scan, find_most_work_chain, remove_candidate,
}
use coinbasechain.Chain.Selection.Order.{precedes-work}
use coinbasechain.Chain.Selection.Sets.{
  IsSorted, is_member, all-remove_candidate, remove_candidate-IsSorted, is_member-remove_candidate,
  all-prune, prune-IsSorted,
}
use coinbasechain.Chain.Selection.Choice.{Behind, Chosen, scan-Chosen}
use coinbasechain.Chain.Activation.{
  Chainstate, Notice, ok, policy_refused, StepResult, Activation, activate_best_chain_step, demote,
  is_ok, activate, activate_best_chain,
}
use coinbasechain.Chain.Activation.Leading.{Leads}
use coinbasechain.Chain.Activation.Ending.{resolve-lighter}
use coinbasechain.Chain.Activation.Switching.{MayReorganise, activate_best_chain_step-Switched}
use coinbasechain.Chain.Activation.Settled.{TooDeep, Settled, Meets, Best, all-member, all-scan}

module _ (depth : ℕ) (s : Chainstate) (good : IsIndex s.index) (t : Hash) (et : BlockIndex) where
  module _ (leads : Leads s.index s.chain t et) where
    abbrev m : Index
    m = s.index

    abbrev with : Candidates → Chainstate
    with cs = record s { selector = record s.selector { candidates = cs } }

    Settled-by_work :
        (b c : Hash) (w : ℕ) → chain_work_of m b ≤ w → Behind m b c → Settled depth m t w c
    Settled-by_work b c w h (inl invalid) = inl invalid
    Settled-by_work b c w h (inr (inl same)) = inr (inl (rw same h))
    Settled-by_work b c w h (inr (inr later)) = inr (inl (omega (arith, precedes-work m b c later)))

    -- What a step does to the tip's own kind and to those with no more work, and to those too deep.
    step_stays :
        (b : Hash) (cs : Candidates) (events : List Notice)
        → bytes_eq t b ≡ false
        → chain_work_of m b ≤ chain_work_of m t
        → activate_best_chain_step depth b (with cs) events
          ≡ record { state = with cs; events = events; result = ok }
    unfolding activate_best_chain_step
    step_stays b cs events other low =
        let less : leb (chain_work_of m b) (chain_work_of m t) ≡ true = ground arith in
        rw (leads.at_tip, activate_best_chain_step) (rw other (rw less refl))

    step_refuses :
        (b f : Hash) (cs : Candidates) (events : List Notice)
        → bytes_eq t b ≡ false
        → chain_work_of m t < chain_work_of m b
        → last_common_ancestor m t b ≡ some f
        → not (depth == 0) && leb depth (height_of m t - height_of m f) ≡ true
        → activate_best_chain_step depth b (with cs) events
          ≡ record { state = with cs; events = events; result = policy_refused }
    unfolding activate_best_chain_step
    step_refuses b f cs events other more fork deep =
        let heavier : leb (chain_work_of m b) (chain_work_of m t) ≡ false = ground arith in
        rw (leads.at_tip, activate_best_chain_step) (rw other (rw heavier (rw fork (rw deep refl))))

    work_of_tip : chain_work_of m t ≡ et.chain_work
    work_of_tip = rw (leads.known, chain_work_of) refl

    stay :
        (events : List Notice) (cs left : Candidates)
        → IsSorted m left
        → All (Meets m t) left
        → All (Settled depth m t et.chain_work) cs
        → Best depth s t et cs
            (some (record { state = with left; events = events; success = true }))
    stay events cs left sorted meets all =
        (_, refl, refl, refl, sorted, meets, (t, et, leads, omega arith, all))

    -- Settling what is left after a refusal settles what was there before.
    settle_rest :
        (b : Hash) (cs left : Candidates) (w : ℕ)
        → TooDeep depth m t b
        → IsSorted m left
        → All (λ c. (may_lead m c ≡ false) ⊎ (is_member c left ≡ true)) cs
        → All (Settled depth m t w) (remove_candidate m b left)
        → All (Settled depth m t w) cs
    settle_rest b cs left w deep sorted kept rest = All-map settle cs kept
      where
        settle :
            (c : Hash) → (may_lead m c ≡ false) ⊎ (is_member c left ≡ true) → Settled depth m t w c
        settle c (inl invalid) = inl invalid
        settle c (inr there) = elim (Bool-cases (bytes_eq b c)) [
          | inl same ↦ inr (inr (subst (TooDeep depth m t) ((bytes_eq_iff b c).0 same) deep))
          | inr other ↦
              all-member (Settled depth m t w) c (remove_candidate m b left) rest
                (is_member-remove_candidate m b c left sorted ∙ ground arith)
        ]

    too_deep :
        (b f : Hash)
        → last_common_ancestor m t b ≡ some f
        → not (depth == 0) && leb depth (height_of m t - height_of m f) ≡ true
        → TooDeep depth m t b
    too_deep b f fork deep = (f, fork, ground arith, ground arith)

    shallow :
        (b f : Hash)
        → not (depth == 0) && leb depth (height_of m t - height_of m f) ≡ false
        → MayReorganise s good depth t f
    shallow b f fine = elim (Bool-cases (depth == 0)) [
      | inl off ↦ inl (ground arith)
      | inr on ↦ inr (ground arith)
    ]

    -- The rest of a turn, from the result of the step on.
    abbrev go_on : ℕ → Hash → StepResult → Option Activation
    go_on fuel b r = elim (demote b r.result r.state) [
      | none ↦ some (record { state = r.state; events = r.events; success = is_ok r.result })
      | some next ↦ activate depth fuel none next r.events
    ]

    abbrev LoopBest : ℕ → Type 0
    LoopBest fuel =
        (cs : Candidates) (events : List Notice)
        → IsSorted m cs
        → All (Meets m t) cs
        → length cs < fuel
        → Best depth s t et cs (activate depth fuel none (with cs) events)

    module _ (fuel : ℕ) (ih : LoopBest fuel) (cs left : Candidates) (events : List Notice)
        (b : Hash) where
      module _ (chosen : Chosen m cs left (some b)) (other : bytes_eq t b ≡ false) where
        turn-refused :
            (f : Hash)
            → chain_work_of m t < chain_work_of m b
            → last_common_ancestor m t b ≡ some f
            → not (depth == 0) && leb depth (height_of m t - height_of m f) ≡ true
            → All (Meets m t) left
            → length (remove_candidate m b left) < fuel
            → Best depth s t et cs
                (go_on fuel b (activate_best_chain_step depth b (with left) events))
        turn-refused f more fork deep meets low =
            let (valid, there, behind, kept, sorted) = chosen in
            let step = step_refuses b f left events other more fork deep in
            let (r, eq, success, same, sorted', meets', (t', e', leads', work, rest)) =
              ih (remove_candidate m b left) events (remove_candidate-IsSorted m b left sorted)
                (all-remove_candidate m (Meets m t) b left meets) low in
            (
              r,
              ap (go_on fuel b) step ∙ eq,
              success,
              same,
              sorted',
              meets',
              (
                t',
                e',
                leads',
                work,
                settle_rest b cs left e'.chain_work (too_deep b f fork deep) sorted kept rest,
              ),
            )

        turn-switched :
            (f : Hash) (eb : BlockIndex)
            → lookup b m ≡ some eb
            → chain_work_of m t < chain_work_of m b
            → last_common_ancestor m t b ≡ some f
            → not (depth == 0) && leb depth (height_of m t - height_of m f) ≡ false
            → All (Meets m t) left
            → Best depth s t et cs
                (go_on fuel b (activate_best_chain_step depth b (with left) events))
        turn-switched f eb known more fork fine meets =
            let (valid, there, behind, kept, sorted) = chosen in
            let work : chain_work_of m b ≡ eb.chain_work = rw (known, chain_work_of) refl in
            let heavier : et.chain_work < eb.chain_work = omega (arith, work_of_tip, work) in
            let (i, j, _, _, (c, leads', eq)) =
              activate_best_chain_step-Switched (with left) good depth t b f et eb events leads
                known heavier fork (shallow b f fine) in
            (
              _,
              ap (go_on fuel b) eq,
              refl,
              refl,
              prune-IsSorted m c (with left).selector sorted,
              all-prune m (Meets m t) c (with left).selector meets,
              (
                b,
                eb,
                leads',
                omega arith,
                All-map (λ c z. Settled-by_work b c eb.chain_work (omega (arith, work)) z) cs
                    behind,
              ),
            )

        turn-stays :
            chain_work_of m b ≤ chain_work_of m t
            → All (Meets m t) left
            → Best depth s t et cs
                (go_on fuel b (activate_best_chain_step depth b (with left) events))
        turn-stays low meets =
            let (valid, there, behind, kept, sorted) = chosen in
            (
              _,
              ap (go_on fuel b) (step_stays b left events other low),
              refl,
              refl,
              sorted,
              meets,
              (
                t,
                et,
                leads,
                omega arith,
                All-map (λ c z. Settled-by_work b c et.chain_work (omega (arith, work_of_tip)) z) cs
                    behind,
              ),
            )

        turn :
            Meets m t b
            → All (Meets m t) left
            → length (remove_candidate m b left) < fuel
            → Best depth s t et cs
                (go_on fuel b (activate_best_chain_step depth b (with left) events))
        turn (eb, known, (f, fork)) meets low =
            elim (Bool-cases (leb (chain_work_of m b) (chain_work_of m t))) [
              | inl light ↦ turn-stays (leb→le _ _ light) meets
              | inr heavy ↦
                  let more = leb-false (chain_work_of m b) (chain_work_of m t) heavy in
                  elim (Bool-cases
                    (not (depth == 0) && leb depth (height_of m t - height_of m f))) [
                      | inl deep ↦ turn-refused f more fork deep meets low
                      | inr fine ↦ turn-switched f eb known more fork fine meets
                    ]
            ]

    is_tip : (b : Hash) → bytes_eq t b ≡ is_block (tip s.chain) b
    is_tip b = sym (ap (λ o. is_block o b) leads.at_tip)

    loop-Best : (fuel : ℕ) → LoopBest fuel
    unfolding activate find_most_work_chain
    loop-Best zero cs events sorted meets low = absurd (omega arith)
    loop-Best (suc fuel) cs events sorted meets low =
        let left = (scan m cs).0 in
        let sure = scan-Chosen m cs sorted in
        Option_elim (Best depth s t et cs) (scan m cs).1
          (λ nothing.
            let chosen : Chosen m cs left none = subst (Chosen m cs left) nothing sure in
            stay events cs left (rw (chosen.0) tt) (all-scan (Meets m t) m cs meets)
              (All-map (λ c h. inl h) cs chosen.1))
          λ b found.
            let chosen : Chosen m cs left (some b) = subst (Chosen m cs left) found sure in
            Bool_elim (Best depth s t et cs) (is_block (tip s.chain) b)
              (λ at_tip.
                let same : t ≡ b = (bytes_eq_iff t b).0 (is_tip b ∙ at_tip) in
                let work : chain_work_of m b ≤ et.chain_work =
                  omega (arith, work_of_tip, ap (chain_work_of m) same) in
                stay events cs left chosen.4 (all-scan (Meets m t) m cs meets)
                  (All-map (λ c z. Settled-by_work b c et.chain_work work z) cs chosen.2))
              λ elsewhere.
                turn fuel (loop-Best fuel) cs left events b chosen (is_tip b ∙ elsewhere)
                  (all-member (Meets m t) b cs meets chosen.1) (all-scan (Meets m t) m cs meets)
                  (omega (arith, resolve-lighter none (with cs) b found))

    -- From a chain that holds the ancestors of its tip, with sorted candidates whose branches meet the
    -- active one, ActivateBestChain ends with success. The new tip has at least the old one's work;
    -- each candidate is not valid, has no more work than the new tip, or would need a reorganisation
    -- of at least the suspicious depth; the index is unchanged, and the candidates stay sorted.
    pub activate_best_chain-Best :
        IsSorted m s.selector.candidates
        → All (Meets m t) s.selector.candidates
        → Best depth s t et s.selector.candidates (activate_best_chain depth none s)
    unfolding activate_best_chain
    activate_best_chain-Best sorted meets =
        loop-Best (length s.selector.candidates + 2) s.selector.candidates [] sorted meets
          (omega arith)
