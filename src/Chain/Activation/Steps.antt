-- ===== src/Chain/Activation/Steps.antt =====
-- What a step leaves alone: ConnectTip succeeds on blocks, so a step either ends the loop of
-- ActivateBestChain or changes nothing.
use coinbasechain.Base.{
  ℕ, ◌+◌, ◌-◌, ◌≡◌, refl, sym, ◌∙◌, arith, not, ◌&&◌, Option, none, some, List, [], ◌∷◌, leb, ◌==◌,
  if_elim, Option_elim, ◌⊎◌, inl, inr,
}
use coinbasechain.Base.Map.{bytes_eq}
use coinbasechain.Chain.Index.{Hash}
use coinbasechain.Chain.Active.{tip, last_common_ancestor}
use coinbasechain.Chain.Selection.{chain_work_of, height_of}
use coinbasechain.Chain.Activation.{
  Chainstate, Notice, Attempt, StepResult, connect_tip, connect_all, branch, take_off, put_on,
  switch, activate_best_chain_step, demote,
}

pub connect_all-done : (bs : List Hash) (a : Attempt) → (connect_all bs a).done ≡ a.done
unfolding connect_all connect_tip
connect_all-done [] a = refl
connect_all-done (b ∷ bs) a =
    if_elim {A = Attempt} (λ r. r.done ≡ a.done) (connect_all bs a).done
      (λ on. sym on ∙ connect_all-done bs a) (λ off. connect_all-done bs a)

-- A result that ends the loop.
abbrev pub IsLast : Hash → StepResult → Type 0
IsLast b r = demote b r.result r.state ≡ none

pub put_on-IsLast :
    (b : Hash) (fork : Option Hash) (off : Attempt × List Hash) (events : List Notice)
    → IsLast b (put_on b fork off events)
unfolding put_on
put_on-IsLast b fork off events =
    let m = off.0.state.index in
    let same = connect_all-done (branch m fork (height_of m b + 1) b) off.0 in
    if_elim {A = StepResult} (IsLast b) (not off.0.done) (λ failed. refl)
      (λ fine.
        if_elim {A = StepResult} (IsLast b)
          (not (connect_all (branch m fork (height_of m b + 1) b) off.0).done)
          (λ failed. absurd (ground arith)) (λ connected. refl))

-- A result after which the loop goes on has changed nothing.
abbrev pub GoesOn : Hash → Chainstate → StepResult → Type 0
GoesOn b s r = (IsLast b r) ⊎ (r.state ≡ s)

pub step-GoesOn :
    (depth : ℕ) (b : Hash) (s : Chainstate) (events : List Notice)
    → GoesOn b s (activate_best_chain_step depth b s events)
unfolding activate_best_chain_step switch
step-GoesOn depth b s events =
    Option_elim (GoesOn b s) (tip s.chain)
      (λ empty. inl (put_on-IsLast b none (take_off none none s) events))
      λ t there.
        if_elim {A = StepResult} (GoesOn b s) (bytes_eq t b) (λ _. inr refl)
          (λ _.
            if_elim {A = StepResult} (GoesOn b s)
              (leb (chain_work_of s.index b) (chain_work_of s.index t)) (λ _. inr refl)
              (λ _.
                Option_elim (GoesOn b s) (last_common_ancestor s.index t b) (λ _. inr refl)
                  λ f fork.
                    if_elim {A = StepResult} (GoesOn b s)
                      (not (depth == 0) && leb depth (height_of s.index t - height_of s.index f))
                      (λ _. inr refl)
                      (λ _. inl (put_on-IsLast b (some f) (take_off (some t) (some f) s) events))))
