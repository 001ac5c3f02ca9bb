-- ===== src/Chain/Activation/Ending.antt =====
-- Each turn of the loop of ActivateBestChain that does not end it takes a candidate out of the set.
use coinbasechain.Base.{
  ℕ, ◌+◌, ◌≤◌, ◌<◌, ◌≡◌, refl, arith, Option, none, some, [], ◌∷◌, if_elim, length,
}
use coinbasechain.Chain.Index.{Hash, Index}
use coinbasechain.Chain.Selection.{
  Candidates, may_lead, scan, find_most_work_chain, remove_candidate,
}
use coinbasechain.Chain.Selection.Order.{precedes_irrefl}
use coinbasechain.Chain.Activation.{
  Chainstate, ActivateResult, ok, consensus_invalid, policy_refused, system_error, demote, resolve,
}

abbrev pub count : Chainstate → ℕ
count s = length s.selector.candidates

length-remove_candidate-le :
    (m : Index) (a : Hash) (s : Candidates) → length (remove_candidate m a s) ≤ length s
unfolding remove_candidate
length-remove_candidate-le m a [] = omega arith
length-remove_candidate-le m a (b ∷ s) = ground (arith, length-remove_candidate-le m a s)

-- What FindMostWorkChain finds stands first in what it leaves.
abbrev Heads : Candidates → Candidates → Option Hash → Type 0
Heads s left none = Unit
Heads s left (some b) = (rest : Candidates) × (left ≡ b ∷ rest) × (length rest < length s)

scan-Heads : (m : Index) (s : Candidates) → Heads s (scan m s).0 (scan m s).1
unfolding scan
scan-Heads m [] = tt
scan-Heads m (b ∷ s) =
    if_elim {A = Candidates × Option Hash} (λ r. Heads (b ∷ s) r.0 r.1) (may_lead m b)
      (λ valid. (s, refl, omega arith))
      (λ invalid. later (scan m s).0 (scan m s).1 (scan-Heads m s))
  where
    later : (left : Candidates) (r : Option Hash) → Heads s left r → Heads (b ∷ s) left r
    later left none h = tt
    later left (some c) (rest, e, low) = (rest, e, omega arith)

-- With a candidate that is given the set may stay as it is for one turn.
abbrev pub weight : Option Hash → Chainstate → ℕ
weight none s = count s
weight (some b) s = count s + 1

demoted :
    (b : Hash) (r : ActivateResult) (s next : Chainstate)
    → demote b r s ≡ some next
    → next.selector.candidates ≡ remove_candidate s.index b s.selector.candidates
demoted b ok s next h = cc
demoted b consensus_invalid s next h = ground arith
demoted b policy_refused s next h = ground arith
demoted b system_error s next h = cc

head_removed :
    (m : Index) (s left : Candidates) (b : Hash) (r : Option Hash)
    → r ≡ some b
    → Heads s left r
    → length (remove_candidate m b left) < length s
unfolding remove_candidate
head_removed m s left b none h k = cc
head_removed m s left b (some c) h (rest, e, low) =
    let same : c ≡ b = cc in let irrefl = precedes_irrefl m b in rw e (rw same (rw irrefl low))

-- The candidate of a turn is no longer there when it is demoted.
pub resolve-lighter :
    (given : Option Hash) (s : Chainstate) (b : Hash)
    → (resolve given s).1 ≡ some b
    → length (remove_candidate (resolve given s).0.index b (resolve given s).0.selector.candidates)
      < weight given s
unfolding find_most_work_chain
resolve-lighter none s b h =
    head_removed s.index s.selector.candidates (scan s.index s.selector.candidates).0 b
      (scan s.index s.selector.candidates).1 h (scan-Heads s.index s.selector.candidates)
resolve-lighter (some c) s b h =
    omega (arith, length-remove_candidate-le s.index b s.selector.candidates)
