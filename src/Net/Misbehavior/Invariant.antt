-- ===== src/Net/Misbehavior/Invariant.antt =====
-- When a peer is marked for disconnection, over any history of calls.
use coinbasechain.Base.{
  ℕ, ◌≡◌, Bool, true, false, not, ◌&&◌, none, some, List, [], ◌∷◌, leb, ◌==◌, if◌then◌else◌, arith,
  Option-cases, inl, inr,
}
use coinbasechain.Base.Map.{lookup, lookup-insert, nat_key}
use coinbasechain.Net.Misbehavior.{
  PeerMisbehaviorData, PeerStates, Call, reports, unconnecting, resets, notes, has_permission,
  no_ban, modify, penalize, misbehaving, report, count_unconnecting, increment_unconnecting_headers,
  reset_unconnecting_headers, note_invalid_header_hash, should_disconnect, step, run,
  discouragement_threshold, penalty_points, too_many_unconnecting,
}

-- The mark is on exactly when the score has reached the threshold and the peer has no NoBan.
abbrev pub IsMarked : PeerMisbehaviorData → Type 0
IsMarked d = d.should_discourage ≡ (
    leb discouragement_threshold d.misbehavior_score && not (has_permission d.permissions no_ban))

abbrev pub AllMarked : PeerStates → Type 0
AllMarked m = (p : ℕ) (d : PeerMisbehaviorData) → lookup p m ≡ some d → IsMarked d

pub lookup-modify :
    (k j : ℕ) (f : PeerMisbehaviorData → PeerMisbehaviorData) (m : PeerStates)
    → lookup j (modify k f m)
      ≡ (if k == j then elim (lookup j m) [ none ↦ none | some d ↦ some (f d) ] else lookup j m)
unfolding modify
lookup-modify k j f m = elim (Option-cases (lookup k m)) [
  | inl e ↦ rw (e, modify) (ground arith)
  | inr (d, e) ↦ rw (e, modify) (ground (arith, lookup-insert k j (f d) m))
]

-- A change of one peer that keeps its mark right keeps all of them right.
modify-AllMarked :
    (k : ℕ) (f : PeerMisbehaviorData → PeerMisbehaviorData) (m : PeerStates)
    → ((d : PeerMisbehaviorData) → IsMarked d → IsMarked (f d))
    → AllMarked m
    → AllMarked (modify k f m)
modify-AllMarked k f m keep all p d h = elim (Option-cases (lookup p m)) [
  | inl e ↦ ground (arith, lookup-modify k p f m)
  | inr (c, e) ↦ ground (arith, lookup-modify k p f m, all p c e, keep c (all p c e))
]

penalize-IsMarked :
    (penalty : ℕ) (d : PeerMisbehaviorData) → IsMarked d → IsMarked (penalize penalty d).0
unfolding penalize
penalize-IsMarked penalty d h = ground arith

misbehaving-AllMarked :
    (p penalty : ℕ) (m : PeerStates) → AllMarked m → AllMarked (misbehaving p penalty m).0
unfolding misbehaving
misbehaving-AllMarked p penalty m all = elim (Option-cases (lookup p m)) [
  | inl e ↦ rw (e, misbehaving) all
  | inr (d, e) ↦ rw (e, misbehaving) (modify-AllMarked p _ m (penalize-IsMarked penalty) all)
]

count_unconnecting-IsMarked :
    (d : PeerMisbehaviorData) → IsMarked d → IsMarked (count_unconnecting d).0
unfolding count_unconnecting
count_unconnecting-IsMarked d h = ground arith

increment-AllMarked :
    (p : ℕ) (m : PeerStates) → AllMarked m → AllMarked (increment_unconnecting_headers p m)
unfolding increment_unconnecting_headers
increment-AllMarked p m all = elim (Option-cases (lookup p m)) [
  | inl e ↦ rw (e, increment_unconnecting_headers) all
  | inr (d, e) ↦ rw (e, increment_unconnecting_headers) (go (count_unconnecting d).1)
]
  where
    counted : PeerStates
    counted = modify p (λ x. (count_unconnecting x).0) m

    all_counted : AllMarked counted
    all_counted = modify-AllMarked p _ m count_unconnecting-IsMarked all

    go :
        (b : Bool)
        → AllMarked (
            if b then (misbehaving p (penalty_points too_many_unconnecting) counted).0 else counted)
    go true = misbehaving-AllMarked p _ counted all_counted
    go false = all_counted

step-AllMarked : (m : PeerStates) (c : Call) → AllMarked m → AllMarked (step m c)
unfolding step report reset_unconnecting_headers note_invalid_header_hash
step-AllMarked m (reports p kind) all = misbehaving-AllMarked p _ m all
step-AllMarked m (unconnecting p) all = increment-AllMarked p m all
step-AllMarked m (resets p) all = modify-AllMarked p _ m (λ d h. h) all
step-AllMarked m (notes p hash) all = modify-AllMarked p _ m (λ d h. ground arith) all

run-AllMarked : (m : PeerStates) (cs : List Call) → AllMarked m → AllMarked (run m cs)
unfolding run
run-AllMarked m [] all = all
run-AllMarked m (c ∷ cs) all = run-AllMarked (step m c) cs (step-AllMarked m c all)

-- If every mark is right at the start, then after any history of calls a peer that is still in the
-- map is disconnected exactly when its score has reached 100 and it has no NoBan permission.
pub should_disconnect-run :
    (m : PeerStates) (cs : List Call) (p : ℕ) (d : PeerMisbehaviorData)
    → AllMarked m
    → lookup p (run m cs) ≡ some d
    → should_disconnect p (run m cs) ≡ (
        leb discouragement_threshold d.misbehavior_score
        && not (has_permission d.permissions no_ban))
unfolding should_disconnect
should_disconnect-run m cs p d all h = ground (arith, run-AllMarked m cs all p d h)
