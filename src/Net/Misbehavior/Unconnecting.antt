-- ===== src/Net/Misbehavior/Unconnecting.antt =====
-- The counter of headers messages that do not connect: ten in a row cost 100 points, once.
use coinbasechain.Base.{
  ℕ, zero, suc, ◌+◌, ◌<◌, ◌≡◌, refl, true, false, Option, some, List, [], ◌∷◌, leb, ◌==◌,
  if◌then◌else◌, arith, Option-cases, Bool-cases, inl, inr, ◌∙◌, ap, ==_iff,
}
use coinbasechain.Base.Map.{lookup, nat_key}
use coinbasechain.Net.Misbehavior.{
  PeerMisbehaviorData, PeerStates, Call, reports, unconnecting, resets, notes, modify, penalize,
  misbehaving, count_unconnecting, increment_unconnecting_headers, reset_unconnecting_headers,
  get_misbehavior_score, step, run, max_unconnecting_headers,
}
use coinbasechain.Net.Misbehavior.Invariant.{lookup-modify}

-- What one call of IncrementUnconnectingHeaders makes of the peer's own data.
bump : PeerMisbehaviorData → PeerMisbehaviorData
bump d =
    if (count_unconnecting d).1
    then (penalize 100 (count_unconnecting d).0).0
    else (count_unconnecting d).0

lookup-misbehaving :
    (p j penalty : ℕ) (m : PeerStates) (d : PeerMisbehaviorData)
    → lookup j m ≡ some d
    → lookup j (misbehaving p penalty m).0 ≡ some (if p == j then (penalize penalty d).0 else d)
unfolding misbehaving
lookup-misbehaving p j penalty m d h = elim (Option-cases (lookup p m)) [
  | inl e ↦ rw (e, misbehaving) (ground (arith, ==_iff p j))
  | inr (c, e) ↦
      rw (e, misbehaving) (ground (arith, lookup-modify p j (λ x. (penalize penalty x).0) m))
]

-- The call changes the named peer by `bump` and leaves the others alone.
lookup-increment :
    (p j : ℕ) (m : PeerStates) (d : PeerMisbehaviorData)
    → lookup j m ≡ some d
    → lookup j (increment_unconnecting_headers p m) ≡ some (if p == j then bump d else d)
unfolding increment_unconnecting_headers bump
lookup-increment p j m d h = elim (Option-cases (lookup p m)) [
  | inl e ↦ rw (e, increment_unconnecting_headers) (ground (arith, ==_iff p j))
  | inr (c, e) ↦
      rw (e, increment_unconnecting_headers)
        (ground (
          arith,
          ==_iff p j,
          lookup-modify p j (λ x. (count_unconnecting x).0) m,
          lookup-misbehaving p j 100 (modify p (λ x. (count_unconnecting x).0) m)
              (if p == j then (count_unconnecting d).0 else d),
        ))
]

lookup-reset :
    (p j : ℕ) (m : PeerStates) (d : PeerMisbehaviorData)
    → lookup j m ≡ some d
    → lookup j (reset_unconnecting_headers p m)
      ≡ some (if p == j then record d { num_unconnecting_headers_msgs = 0 } else d)
unfolding reset_unconnecting_headers
lookup-reset p j m d h =
    ground (arith, lookup-modify p j (λ x. record x { num_unconnecting_headers_msgs = 0 }) m)

-- A history in which peers only send headers that do not connect, or that do.
abbrev pub OnlyCounting : List Call → Type 0
OnlyCounting [] = Unit
OnlyCounting (reports p kind ∷ cs) = ⊥
OnlyCounting (unconnecting p ∷ cs) = OnlyCounting cs
OnlyCounting (resets p ∷ cs) = OnlyCounting cs
OnlyCounting (notes p h ∷ cs) = ⊥

-- What the latch says has been paid.
abbrev pub paid : PeerMisbehaviorData → ℕ
paid d = if d.unconnecting_penalized then 100 else 0

bump-paid :
    (d : PeerMisbehaviorData)
    → (bump d).misbehavior_score + paid d ≡ d.misbehavior_score + paid (bump d)
unfolding bump count_unconnecting penalize
bump-paid d = ground arith

abbrev Follows : PeerMisbehaviorData → Option PeerMisbehaviorData → Type 0
Follows d o =
    (d' : PeerMisbehaviorData) × (o ≡ some d')
    × (d'.misbehavior_score + paid d ≡ d.misbehavior_score + paid d')

step-Follows :
    (d d₁ : PeerMisbehaviorData) {o : Option PeerMisbehaviorData}
    → d₁.misbehavior_score + paid d ≡ d.misbehavior_score + paid d₁
    → Follows d₁ o
    → Follows d o
step-Follows d d₁ q (d', e, r) = (d', e, omega arith)

run-Follows :
    (p : ℕ) (m : PeerStates) (cs : List Call) (d : PeerMisbehaviorData)
    → OnlyCounting cs
    → lookup p m ≡ some d
    → Follows d (lookup p (run m cs))
unfolding run step
run-Follows p m [] d only h = (d, h, refl)
run-Follows p m (reports q kind ∷ cs) d only h = absurd only
run-Follows p m (unconnecting q ∷ cs) d only h =
    step-Follows d (if q == p then bump d else d) (ground (arith, bump-paid d)) (
      run-Follows p (increment_unconnecting_headers q m) cs (if q == p then bump d else d) only
        (lookup-increment q p m d h))
run-Follows p m (resets q ∷ cs) d only h =
    step-Follows d (if q == p then record d { num_unconnecting_headers_msgs = 0 } else d)
      (ground arith)
      (run-Follows p (reset_unconnecting_headers q m) cs
        (if q == p then record d { num_unconnecting_headers_msgs = 0 } else d) only
        (lookup-reset q p m d h))
run-Follows p m (notes q x ∷ cs) d only h = absurd only

-- However many headers messages fail to connect, and however often the counter is reset in
-- between, a peer whose latch is off pays 100 points if the latch goes on, and else nothing.
pub unconnecting_penalized_once :
    (p : ℕ) (m : PeerStates) (cs : List Call) (d : PeerMisbehaviorData)
    → OnlyCounting cs
    → lookup p m ≡ some d
    → d.unconnecting_penalized ≡ false
    → (d' : PeerMisbehaviorData) × (lookup p (run m cs) ≡ some d')
      × (d'.misbehavior_score ≡ d.misbehavior_score + paid d')
unconnecting_penalized_once p m cs d only h off =
    let r : Follows d (lookup p (run m cs)) = run-Follows p m cs d only h in
    (r.0, r.1, ground (arith, r.2))

-- n calls for one peer with no reset.
unfoldable pub increments : ℕ → ℕ → PeerStates → PeerStates
increments zero p m = m
increments (suc n) p m = increments n p (increment_unconnecting_headers p m)

bumped : ℕ → PeerMisbehaviorData → PeerMisbehaviorData
bumped zero d = d
bumped (suc n) d = bumped n (bump d)

lookup-increments :
    (n p : ℕ) (m : PeerStates) (d : PeerMisbehaviorData)
    → lookup p m ≡ some d
    → lookup p (increments n p m) ≡ some (bumped n d)
unfolding increments bumped
lookup-increments zero p m d h = h
lookup-increments (suc n) p m d h =
    lookup-increments n p (increment_unconnecting_headers p m) (bump d)
      (ground (arith, lookup-increment p p m d h, ==_iff p p))

bump-latched : (d : PeerMisbehaviorData) → d.unconnecting_penalized ≡ true → bump d ≡ d
unfolding bump count_unconnecting
bump-latched d h = ground arith

bumped-latched :
    (n : ℕ) (d : PeerMisbehaviorData) → d.unconnecting_penalized ≡ true → bumped n d ≡ d
unfolding bumped
bumped-latched zero d h = refl
bumped-latched (suc n) d h = ap (bumped n) (bump-latched d h) ∙ bumped-latched n d h

bumped-score :
    (n : ℕ) (d : PeerMisbehaviorData)
    → d.unconnecting_penalized ≡ false
    → d.num_unconnecting_headers_msgs < max_unconnecting_headers
    → (bumped n d).misbehavior_score
      ≡ d.misbehavior_score
        + (if leb max_unconnecting_headers (d.num_unconnecting_headers_msgs + n) then 100 else 0)
unfolding bumped bump count_unconnecting penalize
bumped-score zero d off low = ground arith
bumped-score (suc n) d off low = elim (Bool-cases (count_unconnecting d).1) [
  | inl tenth ↦ ground (arith, bumped-latched n (bump d))
  | inr early ↦ ground (arith, bumped-score n (bump d))
]

-- A peer with no such message counted so far pays 100 points when n of them come in a row, if n is
-- at least ten, and nothing if n is less.
pub get_misbehavior_score-increments :
    (n p : ℕ) (m : PeerStates) (d : PeerMisbehaviorData)
    → lookup p m ≡ some d
    → d.unconnecting_penalized ≡ false
    → d.num_unconnecting_headers_msgs ≡ 0
    → get_misbehavior_score p (increments n p m)
      ≡ get_misbehavior_score p m + (if leb max_unconnecting_headers n then 100 else 0)
unfolding get_misbehavior_score
get_misbehavior_score-increments n p m d h off none_yet =
    ground (arith, lookup-increments n p m d h, bumped-score n d off)
