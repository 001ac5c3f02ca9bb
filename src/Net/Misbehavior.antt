-- ===== src/Net/Misbehavior.antt =====
-- network/misbehavior_manager.cpp over include/network/peer_misbehavior.hpp: penalties, the
-- discouragement latch, NoBan, and the counter of headers messages that do not connect.
-- A peer id is a number. Scores do not wrap: an int holds 2 ^ 31 - 1, about 21 million penalties.
pub mod Invariant
pub mod Unconnecting
pub mod Tests
use Prim.Native.Nat.{bit_and}
use coinbasechain.Base.{
  ℕ, ◌+◌, ◌≡◌, Bool, true, false, not, ◌&&◌, ◌||◌, Option, none, some, List, [], ◌∷◌, ltb, leb,
  ◌==◌, if◌then◌else◌,
}
use coinbasechain.Base.Map.{lookup, insert, has, nat_key, bytes_key}

-- NetPermissionFlags
abbrev pub no_permission : ℕ
no_permission = 0

abbrev pub no_ban : ℕ
no_ban = 1

abbrev pub manual : ℕ
manual = 2

unfoldable pub has_permission : ℕ → ℕ → Bool
has_permission flags check = bit_and flags check == check && not (check == 0)

pub record PeerMisbehaviorData : Type 0 where
  pub misbehavior_score : ℕ
  pub should_discourage : Bool
  pub num_unconnecting_headers_msgs : ℕ
  pub unconnecting_penalized : Bool
  pub permissions : ℕ
  pub address : List ℕ
  pub invalid_header_hashes : List (List ℕ)

abbrev pub discouragement_threshold : ℕ
discouragement_threshold = 100

abbrev pub max_unconnecting_headers : ℕ
max_unconnecting_headers = 10

-- The penalties that have a report of their own.
pub data MisbehaviorPenalty : Type 0 where
  invalid_pow oversized_message non_continuous_headers : MisbehaviorPenalty
  low_work_headers invalid_header too_many_unconnecting : MisbehaviorPenalty
  too_many_orphans pre_verack_message : MisbehaviorPenalty

unfoldable pub penalty_points : MisbehaviorPenalty → ℕ
penalty_points invalid_pow = 100
penalty_points oversized_message = 20
penalty_points non_continuous_headers = 20
penalty_points low_work_headers = 10
penalty_points invalid_header = 100
penalty_points too_many_unconnecting = 100
penalty_points too_many_orphans = 100
penalty_points pre_verack_message = 100

-- The map of all peers, peer_states_, as far as this component reads and writes it.
abbrev pub PeerStates : Type 0
PeerStates = List (ℕ × PeerMisbehaviorData)

-- ThreadSafeMap::Modify: nothing happens for a peer that is not there.
unfoldable pub modify : ℕ → (PeerMisbehaviorData → PeerMisbehaviorData) → PeerStates → PeerStates
modify peer_id f m = elim (lookup peer_id m) [ none ↦ m | some d ↦ insert peer_id (f d) m ]

-- The lambda in Misbehaving, and the should_disconnect that it leaves.
unfoldable pub penalize : ℕ → PeerMisbehaviorData → PeerMisbehaviorData × Bool
unfolding has_permission
penalize penalty d =
    let score = d.misbehavior_score + penalty in
    let scored = record d { misbehavior_score = score } in
    if leb discouragement_threshold score && ltb d.misbehavior_score discouragement_threshold
    then (if has_permission d.permissions no_ban
        then (scored, false)
        else (record scored { should_discourage = true }, true))
    else (scored, false)

unfoldable pub misbehaving : ℕ → ℕ → PeerStates → PeerStates × Bool
unfolding modify penalize
misbehaving peer_id penalty m = elim (lookup peer_id m) [
  | none ↦ (m, false)
  | some d ↦ (modify peer_id (λ x. (penalize penalty x).0) m, (penalize penalty d).1)
]

-- ReportInvalidPoW and the other public reports: each is one call of Misbehaving.
unfoldable pub report : ℕ → MisbehaviorPenalty → PeerStates → PeerStates
unfolding misbehaving penalty_points
report peer_id kind m = (misbehaving peer_id (penalty_points kind) m).0

unfoldable pub should_disconnect : ℕ → PeerStates → Bool
unfolding has_permission
should_disconnect peer_id m = elim (lookup peer_id m) [
  | none ↦ false
  | some d ↦ if has_permission d.permissions no_ban then false else d.should_discourage
]

unfoldable pub get_misbehavior_score : ℕ → PeerStates → ℕ
get_misbehavior_score peer_id m = elim (lookup peer_id m) [
  | none ↦ 0
  | some d ↦ d.misbehavior_score
]

mem_hash : List ℕ → List (List ℕ) → Bool
mem_hash h [] = false
mem_hash h (x ∷ xs) = if bytes_key.beq x h then true else mem_hash h xs

-- The source keeps the hashes as hexadecimal text, one text for each hash.
unfoldable pub note_invalid_header_hash : ℕ → List ℕ → PeerStates → PeerStates
unfolding modify mem_hash
note_invalid_header_hash peer_id hash = modify peer_id λ d.
    if mem_hash hash d.invalid_header_hashes
    then d
    else record d { invalid_header_hashes = hash ∷ d.invalid_header_hashes }

unfoldable pub has_invalid_header_hash : ℕ → List ℕ → PeerStates → Bool
unfolding mem_hash
has_invalid_header_hash peer_id hash m = elim (lookup peer_id m) [
  | none ↦ false
  | some d ↦ mem_hash hash d.invalid_header_hashes
]

-- The lambda in IncrementUnconnectingHeaders, and the threshold_exceeded that it leaves.
unfoldable pub count_unconnecting : PeerMisbehaviorData → PeerMisbehaviorData × Bool
count_unconnecting d =
    let n = d.num_unconnecting_headers_msgs + 1 in
    let counted = record d { num_unconnecting_headers_msgs = n } in
    if d.unconnecting_penalized
    then (d, false)
    else if leb max_unconnecting_headers n
    then (record counted { unconnecting_penalized = true }, true)
    else (counted, false)

unfoldable pub increment_unconnecting_headers : ℕ → PeerStates → PeerStates
unfolding count_unconnecting modify misbehaving penalty_points
increment_unconnecting_headers peer_id m = elim (lookup peer_id m) [
  | none ↦ m
  | some d ↦
      let counted = modify peer_id (λ x. (count_unconnecting x).0) m in
      if (count_unconnecting d).1
      then (misbehaving peer_id (penalty_points too_many_unconnecting) counted).0
      else counted
]

unfoldable pub reset_unconnecting_headers : ℕ → PeerStates → PeerStates
unfolding modify
reset_unconnecting_headers peer_id =
    modify peer_id λ d. record d { num_unconnecting_headers_msgs = 0 }

-- The calls that the network code makes, in any order.
pub data Call : Type 0 where
  reports : ℕ → MisbehaviorPenalty → Call
  unconnecting resets : ℕ → Call
  notes : ℕ → List ℕ → Call

unfoldable pub step : PeerStates → Call → PeerStates
unfolding report increment_unconnecting_headers reset_unconnecting_headers note_invalid_header_hash
step m (reports p kind) = report p kind m
step m (unconnecting p) = increment_unconnecting_headers p m
step m (resets p) = reset_unconnecting_headers p m
step m (notes p h) = note_invalid_header_hash p h m

unfoldable pub run : PeerStates → List Call → PeerStates
run m [] = m
run m (c ∷ cs) = run (step m c) cs
