-- ===== src/Net/Misbehavior/Tests.antt =====
-- Runs of the misbehavior manager on concrete peers.
use coinbasechain.Base.{◌≡◌, refl, true, false, not, ◌&&◌, some, List, [], ◌∷◌, leb, arith}
use coinbasechain.Base.Map.{lookup, insert, nat_key}
use coinbasechain.Net.Misbehavior.{
  PeerMisbehaviorData, PeerStates, Call, reports, unconnecting, resets, has_permission, no_ban,
  should_disconnect, get_misbehavior_score, step, run, invalid_pow, low_work_headers,
  discouragement_threshold,
}
use coinbasechain.Net.Misbehavior.Invariant.{AllMarked, should_disconnect-run}

abbrev fresh_peer : PeerMisbehaviorData
fresh_peer = record {
  misbehavior_score = 0;
  should_discourage = false;
  num_unconnecting_headers_msgs = 0;
  unconnecting_penalized = false;
  permissions = 0;
  address = 49 ∷ 48 ∷ [];
  invalid_header_hashes = [];
}

abbrev noban_peer : PeerMisbehaviorData
noban_peer = record fresh_peer { permissions = 1 }

abbrev two_peers : PeerStates
two_peers = (3, fresh_peer) ∷ (4, noban_peer) ∷ []

abbrev offences : List Call
offences = reports 3 low_work_headers ∷ reports 4 invalid_pow ∷ reports 3 invalid_pow ∷ []

offences_outcome :
    (should_disconnect 3 (run two_peers offences) ≡ true)
    × (should_disconnect 4 (run two_peers offences) ≡ false)
    × (get_misbehavior_score 3 (run two_peers offences) ≡ 110)
unfolding run step insert lookup should_disconnect get_misbehavior_score
offences_outcome = (refl, refl, refl)

two_peers-AllMarked : AllMarked two_peers
unfolding lookup has_permission
two_peers-AllMarked p d h = ground arith

abbrev offender : PeerMisbehaviorData
offender = record fresh_peer { misbehavior_score = 110; should_discourage = true }

offender-lookup : lookup 3 (run two_peers offences) ≡ some offender
unfolding run step insert lookup
offender-lookup = refl

should_disconnect-run_example : should_disconnect 3 (run two_peers offences) ≡ (
    leb discouragement_threshold offender.misbehavior_score
    && not (has_permission offender.permissions no_ban))
should_disconnect-run_example =
    should_disconnect-run two_peers offences 3 offender two_peers-AllMarked offender-lookup

abbrev nine_and_reset : List Call
nine_and_reset = unconnecting 3 ∷ unconnecting 3 ∷ resets 3 ∷ unconnecting 3 ∷ []

fresh-lookup : lookup 3 two_peers ≡ some fresh_peer
unfolding lookup
fresh-lookup = refl
