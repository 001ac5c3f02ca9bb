-- ===== src/Chain/Activation.antt =====
-- chain/chainstate_manager.cpp: ActivateBestChain and the connecting and disconnecting of blocks.
-- Of the state, the parts that these read and write. Pointers are hashes; the alert on a suspicious
-- reorganisation and the dispatch of the queued notices to their subscribers are left out.
pub mod Steps
pub mod Ending
pub mod Leading
pub mod Switching
pub mod Settled
pub mod Best
mod Tests
use coinbasechain.Base.{
  ℕ, zero, suc, ◌+◌, ◌-◌, Bool, true, false, not, ◌&&◌, ◌||◌, Option, none, some, List, [], ◌∷◌,
  ◌++◌, ltb, leb, ◌==◌, if◌then◌else◌, bit_and, length,
}
use coinbasechain.Base.Map.{lookup, insert, bytes_key, bytes_eq}
use coinbasechain.Chain.Index.{Hash, BlockIndex, Index, parent, block_failed_valid}
use coinbasechain.Chain.Active.{Chain, tip, is_block, set_tip, last_common_ancestor}
use coinbasechain.Chain.Selection.{
  ChainSelector, chain_work_of, height_of, find_most_work_chain, prune_block_index_candidates,
  remove,
}

pub record Chainstate : Type 0 where
  pub index : Index
  pub chain : Chain
  pub selector : ChainSelector
  pub failed_blocks : List Hash

-- PendingNotification.
pub data Notice : Type 0 where
  block_connected block_disconnected : Hash → Notice
  chain_tip : Hash → ℕ → Notice

pub data ActivateResult : Type 0 where
  ok consensus_invalid policy_refused system_error : ActivateResult

-- The state and the notices after ConnectTip or DisconnectTip, and what they return.
pub record Attempt : Type 0 where
  pub state : Chainstate
  pub events : List Notice
  pub done : Bool

unfoldable pub connect_tip : Option Hash → Chainstate → List Notice → Attempt
unfolding set_tip
connect_tip none s events = record { state = s; events = events; done = false }
connect_tip (some b) s events = record {
  state = record s { chain = set_tip s.index b s.chain };
  events = events ++ block_connected b ∷ [];
  done = true;
}

unfoldable pub disconnect_tip : Chainstate → List Notice → Attempt
unfolding set_tip
disconnect_tip s events =
    let failed : Attempt = record { state = s; events = events; done = false } in
    elim (tip s.chain) [
      | none ↦ failed
      | some b ↦ elim (parent s.index b) [
        | none ↦ failed
        | some p ↦ record {
          state = record s { chain = set_tip s.index p s.chain };
          events = events ++ block_disconnected b ∷ [];
          done = true;
        }
      ]
    ]

-- The loop that disconnects blocks back to the fork: the attempt so far, and the blocks that were
-- taken off, from the old tip down.
unfoldable pub disconnect_to : ℕ → Hash → Option Hash → Attempt → List Hash → Attempt × List Hash
unfolding disconnect_tip
disconnect_to zero fork walk a taken = (a, taken)
disconnect_to (suc fuel) fork none a taken = (a, taken)
disconnect_to (suc fuel) fork (some b) a taken = elim (bytes_eq b fork) [
  | true ↦ (a, taken)
  | false ↦
      let next = disconnect_tip a.state a.events in
      elim next.done [
        | false ↦ (next, taken ++ b ∷ [])
        | true ↦ disconnect_to fuel fork (tip next.state.chain) next (taken ++ b ∷ [])
      ]
]

-- The list of blocks to connect: from a block back, without the fork.
unfoldable pub branch : Index → Option Hash → ℕ → Hash → List Hash
branch m fork zero b = []
branch m fork (suc fuel) b = elim (is_block fork b) [
  | true ↦ []
  | false ↦ b ∷ elim (parent m b) [ none ↦ [] | some p ↦ branch m fork fuel p ]
]

-- A list of blocks from back to front, up to the first failure.
unfoldable pub connect_all : List Hash → Attempt → Attempt
unfolding connect_tip
connect_all [] a = a
connect_all (b ∷ bs) a =
    let rest = connect_all bs a in
    if rest.done then connect_tip (some b) rest.state rest.events else rest

-- The roll-back to the fork after a failed ConnectTip.
unfoldable pub roll_back : ℕ → Option Hash → Attempt → Attempt
unfolding disconnect_tip
roll_back zero fork a = record a { done = false }
roll_back (suc fuel) fork a =
    let at_fork = elim (tip a.state.chain) as (λ _. Bool) [
      | none ↦ elim fork [ none ↦ true | some f ↦ false ]
      | some t ↦ is_block fork t
    ] in
    elim at_fork [
      | true ↦ record a { done = true }
      | false ↦
          let next = disconnect_tip a.state a.events in
          elim next.done [ false ↦ next | true ↦ roll_back fuel fork next ]
    ]

pub record StepResult : Type 0 where
  pub state : Chainstate
  pub events : List Notice
  pub result : ActivateResult

-- What is left to do when a block of the new branch could not be connected.
unfoldable pub restore : Option Hash → List Hash → Attempt → List Notice → StepResult
unfolding roll_back connect_all
restore fork taken failed events =
    let back = roll_back (length failed.state.chain + 1) fork failed in
    let again = connect_all taken back in
    let result =
      if not back.done
      then system_error
      else if not again.done
      then system_error
      else elim (tip again.state.chain) [ none ↦ system_error | some t ↦ consensus_invalid ] in
    let left = if back.done then again.state else back.state in
    record { state = left; events = events; result = result }

-- Back to the fork, if there are an old tip and a fork.
unfoldable pub take_off : Option Hash → Option Hash → Chainstate → Attempt × List Hash
unfolding disconnect_to
take_off none fork s = (record { state = s; events = []; done = true }, [])
take_off (some t) none s = (record { state = s; events = []; done = true }, [])
take_off (some t) (some f) s =
    disconnect_to (height_of s.index t + 1) f (some t)
      (record { state = s; events = []; done = true }) []

-- Connect the new branch, announce the tip and prune.
unfoldable pub put_on : Hash → Option Hash → Attempt × List Hash → List Notice → StepResult
unfolding branch connect_all restore prune_block_index_candidates
put_on b fork off events =
    let m = off.0.state.index in
    let on = connect_all (branch m fork (height_of m b + 1) b) off.0 in
    if not off.0.done
    then record { state = off.0.state; events = events; result = system_error }
    else if not on.done
    then restore fork off.1 on events
    else record {
      state = record on.state {
        selector = prune_block_index_candidates on.state.index on.state.chain on.state.selector;
      };
      events = events ++ (on.events ++ chain_tip b (height_of m b) ∷ []);
      result = ok;
    }

unfoldable pub switch : Hash → Option Hash → Option Hash → Chainstate → List Notice → StepResult
unfolding take_off put_on
switch b old fork s events = put_on b fork (take_off old fork s) events

-- A step for a candidate, with the depth from which a reorganisation is suspicious (0 for none).
unfoldable pub activate_best_chain_step : ℕ → Hash → Chainstate → List Notice → StepResult
unfolding switch last_common_ancestor
activate_best_chain_step depth b s events =
    let unchanged : ActivateResult → StepResult =
      λ r. record { state = s; events = events; result = r } in
    elim (tip s.chain) [
      | none ↦ switch b none none s events
      | some t ↦
          if bytes_eq t b
          then unchanged ok
          else if leb (chain_work_of s.index b) (chain_work_of s.index t)
          then unchanged ok
          else elim (last_common_ancestor s.index t b) [
            | none ↦ unchanged consensus_invalid
            | some f ↦
                if not (depth == 0) && leb depth (height_of s.index t - height_of s.index f)
                then unchanged policy_refused
                else switch b (some t) (some f) s events
          ]
    ]

-- nStatus |= BLOCK_FAILED_VALID.
abbrev pub mark_failed : Hash → Index → Index
mark_failed b m = elim (lookup b m) [
  | none ↦ m
  | some e ↦
      let marked =
        if bit_and e.status block_failed_valid == 0
        then e.status + block_failed_valid
        else e.status in
      insert b (record e { status = marked }) m
]

-- m_failed_blocks is a set of pointers; its order is not used.
abbrev pub note_failed : Hash → List Hash → List Hash
note_failed b [] = b ∷ []
note_failed b (c ∷ s) = if bytes_eq c b then c ∷ s else c ∷ note_failed b s

-- The state, the notices and success after ActivateBestChain.
pub record Activation : Type 0 where
  pub state : Chainstate
  pub events : List Notice
  pub success : Bool

-- The candidate that is given, or else the best of the set.
abbrev pub resolve : Option Hash → Chainstate → Chainstate × Option Hash
resolve (some b) s = (s, some b)
resolve none s =
    let (left, found) = find_most_work_chain s.index s.selector in
    (record s { selector = left }, found)

-- What the loop does with a result that is not the last: the state to go on with.
abbrev pub demote : Hash → ActivateResult → Chainstate → Option Chainstate
demote b ok s = none
demote b policy_refused s = some (record s { selector = remove s.index (some b) s.selector })
demote b consensus_invalid s = some (record s {
  index = mark_failed b s.index;
  failed_blocks = note_failed b s.failed_blocks;
  selector = remove s.index (some b) s.selector;
})
demote b system_error s = none

abbrev pub is_ok : ActivateResult → Bool
is_ok ok = true
is_ok consensus_invalid = false
is_ok policy_refused = false
is_ok system_error = false

-- The loop of ActivateBestChain; `none` where the fuel is used up.
unfoldable pub activate : ℕ → ℕ → Option Hash → Chainstate → List Notice → Option Activation
unfolding activate_best_chain_step find_most_work_chain
activate depth zero given s events = none
activate depth (suc fuel) given s events =
    let found = resolve given s in
    let finish : Option Activation =
      some (record { state = found.0; events = events; success = true }) in
    elim found.1 [
      | none ↦ finish
      | some b ↦ elim (is_block (tip found.0.chain) b) [
        | true ↦ finish
        | false ↦
            let r = activate_best_chain_step depth b found.0 events in
            elim (demote b r.result r.state) [
              | none ↦
                  some (record { state = r.state; events = r.events; success = is_ok r.result })
              | some next ↦ activate depth fuel none next r.events
            ]
      ]
    ]

-- Each turn that is not the last takes a candidate out of the set, but for one that was given.
unfoldable pub activate_best_chain : ℕ → Option Hash → Chainstate → Option Activation
unfolding activate
activate_best_chain depth given s = activate depth (length s.selector.candidates + 2) given s []
