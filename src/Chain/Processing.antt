-- ===== src/Chain/Processing.antt =====
-- chain/chainstate_manager.cpp: ProcessNewBlockHeader, Initialize, IsInitialBlockDownload and the
-- candidates of Load, with
-- Initialize and VerifyChainContinuity of chain/block_manager.cpp. The recursive mutex makes each of
-- these one step.
pub mod Carrying
pub mod Candidates
pub mod Loading
pub mod Soundness
pub mod Verdicts
pub mod Starting
pub mod Sample
mod Tests
pub mod Reached
use coinbasechain.Base.{
  ℕ, zero, suc, ◌+◌, ◌*◌, Bool, true, false, not, ◌&&◌, Option, none, some, List, [], ltb, ◌==◌,
  ◌∷◌, if◌then◌else◌,
}
use coinbasechain.Base.Map.{lookup, insert, bytes_key, bytes_eq}
use coinbasechain.Chain.Header.{BlockHeader, get_hash}
use coinbasechain.Chain.Index.{
  Hash, BlockIndex, Index, parent, is_valid, raise_validity, block_valid_tree, add_to_block_index,
}
use coinbasechain.Chain.Active.{tip, set_tip}
use coinbasechain.Chain.Selection.{
  ChainSelector, height_of, try_add_block_index_candidate, add_candidate, add_candidate_unchecked,
  clear_candidates, has_children, update_best_header,
}
use coinbasechain.Chain.Contextual.{ValidationState}
use coinbasechain.Chain.Activation.{Chainstate, Notice, activate_best_chain}
use coinbasechain.Chain.Acceptance.{Environment, Node, is_throw, accept_block_header}

-- What is left after a header: the node, the notices that were sent, the validation state, and
-- what is returned, `none` where an exception or a failed assert ends the call.
pub record Processing : Type 0 where
  pub node : Node
  pub events : List Notice
  pub state : ValidationState
  pub success : Option Bool

module _ (env : Environment) where
  -- With the depth from which a reorganisation is suspicious.
  unfoldable pub process_new_block_header : ℕ → BlockHeader → Node → Option Processing
  unfolding accept_block_header try_add_block_index_candidate activate_best_chain is_throw
  process_new_block_header depth header n = elim (accept_block_header env header true n) [
    | none ↦ none
    | some r ↦ elim r.block [
      | none ↦ some (record {
        node = r.node;
        events = [];
        state = r.state;
        success = if is_throw r.state then none else some false;
      })
      | some b ↦
          let s = r.node.chainstate in
          elim (try_add_block_index_candidate s.index (some b) s.selector) [
            | none ↦ some (record { node = r.node; events = []; state = r.state; success = none })
            | some chosen ↦ elim (activate_best_chain depth none (record s { selector = chosen })) [
              | none ↦ none
              | some a ↦ some (record {
                node = record r.node { chainstate = a.state };
                events = a.events;
                state = r.state;
                success = some a.success;
              })
            ]
          ]
    ]
  ]

-- The state with what the block manager remembers of its start.
pub record Startup : Type 0 where
  pub chainstate : Chainstate
  pub initialized : Bool
  pub genesis_hash : Hash

-- The walk back to a block without a parent and the number of its steps, if these are allowed.
unfoldable pub walk_back : ℕ → Index → Hash → ℕ → Option (Hash × ℕ)
walk_back zero m b walked = elim (parent m b) [ none ↦ some (b, walked) | some p ↦ none ]
walk_back (suc allowed) m b walked = elim (parent m b) [
  | none ↦ some (b, walked)
  | some p ↦ walk_back allowed m p (walked + 1)
]

unfoldable pub verify_chain_continuity : Index → Option Hash → Hash → Bool
unfolding walk_back
verify_chain_continuity m none expected_genesis_hash = false
verify_chain_continuity m (some b) expected_genesis_hash = elim (walk_back 1000000 m b 0) [
  | none ↦ false
  | some (root, walked) ↦
      bytes_eq root expected_genesis_hash && height_of m root == 0 && height_of m b == walked
]

module _ (sha256 : List ℕ → List ℕ) where
  -- BlockManager::Initialize.
  unfoldable pub initialize_blocks : BlockHeader → Startup → Startup × Bool
  unfolding add_to_block_index set_tip verify_chain_continuity
  initialize_blocks genesis s =
      let (m, added) = add_to_block_index sha256 genesis s.chainstate.index in
      let failed : Startup × Bool =
        (record s { chainstate = record s.chainstate { index = m } }, false) in
      if s.initialized then (s, false) else elim added [
        | none ↦ failed
        | some b ↦
            let hash = get_hash sha256 genesis in
            let set : Startup = record s {
              chainstate = record s.chainstate {
                index = m;
                chain = set_tip m b s.chainstate.chain;
              };
              genesis_hash = hash;
            } in
            if verify_chain_continuity m (some b) hash
            then (record set { initialized = true }, true)
            else (set, false)
      ]

  -- ChainstateManager::Initialize.
  unfoldable pub initialize : BlockHeader → Startup → Startup × Bool
  unfolding initialize_blocks raise_validity
  initialize genesis s =
      let (begun, good) = initialize_blocks genesis s in
      let c = begun.chainstate in
      let unchanged : Startup × Bool = (begun, true) in
      if not good then (begun, false) else elim (tip c.chain) [
        | none ↦ unchanged
        | some g ↦ elim (lookup g c.index) [
          | none ↦ unchanged
          | some e ↦
              let m = insert g (raise_validity block_valid_tree e).0 c.index in
              let selected = add_candidate_unchecked m (some g) c.selector in
              (
                record begun {
                  chainstate = record c {
                    index = m;
                    selector = record selected { best_header = some g };
                  };
                },
                true,
              )
        ]
      ]

-- The pass of Load over the entries: valid blocks without children become candidates.
unfoldable pub rebuild_candidates : Index → Index → ChainSelector → ChainSelector
unfolding has_children is_valid add_candidate
rebuild_candidates m [] s = s
rebuild_candidates m ((h, e) ∷ rest) s =
    let go_on = rebuild_candidates m rest in
    if not (has_children h m) && is_valid block_valid_tree e
    then go_on (update_best_header m (some h) (add_candidate_unchecked m (some h) s))
    else go_on s

-- ChainstateManager::Load, from the index that BlockManager::Load has read.
unfoldable pub load_candidates : Index → ChainSelector → ChainSelector
unfolding rebuild_candidates
load_candidates m s = rebuild_candidates m m (record (clear_candidates s) { best_header = none })

-- The answer, and the latch that remembers the end of the download.
unfoldable pub is_initial_block_download : ℕ → ℕ → Chainstate → Bool → Bool × Bool
is_initial_block_download now minimum_chain_work s true = (false, true)
is_initial_block_download now minimum_chain_work s false = elim (tip s.chain) [
  | none ↦ (true, false)
  | some t ↦ elim (lookup t s.index) [
    | none ↦ (true, false)
    | some e ↦
        if e.height == 0
        then (true, false)
        else if ltb (e.time + 12 * 3600) now
        then (true, false)
        else if ltb e.chain_work minimum_chain_work
        then (true, false)
        else (false, true)
  ]
]
