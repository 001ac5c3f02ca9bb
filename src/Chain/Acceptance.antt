-- ===== src/Chain/Acceptance.antt =====
-- chain/chainstate_manager.cpp: AcceptBlockHeader, with the orphans that it lets in
-- (ProcessOrphanHeaders, which calls it again). One call happens at one time of the clock; the set of
-- failed blocks is gone through in the order of its list, which the source leaves to the pointers.
pub mod Marking
pub mod Accepting
pub mod Orphanage
pub mod Checking
mod Tests
use coinbasechain.Base.{
  ℕ, zero, suc, ◌+◌, Bool, true, false, not, ◌&&◌, ◌||◌, Option, none, some, List, [], ◌∷◌, ltb,
  leb, ◌==◌, if◌then◌else◌, bit_and, length,
}
use coinbasechain.Base.Map.{lookup, insert, bytes_key, bytes_eq}
use coinbasechain.Chain.Header.{BlockHeader, get_hash, all_zero}
use coinbasechain.Chain.Index.{
  Hash, BlockIndex, Index, parent, is_failed, is_valid, raise_validity, block_valid_tree,
  block_failed_child, get_ancestor, add_to_block_index,
}
use coinbasechain.Chain.Active.{is_block}
use coinbasechain.Chain.Selection.{height_of, update_best_header}
use coinbasechain.Chain.Pow.{ConsensusParams}
use coinbasechain.Chain.ProofOfWork.{
  Outcome, passes, fails, throws, commitment_only, full, check_proof_of_work,
}
use coinbasechain.Chain.Contextual
use coinbasechain.Chain.Contextual.{
  Reject, high_hash, duplicate, bad_genesis, genesis_via_accept, prev_blk_not_found, bad_prevblk,
  too_little_chainwork, ValidationState, valid, invalid, error, contextual_check_block_header,
}
use coinbasechain.Chain.Orphans.{OrphanPool, children, take_orphan}
use coinbasechain.Chain.Activation.{Chainstate}

-- What the source takes from outside: SHA-256, RandomX, the parameters of the network and the clock.
pub record Environment : Type 0 where
  pub sha256 : List ℕ → List ℕ
  pub calculate_hash : ℕ → BlockHeader → Option (List ℕ)
  pub calculate_commitment : BlockHeader → List ℕ → List ℕ
  pub params : ConsensusParams
  pub adjusted_time : ℕ
  pub now : ℕ

pub record Node : Type 0 where
  pub chainstate : Chainstate
  pub pool : OrphanPool

-- The state after AcceptBlockHeader, the validation state and the block that it returns.
pub record Acceptance : Type 0 where
  pub node : Node
  pub state : ValidationState
  pub block : Option Hash

abbrev pub set_index : Index → Node → Node
set_index m n = record n { chainstate = record n.chainstate { index = m } }

-- nStatus |= BLOCK_FAILED_CHILD.
abbrev pub mark_child : Hash → BlockIndex → Index → Index
mark_child b e m =
    let marked =
      if bit_and e.status block_failed_child == 0
      then e.status + block_failed_child
      else e.status in
    insert b (record e { status = marked }) m

-- The walk that marks the blocks from one back to a failed one.
unfoldable pub mark_descent : ℕ → Hash → Hash → Index → Index
mark_descent zero failed b m = m
mark_descent (suc fuel) failed b m = elim (bytes_eq b failed) [
  | true ↦ m
  | false ↦ elim (lookup b m) [
    | none ↦ m
    | some e ↦
        let marked = mark_child b e m in
        elim e.prev [ none ↦ marked | some p ↦ mark_descent fuel failed p marked ]
  ]
]

-- The failed block that a block descends from: the first in the set.
unfoldable pub find_failed : Index → Hash → List Hash → Option Hash
unfolding get_ancestor
find_failed m b [] = none
find_failed m b (f ∷ failed) =
    let rest = find_failed m b failed in
    if is_block (get_ancestor m b (height_of m f)) f then some f else rest

module _ (env : Environment) where
  abbrev pub refused : Node → Reject → Option Acceptance
  refused n r = some (record { node = n; state = invalid r; block = none })

  -- Step 10: the entry is complete, and the orphans that wait for it are processed.
  unfoldable pub insert_header :
      (Hash → Node → Option (Node × Bool)) → BlockHeader → Node → Option Acceptance
  unfolding add_to_block_index raise_validity
  insert_header process header n =
      let (m, added) = add_to_block_index env.sha256 header n.chainstate.index in
      let failed : Option Acceptance =
        some (record { node = set_index m n; state = error; block = none }) in
      elim added [
        | none ↦ failed
        | some b ↦ elim (lookup b m) [
          | none ↦ failed
          | some e ↦
              let received : BlockIndex = record e { time_received = env.now } in
              let complete = insert b (raise_validity block_valid_tree received).0 m in
              let s : Chainstate = record n.chainstate {
                index = complete;
                selector = update_best_header complete (some b) n.chainstate.selector;
              } in
              elim (process b (record n { chainstate = s })) [
                | none ↦ none
                | some (next, false) ↦ some (record { node = next; state = valid; block = some b })
                | some (next, true) ↦
                    some (record { node = next; state = Contextual.throws; block = none })
              ]
        ]
      ]

  -- Steps 7 to 9, for a parent that is in the index.
  unfoldable pub check_and_insert :
      (Hash → Node → Option (Node × Bool)) → BlockHeader → Bool → Node → Option Acceptance
  unfolding insert_header check_proof_of_work contextual_check_block_header
  check_and_insert process header min_pow_checked n =
      elim (contextual_check_block_header env.params n.chainstate.index
        (some header.hash_prev_block) env.adjusted_time header) [
          | valid ↦
              elim (check_proof_of_work env.calculate_hash env.calculate_commitment
                env.params.random_x_epoch_duration full header header.bits) [
                  | passes h ↦
                      if min_pow_checked
                      then insert_header process header n
                      else refused n too_little_chainwork
                  | fails ↦ refused n high_hash
                  | throws ↦ some (record { node = n; state = Contextual.throws; block = none })
                ]
          | invalid r ↦ refused n r
          | error ↦ some (record { node = n; state = error; block = none })
          | Contextual.throws ↦ some (record { node = n; state = Contextual.throws; block = none })
        ]

  -- Steps 5 and 6: the parent and what it descends from.
  unfoldable pub check_parent :
      (Hash → Node → Option (Node × Bool))
      → BlockHeader
      → Bool
      → BlockIndex
      → Node
      → Option Acceptance
  unfolding check_and_insert find_failed mark_descent is_valid
  check_parent process header min_pow_checked p n =
      let m = n.chainstate.index in
      let prev = header.hash_prev_block in
      let go_on = check_and_insert process header min_pow_checked n in
      if is_failed p
      then refused n bad_prevblk
      else if is_valid block_valid_tree p
      then go_on
      else elim (find_failed m prev n.chainstate.failed_blocks) [
        | none ↦ go_on
        | some f ↦ refused (set_index (mark_descent (height_of m prev + 1) f prev m) n) bad_prevblk
      ]

  -- AcceptBlockHeader with a way to process the orphans of a new block.
  unfoldable pub accept_with :
      (Hash → Node → Option (Node × Bool)) → BlockHeader → Bool → Node → Option Acceptance
  unfolding check_parent check_proof_of_work
  accept_with process header min_pow_checked n =
      let m = n.chainstate.index in
      let hash = get_hash env.sha256 header in
      elim (lookup hash m) [
        | some e ↦
            if is_failed e
            then refused n duplicate
            else some (record { node = n; state = valid; block = some hash })
        | none ↦
            elim (check_proof_of_work env.calculate_hash env.calculate_commitment
              env.params.random_x_epoch_duration commitment_only header header.bits) [
                | fails ↦ refused n high_hash
                | throws ↦ some (record { node = n; state = Contextual.throws; block = none })
                | passes h ↦
                    if all_zero header.hash_prev_block
                    then (if not (bytes_eq hash env.params.hash_genesis_block)
                        then refused n bad_genesis
                        else refused n genesis_via_accept)
                    else elim (lookup header.hash_prev_block m) [
                      | none ↦ refused n prev_blk_not_found
                      | some p ↦ check_parent process header min_pow_checked p n
                    ]
              ]
      ]

-- An exception, or an assert that fails.
unfoldable pub is_throw : ValidationState → Bool
is_throw valid = false
is_throw (invalid r) = false
is_throw error = false
is_throw Contextual.throws = true

-- The loop of ProcessOrphanHeaders over the hashes that it collected, and whether it was left by
-- an exception or a failed assert of AcceptBlockHeader, which nothing catches.
unfoldable pub process_each :
    (BlockHeader → Node → Option Acceptance) → List Hash → Node → Option (Node × Bool)
unfolding take_orphan is_throw
process_each accept [] n = some (n, false)
process_each accept (h ∷ hashes) n = elim (take_orphan h n.pool) [
  | none ↦ process_each accept hashes n
  | some (header, pool) ↦ elim (accept header (record n { pool = pool })) [
    | none ↦ none
    | some r ↦ elim (is_throw r.state) [
      | true ↦ some (r.node, true)
      | false ↦ process_each accept hashes r.node
    ]
  ]
]

module _ (env : Environment) where
  unfoldable pub process_orphan_headers : ℕ → Hash → Node → Option (Node × Bool)
  unfolding process_each accept_with children
  process_orphan_headers zero b n = none
  process_orphan_headers (suc fuel) b n =
      process_each (λ header node. accept_with env (process_orphan_headers fuel) header true node)
        (children b n.pool.orphans) n

  -- Every call of ProcessOrphanHeaders inside another has an orphan less.
  unfoldable pub accept_block_header : BlockHeader → Bool → Node → Option Acceptance
  unfolding accept_with process_orphan_headers
  accept_block_header header min_pow_checked n =
      accept_with env (process_orphan_headers (length n.pool.orphans + 1)) header min_pow_checked n
