-- ===== src/Chain/Invalidation/Tests.antt =====
-- The tip of a chain of two blocks is invalidated.
use coinbasechain.Base.{◌≡◌, refl, sym, subst, true, Option, none, some, [], ◌∷◌}
use coinbasechain.Base.Map.{has, lookup, insert, erase, bytes_key, bytes_eq, bytes_less}
use coinbasechain.Chain.Header.{get_hash, serialize, all_zero}
use coinbasechain.Chain.Arith.{get_block_proof, set_compact, get_compact}
use coinbasechain.Chain.Index.{
  add_to_block_index, get_ancestor, get_skip_height, raise_validity, is_valid,
}
use coinbasechain.Chain.Active.{tip, contains, set_tip, last_common_ancestor}
use coinbasechain.Chain.Selection.{
  may_lead, precedes, add_candidate, remove_candidate, has_children, try_add_block_index_candidate,
}
use coinbasechain.Chain.ProofOfWork.{check_proof_of_work}
use coinbasechain.Chain.Contextual.{contextual_check_block_header}
use coinbasechain.Chain.Orphans.{children, take_orphan}
use coinbasechain.Chain.Activation.{
  Chainstate, block_disconnected, Attempt, activate_best_chain, disconnect_tip,
}
use coinbasechain.Chain.Acceptance.{accept_block_header}
use coinbasechain.Chain.Processing.{Processing, initialize, process_new_block_header}
use coinbasechain.Chain.Processing.Soundness.{Sound}
use coinbasechain.Chain.Processing.Verdicts.{process_new_block_header-Processed}
use coinbasechain.Chain.Processing.Sample.{env, header, root, started, started-Sound, node}
use coinbasechain.Chain.Invalidation.{invalidate_block}
use coinbasechain.Chain.Invalidation.Results.{Invalidated, invalidate_block-Invalidated}

abbrev state_of : Option Processing → Chainstate
state_of none = started.chainstate
state_of (some p) = p.node.chainstate

abbrev two_blocks : Chainstate
two_blocks = state_of (process_new_block_header env 3 (header 2 (1 ∷ [])) node)

two_blocks-Sound : Sound root two_blocks
two_blocks-Sound =
    let (p, eq, sound, _, _, _) =
      process_new_block_header-Processed 3 root env (header 2 (1 ∷ [])) node started-Sound in
    subst (λ (o : Option Processing). Sound root (state_of o)) (sym eq) sound

invalidate_block-Invalidated_example :
    Invalidated root (2 ∷ []) two_blocks (invalidate_block (2 ∷ []) two_blocks)
invalidate_block-Invalidated_example =
    invalidate_block-Invalidated root (2 ∷ []) two_blocks two_blocks-Sound

-- The first block is the tip again, and the only candidate.
back_to_genesis :
    (a : Attempt) × (invalidate_block (2 ∷ []) two_blocks ≡ a)
    × (a.done ≡ true)
    × (tip a.state.chain ≡ some (1 ∷ []))
    × (a.events ≡ block_disconnected (2 ∷ []) ∷ [])
    × (a.state.selector.candidates ≡ (1 ∷ []) ∷ [])
unfolding invalidate_block disconnect_tip remove_candidate has_children contains is_valid initialize
    process_new_block_header accept_block_header add_to_block_index get_hash serialize has lookup
    insert erase bytes_eq bytes_less all_zero get_block_proof set_compact get_compact get_ancestor
    get_skip_height check_proof_of_work contextual_check_block_header raise_validity children
    take_orphan try_add_block_index_candidate activate_best_chain set_tip last_common_ancestor
    may_lead add_candidate precedes
back_to_genesis = (_, refl, refl, refl, refl, refl)
