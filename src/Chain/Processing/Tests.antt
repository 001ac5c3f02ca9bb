-- ===== src/Chain/Processing/Tests.antt =====
-- A node that starts, and two blocks that come in the wrong order. A hash is the first byte of the
-- header.
use coinbasechain.Base.{if◌then◌else◌, ◌==◌, ◌≡◌, refl, true, false, none, some, [], ◌∷◌}
use coinbasechain.Base.Map.{has, lookup, insert, erase, bytes_key, nat_key, bytes_eq, bytes_less}
use coinbasechain.Chain.Header.{BlockHeader, get_hash, serialize, all_zero}
use coinbasechain.Chain.Arith.{get_block_proof, set_compact, get_compact}
use coinbasechain.Chain.Index.{add_to_block_index, get_ancestor, get_skip_height, raise_validity}
use coinbasechain.Chain.Active.{tip, set_tip, last_common_ancestor}
use coinbasechain.Chain.Selection.{may_lead, precedes, add_candidate, try_add_block_index_candidate}
use coinbasechain.Chain.ProofOfWork.{check_proof_of_work}
use coinbasechain.Chain.Contextual.{contextual_check_block_header}
use coinbasechain.Chain.Orphans.{OrphanHeader, children, take_orphan}
use coinbasechain.Chain.Activation.{activate_best_chain}
use coinbasechain.Chain.Acceptance.{Environment, is_throw, Node, accept_block_header}
use coinbasechain.Chain.Processing.{
  load_candidates, Startup, Processing, initialize, process_new_block_header,
  is_initial_block_download,
}
use coinbasechain.Chain.Processing.Soundness.{Sound}
use coinbasechain.Chain.Processing.Verdicts.{Processed, process_new_block_header-Processed}
use coinbasechain.Chain.Processing.Starting.{nothing_yet, initialize-Sound}
use coinbasechain.Chain.Processing.Loading.{Rebuilt, load_candidates-Rebuilt}
use coinbasechain.Chain.Processing.Sample.{
  first_byte, env, header, genesis-other, no_parent, root, started, started-Sound, node,
}

initialize-Sound_example :
    (s : Startup) × (initialize first_byte (header 1 []) nothing_yet ≡ (s, true))
    × Sound (get_hash first_byte (header 1 [])) s.chainstate
    × (tip s.chainstate.chain ≡ some (get_hash first_byte (header 1 [])))
    × (may_lead s.chainstate.index (get_hash first_byte (header 1 [])) ≡ true)
    × (s.chainstate.selector.candidates ≡ get_hash first_byte (header 1 []) ∷ [])
    × (s.chainstate.selector.best_header ≡ some (get_hash first_byte (header 1 [])))
    × ((again : BlockHeader) → initialize first_byte again s ≡ (s, false))
initialize-Sound_example = initialize-Sound first_byte (header 1 []) no_parent genesis-other

abbrev waiting_orphan : OrphanHeader
waiting_orphan = record { header = header 3 (2 ∷ []); time_received = 900; peer_id = 7 }

abbrev with_orphan : Node
with_orphan = record {
  chainstate = started.chainstate;
  pool = record { orphans = (3 ∷ [], waiting_orphan) ∷ []; peer_count = (7, 1) ∷ [] };
}

process_new_block_header-Processed_example :
    Processed 3 root with_orphan
      (get_hash first_byte (header 2 (1 ∷ [])))
      (process_new_block_header env 3 (header 2 (1 ∷ [])) with_orphan)
process_new_block_header-Processed_example =
    process_new_block_header-Processed 3 root env (header 2 (1 ∷ [])) with_orphan started-Sound

abbrev next : Processing
next = (process_new_block_header-Processed 3 root env (header 2 (1 ∷ [])) node started-Sound).0

-- A block that extends the tip becomes the tip.
tip_moves :
    (p : Processing) × (process_new_block_header env 3 (header 2 (1 ∷ [])) node ≡ some p)
    × (p.success ≡ some true)
    × (tip p.node.chainstate.chain ≡ some (2 ∷ []))
unfolding initialize process_new_block_header accept_block_header add_to_block_index get_hash
    serialize has lookup insert erase bytes_eq bytes_less all_zero get_block_proof set_compact
    get_compact get_ancestor get_skip_height check_proof_of_work contextual_check_block_header
    raise_validity children take_orphan try_add_block_index_candidate activate_best_chain set_tip
    last_common_ancestor may_lead add_candidate precedes
tip_moves = (_, refl, refl, refl)

-- With a child of the block among the orphans both are accepted, and the tip stays: the block is no
-- leaf when it is offered, and its child is never offered.
tip_stays :
    (p : Processing) × (process_new_block_header env 3 (header 2 (1 ∷ [])) with_orphan ≡ some p)
    × (p.success ≡ some true)
    × (has (3 ∷ []) p.node.chainstate.index ≡ true)
    × (tip p.node.chainstate.chain ≡ some (1 ∷ []))
unfolding initialize process_new_block_header accept_block_header add_to_block_index get_hash
    serialize has lookup insert erase bytes_eq bytes_less all_zero get_block_proof set_compact
    get_compact get_ancestor get_skip_height check_proof_of_work contextual_check_block_header
    raise_validity children take_orphan try_add_block_index_candidate activate_best_chain set_tip
    last_common_ancestor may_lead add_candidate precedes
tip_stays = (_, refl, refl, refl, refl)

-- An exception while the child is checked leaves the call: nothing is returned, though the block is
-- in the index.
abbrev throwing : Environment
throwing = record env {
  calculate_hash = λ epoch h. if h.version == 3 then none else env.calculate_hash epoch h;
}

orphan_throws :
    (p : Processing) × (process_new_block_header throwing 3 (header 2 (1 ∷ [])) with_orphan
      ≡ some p)
    × (p.success ≡ none)
    × (has (2 ∷ []) p.node.chainstate.index ≡ true)
    × (tip p.node.chainstate.chain ≡ some (1 ∷ []))
unfolding initialize process_new_block_header accept_block_header add_to_block_index get_hash
    serialize has lookup insert erase bytes_eq bytes_less all_zero get_block_proof set_compact
    get_compact get_ancestor get_skip_height check_proof_of_work contextual_check_block_header
    raise_validity children take_orphan try_add_block_index_candidate activate_best_chain set_tip
    last_common_ancestor may_lead add_candidate precedes is_throw
orphan_throws = (_, refl, refl, refl, refl)

-- The latch stays once the download has ended.
downloading : is_initial_block_download 100000 0 started.chainstate false ≡ (true, false)
unfolding is_initial_block_download initialize add_to_block_index get_hash serialize has lookup
    insert bytes_eq bytes_less all_zero get_block_proof set_compact raise_validity set_tip
    get_ancestor get_skip_height
downloading = refl

load_candidates-Rebuilt_example :
    Rebuilt started.chainstate.index started.chainstate.index
      (record { candidates = []; best_header = none })
      (load_candidates started.chainstate.index started.chainstate.selector)
load_candidates-Rebuilt_example =
    load_candidates-Rebuilt started.chainstate.index started.chainstate.selector started-Sound.index
