-- ===== src/Chain/Acceptance/Accepting.antt =====
-- AcceptBlockHeader ends and keeps the index well formed, if the orphans that it lets in do.
use coinbasechain.Base.{
  true, false, ℕ, ◌+◌, ◌≤◌, ◌<◌, ◌≡◌, ◌≢◌, ◌⊎◌, inl, inr, refl, sym, ap, ◌∙◌, arith, Bool, not,
  Option, none, some, Option_elim, if_elim, if◌then◌else◌, length,
}
use coinbasechain.Base.Map.{lookup, insert, bytes_key, bytes_eq}
use coinbasechain.Chain.Header.{BlockHeader, get_hash, all_zero}
use coinbasechain.Chain.Index.{
  Hash, BlockIndex, Index, is_failed, is_valid, block_valid_tree, raise_validity,
  add_to_block_index,
}
use coinbasechain.Chain.Index.Ancestors.{IsIndex}
use coinbasechain.Chain.Index.Adding.{add_to_block_index-IsIndex, add_to_block_index-roots}
use coinbasechain.Chain.Index.Changing.{NoNewRoots-refl, unchanged, Grows-refl}
use coinbasechain.Chain.Orphans.{OrphanHeader}
use coinbasechain.Chain.Selection.{height_of}
use coinbasechain.Chain.Selection.Sets.{update_best_header-candidates}
use coinbasechain.Chain.Contextual.{
  Reject, high_hash, duplicate, bad_genesis, genesis_via_accept, prev_blk_not_found, bad_prevblk,
  too_little_chainwork, ValidationState, valid, invalid, error, contextual_check_block_header,
}
use coinbasechain.Chain.Contextual
use coinbasechain.Chain.ProofOfWork.{
  Outcome, passes, fails, throws, full, commitment_only, check_proof_of_work,
}
use coinbasechain.Chain.Acceptance.{
  Environment, Node, Acceptance, set_index, refused, find_failed, mark_descent, insert_header,
  check_and_insert, check_parent, accept_with,
}
use coinbasechain.Chain.Acceptance.Marking.{
  Kept, Kept-trans, changed-Kept, mark_descent-Kept, raise_validity-SameLinks, lookup-insert_self,
}

abbrev pub index_of : Node → Index
index_of n = n.chainstate.index

abbrev pub waiting : Node → ℕ
waiting n = length n.pool.orphans

-- The index is well formed, keeps its entries and gets no new root; every orphan that is left was
-- there with the same header, and there are no more; the active chain and the candidates are the
-- same.
-- Each orphan of a node was one of another node's.
abbrev pub OldOrphans : Node → Node → Type 0
OldOrphans n n' =
    (h : Hash) (o : OrphanHeader)
    → lookup h n'.pool.orphans ≡ some o
    → lookup h n.pool.orphans ≡ some o

abbrev pub Fine : Node → Node → Type 0
Fine n n' =
    Kept (index_of n) (index_of n')
    × (waiting n' ≤ waiting n)
    × (n'.chainstate.chain ≡ n.chainstate.chain)
    × (n'.chainstate.selector.candidates ≡ n.chainstate.selector.candidates)
    × OldOrphans n n'

pub Fine-trans : (a b c : Node) → Fine a b → Fine b c → Fine a c
Fine-trans a b c f g = (
  Kept-trans (index_of a) (index_of b) (index_of c) f.0 g.0,
  omega (arith, f.1, g.1),
  g.2 ∙ f.2,
  g.3 ∙ f.3,
  λ h o left. f.4 h o (g.4 h o left),
)

-- A block is returned exactly with a valid state, and is then in the index.
abbrev pub Answers : Hash → Acceptance → Type 0
Answers hash r =
    ((r.block ≡ some hash)
      × (r.state ≡ valid)
      × ((d : BlockIndex) × (lookup hash (index_of r.node) ≡ some d)))
    ⊎ (r.block ≡ none) × (r.state ≢ valid)

abbrev pub Accepts : Node → Hash → Option Acceptance → Type 0
Accepts n hash o = (r : Acceptance) × (o ≡ some r) × Fine n r.node × Answers hash r

-- A way to process orphans, for as many as there may be.
abbrev pub Processes : (Hash → Node → Option (Node × Bool)) → ℕ → Type 0
Processes process bound =
    (b : Hash) (n : Node)
    → IsIndex (index_of n)
    → waiting n < bound
    → (n' : Node) × (threw : Bool) × (process b n ≡ some (n', threw)) × Fine n n'

pub same_node : (n : Node) → IsIndex (index_of n) → Fine n n
same_node n ok = (
  (ok, Grows-refl (index_of n), NoNewRoots-refl (index_of n)),
  omega arith,
  refl,
  refl,
  λ h o left. left,
)

module _ (env : Environment) (process : Hash → Node → Option (Node × Bool)) (bound : ℕ) where
  module _ (good : Processes process bound) (header : BlockHeader) (n : Node) where
    module _ (ok : IsIndex (index_of n)) (room : waiting n < bound) where
      abbrev hash : Hash
      hash = get_hash env.sha256 header

      with_index :
          (m : Index) (s : ValidationState)
          → Kept (index_of n) m
          → s ≢ valid
          → Accepts n hash (some (record { node = set_index m n; state = s; block = none }))
      with_index m s kept bad =
          (_, refl, (kept, omega arith, refl, refl, λ h o left. left), inr (refl, bad))

      stopped :
          (s : ValidationState)
          → s ≢ valid
          → Accepts n hash (some (record { node = n; state = s; block = none }))
      stopped s bad = (_, refl, same_node n ok, inr (refl, bad))

      -- What follows once the block is complete in the index.
      completed :
          (b : Hash) (e : BlockIndex) (n' : Node)
          → b ≡ hash
          → Fine n n'
          → lookup b (index_of n') ≡ some e
          → Accepts n hash (elim (process b n') [
            | none ↦ none
            | some (next, false) ↦ some (record { node = next; state = valid; block = some b })
            | some (next, true) ↦
                some (record { node = next; state = Contextual.throws; block = none })
          ])
      completed b e n' same begun there =
          let (next, threw, eq, fine) = good b n' begun.0.0 (omega (arith, begun.1)) in
          let (d, found, _) = fine.0.1 b e there in
          let both = Fine-trans n n' next begun fine in
          rw eq
            (elim threw
              as (λ threw. Accepts n hash (elim threw as (λ _. Option Acceptance) [
                | false ↦ some (record { node = next; state = valid; block = some b })
                | true ↦ some (record { node = next; state = Contextual.throws; block = none })
              ])) [
                | false ↦ (_, refl, both, inl (ap some same, refl, (d, rw (← same) found)))
                | true ↦ (_, refl, both, inr (refl, λ e. cc))
              ])

      add : Index × Option Hash
      add = add_to_block_index env.sha256 header (index_of n)

      insert_header-Accepts :
          (p : BlockIndex)
          → lookup header.hash_prev_block (index_of n) ≡ some p
          → header.hash_prev_block ≢ hash
          → Accepts n hash (insert_header env process header n)
      unfolding insert_header add
      insert_header-Accepts p known other =
          let (ok', ext, ends, _, _) =
            add_to_block_index-IsIndex env.sha256 header (index_of n) ok other in
          let kept : Kept (index_of n) add.0 = (
            ok',
            λ b e h. (e, ext b e h, unchanged e),
            add_to_block_index-roots env.sha256 header (index_of n) p known,
          ) in
          Option_elim (Accepts n hash) add.1 (λ missing. with_index add.0 error kept (λ e. cc))
            λ b added.
              let same : b ≡ hash = elim ends [
                | inl (taken, _) ↦ let both : some b ≡ some hash = sym added ∙ taken in cc
                | inr (refused, _) ↦ absurd (cc (sym added ∙ refused))
              ] in
              Option_elim (Accepts n hash) (lookup b add.0)
                (λ missing. with_index add.0 error kept (λ e. cc))
                λ e there.
                  let received : BlockIndex = record e { time_received = env.now } in
                  let d = (raise_validity block_valid_tree received).0 in
                  let links = raise_validity-SameLinks block_valid_tree received in
                  completed b d _ same
                    (
                      Kept-trans (index_of n) add.0 (insert b d add.0) kept
                          (changed-Kept add.0 b e d ok' there links),
                      omega arith,
                      refl,
                      update_best_header-candidates (insert b d add.0) b n.chainstate.selector,
                      λ h o left. left,
                    )
                    (lookup-insert_self b d add.0)

      module _ (min_pow_checked : Bool) (p : BlockIndex)
          (known : lookup header.hash_prev_block (index_of n) ≡ some p)
          (other : header.hash_prev_block ≢ hash) where
        after_pow :
            (o : Outcome)
            → Accepts n hash (elim o [
              | passes h ↦
                  if min_pow_checked
                  then insert_header env process header n
                  else refused env n too_little_chainwork
              | fails ↦ refused env n high_hash
              | throws ↦ some (record { node = n; state = Contextual.throws; block = none })
            ])
        after_pow (passes h) =
            if_elim (Accepts n hash) min_pow_checked (λ _. insert_header-Accepts p known other)
              (λ _. stopped (invalid too_little_chainwork) (λ e. cc))
        after_pow fails = stopped (invalid high_hash) (λ e. cc)
        after_pow throws = stopped Contextual.throws (λ e. cc)

        abbrev pow : Outcome
        pow =
            check_proof_of_work env.calculate_hash env.calculate_commitment
              env.params.random_x_epoch_duration full header header.bits

        after_context :
            (v : ValidationState)
            → Accepts n hash (elim v [
              | valid ↦ elim pow [
                | passes h ↦
                    if min_pow_checked
                    then insert_header env process header n
                    else refused env n too_little_chainwork
                | fails ↦ refused env n high_hash
                | throws ↦ some (record { node = n; state = Contextual.throws; block = none })
              ]
              | invalid r ↦ refused env n r
              | error ↦ some (record { node = n; state = error; block = none })
              | Contextual.throws ↦
                  some (record { node = n; state = Contextual.throws; block = none })
            ])
        after_context valid = after_pow pow
        after_context (invalid r) = stopped (invalid r) (λ e. cc)
        after_context error = stopped error (λ e. cc)
        after_context Contextual.throws = stopped Contextual.throws (λ e. cc)

        check_and_insert-Accepts :
            Accepts n hash (check_and_insert env process header min_pow_checked n)
        unfolding check_and_insert
        check_and_insert-Accepts = after_context (
            contextual_check_block_header env.params (index_of n) (some header.hash_prev_block)
              env.adjusted_time header)

        check_parent-Accepts : Accepts n hash (check_parent env process header min_pow_checked p n)
        unfolding check_parent
        check_parent-Accepts =
            if_elim (Accepts n hash) (is_failed p) (λ _. stopped (invalid bad_prevblk) (λ e. cc))
              λ _.
                if_elim (Accepts n hash) (is_valid block_valid_tree p)
                  (λ _. check_and_insert-Accepts)
                  λ _.
                    Option_elim (Accepts n hash)
                      (find_failed (index_of n) header.hash_prev_block n.chainstate.failed_blocks)
                      (λ _. check_and_insert-Accepts)
                      λ f _.
                        with_index
                          (mark_descent (height_of (index_of n) header.hash_prev_block + 1) f
                            header.hash_prev_block (index_of n))
                          (invalid bad_prevblk)
                          (mark_descent-Kept (height_of (index_of n) header.hash_prev_block + 1) f
                            header.hash_prev_block (index_of n) ok)
                          (λ e. cc)

      module _ (min_pow_checked : Bool) where
        after_cheap :
            (o : Outcome)
            → lookup hash (index_of n) ≡ none
            → Accepts n hash (elim o [
              | fails ↦ refused env n high_hash
              | throws ↦ some (record { node = n; state = Contextual.throws; block = none })
              | passes h ↦
                  if all_zero header.hash_prev_block
                  then (if not (bytes_eq hash env.params.hash_genesis_block)
                      then refused env n bad_genesis
                      else refused env n genesis_via_accept)
                  else elim (lookup header.hash_prev_block (index_of n)) [
                    | none ↦ refused env n prev_blk_not_found
                    | some p ↦ check_parent env process header min_pow_checked p n
                  ]
            ])
        after_cheap fails absent = stopped (invalid high_hash) (λ e. cc)
        after_cheap throws absent = stopped Contextual.throws (λ e. cc)
        after_cheap (passes h) absent =
            if_elim (Accepts n hash) (all_zero header.hash_prev_block)
              (λ _.
                if_elim (Accepts n hash) (not (bytes_eq hash env.params.hash_genesis_block))
                  (λ _. stopped (invalid bad_genesis) (λ e. cc))
                  (λ _. stopped (invalid genesis_via_accept) (λ e. cc)))
              λ _.
                Option_elim (Accepts n hash) (lookup header.hash_prev_block (index_of n))
                  (λ _. stopped (invalid prev_blk_not_found) (λ e. cc))
                  λ p there.
                    check_parent-Accepts min_pow_checked p there
                      λ same. let both : none ≡ some p = sym absent ∙ (rw same at (there)) in cc

        pub accept_with-Accepts : Accepts n hash (accept_with env process header min_pow_checked n)
        unfolding accept_with
        accept_with-Accepts =
            Option_elim (Accepts n hash) (lookup hash (index_of n))
              (λ absent.
                after_cheap
                  (check_proof_of_work env.calculate_hash env.calculate_commitment
                    env.params.random_x_epoch_duration commitment_only header header.bits)
                  absent)
              λ e there.
                if_elim (Accepts n hash) (is_failed e) (λ _. stopped (invalid duplicate) (λ e. cc))
                  (λ _. (_, refl, same_node n ok, inl (refl, refl, (e, there))))
