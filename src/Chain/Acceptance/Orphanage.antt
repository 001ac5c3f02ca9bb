-- ===== src/Chain/Acceptance/Orphanage.antt =====
-- AcceptBlockHeader and ProcessOrphanHeaders end, and keep the index well formed.
use coinbasechain.Base.{
  false, Bool_elim, ℕ, zero, suc, ◌+◌, ◌<◌, ◌≡◌, refl, ap, ◌∙◌, arith, Bool, true, Option, none,
  some, List, [], ◌∷◌, Option_elim, length,
}
use coinbasechain.Base.Map.{lookup, erase, bytes_key, length-erase-lt, lookup-has, lookup-erase}
use coinbasechain.Chain.Header.{BlockHeader, get_hash}
use coinbasechain.Chain.Index.{Hash}
use coinbasechain.Chain.Index.Ancestors.{IsIndex}
use coinbasechain.Chain.Orphans.{OrphanHeader, OrphanPool, children, take_orphan, remove}
use coinbasechain.Chain.Acceptance.{
  Environment, Node, Acceptance, accept_with, process_each, process_orphan_headers,
  accept_block_header, is_throw,
}
use coinbasechain.Chain.Acceptance.Accepting.{
  index_of, waiting, Fine, Fine-trans, Accepts, Processes, same_node, accept_with-Accepts,
}

-- An orphan that is taken is no longer there.
take_orphan-lt :
    (h : Hash) (pool : OrphanPool) (x : BlockHeader × OrphanPool)
    → take_orphan h pool ≡ some x
    → length x.1.orphans < length pool.orphans
unfolding take_orphan remove
take_orphan-lt h pool x =
    Option_elim (λ o. o ≡ some x → length x.1.orphans < length pool.orphans) (lookup h pool.orphans)
      (λ absent e. cc)
      λ o there e.
        let left : erase h pool.orphans ≡ x.1.orphans = cc in
        rw (← left) (length-erase-lt h pool.orphans (lookup-has h pool.orphans there))

-- The others are as they were.
take_orphan-old :
    (h : Hash) (pool : OrphanPool) (x : BlockHeader × OrphanPool)
    → take_orphan h pool ≡ some x
    → (k : Hash) (o : OrphanHeader) → lookup k x.1.orphans ≡ some o
    → lookup k pool.orphans ≡ some o
unfolding take_orphan remove
take_orphan-old h pool x =
    Option_elim
      (λ taken.
        taken ≡ some x
        → (k : Hash) (o : OrphanHeader) → lookup k x.1.orphans ≡ some o
        → lookup k pool.orphans ≡ some o)
      (lookup h pool.orphans) (λ absent e. cc)
      λ o there e k o' left.
        let rest : erase h pool.orphans ≡ x.1.orphans = cc in
        let kept : lookup k (erase h pool.orphans) ≡ some o' = rw rest left in
        ground (arith, lookup-erase h k pool.orphans)

module _ (env : Environment) where
  process_each-Fine :
      (bound : ℕ) (process : Hash → Node → Option (Node × Bool))
      → Processes process bound
      → (hashes : List Hash) (n : Node) → IsIndex (index_of n)
      → waiting n < suc bound
      → (n' : Node) × (threw : Bool) × (process_each
            (λ header node. accept_with env process header true node)
            hashes
            n
          ≡ some (n', threw))
        × Fine n n'
  unfolding process_each
  process_each-Fine bound process good [] n ok room = (n, false, refl, same_node n ok)
  process_each-Fine bound process good (h ∷ hashes) n ok room =
      Option_elim Left (take_orphan h n.pool)
        (λ gone. process_each-Fine bound process good hashes n ok room)
        λ x taken.
          let less = take_orphan-lt h n.pool x taken in
          let start : Node = record n { pool = x.1 } in
          let (r, eq, fine, _) =
            accept_with-Accepts env process bound good x.0 start ok (omega arith) true in
          let begun : Fine n r.node = (
            fine.0,
            omega (arith, fine.1),
            fine.2,
            fine.3,
            λ k o left. take_orphan-old h n.pool x taken k o (fine.4 k o left),
          ) in
          let rest =
            process_each-Fine bound process good hashes r.node fine.0.0 (omega (arith, fine.1)) in
          let (n', threw, eq', fine') : Left (after r (is_throw r.state)) =
            Bool_elim Left (is_throw r.state) (λ _. (r.node, true, refl, begun))
              (λ _. (rest.0, rest.1, rest.2, Fine-trans n r.node rest.0 begun rest.3)) in
          (n', threw, ap go_on eq ∙ eq', fine')
    where
      Left : Option (Node × Bool) → Type 0
      Left o = (n' : Node) × (threw : Bool) × (o ≡ some (n', threw)) × Fine n n'

      after : Acceptance → Bool → Option (Node × Bool)
      after r threw = elim threw [
        | true ↦ some (r.node, true)
        | false ↦
            process_each (λ header node. accept_with env process header true node) hashes r.node
      ]

      go_on : Option Acceptance → Option (Node × Bool)
      go_on o = elim o [ none ↦ none | some r ↦ after r (is_throw r.state) ]

  process_orphan_headers-Processes : (fuel : ℕ) → Processes (process_orphan_headers env fuel) fuel
  unfolding process_orphan_headers
  process_orphan_headers-Processes zero b n ok room = absurd (omega arith)
  process_orphan_headers-Processes (suc fuel) b n ok room =
      process_each-Fine fuel (process_orphan_headers env fuel)
        (process_orphan_headers-Processes fuel) (children b n.pool.orphans) n ok room

  -- AcceptBlockHeader ends, the orphans that it lets in included. The index stays well formed and
  -- keeps every entry with its links, height and work, and the active chain and the candidates stay
  -- the same; every orphan that is left waited before, with the same header; and a block is returned
  -- exactly with a valid state, and is then in the index.
  pub accept_block_header-Accepts :
      (header : BlockHeader) (min_pow_checked : Bool) (n : Node)
      → IsIndex (index_of n)
      → Accepts n (get_hash env.sha256 header) (accept_block_header env header min_pow_checked n)
  unfolding accept_block_header
  accept_block_header-Accepts header min_pow_checked n ok =
      accept_with-Accepts env (process_orphan_headers env (waiting n + 1)) (waiting n + 1)
        (process_orphan_headers-Processes (waiting n + 1)) header n ok (omega arith) min_pow_checked
