-- ===== src/Chain/Processing/Reached.antt =====
-- Every state that the calls of the chain's users lead to is correct. ProcessNewBlockHeader and
-- InvalidateBlock are two of these calls; header synchronisation makes the others one by one.
use coinbasechain.Base.{true, false, ◌⊎◌, ◌||◌, ℕ, ◌≤◌, ◌≡◌, Bool, none, some}
use coinbasechain.Base.Map.{lookup, bytes_key}
use coinbasechain.Chain.Header.{BlockHeader}
use coinbasechain.Chain.Index.{Hash, BlockIndex}
use coinbasechain.Chain.Index.Changing.{Grows}
use coinbasechain.Chain.Selection.{ChainSelector, try_add_block_index_candidate}
use coinbasechain.Chain.Activation.{Activation, activate_best_chain}
use coinbasechain.Chain.Orphans.{OrphanPool}
use coinbasechain.Chain.Acceptance.{Environment, Node, Acceptance, accept_block_header}
use coinbasechain.Chain.Acceptance.Accepting.{index_of}
use coinbasechain.Chain.Invalidation.{invalidate_block}
use coinbasechain.Chain.Processing.{Processing, process_new_block_header}
use coinbasechain.Chain.Processing.Soundness.{Sound, tip_work}

module _ (env : Environment) (depth : ℕ) where
  -- One call, from a node to a node; the orphan pool may be changed at will.
  pub data Call : Node → Node → Type 0 where
    processed :
        (header : BlockHeader) (n : Node) (p : Processing)
        → process_new_block_header env depth header n ≡ some p
        → Call n p.node
    accepted :
        (header : BlockHeader) (min_pow_checked : Bool) (n : Node) (r : Acceptance)
        → accept_block_header env header min_pow_checked n ≡ some r
        → Call n r.node
    offered :
        (b : Hash) (e : BlockIndex) (n : Node) (s : ChainSelector)
        → lookup b (index_of n) ≡ some e
        → try_add_block_index_candidate (index_of n) (some b) n.chainstate.selector ≡ some s
        → Call n (record n { chainstate = record n.chainstate { selector = s } })
    activated :
        (n : Node) (r : Activation)
        → activate_best_chain depth none n.chainstate ≡ some r
        → Call n (record n { chainstate = r.state })
    invalidated :
        (b : Hash) (n : Node)
        → Call n (record n { chainstate = (invalidate_block b n.chainstate).state })
    orphaned : (n : Node) (pool : OrphanPool) → Call n (record n { pool = pool })

  pub data Calls : Node → Node → Type 0 where
    here : (n : Node) → Calls n n
    after : (n n' n'' : Node) → Calls n n' → Call n' n'' → Calls n n''

  -- Whether a call is one of InvalidateBlock.
  unfoldable is_invalidation : (n n' : Node) → Call n n' → Bool
  is_invalidation _ _ (processed header n p eq) = false
  is_invalidation _ _ (accepted header checked n r eq) = false
  is_invalidation _ _ (offered b e n s known eq) = false
  is_invalidation _ _ (activated n r eq) = false
  is_invalidation _ _ (invalidated b n) = true
  is_invalidation _ _ (orphaned n pool) = false

  unfoldable pub invalidates : (n n' : Node) → Calls n n' → Bool
  unfolding is_invalidation
  invalidates _ _ (here n) = false
  invalidates _ _ (after n n' n'' calls call) =
      invalidates n n' calls || is_invalidation n' n'' call

  module _ (g : Hash) where
    -- A correct state, an index that has grown, and no less work of the tip, if no block was
    -- invalidated.
    abbrev pub Follows : Node → Node → Bool → Type 0
    Follows n n' invalid =
        Sound g n'.chainstate
        × Grows (index_of n) (index_of n')
        × ((tip_work n.chainstate ≤ tip_work n'.chainstate) ⊎ (invalid ≡ true))
