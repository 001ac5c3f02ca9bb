-- ===== src/Chain/Acceptance/Checking.antt =====
-- What AcceptBlockHeader has checked of a header that it accepts.
use coinbasechain.Base.{ℕ, ◌≡◌, ◌≢◌, ◌⊎◌, Bool, true, false, Option, none, some, List}
use coinbasechain.Base.Map.{lookup, bytes_key}
use coinbasechain.Chain.Header.{BlockHeader, get_hash}
use coinbasechain.Chain.Index.{BlockIndex, is_failed, is_valid, block_valid_tree}
use coinbasechain.Chain.Contextual.{
  Reject, duplicate, bad_prevblk, ValidationState, valid, contextual_check_block_header,
}
use coinbasechain.Chain.Contextual
use coinbasechain.Chain.ProofOfWork.{
  PowVerifyMode, Outcome, passes, full, commitment_only, check_proof_of_work,
}
use coinbasechain.Chain.Acceptance.{Environment, Node, Acceptance, find_failed}

module _ (env : Environment) (header : BlockHeader) (min_pow_checked : Bool) (n : Node) where
  abbrev pub pow : PowVerifyMode → Outcome
  pow mode =
      check_proof_of_work env.calculate_hash env.calculate_commitment
        env.params.random_x_epoch_duration mode header header.bits

  abbrev pub context : ValidationState
  context =
      contextual_check_block_header env.params n.chainstate.index (some header.hash_prev_block)
        env.adjusted_time header

  -- The header was there already, and is not failed.
  abbrev pub Familiar : Type 0
  Familiar =
      (e : BlockIndex) × (lookup (get_hash env.sha256 header) n.chainstate.index ≡ some e)
      × (is_failed e ≡ false)

  -- The parent is in the index, is not failed, and is valid or descends from no block of the failed
  -- set; both proofs of work pass, and so do the checks against the parent; and the caller has found
  -- the work enough.
  abbrev pub Checked : Type 0
  Checked =
      ((h : List ℕ) × (pow commitment_only ≡ passes h))
      × ((p : BlockIndex) × (lookup header.hash_prev_block n.chainstate.index ≡ some p)
          × (is_failed p ≡ false)
          × ((is_valid block_valid_tree p ≡ true)
              ⊎ (find_failed n.chainstate.index header.hash_prev_block n.chainstate.failed_blocks
                  ≡ none)))
      × (context ≡ valid)
      × ((h : List ℕ) × (pow full ≡ passes h))
      × (min_pow_checked ≡ true)

  abbrev Justified : Option Acceptance → Type 0
  Justified none = Unit
  Justified (some r) = (r.state ≢ valid) ⊎ Familiar ⊎ Checked
