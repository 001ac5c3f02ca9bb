-- ===== src/Chain/Validation/Cheap.antt =====
-- The cheap check of a batch of headers against the full check of each of them.
use coinbasechain.Base.{
  ℕ, ◌≡◌, refl, ap, ◌∙◌, true, false, Option, List, [], ◌∷◌, if◌then◌else◌, All,
}
use coinbasechain.Chain.Header.{BlockHeader}
use coinbasechain.Chain.ProofOfWork.{passes}
use coinbasechain.Chain.ProofOfWork.Modes.{check_proof_of_work-cheap}
use coinbasechain.Chain.Validation.{is_pass, check_block_header, check_headers_pow}

module _ (calculate_hash : ℕ → BlockHeader → Option (List ℕ)) where
  module _ (calculate_commitment : BlockHeader → List ℕ → List ℕ) where
    abbrev pub Passes : ℕ → BlockHeader → Type 0
    Passes duration h =
        (rx_hash : List ℕ) × (check_block_header calculate_hash calculate_commitment duration h
          ≡ passes rx_hash)

    -- CheckHeadersPoW refuses no batch whose headers all pass CheckBlockHeader.
    pub check_headers_pow-cheap :
        (duration : ℕ) (headers : List BlockHeader)
        → All (Passes duration) headers
        → check_headers_pow calculate_hash calculate_commitment duration headers ≡ true
    unfolding check_headers_pow is_pass
    check_headers_pow-cheap duration [] all = refl
    check_headers_pow-cheap duration (h ∷ headers) all =
        let cheap =
          (check_proof_of_work-cheap calculate_hash calculate_commitment duration h.bits h all.0.0
            all.0.1).1 in
        ap
          (λ o.
            if is_pass o
            then check_headers_pow calculate_hash calculate_commitment duration headers
            else false)
          cheap
        ∙ check_headers_pow-cheap duration headers all.1
