-- ===== src/Chain/ProofOfWork/Tests.antt =====
-- A proof of work with a hash of ones under every epoch, and a commitment of 0.
use coinbasechain.Base.{ℕ, ◌≡◌, refl, false, none, some, List, [], ◌∷◌, Option}
use coinbasechain.Base.Map.{bytes_eq}
use coinbasechain.Chain.Header.{BlockHeader, all_zero}
use coinbasechain.Chain.Arith.{set_compact}
use coinbasechain.Chain.ProofOfWork.{
  full, commitment_only, mining, passes, throws, check_target, check_commitment,
  get_randomx_commitment, check_proof_of_work,
}
use coinbasechain.Chain.ProofOfWork.Modes.{check_proof_of_work-mined, check_proof_of_work-cheap}

abbrev ones : ℕ → BlockHeader → Option (List ℕ)
ones epoch block = some (1 ∷ [])

abbrev zeros : BlockHeader → List ℕ → List ℕ
zeros block rx_hash = []

abbrev sample : BlockHeader
sample = record {
  version = 1;
  hash_prev_block = [];
  miner_address = [];
  time = 7200;
  bits = 0x207fffff;
  nonce = 0;
  hash_random_x = 1 ∷ [];
}

abbrev bits : ℕ
bits = 0x207fffff

mined_ones : check_proof_of_work ones zeros 3600 mining sample bits ≡ passes (1 ∷ [])
unfolding check_proof_of_work check_target check_commitment get_randomx_commitment set_compact
mined_ones = refl

no_machine : check_proof_of_work (λ epoch block. none) zeros 3600 mining sample bits ≡ throws
unfolding check_proof_of_work check_target set_compact
no_machine = refl

checked_ones : check_proof_of_work ones zeros 3600 full sample bits ≡ passes (1 ∷ [])
unfolding check_proof_of_work check_target check_commitment get_randomx_commitment set_compact
    all_zero bytes_eq
checked_ones = refl

ones-nonzero : all_zero (1 ∷ []) ≡ false
unfolding all_zero
ones-nonzero = refl

check_proof_of_work-mined_example :
    check_proof_of_work ones zeros 3600 full (record sample { hash_random_x = 1 ∷ [] }) bits
    ≡ passes (1 ∷ [])
check_proof_of_work-mined_example =
    check_proof_of_work-mined ones zeros 3600 bits sample (1 ∷ []) mined_ones ones-nonzero

check_proof_of_work-cheap_example :
    (1 ∷ [] ≡ sample.hash_random_x)
    × (check_proof_of_work ones zeros 3600 commitment_only sample bits ≡ passes (1 ∷ []))
check_proof_of_work-cheap_example =
    check_proof_of_work-cheap ones zeros 3600 bits sample (1 ∷ []) checked_ones
