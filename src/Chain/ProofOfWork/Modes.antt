-- ===== src/Chain/ProofOfWork/Modes.antt =====
-- How the three modes of the proof-of-work check are related.
use coinbasechain.Base.{
  ℕ, ◌≡◌, refl, sym, arith, Bool, true, false, not, Option, none, some, List, ltb, if◌then◌else◌,
  if_elim,
}
use coinbasechain.Base.Map.{bytes_eq, bytes_eq_refl}
use coinbasechain.Chain.Header.{BlockHeader, all_zero}
use coinbasechain.Chain.Arith.{Compact, set_compact}
use coinbasechain.Chain.ProofOfWork.{
  PowVerifyMode, full, commitment_only, mining, Outcome, passes, fails, throws, is_bad, get_epoch,
  without_random_x, get_randomx_commitment, check_commitment, check_target, check_proof_of_work,
}

-- What a pass of mining says of its four tests.
mined_shape :
    (bad : Bool) (o : Option (List ℕ)) (above : List ℕ → Bool) (h : List ℕ)
    → (if bad
        then fails
        else elim o [ none ↦ throws | some r ↦ if above r then fails else passes r ])
      ≡ passes h
    → (bad ≡ false) × (o ≡ some h) × (above h ≡ false)
mined_shape true o above h e = ground arith
mined_shape false none above h e = ground arith
mined_shape false (some r) above h e =
    if_elim (λ x. x ≡ passes h → (false ≡ false) × (some r ≡ some h) × (above h ≡ false)) (above r)
      (λ high e. ground arith) (λ low e. ground arith) e

-- The full check, by its tests.
full_shape : Bool → Bool → Option (List ℕ) → List ℕ → Outcome
full_shape bad good o stored = if bad then fails else if not good then fails else elim o [
  | none ↦ throws
  | some r ↦ if not (bytes_eq r stored) then fails else passes stored
]

full_passes :
    (bad good : Bool) (o : Option (List ℕ)) (stored : List ℕ)
    → bad ≡ false
    → good ≡ true
    → o ≡ some stored
    → full_shape bad good o stored ≡ passes stored
unfolding full_shape
full_passes bad good o stored e f g = rw (e, f, g, bytes_eq_refl stored) refl

full_passed :
    (bad good : Bool) (o : Option (List ℕ)) (stored h : List ℕ)
    → full_shape bad good o stored ≡ passes h
    → (bad ≡ false) × (good ≡ true) × (h ≡ stored)
unfolding full_shape
full_passed true good o stored h e = ground arith
full_passed false false o stored h e = ground arith
full_passed false true none stored h e = ground arith
full_passed false true (some r) stored h e =
    if_elim (λ x. x ≡ passes h → (false ≡ false) × (true ≡ true) × (h ≡ stored))
      (not (bytes_eq r stored)) (λ other e. ground arith)
      (λ same e. (refl, refl, let own : stored ≡ h = ground arith in sym own)) e

module _ (calculate_hash : ℕ → BlockHeader → Option (List ℕ)) where
  module _ (calculate_commitment : BlockHeader → List ℕ → List ℕ) where
    abbrev check : ℕ → PowVerifyMode → BlockHeader → ℕ → Outcome
    check = check_proof_of_work calculate_hash calculate_commitment

    judge : ℕ → PowVerifyMode → BlockHeader → Compact → Outcome
    judge = check_target calculate_hash calculate_commitment

    mined_full :
        (duration : ℕ) (block : BlockHeader) (c : Compact) (rx_hash : List ℕ)
        → judge duration mining block c ≡ passes rx_hash
        → all_zero rx_hash ≡ false
        → judge duration full (record block { hash_random_x = rx_hash }) c ≡ passes rx_hash
    unfolding judge check_target check_commitment get_randomx_commitment full_shape
    mined_full duration block c rx_hash mined some_bits =
        let (good, found, low) : (is_bad c ≡ false)
            × (calculate_hash (get_epoch block.time duration) (without_random_x block)
                ≡ some rx_hash)
            × (ltb c.target
                  (get_randomx_commitment calculate_hash calculate_commitment block rx_hash)
                ≡ false) =
          mined_shape (is_bad c) _ _ rx_hash mined in
        full_passes (is_bad c) _ _ rx_hash good (rw (some_bits, low) refl) found

    full_cheap :
        (duration : ℕ) (block : BlockHeader) (c : Compact) (rx_hash : List ℕ)
        → judge duration full block c ≡ passes rx_hash
        → (rx_hash ≡ block.hash_random_x)
          × (judge duration commitment_only block c ≡ passes rx_hash)
    unfolding judge check_target check_commitment get_randomx_commitment full_shape
    full_cheap duration block c rx_hash passed =
        let (good, cheap, same) : (is_bad c ≡ false)
            × (check_commitment calculate_hash calculate_commitment block c.target ≡ true)
            × (rx_hash ≡ block.hash_random_x) =
          full_passed (is_bad c) _ _ block.hash_random_x rx_hash passed in
        (same, rw (good, cheap, same) refl)

    -- A hash that mining finds, put into the header, makes the full check pass, if it is not all
    -- zeros.
    pub check_proof_of_work-mined :
        (duration bits : ℕ) (block : BlockHeader) (rx_hash : List ℕ)
        → check duration mining block bits ≡ passes rx_hash
        → all_zero rx_hash ≡ false
        → check duration full (record block { hash_random_x = rx_hash }) bits ≡ passes rx_hash
    unfolding judge check_proof_of_work
    check_proof_of_work-mined duration bits block rx_hash mined some_bits =
        mined_full duration block (set_compact bits) rx_hash mined some_bits

    -- What passes the full check has the header's own hash, and passes the cheap check.
    pub check_proof_of_work-cheap :
        (duration bits : ℕ) (block : BlockHeader) (rx_hash : List ℕ)
        → check duration full block bits ≡ passes rx_hash
        → (rx_hash ≡ block.hash_random_x)
          × (check duration commitment_only block bits ≡ passes rx_hash)
    unfolding judge check_proof_of_work
    check_proof_of_work-cheap duration bits block rx_hash passed =
        full_cheap duration block (set_compact bits) rx_hash passed
