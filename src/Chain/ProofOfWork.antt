-- ===== src/Chain/ProofOfWork.antt =====
-- chain/pow.cpp: CheckProofOfWork, with GetEpoch and GetRandomXCommitment of chain/randomx_pow.cpp.
-- RandomX is a library: its hash (under the virtual machine of an epoch, `none` if there is none) and
-- its commitment are parameters. MINING is always called with a place for the hash.
pub mod Modes
mod Tests
use coinbasechain.Base.{
  ℕ, ◌/◌, Bool, true, false, not, ◌&&◌, ◌||◌, Option, none, some, List, ltb, leb, ◌==◌,
  if◌then◌else◌,
}
use coinbasechain.Base.Map.{bytes_eq}
use coinbasechain.Base.Endian.{from_le}
use coinbasechain.Chain.Header.{BlockHeader, all_zero, null_hash}
use coinbasechain.Chain.Arith.{Compact, set_compact}

pub data PowVerifyMode : Type 0 where
  full commitment_only mining : PowVerifyMode

-- True with the hash, false, or an exception.
pub data Outcome : Type 0 where
  passes : List ℕ → Outcome
  fails throws : Outcome

abbrev pub is_mining : PowVerifyMode → Bool
is_mining full = false
is_mining commitment_only = false
is_mining mining = true

abbrev pub is_commitment_only : PowVerifyMode → Bool
is_commitment_only full = false
is_commitment_only commitment_only = true
is_commitment_only mining = false

abbrev pub get_epoch : ℕ → ℕ → ℕ
get_epoch time duration = time / duration

abbrev pub without_random_x : BlockHeader → BlockHeader
without_random_x block = record block { hash_random_x = null_hash }

-- What every mode refuses.
abbrev pub is_bad : Compact → Bool
is_bad c = c.negative || c.target == 0 || c.overflow

module _ (calculate_hash : ℕ → BlockHeader → Option (List ℕ)) where
  module _ (calculate_commitment : BlockHeader → List ℕ → List ℕ) where
    -- UintToArith256 of GetRandomXCommitment.
    unfoldable pub get_randomx_commitment : BlockHeader → List ℕ → ℕ
    get_randomx_commitment block rx_hash =
        from_le (calculate_commitment (without_random_x block) rx_hash)

    -- The cheap check of the modes that do not mine.
    unfoldable pub check_commitment : BlockHeader → ℕ → Bool
    unfolding all_zero get_randomx_commitment
    check_commitment block target =
        if all_zero block.hash_random_x
        then false
        else not (ltb target (get_randomx_commitment block block.hash_random_x))

    -- The last check of the source, that the checks of the mode were made, holds on every path to it.
    unfoldable pub check_target : ℕ → PowVerifyMode → BlockHeader → Compact → Outcome
    unfolding check_commitment
    check_target duration mode block c =
        if is_bad c
        then fails
        else if not (is_mining mode) && not (check_commitment block c.target)
        then fails
        else if is_commitment_only mode
        then passes block.hash_random_x
        else elim (calculate_hash (get_epoch block.time duration) (without_random_x block)) [
          | none ↦ throws
          | some rx_hash ↦
              if is_mining mode
              then (if ltb c.target (get_randomx_commitment block rx_hash)
                  then fails
                  else passes rx_hash)
              else (if not (bytes_eq rx_hash block.hash_random_x)
                  then fails
                  else passes block.hash_random_x)
        ]

    unfoldable pub check_proof_of_work : ℕ → PowVerifyMode → BlockHeader → ℕ → Outcome
    unfolding check_target set_compact
    check_proof_of_work duration mode block bits =
        check_target duration mode block (set_compact bits)
