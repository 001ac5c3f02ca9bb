-- ===== src/Chain/Validation.antt =====
-- chain/validation.cpp: the checks on a batch of headers before they are accepted, and the work that
-- a batch has to show. A thrown division by zero is `none`.
pub mod Batches
pub mod Cheap
mod Tests
use coinbasechain.Base.{
  ℕ, min, max, ◌+◌, ◌-◌, ◌*◌, ◌/◌, ◌%◌, ◌^◌, Bool, true, false, ◌||◌, Option, none, some, List, [],
  ◌∷◌, ltb, ◌==◌, if◌then◌else◌,
}
use coinbasechain.Base.Map.{bytes_eq}
use coinbasechain.Chain.Header.{BlockHeader, get_hash}
use coinbasechain.Chain.Arith.{Compact, set_compact, max_uint256, get_block_proof}
use coinbasechain.Chain.Index.{BlockIndex}
use coinbasechain.Chain.ProofOfWork.{
  Outcome, passes, fails, throws, full, commitment_only, check_proof_of_work,
}

-- The tip, nAntiDosWorkBufferBlocks, nMinimumChainWork and whether this is the initial download.
unfoldable pub get_anti_dos_work_threshold : Option BlockIndex → ℕ → ℕ → Bool → ℕ
unfolding get_block_proof
get_anti_dos_work_threshold tip blocks min_chain_work is_ibd =
    let near_tip_work : ℕ = elim tip [
      | none ↦ 0
      | some t ↦ t.chain_work - min (get_block_proof t.bits * blocks % 2 ^ 256) t.chain_work
    ] in
    if is_ibd then 0 else max near_tip_work min_chain_work

-- ~bnTarget / (bnTarget + 1) + 1
unfoldable pub work_of : ℕ → Option ℕ
work_of target =
    let divisor = (target + 1) % 2 ^ 256 in
    if divisor == 0 then none else some (((max_uint256 - target) / divisor + 1) % 2 ^ 256)

unfoldable pub add_work : ℕ → Compact → Option ℕ
unfolding work_of
add_work total c =
    if c.negative || c.overflow || c.target == 0
    then some total
    else elim (work_of c.target) [ none ↦ none | some w ↦ some ((total + w) % 2 ^ 256) ]

-- The loop of CalculateHeadersWork, from a total.
unfoldable pub work_from : ℕ → List BlockHeader → Option ℕ
unfolding add_work set_compact
work_from total [] = some total
work_from total (h ∷ headers) = elim (add_work total (set_compact h.bits)) [
  | none ↦ none
  | some next ↦ work_from next headers
]

unfoldable pub calculate_headers_work : List BlockHeader → Option ℕ
unfolding work_from
calculate_headers_work headers = work_from 0 headers

unfoldable pub is_pass : Outcome → Bool
is_pass (passes h) = true
is_pass fails = false
is_pass throws = false

-- CheckProofOfWork with its three answers; `throws` leaves CheckBlockHeader as the exception does.
module _ (calculate_hash : ℕ → BlockHeader → Option (List ℕ)) where
  module _ (calculate_commitment : BlockHeader → List ℕ → List ℕ) where
    abbrev pub check_block_header : ℕ → BlockHeader → Outcome
    check_block_header duration header =
        check_proof_of_work calculate_hash calculate_commitment duration full header header.bits

    unfoldable pub check_headers_pow : ℕ → List BlockHeader → Bool
    unfolding is_pass check_proof_of_work
    check_headers_pow duration [] = true
    check_headers_pow duration (h ∷ headers) =
        let rest = check_headers_pow duration headers in
        if is_pass (
          check_proof_of_work calculate_hash calculate_commitment duration commitment_only h h.bits)
        then rest
        else false

module _ (sha256 : List ℕ → List ℕ) where
  -- The loop of CheckHeadersAreContinuous, after a header.
  unfoldable pub follows : BlockHeader → List BlockHeader → Bool
  unfolding get_hash
  follows prev [] = true
  follows prev (h ∷ headers) =
      if bytes_eq h.hash_prev_block (get_hash sha256 prev) then follows h headers else false

  unfoldable pub check_headers_are_continuous : List BlockHeader → Bool
  unfolding follows
  check_headers_are_continuous [] = true
  check_headers_are_continuous (h ∷ headers) = follows h headers
