-- ===== src/Chain/Validation/Tests.antt =====
-- Batches of headers on concrete bits, and the threshold around a tip.
use coinbasechain.Base.{
  ℕ, ◌*◌, ◌%◌, ◌^◌, ◌≡◌, ◌<◌, refl, true, none, some, List, Option, [], ◌∷◌, take, arith,
}
use coinbasechain.Base.Map.{bytes_eq}
use coinbasechain.Chain.Header.{BlockHeader, all_zero, get_hash, serialize}
use coinbasechain.Chain.Arith.{set_compact, get_block_proof}
use coinbasechain.Chain.Index.{BlockIndex, new_entry}
use coinbasechain.Chain.Validation.{
  calculate_headers_work, work_from, add_work, work_of, check_headers_are_continuous, follows,
}
use coinbasechain.Chain.ProofOfWork.{
  check_proof_of_work, check_target, check_commitment, get_randomx_commitment,
}
use coinbasechain.Chain.Validation.Cheap.{Passes}
use coinbasechain.Chain.Validation.Batches.{total_proof, calculate_headers_work_lem}

abbrev first_byte : List ℕ → List ℕ
first_byte bytes = take 1 bytes

abbrev header : ℕ → List ℕ → ℕ → BlockHeader
header n prev bits = record {
  version = n;
  hash_prev_block = prev;
  miner_address = [];
  time = 100 * n;
  bits = bits;
  nonce = 0;
  hash_random_x = [];
}

-- The third header has no target, and counts for nothing.
abbrev batch : List BlockHeader
batch = header 1 [] 0x207fffff ∷ header 2 (1 ∷ []) 0x207fffff ∷ header 3 (2 ∷ []) 0 ∷ []

batch_work : calculate_headers_work batch ≡ some 4
unfolding calculate_headers_work work_from add_work work_of set_compact
batch_work = refl

batch_continuous : check_headers_are_continuous first_byte batch ≡ true
unfolding check_headers_are_continuous follows get_hash serialize bytes_eq
batch_continuous = refl

calculate_headers_work_example : calculate_headers_work batch ≡ some (total_proof batch % 2 ^ 256)
calculate_headers_work_example = calculate_headers_work_lem batch

abbrev tip : BlockIndex
tip = new_entry (header 5 (4 ∷ []) 0x207fffff) none 5 10 500

small_buffer : get_block_proof tip.bits * 3 % 2 ^ 256 ≡ 6
unfolding get_block_proof set_compact
small_buffer = refl

buffer_fits : get_block_proof tip.bits * 3 < 2 ^ 256
unfolding get_block_proof set_compact
buffer_fits = omega arith

abbrev ones : ℕ → BlockHeader → Option (List ℕ)
ones epoch block = some (1 ∷ [])

abbrev zeros : BlockHeader → List ℕ → List ℕ
zeros block rx_hash = []

abbrev solved : BlockHeader
solved = record (header 1 [] 0x207fffff) { hash_random_x = 1 ∷ [] }

solved-Passes : Passes ones zeros 3600 solved
unfolding check_proof_of_work check_target check_commitment get_randomx_commitment set_compact
    all_zero bytes_eq
solved-Passes = (1 ∷ [], refl)
