-- ===== src/Chain/Arith/Work.antt =====
-- The work of a block, as a share of 2^256.
use native.Mathlib.Nat.{
  div-eq-sub-div, le-div_iff_mul-le, div-le_self, lt_of_le_of_lt, le_trans, mul-le-mul_left,
  div-mul-le_self,
}
use coinbasechain.Base.{
  ℕ, zero, suc, ◌+◌, ◌-◌, ◌*◌, ◌/◌, ◌%◌, ◌^◌, ◌<◌, ◌≤◌, ◌≡◌, ◌≢◌, refl, ◌∙◌, arith, Bool, true,
  false, ◌||◌, leb, ◌==◌, if◌then◌else◌, if_elim, Bool-cases, inl, inr,
}
use coinbasechain.Chain.Arith.{
  set_compact, get_block_proof, get_target_from_bits, max_uint256, word_of, size_of,
}

pub set_compact-lt : (bits : ℕ) → (set_compact bits).target < 2 ^ 256
unfolding set_compact
set_compact-lt bits =
    if_elim {A = ℕ} (λ t. t < 2 ^ 256) (leb (size_of bits) 3) (λ _. small) (λ _. omega arith)
  where
    word : ℕ
    word = bits % 2 ^ 23

    small : word_of bits < 2 ^ 256
    small =
        if_elim {A = ℕ} (λ t. t < 2 ^ 256) (leb (size_of bits) 3)
          (λ _. lt_of_le_of_lt (div-le_self word (2 ^ (8 * (3 - size_of bits)))) (omega arith))
          (λ _. omega arith)

quotient :
    (t : ℕ)
    → 1 ≤ t
    → t < max_uint256
    → ((max_uint256 - t) / (t + 1) + 1) % 2 ^ 256 ≡ 2 ^ 256 / (t + 1)
quotient t h k =
    let step : 2 ^ 256 / (t + 1) ≡ (2 ^ 256 - (t + 1)) / (t + 1) + 1 =
      div-eq-sub-div (omega arith) (omega arith) in
    let same : 2 ^ 256 - (t + 1) ≡ max_uint256 - t = omega arith in
    let small : (max_uint256 - t) / (t + 1) ≤ max_uint256 - t =
      div-le_self (max_uint256 - t) (t + 1) in
    (rw (← same) (omega (arith, step, small, same)))

zero_is_bad : (negative overflow : Bool) (t : ℕ) → t ≡ 0 → negative || overflow || t == 0 ≡ true
zero_is_bad negative overflow t z = ground arith

-- The same with the target and the test on it kept apart.
proof_of :
    (bad : Bool) (t : ℕ)
    → t < 2 ^ 256
    → (t ≡ 0 → bad ≡ true)
    → (if bad
        then 0
        else if t == max_uint256
        then 1
        else ((max_uint256 - t) / (t + 1) + 1) % 2 ^ 256)
      ≡ (if (if bad then 0 else t) == 0 then 0 else 2 ^ 256 / ((if bad then 0 else t) + 1))
proof_of true t h z = ground arith
proof_of false zero h z = cc
proof_of false (suc t) h z = elim (Bool-cases (suc t == max_uint256)) [
  | inl e ↦ let all_ones : suc t ≡ max_uint256 = ground arith in rw all_ones refl
  | inr e ↦ let q = quotient (suc t) (omega arith) (ground arith) in rw (e, q) (ground arith)
]

-- The work of a block is 2^256 / (target + 1), or 0 if its bits give no target.
pub get_block_proof_lem :
    (bits : ℕ)
    → get_block_proof bits
      ≡ (if get_target_from_bits bits == 0 then 0 else 2 ^ 256 / (get_target_from_bits bits + 1))
unfolding get_block_proof get_target_from_bits
get_block_proof_lem bits =
    let c = set_compact bits in
    proof_of (c.negative || c.overflow || c.target == 0) c.target (set_compact-lt bits)
      (λ z. zero_is_bad (c.negative) c.overflow c.target z)

-- A higher target, hence an easier block, counts for no more work.
pub get_block_proof_antitone :
    (easy hard : ℕ)
    → get_target_from_bits hard ≢ 0
    → get_target_from_bits hard ≤ get_target_from_bits easy
    → get_block_proof easy ≤ get_block_proof hard
get_block_proof_antitone easy hard some_target h =
    let t = get_target_from_bits hard in
    let t' = get_target_from_bits easy in
    let e : get_block_proof easy ≡ 2 ^ 256 / (t' + 1) = get_block_proof_lem easy ∙ ground arith in
    let k : get_block_proof hard ≡ 2 ^ 256 / (t + 1) = get_block_proof_lem hard ∙ ground arith in
    let fewer : 2 ^ 256 / (t' + 1) * (t + 1) ≤ 2 ^ 256 / (t' + 1) * (t' + 1) =
      mul-le-mul_left (2 ^ 256 / (t' + 1)) (omega arith) in
    rw (e, k)
      ((le-div_iff_mul-le (omega arith)).1 (le_trans fewer (div-mul-le_self (2 ^ 256) (t' + 1))))
