-- ===== src/Chain/Arith/Overflow.antt =====
-- When a compact form stands for a number of 256 bits.
use native.Mathlib.Nat.{pow-le-pow_right, mul-le-mul, le_refl, lt_of_le_of_lt, div-le_self}
use coinbasechain.Base.{
  ℕ, zero, suc, ◌-◌, ◌*◌, ◌%◌, ◌^◌, ◌<◌, ◌≤◌, ◌≡◌, ◌↔◌, arith, Bool, false, not, ◌&&◌, ◌||◌, ltb,
  leb, ◌==◌, if◌then◌else◌, if_elim, Bool-cases, inl, inr,
}
use coinbasechain.Chain.Arith.{set_compact, word_of, size_of}

-- The number that a size and a word stand for, with no bound on it.
abbrev pub value : ℕ → ℕ → ℕ
value size word = if leb size 3 then word else word * 2 ^ (8 * (size - 3))

abbrev too_big : ℕ → ℕ → Bool
too_big size word =
    not (word == 0)
    && (ltb 34 size || ltb 0xff word && ltb 33 size || ltb 0xffff word && ltb 32 size)

value_small : (size word : ℕ) → word < 2 ^ 23 → size ≤ 32 → value size word < 2 ^ 256
value_small size word h k =
    let power : 2 ^ (8 * (size - 3)) ≤ 2 ^ 232 =
      pow-le-pow_right (omega arith) {i = 8 * (size - 3)} {j = 232} (omega arith) in
    let product : word * 2 ^ (8 * (size - 3)) ≤ word * 2 ^ 232 = mul-le-mul (le_refl word) power in
    ground (arith, product)

value_large : (size word : ℕ) → 1 ≤ word → 35 ≤ size → 2 ^ 256 ≤ value size word
value_large size word h k =
    let power : 2 ^ 256 ≤ 2 ^ (8 * (size - 3)) =
      pow-le-pow_right (omega arith) {i = 256} {j = 8 * (size - 3)} (omega arith) in
    let product : 1 * 2 ^ 256 ≤ word * 2 ^ (8 * (size - 3)) = mul-le-mul h power in
    ground (arith, product)

too_big_lem :
    (size word : ℕ) → word < 2 ^ 23 → (too_big size word ≡ false) ↔ (value size word < 2 ^ 256)
too_big_lem size zero h = ground arith
too_big_lem size (suc w) h = elim (Bool-cases (leb size 32)) [
  | inl small ↦ ground (arith, value_small size (suc w) h)
  | inr not_small ↦ elim (Bool-cases (leb 35 size)) [
    | inl large ↦ ground (arith, value_large size (suc w))
    | inr not_large ↦ elim (Bool-cases (size == 33)) [
      | inl e ↦ let same : size ≡ 33 = ground arith in rw same (ground arith)
      | inr e ↦ let same : size ≡ 34 = ground arith in rw same (ground arith)
    ]
  ]
]

word_of-lt : (compact : ℕ) → word_of compact < 2 ^ 23
word_of-lt compact =
    if_elim {A = ℕ} (λ w. w < 2 ^ 23) (leb (size_of compact) 3)
      (λ _.
        lt_of_le_of_lt (div-le_self (compact % 2 ^ 23) (2 ^ (8 * (3 - size_of compact))))
          (omega arith))
      (λ _. omega arith)

-- The overflow flag is on exactly when the number that is meant has no 256 bits, and without it the
-- target is that number.
pub set_compact-overflow :
    (compact : ℕ)
    → ((set_compact compact).overflow ≡ false
        ↔ (value (size_of compact) (word_of compact) < 2 ^ 256))
      × ((set_compact compact).overflow ≡ false
          → (set_compact compact).target ≡ value (size_of compact) (word_of compact))
unfolding set_compact
set_compact-overflow compact =
    let size = size_of compact in
    let word = word_of compact in
    let fits = too_big_lem size word (word_of-lt compact) in
    (fits, λ h. let small = fits.0 h in ground arith)
