-- ===== src/Chain/Validation/Batches.antt =====
-- The work of a batch of headers, and the threshold that it has to reach.
use native.Mathlib.Nat.{lt_of_le_of_lt, div-le_self, mod-add-mod}
use coinbasechain.Base.{
  ℕ, min, max, zero, suc, ◌+◌, ◌-◌, ◌*◌, ◌/◌, ◌%◌, ◌^◌, ◌≡◌, ◌≢◌, ◌≤◌, ◌<◌, refl, sym, ◌∙◌, ap,
  arith, Bool, true, false, ◌||◌, none, some, List, [], ◌∷◌, leb, ◌==◌, if◌then◌else◌, if_elim,
  leb-false,
}
use coinbasechain.Chain.Header.{BlockHeader}
use coinbasechain.Chain.Arith.{set_compact, size_of, word_of, max_uint256, get_block_proof}
use coinbasechain.Chain.Arith.Rounding.{pow_add}
use coinbasechain.Chain.Arith.Work.{set_compact-lt}
use coinbasechain.Chain.Index.{BlockIndex}
use coinbasechain.Chain.Validation.{
  get_anti_dos_work_threshold, work_of, add_work, work_from, calculate_headers_work,
}

-- The block proofs of a batch, added up without a bound.
abbrev pub total_proof : List BlockHeader → ℕ
total_proof [] = 0
total_proof (h ∷ headers) = get_block_proof h.bits + total_proof headers

threshold_bounds :
    (p w m : ℕ)
    → p < 2 ^ 256
    → (m ≤ max (w - min (p % 2 ^ 256) w) m)
      × (w ≤ max (w - min (p % 2 ^ 256) w) m + p)
      × (max (w - min (p % 2 ^ 256) w) m ≤ max w m)
threshold_bounds p w m h = (omega arith, omega arith, omega arith)

-- Outside the initial download the threshold is at least the configured minimum, no more than the buffer
-- below the tip's work, and at most the larger of the tip's work and the minimum, if the buffer fits
-- in 256 bits.
pub get_anti_dos_work_threshold_bounds :
    (t : BlockIndex) (blocks min_chain_work : ℕ)
    → get_block_proof t.bits * blocks < 2 ^ 256
    → (min_chain_work ≤ get_anti_dos_work_threshold (some t) blocks min_chain_work false)
      × (t.chain_work
          ≤ get_anti_dos_work_threshold (some t) blocks min_chain_work false
            + get_block_proof t.bits * blocks)
      × (get_anti_dos_work_threshold (some t) blocks min_chain_work false
          ≤ max t.chain_work min_chain_work)
unfolding get_anti_dos_work_threshold
get_anti_dos_work_threshold_bounds t blocks min_chain_work h =
    threshold_bounds (get_block_proof t.bits * blocks) t.chain_work min_chain_work h

even_not-max : (x : ℕ) → x * 2 ^ 8 % 2 ^ 256 ≢ max_uint256
even_not-max x e = omega arith

shift_not-max : (word k : ℕ) → 1 ≤ k → word * 2 ^ (8 * k) % 2 ^ 256 ≢ max_uint256
shift_not-max word zero h e = omega arith
shift_not-max word (suc k) h e =
    let byte : 2 ^ (8 * suc k) ≡ 2 ^ (8 * k) * 2 ^ 8 =
      let next : 8 * suc k ≡ 8 * k + 8 = omega arith in rw next (pow_add (8 * k) 8) in
    let even : word * 2 ^ (8 * suc k) ≡ word * 2 ^ (8 * k) * 2 ^ 8 = rw byte (grind arith) in
    even_not-max (word * 2 ^ (8 * k)) (sym (ap (λ x. x % 2 ^ 256) even) ∙ e)

word_lt : (bits : ℕ) → word_of bits < 2 ^ 23
word_lt bits =
    if_elim {A = ℕ} (λ t. t < 2 ^ 23) (leb (size_of bits) 3)
      (λ small.
        lt_of_le_of_lt (div-le_self (bits % 2 ^ 23) (2 ^ (8 * (3 - size_of bits)))) (omega arith))
      (λ large. omega arith)

set_compact-not_max : (bits : ℕ) → (set_compact bits).target ≢ max_uint256
unfolding set_compact
set_compact-not_max bits =
    let size = size_of bits in
    let word = word_lt bits in
    if_elim {A = ℕ} (λ t. t ≢ max_uint256) (leb size 3) (λ small e. omega (arith, word, e))
      (λ large.
        shift_not-max (word_of bits) (size - 3)
          (let above : 3 < size = leb-false size 3 large in omega (arith, above)))

-- One turn of the loop, with the target and the test on it kept apart.
add_bounded :
    (total t : ℕ) (bad : Bool)
    → total < 2 ^ 256
    → t < 2 ^ 256
    → t ≢ max_uint256
    → (if bad
        then some total
        else elim (work_of t) [ none ↦ none | some w ↦ some ((total + w) % 2 ^ 256) ])
      ≡ some (
          (total
            + (if bad
                then 0
                else if t == max_uint256
                then 1
                else ((max_uint256 - t) / (t + 1) + 1) % 2 ^ 256))
          % 2 ^ 256)
unfolding work_of
add_bounded total t true l h k = ap some (omega arith)
add_bounded total t false l h k =
    let divisor : (t + 1) % 2 ^ 256 ≡ t + 1 = omega arith in
    let some_divisor : (t + 1 == 0) ≡ false = ground arith in
    let other : (t == max_uint256) ≡ false = ground arith in rw (divisor, some_divisor, other) refl

add_work_lem :
    (total bits : ℕ)
    → total < 2 ^ 256
    → add_work total (set_compact bits) ≡ some ((total + get_block_proof bits) % 2 ^ 256)
unfolding add_work get_block_proof
add_work_lem total bits h =
    let c = set_compact bits in
    add_bounded total c.target (c.negative || c.overflow || c.target == 0) h (set_compact-lt bits)
      (set_compact-not_max bits)

sum : (a b c : ℕ) → a + b + c ≡ a + (b + c)
sum a b c = omega arith

sum_zero : (a : ℕ) → 0 + a ≡ a
sum_zero a = omega arith

work_from_lem :
    (total : ℕ) (headers : List BlockHeader)
    → total < 2 ^ 256
    → work_from total headers ≡ some ((total + total_proof headers) % 2 ^ 256)
unfolding work_from
work_from_lem total [] h = ap some (omega arith)
work_from_lem total (x ∷ headers) h =
    let next = (total + get_block_proof x.bits) % 2 ^ 256 in
    let rest = work_from_lem next headers (let bound : next < 2 ^ 256 = omega arith in bound) in
    ap (λ o. elim o [ none ↦ none | some n ↦ work_from n headers ]) (add_work_lem total x.bits h)
    ∙ (rest
        ∙ ap some (
            mod-add-mod (total + get_block_proof x.bits) (2 ^ 256) (total_proof headers)
            ∙ ap (λ n. n % 2 ^ 256) (sum total (get_block_proof x.bits) (total_proof headers))))

-- CalculateHeadersWork never divides by zero, and its total is that of the block proofs that the
-- headers bring to the index, with the wrap-around of 256 bits.
pub calculate_headers_work_lem :
    (headers : List BlockHeader)
    → calculate_headers_work headers ≡ some (total_proof headers % 2 ^ 256)
unfolding calculate_headers_work
calculate_headers_work_lem headers =
    work_from_lem 0 headers (omega arith)
    ∙ ap (λ n. some (n % 2 ^ 256)) (sum_zero (total_proof headers))
