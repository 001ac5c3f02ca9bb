-- ===== src/Chain/Pow/Asert.antt =====
-- What ASERT makes of a target.
use native.Mathlib.Nat.{mul-div_left, div-lt_iff_lt-mul, div-div-eq-div-mul}
use coinbasechain.Base.{
  ℕ, ◌+◌, ◌-◌, ◌*◌, ◌/◌, ◌%◌, ◌^◌, ◌≤◌, ◌<◌, ◌≡◌, sym, ap, ◌∙◌, arith, true, false, not, ◌&&◌, some,
  ltb, leb, leb→le, leb-false, leb-true, ltb-false, ◌==◌, if_elim, Bool-cases, inl, inr,
}
use coinbasechain.Chain.Arith.Rounding.{pow_add, pow_pos}
use coinbasechain.Chain.Pow.{
  factor_of, to_left, shift_of, late_exponent, early_exponent, apply_shift, clamp, next_target,
  calculate_asert,
}

-- The factor is at least 1 and below 2, in units of 1 / 65536.
pub factor_of-bounds : (frac : ℕ) → (65536 ≤ factor_of frac) × (factor_of frac < 131072)
unfolding factor_of
factor_of-bounds frac = (omega arith, omega arith)

pub clamp-bounds :
    (limit target : ℕ) → 1 ≤ limit → (1 ≤ clamp limit target) × (clamp limit target ≤ limit)
clamp-bounds limit target h = ground arith

-- Shifting the target to the left and back notices every bit that is lost.
left_shift :
    (ref_target limit j : ℕ)
    → 1 ≤ limit
    → limit < 2 ^ 256
    → clamp limit (apply_shift (to_left j) (ref_target * 65536) limit)
      ≡ clamp limit (ref_target * 65536 * 2 ^ j)
unfolding apply_shift
left_shift ref_target limit j h l = elim (Bool-cases (ltb (n * 2 ^ j) (2 ^ 512))) [
  | inl small ↦
      let kept : n * 2 ^ j % 2 ^ 512 ≡ n * 2 ^ j = ground arith in
      let back : n * 2 ^ j / 2 ^ j ≡ n = mul-div_left n (pow_pos j) in
      rw (kept, back) (ground arith)
  | inr big ↦
      let large : 2 ^ 512 ≤ n * 2 ^ j = ltb-false (n * 2 ^ j) (2 ^ 512) big in
      let lost : n * 2 ^ j % 2 ^ 512 / 2 ^ j < n =
        (div-lt_iff_lt-mul (pow_pos j)).1 (omega arith) in
      ground arith
]
  where
    n : ℕ
    n = ref_target * 65536

whole_shift :
    (ref_target limit k : ℕ)
    → 1 ≤ limit
    → limit < 2 ^ 256
    → clamp limit (apply_shift (shift_of k) (ref_target * 65536) limit)
      ≡ clamp limit (ref_target * 2 ^ k)
unfolding apply_shift
whole_shift ref_target limit k h l =
    if_elim
      (λ s.
        clamp limit (apply_shift s (ref_target * 65536) limit) ≡ clamp limit (ref_target * 2 ^ k))
      (leb k 16)
      (λ low.
        let below : k ≤ 16 = leb→le k 16 low in
        let sum : k + (16 - k) ≡ 16 = omega arith in
        let power : 2 ^ k * 2 ^ (16 - k) ≡ 65536 = sym (pow_add k (16 - k)) ∙ ap (λ n. 2 ^ n) sum in
        let product : ref_target * 65536 ≡ ref_target * 2 ^ k * 2 ^ (16 - k) =
          rw (← power) (grind arith) in
        let quotient : ref_target * 65536 / 2 ^ (16 - k) ≡ ref_target * 2 ^ k =
          rw product (mul-div_left (ref_target * 2 ^ k) (pow_pos (16 - k))) in
        ap (clamp limit) quotient)
      (λ high.
        let above : 16 < k = leb-false k 16 high in
        let sum : 16 + (k - 16) ≡ k = omega arith in
        let power : 65536 * 2 ^ (k - 16) ≡ 2 ^ k =
          sym (pow_add 16 (k - 16)) ∙ ap (λ n. 2 ^ n) sum in
        let product : ref_target * 65536 * 2 ^ (k - 16) ≡ ref_target * 2 ^ k =
          rw (← power) (grind arith) in
        left_shift ref_target limit (k - 16) h l ∙ ap (clamp limit) product)

-- A whole number of half-lives late multiplies by a power of 2, as far as the limit allows.
late-whole :
    (ref_target limit half_life k : ℕ)
    → 1 ≤ half_life
    → 1 ≤ limit
    → ref_target < 2 ^ 256
    → limit < 2 ^ 256
    → next_target ref_target limit (late_exponent (k * half_life) half_life)
      ≡ clamp limit (ref_target * 2 ^ k)
unfolding late_exponent factor_of
late-whole ref_target limit half_life k h r f l =
    let swap : k * half_life * 65536 ≡ k * 65536 * half_life = grind arith in
    let exponent : k * half_life * 65536 / half_life ≡ k * 65536 =
      rw swap (mul-div_left (k * 65536) h) in
    let whole : k * 65536 / 65536 ≡ k = omega arith in
    let frac : k * 65536 % 65536 ≡ 0 = omega arith in
    let product : ref_target * 65536 % 2 ^ 512 ≡ ref_target * 65536 = omega arith in
    rw exponent (rw (whole, frac) (rw product (whole_shift ref_target limit k r l)))

early-whole :
    (ref_target limit half_life k : ℕ)
    → 1 ≤ half_life
    → ref_target < 2 ^ 256
    → next_target ref_target limit (early_exponent (k * half_life) half_life)
      ≡ clamp limit (ref_target / 2 ^ k)
unfolding early_exponent factor_of apply_shift
early-whole ref_target limit half_life k h f =
    let swap : k * half_life * 65536 ≡ k * 65536 * half_life = grind arith in
    let exponent : k * half_life * 65536 / half_life ≡ k * 65536 =
      rw swap (mul-div_left (k * 65536) h) in
    let whole : (k * 65536 + 65535) / 65536 + 16 ≡ 16 + k = omega arith in
    let frac : (65536 - k * 65536 % 65536) % 65536 ≡ 0 = omega arith in
    let product : ref_target * 65536 % 2 ^ 512 ≡ ref_target * 65536 = omega arith in
    let quotient : ref_target * 65536 / 2 ^ (16 + k) ≡ ref_target / 2 ^ k = rw (pow_add 16 k) (
      sym (div-div-eq-div-mul (ref_target * 65536) 65536 (2 ^ k))
      ∙ ap (λ n. n / 2 ^ k) (omega arith)) in
    rw exponent (rw (whole, frac) (rw product (ap (clamp limit) quotient)))

module _ (ref_target spacing time_diff height_diff limit half_life d : ℕ) where
  module _ (r : 1 ≤ ref_target) (f : ref_target ≤ limit) where
    abbrev ideal : ℕ
    ideal = spacing * (height_diff + 1)

    passes : not (ltb 0 ref_target && leb ref_target limit) ≡ false
    passes = ground arith

    calculate-late :
        ideal ≤ time_diff
        → time_diff - ideal ≡ d
        → d < 2 ^ 47
        → calculate_asert ref_target spacing time_diff height_diff limit half_life
          ≡ some (next_target ref_target limit (late_exponent d half_life))
    unfolding calculate_asert
    calculate-late order diff small =
        let late : leb ideal time_diff ≡ true = leb-true ideal time_diff order in
        let fits : not (ltb d (2 ^ 47)) ≡ false = ground arith in simp (passes, late, diff, fits)

    calculate-early :
        time_diff < ideal
        → ideal - time_diff ≡ d
        → d < 2 ^ 47
        → calculate_asert ref_target spacing time_diff height_diff limit half_life
          ≡ some (next_target ref_target limit (early_exponent d half_life))
    unfolding calculate_asert
    calculate-early order diff small =
        let early : leb ideal time_diff ≡ false = ground arith in
        let fits : not (ltb d (2 ^ 47)) ≡ false = ground arith in simp (passes, early, diff, fits)

-- At k half-lives behind or ahead of the schedule the target is 2^k times the reference, or that
-- divided by 2^k, rounded down, within 1 and the limit; on schedule (k is 0) it is the reference.
pub calculate_asert-whole :
    (ref_target spacing height_diff limit half_life k : ℕ)
    → 1 ≤ half_life
    → 1 ≤ ref_target
    → ref_target ≤ limit
    → limit < 2 ^ 256
    → k * half_life < 2 ^ 47
    → (calculate_asert ref_target spacing
          (spacing * (height_diff + 1) + k * half_life)
          height_diff
          limit
          half_life
        ≡ some (clamp limit (ref_target * 2 ^ k)))
      × (k * half_life ≤ spacing * (height_diff + 1)
          → calculate_asert ref_target spacing
              (spacing * (height_diff + 1) - k * half_life)
              height_diff
              limit
              half_life
            ≡ some (clamp limit (ref_target / 2 ^ k)))
calculate_asert-whole ref_target spacing height_diff limit half_life k h r f l b =
    let ideal = spacing * (height_diff + 1) in
    (
      calculate-late ref_target spacing (ideal + k * half_life) height_diff limit half_life
            (k * half_life) r f (omega arith) (omega arith) b
          ∙ ap some (late-whole ref_target limit half_life k h (omega arith) (omega arith) l),
      λ some_left. elim (Bool-cases (k * half_life == 0)) [
        | inl on_time ↦
            let none_late : k * half_life ≡ 0 = ground arith in
            let z : k ≡ 0 = grind arith in
            rw (z) (
              calculate-late ref_target spacing (ideal - 0 * half_life) height_diff limit half_life
                (0 * half_life) r f (omega arith) (omega arith) (omega arith)
              ∙ ap some (
                  late-whole ref_target limit half_life 0 h (omega arith) (omega arith) l
                  ∙ ap (clamp limit) (omega arith)))
        | inr early ↦
            calculate-early ref_target spacing (ideal - k * half_life) height_diff limit half_life
              (k * half_life) r f (ground arith) (omega arith) b
            ∙ ap some (early-whole ref_target limit half_life k h (omega arith))
      ],
    )
