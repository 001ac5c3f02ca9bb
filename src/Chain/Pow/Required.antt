-- ===== src/Chain/Pow/Required.antt =====
-- The bits that the next block must have always give a target within the limit.
use native.Mathlib.Nat.{le_trans, mul-le-mul, div-mul-le_self}
use coinbasechain.Chain.Pow.Asert.{clamp-bounds}
use coinbasechain.Base.{
  ℕ, ◌+◌, ◌-◌, ◌*◌, ◌/◌, ◌%◌, ◌^◌, ◌≤◌, ◌<◌, ◌≡◌, ◌⊎◌, arith, false, not, ◌&&◌, ◌||◌, Option, none,
  some, ltb, leb, if_elim, Option_elim, inl, inr, subst,
}
use coinbasechain.Base.Map.{lookup, bytes_key}
use coinbasechain.Chain.Arith.{set_compact, get_compact}
use coinbasechain.Chain.Arith.Rounding.{pow_pos, set_compact-get_compact}
use coinbasechain.Chain.Index.{Hash, Index, get_ancestor}
use coinbasechain.Chain.Pow.{
  calculate_asert, Exponent, next_target, late_exponent, early_exponent, apply_shift, factor_of,
  ConsensusParams, get_next_work_required, time_diff_of,
}

-- A compact form of a target that is neither negative, nor too large, nor zero, nor above the limit.
abbrev pub IsTarget : ℕ → ℕ → Type 0
IsTarget limit bits =
    let c = set_compact bits in
    (c.negative ≡ false) × (c.overflow ≡ false) × (1 ≤ c.target) × (c.target ≤ limit)

kept-pos :
    (v k : ℕ) → 1 ≤ v → (k ≡ 0) ⊎ (2 ^ 15 ≤ v / 2 ^ (8 * k)) → 1 ≤ v / 2 ^ (8 * k) * 2 ^ (8 * k)
kept-pos v k h (inl z) = rw z (omega arith)
kept-pos v k h (inr big) =
    let product : 2 ^ 15 * 1 ≤ v / 2 ^ (8 * k) * 2 ^ (8 * k) = mul-le-mul big (pow_pos (8 * k)) in
    omega (arith, product)

get_compact-IsTarget :
    (v limit : ℕ) → 1 ≤ v → v ≤ limit → limit < 2 ^ 256 → IsTarget limit (get_compact v)
get_compact-IsTarget v limit pos h l =
    let (k, rounded) = set_compact-get_compact v (omega arith) in
    let (target, positive, fits) = rounded.0 in
    (
      positive,
      fits,
      rw target (kept-pos v k pos rounded.1),
      rw target (le_trans (div-mul-le_self v (2 ^ (8 * k))) h),
    )

-- What ASERT returns is a target from 1 to the limit.
calculate_asert-bounds :
    (ref_target spacing time_diff height_diff limit half_life v : ℕ)
    → calculate_asert ref_target spacing time_diff height_diff limit half_life ≡ some v
    → (1 ≤ v) × (v ≤ limit)
unfolding calculate_asert
calculate_asert-bounds ref_target spacing time_diff height_diff limit half_life v =
    if_elim Within (not (ltb 0 ref_target && leb ref_target limit)) (λ _ e. cc)
      λ good.
        let pos : 1 ≤ limit = ground arith in
        if_elim Within (leb ideal time_diff)
          (λ _.
            if_elim Within (not (ltb (time_diff - ideal) (2 ^ 47))) (λ _ e. cc)
              (λ _. clamped pos (late_exponent (time_diff - ideal) half_life)))
          (λ _.
            if_elim Within (not (ltb (ideal - time_diff) (2 ^ 47))) (λ _ e. cc)
              (λ _. clamped pos (early_exponent (ideal - time_diff) half_life)))
  where
    ideal : ℕ
    ideal = spacing * (height_diff + 1)

    Within : Option ℕ → Type 0
    Within r = r ≡ some v → (1 ≤ v) × (v ≤ limit)

    clamped : 1 ≤ limit → (x : Exponent) → Within (some (next_target ref_target limit x))
    clamped pos x e =
        let same : next_target ref_target limit x ≡ v = cc in
        subst (λ w. (1 ≤ w) × (w ≤ limit)) same
          (clamp-bounds limit (apply_shift x.0 (ref_target * factor_of x.1 % 2 ^ 512) limit) pos)

-- Whatever the chain looks like, the bits that GetNextWorkRequired asks for are a target from 1 to
-- the limit, if it answers at all (its asserts hold).
pub get_next_work_required-IsTarget :
    (params : ConsensusParams) (m : Index) (prev : Option Hash) (bits : ℕ)
    → 1 ≤ params.pow_limit
    → params.pow_limit < 2 ^ 256
    → get_next_work_required params m prev ≡ some bits
    → IsTarget params.pow_limit bits
unfolding get_next_work_required
get_next_work_required-IsTarget params m none bits h l = λ e.
    subst (IsTarget params.pow_limit) (let q : get_compact params.pow_limit ≡ bits = cc in q)
      (get_compact-IsTarget params.pow_limit params.pow_limit h (omega arith) l)
get_next_work_required-IsTarget params m (some b) bits h l =
    Option_elim Asked (lookup b m) (λ _ e. cc)
      λ prev _.
        if_elim Asked (params.is_regtest || ltb prev.height params.asert_anchor_height)
          (λ _ e. at_target params.pow_limit h (omega arith) e)
          λ _.
            Option_elim Asked (get_ancestor m b params.asert_anchor_height) (λ _ e. cc)
              λ a _.
                Option_elim Asked (lookup a m) (λ _ e. cc)
                  λ anchor _.
                    Option_elim Asked
                      (calculate_asert (set_compact anchor.bits).target params.pow_target_spacing
                        (time_diff_of prev.time anchor.time)
                        (prev.height - params.asert_anchor_height) params.pow_limit
                        params.asert_half_life)
                      (λ _ e. cc)
                      λ v found e.
                        let (low, high) =
                          calculate_asert-bounds (set_compact anchor.bits).target
                            params.pow_target_spacing (time_diff_of prev.time anchor.time)
                            (prev.height - params.asert_anchor_height) params.pow_limit
                            params.asert_half_life v found in
                        at_target v low high e
  where
    Asked : Option ℕ → Type 0
    Asked r = r ≡ some bits → IsTarget params.pow_limit bits

    at_target : (v : ℕ) → 1 ≤ v → v ≤ params.pow_limit → Asked (some (get_compact v))
    at_target v low high e =
        subst (IsTarget params.pow_limit) (let q : get_compact v ≡ bits = cc in q)
          (get_compact-IsTarget v params.pow_limit low high l)
