-- ===== src/Chain/Pow.antt =====
-- chain/pow.cpp: the ASERT difficulty adjustment. A failed assert is `none`; int64_t values that may
-- be negative are split by their sign, and the 512-bit target is reduced modulo 2^512.
pub mod Asert
pub mod Required
mod Tests
use coinbasechain.Base.{
  ℕ, zero, suc, ◌+◌, ◌-◌, ◌*◌, ◌/◌, ◌%◌, ◌^◌, Bool, true, false, not, ◌&&◌, ◌||◌, Option, none,
  some, ltb, leb, ◌==◌, if◌then◌else◌,
}
use coinbasechain.Base.Map.{lookup, bytes_key}
use coinbasechain.Chain.Arith.{set_compact, get_compact}
use coinbasechain.Chain.Index.{Hash, Index, get_ancestor}

-- 65536 times 2 to the power of frac / 65536, in uint64_t and uint32_t.
unfoldable pub factor_of : ℕ → ℕ
factor_of frac =
    let sum =
      195766423245049 * frac + 971821376 * frac * frac + 5127 * frac * frac * frac + 2 ^ 47 in
    (65536 + sum % 2 ^ 64 / 2 ^ 48) % 2 ^ 32

-- exponent >> 16 less 16, as a shift of the target to the left or to the right.
pub data Shift : Type 0 where
  to_left to_right : ℕ → Shift

abbrev pub Exponent : Type 0
Exponent = Shift × ℕ

abbrev pub shift_of : ℕ → Shift
shift_of shifts = if leb shifts 16 then to_right (16 - shifts) else to_left (shifts - 16)

-- The exponent's whole and fractional part when the chain is late, and when it is early: the
-- division rounds to zero, the shift down.
unfoldable pub late_exponent : ℕ → ℕ → Exponent
late_exponent late half_life =
    let exponent = late * 65536 / half_life in (shift_of (exponent / 65536), exponent % 65536)

unfoldable pub early_exponent : ℕ → ℕ → Exponent
early_exponent early half_life =
    let exponent = early * 65536 / half_life in
    (to_right ((exponent + 65535) / 65536 + 16), (65536 - exponent % 65536) % 65536)

unfoldable pub apply_shift : Shift → ℕ → ℕ → ℕ
apply_shift (to_right k) target limit = target / 2 ^ k
apply_shift (to_left k) target limit =
    let shifted = target * 2 ^ k % 2 ^ 512 in
    if not (shifted / 2 ^ k == target) then limit else shifted

abbrev pub clamp : ℕ → ℕ → ℕ
clamp limit target = if ltb limit target then limit else if target == 0 then 1 else target

abbrev pub next_target : ℕ → ℕ → Exponent → ℕ
next_target ref_target limit x =
    clamp limit (apply_shift x.0 (ref_target * factor_of x.1 % 2 ^ 512) limit)

unfoldable pub calculate_asert : ℕ → ℕ → ℕ → ℕ → ℕ → ℕ → Option ℕ
unfolding factor_of late_exponent early_exponent apply_shift
calculate_asert ref_target spacing time_diff height_diff limit half_life =
    let ideal = spacing * (height_diff + 1) in
    if not (ltb 0 ref_target && leb ref_target limit)
    then none
    else if leb ideal time_diff
    then (if not (ltb (time_diff - ideal) (2 ^ 47))
        then none
        else some (next_target ref_target limit (late_exponent (time_diff - ideal) half_life)))
    else (if not (ltb (ideal - time_diff) (2 ^ 47))
        then none
        else some (next_target ref_target limit (early_exponent (ideal - time_diff) half_life)))

pub record ConsensusParams : Type 0 where
  pub pow_limit : ℕ
  pub is_regtest : Bool
  pub asert_anchor_height : ℕ
  pub pow_target_spacing : ℕ
  pub asert_half_life : ℕ
  pub random_x_epoch_duration : ℕ
  pub hash_genesis_block : Hash
  pub network_expiration_interval : ℕ
  pub minimum_chain_work : ℕ

-- nTimeDiff is the difference of two uint32_t, which wraps.
abbrev pub time_diff_of : ℕ → ℕ → ℕ
time_diff_of time anchor_time = (time + 2 ^ 32 - anchor_time) % 2 ^ 32

unfoldable pub get_next_work_required : ConsensusParams → Index → Option Hash → Option ℕ
unfolding calculate_asert get_compact get_ancestor set_compact
get_next_work_required params m none = some (get_compact params.pow_limit)
get_next_work_required params m (some b) = elim (lookup b m) [
  | none ↦ none
  | some prev ↦
      if params.is_regtest || ltb prev.height params.asert_anchor_height
      then some (get_compact params.pow_limit)
      else elim (get_ancestor m b params.asert_anchor_height) [
        | none ↦ none
        | some a ↦ elim (lookup a m) [
          | none ↦ none
          | some anchor ↦
              elim (calculate_asert (set_compact anchor.bits).target params.pow_target_spacing
                (time_diff_of prev.time anchor.time) (prev.height - params.asert_anchor_height)
                params.pow_limit params.asert_half_life) [
                  | none ↦ none
                  | some target ↦ some (get_compact target)
                ]
        ]
      ]
]
