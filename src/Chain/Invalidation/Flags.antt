-- ===== src/Chain/Invalidation/Flags.antt =====
-- The flags that InvalidateBlock sets and clears, bit by bit.
use coinbasechain.Base.{
  ℕ, ◌+◌, ◌-◌, ◌≡◌, ◌≢◌, ◌⊎◌, inl, inr, refl, arith, true, Bool-cases, ◌==◌, bit_and, if◌then◌else◌,
}
use coinbasechain.Base.Bits.{bit_and-32, bit_and-64, bit_and-96}
use coinbasechain.Chain.Index.{BlockIndex, block_failed_valid, block_failed_child, is_failed}
use coinbasechain.Chain.Invalidation.{failed_valid_status, failed_child_status}

-- The old status with the bit of an invalid block.
abbrev pub FailedValid : ℕ → ℕ → Type 0
FailedValid old status =
    (bit_and status block_failed_valid ≡ block_failed_valid)
    × ((status ≡ old) ⊎ (status ≡ old + block_failed_valid))

-- The bit of a descendant of an invalid block, and not that of an invalid block.
abbrev pub FailedChild : ℕ → Type 0
FailedChild status =
    (bit_and status block_failed_valid ≡ 0)
    × (bit_and status block_failed_child ≡ block_failed_child)

pub failed_valid_status-FailedValid : (x : ℕ) → FailedValid x (failed_valid_status x)
failed_valid_status-FailedValid x = elim (Bool-cases (bit_and x 32 == 0)) [
  | inl clear ↦
      let zero_bit : bit_and x 32 ≡ 0 = ground arith in
      rw clear (omega (arith, bit_and-32 x, bit_and-32 (x + 32), zero_bit), inr refl)
  | inr there ↦
      let one_bit : bit_and x 32 ≢ 0 = λ e. ground arith in
      rw there (omega (arith, bit_and-32 x, one_bit), inl refl)
]

child-FailedChild :
    (y : ℕ)
    → bit_and y 32 ≡ 0
    → FailedChild (if bit_and y block_failed_child == 0 then y + block_failed_child else y)
child-FailedChild y low = elim (Bool-cases (bit_and y 64 == 0)) [
  | inl clear ↦
      let zero_bit : bit_and y 64 ≡ 0 = ground arith in
      rw clear (
        omega (arith, bit_and-32 y, bit_and-32 (y + 64), low),
        omega (arith, bit_and-64 y, bit_and-64 (y + 64), zero_bit),
      )
  | inr there ↦
      let one_bit : bit_and y 64 ≢ 0 = λ e. ground arith in
      rw there (low, omega (arith, bit_and-64 y, one_bit))
]

pub failed_child_status-FailedChild : (x : ℕ) → FailedChild (failed_child_status x)
failed_child_status-FailedChild x = elim (Bool-cases (bit_and x 32 == 0)) [
  | inl clear ↦
      let zero_bit : bit_and x 32 ≡ 0 = ground arith in rw clear (child-FailedChild x zero_bit)
  | inr there ↦
      let one_bit : bit_and x 32 ≢ 0 = λ e. ground arith in
      rw there
        (child-FailedChild (x - 32) (omega (arith, bit_and-32 x, bit_and-32 (x - 32), one_bit)))
]

pub FailedValid-is_failed :
    (old : ℕ) (e : BlockIndex) → FailedValid old e.status → is_failed e ≡ true
FailedValid-is_failed old e flags =
    let bits : bit_and e.status 96 ≢ 0 =
      omega (arith, bit_and-32 e.status, bit_and-96 e.status, flags.0) in
    ground arith

pub FailedChild-is_failed : (e : BlockIndex) → FailedChild e.status → is_failed e ≡ true
FailedChild-is_failed e flags =
    let bits : bit_and e.status 96 ≢ 0 =
      omega (arith, bit_and-64 e.status, bit_and-96 e.status, flags.1) in
    ground arith
