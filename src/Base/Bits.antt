-- ===== src/Base/Bits.antt =====
-- Bounds of the bitwise operations on the native numbers, and what some masks keep.
use Prim.Native.Nat.{ℕ, zero, suc, ◌+◌, ◌*◌, ◌/◌, ◌%◌, ◌≤◌, min, digits, bit_and, bit_and-bitwise}
use mathlib.Core.Path.{◌≡◌, refl}
use native.Mathlib.Omega.{arith}

digits-le : (n a b : ℕ) → (digits (λ b. zero) min n a b ≤ a) × (digits (λ b. zero) min n a b ≤ b)
digits-le zero a b = (omega arith, omega arith)
digits-le (suc n) zero b = (omega arith, omega arith)
digits-le (suc n) (suc a) b =
    let (h, k) = digits-le n (suc a / 2) (b / 2) in (omega arith, omega arith)

pub bit_and-le_left : (a b : ℕ) → bit_and a b ≤ a
bit_and-le_left a b = simp bit_and-bitwise ((digits-le a a b).0)

pub bit_and-le_right : (a b : ℕ) → bit_and a b ≤ b
bit_and-le_right a b = simp bit_and-bitwise ((digits-le a a b).1)

-- What the law of digits gives for `and` with a mask, with any fuel that is enough.
abbrev Masks : ℕ → (ℕ → ℕ) → Type 0
Masks b f = (n a : ℕ) → a ≤ n → digits (λ b. zero) min n a b ≡ f a

Masks-zero : Masks 0 (λ a. 0)
Masks-zero zero a low = omega arith
Masks-zero (suc n) zero low = refl
Masks-zero (suc n) (suc a) low = omega (arith, Masks-zero n (suc a / 2) (omega arith))

-- The mask one place further to the left, with a one or a zero behind it.
Masks-one : (b : ℕ) (f : ℕ → ℕ) → Masks b f → Masks (b * 2 + 1) (λ a. f (a / 2) * 2 + a % 2)
Masks-one b f masks zero zero low = omega (arith, masks 0 0 (omega arith))
Masks-one b f masks zero (suc a) low = absurd (omega arith)
Masks-one b f masks (suc n) zero low = omega (arith, masks 0 0 (omega arith))
Masks-one b f masks (suc n) (suc a) low =
    let half : (b * 2 + 1) / 2 ≡ b = omega arith in
    rw half (omega (arith, masks n (suc a / 2) (omega arith)))

Masks-shift : (b : ℕ) (f : ℕ → ℕ) → Masks b f → Masks (b * 2) (λ a. f (a / 2) * 2)
Masks-shift b f masks zero zero low = omega (arith, masks 0 0 (omega arith))
Masks-shift b f masks zero (suc a) low = absurd (omega arith)
Masks-shift b f masks (suc n) zero low = omega (arith, masks 0 0 (omega arith))
Masks-shift b f masks (suc n) (suc a) low =
    let half : b * 2 / 2 ≡ b = omega arith in
    rw half (omega (arith, masks n (suc a / 2) (omega arith)))

Masks-32 : Masks 32 (λ a. a / 32 % 2 * 32)
Masks-32 n a low =
    let masks_8 =
      Masks-shift 4 _ (Masks-shift 2 _ (Masks-shift 1 _ (Masks-one 0 (λ a. 0) Masks-zero))) in
    omega (arith, Masks-shift 16 _ (Masks-shift 8 _ masks_8) n a low)

Masks-48 : Masks 48 (λ a. a / 16 % 4 * 16)
Masks-48 n a low =
    let masks_6 = Masks-shift 3 _ (Masks-one 1 _ (Masks-one 0 (λ a. 0) Masks-zero)) in
    omega (arith, Masks-shift 24 _ (Masks-shift 12 _ (Masks-shift 6 _ masks_6)) n a low)

pub bit_and-32 : (a : ℕ) → bit_and a 32 ≡ a / 32 % 2 * 32
bit_and-32 a = omega (arith, bit_and-bitwise a 32, Masks-32 a a (omega arith))

pub bit_and-64 : (a : ℕ) → bit_and a 64 ≡ a / 64 % 2 * 64
bit_and-64 a = omega (arith, bit_and-bitwise a 64, Masks-shift 32 _ Masks-32 a a (omega arith))

pub bit_and-96 : (a : ℕ) → bit_and a 96 ≡ a / 32 % 4 * 32
bit_and-96 a = omega (arith, bit_and-bitwise a 96, Masks-shift 48 _ Masks-48 a a (omega arith))
