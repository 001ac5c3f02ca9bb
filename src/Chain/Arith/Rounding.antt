-- ===== src/Chain/Arith/Rounding.antt =====
-- What the compact form keeps of a target.
use native.Mathlib.Nat.{
  pow-le-pow_right, le_trans, lt_of_le_of_lt, lt_of_lt_of_le, div-lt_iff_lt-mul, le-div_iff_mul-le,
  div-div-eq-div-mul, div-mul-le_self, one-le-pow, two-pow-succ,
}
use coinbasechain.Base.{
  ℕ, zero, suc, ◌+◌, ◌-◌, ◌*◌, ◌/◌, ◌%◌, ◌^◌, ◌<◌, ◌≤◌, ◌≡◌, ◌≢◌, ◌⊎◌, refl, ◌∙◌, arith, false, leb,
  ◌==◌, if◌then◌else◌, if_elim, leb→le, leb-false, Bool-cases, inl, inr,
}
use coinbasechain.Chain.Arith.{
  set_compact, get_compact, bits_from, byte_size, mantissa, word_of, size_of,
}
use coinbasechain.Chain.Arith.Overflow.{value, set_compact-overflow}

pub pow_add : (a b : ℕ) → 2 ^ (a + b) ≡ 2 ^ a * 2 ^ b
pow_add a zero = let same : a + 0 ≡ a = omega arith in rw same (omega arith)
pow_add a (suc b) =
    let left : 2 ^ (a + suc b) ≡ 2 ^ (a + b) + 2 ^ (a + b) =
      (let n : a + suc b ≡ suc (a + b) = omega arith in rw n (two-pow-succ (a + b))) in
    let right : 2 ^ suc b ≡ 2 ^ b + 2 ^ b = two-pow-succ b in
    rw (left, right, pow_add a b) (grind arith)

pub pow_pos : (a : ℕ) → 1 ≤ 2 ^ a
pow_pos a = one-le-pow a 2 (omega arith)

bits_from-bounds :
    (n v : ℕ)
    → v < 2 ^ n
    → (bits_from n v ≤ n)
      × (v < 2 ^ bits_from n v)
      × (v ≢ 0 → (1 ≤ bits_from n v) × (2 ^ (bits_from n v - 1) ≤ v))
unfolding bits_from
bits_from-bounds zero v h = (omega arith, h, λ some. absurd (some (omega arith)))
bits_from-bounds (suc n) v h =
    let same : suc n - 1 ≡ n = omega arith in
    if_elim Bounds (leb (2 ^ n) v)
      (λ top. (omega arith, h, λ _. (omega arith, rw same (leb→le (2 ^ n) v top))))
      (λ low. let (b, lt, top) = bits_from-bounds n v (ground arith) in (omega arith, lt, top))
  where
    Bounds : ℕ → Type 0
    Bounds b = (b ≤ suc n) × (v < 2 ^ b) × (v ≢ 0 → (1 ≤ b) × (2 ^ (b - 1) ≤ v))

-- The size in bytes is the least.
byte_size-bounds :
    (v : ℕ)
    → v < 2 ^ 256
    → (byte_size v ≤ 32)
      × (v < 2 ^ (8 * byte_size v))
      × (v ≢ 0 → (1 ≤ byte_size v) × (2 ^ (8 * (byte_size v - 1)) ≤ v))
byte_size-bounds v h =
    let (most, lt, low) = bits_from-bounds 256 v h in
    (
      omega arith,
      lt_of_lt_of_le lt (
          pow-le-pow_right (omega arith) {i = bits_from 256 v} {j = 8 * byte_size v} (omega arith)),
      λ some.
          let (b, le) = low some in
          (
            omega arith,
            le_trans
                (pow-le-pow_right (omega arith) {i = 8 * (byte_size v - 1)}
                  {j = bits_from 256 v - 1} (omega arith))
                le,
          ),
    )

-- The mantissa before the sign bit is looked at, at a size s.
short_mantissa :
    (s v : ℕ)
    → s ≤ 3
    → 1 ≤ s
    → v < 2 ^ (8 * s)
    → 2 ^ (8 * (s - 1)) ≤ v
    → (v % 2 ^ 64 * 2 ^ (8 * (3 - s)) % 2 ^ 32 ≡ v * 2 ^ (8 * (3 - s)))
      × (v * 2 ^ (8 * (3 - s)) < 2 ^ 24)
      × (2 ^ 16 ≤ v * 2 ^ (8 * (3 - s)))
short_mantissa zero v a b h k = absurd (omega arith)
short_mantissa (suc zero) v a b h k = (omega arith, omega arith, omega arith)
short_mantissa (suc (suc zero)) v a b h k = (omega arith, omega arith, omega arith)
short_mantissa (suc (suc (suc zero))) v a b h k = (omega arith, omega arith, omega arith)
short_mantissa (suc (suc (suc (suc s)))) v a b h k = absurd (omega arith)

long_mantissa :
    (s v : ℕ)
    → 4 ≤ s
    → v < 2 ^ (8 * s)
    → 2 ^ (8 * (s - 1)) ≤ v
    → (v / 2 ^ (8 * (s - 3)) < 2 ^ 24) × (2 ^ 16 ≤ v / 2 ^ (8 * (s - 3)))
long_mantissa s v a h k =
    let upper : 2 ^ (8 * s) ≡ 2 ^ 24 * 2 ^ (8 * (s - 3)) =
      (let n : 8 * s ≡ 24 + 8 * (s - 3) = omega arith in rw n (pow_add 24 (8 * (s - 3)))) in
    let lower : 2 ^ (8 * (s - 1)) ≡ 2 ^ 16 * 2 ^ (8 * (s - 3)) =
      (let n : 8 * (s - 1) ≡ 16 + 8 * (s - 3) = omega arith in rw n (pow_add 16 (8 * (s - 3)))) in
    (
      (div-lt_iff_lt-mul (pow_pos (8 * (s - 3)))).1 (rw upper at (h)),
      (le-div_iff_mul-le (pow_pos (8 * (s - 3)))).1 (rw lower at (k)),
    )

-- What a size and a word of 23 bits stand for once they are one compact number.
abbrev pub Reads : ℕ → ℕ → Type 0
Reads compact t =
    let c = set_compact compact in (c.target ≡ t) × (c.negative ≡ false) × (c.overflow ≡ false)

positive : (compact : ℕ) → compact / 2 ^ 23 % 2 ≡ 0 → (set_compact compact).negative ≡ false
unfolding set_compact
positive compact h = ground arith

set_compact_parts :
    (s word t : ℕ)
    → word < 2 ^ 23
    → value s (if leb s 3 then word / 2 ^ (8 * (3 - s)) else word) ≡ t
    → t < 2 ^ 256
    → Reads (word + s * 2 ^ 24) t
set_compact_parts s word t h v k =
    let c = word + s * 2 ^ 24 in
    let size : c / 2 ^ 24 ≡ s = omega arith in
    let low : c % 2 ^ 23 ≡ word = omega arith in
    let meant : value (size_of c) (word_of c) ≡ t = rw (size, low) v in
    let (fits, exact) = set_compact-overflow c in
    let no_overflow = fits.1 (rw meant k) in
    (exact no_overflow ∙ meant, positive c (omega arith), no_overflow)

zero_case : (v : ℕ) → v ≡ 0 → Reads (get_compact v) (v / 2 ^ (8 * 0) * 2 ^ (8 * 0))
unfolding get_compact set_compact bits_from
zero_case v e = rw e (refl, refl, refl)

module _ (v : ℕ) (h : v < 2 ^ 256) where
  -- What is left of v without its k lowest bytes.
  abbrev pub Rounded : ℕ → ℕ → Type 0
  Rounded compact k =
      Reads compact (v / 2 ^ (8 * k) * 2 ^ (8 * k)) × ((k ≡ 0) ⊎ (2 ^ 15 ≤ v / 2 ^ (8 * k)))

  rounded-lt : (k : ℕ) → v / 2 ^ (8 * k) * 2 ^ (8 * k) < 2 ^ 256
  rounded-lt k = lt_of_le_of_lt (div-mul-le_self v (2 ^ (8 * k))) h

  zero_bytes : v / 2 ^ (8 * 0) * 2 ^ (8 * 0) ≡ v
  zero_bytes = omega arith

  -- A size and a word that stand for what is left of v without its k lowest bytes.
  abbrev Stands : ℕ → ℕ → Type 0
  Stands s word =
      (k : ℕ) × (value s (if leb s 3 then word / 2 ^ (8 * (3 - s)) else word)
        ≡ v / 2 ^ (8 * k) * 2 ^ (8 * k))
      × ((k ≡ 0) ⊎ (2 ^ 15 ≤ v / 2 ^ (8 * k)))

  abbrev with_sign : ℕ → ℕ → ℕ
  with_sign m s = if m / 2 ^ 23 % 2 == 1 then m / 2 ^ 8 + (s + 1) * 2 ^ 24 else m + s * 2 ^ 24

  with_sign-Rounded :
      (m s : ℕ)
      → m < 2 ^ 24
      → (m < 2 ^ 23 → Stands s m)
      → (2 ^ 23 ≤ m → Stands (s + 1) (m / 2 ^ 8))
      → (k : ℕ) × Rounded (with_sign m s) k
  with_sign-Rounded m s small plain signed =
      if_elim {A = ℕ} (λ c. (k : ℕ) × Rounded c k) (m / 2 ^ 23 % 2 == 1)
        (λ on.
          let (k, stands, precise) = signed (ground arith) in
          (
            k,
            (
              set_compact_parts (s + 1) (m / 2 ^ 8) (v / 2 ^ (8 * k) * 2 ^ (8 * k)) (omega arith)
                  stands (rounded-lt k),
              precise,
            ),
          ))
        (λ off.
          let (k, stands, precise) = plain (ground arith) in
          (
            k,
            (
              set_compact_parts s m (v / 2 ^ (8 * k) * 2 ^ (8 * k)) (ground arith) stands
                  (rounded-lt k),
              precise,
            ),
          ))

  short_compact :
      (s : ℕ)
      → 1 ≤ s
      → s ≤ 3
      → v < 2 ^ (8 * s)
      → (k : ℕ) × Rounded (with_sign (v * 2 ^ (8 * (3 - s))) s) k
  short_compact zero a b lt = absurd (omega arith)
  short_compact (suc zero) a b lt =
      with_sign-Rounded (v * 2 ^ 16) 1 (omega arith) (λ _. (0, omega arith, inl refl))
        (λ _. (0, omega arith, inl refl))
  short_compact (suc (suc zero)) a b lt =
      with_sign-Rounded (v * 2 ^ 8) 2 (omega arith) (λ _. (0, omega arith, inl refl))
        (λ _. (0, omega arith, inl refl))
  short_compact (suc (suc (suc zero))) a b lt =
      with_sign-Rounded (v * 2 ^ 0) 3 (omega arith) (λ _. (0, omega arith, inl refl))
        (λ big. (1, omega arith, inr (omega arith)))
  short_compact (suc (suc (suc (suc s)))) a b lt = absurd (omega arith)

  long_compact :
      (s : ℕ)
      → 4 ≤ s
      → v < 2 ^ (8 * s)
      → 2 ^ (8 * (s - 1)) ≤ v
      → (k : ℕ) × Rounded (with_sign (v / 2 ^ (8 * (s - 3))) s) k
  long_compact s a lt le =
      let (small, big) = long_mantissa s v a lt le in
      let next : 8 * (s + 1 - 3) ≡ 8 * (s - 3) + 8 = omega arith in
      let power : 2 ^ (8 * (s + 1 - 3)) ≡ 2 ^ (8 * (s - 3)) * 2 ^ 8 =
        rw next (pow_add (8 * (s - 3)) 8) in
      let divided : v / 2 ^ (8 * (s - 3)) / 2 ^ 8 ≡ v / 2 ^ (8 * (s + 1 - 3)) =
        rw power (div-div-eq-div-mul v (2 ^ (8 * (s - 3))) (2 ^ 8)) in
      with_sign-Rounded (v / 2 ^ (8 * (s - 3))) s small
        (λ _. (s - 3, ground arith, inr (omega arith)))
        (λ on. (s + 1 - 3, ground (arith, divided), inr (omega (arith, divided))))

  -- A target of 256 bits keeps, in its compact form, all but its lowest bytes: it is either exact or
  -- has at least 16 significant bits, is never larger, and is neither negative nor too large.
  pub set_compact-get_compact : (k : ℕ) × Rounded (get_compact v) k
  unfolding get_compact
  set_compact-get_compact = elim (Bool-cases (v == 0)) [
    | inl z ↦ let e : v ≡ 0 = ground arith in (0, (zero_case v e, inl refl))
    | inr some ↦
        let (most, lt, low) = byte_size-bounds v h in
        let (least, le) = low (ground arith) in
        elim (Bool-cases (leb (byte_size v) 3)) [
          | inl short ↦
              let (m, _, _) =
                short_mantissa (byte_size v) v (leb→le (byte_size v) 3 short) least lt le in
              let mant : mantissa v ≡ v * 2 ^ (8 * (3 - byte_size v)) = rw short m in
              rw mant (short_compact (byte_size v) least (leb→le (byte_size v) 3 short) lt)
          | inr long ↦
              let four : 4 ≤ byte_size v = leb-false (byte_size v) 3 long in
              let (small, _) = long_mantissa (byte_size v) v four lt le in
              let mant : mantissa v ≡ v / 2 ^ (8 * (byte_size v - 3)) = rw long (omega arith) in
              rw mant (long_compact (byte_size v) four lt le)
        ]
  ]
