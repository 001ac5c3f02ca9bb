-- ===== src/Base/Endian.antt =====
-- include/chain/endian.hpp on a little-endian host: integers as byte arrays and back.
use coinbasechain.Base.Lists.{length, take, drop, All}
use Prim.Native.Nat.{ℕ, zero, suc, ◌+◌, ◌*◌, ◌/◌, ◌%◌, ◌^◌, ◌<◌}
use mathlib.Core.Path.{◌≡◌, refl, ap}
use mathlib.Core.List.{List, [], ◌∷◌, ◌++◌}
use native.Mathlib.Omega.{arith}
use native.Mathlib.Nat.{pow-suc}

-- The n low bytes of a number, least significant first.
abbrev pub le_bytes : ℕ → ℕ → List ℕ
le_bytes zero v = []
le_bytes (suc n) v = (v % 256) ∷ le_bytes n (v / 256)

abbrev pub from_le : List ℕ → ℕ
from_le [] = 0
from_le (b ∷ bs) = b + 256 * from_le bs

abbrev pub IsByte : ℕ → Type 0
IsByte b = b < 256

unfoldable pub write_le16 : ℕ → List ℕ
write_le16 v = le_bytes 2 v

unfoldable pub write_le32 : ℕ → List ℕ
write_le32 v = le_bytes 4 v

unfoldable pub write_le64 : ℕ → List ℕ
write_le64 v = le_bytes 8 v

unfoldable pub read_le16 : List ℕ → ℕ
read_le16 bs = from_le (take 2 bs)

unfoldable pub read_le32 : List ℕ → ℕ
read_le32 bs = from_le (take 4 bs)

unfoldable pub read_le64 : List ℕ → ℕ
read_le64 bs = from_le (take 8 bs)

-- Network byte order, for ports.
unfoldable pub write_be16 : ℕ → List ℕ
write_be16 v = (v / 256 % 256) ∷ (v % 256) ∷ []

unfoldable pub read_be16 : List ℕ → ℕ
read_be16 [] = 0
read_be16 (a ∷ []) = 0
read_be16 (a ∷ b ∷ bs) = a * 256 + b

pub length-le_bytes : (n v : ℕ) → length (le_bytes n v) ≡ n
length-le_bytes zero v = refl
length-le_bytes (suc n) v = ap suc (length-le_bytes n (v / 256))

pub le_bytes-IsByte : (n v : ℕ) → All IsByte (le_bytes n v)
le_bytes-IsByte zero v = tt
le_bytes-IsByte (suc n) v = (omega arith, le_bytes-IsByte n (v / 256))

pub from_le-le_bytes : (n v : ℕ) → v < 256 ^ n → from_le (le_bytes n v) ≡ v
from_le-le_bytes zero v h = omega arith
from_le-le_bytes (suc n) v h =
    omega (arith, from_le-le_bytes n (v / 256) (omega (arith, pow-suc 256 n)))

pub le_bytes-from_le : (bs : List ℕ) → All IsByte bs → le_bytes (length bs) (from_le bs) ≡ bs
le_bytes-from_le [] h = refl
le_bytes-from_le (b ∷ bs) (hb, h) =
    let low : (b + 256 * from_le bs) % 256 ≡ b = omega arith in
    let high : (b + 256 * from_le bs) / 256 ≡ from_le bs = omega arith in
    rw (low, high, le_bytes-from_le bs h)

pub from_le-lt : (bs : List ℕ) → All IsByte bs → from_le bs < 256 ^ length bs
from_le-lt [] h = omega arith
from_le-lt (b ∷ bs) (hb, h) = omega (arith, from_le-lt bs h, pow-suc 256 (length bs))

pub take-le_bytes : (n v : ℕ) (rest : List ℕ) → take n (le_bytes n v ++ rest) ≡ le_bytes n v
take-le_bytes zero v rest = refl
take-le_bytes (suc n) v rest = ap (◌∷◌ (v % 256)) (take-le_bytes n (v / 256) rest)

pub drop-le_bytes : (n v : ℕ) (rest : List ℕ) → drop n (le_bytes n v ++ rest) ≡ rest
drop-le_bytes zero v rest = refl
drop-le_bytes (suc n) v rest = drop-le_bytes n (v / 256) rest

pub read_be16-write_be16 :
    (v : ℕ) (rest : List ℕ) → v < 65536 → read_be16 (write_be16 v ++ rest) ≡ v
unfolding read_be16 write_be16
read_be16-write_be16 v rest h = omega arith
