-- ===== src/Base/Order.antt =====
-- The order of byte strings is a strict total order.
use coinbasechain.Base.Map.{bytes_less}
use Prim.Native.Nat.{ℕ}
use mathlib.Core.Path.{◌≡◌, refl}
use mathlib.Core.Bool.{true, false}
use mathlib.Core.List.{List, [], ◌∷◌}
use native.Mathlib.Omega.{arith}

pub bytes_less_irrefl : (a : List ℕ) → bytes_less a a ≡ false
unfolding bytes_less
bytes_less_irrefl [] = refl
bytes_less_irrefl (x ∷ xs) = ground (arith, bytes_less_irrefl xs)

pub bytes_less_trans :
    (a b c : List ℕ) → bytes_less a b ≡ true → bytes_less b c ≡ true → bytes_less a c ≡ true
unfolding bytes_less
bytes_less_trans a [] c h k = ground arith
bytes_less_trans a (y ∷ ys) [] h k = k
bytes_less_trans [] (y ∷ ys) (z ∷ zs) h k = refl
bytes_less_trans (x ∷ xs) (y ∷ ys) (z ∷ zs) h k = ground (arith, bytes_less_trans xs ys zs)

pub bytes_less_total : (a b : List ℕ) → bytes_less a b ≡ false → bytes_less b a ≡ false → a ≡ b
unfolding bytes_less
bytes_less_total [] [] h k = refl
bytes_less_total [] (y ∷ ys) h k = ground arith
bytes_less_total (x ∷ xs) [] h k = ground arith
bytes_less_total (x ∷ xs) (y ∷ ys) h k = ground (arith, bytes_less_total xs ys)
