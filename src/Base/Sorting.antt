-- ===== src/Base/Sorting.antt =====
-- std::sort on numbers, and what stands in the middle of a sorted list.
use coinbasechain.Base.Tests.{ltb, if◌then◌else◌, if_elim}
use coinbasechain.Base.Lists.{length, get_elem?, count_if, count_if-le, All, All-map}
use Prim.Native.Nat.{ℕ, zero, suc, ◌+◌, ◌<◌, ◌≤◌}
use mathlib.Core.Path.{◌≡◌, refl, ◌∙◌}
use mathlib.Core.Bool.{Bool, false}
use mathlib.Core.List.{List, [], ◌∷◌}
use mathlib.Core.Option.{some}
use native.Mathlib.Omega.{arith}

unfoldable pub insert_sorted : ℕ → List ℕ → List ℕ
insert_sorted x [] = x ∷ []
insert_sorted x (y ∷ ys) = if ltb y x then y ∷ insert_sorted x ys else x ∷ y ∷ ys

unfoldable pub sort : List ℕ → List ℕ
unfolding insert_sorted
sort [] = []
sort (x ∷ xs) = insert_sorted x (sort xs)

abbrev pub IsAscending : List ℕ → Type 0
IsAscending [] = Unit
IsAscending (x ∷ xs) = All (λ y. x ≤ y) xs × IsAscending xs

all-insert_sorted :
    (P : ℕ → Type 0) (x : ℕ) (ys : List ℕ) → P x → All P ys → All P (insert_sorted x ys)
unfolding insert_sorted
all-insert_sorted P x [] h all = (h, tt)
all-insert_sorted P x (y ∷ ys) h all = ground (arith, all-insert_sorted P x ys h all.1)

insert_sorted-IsAscending :
    (x : ℕ) (ys : List ℕ) → IsAscending ys → IsAscending (insert_sorted x ys)
unfolding insert_sorted
insert_sorted-IsAscending x [] h = (tt, tt)
insert_sorted-IsAscending x (y ∷ ys) h =
    if_elim IsAscending (ltb y x)
      (λ after. (
        all-insert_sorted (λ z. y ≤ z) x ys (ground arith) h.0,
        insert_sorted-IsAscending x ys h.1,
      ))
      (λ here. ((ground arith, All-map (λ z k. (ground arith)) ys h.0), h))

pub sort-IsAscending : (xs : List ℕ) → IsAscending (sort xs)
unfolding sort
sort-IsAscending [] = tt
sort-IsAscending (x ∷ xs) = insert_sorted-IsAscending x (sort xs) (sort-IsAscending xs)

count_if-insert_sorted :
    (p : ℕ → Bool) (x : ℕ) (ys : List ℕ) → count_if p (insert_sorted x ys) ≡ count_if p (x ∷ ys)
unfolding insert_sorted
count_if-insert_sorted p x [] = refl
count_if-insert_sorted p x (y ∷ ys) = ground (arith, count_if-insert_sorted p x ys)

-- Sorting keeps how often each thing occurs, so also the length.
pub count_if-sort : (p : ℕ → Bool) (xs : List ℕ) → count_if p (sort xs) ≡ count_if p xs
unfolding sort
count_if-sort p [] = refl
count_if-sort p (x ∷ xs) = count_if-insert_sorted p x (sort xs) ∙ ground (arith, count_if-sort p xs)

length-insert_sorted : (x : ℕ) (ys : List ℕ) → length (insert_sorted x ys) ≡ suc (length ys)
unfolding insert_sorted
length-insert_sorted x [] = refl
length-insert_sorted x (y ∷ ys) = ground (arith, length-insert_sorted x ys)

pub length-sort : (xs : List ℕ) → length (sort xs) ≡ length xs
unfolding sort
length-sort [] = refl
length-sort (x ∷ xs) = omega (arith, length-insert_sorted x (sort xs), length-sort xs)

count_if-none : (p : ℕ → Bool) (xs : List ℕ) → All (λ y. p y ≡ false) xs → count_if p xs ≡ 0
count_if-none p [] all = refl
count_if-none p (x ∷ xs) all = ground (arith, count_if-none p xs all.1)

all-get_elem? : (P : ℕ → Type 0) (xs : List ℕ) (k v : ℕ) → All P xs → get_elem? xs k ≡ some v → P v
all-get_elem? P [] k v all e = cc
all-get_elem? P (x ∷ xs) zero v all e = let same : x ≡ v = cc in rw (← same) (all.0)
all-get_elem? P (x ∷ xs) (suc k) v all e = all-get_elem? P xs k v all.1 e

-- At most k elements of a sorted list are below the one at position k, and at most those behind it
-- are above.
pub ranks :
    (xs : List ℕ) (k v : ℕ)
    → IsAscending xs
    → get_elem? xs k ≡ some v
    → (count_if (λ x. ltb x v) xs ≤ k) × (count_if (λ x. ltb v x) xs + k + 1 ≤ length xs)
ranks [] k v h e = cc
ranks (x ∷ xs) zero v h e =
    let same : x ≡ v = cc in
    let low : count_if (λ x. ltb x v) xs ≡ 0 =
      count_if-none (λ x. ltb x v) xs (All-map (λ y k. ground arith) xs h.0) in
    let high = count_if-le (λ x. ltb v x) xs in ground arith
ranks (x ∷ xs) (suc k) v h e =
    let below : x ≤ v = all-get_elem? (λ y. x ≤ y) xs k v h.0 e in
    ground (arith, ranks xs k v h.1 e)

pub count_if_below_mono :
    (a b : ℕ) (xs : List ℕ) → a ≤ b → count_if (λ x. ltb x a) xs ≤ count_if (λ x. ltb x b) xs
count_if_below_mono a b [] h = omega arith
count_if_below_mono a b (x ∷ xs) h = ground (arith, count_if_below_mono a b xs h)

-- Everything is below a bound or above a lower one.
pub below_or_above :
    (v b : ℕ) (xs : List ℕ)
    → v < b
    → length xs ≤ count_if (λ x. ltb x b) xs + count_if (λ x. ltb v x) xs
below_or_above v b [] h = omega arith
below_or_above v b (x ∷ xs) h = ground (arith, below_or_above v b xs h)

pub get_elem?-inside : (xs : List ℕ) (k : ℕ) → k < length xs → (v : ℕ) × (get_elem? xs k ≡ some v)
get_elem?-inside [] k h = absurd (omega arith)
get_elem?-inside (x ∷ xs) zero h = (x, refl)
get_elem?-inside (x ∷ xs) (suc k) h = get_elem?-inside xs k (omega arith)
