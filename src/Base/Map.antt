-- ===== src/Base/Map.antt =====
-- std::map as an association list in iteration order. Keys come with their equality and with the
-- container's comparator, which only decides where a new key is placed.
use mathlib.Core.Path.{◌≡◌, refl, ◌∙◌}
use mathlib.Core.Logic.{◌↔◌, inl, inr}
use mathlib.Core.Bool.{Bool, true, false, not, ◌&&◌, ◌||◌}
use mathlib.Core.List.{List, [], ◌∷◌}
use mathlib.Core.Option.{Option, none, some}
use Prim.Native.Nat.{ℕ, ◌+◌, ◌≤◌, ◌<◌}
use native.Mathlib.Omega.{arith}
use coinbasechain.Base.Tests.{if◌then◌else◌, Bool-cases, ◌==◌, ==_iff, ltb}
use coinbasechain.Base.Lists.{length, keep, count_if, All}

pub record Key (K : Type 0) : Type 0 where
  pub beq : K → K → Bool
  pub beq_iff : (a b : K) → (beq a b ≡ true) ↔ (a ≡ b)
  pub less : K → K → Bool

instance abbrev pub nat_key : Key ℕ
nat_key = record { beq = λ a b. a == b; beq_iff = ==_iff; less = λ a b. ltb a b }

-- Byte arrays and strings: equality, and the order of memcmp and of std::string.
unfoldable pub bytes_eq : List ℕ → List ℕ → Bool
bytes_eq [] [] = true
bytes_eq [] (y ∷ ys) = false
bytes_eq (x ∷ xs) [] = false
bytes_eq (x ∷ xs) (y ∷ ys) = x == y && bytes_eq xs ys

unfoldable pub bytes_less : List ℕ → List ℕ → Bool
bytes_less xs [] = false
bytes_less [] (y ∷ ys) = true
bytes_less (x ∷ xs) (y ∷ ys) =
    let rest = bytes_less xs ys in if ltb x y then true else if ltb y x then false else rest

bytes_eq→eq : (a b : List ℕ) → bytes_eq a b ≡ true → a ≡ b
unfolding bytes_eq
bytes_eq→eq [] [] h = refl
bytes_eq→eq [] (y ∷ ys) h = cc
bytes_eq→eq (x ∷ xs) [] h = cc
bytes_eq→eq (x ∷ xs) (y ∷ ys) h = ground (arith, bytes_eq→eq xs ys)

pub bytes_eq_refl : (a : List ℕ) → bytes_eq a a ≡ true
unfolding bytes_eq
bytes_eq_refl [] = refl
bytes_eq_refl (x ∷ xs) = ground (arith, bytes_eq_refl xs)

pub bytes_eq_iff : (a b : List ℕ) → (bytes_eq a b ≡ true) ↔ (a ≡ b)
bytes_eq_iff a b = (bytes_eq→eq a b, λ h. rw (← h) (bytes_eq_refl a))

instance abbrev pub bytes_key : Key (List ℕ)
bytes_key = record { beq = bytes_eq; beq_iff = bytes_eq_iff; less = bytes_less }

module _ {K V : Type 0} ⦃e : Key K⦄ where
  unfoldable pub has : K → List (K × V) → Bool
  has k [] = false
  has k ((j, v) ∷ m) = if e.beq j k then true else has k m

  -- m.find(k)
  unfoldable pub lookup : K → List (K × V) → Option V
  lookup k [] = none
  lookup k ((j, v) ∷ m) = if e.beq j k then some v else lookup k m

  replace : K → V → List (K × V) → List (K × V)
  replace k v [] = []
  replace k v ((j, w) ∷ m) = if e.beq j k then (j, v) ∷ m else (j, w) ∷ replace k v m

  place : K → V → List (K × V) → List (K × V)
  place k v [] = (k, v) ∷ []
  place k v ((j, w) ∷ m) = if e.less k j then (k, v) ∷ (j, w) ∷ m else (j, w) ∷ place k v m

  -- m[k] = v
  unfoldable pub insert : K → V → List (K × V) → List (K × V)
  unfolding has replace place
  insert k v m = if has k m then replace k v m else place k v m

  -- m.erase(k)
  unfoldable pub erase : K → List (K × V) → List (K × V)
  erase k [] = []
  erase k ((j, w) ∷ m) = if e.beq j k then erase k m else (j, w) ∷ erase k m

  -- No key stands twice.
  abbrev pub Distinct : List (K × V) → Type 0
  Distinct [] = Unit
  Distinct ((k, v) ∷ m) = (has k m ≡ false) × Distinct m

  pub has-lookup : (k : K) (m : List (K × V)) → has k m ≡ false → lookup k m ≡ none
  unfolding has lookup
  has-lookup k [] h = refl
  has-lookup k ((j, v) ∷ m) h = ground (arith, has-lookup k m)

  pub lookup-has : (k : K) (m : List (K × V)) {v : V} → lookup k m ≡ some v → has k m ≡ true
  unfolding has lookup
  lookup-has k [] h = cc
  lookup-has k ((j, w) ∷ m) {v} h = ground (arith, lookup-has k m {v = v})

  pub lookup-absent : (k : K) (m : List (K × V)) → lookup k m ≡ none → has k m ≡ false
  unfolding lookup has
  lookup-absent k [] h = refl
  lookup-absent k ((j, w) ∷ m) h = ground (arith, lookup-absent k m)

  lookup-replace :
      (k j : K) (v : V) (m : List (K × V))
      → lookup j (replace k v m) ≡ (if e.beq k j && has k m then some v else lookup j m)
  unfolding lookup replace has
  lookup-replace k j v [] = ground arith
  lookup-replace k j v ((i, w) ∷ m) =
      ground (arith, e.beq_iff i k, e.beq_iff i j, e.beq_iff k j, lookup-replace k j v m)

  lookup-place :
      (k j : K) (v : V) (m : List (K × V))
      → has k m ≡ false
      → lookup j (place k v m) ≡ (if e.beq k j then some v else lookup j m)
  unfolding lookup place has
  lookup-place k j v [] h = refl
  lookup-place k j v ((i, w) ∷ m) h =
      ground (arith, e.beq_iff i k, e.beq_iff i j, e.beq_iff k j, lookup-place k j v m)

  pub lookup-insert :
      (k j : K) (v : V) (m : List (K × V))
      → lookup j (insert k v m) ≡ (if e.beq k j then some v else lookup j m)
  unfolding insert
  lookup-insert k j v m = elim (Bool-cases (has k m)) [
    | inl old ↦ rw old (lookup-replace k j v m ∙ ground arith)
    | inr new ↦ rw new (lookup-place k j v m new)
  ]

  pub lookup-erase :
      (k j : K) (m : List (K × V)) → lookup j (erase k m) ≡ (if e.beq k j then none else lookup j m)
  unfolding lookup erase
  lookup-erase k j [] = ground arith
  lookup-erase k j ((i, w) ∷ m) =
      ground (arith, e.beq_iff i k, e.beq_iff i j, e.beq_iff k j, lookup-erase k j m)

  has-place : (k j : K) (v : V) (m : List (K × V)) → has j (place k v m) ≡ (e.beq k j || has j m)
  unfolding has place
  has-place k j v [] = ground arith
  has-place k j v ((i, w) ∷ m) = ground (arith, has-place k j v m)

  has-replace : (k j : K) (v : V) (m : List (K × V)) → has j (replace k v m) ≡ has j m
  unfolding has replace
  has-replace k j v [] = refl
  has-replace k j v ((i, w) ∷ m) = ground (arith, has-replace k j v m)

  pub has-insert :
      (k j : K) (v : V) (m : List (K × V)) → has j (insert k v m) ≡ (e.beq k j || has j m)
  unfolding insert
  has-insert k j v m = elim (Bool-cases (has k m)) [
    | inl old ↦ rw old (has-replace k j v m ∙ ground (arith, e.beq_iff k j))
    | inr new ↦ rw new (has-place k j v m)
  ]

  pub has-erase : (k j : K) (m : List (K × V)) → has j (erase k m) ≡ (not (e.beq k j) && has j m)
  unfolding has erase
  has-erase k j [] = ground arith
  has-erase k j ((i, w) ∷ m) =
      ground (arith, e.beq_iff i k, e.beq_iff i j, e.beq_iff k j, has-erase k j m)

  Distinct-place :
      (k : K) (v : V) (m : List (K × V)) → has k m ≡ false → Distinct m → Distinct (place k v m)
  unfolding has place
  Distinct-place k v [] h d = (refl, tt)
  Distinct-place k v ((i, w) ∷ m) h d =
      ground (arith, e.beq_iff i k, e.beq_iff k i, has-place k i v m, Distinct-place k v m)

  Distinct-replace : (k : K) (v : V) (m : List (K × V)) → Distinct m → Distinct (replace k v m)
  unfolding replace
  Distinct-replace k v [] d = tt
  Distinct-replace k v ((i, w) ∷ m) d = ground (arith, has-replace k i v m, Distinct-replace k v m)

  pub Distinct-insert : (k : K) (v : V) (m : List (K × V)) → Distinct m → Distinct (insert k v m)
  unfolding insert
  Distinct-insert k v m d = elim (Bool-cases (has k m)) [
    | inl old ↦ rw old (Distinct-replace k v m d)
    | inr new ↦ rw new (Distinct-place k v m new d)
  ]

  pub Distinct-erase : (k : K) (m : List (K × V)) → Distinct m → Distinct (erase k m)
  unfolding erase
  Distinct-erase k [] d = tt
  Distinct-erase k ((i, w) ∷ m) d = ground (arith, has-erase k i m, Distinct-erase k m)

  -- The loop that erases the entries which fail a test keeps the others.
  pub has-keep :
      (p : K × V → Bool) (j : K) (m : List (K × V)) → has j m ≡ false → has j (keep p m) ≡ false
  unfolding has
  has-keep p j [] h = refl
  has-keep p j ((i, w) ∷ m) h = ground (arith, has-keep p j m)

  pub Distinct-keep : (p : K × V → Bool) (m : List (K × V)) → Distinct m → Distinct (keep p m)
  Distinct-keep p [] d = tt
  Distinct-keep p ((i, w) ∷ m) d = ground (arith, has-keep p i m, Distinct-keep p m)

  pub lookup-keep :
      (p : K × V → Bool) (j : K) (m : List (K × V))
      → Distinct m
      → lookup j (keep p m)
        ≡ (elim (lookup j m) [ none ↦ none | some v ↦ if p (j, v) then some v else none ])
  unfolding lookup has
  lookup-keep p j [] d = refl
  lookup-keep p j ((i, w) ∷ m) d = ground (
    arith,
    e.beq_iff i j,
    has-lookup j m,
    has-keep p j m,
    has-lookup j (keep p m),
    lookup-keep p j m,
  )

  length-place : (k : K) (v : V) (m : List (K × V)) → length (place k v m) ≡ length m + 1
  unfolding place
  length-place k v [] = omega arith
  length-place k v ((i, w) ∷ m) = ground (arith, length-place k v m)

  length-replace : (k : K) (v : V) (m : List (K × V)) → length (replace k v m) ≡ length m
  unfolding replace
  length-replace k v [] = refl
  length-replace k v ((i, w) ∷ m) = ground (arith, length-replace k v m)

  pub length-insert :
      (k : K) (v : V) (m : List (K × V))
      → length (insert k v m) ≡ (if has k m then length m else length m + 1)
  unfolding insert
  length-insert k v m = elim (Bool-cases (has k m)) [
    | inl old ↦ rw old (length-replace k v m)
    | inr new ↦ rw new (length-place k v m)
  ]

  erase_fresh : (k : K) (m : List (K × V)) → has k m ≡ false → erase k m ≡ m
  unfolding has erase
  erase_fresh k [] h = refl
  erase_fresh k ((i, w) ∷ m) h = ground (arith, erase_fresh k m)

  length-erase-le : (k : K) (m : List (K × V)) → length (erase k m) ≤ length m
  unfolding erase
  length-erase-le k [] = omega arith
  length-erase-le k ((i, w) ∷ m) = ground (arith, length-erase-le k m)

  pub length-erase-lt : (k : K) (m : List (K × V)) → has k m ≡ true → length (erase k m) < length m
  unfolding has erase
  length-erase-lt k [] h = cc
  length-erase-lt k ((i, w) ∷ m) h = ground (arith, length-erase-le k m, length-erase-lt k m)

  pub length-erase :
      (k : K) (m : List (K × V)) → Distinct m → has k m ≡ true → length (erase k m) + 1 ≡ length m
  unfolding has erase
  length-erase k [] d h = cc
  length-erase k ((i, w) ∷ m) d h = ground (arith, e.beq_iff i k, erase_fresh k m, length-erase k m)

  -- Counting entries by their value, as a map changes.
  module _ (p : V → Bool) where
    abbrev pub count : List (K × V) → ℕ
    count m = count_if (λ kv. p kv.1) m

    count-place :
        (k : K) (v : V) (m : List (K × V))
        → count (place k v m) ≡ (if p v then count m + 1 else count m)
    unfolding place
    count-place k v [] = ground arith
    count-place k v ((i, w) ∷ m) = ground (arith, count-place k v m)

    pub count-insert_new :
        (k : K) (v : V) (m : List (K × V))
        → has k m ≡ false
        → count (insert k v m) ≡ (if p v then count m + 1 else count m)
    unfolding insert
    count-insert_new k v m h = rw h (count-place k v m)

    pub count-erase :
        (k : K) (m : List (K × V)) (v : V)
        → Distinct m
        → lookup k m ≡ some v
        → count m ≡ (if p v then count (erase k m) + 1 else count (erase k m))
    unfolding lookup erase has
    count-erase k [] v d h = cc
    count-erase k ((i, w) ∷ m) v d h =
        ground (arith, e.beq_iff i k, erase_fresh k m, count-erase k m v)

  -- Every entry of a map is what its key finds.
  listed_below :
      (k : K) (v : V) (m all : List (K × V))
      → has k m ≡ false
      → All (λ x. lookup x.0 all ≡ some x.1) m
      → All (λ x. lookup x.0 ((k, v) ∷ all) ≡ some x.1) m
  unfolding lookup has
  listed_below k v [] all h a = tt
  listed_below k v ((i, w) ∷ m) all h a =
      ground (arith, e.beq_iff k i, e.beq_iff i k, listed_below k v m all)

  pub Distinct-listed : (m : List (K × V)) → Distinct m → All (λ x. lookup x.0 m ≡ some x.1) m
  unfolding lookup
  Distinct-listed [] d = tt
  Distinct-listed ((k, v) ∷ m) d =
      (ground (arith, e.beq_iff k k), listed_below k v m m d.0 (Distinct-listed m d.1))

  erase-place : (k : K) (v : V) (m : List (K × V)) → has k m ≡ false → erase k (place k v m) ≡ m
  unfolding has erase place
  erase-place k v [] h = ground (arith, e.beq_iff k k)
  erase-place k v ((i, w) ∷ m) h = ground (arith, e.beq_iff k k, erase_fresh k m, erase-place k v m)

  -- Erasing what was just put in gives the map back.
  pub erase-insert_new :
      (k : K) (v : V) (m : List (K × V)) → has k m ≡ false → erase k (insert k v m) ≡ m
  unfolding insert
  erase-insert_new k v m h = rw h (erase-place k v m h)
