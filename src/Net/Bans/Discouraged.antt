-- ===== src/Net/Bans/Discouraged.antt =====
-- The discouraged addresses and their cap.
use coinbasechain.Base.{
  ℕ, ◌+◌, ◌-◌, ◌≤◌, ◌<◌, ◌≡◌, refl, arith, Bool, true, false, not, Option, none, some, List, [],
  ◌∷◌, ltb, leb, if◌then◌else◌, length, length-keep-le, All, if_elim,
}
use coinbasechain.Base.Map.{
  lookup, insert, nat_key, bytes_key, bytes_eq, Distinct, Distinct-insert, Distinct-keep,
  lookup-insert, lookup-erase, lookup-keep, lookup-has, length-insert, length-erase,
  Distinct-listed,
}
use coinbasechain.Net.Bans.{
  Address, BanManager, find_victim, evict_victim, sweep_expiries, discourage, is_discouraged,
  max_discouraged, discourage_duration,
}

abbrev in_force : ℕ → Option ℕ → Bool
in_force t none = false
in_force t (some expiry) = not (leb expiry t)

is_discouraged_lem :
    (address : Address) (t : ℕ) (s : BanManager)
    → is_discouraged address t s ≡ in_force t (lookup address s.discouraged)
unfolding is_discouraged
is_discouraged_lem address t s = ground arith

find_victim-has :
    (best : Address × ℕ) (m all : List (Address × ℕ))
    → lookup best.0 all ≡ some best.1
    → All (λ x. lookup x.0 all ≡ some x.1) m
    → lookup (find_victim best m).0 all ≡ some (find_victim best m).1
unfolding find_victim
find_victim-has best [] all h a = h
find_victim-has best (x ∷ m) all h a =
    find_victim-has (if ltb x.1 best.1 then x else best) m all
      (if_elim {A = Address × ℕ} (λ x. lookup x.0 all ≡ some x.1) (ltb x.1 best.1) (λ _. a.0)
        (λ _. h))
      a.1

evict_victim-length : (m : List (Address × ℕ)) → Distinct m → length (evict_victim m) ≡ length m - 1
unfolding evict_victim
evict_victim-length [] d = refl
evict_victim-length (x ∷ m) d =
    let entries = Distinct-listed (x ∷ m) d in
    let found = find_victim-has x (x ∷ m) (x ∷ m) entries.0 entries in
    omega (
      arith,
      length-erase (find_victim x (x ∷ m)).0 (x ∷ m) d
          (lookup-has (find_victim x (x ∷ m)).0 (x ∷ m) found),
    )

-- Discourage keeps the cap, whatever was in the map.
pub discourage-length :
    (now : ℕ) (address : Address) (s : BanManager)
    → Distinct s.discouraged
    → length s.discouraged ≤ max_discouraged
    → length (discourage now address s).discouraged ≤ max_discouraged
unfolding discourage
discourage-length now address s d h =
    let added = insert address (now + discourage_duration) s.discouraged in
    let d' = Distinct-insert address (now + discourage_duration) s.discouraged d in
    let size = length-insert address (now + discourage_duration) s.discouraged in
    let left = length-keep-le (λ x. not (leb x.1 now)) added in
    ground (
      arith,
      size,
      left,
      evict_victim-length (sweep_expiries now added)
          (Distinct-keep (λ x. not (leb x.1 now)) added d'),
    )

in_force-evict :
    (address : Address) (t : ℕ) (m : List (Address × ℕ))
    → in_force t (lookup address (evict_victim m)) ≡ true
    → in_force t (lookup address m) ≡ true
unfolding evict_victim
in_force-evict address t [] h = h
in_force-evict address t (x ∷ m) h =
    ground (arith, lookup-erase (find_victim x (x ∷ m)).0 address (x ∷ m))

in_force-sweep :
    (address : Address) (now t : ℕ) (m : List (Address × ℕ))
    → Distinct m
    → now ≤ t
    → in_force t (lookup address (sweep_expiries now m)) ≡ in_force t (lookup address m)
in_force-sweep address now t m d h =
    ground (arith, lookup-keep (λ x. not (leb x.1 now)) address m d)

in_force-added :
    (address other : Address) (now t : ℕ) (s : BanManager)
    → in_force t (lookup other (insert address (now + discourage_duration) s.discouraged)) ≡ (
        if bytes_eq address other
        then ltb t (now + discourage_duration)
        else is_discouraged other t s)
in_force-added address other now t s = ground (
  arith,
  is_discouraged_lem other t s,
  lookup-insert address other (now + discourage_duration) s.discouraged,
)

-- While there is room, Discourage adds one day for its address and changes nothing else, and at the
-- cap it discourages no address that the same call would not discourage with room.
pub is_discouraged-discourage :
    (address other : Address) (now t : ℕ) (s : BanManager)
    → Distinct s.discouraged
    → now ≤ t
    → let wanted =
        if bytes_eq address other
        then ltb t (now + discourage_duration)
        else is_discouraged other t s in
      (length s.discouraged < max_discouraged
        → is_discouraged other t (discourage now address s) ≡ wanted)
      × (is_discouraged other t (discourage now address s) ≡ true → wanted ≡ true)
unfolding discourage
is_discouraged-discourage address other now t s d h =
    let added = insert address (now + discourage_duration) s.discouraged in
    let d' = Distinct-insert address (now + discourage_duration) s.discouraged d in
    let size = length-insert address (now + discourage_duration) s.discouraged in
    let answer = is_discouraged_lem other t (discourage now address s) in
    let want = in_force-added address other now t s in
    let swept = in_force-sweep other now t added d' h in
    let evicted = in_force-evict other t (sweep_expiries now added) in
    (
      λ room. ground (arith, answer, want, size),
      λ yes. ground (arith, answer, want, swept, evicted),
    )
