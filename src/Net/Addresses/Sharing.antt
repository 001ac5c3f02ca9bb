-- ===== src/Net/Addresses/Sharing.antt =====
-- What get_addresses tells a peer.
use coinbasechain.Base.{
  ℕ, ◌+◌, ◌≤◌, min, ◌≡◌, ◌⊎◌, refl, arith, Bool, true, not, ◌||◌, List, [], ◌∷◌, ◌++◌, some, leb,
  length, length-append, if_elim, count_if, All, All-map, Bool-cases, inl, inr,
}
use coinbasechain.Base.Map.{lookup, bytes_key, Distinct-listed}
use coinbasechain.Net.Wire.{TimestampedAddress}
use coinbasechain.Net.Addresses.{
  AddrKey, addr_key, AddrInfo, Table, AddressManager, is_usable, is_terrible, collect,
  get_addresses,
}
use coinbasechain.Net.Addresses.Tables.{IsTables}

-- What peers may hear of.
abbrev pub is_shareable : ℕ → AddrKey × AddrInfo → Bool
is_shareable now x = not (not (is_usable x.1.address) || is_terrible now x.1)

-- A shuffle keeps the number of the elements and what holds of all of them.
abbrev pub IsShuffle : (List TimestampedAddress → List TimestampedAddress) → Type 1
IsShuffle shuffle =
    (xs : List TimestampedAddress)
    → (length (shuffle xs) ≡ length xs)
      × ((P : TimestampedAddress → Type 0) → All P xs → All P (shuffle xs))

abbrev entry_of : AddrInfo → TimestampedAddress
entry_of i = record { timestamp = i.timestamp; address = i.address }

module _ (now max_count : ℕ) where
  length-collect :
      (t : Table) (found : List TimestampedAddress)
      → length found ≤ max_count
      → length (collect now max_count t found)
        ≡ min max_count (length found + count_if (is_shareable now) t)
  unfolding collect
  length-collect [] found low = omega arith
  length-collect (x ∷ t) found low =
      let entry = entry_of x.1 in
      elim (Bool-cases (leb max_count (length found))) [
        | inl full ↦
            let same : length found ≡ max_count = ground arith in rw full (omega (arith, same))
        | inr room ↦
            let longer : length (found ++ entry ∷ []) ≡ length found + 1 =
              length-append found (entry ∷ []) in
            let fits : length (found ++ entry ∷ []) ≤ max_count = ground (arith, longer) in
            elim (Bool-cases (not (is_usable x.1.address) || is_terrible now x.1)) [
              | inl bad ↦ rw (room, bad) (length-collect t found low)
              | inr fine ↦
                  let rest = length-collect t (found ++ entry ∷ []) fits in
                  rw (room, fine) (omega (arith, rest, longer))
            ]
      ]

  module _ (P : TimestampedAddress → Type 0) where
    all-append :
        (xs : List TimestampedAddress) (y : TimestampedAddress)
        → All P xs
        → P y
        → All P (xs ++ y ∷ [])
    all-append [] y all p = (p, tt)
    all-append (x ∷ xs) y all p = (all.0, all-append xs y all.1 p)

    all-collect :
        (t : Table) (found : List TimestampedAddress)
        → All (λ x. is_shareable now x ≡ true → P (entry_of x.1)) t
        → All P found
        → All P (collect now max_count t found)
    unfolding collect
    all-collect [] found each all = all
    all-collect (x ∷ t) found each all =
        if_elim (All P) (leb max_count (length found)) (λ _. all)
          λ _.
            if_elim (All P) (not (is_usable x.1.address) || is_terrible now x.1)
              (λ _. all-collect t found each.1 all)
              (λ fine.
                all-collect t (found ++ entry_of x.1 ∷ []) each.1
                  (all-append found (entry_of x.1) all (each.0 (ground arith))))

-- A usable address with its timestamp that stands in a table, and is not terrible.
abbrev pub Shared : ℕ → AddressManager → TimestampedAddress → Type 0
Shared now s y =
    (i : AddrInfo) × (y ≡ record { timestamp = i.timestamp; address = i.address })
    × (is_shareable now (addr_key i.address, i) ≡ true)
    × ((lookup (addr_key i.address) s.tried_table ≡ some i)
        ⊎ (lookup (addr_key i.address) s.new_table ≡ some i))

module _ (shuffle : List TimestampedAddress → List TimestampedAddress) where
  module _ (fair : IsShuffle shuffle) (now max_count : ℕ) (s : AddressManager) where
    -- get_addresses gives only usable addresses that stand in a table and are not terrible, and as many
    -- of them as there are, up to the number that is asked for; the shuffle keeps its elements.
    pub get_addresses-Shared :
        IsTables s
        → (length (get_addresses shuffle now max_count s)
            ≡ min max_count (
                count_if (is_shareable now) s.tried_table
                + count_if (is_shareable now) s.new_table))
          × All (Shared now s) (get_addresses shuffle now max_count s)
    unfolding get_addresses
    get_addresses-Shared ok =
        let tried = collect now max_count s.tried_table [] in
        let both = collect now max_count s.new_table tried in
        let first = length-collect now max_count s.tried_table [] (omega arith) in
        let total = length-collect now max_count s.new_table tried (omega (arith, first)) in
        let (same, keeps) = fair both in
        (
          omega (arith, same, first, total),
          keeps (Shared now s) (
              all-collect now max_count (Shared now s) s.new_table tried in_new
                (all-collect now max_count (Shared now s) s.tried_table [] in_tried tt)),
        )
      where
        in_tried : All (λ x. is_shareable now x ≡ true → Shared now s (entry_of x.1)) s.tried_table
        in_tried = All-map share s.tried_table (Distinct-listed s.tried_table ok.tried_distinct)
          where
            share :
                (x : AddrKey × AddrInfo)
                → lookup x.0 s.tried_table ≡ some x.1
                → is_shareable now x ≡ true
                → Shared now s (entry_of x.1)
            share x there good =
                (x.1, refl, good, inl (rw (← (ok.in_tried x.0 x.1 there).0.0) there))

        in_new : All (λ x. is_shareable now x ≡ true → Shared now s (entry_of x.1)) s.new_table
        in_new = All-map share s.new_table (Distinct-listed s.new_table ok.new_distinct)
          where
            share :
                (x : AddrKey × AddrInfo)
                → lookup x.0 s.new_table ≡ some x.1
                → is_shareable now x ≡ true
                → Shared now s (entry_of x.1)
            share x there good = (x.1, refl, good, inr (rw (← (ok.in_new x.0 x.1 there).0.0) there))
