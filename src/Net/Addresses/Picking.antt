-- ===== src/Net/Addresses/Picking.antt =====
-- What select finds.
use coinbasechain.Base.{
  ℕ, zero, suc, ◌+◌, ◌<◌, ◌≡◌, ◌⊎◌, refl, arith, true, false, not, ◌&&◌, ◌||◌, Option, none, some,
  [], ◌∷◌, ltb, if◌then◌else◌, if_elim, length, get_elem?, All, All-map, inl, inr,
}
use coinbasechain.Base.Map.{lookup, bytes_key, Distinct-listed}
use coinbasechain.Net.Wire.{NetworkAddress}
use coinbasechain.Net.Addresses.{AddrKey, addr_key, AddrInfo, Table, AddressManager, size}
use coinbasechain.Net.Addresses.Selecting.{
  Draw, is_eligible, is_empty, pick, probe, checks_of, select_from, select_entry, select,
  address_of, select_tried_bias_percent,
}
use coinbasechain.Net.Addresses.Tables.{IsTables}

-- A draw gives a value below its bound.
abbrev pub InRange : Draw → Type 0
InRange draw = (i n : ℕ) → 0 < n → draw i n < n

-- Some entry of a table.
abbrev Of : Table → AddrInfo → Type 0
Of t i = (k : AddrKey) × (lookup k t ≡ some i)

at_index :
    (P : AddrKey × AddrInfo → Type 0) (t : Table) (n : ℕ)
    → All P t
    → n < length t
    → (x : AddrKey × AddrInfo) × (get_elem? t n ≡ some x) × P x
at_index P [] n all low = absurd (omega arith)
at_index P (x ∷ t) zero all low = (x, refl, all.0)
at_index P (x ∷ t) (suc n) all low = at_index P t n all.1 (omega arith)

Found : (AddrInfo → Type 0) → Option AddrInfo → Type 0
Found P none = Unit
Found P (some i) = P i

module _ (draw : Draw) (in_range : InRange draw) (now : ℕ) (P : AddrInfo → Type 0) where
  pick-Finds :
      (i : ℕ) (t : Table)
      → All (λ x. P x.1) t
      → is_empty t ≡ false
      → (e : AddrInfo) × (pick draw i t ≡ some e) × P e
  unfolding pick
  pick-Finds i [] all full = absurd (cc)
  pick-Finds i (x ∷ t) all full =
      let (y, eq, p) =
        at_index (λ x. P x.1) (x ∷ t) (draw i (length (x ∷ t))) all
          (in_range i (length (x ∷ t)) (omega arith)) in
      (y.1, rw (eq, pick) refl, p)

  probe-Finds :
      (checks i : ℕ) (t : Table)
      → All (λ x. P x.1) t
      → is_empty t ≡ false
      → Found P (probe draw now checks i t)
  unfolding probe Found
  probe-Finds zero i t all full = tt
  probe-Finds (suc checks) i t all full =
      let (e, eq, p) = pick-Finds i t all full in
      rw (eq, probe)
        (if_elim (Found P) (is_eligible now e) (λ _. p)
          (λ _. probe-Finds checks (i + 1) t all full))

  abbrev Finds : Option AddrInfo → Type 0
  Finds o = (e : AddrInfo) × (o ≡ some e) × P e

  -- What was found by probing, or else what comes next.
  or_else :
      (o next : Option AddrInfo)
      → Found P o
      → Finds next
      → Finds (elim o [ some i ↦ some i | none ↦ next ])
  unfolding Found
  or_else none next found rest = rest
  or_else (some i) next found rest = (i, refl, found)

  select_from-Finds :
      (i : ℕ) (t u : Table)
      → All (λ x. P x.1) t
      → All (λ x. P x.1) u
      → is_empty t ≡ false
      → Finds (select_from draw now i t u)
  unfolding select_from
  select_from-Finds i t u all all' full =
      or_else (probe draw now (checks_of t) i t) _ (probe-Finds (checks_of t) i t all full) (
        if_elim Finds (not (is_empty u))
          (λ more.
            let full' : is_empty u ≡ false = ground arith in
            or_else (probe draw now (checks_of u) (i + checks_of t) u) _
              (probe-Finds (checks_of u) (i + checks_of t) u all' full')
              (pick-Finds (i + checks_of t + checks_of u) u all' full'))
          (λ none_left. pick-Finds (i + checks_of t) t all full))

-- An address is given exactly if there is one, and it is that of an entry.
abbrev pub Selected : AddressManager → Option NetworkAddress → Type 0
Selected s none = size s ≡ 0
Selected s (some a) =
    (i : AddrInfo) × (i.address ≡ a)
    × ((lookup (addr_key a) s.tried_table ≡ some i) ⊎ (lookup (addr_key a) s.new_table ≡ some i))

empty-length : (t : Table) → is_empty t ≡ true → length t ≡ 0
empty-length [] h = refl
empty-length (x ∷ t) h = cc

module _ (draw : Draw) (in_range : InRange draw) (now : ℕ) (s : AddressManager) where
  module _ (ok : IsTables s) where
    abbrev Stands : AddrInfo → Type 0
    Stands i =
        (lookup (addr_key i.address) s.tried_table ≡ some i)
        ⊎ (lookup (addr_key i.address) s.new_table ≡ some i)

    all_tried : All (λ x. Stands x.1) s.tried_table
    all_tried = All-map stands s.tried_table (Distinct-listed s.tried_table ok.tried_distinct)
      where
        stands : (x : AddrKey × AddrInfo) → lookup x.0 s.tried_table ≡ some x.1 → Stands x.1
        stands x there = inl (rw (← (ok.in_tried x.0 x.1 there).0.0) there)

    all_new : All (λ x. Stands x.1) s.new_table
    all_new = All-map stands s.new_table (Distinct-listed s.new_table ok.new_distinct)
      where
        stands : (x : AddrKey × AddrInfo) → lookup x.0 s.new_table ≡ some x.1 → Stands x.1
        stands x there = inr (rw (← (ok.in_new x.0 x.1 there).0.0) there)

    Selected-found :
        (o : Option AddrInfo) → (i : AddrInfo) × (o ≡ some i) × Stands i → Selected s (address_of o)
    Selected-found o (i, eq, stands) = rw eq (i, refl, stands)

    -- select gives no address only if both tables are empty, and else that of an entry of one of them:
    -- no draw is used out of its range.
    pub select-Selected : Selected s (select draw now s)
    unfolding select select_entry
    select-Selected =
        if_elim (λ o. Selected s (address_of o))
          (not (is_empty s.tried_table)
            && (ltb (draw 0 100) select_tried_bias_percent || is_empty s.new_table))
          (λ tried.
            let full : is_empty s.tried_table ≡ false = ground arith in
            Selected-found _ (
              select_from-Finds draw in_range now Stands (if is_empty s.tried_table then 0 else 1)
                s.tried_table s.new_table all_tried all_new full))
          λ not_tried.
            if_elim (λ o. Selected s (address_of o)) (not (is_empty s.new_table))
              (λ new.
                let full : is_empty s.new_table ≡ false = ground arith in
                Selected-found _ (
                  select_from-Finds draw in_range now Stands
                    (if is_empty s.tried_table then 0 else 1) s.new_table s.tried_table all_new
                    all_tried full))
              (λ not_new.
                let no_new : is_empty s.new_table ≡ true = ground arith in
                let no_tried : is_empty s.tried_table ≡ true = ground (arith, not_tried, no_new) in
                omega (arith, empty-length s.tried_table no_tried, empty-length s.new_table no_new))
