-- ===== src/Net/Addresses/Tables.antt =====
-- The two tables under every operation.
use coinbasechain.Base.{
  ℕ, ◌+◌, ◌<◌, ◌≡◌, refl, sym, ap, ◌∙◌, arith, Bool, true, false, not, ◌||◌, Option, none, some,
  List, [], ◌∷◌, leb, if◌then◌else◌, if_elim, Option_elim, Bool-cases, Option-cases, inl, inr, keep,
  ltb,
}
use coinbasechain.Base.Map.{
  lookup, insert, erase, bytes_key, bytes_eq, bytes_eq_iff, Distinct, Distinct-insert,
  Distinct-erase, Distinct-keep, lookup-insert, lookup-erase, lookup-keep,
}
use coinbasechain.Net.Wire.{NetworkAddress, TimestampedAddress}
use coinbasechain.Net.Addresses.{
  AddrKey, addr_key, AddrInfo, new_info, Table, AddressManager, is_usable, is_stale, is_terrible,
  max_failures, clamp, refresh, add, add_multiple, attempt, good, failed, cleanup_stale,
}

-- An entry under its own key, with an address that can be used.
abbrev pub Listed : AddrKey → AddrInfo → Type 0
Listed k i = (k ≡ addr_key i.address) × (is_usable i.address ≡ true)

abbrev pub Holds : Table → (AddrKey → AddrInfo → Type 0) → Type 0
Holds t P = (k : AddrKey) (i : AddrInfo) → lookup k t ≡ some i → P k i

abbrev pub InTried : AddrKey → AddrInfo → Type 0
InTried k i = Listed k i × (i.tried ≡ true) × (i.attempts < max_failures)

abbrev pub InNew : AddrKey → AddrInfo → Type 0
InNew k i = Listed k i × (i.tried ≡ false)

-- No address stands twice, in one table or in both.
pub record IsTables (s : AddressManager) : Type 0 where
  pub tried_distinct : Distinct s.tried_table
  pub new_distinct : Distinct s.new_table
  pub apart :
      (k : AddrKey) (i : AddrInfo) → lookup k s.tried_table ≡ some i → lookup k s.new_table ≡ none
  pub in_tried : Holds s.tried_table InTried
  pub in_new : Holds s.new_table InNew

module _ (P : AddrKey → AddrInfo → Type 0) (k : AddrKey) (t : Table) where
  Holds-insert : (i : AddrInfo) → Holds t P → P k i → Holds (insert k i t) P
  Holds-insert i h p j x e = elim (Bool-cases (bytes_eq k j)) [
    | inl here ↦
        let same : k ≡ j = (bytes_eq_iff k j).0 here in
        let found : some i ≡ some x = sym (rw here at (lookup-insert k j i t)) ∙ e in
        let entry : i ≡ x = cc in rw (← same) (rw (← entry) p)
    | inr other ↦ h j x (sym (rw other at (lookup-insert k j i t)) ∙ e)
  ]

  Holds-erase : Holds t P → Holds (erase k t) P
  Holds-erase h j x e = elim (Bool-cases (bytes_eq k j)) [
    | inl here ↦ absurd (cc (sym (rw here at (lookup-erase k j t)) ∙ e))
    | inr other ↦ h j x (sym (rw other at (lookup-erase k j t)) ∙ e)
  ]

untried_new :
    (s : AddressManager)
    → IsTables s
    → (k : AddrKey) (i : AddrInfo) → lookup k s.new_table ≡ some i
    → lookup k s.tried_table ≡ none
untried_new s ok k i there = elim (Option-cases (lookup k s.tried_table)) [
  | inl absent ↦ absent
  | inr (j, tried) ↦ absurd (cc (sym there ∙ ok.apart k j tried))
]

-- An entry of one table that is written again.
module _ (s : AddressManager) (ok : IsTables s) (k : AddrKey) (i : AddrInfo) where
  tried-IsTables :
      (old : AddrInfo)
      → lookup k s.tried_table ≡ some old
      → InTried k i
      → IsTables (record s { tried_table = insert k i s.tried_table })
  tried-IsTables old there p = record {
    tried_distinct = Distinct-insert k i s.tried_table ok.tried_distinct;
    new_distinct = ok.new_distinct;
    apart = λ j x e. elim (Bool-cases (bytes_eq k j)) [
      | inl here ↦ rw (← (bytes_eq_iff k j).0 here) (ok.apart k old there)
      | inr other ↦ ok.apart j x (sym (rw other at (lookup-insert k j i s.tried_table)) ∙ e)
    ];
    in_tried = Holds-insert InTried k s.tried_table i ok.in_tried p;
    in_new = ok.in_new;
  }

  new-IsTables :
      lookup k s.tried_table ≡ none
      → InNew k i
      → IsTables (record s { new_table = insert k i s.new_table })
  new-IsTables absent p = record {
    tried_distinct = ok.tried_distinct;
    new_distinct = Distinct-insert k i s.new_table ok.new_distinct;
    apart = λ j x e. elim (Bool-cases (bytes_eq k j)) [
      | inl here ↦
          let same : k ≡ j = (bytes_eq_iff k j).0 here in
          let clash : lookup k s.tried_table ≡ some x = rw same e in
          absurd (cc (sym absent ∙ clash))
      | inr other ↦ lookup-insert k j i s.new_table ∙ (rw other (ok.apart j x e))
    ];
    in_tried = ok.in_tried;
    in_new = Holds-insert InNew k s.new_table i ok.in_new p;
  }

  -- An entry that moves from one table to the other.
  promoted-IsTables :
      InTried k i
      → IsTables
          (record { tried_table = insert k i s.tried_table; new_table = erase k s.new_table })
  promoted-IsTables p = record {
    tried_distinct = Distinct-insert k i s.tried_table ok.tried_distinct;
    new_distinct = Distinct-erase k s.new_table ok.new_distinct;
    apart = λ j x e. elim (Bool-cases (bytes_eq k j)) [
      | inl here ↦ lookup-erase k j s.new_table ∙ (rw here refl)
      | inr other ↦
          lookup-erase k j s.new_table
          ∙ (rw other (ok.apart j x (sym (rw other at (lookup-insert k j i s.tried_table)) ∙ e)))
    ];
    in_tried = Holds-insert InTried k s.tried_table i ok.in_tried p;
    in_new = Holds-erase InNew k s.new_table ok.in_new;
  }

  demoted-IsTables :
      InNew k i
      → IsTables
          (record { tried_table = erase k s.tried_table; new_table = insert k i s.new_table })
  demoted-IsTables p = record {
    tried_distinct = Distinct-erase k s.tried_table ok.tried_distinct;
    new_distinct = Distinct-insert k i s.new_table ok.new_distinct;
    apart = λ j x e. elim (Bool-cases (bytes_eq k j)) [
      | inl here ↦ absurd (cc (sym (rw here at (lookup-erase k j s.tried_table)) ∙ e))
      | inr other ↦
          lookup-insert k j i s.new_table
          ∙ (rw other (ok.apart j x (sym (rw other at (lookup-erase k j s.tried_table)) ∙ e)))
    ];
    in_tried = Holds-erase InTried k s.tried_table ok.in_tried;
    in_new = Holds-insert InNew k s.new_table i ok.in_new p;
  }

dropped-IsTables :
    (s : AddressManager)
    → IsTables s
    → (k : AddrKey) → IsTables (record s { new_table = erase k s.new_table })
dropped-IsTables s ok k = record {
  tried_distinct = ok.tried_distinct;
  new_distinct = Distinct-erase k s.new_table ok.new_distinct;
  apart = λ j x e. elim (Bool-cases (bytes_eq k j)) [
    | inl here ↦ lookup-erase k j s.new_table ∙ (rw here refl)
    | inr other ↦ lookup-erase k j s.new_table ∙ (rw other (ok.apart j x e))
  ];
  in_tried = ok.in_tried;
  in_new = Holds-erase InNew k s.new_table ok.in_new;
}

refresh-keeps :
    (P : AddrInfo → Type 0) (timestamp : ℕ) (old : AddrInfo)
    → P old
    → P (record old { timestamp = timestamp })
    → P (refresh timestamp old)
refresh-keeps P timestamp old p q = if_elim P (ltb old.timestamp timestamp) (λ _. q) (λ _. p)

module _ (now : ℕ) (a : NetworkAddress) (s : AddressManager) (ok : IsTables s) where
  abbrev key : AddrKey
  key = addr_key a

  pub add-IsTables : (timestamp : ℕ) → IsTables (add now a timestamp s).0
  unfolding add
  add-IsTables timestamp =
      if_elim Good (not (is_usable a)) (λ _. ok)
        λ usable.
          Option_elim Good (lookup key s.tried_table)
            (λ untried.
              Option_elim Good (lookup key s.new_table)
                (λ unknown.
                  if_elim Good (is_terrible now (new_info a heard)) (λ _. ok)
                    (λ _.
                      new-IsTables s ok key (new_info a heard) untried
                        ((refl, ground arith), refl)))
                λ old known.
                  let was = ok.in_new key old known in
                  new-IsTables s ok key (refresh heard old) untried
                    (refresh-keeps (InNew key) heard old was was))
            λ old known.
              let was = ok.in_tried key old known in
              tried-IsTables s ok key (refresh heard old) old known
                (refresh-keeps (InTried key) heard old was was)
    where
      Good : AddressManager × Bool → Type 0
      Good r = IsTables r.0

      heard : ℕ
      heard = clamp now timestamp

  pub attempt-IsTables : IsTables (attempt now a s)
  unfolding attempt
  attempt-IsTables =
      Option_elim IsTables (lookup key s.new_table)
        (λ unknown.
          Option_elim IsTables (lookup key s.tried_table) (λ _. ok)
            λ old known. tried-IsTables s ok key _ old known (ok.in_tried key old known))
        λ old known.
          let untried : lookup key s.tried_table ≡ none = untried_new s ok key old known in
          new-IsTables s ok key _ untried (ok.in_new key old known)

  pub good-IsTables : IsTables (good now a s)
  unfolding good
  good-IsTables =
      Option_elim IsTables (lookup key s.new_table)
        (λ unknown.
          Option_elim IsTables (lookup key s.tried_table) (λ _. ok)
            λ old known.
              let (listed, tried, _) = ok.in_tried key old known in
              tried-IsTables s ok key _ old known (listed, tried, omega arith))
        λ old known. promoted-IsTables s ok key _ ((ok.in_new key old known).0, refl, omega arith)

  pub failed-IsTables : IsTables (failed now a s)
  unfolding failed
  failed-IsTables =
      Option_elim IsTables (lookup key s.new_table)
        (λ unknown.
          Option_elim IsTables (lookup key s.tried_table) (λ _. ok)
            λ old known.
              let (listed, tried, _) = ok.in_tried key old known in
              if_elim IsTables (leb max_failures (old.attempts + 1))
                (λ _. demoted-IsTables s ok key _ (listed, refl))
                (λ few. tried-IsTables s ok key _ old known (listed, tried, ground arith)))
        λ old known.
          let untried : lookup key s.tried_table ≡ none = untried_new s ok key old known in
          if_elim IsTables (is_terrible now (record old { attempts = old.attempts + 1 }))
            (λ _. dropped-IsTables s ok key)
            (λ _. new-IsTables s ok key _ untried (ok.in_new key old known))

  pub cleanup_stale-IsTables : IsTables (cleanup_stale now s)
  unfolding cleanup_stale
  cleanup_stale-IsTables = record {
    tried_distinct = ok.tried_distinct;
    new_distinct = Distinct-keep fresh s.new_table ok.new_distinct;
    apart = λ k i e. kept k ∙ ap (sift k) (ok.apart k i e);
    in_tried = ok.in_tried;
    in_new = λ k i e. ok.in_new k i (still_there k i e);
  }
    where
      fresh : AddrKey × AddrInfo → Bool
      fresh x = not (is_stale now x.1 || is_terrible now x.1)

      sift : AddrKey → Option AddrInfo → Option AddrInfo
      sift k o = elim o [ none ↦ none | some i ↦ if fresh (k, i) then some i else none ]

      kept : (k : AddrKey) → lookup k (keep fresh s.new_table) ≡ sift k (lookup k s.new_table)
      kept k = lookup-keep fresh k s.new_table ok.new_distinct

      still_there :
          (k : AddrKey) (i : AddrInfo)
          → lookup k (keep fresh s.new_table) ≡ some i
          → lookup k s.new_table ≡ some i
      still_there k i e = elim (Option-cases (lookup k s.new_table)) [
        | inl absent ↦
            let gone : lookup k (keep fresh s.new_table) ≡ none = kept k ∙ ap (sift k) absent in
            absurd (cc (sym gone ∙ e))
        | inr (j, there) ↦
            let found : (if fresh (k, j) then some j else none) ≡ some i =
              sym (kept k ∙ ap (sift k) there) ∙ e in
            elim (Bool-cases (fresh (k, j))) [
              | inl usable ↦ let same : some j ≡ some i = (rw usable at (found)) in there ∙ same
              | inr bad ↦ let none_left : none ≡ some i = (rw bad at (found)) in absurd (cc)
            ]
      ]

pub add_multiple-IsTables :
    (now : ℕ) (xs : List TimestampedAddress) (s : AddressManager)
    → IsTables s
    → IsTables (add_multiple now xs s).0
unfolding add_multiple
add_multiple-IsTables now [] s ok = ok
add_multiple-IsTables now (x ∷ xs) s ok =
    add_multiple-IsTables now xs (add now x.address x.timestamp s).0
      (add-IsTables now x.address s ok x.timestamp)
