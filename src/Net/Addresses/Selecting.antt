-- ===== src/Net/Addresses/Selecting.antt =====
-- network/addr_manager.cpp: select and select_new_for_feeler. The draws of the random number generator
-- are an argument, the value that the i-th draw of a call gives below a bound.
use coinbasechain.Base.{
  ℕ, zero, suc, ◌+◌, ◌-◌, ◌%◌, ◌^◌, min, Bool, true, false, not, ◌&&◌, ◌||◌, Option, none, some, [],
  ◌∷◌, ltb, leb, ◌==◌, if◌then◌else◌, length, get_elem?,
}
use coinbasechain.Base.Map.{bytes_key}
use coinbasechain.Net.Wire.{NetworkAddress}
use coinbasechain.Net.Addresses.{AddrInfo, Table, AddressManager}

abbrev pub select_max_checks : ℕ
select_max_checks = 64

abbrev pub select_tried_bias_percent : ℕ
select_tried_bias_percent = 80

abbrev pub select_cooldown_sec : ℕ
select_cooldown_sec = 600

abbrev pub select_attempt_bypass : ℕ
select_attempt_bypass = 30

-- The lambda ok of select; the difference has 32 bits.
unfoldable pub is_eligible : ℕ → AddrInfo → Bool
is_eligible now info =
    info.last_try == 0
    || leb select_cooldown_sec ((now + 2 ^ 32 - info.last_try) % 2 ^ 32)
    || leb select_attempt_bypass info.attempts

abbrev pub is_empty : Table → Bool
is_empty [] = true
is_empty (x ∷ t) = false

-- The value of the i-th draw of a call, below a bound.
abbrev pub Draw : Type 0
Draw = ℕ → ℕ → ℕ

-- The entry at the index that a draw gives.
unfoldable pub pick : Draw → ℕ → Table → Option AddrInfo
pick draw i t = elim (get_elem? t (draw i (length t))) [
  | none ↦ none
  | some (key, info) ↦ some info
]

-- Some draws, until one gives an eligible entry.
unfoldable pub probe : Draw → ℕ → ℕ → ℕ → Table → Option AddrInfo
unfolding pick is_eligible
probe draw now zero i t = none
probe draw now (suc checks) i t =
    let rest = probe draw now checks (i + 1) t in
    elim (pick draw i t) [
      | none ↦ none
      | some info ↦ if is_eligible now info then some info else rest
    ]

abbrev pub checks_of : Table → ℕ
checks_of t = min (length t) select_max_checks

-- An eligible entry of the first table, or else one of the second, or else any: of the second, if it
-- has one.
unfoldable pub select_from : Draw → ℕ → ℕ → Table → Table → Option AddrInfo
unfolding probe pick
select_from draw now i first second =
    let j = i + checks_of first in
    elim (probe draw now (checks_of first) i first) [
      | some info ↦ some info
      | none ↦
          if not (is_empty second)
          then elim (probe draw now (checks_of second) j second) [
            | some info ↦ some info
            | none ↦ pick draw (j + checks_of second) second
          ]
          else pick draw j first
    ]

unfoldable pub select_entry : Draw → ℕ → AddressManager → Option AddrInfo
unfolding select_from
select_entry draw now s =
    let use_tried =
      not (is_empty s.tried_table)
      && (ltb (draw 0 100) select_tried_bias_percent || is_empty s.new_table) in
    let i = if is_empty s.tried_table then 0 else 1 in
    if use_tried
    then select_from draw now i s.tried_table s.new_table
    else if not (is_empty s.new_table)
    then select_from draw now i s.new_table s.tried_table
    else none

abbrev pub address_of : Option AddrInfo → Option NetworkAddress
address_of none = none
address_of (some info) = some info.address

unfoldable pub select : Draw → ℕ → AddressManager → Option NetworkAddress
unfolding select_entry
select draw now s = address_of (select_entry draw now s)

unfoldable pub select_new_for_feeler : Draw → AddressManager → Option NetworkAddress
unfolding pick
select_new_for_feeler draw s =
    if is_empty s.new_table then none else address_of (pick draw 0 s.new_table)
