-- ===== src/Net/Addresses.antt =====
-- network/addr_manager.cpp: the addresses that were heard of (NEW) and those that a connection has
-- worked with (TRIED). The clock is an argument, one time for a call, and so is the shuffle.
-- Numbers of attempts are not bounded.
pub mod Tables
pub mod Histories
pub mod Selecting
pub mod Picking
pub mod Sharing
mod Tests
use coinbasechain.Base.{
  ℕ, zero, suc, ◌+◌, ◌-◌, ◌*◌, ◌/◌, ◌%◌, ◌^◌, min, Bool, true, false, not, ◌&&◌, ◌||◌, Option, none,
  some, List, [], ◌∷◌, ◌++◌, ltb, leb, ◌==◌, if◌then◌else◌, length, get_elem?, keep,
}
use coinbasechain.Base.Map.{lookup, insert, erase, bytes_key}
use coinbasechain.Chain.Header.{all_zero}
use coinbasechain.Net.Wire.{NetworkAddress, TimestampedAddress}

abbrev pub stale_after_days : ℕ
stale_after_days = 30

abbrev pub max_failures : ℕ
max_failures = 10

abbrev pub seconds_per_day : ℕ
seconds_per_day = 86400

abbrev pub ten_years : ℕ
ten_years = 10 * 365 * 24 * 60 * 60

abbrev pub AddrKey : Type 0
AddrKey = List ℕ

-- 16 bytes of the address and the port, big-endian.
abbrev pub addr_key : NetworkAddress → AddrKey
addr_key a = a.ip ++ a.port / 256 % 256 ∷ a.port % 256 ∷ []

pub record AddrInfo : Type 0 where
  pub address : NetworkAddress
  pub timestamp : ℕ
  pub last_try : ℕ
  pub last_success : ℕ
  pub attempts : ℕ
  pub tried : Bool

abbrev pub new_info : NetworkAddress → ℕ → AddrInfo
new_info a timestamp = record {
  address = a;
  timestamp = timestamp;
  last_try = 0;
  last_success = 0;
  attempts = 0;
  tried = false;
}

unfoldable pub is_stale : ℕ → AddrInfo → Bool
is_stale now info =
    if info.timestamp == 0 || ltb now info.timestamp
    then false
    else ltb (stale_after_days * seconds_per_day) (now - info.timestamp)

unfoldable pub is_terrible : ℕ → AddrInfo → Bool
unfolding is_stale
is_terrible now info =
    if leb max_failures info.attempts
    then true
    else if not info.tried && is_stale now info
    then true
    else false

abbrev pub Table : Type 0
Table = List (AddrKey × AddrInfo)

pub record AddressManager : Type 0 where
  pub tried_table : Table
  pub new_table : Table

-- A port and an address that are not zero.
unfoldable pub is_usable : NetworkAddress → Bool
unfolding all_zero
is_usable a = if a.port == 0 then false else not (all_zero a.ip)

-- Timestamps of the future and of long ago become now.
abbrev pub clamp : ℕ → ℕ → ℕ
clamp now timestamp =
    let told = if timestamp == 0 then now else timestamp in
    if ltb now told || ltb ten_years (now - told) then now else told

abbrev pub refresh : ℕ → AddrInfo → AddrInfo
refresh timestamp info =
    if ltb info.timestamp timestamp then record info { timestamp = timestamp } else info

unfoldable pub add : ℕ → NetworkAddress → ℕ → AddressManager → AddressManager × Bool
unfolding is_usable is_terrible
add now a timestamp s =
    let heard = clamp now timestamp in
    let info = new_info a heard in
    let key = addr_key a in
    if not (is_usable a) then (s, false) else elim (lookup key s.tried_table) [
      | some old ↦ (record s { tried_table = insert key (refresh heard old) s.tried_table }, false)
      | none ↦ elim (lookup key s.new_table) [
        | some old ↦ (record s { new_table = insert key (refresh heard old) s.new_table }, false)
        | none ↦
            if is_terrible now info
            then (s, false)
            else (record s { new_table = insert key info s.new_table }, true)
      ]
    ]

unfoldable pub add_multiple : ℕ → List TimestampedAddress → AddressManager → AddressManager × ℕ
unfolding add
add_multiple now [] s = (s, 0)
add_multiple now (x ∷ xs) s =
    let (s', added) = add now x.address x.timestamp s in
    let (s'', rest) = add_multiple now xs s' in (s'', if added then rest + 1 else rest)

unfoldable pub attempt : ℕ → NetworkAddress → AddressManager → AddressManager
attempt now a s =
    let key = addr_key a in
    elim (lookup key s.new_table) [
      | some old ↦
          let info : AddrInfo = record old { last_try = now; attempts = old.attempts + 1 } in
          record s { new_table = insert key info s.new_table }
      | none ↦ elim (lookup key s.tried_table) [
        | some old ↦
            let info : AddrInfo = record old { last_try = now } in
            record s { tried_table = insert key info s.tried_table }
        | none ↦ s
      ]
    ]

unfoldable pub good : ℕ → NetworkAddress → AddressManager → AddressManager
good now a s =
    let key = addr_key a in
    elim (lookup key s.new_table) [
      | some old ↦
          let info : AddrInfo = record old { tried = true; last_success = now; attempts = 0 } in
          record { tried_table = insert key info s.tried_table; new_table = erase key s.new_table }
      | none ↦ elim (lookup key s.tried_table) [
        | some old ↦
            let info : AddrInfo = record old { last_success = now; attempts = 0 } in
            record s { tried_table = insert key info s.tried_table }
        | none ↦ s
      ]
    ]

unfoldable pub failed : ℕ → NetworkAddress → AddressManager → AddressManager
unfolding is_terrible
failed now a s =
    let key = addr_key a in
    elim (lookup key s.new_table) [
      | some old ↦
          let info : AddrInfo = record old { attempts = old.attempts + 1 } in
          if is_terrible now info
          then record s { new_table = erase key s.new_table }
          else record s { new_table = insert key info s.new_table }
      | none ↦ elim (lookup key s.tried_table) [
        | some old ↦
            let info : AddrInfo = record old { attempts = old.attempts + 1 } in
            let demoted : AddrInfo = record info { tried = false } in
            if leb max_failures info.attempts
            then record {
              tried_table = erase key s.tried_table;
              new_table = insert key demoted s.new_table;
            }
            else record s { tried_table = insert key info s.tried_table }
        | none ↦ s
      ]
    ]

-- The loop over a table, with what was collected so far.
unfoldable pub collect : ℕ → ℕ → Table → List TimestampedAddress → List TimestampedAddress
unfolding is_usable is_terrible
collect now max_count [] found = found
collect now max_count ((key, info) ∷ t) found =
    let more = collect now max_count t in
    let entry : TimestampedAddress = record {
      timestamp = info.timestamp;
      address = info.address;
    } in
    if leb max_count (length found)
    then found
    else if not (is_usable info.address) || is_terrible now info
    then more found
    else more (found ++ entry ∷ [])

unfoldable pub get_addresses :
    (List TimestampedAddress → List TimestampedAddress)
    → ℕ
    → ℕ
    → AddressManager
    → List TimestampedAddress
unfolding collect
get_addresses shuffle now max_count s =
    shuffle (collect now max_count s.new_table (collect now max_count s.tried_table []))

abbrev pub size : AddressManager → ℕ
size s = length s.tried_table + length s.new_table

abbrev pub tried_count : AddressManager → ℕ
tried_count s = length s.tried_table

abbrev pub new_count : AddressManager → ℕ
new_count s = length s.new_table

unfoldable pub cleanup_stale : ℕ → AddressManager → AddressManager
unfolding is_stale is_terrible
cleanup_stale now s = record s {
  new_table = keep (λ x. not (is_stale now x.1 || is_terrible now x.1)) s.new_table;
}
