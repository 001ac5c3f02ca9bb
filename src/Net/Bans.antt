-- ===== src/Net/Bans.antt =====
-- network/ban_manager.cpp and include/network/ban_manager.hpp: bans, discouragement, whitelist.
-- An address is its text, a time is in seconds; the clock is read once per call and is an argument,
-- as is whether the write of the ban file succeeds. A negative ban time counts as 0.
pub mod Verdict
pub mod File
pub mod Discouraged
mod Tests
use coinbasechain.Base.{
  ℕ, ◌+◌, ◌-◌, ◌*◌, ◌≡◌, Bool, true, false, not, ◌&&◌, Option, none, some, List, [], ◌∷◌, ltb, leb,
  ◌==◌, if◌then◌else◌, length, keep,
}
use coinbasechain.Base.Map.{has, lookup, insert, erase, nat_key, bytes_key}

abbrev pub Address : Type 0
Address = List ℕ

pub record CBanEntry : Type 0 where
  pub create_time : ℕ
  pub ban_until : ℕ

unfoldable pub is_expired : ℕ → CBanEntry → Bool
is_expired now e = not (e.ban_until == 0) && ltb e.ban_until now

abbrev pub Banned : Type 0
Banned = List (Address × CBanEntry)

pub record BanManager : Type 0 where
  pub banned : Banned
  pub discouraged : List (Address × ℕ)
  pub whitelist : List (Address × Unit {0})
  pub has_ban_file_path : Bool
  pub ban_auto_save : Bool
  pub ban_file : Option Banned

abbrev pub max_discouraged : ℕ
max_discouraged = 10000

abbrev pub discourage_duration : ℕ
discourage_duration = 24 * 60 * 60

unfoldable pub sweep_expired : ℕ → Banned → Banned
sweep_expired now m = keep (λ x. not (is_expired now x.1)) m

-- SaveBansInternal, with the flag whether the file could be written and renamed.
unfoldable pub save_bans_internal : ℕ → Bool → BanManager → BanManager
unfolding sweep_expired
save_bans_internal now written s =
    if not s.has_ban_file_path
    then s
    else let swept = sweep_expired now s.banned in
      record s { banned = swept; ban_file = if written then some swept else s.ban_file }

unfoldable pub auto_save : ℕ → Bool → BanManager → BanManager
unfolding save_bans_internal
auto_save now written s =
    if s.ban_auto_save && s.has_ban_file_path then save_bans_internal now written s else s

unfoldable pub ban : ℕ → Bool → Address → ℕ → BanManager → BanManager
unfolding auto_save
ban now written address offset s =
    let ban_until = if ltb 0 offset then now + offset else 0 in
    let entry : CBanEntry = record { create_time = now; ban_until = ban_until } in
    auto_save now written (record s { banned = insert address entry s.banned })

unfoldable pub unban : ℕ → Bool → Address → BanManager → BanManager
unfolding auto_save
unban now written address s =
    if has address s.banned
    then auto_save now written (record s { banned = erase address s.banned })
    else s

unfoldable pub is_banned : Address → ℕ → BanManager → Bool
is_banned address now s = elim (lookup address s.banned) [
  | none ↦ false
  | some entry ↦ not (is_expired now entry)
]

unfoldable pub clear_banned : ℕ → Bool → BanManager → BanManager
unfolding auto_save
clear_banned now written s = auto_save now written (record s { banned = [] })

unfoldable pub sweep_banned : ℕ → Bool → BanManager → BanManager
unfolding auto_save sweep_expired
sweep_banned now written s =
    let swept = record s { banned = sweep_expired now s.banned } in
    if ltb 0 (length s.banned - length swept.banned) then auto_save now written swept else swept

-- The loop of LoadBans over the entries of the file, which the JSON library has read.
unfoldable pub load_entries : ℕ → Banned → Banned → Banned
load_entries now [] m = m
load_entries now ((address, entry) ∷ file) m =
    load_entries now file (if is_expired now entry then m else insert address entry m)

-- LoadBans with a data directory; the file is rewritten when an entry had expired.
unfoldable pub load_bans : ℕ → Bool → BanManager → BanManager
unfolding load_entries auto_save
load_bans now written s =
    let opened = record s { has_ban_file_path = true } in
    elim s.ban_file [
      | none ↦ opened
      | some file ↦
          let loaded = record opened { banned = load_entries now file s.banned } in
          if ltb (length (sweep_expired now file)) (length file)
          then auto_save now written loaded
          else loaded
    ]

-- The scan for the earliest expiry, from the map's first entry.
unfoldable pub find_victim : Address × ℕ → List (Address × ℕ) → Address × ℕ
find_victim best [] = best
find_victim best (x ∷ m) = find_victim (if ltb x.1 best.1 then x else best) m

unfoldable pub evict_victim : List (Address × ℕ) → List (Address × ℕ)
unfolding find_victim
evict_victim [] = []
evict_victim (x ∷ m) = erase (find_victim x (x ∷ m)).0 (x ∷ m)

abbrev pub sweep_expiries : ℕ → List (Address × ℕ) → List (Address × ℕ)
sweep_expiries now m = keep (λ x. not (leb x.1 now)) m

unfoldable pub discourage : ℕ → Address → BanManager → BanManager
unfolding evict_victim
discourage now address s =
    let added = insert address (now + discourage_duration) s.discouraged in
    let swept = sweep_expiries now added in
    let bounded =
      if ltb max_discouraged (length added)
      then (if ltb max_discouraged (length swept) then evict_victim swept else swept)
      else added in
    record s { discouraged = bounded }

unfoldable pub is_discouraged : Address → ℕ → BanManager → Bool
is_discouraged address now s = elim (lookup address s.discouraged) [
  | none ↦ false
  | some expiry ↦ not (leb expiry now)
]

abbrev pub clear_discouraged : BanManager → BanManager
clear_discouraged s = record s { discouraged = [] }

abbrev pub sweep_discouraged : ℕ → BanManager → BanManager
sweep_discouraged now s = record s { discouraged = sweep_expiries now s.discouraged }

abbrev pub add_to_whitelist : Address → BanManager → BanManager
add_to_whitelist address s = record s { whitelist = insert address tt s.whitelist }

abbrev pub remove_from_whitelist : Address → BanManager → BanManager
remove_from_whitelist address s = record s { whitelist = erase address s.whitelist }

abbrev pub is_whitelisted : Address → BanManager → Bool
is_whitelisted address s = has address s.whitelist
