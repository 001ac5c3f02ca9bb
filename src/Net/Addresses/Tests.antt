-- ===== src/Net/Addresses/Tests.antt =====
-- One address that is heard of, works, and fails.
use coinbasechain.Base.{
  ℕ, ◌+◌, min, ◌≡◌, inr, refl, false, none, some, List, [], ◌∷◌, replicate, length, count_if, All,
}
use coinbasechain.Base.Map.{lookup, insert, erase, bytes_key, bytes_eq, bytes_less}
use coinbasechain.Chain.Header.{all_zero}
use coinbasechain.Net.Wire.{NetworkAddress, TimestampedAddress}
use coinbasechain.Net.Addresses.{
  addr_key, new_info, AddressManager, is_usable, is_stale, is_terrible, add, good, failed,
  get_addresses,
}
use coinbasechain.Net.Addresses.Selecting.{Draw, select}
use coinbasechain.Net.Addresses.Tables.{IsTables}
use coinbasechain.Net.Addresses.Histories.{
  AddressCall, adds, attempts, works, cleans, run, run-IsTables, standing, after_failures, fail_at,
  worked, good-failures,
}
use coinbasechain.Net.Addresses.Picking.{InRange, Selected, select-Selected}
use coinbasechain.Net.Addresses.Sharing.{is_shareable, IsShuffle, Shared, get_addresses-Shared}

abbrev host : NetworkAddress
host = record { services = 1; ip = 10 ∷ replicate 15 1; port = 9590 }

abbrev nobody : AddressManager
nobody = record { tried_table = []; new_table = [] }

nobody-IsTables : IsTables nobody
unfolding lookup
nobody-IsTables = record {
  tried_distinct = tt;
  new_distinct = tt;
  apart = λ k i e. cc;
  in_tried = λ k i e. cc;
  in_new = λ k i e. cc;
}

abbrev calls : List (ℕ × AddressCall)
calls = (100, adds host 90) ∷ (110, attempts host) ∷ (120, works host) ∷ (130, cleans) ∷ []

run-IsTables_example : IsTables (run calls nobody)
run-IsTables_example = run-IsTables calls nobody nobody-IsTables

abbrev times : List ℕ
times = 200 ∷ 300 ∷ []

abbrev heard : AddressManager
heard = (add 100 host 90 nobody).0

heard-IsTables : IsTables (run ((100, adds host 90) ∷ []) nobody)
heard-IsTables = run-IsTables ((100, adds host 90) ∷ []) nobody nobody-IsTables

heard-there :
    lookup (addr_key host) (run ((100, adds host 90) ∷ []) nobody).new_table
    ≡ some (new_info host 90)
unfolding run add lookup insert bytes_eq is_usable all_zero is_terrible
heard-there = refl

good-failures_example :
    standing
      (addr_key host)
      (fail_at times host (good 150 host (run ((100, adds host 90) ∷ []) nobody)))
    ≡ after_failures (worked 150 (new_info host 90)) (length times)
good-failures_example =
    good-failures 150 host (run ((100, adds host 90) ∷ []) nobody) heard-IsTables (new_info host 90)
      times (inr heard-there)

-- The eleventh failure in a row removes the address.
given_up :
    standing (addr_key host) (fail_at (replicate 11 300) host (good 150 host heard)) ≡ (none, none)
unfolding fail_at good add failed lookup insert erase bytes_eq bytes_less is_usable all_zero
    is_terrible
given_up = refl

abbrev lowest : Draw
lowest i n = 0

lowest-InRange : InRange lowest
lowest-InRange i n some_value = some_value

select-Selected_example :
    Selected
      (run ((100, adds host 90) ∷ []) nobody)
      (select lowest 200 (run ((100, adds host 90) ∷ []) nobody))
select-Selected_example =
    select-Selected lowest lowest-InRange 200 (run ((100, adds host 90) ∷ []) nobody) heard-IsTables

abbrev as_they_are : List TimestampedAddress → List TimestampedAddress
as_they_are xs = xs

as_they_are-IsShuffle : IsShuffle as_they_are
as_they_are-IsShuffle xs = (refl, λ P all. all)

get_addresses-Shared_example :
    (length (get_addresses as_they_are 200 5 (run ((100, adds host 90) ∷ []) nobody))
      ≡ min 5 (
          count_if (is_shareable 200) (run ((100, adds host 90) ∷ []) nobody).tried_table
          + count_if (is_shareable 200) (run ((100, adds host 90) ∷ []) nobody).new_table))
    × All
        (Shared 200 (run ((100, adds host 90) ∷ []) nobody))
        (get_addresses as_they_are 200 5 (run ((100, adds host 90) ∷ []) nobody))
get_addresses-Shared_example =
    get_addresses-Shared as_they_are as_they_are-IsShuffle 200 5
      (run ((100, adds host 90) ∷ []) nobody) heard-IsTables

-- An address that was last heard of 31 days ago is not taken; one of the future is heard of now.
too_old : (add 3000000 host 100 nobody).1 ≡ false
unfolding add lookup is_usable all_zero is_terrible is_stale
too_old = refl

from_the_future :
    lookup (addr_key host) (add 100 host 900 nobody).0.new_table ≡ some (new_info host 100)
unfolding add lookup insert bytes_eq is_usable all_zero is_terrible is_stale
from_the_future = refl
