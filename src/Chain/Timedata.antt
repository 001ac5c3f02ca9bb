-- ===== src/Chain/Timedata.antt =====
-- chain/timedata.cpp, include/chain/timedata.hpp: the clock's offset from those of the peers. A signed
-- number of 64 bits is its distance from the least one, so that their order is that of the numbers;
-- a sum that overflows is not defined in the source. A failed assert is `none`.
pub mod Medians
mod Tests
use coinbasechain.Base.{
  ℕ, ◌+◌, ◌-◌, ◌*◌, ◌/◌, ◌%◌, ◌^◌, Bool, true, false, not, ◌&&◌, ◌||◌, Option, none, some, List, [],
  ◌∷◌, ◌++◌, ltb, leb, ◌==◌, if◌then◌else◌, length, get_elem?, drop,
}
use coinbasechain.Base.Map.{bytes_eq}
use coinbasechain.Base.Sorting.{sort}
use coinbasechain.Net.Wire.{NetworkAddress}

-- The number 0.
abbrev pub no_offset : ℕ
no_offset = 2 ^ 63

abbrev pub default_max_time_adjustment : ℕ
default_max_time_adjustment = 70 * 60

abbrev pub bitcoin_timedata_max_samples : ℕ
bitcoin_timedata_max_samples = 200

pub record MedianFilter : Type 0 where
  pub values : List ℕ
  pub sorted_values : List ℕ
  pub capacity : ℕ

abbrev pub new_filter : ℕ → ℕ → MedianFilter
new_filter capacity initial_value = record {
  values = initial_value ∷ [];
  sorted_values = initial_value ∷ [];
  capacity = capacity;
}

unfoldable pub input : ℕ → MedianFilter → MedianFilter
unfolding sort
input value f =
    let room = if length f.values == f.capacity then drop 1 f.values else f.values in
    let values = room ++ value ∷ [] in record f { values = values; sorted_values = sort values }

-- Half of a sum, towards 0.
abbrev pub half_sum : ℕ → ℕ → ℕ
half_sum a b =
    if leb (2 * no_offset) (a + b)
    then no_offset + (a + b - 2 * no_offset) / 2
    else no_offset - (2 * no_offset - (a + b)) / 2

unfoldable pub median : MedianFilter → Option ℕ
median f =
    let n = length f.sorted_values in
    let upper = get_elem? f.sorted_values (n / 2) in
    if n == 0
    then none
    else if n % 2 == 1
    then upper
    else elim (get_elem? f.sorted_values (n / 2 - 1)) [
      | none ↦ none
      | some a ↦ elim upper [ none ↦ none | some b ↦ some (half_sum a b) ]
    ]

pub record TimeData : Type 0 where
  pub time_offset : ℕ
  pub sources : List NetworkAddress
  pub time_offsets : MedianFilter
  pub warning_emitted : Bool

abbrev pub fresh_time_data : TimeData
fresh_time_data = record {
  time_offset = no_offset;
  sources = [];
  time_offsets = new_filter bitcoin_timedata_max_samples no_offset;
  warning_emitted = false;
}

-- NetworkAddress::operator==.
abbrev pub same_address : NetworkAddress → NetworkAddress → Bool
same_address a b = bytes_eq a.ip b.ip && a.port == b.port && a.services == b.services

unfoldable pub is_source : NetworkAddress → List NetworkAddress → Bool
is_source a [] = false
is_source a (b ∷ sources) = same_address b a || is_source a sources

abbrev pub is_within : ℕ → Bool
is_within m =
    leb (no_offset - default_max_time_adjustment) m
    && leb m (no_offset + default_max_time_adjustment)

-- A sample that is not 0, but within five minutes of it.
unfoldable pub has_match : List ℕ → Bool
has_match [] = false
has_match (v ∷ values) =
    not (v == no_offset) && ltb (no_offset - 5 * 60) v && ltb v (no_offset + 5 * 60)
    || has_match values

-- The new offset, from the samples and their median.
unfoldable pub adjust : TimeData → ℕ → TimeData
unfolding has_match
adjust s m = if is_within m then record s { time_offset = m } else record s {
  time_offset = no_offset;
  warning_emitted = s.warning_emitted || not (has_match s.time_offsets.sorted_values);
}

unfoldable pub add_time_data : NetworkAddress → ℕ → TimeData → Option TimeData
unfolding input median adjust is_source
add_time_data ip sample s =
    let counted : TimeData = record s {
      sources = ip ∷ s.sources;
      time_offsets = input sample s.time_offsets;
    } in
    let n = length counted.time_offsets.values in
    if length s.sources == bitcoin_timedata_max_samples
    then some s
    else if is_source ip s.sources
    then some s
    else if leb 5 n && n % 2 == 1
    then elim (median counted.time_offsets) [ none ↦ none | some m ↦ some (adjust counted m) ]
    else some counted

-- GetAdjustedTime of chain/validation.cpp, from the time of the clock.
abbrev pub get_adjusted_time : ℕ → TimeData → ℕ
get_adjusted_time now s = now + s.time_offset
