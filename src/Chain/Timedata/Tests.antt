-- ===== src/Chain/Timedata/Tests.antt =====
-- Samples from some peers.
use coinbasechain.Base.{ℕ, ◌+◌, ◌≤◌, ◌≡◌, refl, true, some, List, [], ◌∷◌}
use coinbasechain.Base.Map.{bytes_eq}
use coinbasechain.Base.Sorting.{sort}
use coinbasechain.Net.Wire.{NetworkAddress}
use coinbasechain.Chain.Timedata.{
  no_offset, default_max_time_adjustment, TimeData, fresh_time_data, add_time_data, input, median,
  is_source, adjust, has_match, get_adjusted_time,
}
use coinbasechain.Chain.Timedata.Medians.{
  fresh-IsTimely, Adjusted, add_time_data-Adjusted, add_samples, add_samples-within,
}

abbrev peer : ℕ → NetworkAddress
peer n = record { services = 1; ip = n ∷ []; port = 9590 }

abbrev ahead : ℕ → ℕ → NetworkAddress × ℕ
ahead n seconds = (peer n, no_offset + seconds)

abbrev samples : List (NetworkAddress × ℕ)
samples = ahead 1 100 ∷ ahead 2 200 ∷ ahead 3 300 ∷ ahead 4 400 ∷ []

-- The first value is 0, and the fifth makes the median 200.
two_hundred :
    (s : TimeData) × (add_samples samples fresh_time_data ≡ some s)
    × (s.time_offset ≡ no_offset + 200)
unfolding add_samples add_time_data input median is_source adjust sort bytes_eq
two_hundred = (_, refl, refl)

-- A median that is too large counts as 0, with a warning.
too_far :
    (s : TimeData) × (add_samples
        (ahead 1 5000 ∷ ahead 2 5000 ∷ ahead 3 5000 ∷ ahead 4 5000 ∷ [])
        fresh_time_data
      ≡ some s)
    × (s.time_offset ≡ no_offset)
    × (s.warning_emitted ≡ true)
unfolding add_samples add_time_data input median is_source adjust sort bytes_eq has_match
too_far = (_, refl, refl, refl)

add_time_data-Adjusted_example :
    Adjusted
      (peer 1)
      (no_offset + 100)
      fresh_time_data
      (add_time_data (peer 1) (no_offset + 100) fresh_time_data)
add_time_data-Adjusted_example =
    add_time_data-Adjusted fresh_time_data fresh-IsTimely (peer 1) (no_offset + 100)

add_samples-within_example :
    (s : TimeData) × (add_samples samples fresh_time_data ≡ some s)
    × (1000 + no_offset ≤ get_adjusted_time 1000 s + default_max_time_adjustment)
    × (get_adjusted_time 1000 s ≤ 1000 + no_offset + default_max_time_adjustment)
add_samples-within_example = add_samples-within samples 1000
