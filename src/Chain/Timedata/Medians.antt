-- ===== src/Chain/Timedata/Medians.antt =====
-- The offset stays within its limits, and is the median of the samples or 0.
use coinbasechain.Base.{
  ◌++◌, if◌then◌else◌, ℕ, ◌+◌, ◌/◌, ◌%◌, ◌≤◌, ◌<◌, min, ◌≡◌, ◌⊎◌, refl, arith, true, false, ◌&&◌,
  Option, none, some, List, [], ◌∷◌, ltb, leb, ◌==◌, if_elim, length, ◌≢◌, length-append,
  length-drop, get_elem?, drop, count_if, Bool-cases, inl, inr,
}
use coinbasechain.Base.Sorting.{
  sort, sort-IsAscending, length-sort, count_if-sort, ranks, get_elem?-inside,
}
use coinbasechain.Net.Wire.{NetworkAddress}
use coinbasechain.Chain.Timedata.{
  no_offset, default_max_time_adjustment, bitcoin_timedata_max_samples, MedianFilter, input, median,
  TimeData, is_source, is_within, adjust, add_time_data, fresh_time_data, get_adjusted_time,
}

-- At most 200 sources, and as many samples, the first 0 included, of which the other list is the
-- sorted one; the offset is at most 70 minutes.
pub record IsTimely (s : TimeData) : Type 0 where
  pub few : length s.sources ≤ bitcoin_timedata_max_samples
  pub capacity : s.time_offsets.capacity ≡ bitcoin_timedata_max_samples
  pub samples :
      length s.time_offsets.values ≡ min bitcoin_timedata_max_samples (length s.sources + 1)
  pub sorted : s.time_offsets.sorted_values ≡ sort s.time_offsets.values
  pub within : is_within s.time_offset ≡ true

-- At most half of some values are below, and at most half above.
abbrev pub IsMedian : ℕ → List ℕ → Type 0
IsMedian m values =
    (count_if (λ v. ltb v m) values ≤ length values / 2)
    × (count_if (λ v. ltb m v) values ≤ length values / 2)

-- The sample of a source that is not known yet is the last one, and takes the place of the oldest if
-- there are 200.
abbrev pub Counted : NetworkAddress → ℕ → TimeData → TimeData → Type 0
Counted ip sample s s' =
    let values = s.time_offsets.values in
    (length s.sources < bitcoin_timedata_max_samples)
    × (is_source ip s.sources ≡ false)
    × (s'.sources ≡ ip ∷ s.sources)
    × (s'.time_offsets.values
        ≡ (if length values == bitcoin_timedata_max_samples then drop 1 values else values)
          ++ sample ∷ [])

-- With at least five samples, an odd number, the offset is their median, or 0 if that is more than
-- 70 minutes away from it; otherwise it is the old one.
abbrev pub Moved : TimeData → TimeData → Type 0
Moved s s' =
    let values = s'.time_offsets.values in
    ((length values < 5) ⊎ (length values % 2 ≡ 0)) × (s'.time_offset ≡ s.time_offset)
    ⊎ (5 ≤ length values)
      × (length values % 2 ≡ 1)
      × ((m : ℕ) × IsMedian m values × (s'.time_offset ≡ (if is_within m then m else no_offset)))

abbrev pub Adjusted : NetworkAddress → ℕ → TimeData → Option TimeData → Type 0
Adjusted ip sample s o =
    (s' : TimeData) × (o ≡ some s')
    × IsTimely s'
    × (((length s.sources ≡ bitcoin_timedata_max_samples) ⊎ (is_source ip s.sources ≡ true))
          × (s' ≡ s)
        ⊎ Counted ip sample s s' × Moved s s')

middle-IsMedian :
    (values : List ℕ) (m : ℕ)
    → length values % 2 ≡ 1
    → get_elem? (sort values) (length values / 2) ≡ some m
    → IsMedian m values
middle-IsMedian values m odd found =
    let (below, above) =
      ranks (sort values) (length values / 2) m (sort-IsAscending values) found in
    let low = count_if-sort (λ v. ltb v m) values in
    let high = count_if-sort (λ v. ltb m v) values in
    let size = length-sort values in (omega (arith, below, low), omega (arith, above, high, size))

module _ (s : TimeData) (ok : IsTimely s) (ip : NetworkAddress) (sample : ℕ) where
  abbrev counted : TimeData
  counted = record s { sources = ip ∷ s.sources; time_offsets = input sample s.time_offsets }

  abbrev n : ℕ
  n = length counted.time_offsets.values

  counted-size :
      length s.sources < bitcoin_timedata_max_samples
      → n ≡ min bitcoin_timedata_max_samples (length s.sources + 1 + 1)
  unfolding input
  counted-size room =
      let values = s.time_offsets.values in
      elim (Bool-cases (length values == s.time_offsets.capacity)) [
        | inl full ↦
            let same : length values ≡ s.time_offsets.capacity = ground arith in
            rw full (
              omega (
                arith,
                length-append (drop 1 values) (sample ∷ []),
                length-drop 1 values,
                ok.samples,
                ok.capacity,
                same,
              ))
        | inr more ↦
            let other : length values ≢ s.time_offsets.capacity = λ e. ground arith in
            let fewer : length values < bitcoin_timedata_max_samples =
              omega (arith, other, ok.samples, ok.capacity) in
            rw more (omega (arith, length-append values (sample ∷ []), ok.samples, fewer))
      ]

  counted-IsTimely : length s.sources < bitcoin_timedata_max_samples → IsTimely counted
  unfolding input
  counted-IsTimely room = record {
    few = omega (arith, room);
    capacity = ok.capacity;
    samples = omega (arith, counted-size room);
    sorted = refl;
    within = ok.within;
  }

  counted-Counted :
      length s.sources < bitcoin_timedata_max_samples
      → is_source ip s.sources ≡ false
      → Counted ip sample s counted
  unfolding input
  counted-Counted room new = (room, new, refl, rw (ok.capacity) refl)

  adjusted :
      length s.sources < bitcoin_timedata_max_samples
      → is_source ip s.sources ≡ false
      → 5 ≤ n
      → n % 2 ≡ 1
      → (m : ℕ) → get_elem? (sort counted.time_offsets.values) (n / 2) ≡ some m
      → Adjusted ip sample s (some (adjust counted m))
  unfolding adjust input
  adjusted room new five odd m found =
      let start = counted-IsTimely room in
      let middle = middle-IsMedian counted.time_offsets.values m odd found in
      let last = counted-Counted room new in
      elim (Bool-cases (is_within m)) [
        | inl fine ↦ rw fine (
          _,
          refl,
          record {
            few = start.few;
            capacity = start.capacity;
            samples = start.samples;
            sorted = start.sorted;
            within = fine;
          },
          inr (last, inr (five, odd, (m, middle, rw fine refl))),
        )
        | inr wild ↦ rw wild (
          _,
          refl,
          record {
            few = start.few;
            capacity = start.capacity;
            samples = start.samples;
            sorted = start.sorted;
            within = refl;
          },
          inr (last, inr (five, odd, (m, middle, rw wild refl))),
        )
      ]

  median-odd :
      (f : MedianFilter)
      → length f.sorted_values % 2 ≡ 1
      → (m : ℕ) × (get_elem? f.sorted_values (length f.sorted_values / 2) ≡ some m)
        × (median f ≡ some m)
  unfolding median
  median-odd f odd =
      let k = length f.sorted_values / 2 in
      let (m, found) = get_elem?-inside f.sorted_values k (omega arith) in
      let some_values : length f.sorted_values == 0 ≡ false = ground arith in
      let is_odd : length f.sorted_values % 2 == 1 ≡ true = ground arith in
      (m, found, rw (some_values, median) (rw is_odd found))

  -- From a consistent state no assert of AddTimeData fails. With 200 sources, or a source that is
  -- known, nothing changes. Otherwise the source is kept and its sample is the last one, the oldest of
  -- 200 dropped; with at least five samples, an odd number, the offset becomes their median (at most
  -- half of them are below it, and at most half above), or 0 if the median is beyond 70 minutes, and
  -- else it stays. The state is consistent again: at most 200 sources and samples, the other list the
  -- sorted one, the offset at most 70 minutes.
  pub add_time_data-Adjusted : Adjusted ip sample s (add_time_data ip sample s)
  unfolding add_time_data input
  add_time_data-Adjusted =
      if_elim (Adjusted ip sample s) (length s.sources == bitcoin_timedata_max_samples)
        (λ full. same (inl (ground arith)))
        λ not_full.
          let room : length s.sources < bitcoin_timedata_max_samples = ground (arith, ok.few) in
          if_elim (Adjusted ip sample s) (is_source ip s.sources) (λ old. same (inr old))
            λ new.
              if_elim (Adjusted ip sample s) (leb 5 n && n % 2 == 1)
                (λ turn.
                  let odd : n % 2 ≡ 1 = ground arith in
                  let size = length-sort counted.time_offsets.values in
                  let odd' : length counted.time_offsets.sorted_values % 2 ≡ 1 = rw size odd in
                  let (m, found, eq) = median-odd counted.time_offsets odd' in
                  rw eq (adjusted room new (ground arith) odd m (rw size at (found))))
                (λ not_yet.
                  let few_or_even : (n < 5) ⊎ (n % 2 ≡ 0) = elim (Bool-cases (leb 5 n)) [
                    | inl five ↦ inr (ground arith)
                    | inr few ↦ inl (ground arith)
                  ] in
                  (
                    counted,
                    refl,
                    counted-IsTimely room,
                    inr (counted-Counted room new, inl (few_or_even, refl)),
                  ))
    where
      same :
          (length s.sources ≡ bitcoin_timedata_max_samples) ⊎ (is_source ip s.sources ≡ true)
          → Adjusted ip sample s (some s)
      same why = (s, refl, ok, inl (why, refl))

-- One call of AddTimeData after another.
unfoldable pub add_samples : List (NetworkAddress × ℕ) → TimeData → Option TimeData
unfolding add_time_data
add_samples [] s = some s
add_samples ((ip, sample) ∷ xs) s = elim (add_time_data ip sample s) [
  | none ↦ none
  | some s' ↦ add_samples xs s'
]

pub fresh-IsTimely : IsTimely fresh_time_data
unfolding sort
fresh-IsTimely = record {
  few = omega arith;
  capacity = refl;
  samples = refl;
  sorted = refl;
  within = refl;
}

samples-IsTimely :
    (xs : List (NetworkAddress × ℕ)) (s : TimeData)
    → IsTimely s
    → (s' : TimeData) × (add_samples xs s ≡ some s') × IsTimely s'
unfolding add_samples
samples-IsTimely [] s ok = (s, refl, ok)
samples-IsTimely ((ip, sample) ∷ xs) s ok =
    let (s', eq, ok', _) = add_time_data-Adjusted s ok ip sample in
    rw (eq, add_samples) (samples-IsTimely xs s' ok')

-- Whatever samples come in, no assert fails, and the clock is adjusted by at most 70 minutes.
pub add_samples-within :
    (xs : List (NetworkAddress × ℕ)) (now : ℕ)
    → (s : TimeData) × (add_samples xs fresh_time_data ≡ some s)
      × (now + no_offset ≤ get_adjusted_time now s + default_max_time_adjustment)
      × (get_adjusted_time now s ≤ now + no_offset + default_max_time_adjustment)
add_samples-within xs now =
    let (s, eq, ok) = samples-IsTimely xs fresh_time_data fresh-IsTimely in
    let within = ok.within in (s, eq, ground (arith, within), ground (arith, within))
