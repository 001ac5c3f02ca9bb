-- ===== src/Chain/Contextual/Median.antt =====
-- A time after the median is later than more than half of the last times, and only such a time is.
use coinbasechain.Base.{ℕ, suc, ◌+◌, ◌/◌, ◌≤◌, ◌<◌, ◌≡◌, arith, some, List, ltb, length, count_if}
use coinbasechain.Base.Map.{lookup, bytes_key}
use coinbasechain.Base.Sorting.{
  sort, sort-IsAscending, count_if-sort, length-sort, ranks, count_if_below_mono, below_or_above,
  get_elem?-inside,
}
use coinbasechain.Chain.Index.{Hash, BlockIndex, Index}
use coinbasechain.Chain.Contextual.{last_times, middle, get_median_time_past, median_time_span}

-- How many of the last eleven times from a block back are before a time, and how many there are.
abbrev pub earlier : Index → Hash → ℕ → ℕ
earlier m b time = count_if (λ x. ltb x time) (last_times m median_time_span b)

abbrev pub span : Index → Hash → ℕ
span m b = length (last_times m median_time_span b)

last_times-some :
    (m : Index) (n : ℕ) (b : Hash) (e : BlockIndex)
    → lookup b m ≡ some e
    → 1 ≤ length (last_times m (suc n) b)
unfolding last_times
last_times-some m n b e h = rw (h, last_times) (omega arith)

middle_ranks :
    (xs : List ℕ)
    → 1 ≤ length xs
    → (count_if (λ x. ltb x (middle xs)) xs ≤ length xs / 2)
      × (count_if (λ x. ltb (middle xs) x) xs + length xs / 2 + 1 ≤ length xs)
unfolding middle
middle_ranks xs h =
    let size = length-sort xs in
    let (v, there) = get_elem?-inside (sort xs) (length xs / 2) (omega (arith, size)) in
    let (low, high) = ranks (sort xs) (length xs / 2) v (sort-IsAscending xs) there in
    rw (there, middle)
      (
        omega (arith, low, count_if-sort (λ x. ltb x v) xs),
        omega (arith, high, size, count_if-sort (λ x. ltb v x) xs),
      )

median_ranks :
    (m : Index) (b : Hash) (e : BlockIndex)
    → lookup b m ≡ some e
    → let v = get_median_time_past m b in
      (earlier m b v ≤ span m b / 2)
      × (count_if (λ x. ltb v x) (last_times m median_time_span b) + span m b / 2 + 1 ≤ span m b)
unfolding get_median_time_past
median_ranks m b e h = middle_ranks (last_times m median_time_span b) (last_times-some m 10 b e h)

pub after_median :
    (m : Index) (b : Hash) (e : BlockIndex) (time : ℕ)
    → lookup b m ≡ some e
    → get_median_time_past m b < time
    → span m b / 2 < earlier m b time
after_median m b e time h late =
    let (_, high) = median_ranks m b e h in
    omega
      (arith, below_or_above (get_median_time_past m b) time (last_times m median_time_span b) late)

pub until_median :
    (m : Index) (b : Hash) (e : BlockIndex) (time : ℕ)
    → lookup b m ≡ some e
    → time ≤ get_median_time_past m b
    → earlier m b time ≤ span m b / 2
until_median m b e time h early =
    let (low, _) = median_ranks m b e h in
    omega (
      arith,
      count_if_below_mono time (get_median_time_past m b) (last_times m median_time_span b) early,
    )
