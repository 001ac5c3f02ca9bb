-- ===== src/Chain/Contextual.antt =====
-- chain/validation.cpp: ContextualCheckBlockHeader; GetMedianTimePast of include/chain/block_index.hpp.
-- A failed assert of GetNextWorkRequired is `throws`. The adjusted time is not negative.
pub mod Median
pub mod Explained
mod Tests
use coinbasechain.Base.{
  ℕ, zero, suc, ◌+◌, ◌-◌, ◌*◌, ◌/◌, ◌^◌, Bool, true, false, not, ◌&&◌, ◌||◌, Option, none, some,
  List, [], ◌∷◌, ltb, leb, ◌==◌, if◌then◌else◌, length, get_elem?,
}
use coinbasechain.Base.Map.{lookup, bytes_key}
use coinbasechain.Base.Sorting.{sort}
use coinbasechain.Chain.Header.{BlockHeader}
use coinbasechain.Chain.Index.{Hash, BlockIndex, Index}
use coinbasechain.Chain.Pow.{ConsensusParams, get_next_work_required}

-- The reject reasons of the validation of headers.
pub data Reject : Type 0 where
  high_hash bad_diffbits time_too_old time_too_new bad_version network_expired : Reject
  duplicate bad_genesis genesis_via_accept prev_blk_not_found bad_prevblk : Reject
  too_little_chainwork : Reject

-- ValidationState, and an exception on the way.
pub data ValidationState : Type 0 where
  valid : ValidationState
  invalid : Reject → ValidationState
  error throws : ValidationState

abbrev pub median_time_span : ℕ
median_time_span = 11

abbrev pub max_future_block_time : ℕ
max_future_block_time = 2 * 60 * 60

-- The times of the last n blocks, from one back.
unfoldable pub last_times : Index → ℕ → Hash → List ℕ
last_times m zero b = []
last_times m (suc n) b = elim (lookup b m) [
  | none ↦ []
  | some e ↦ e.time ∷ elim e.prev [ none ↦ [] | some p ↦ last_times m n p ]
]

-- The middle of the sorted times; the default stands for a block that is not in the index.
unfoldable pub middle : List ℕ → ℕ
unfolding sort
middle times = elim (get_elem? (sort times) (length times / 2)) [ none ↦ 0 | some t ↦ t ]

unfoldable pub get_median_time_past : Index → Hash → ℕ
unfolding last_times middle
get_median_time_past m b = middle (last_times m median_time_span b)

-- nVersion is an int32_t, whose bits the header keeps.
abbrev pub is_old_version : ℕ → Bool
is_old_version version = version == 0 || leb (2 ^ 31) version

abbrev pub next_height : Index → Option Hash → ℕ
next_height m none = 0
next_height m (some p) = elim (lookup p m) [ none ↦ 0 | some e ↦ e.height + 1 ]

abbrev pub is_too_old : Index → Option Hash → ℕ → Bool
is_too_old m none time = false
is_too_old m (some p) time = leb time (get_median_time_past m p)

unfoldable pub contextual_check_block_header :
    ConsensusParams → Index → Option Hash → ℕ → BlockHeader → ValidationState
unfolding get_median_time_past get_next_work_required
contextual_check_block_header params m prev adjusted_time header =
    elim (get_next_work_required params m prev) [
      | none ↦ throws
      | some expected_bits ↦
          if not (header.bits == expected_bits)
          then invalid bad_diffbits
          else if is_too_old m prev header.time
          then invalid time_too_old
          else if ltb (adjusted_time + max_future_block_time) header.time
          then invalid time_too_new
          else if is_old_version header.version
          then invalid bad_version
          else if ltb 0 params.network_expiration_interval
              && leb params.network_expiration_interval (next_height m prev)
          then invalid network_expired
          else valid
    ]
