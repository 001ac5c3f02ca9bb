-- ===== src/Chain/Contextual/Explained.antt =====
-- What each outcome of ContextualCheckBlockHeader says of the header.
use coinbasechain.Base.{ℕ, ◌+◌, ◌/◌, ◌^◌, ◌≤◌, ◌<◌, ◌≡◌, ◌≢◌, ◌⊎◌, none, some}
use coinbasechain.Base.Map.{bytes_key}
use coinbasechain.Chain.Header.{BlockHeader}
use coinbasechain.Chain.Index.{Hash, Index}
use coinbasechain.Chain.Pow.{ConsensusParams, get_next_work_required}
use coinbasechain.Chain.Contextual.{
  high_hash, bad_diffbits, time_too_old, time_too_new, bad_version, network_expired, duplicate,
  bad_genesis, genesis_via_accept, prev_blk_not_found, bad_prevblk, too_little_chainwork,
  ValidationState, valid, invalid, error, throws, max_future_block_time, next_height,
}
use coinbasechain.Chain.Contextual.Median.{earlier, span}

module _ (params : ConsensusParams) (m : Index) (p : Hash) (adjusted_time : ℕ)
    (header : BlockHeader) where
  -- More than half of the last eleven times, or of as many as there are, are before the header's.
  abbrev pub IsLate : Type 0
  IsLate = span m p / 2 < earlier m p header.time

  abbrev pub Expired : Type 0
  Expired =
      (1 ≤ params.network_expiration_interval)
      × (params.network_expiration_interval ≤ next_height m (some p))

  abbrev pub Fits : ℕ → Type 0
  Fits bits =
      (header.bits ≡ bits)
      × IsLate
      × (header.time ≤ adjusted_time + max_future_block_time)
      × (1 ≤ header.version)
      × (header.version < 2 ^ 31)
      × ((params.network_expiration_interval ≡ 0)
          ⊎ (next_height m (some p) < params.network_expiration_interval))

  -- The outcome, by the header, the chain before it and the bits that are required.
  abbrev pub Explained : ValidationState → Type 0
  Explained valid = (bits : ℕ) × (get_next_work_required params m (some p) ≡ some bits) × Fits bits
  Explained (invalid bad_diffbits) =
      (bits : ℕ) × (get_next_work_required params m (some p) ≡ some bits) × (header.bits ≢ bits)
  Explained (invalid time_too_old) = earlier m p header.time ≤ span m p / 2
  Explained (invalid time_too_new) = adjusted_time + max_future_block_time < header.time
  Explained (invalid bad_version) = (header.version ≡ 0) ⊎ (2 ^ 31 ≤ header.version)
  Explained (invalid network_expired) = Expired
  Explained (invalid high_hash) = ⊥
  Explained (invalid duplicate) = ⊥
  Explained (invalid bad_genesis) = ⊥
  Explained (invalid genesis_via_accept) = ⊥
  Explained (invalid prev_blk_not_found) = ⊥
  Explained (invalid bad_prevblk) = ⊥
  Explained (invalid too_little_chainwork) = ⊥
  Explained error = ⊥
  Explained throws = get_next_work_required params m (some p) ≡ none
