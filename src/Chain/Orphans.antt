-- ===== src/Chain/Orphans.antt =====
-- chain/chainstate_manager.cpp: the pool of orphan headers (TryAddOrphanHeader, EvictOrphanHeaders
-- and the bookkeeping of ProcessOrphanHeaders), include/chain/chainstate_manager.hpp.
-- Times are seconds since the epoch, peers are numbers, and a map is in its iteration order.
pub mod Counts
pub mod Room
pub mod Admission
mod Tests
use coinbasechain.Base.{
  ℕ, zero, suc, ◌+◌, ◌-◌, ◌≡◌, Bool, true, false, Option, none, some, List, [], ◌∷◌, ltb, leb, ◌==◌,
  if◌then◌else◌, length,
}
use coinbasechain.Base.Map.{has, lookup, insert, erase, nat_key, bytes_key, bytes_eq}
use coinbasechain.Chain.Header.{BlockHeader, get_hash}

abbrev pub max_orphan_headers : ℕ
max_orphan_headers = 1000

abbrev pub max_orphan_headers_per_peer : ℕ
max_orphan_headers_per_peer = 50

pub record OrphanHeader : Type 0 where
  pub header : BlockHeader
  pub time_received : ℕ
  pub peer_id : ℕ

abbrev pub Orphans : Type 0
Orphans = List (List ℕ × OrphanHeader)

abbrev pub PeerCounts : Type 0
PeerCounts = List (ℕ × ℕ)

-- m_orphan_headers and m_peer_orphan_count.
pub record OrphanPool : Type 0 where
  pub orphans : Orphans
  pub peer_count : PeerCounts

-- The value operator[] reads: a missing key counts as 0.
unfoldable pub count_of : ℕ → PeerCounts → ℕ
count_of p c = elim (lookup p c) [ none ↦ 0 | some n ↦ n ]

-- peer_it->second--, and the entry goes when it reaches 0. A count that is there is positive.
unfoldable pub release : ℕ → PeerCounts → PeerCounts
release p c = elim (lookup p c) [
  | none ↦ c
  | some n ↦ if n - 1 == 0 then erase p c else insert p (n - 1) c
]

module _ (now expire_time : ℕ) where
  -- now - nTimeReceived > nOrphanHeaderExpireTime, a signed difference.
  abbrev pub is_expired : OrphanHeader → Bool
  is_expired o = ltb (o.time_received + expire_time) now

  -- Strategy 1 of EvictOrphanHeaders: what is left, the counts, and how many went.
  unfoldable pub evict_expired : Orphans → PeerCounts → Orphans × PeerCounts × ℕ
  evict_expired [] c = ([], c, 0)
  evict_expired ((h, o) ∷ m) c =
      let gone = is_expired o in
      let rest = evict_expired m (if gone then release o.peer_id c else c) in
      if gone then (rest.0, rest.1, rest.2 + 1) else ((h, o) ∷ rest.0, rest.1, rest.2)

-- The scan of strategy 2: the first of those received earliest.
unfoldable pub find_oldest : List ℕ × OrphanHeader → Orphans → List ℕ × OrphanHeader
find_oldest best [] = best
find_oldest best ((h, o) ∷ m) =
    find_oldest (if ltb o.time_received best.1.time_received then (h, o) else best) m

-- An orphan leaves the pool with its count.
unfoldable pub remove : List ℕ → ℕ → OrphanPool → OrphanPool
unfolding release
remove h peer pool = record {
  orphans = erase h pool.orphans;
  peer_count = release peer pool.peer_count;
}

-- Strategy 2: the scan starts at the pool's first entry.
unfoldable pub scan_and_remove : OrphanPool → Orphans → OrphanPool × ℕ
unfolding remove find_oldest
scan_and_remove pool [] = (pool, 0)
scan_and_remove pool (o ∷ rest) =
    let oldest = find_oldest o (o ∷ rest) in (remove oldest.0 oldest.1.peer_id pool, 1)

abbrev pub evict_oldest : OrphanPool → OrphanPool × ℕ
evict_oldest pool = scan_and_remove pool pool.orphans

unfoldable pub evict_orphan_headers : ℕ → ℕ → OrphanPool → OrphanPool × ℕ
unfolding evict_expired scan_and_remove
evict_orphan_headers now expire_time pool =
    let swept = evict_expired now expire_time pool.orphans pool.peer_count in
    let left : OrphanPool = record { orphans = swept.0; peer_count = swept.1 } in
    if swept.2 == 0
    then (if leb max_orphan_headers (length swept.0) then evict_oldest left else (left, 0))
    else (left, swept.2)

-- m_peer_orphan_count[peer_id], which makes an entry of 0 where there is none.
unfoldable pub touch : ℕ → OrphanPool → OrphanPool
unfolding count_of
touch p pool = record pool { peer_count = insert p (count_of p pool.peer_count) pool.peer_count }

unfoldable pub add_orphan : List ℕ → OrphanHeader → OrphanPool → OrphanPool
unfolding count_of
add_orphan h o pool = record {
  orphans = insert h o pool.orphans;
  peer_count = insert o.peer_id (count_of o.peer_id pool.peer_count + 1) pool.peer_count;
}

module _ (sha256 : List ℕ → List ℕ) where
  unfoldable pub try_add_orphan_header : ℕ → ℕ → BlockHeader → ℕ → OrphanPool → OrphanPool × Bool
  unfolding touch count_of evict_orphan_headers add_orphan
  try_add_orphan_header now expire_time header peer pool =
      let hash = get_hash sha256 header in
      let orphan : OrphanHeader = record { header = header; time_received = now; peer_id = peer } in
      let touched = touch peer pool in
      let evicted = evict_orphan_headers now expire_time touched in
      if has hash pool.orphans
      then (pool, true)
      else if leb max_orphan_headers_per_peer (count_of peer touched.peer_count)
      then (touched, false)
      else if leb max_orphan_headers (length touched.orphans)
      then (if evicted.1 == 0 then (evicted.0, false) else (add_orphan hash orphan evicted.0, true))
      else (add_orphan hash orphan touched, true)

-- The orphans that ProcessOrphanHeaders has to process, by hash.
unfoldable pub children : List ℕ → Orphans → List (List ℕ)
children parent [] = []
children parent ((h, o) ∷ m) =
    let rest = children parent m in
    if bytes_eq o.header.hash_prev_block parent then h ∷ rest else rest

-- One turn of its loop: the header to process, once the orphan is out of the pool.
unfoldable pub take_orphan : List ℕ → OrphanPool → Option (BlockHeader × OrphanPool)
unfolding remove
take_orphan h pool = elim (lookup h pool.orphans) [
  | none ↦ none
  | some o ↦ some (o.header, remove h o.peer_id pool)
]

abbrev pub get_orphan_header_count : OrphanPool → ℕ
get_orphan_header_count pool = length pool.orphans
