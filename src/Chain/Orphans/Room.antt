-- ===== src/Chain/Orphans/Room.antt =====
-- Making room in the orphan pool, and what a run of calls keeps.
use coinbasechain.Base.{
  ℕ, ◌+◌, ◌≤◌, ◌<◌, ◌≡◌, ◌≢◌, ap, false, some, List, [], ◌∷◌, ltb, leb, ◌==◌, if◌then◌else◌, length,
  arith, All, inl, inr, List-cases, if_elim,
}
use coinbasechain.Base.Map.{
  has, lookup, nat_key, bytes_key, Distinct, has-erase, length-erase, count-erase, lookup-has,
  Distinct-listed,
}
use coinbasechain.Chain.Orphans.{
  OrphanHeader, Orphans, PeerCounts, OrphanPool, evict_expired, find_oldest, remove, evict_oldest,
  scan_and_remove, evict_orphan_headers, max_orphan_headers,
}
use coinbasechain.Chain.Orphans.Counts.{
  held_by, IsPool, evict_expired-length, evict_expired-IsPool, remove-IsPool, evict_expired-has,
  evict_expired-held,
}

find_oldest-listed :
    (best : List ℕ × OrphanHeader) (m all : Orphans)
    → lookup best.0 all ≡ some best.1
    → All (λ x. lookup x.0 all ≡ some x.1) m
    → lookup (find_oldest best m).0 all ≡ some (find_oldest best m).1
unfolding find_oldest
find_oldest-listed best [] all h a = h
find_oldest-listed best ((k, o) ∷ m) all h a =
    find_oldest-listed (if ltb o.time_received best.1.time_received then (k, o) else best) m all
      (if_elim {A = List ℕ × OrphanHeader} (λ x. lookup x.0 all ≡ some x.1)
        (ltb o.time_received best.1.time_received) (λ _. a.0) (λ _. h))
      a.1

-- Nothing in the pool was received before the orphan that the scan finds.
find_oldest-le :
    (best : List ℕ × OrphanHeader) (m : Orphans)
    → ((find_oldest best m).1.time_received ≤ best.1.time_received)
      × All (λ x. (find_oldest best m).1.time_received ≤ x.1.time_received) m
unfolding find_oldest
find_oldest-le best [] = (omega arith, tt)
find_oldest-le best ((k, o) ∷ m) =
    ground
      (arith, find_oldest-le (if ltb o.time_received best.1.time_received then (k, o) else best) m)

-- Strategy 2 takes out exactly one orphan, and none that stays was received before it.
pub evict_oldest_lem :
    (pool : OrphanPool)
    → IsPool pool
    → 1 ≤ length pool.orphans
    → (h : List ℕ) × (o : OrphanHeader) × (lookup h pool.orphans ≡ some o)
      × All (λ x. o.time_received ≤ x.1.time_received) pool.orphans
      × (evict_oldest pool ≡ (remove h o.peer_id pool, 1))
unfolding scan_and_remove
evict_oldest_lem pool ok some_there = elim (List-cases pool.orphans) [
  | inl e ↦ let nil : length pool.orphans ≡ 0 = ap length e in absurd (omega arith)
  | inr (x, rest, e) ↦
      let oldest = find_oldest x (x ∷ rest) in
      let d : Distinct (x ∷ rest) = (rw e at (ok.distinct)) in
      let entries = Distinct-listed (x ∷ rest) d in
      (
        oldest.0,
        oldest.1,
        rw e (find_oldest-listed x (x ∷ rest) (x ∷ rest) entries.0 entries),
        rw e ((find_oldest-le x (x ∷ rest)).1),
        ap (scan_and_remove pool) e,
      )
]

evict_oldest-IsPool : (pool : OrphanPool) → IsPool pool → IsPool (evict_oldest pool).0
unfolding scan_and_remove
evict_oldest-IsPool pool ok = elim (List-cases pool.orphans) [
  | inl e ↦ rw (ap (scan_and_remove pool) e) ok
  | inr (x, rest, e) ↦
      let some_there : 1 ≤ length pool.orphans = rw e (omega arith) in
      let (h, o, found, _, step) = evict_oldest_lem pool ok some_there in
      rw step (remove-IsPool h o pool found ok)
]

pub evict_orphan_headers-IsPool :
    (now expire_time : ℕ) (pool : OrphanPool)
    → IsPool pool
    → IsPool (evict_orphan_headers now expire_time pool).0
unfolding evict_orphan_headers
evict_orphan_headers-IsPool now expire_time pool ok =
    let ok' = evict_expired-IsPool now expire_time pool ok in
    if_elim Kept (swept.2 == 0)
      (λ _.
        if_elim Kept (leb max_orphan_headers (length swept.0)) (λ _. evict_oldest-IsPool left ok')
          (λ _. ok'))
      (λ _. ok')
  where
    Kept : OrphanPool × ℕ → Type 0
    Kept r = IsPool r.0

    swept : Orphans × PeerCounts × ℕ
    swept = evict_expired now expire_time pool.orphans pool.peer_count

    left : OrphanPool
    left = record { orphans = swept.0; peer_count = swept.1 }

pub remove-length :
    (h : List ℕ) (o : OrphanHeader) (pool : OrphanPool)
    → lookup h pool.orphans ≡ some o
    → IsPool pool
    → length (remove h o.peer_id pool).orphans + 1 ≡ length pool.orphans
unfolding remove
remove-length h o pool found ok =
    length-erase h pool.orphans ok.distinct (lookup-has h pool.orphans found)

-- A full pool always makes room: the branch that gives up is never taken.
pub evict_orphan_headers-room :
    (now expire_time : ℕ) (pool : OrphanPool)
    → IsPool pool
    → max_orphan_headers ≤ length pool.orphans
    → ((evict_orphan_headers now expire_time pool).1 ≢ 0)
      × (length (evict_orphan_headers now expire_time pool).0.orphans < max_orphan_headers)
unfolding evict_orphan_headers
evict_orphan_headers-room now expire_time pool ok full =
    let ok' = evict_expired-IsPool now expire_time pool ok in
    let sum = evict_expired-length now expire_time pool.orphans pool.peer_count in
    if_elim Made (swept.2 == 0)
      (λ none_went.
        if_elim Made (leb max_orphan_headers (length swept.0))
          (λ big.
            let (h, o, found, _, step) = evict_oldest_lem left ok' (ground arith) in
            rw step (ground arith, ground (arith, remove-length h o left found ok')))
          (λ small. ground (arith, sum)))
      (λ some_went. ground (arith, sum, ok.total))
  where
    Made : OrphanPool × ℕ → Type 0
    Made r = (r.1 ≢ 0) × (length r.0.orphans < max_orphan_headers)

    swept : Orphans × PeerCounts × ℕ
    swept = evict_expired now expire_time pool.orphans pool.peer_count

    left : OrphanPool
    left = record { orphans = swept.0; peer_count = swept.1 }

-- What eviction leaves was there before.
pub record Shrinks (before after : OrphanPool) : Type 0 where
  pub fewer : (p : ℕ) → held_by p after.orphans ≤ held_by p before.orphans
  pub no_new : (h : List ℕ) → has h before.orphans ≡ false → has h after.orphans ≡ false

remove-Shrinks :
    (h : List ℕ) (o : OrphanHeader) (pool : OrphanPool)
    → lookup h pool.orphans ≡ some o
    → IsPool pool
    → Shrinks pool (remove h o.peer_id pool)
unfolding remove
remove-Shrinks h o pool found ok = record {
  fewer = λ p. ground (arith, count-erase (λ x. x.peer_id == p) h pool.orphans o ok.distinct found);
  no_new = λ k. ground (arith, has-erase h k pool.orphans);
}

pub evict_orphan_headers-Shrinks :
    (now expire_time : ℕ) (pool : OrphanPool)
    → IsPool pool
    → max_orphan_headers ≤ length pool.orphans
    → Shrinks pool (evict_orphan_headers now expire_time pool).0
unfolding evict_orphan_headers
evict_orphan_headers-Shrinks now expire_time pool ok full =
    let ok' = evict_expired-IsPool now expire_time pool ok in
    let swept_shrinks : Shrinks pool left = record {
      fewer = λ p. evict_expired-held now expire_time p pool.orphans pool.peer_count;
      no_new = λ h. evict_expired-has now expire_time h pool.orphans pool.peer_count;
    } in
    if_elim Less (swept.2 == 0)
      (λ none_went.
        if_elim Less (leb max_orphan_headers (length swept.0))
          (λ big.
            let (h, o, found, _, step) = evict_oldest_lem left ok' (ground arith) in
            let less = remove-Shrinks h o left found ok' in
            rw step (record {
              fewer = λ p. omega (arith, less.fewer p, swept_shrinks.fewer p);
              no_new = λ k a. less.no_new k (swept_shrinks.no_new k a);
            }))
          (λ small. swept_shrinks))
      (λ some_went. swept_shrinks)
  where
    Less : OrphanPool × ℕ → Type 0
    Less r = Shrinks pool r.0

    swept : Orphans × PeerCounts × ℕ
    swept = evict_expired now expire_time pool.orphans pool.peer_count

    left : OrphanPool
    left = record { orphans = swept.0; peer_count = swept.1 }
