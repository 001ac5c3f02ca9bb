-- ===== src/Chain/Orphans/Admission.antt =====
-- Orphans that are admitted to the pool and taken from it.
use coinbasechain.Base.{
  ℕ, ◌+◌, ◌<◌, ◌≡◌, Bool, true, false, ◌||◌, some, List, ltb, leb, ◌==◌, ==_iff, length, arith,
  Option-cases, inl, inr, if_elim,
}
use coinbasechain.Base.Map.{
  has, lookup, nat_key, bytes_key, has-insert, Distinct-insert, length-insert, count-insert_new,
  bytes_eq_refl,
}
use coinbasechain.Chain.Header.{BlockHeader, get_hash}
use coinbasechain.Chain.Orphans.{
  OrphanHeader, OrphanPool, count_of, remove, evict_orphan_headers, touch, add_orphan,
  try_add_orphan_header, take_orphan, max_orphan_headers, max_orphan_headers_per_peer,
}
use coinbasechain.Chain.Orphans.Counts.{held_by, IsPool, count_of-insert, remove-IsPool}
use coinbasechain.Chain.Orphans.Room.{
  evict_orphan_headers-IsPool, evict_orphan_headers-room, evict_orphan_headers-Shrinks,
  remove-length,
}

touch-IsPool : (p : ℕ) (pool : OrphanPool) → IsPool pool → IsPool (touch p pool)
unfolding touch
touch-IsPool p pool ok = record {
  distinct = ok.distinct;
  counted = λ q. ground (
    arith,
    ==_iff p q,
    ok.counted q,
    count_of-insert q p (count_of p pool.peer_count) pool.peer_count,
  );
  total = ok.total;
  per_peer = ok.per_peer;
}

add_orphan-IsPool :
    (h : List ℕ) (o : OrphanHeader) (pool : OrphanPool)
    → has h pool.orphans ≡ false
    → held_by o.peer_id pool.orphans < max_orphan_headers_per_peer
    → length pool.orphans < max_orphan_headers
    → IsPool pool
    → IsPool (add_orphan h o pool)
unfolding add_orphan
add_orphan-IsPool h o pool new few room ok = record {
  distinct = Distinct-insert h o pool.orphans ok.distinct;
  counted = λ p. ground (
    arith,
    ==_iff o.peer_id p,
    ok.counted p,
    count_of-insert p o.peer_id (count_of o.peer_id pool.peer_count + 1) pool.peer_count,
    count-insert_new (λ x. x.peer_id == p) h o pool.orphans new,
  );
  total = ground (arith, length-insert h o pool.orphans);
  per_peer = λ p. ground (
    arith,
    ==_iff o.peer_id p,
    ok.per_peer p,
    count-insert_new (λ x. x.peer_id == p) h o pool.orphans new,
  );
}

pub take_orphan-IsPool :
    (h : List ℕ) (pool : OrphanPool) (header : BlockHeader) (left : OrphanPool)
    → IsPool pool
    → take_orphan h pool ≡ some (header, left)
    → IsPool left × (length left.orphans + 1 ≡ length pool.orphans)
unfolding take_orphan
take_orphan-IsPool h pool header left ok e = elim (Option-cases (lookup h pool.orphans)) [
  | inl absent ↦ absurd (ground (arith, e))
  | inr (o, found) ↦
      let same : remove h o.peer_id pool ≡ left = ground (arith, e) in
      rw (← same) (remove-IsPool h o pool found ok, remove-length h o pool found ok)
]

module _ (sha256 : List ℕ → List ℕ) (now expire_time : ℕ) where
  -- From a pool within its limits TryAddOrphanHeader keeps it within them; it refuses exactly a
  -- header it does not hold from a peer that has 50 orphans; and a header it takes is in the pool.
  pub try_add_orphan_header_lem :
      (header : BlockHeader) (peer : ℕ) (pool : OrphanPool)
      → IsPool pool
      → IsPool (try_add_orphan_header sha256 now expire_time header peer pool).0
        × (((try_add_orphan_header sha256 now expire_time header peer pool).1) ≡ (
            has (get_hash sha256 header) pool.orphans
            || ltb (held_by peer pool.orphans) max_orphan_headers_per_peer))
        × (has
              (get_hash sha256 header)
              (try_add_orphan_header sha256 now expire_time header peer pool).0.orphans
            ≡ (try_add_orphan_header sha256 now expire_time header peer pool).1)
  unfolding try_add_orphan_header touch add_orphan
  try_add_orphan_header_lem header peer pool ok =
      let ok' = touch-IsPool peer pool ok in
      let counted = ok'.counted peer in
      if_elim Right (has hash pool.orphans) (λ old. (ok, ground arith, old))
        λ new.
          if_elim Right (leb max_orphan_headers_per_peer (count_of peer touched.peer_count))
            (λ many. (ok', ground (arith, counted), new))
            λ few.
              if_elim Right (leb max_orphan_headers (length touched.orphans))
                (λ full.
                  let room = evict_orphan_headers-room now expire_time touched ok' (ground arith) in
                  if_elim Right (evicted.1 == 0) (λ none_went. absurd (ground (arith, room.0)))
                    (λ _.
                      let less =
                        evict_orphan_headers-Shrinks now expire_time touched ok' (ground arith) in
                      admitted evicted.0 new (ground (arith, counted)) (less.no_new hash new)
                        (ground (arith, less.fewer peer, counted)) room.1
                        (evict_orphan_headers-IsPool now expire_time touched ok')))
                (λ free.
                  admitted touched new (ground (arith, counted)) new (ground (arith, counted))
                    (ground arith) ok')
    where
      hash : List ℕ
      hash = get_hash sha256 header

      orphan : OrphanHeader
      orphan = record { header = header; time_received = now; peer_id = peer }

      touched : OrphanPool
      touched = touch peer pool

      evicted : OrphanPool × ℕ
      evicted = evict_orphan_headers now expire_time touched

      Right : OrphanPool × Bool → Type 0
      Right r =
          IsPool r.0
          × (r.1 ≡ (
              has hash pool.orphans || ltb (held_by peer pool.orphans) max_orphan_headers_per_peer))
          × (has hash r.0.orphans ≡ r.1)

      admitted :
          (room : OrphanPool)
          → has hash pool.orphans ≡ false
          → held_by peer pool.orphans < max_orphan_headers_per_peer
          → has hash room.orphans ≡ false
          → held_by peer room.orphans < max_orphan_headers_per_peer
          → length room.orphans < max_orphan_headers
          → IsPool room
          → Right (add_orphan hash orphan room, true)
      admitted room new small new' few free ok = (
        add_orphan-IsPool hash orphan room new' few free ok,
        ground arith,
        ground (arith, bytes_eq_refl hash, has-insert hash hash orphan room.orphans),
      )
