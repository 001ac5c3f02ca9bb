-- ===== src/Chain/Orphans/Counts.antt =====
-- The counts of the orphan pool.
use coinbasechain.Base.{
  ℕ, ◌+◌, ◌-◌, ◌≤◌, ◌≡◌, refl, false, some, List, [], ◌∷◌, ◌==◌, ==_iff, if◌then◌else◌, length,
  arith, Option-cases, inl, inr,
}
use coinbasechain.Base.Map.{
  has, lookup, insert, erase, nat_key, bytes_key, Distinct, lookup-insert, lookup-erase,
  Distinct-erase, length-erase, count, count-erase, lookup-has,
}
use coinbasechain.Chain.Orphans.{
  OrphanHeader, Orphans, PeerCounts, OrphanPool, count_of, release, evict_expired, remove,
  max_orphan_headers, max_orphan_headers_per_peer,
}

abbrev pub held_by : ℕ → Orphans → ℕ
held_by p m = count (λ o. o.peer_id == p) m

-- Each peer's count is the number of its orphans, and both limits hold.
pub record IsPool (pool : OrphanPool) : Type 0 where
  pub distinct : Distinct pool.orphans
  pub counted : (p : ℕ) → count_of p pool.peer_count ≡ held_by p pool.orphans
  pub total : length pool.orphans ≤ max_orphan_headers
  pub per_peer : (p : ℕ) → held_by p pool.orphans ≤ max_orphan_headers_per_peer

pub count_of-insert :
    (p q n : ℕ) (c : PeerCounts) → count_of p (insert q n c) ≡ (if q == p then n else count_of p c)
unfolding count_of
count_of-insert p q n c = ground (arith, lookup-insert q p n c)

count_of-erase :
    (p q : ℕ) (c : PeerCounts) → count_of p (erase q c) ≡ (if q == p then 0 else count_of p c)
unfolding count_of
count_of-erase p q c = ground (arith, lookup-erase q p c)

pub count_of-release :
    (p q : ℕ) (c : PeerCounts)
    → count_of p (release q c) ≡ (if q == p then count_of p c - 1 else count_of p c)
unfolding release count_of
count_of-release p q c = elim (Option-cases (lookup q c)) [
  | inl e ↦ rw (e, release) (ground (arith, ==_iff q p))
  | inr (n, e) ↦
      rw (e, release)
        (ground (arith, ==_iff q p, count_of-erase p q c, count_of-insert p q (n - 1) c))
]

-- Every peer is counted in full before the sweep, and so it is after it.
evict_expired-counts :
    (now expire_time p : ℕ) (m : Orphans) (c : PeerCounts)
    → held_by p m ≤ count_of p c
    → (count_of p (evict_expired now expire_time m c).1 + held_by p m)
      ≡ (count_of p c + held_by p (evict_expired now expire_time m c).0)
unfolding evict_expired
evict_expired-counts now expire_time p [] c h = refl
evict_expired-counts now expire_time p ((k, o) ∷ m) c h = ground (
  arith,
  ==_iff o.peer_id p,
  count_of-release p o.peer_id c,
  evict_expired-counts now expire_time p m (release o.peer_id c),
  evict_expired-counts now expire_time p m c,
)

pub evict_expired-has :
    (now expire_time : ℕ) (k : List ℕ) (m : Orphans) (c : PeerCounts)
    → has k m ≡ false
    → has k (evict_expired now expire_time m c).0 ≡ false
unfolding evict_expired has
evict_expired-has now expire_time k [] c h = refl
evict_expired-has now expire_time k ((j, o) ∷ m) c h = ground (
  arith,
  evict_expired-has now expire_time k m (release o.peer_id c),
  evict_expired-has now expire_time k m c,
)

evict_expired-Distinct :
    (now expire_time : ℕ) (m : Orphans) (c : PeerCounts)
    → Distinct m
    → Distinct (evict_expired now expire_time m c).0
unfolding evict_expired
evict_expired-Distinct now expire_time [] c d = tt
evict_expired-Distinct now expire_time ((j, o) ∷ m) c d = ground (
  arith,
  evict_expired-has now expire_time j m c,
  evict_expired-Distinct now expire_time m (release o.peer_id c),
  evict_expired-Distinct now expire_time m c,
)

-- The number evicted is the number of entries gone.
pub evict_expired-length :
    (now expire_time : ℕ) (m : Orphans) (c : PeerCounts)
    → length (evict_expired now expire_time m c).0 + (evict_expired now expire_time m c).2
      ≡ length m
unfolding evict_expired
evict_expired-length now expire_time [] c = refl
evict_expired-length now expire_time ((j, o) ∷ m) c = ground (
  arith,
  evict_expired-length now expire_time m (release o.peer_id c),
  evict_expired-length now expire_time m c,
)

pub evict_expired-held :
    (now expire_time p : ℕ) (m : Orphans) (c : PeerCounts)
    → held_by p (evict_expired now expire_time m c).0 ≤ held_by p m
unfolding evict_expired
evict_expired-held now expire_time p [] c = omega arith
evict_expired-held now expire_time p ((j, o) ∷ m) c = ground (
  arith,
  evict_expired-held now expire_time p m (release o.peer_id c),
  evict_expired-held now expire_time p m c,
)

pub evict_expired-IsPool :
    (now expire_time : ℕ) (pool : OrphanPool)
    → IsPool pool
    → IsPool (record {
      orphans = (evict_expired now expire_time pool.orphans pool.peer_count).0;
      peer_count = (evict_expired now expire_time pool.orphans pool.peer_count).1;
    })
evict_expired-IsPool now expire_time pool ok = record {
  distinct = evict_expired-Distinct now expire_time pool.orphans pool.peer_count ok.distinct;
  counted = λ p.
      omega
        (arith, ok.counted p, evict_expired-counts now expire_time p pool.orphans pool.peer_count);
  total =
      omega (arith, ok.total, evict_expired-length now expire_time pool.orphans pool.peer_count);
  per_peer = λ p.
      omega
        (arith, ok.per_peer p, evict_expired-held now expire_time p pool.orphans pool.peer_count);
}

-- An orphan that leaves the pool leaves its peer's count.
pub remove-IsPool :
    (h : List ℕ) (o : OrphanHeader) (pool : OrphanPool)
    → lookup h pool.orphans ≡ some o
    → IsPool pool
    → IsPool (remove h o.peer_id pool)
unfolding remove
remove-IsPool h o pool found ok = record {
  distinct = Distinct-erase h pool.orphans ok.distinct;
  counted = λ p. ground (
    arith,
    ==_iff o.peer_id p,
    ok.counted p,
    count_of-release p o.peer_id pool.peer_count,
    count-erase (λ x. x.peer_id == p) h pool.orphans o ok.distinct found,
  );
  total =
      omega (
        arith,
        ok.total,
        length-erase h pool.orphans ok.distinct (lookup-has h pool.orphans found),
      );
  per_peer = λ p.
      ground (
        arith,
        ok.per_peer p,
        count-erase (λ x. x.peer_id == p) h pool.orphans o ok.distinct found,
      );
}
