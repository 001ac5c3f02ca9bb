-- ===== src/Chain/Orphans/Tests.antt =====
-- The orphan pool on concrete headers, with the bytes' first byte for their hash.
use coinbasechain.Base.{ℕ, ◌-◌, ◌≡◌, refl, ◌||◌, some, List, [], ◌∷◌, take, arith, ltb}
use coinbasechain.Base.Map.{has, lookup, bytes_key, bytes_eq, nat_key}
use coinbasechain.Chain.Header.{BlockHeader, get_hash}
use coinbasechain.Chain.Orphans.{
  OrphanHeader, OrphanPool, try_add_orphan_header, count_of, take_orphan, remove, children,
  max_orphan_headers_per_peer, evict_oldest, scan_and_remove, find_oldest,
}
use coinbasechain.Chain.Orphans.Counts.{IsPool, held_by}
use coinbasechain.Chain.Orphans.Admission.{try_add_orphan_header_lem}

abbrev first_byte : List ℕ → List ℕ
first_byte bytes = take 1 bytes

abbrev header : ℕ → BlockHeader
header n = record {
  version = n;
  hash_prev_block = 7 ∷ [];
  miner_address = [];
  time = 0;
  bits = 0;
  nonce = 0;
  hash_random_x = [];
}

abbrev held : ℕ → OrphanHeader
held n = record { header = header n; time_received = 100 - n; peer_id = 3 }

abbrev two_orphans : OrphanPool
two_orphans = record {
  orphans = (1 ∷ [], held 1) ∷ (2 ∷ [], held 2) ∷ [];
  peer_count = (3, 2) ∷ [];
}

two_orphans-IsPool : IsPool two_orphans
unfolding has count_of lookup bytes_eq
two_orphans-IsPool = record {
  distinct = (refl, (refl, tt));
  counted = λ p. ground arith;
  total = omega arith;
  per_peer = λ p. ground arith;
}

try_add_orphan_header_example :
    IsPool (try_add_orphan_header first_byte 100 600 (header 4) 3 two_orphans).0
    × ((try_add_orphan_header first_byte 100 600 (header 4) 3 two_orphans).1 ≡ (
        has (get_hash first_byte (header 4)) two_orphans.orphans
        || ltb (held_by 3 two_orphans.orphans) max_orphan_headers_per_peer))
    × (has
          (get_hash first_byte (header 4))
          (try_add_orphan_header first_byte 100 600 (header 4) 3 two_orphans).0.orphans
        ≡ (try_add_orphan_header first_byte 100 600 (header 4) 3 two_orphans).1)
try_add_orphan_header_example =
    try_add_orphan_header_lem first_byte 100 600 (header 4) 3 two_orphans two_orphans-IsPool

evict_oldest-two : evict_oldest two_orphans ≡ (remove (2 ∷ []) 3 two_orphans, 1)
unfolding scan_and_remove find_oldest
evict_oldest-two = refl

children-two : children (7 ∷ []) two_orphans.orphans ≡ (1 ∷ []) ∷ (2 ∷ []) ∷ []
unfolding children bytes_eq
children-two = refl

taken : take_orphan (1 ∷ []) two_orphans ≡ some (header 1, remove (1 ∷ []) 3 two_orphans)
unfolding take_orphan lookup bytes_eq
taken = refl
