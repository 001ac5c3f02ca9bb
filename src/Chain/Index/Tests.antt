-- ===== src/Chain/Index/Tests.antt =====
-- A short chain of headers, whose hash is the first byte of the header.
use coinbasechain.Base.{
  ℕ, ◌-◌, ◌*◌, ◌≡◌, ◌≢◌, refl, none, some, List, [], ◌∷◌, take, ltb, if◌then◌else◌,
}
use coinbasechain.Base.Map.{has, lookup, insert, bytes_key, bytes_eq, bytes_less}
use coinbasechain.Chain.Header.{BlockHeader, get_hash, serialize, all_zero}
use coinbasechain.Chain.Arith.{get_block_proof, set_compact}
use coinbasechain.Chain.Index.{
  BlockIndex, Index, add_to_block_index, get_ancestor, get_skip_height, new_entry,
}
use coinbasechain.Chain.Index.Ancestors.{up, IsIndex}
use coinbasechain.Chain.Index.Skips.{get_ancestor-up}
use coinbasechain.Chain.Index.Adding.{Added, add_to_block_index-IsIndex}

abbrev first_byte : List ℕ → List ℕ
first_byte bytes = take 1 bytes

abbrev header : ℕ → List ℕ → BlockHeader
header n prev = record {
  version = n;
  hash_prev_block = prev;
  miner_address = [];
  time = 100 * n;
  bits = 0x207fffff;
  nonce = 0;
  hash_random_x = [];
}

empty-IsIndex : IsIndex []
unfolding lookup
empty-IsIndex = record { distinct = tt; linked = λ b e h. cc; skips = λ b e s h k. cc }

abbrev genesis : BlockHeader
genesis = header 1 []

abbrev one_block : Index
one_block = (add_to_block_index first_byte genesis []).0

genesis-other : genesis.hash_prev_block ≢ get_hash first_byte genesis
unfolding get_hash serialize
genesis-other e = cc

add_to_block_index-IsIndex_example :
    Added first_byte genesis [] (add_to_block_index first_byte genesis [])
add_to_block_index-IsIndex_example =
    add_to_block_index-IsIndex first_byte genesis [] empty-IsIndex genesis-other

one_block-IsIndex : IsIndex one_block
one_block-IsIndex = (add_to_block_index-IsIndex first_byte genesis [] empty-IsIndex genesis-other).0

genesis-found : lookup (1 ∷ []) one_block ≡ some (new_entry genesis none 0 2 100)
unfolding add_to_block_index get_hash serialize has lookup insert bytes_eq bytes_less all_zero
    get_block_proof set_compact
genesis-found = refl

get_ancestor-up_example :
    get_ancestor one_block (1 ∷ []) 0 ≡ (if ltb 0 0 then none else up one_block (0 - 0) (1 ∷ []))
get_ancestor-up_example =
    get_ancestor-up one_block (1 ∷ []) (new_entry genesis none 0 2 100) 0 one_block-IsIndex
      genesis-found

-- The second block is one higher, on the first.
second_block :
    (e : BlockIndex) × (lookup
        (2 ∷ [])
        (add_to_block_index first_byte (header 2 (1 ∷ [])) one_block).0
      ≡ some e)
    × (e.height ≡ 1)
    × (e.prev ≡ some (1 ∷ []))
    × (e.skip ≡ some (1 ∷ []))
    × (e.chain_work ≡ 4)
unfolding add_to_block_index get_hash serialize has lookup insert bytes_eq bytes_less all_zero
    get_block_proof set_compact get_ancestor get_skip_height
second_block = (_, refl, refl, refl, refl, refl)
