-- ===== src/Chain/Index.antt =====
-- chain/block_index.cpp, include/chain/block_index.hpp and BlockManager::AddToBlockIndex of
-- chain/block_manager.cpp: the map of block headers and its links.
-- A pointer to a CBlockIndex is the hash that is its key, and nullptr is `none`; an entry is never
-- erased while another points to it. Chain work is a number modulo 2^256, heights are not negative.
pub mod Ancestors
pub mod Skips
pub mod Extending
pub mod Adding
pub mod Changing
mod Tests
use coinbasechain.Base.{
  ℕ, zero, suc, ◌+◌, ◌-◌, ◌/◌, ◌%◌, ◌^◌, max, bit_and, ◌≡◌, Bool, true, false, not, ◌&&◌, ◌||◌,
  Option, none, some, List, [], ◌∷◌, ltb, leb, ◌==◌, if◌then◌else◌,
}
use coinbasechain.Base.Map.{has, lookup, insert, erase, bytes_key, bytes_eq}
use coinbasechain.Chain.Header.{BlockHeader, get_hash, all_zero, null_hash}
use coinbasechain.Chain.Arith.{get_block_proof}

abbrev pub Hash : Type 0
Hash = List ℕ

pub record BlockIndex : Type 0 where
  pub status : ℕ
  pub prev : Option Hash
  pub skip : Option Hash
  pub height : ℕ
  pub chain_work : ℕ
  pub version : ℕ
  pub miner_address : List ℕ
  pub time : ℕ
  pub bits : ℕ
  pub nonce : ℕ
  pub hash_random_x : List ℕ
  pub time_received : ℕ
  pub time_max : ℕ

abbrev pub Index : Type 0
Index = List (Hash × BlockIndex)

abbrev pub block_valid_tree : ℕ
block_valid_tree = 2

abbrev pub block_failed_valid : ℕ
block_failed_valid = 32

abbrev pub block_failed_child : ℕ
block_failed_child = 64

-- nStatus & BLOCK_FAILED_MASK
abbrev pub is_failed : BlockIndex → Bool
is_failed e = not (bit_and e.status 96 == 0)

unfoldable pub is_valid : ℕ → BlockIndex → Bool
is_valid up_to e = if is_failed e then false else leb up_to (bit_and e.status 255)

-- RaiseValidity, with whether it changed the entry; the status has 32 bits.
unfoldable pub raise_validity : ℕ → BlockIndex → BlockIndex × Bool
raise_validity up_to e =
    if is_failed e
    then (e, false)
    else if ltb (bit_and e.status 255) up_to
    then (record e { status = e.status - bit_and e.status 255 + up_to }, true)
    else (e, false)

abbrev pub parent : Index → Hash → Option Hash
parent m b = elim (lookup b m) [ none ↦ none | some e ↦ e.prev ]

unfoldable pub invert_lowest_one : ℕ → ℕ
invert_lowest_one n = bit_and n (n - 1)

unfoldable pub get_skip_height : ℕ → ℕ
unfolding invert_lowest_one
get_skip_height height =
    if ltb height 2
    then 0
    else if bit_and height 1 == 1
    then invert_lowest_one (invert_lowest_one (height - 1)) + 1
    else invert_lowest_one height

-- Whether the loop of GetAncestor takes the skip pointer of a block at `walk`; the subtraction of 2
-- is signed.
abbrev pub takes_skip : ℕ → ℕ → Bool
takes_skip height walk =
    let skip = get_skip_height walk in
    let skip_prev = get_skip_height (walk - 1) in
    skip == height || ltb height skip && not (ltb (skip_prev + 2) skip && leb height skip_prev)

-- One turn of the loop; `none` where the assert on pprev fails.
unfoldable pub walk_step : Index → ℕ → ℕ → Hash → Option (ℕ × Hash)
walk_step m height walk b = elim (lookup b m) [
  | none ↦ none
  | some e ↦
      let back : Option (ℕ × Hash) = elim e.prev [ none ↦ none | some p ↦ some (walk - 1, p) ] in
      elim e.skip [
        | none ↦ back
        | some s ↦ if takes_skip height walk then some (get_skip_height walk, s) else back
      ]
]

unfoldable pub walk_back : Index → ℕ → ℕ → ℕ → Hash → Option Hash
unfolding walk_step
walk_back m height zero walk b = none
walk_back m height (suc fuel) walk b = elim (ltb height walk) [
  | false ↦ some b
  | true ↦ elim (walk_step m height walk b) [
    | none ↦ none
    | some next ↦ walk_back m height fuel next.0 next.1
  ]
]

-- Each turn lowers the height, so the height and one more are fuel enough.
unfoldable pub get_ancestor : Index → Hash → ℕ → Option Hash
unfolding walk_back
get_ancestor m b height = elim (lookup b m) [
  | none ↦ none
  | some e ↦ if ltb e.height height then none else walk_back m height (e.height + 1) e.height b
]

-- CBlockIndex(header), with the fields that AddToBlockIndex sets from the parent.
abbrev pub new_entry : BlockHeader → Option Hash → ℕ → ℕ → ℕ → BlockIndex
new_entry header prev height chain_work time_max = record {
  status = 0;
  prev = prev;
  skip = none;
  height = height;
  chain_work = chain_work;
  version = header.version;
  miner_address = header.miner_address;
  time = header.time;
  bits = header.bits;
  nonce = header.nonce;
  hash_random_x = header.hash_random_x;
  time_received = 0;
  time_max = time_max;
}

-- BuildSkip for an entry whose parent is set.
abbrev pub build_skip : Index → Hash → BlockIndex → BlockIndex
build_skip m p e = record e { skip = get_ancestor m p (get_skip_height e.height) }

module _ (sha256 : List ℕ → List ℕ) where
  unfoldable pub add_to_block_index : BlockHeader → Index → Index × Option Hash
  unfolding get_ancestor get_skip_height get_block_proof all_zero
  add_to_block_index header m =
      let hash = get_hash sha256 header in
      if has hash m
      then (m, some hash)
      else let created = insert hash (new_entry header none 0 0 0) m in
        elim (lookup header.hash_prev_block created) [
          | none ↦
              if not (all_zero header.hash_prev_block)
              then (erase hash created, none)
              else let genesis =
                  new_entry header none 0 (get_block_proof header.bits) header.time in
                (insert hash genesis created, some hash)
          | some p ↦
              let work = (p.chain_work + get_block_proof header.bits) % 2 ^ 256 in
              let entry =
                new_entry header (some header.hash_prev_block) (p.height + 1) work
                  (max p.time_max header.time) in
              let linked = insert hash entry created in
              (insert hash (build_skip linked header.hash_prev_block entry) linked, some hash)
        ]
