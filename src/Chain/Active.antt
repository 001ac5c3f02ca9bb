-- ===== src/Chain/Active.antt =====
-- chain/chain.cpp, include/chain/chain.hpp: the active chain, one block for each height, and
-- LastCommonAncestor of chain/block_index.cpp. A slot that resize made and nothing filled is `none`.
pub mod Filling
pub mod Tip
pub mod Forks
mod Tests
use coinbasechain.Base.{
  ℕ, zero, suc, ◌+◌, ◌-◌, ◌*◌, ◌≡◌, Bool, true, false, not, ◌&&◌, ◌||◌, Option, none, some, List,
  [], ◌∷◌, ◌++◌, ltb, leb, ◌==◌, if◌then◌else◌, length, get_elem?, take, replicate,
}
use coinbasechain.Base.Map.{lookup, bytes_key, bytes_eq}
use coinbasechain.Chain.Index.{Hash, BlockIndex, Index, parent, get_ancestor}

abbrev pub Chain : Type 0
Chain = List (Option Hash)

-- The slot at a height, `none` past the end as for a null pointer.
abbrev pub at : Chain → ℕ → Option Hash
at c h = elim (get_elem? c h) [ none ↦ none | some o ↦ o ]

abbrev pub genesis : Chain → Option Hash
genesis c = at c 0

-- Height() + 1.
abbrev pub count : Chain → ℕ
count c = length c

abbrev pub tip : Chain → Option Hash
tip c = at c (count c - 1)

abbrev pub is_block : Option Hash → Hash → Bool
is_block none b = false
is_block (some x) b = bytes_eq x b

unfoldable pub contains : Index → Chain → Hash → Bool
contains m c b = elim (lookup b m) [ none ↦ false | some e ↦ is_block (at c e.height) b ]

unfoldable pub next : Index → Chain → Hash → Option Hash
unfolding contains
next m c b = elim (lookup b m) [
  | none ↦ none
  | some e ↦ if contains m c b then at c (e.height + 1) else none
]

-- vector::resize.
abbrev pub resize : ℕ → Chain → Chain
resize n c = take n c ++ replicate (n - length c) none

abbrev pub set_slot : ℕ → Hash → Chain → Chain
set_slot h b [] = []
set_slot zero b (x ∷ c) = some b ∷ c
set_slot (suc h) b (x ∷ c) = x ∷ set_slot h b c

-- The loop of SetTip from a block back, until a slot is right already. A height past the end, which
-- resizes in the source, does not come up: the heights go down from the tip's.
unfoldable pub fill : Index → ℕ → Hash → Chain → Chain
fill m zero b c = c
fill m (suc fuel) b c = elim (lookup b m) [
  | none ↦ c
  | some e ↦
      let resized = if leb (length c) e.height then resize (e.height + 1) c else c in
      elim (is_block (at resized e.height) b) [
        | true ↦ resized
        | false ↦
            let set = set_slot e.height b resized in
            elim e.prev [ none ↦ set | some p ↦ fill m fuel p set ]
      ]
]

-- As many turns as the tip has heights are fuel enough.
unfoldable pub set_tip : Index → Hash → Chain → Chain
unfolding fill
set_tip m b c = elim (lookup b m) [
  | none ↦ c
  | some e ↦ fill m (e.height + 1) b (resize (e.height + 1) c)
]

-- The loop of FindFork, back to a block of the chain.
unfoldable pub walk_to_chain : Index → Chain → ℕ → Hash → Option Hash
unfolding contains
walk_to_chain m c zero b = none
walk_to_chain m c (suc fuel) b = elim (contains m c b) [
  | true ↦ some b
  | false ↦ elim (parent m b) [ none ↦ none | some p ↦ walk_to_chain m c fuel p ]
]

unfoldable pub find_fork : Index → Chain → Hash → Option Hash
unfolding walk_to_chain get_ancestor
find_fork m c b = elim (lookup b m) [
  | none ↦ none
  | some e ↦
      let start =
        if not (leb (count c) e.height)
        then some b
        else if count c == 0
        then none
        else get_ancestor m b (count c - 1) in
      elim start [ none ↦ none | some a ↦ walk_to_chain m c (e.height + 1) a ]
]

-- The loop of LastCommonAncestor, both blocks back in step.
unfoldable pub walk_together : Index → ℕ → Hash → Hash → Option Hash
walk_together m zero a b = none
walk_together m (suc fuel) a b = elim (bytes_eq a b) [
  | true ↦ some a
  | false ↦ elim (parent m a) [
    | none ↦ none
    | some a' ↦ elim (parent m b) [ none ↦ some a' | some b' ↦ walk_together m fuel a' b' ]
  ]
]

unfoldable pub last_common_ancestor : Index → Hash → Hash → Option Hash
unfolding walk_together get_ancestor
last_common_ancestor m a b = elim (lookup a m) [
  | none ↦ none
  | some ea ↦ elim (lookup b m) [
    | none ↦ none
    | some eb ↦
        let a' = if ltb eb.height ea.height then get_ancestor m a eb.height else some a in
        let b' = if ltb ea.height eb.height then get_ancestor m b ea.height else some b in
        elim a' [
          | none ↦ none
          | some x ↦ elim b' [ none ↦ none | some y ↦ walk_together m (ea.height + 1) x y ]
        ]
  ]
]
