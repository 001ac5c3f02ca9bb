-- ===== src/Chain/Index/Ancestors.antt =====
-- Going from parent to parent in a well-formed index: what the skip list abbreviates.
use coinbasechain.Base.{
  ℕ, zero, suc, ◌+◌, ◌-◌, ◌%◌, ◌^◌, ◌≤◌, max, ◌≡◌, refl, ◌∙◌, arith, Option, none, some,
  Option-cases, inl, inr,
}
use coinbasechain.Base.Map.{lookup, bytes_key, Distinct}
use coinbasechain.Chain.Arith.{get_block_proof}
use coinbasechain.Chain.Index.{Hash, BlockIndex, Index, parent, get_skip_height}

-- The block that is n parents back.
unfoldable pub up : Index → ℕ → Hash → Option Hash
up m zero b = some b
up m (suc n) b = elim (parent m b) [ none ↦ none | some p ↦ up m n p ]

-- An entry agrees with its parent, which is in the index.
abbrev pub Linked : Index → BlockIndex → Option Hash → Type 0
Linked m e none = (e.height ≡ 0) × (e.chain_work ≡ get_block_proof e.bits) × (e.time_max ≡ e.time)
Linked m e (some p) =
    (q : BlockIndex) × (lookup p m ≡ some q)
    × (e.height ≡ q.height + 1)
    × (e.chain_work ≡ (q.chain_work + get_block_proof e.bits) % 2 ^ 256)
    × (e.time_max ≡ max q.time_max e.time)

pub record IsIndex (m : Index) : Type 0 where
  pub distinct : Distinct m
  pub linked : (b : Hash) (e : BlockIndex) → lookup b m ≡ some e → Linked m e e.prev
  pub skips :
      (b : Hash) (e : BlockIndex) (s : Hash)
      → lookup b m ≡ some e
      → e.skip ≡ some s
      → up m (e.height - get_skip_height e.height) b ≡ some s

pub up-suc :
    (m : Index) (n : ℕ) (b p : Hash) (e : BlockIndex)
    → lookup b m ≡ some e
    → e.prev ≡ some p
    → up m (suc n) b ≡ up m n p
unfolding up
up-suc m n b p e h k = let there : parent m b ≡ some p = ground arith in rw (there, up) refl

pub up-add : (m : Index) (j k : ℕ) (b c : Hash) → up m j b ≡ some c → up m (j + k) b ≡ up m k c
unfolding up
up-add m zero k b c h =
    let same : b ≡ c = cc in let n : 0 + k ≡ k = omega arith in rw (n, same) refl
up-add m (suc j) k b c h = elim (Option-cases (parent m b)) [
  | inl none_there ↦ absurd (ground (arith, h))
  | inr (p, there) ↦
      let n : suc j + k ≡ suc (j + k) = omega arith in
      let rest : up m j p ≡ some c = (rw (there, up) at (h)) in
      rw n (rw (there, up) (up-add m j k p c rest))
]

module _ (m : Index) (ok : IsIndex m) where
  -- A block above height 0 has its parent in the index, one lower.
  pub parent_of :
      (b : Hash) (e : BlockIndex)
      → lookup b m ≡ some e
      → 1 ≤ e.height
      → (p : Hash) × (q : BlockIndex) × (e.prev ≡ some p)
        × (lookup p m ≡ some q)
        × (e.height ≡ q.height + 1)
  parent_of b e h high = elim (Option-cases e.prev) [
    | inl genesis ↦
        let (zero_height, _, _) : Linked m e none = (rw genesis at (ok.linked b e h)) in
        absurd (omega arith)
    | inr (p, linked) ↦
        let (q, there, height, _, _) : Linked m e (some p) = (rw linked at (ok.linked b e h)) in
        (p, q, linked, there, height)
  ]

  -- Every block has an ancestor at every lower height.
  pub up-height :
      (n : ℕ) (b : Hash) (e : BlockIndex)
      → lookup b m ≡ some e
      → n ≤ e.height
      → (c : Hash) × (q : BlockIndex) × (up m n b ≡ some c)
        × (lookup c m ≡ some q)
        × (q.height ≡ e.height - n)
  unfolding up
  up-height zero b e h low = (b, e, refl, h, omega arith)
  up-height (suc n) b e h low =
      let (p, q, linked, there, height) = parent_of b e h (omega arith) in
      let (c, r, path, found, level) = up-height n p q there (omega arith) in
      (c, r, up-suc m n b p e h linked ∙ path, found, omega arith)
