-- ===== src/Chain/Active/Forks.antt =====
-- The last common ancestor of two blocks.
use coinbasechain.Base.{
  ℕ, zero, suc, ◌+◌, ◌-◌, ◌<◌, ◌≤◌, ◌≡◌, ◌≢◌, refl, sym, ap, subst, ◌∙◌, arith, false, Option, none,
  some, ltb, ltb-false, ltb→lt, if◌then◌else◌, Option_elim, Bool_elim, Option-cases, Bool-cases,
  inl, inr,
}
use coinbasechain.Base.Map.{lookup, bytes_key, bytes_eq, bytes_eq_iff}
use coinbasechain.Chain.Index.{Hash, BlockIndex, Index, parent, get_ancestor}
use coinbasechain.Chain.Index.Ancestors.{up, Linked, IsIndex, up-suc, up-add, up-height}
use coinbasechain.Chain.Active.{walk_together, last_common_ancestor}
use coinbasechain.Chain.Index.Skips.{same_end, get_ancestor-up}

-- For two blocks of one height: the first step back at which they meet, if they do.
abbrev Meets : Index → Hash → Hash → ℕ → Option Hash → Type 0
Meets m a b h none = (k : ℕ) → k ≤ h → up m k a ≢ up m k b
Meets m a b h (some c) =
    (n : ℕ) × (n ≤ h)
    × (up m n a ≡ some c)
    × (up m n b ≡ some c)
    × ((k : ℕ) → k < n → up m k a ≢ up m k b)

module _ (m : Index) (ok : IsIndex m) where
  -- Steps back from the parents, and one step more from the blocks.
  Meets-parents :
      (a b a' b' : Hash) (ea eb : BlockIndex) (h : ℕ) (r : Option Hash)
      → lookup a m ≡ some ea
      → lookup b m ≡ some eb
      → ea.prev ≡ some a'
      → eb.prev ≡ some b'
      → a ≢ b
      → Meets m a' b' h r
      → Meets m a b (suc h) r
  unfolding up
  Meets-parents a b a' b' ea eb h none fa fb la lb other meets = apart
    where
      apart : (k : ℕ) → k ≤ suc h → up m k a ≢ up m k b
      apart zero low e = other cc
      apart (suc k) low e =
          meets k (omega arith) (sym (up-suc m k a a' ea fa la) ∙ (e ∙ up-suc m k b b' eb fb lb))
  Meets-parents a b a' b' ea eb h (some c) fa fb la lb other (n, low, pa, pb, first) =
      (suc n, omega arith, up-suc m n a a' ea fa la ∙ pa, up-suc m n b b' eb fb lb ∙ pb, apart)
    where
      apart : (k : ℕ) → k < suc n → up m k a ≢ up m k b
      apart zero low e = other cc
      apart (suc k) low e =
          first k (omega arith) (sym (up-suc m k a a' ea fa la) ∙ (e ∙ up-suc m k b b' eb fb lb))

  no_parent : (b : Hash) (e : BlockIndex) → lookup b m ≡ some e → parent m b ≡ none → e.height ≡ 0
  no_parent b e h root = elim (Option-cases e.prev) [
    | inl none_there ↦ (rw none_there at (ok.linked b e h)).0
    | inr (p, linked) ↦ absurd (ground (arith, h))
  ]

  prev_of :
      (b : Hash) (e : BlockIndex)
      → lookup b m ≡ some e
      → (p : Hash) → parent m b ≡ some p
      → e.prev ≡ some p
  prev_of b e h p there = ground (arith, h)

  walk_together-Meets :
      (fuel : ℕ) (a b : Hash) (ea eb : BlockIndex)
      → lookup a m ≡ some ea
      → lookup b m ≡ some eb
      → ea.height ≡ eb.height
      → ea.height < fuel
      → Meets m a b ea.height (walk_together m fuel a b)
  unfolding walk_together up
  walk_together-Meets zero a b ea eb fa fb level enough = absurd (omega arith)
  walk_together-Meets (suc fuel) a b ea eb fa fb level enough =
      Bool_elim (Meets m a b ea.height) (bytes_eq a b)
        (λ same. (
          0,
          omega arith,
          refl,
          ap some (sym ((bytes_eq_iff a b).0 same)),
          λ k low. absurd (omega arith),
        ))
        λ other.
          let differ : a ≢ b = λ e. ground (arith, bytes_eq_iff a b) in
          Option_elim (Meets m a b ea.height) (parent m a)
            (λ root k low e.
              let z : k ≡ 0 = omega (arith, no_parent a ea fa root) in
              let here : up m 0 a ≡ up m 0 b = (rw z at (e)) in differ cc)
            λ a' pa.
              let la = prev_of a ea fa a' pa in
              let (qa, fa', higher, _, _) : Linked m ea (some a') =
                (rw la at (ok.linked a ea fa)) in
              Option_elim (Meets m a b ea.height) (parent m b)
                (λ root. absurd (omega (arith, no_parent b eb fb root)))
                λ b' pb.
                  let lb = prev_of b eb fb b' pb in
                  let (qb, fb', higher', _, _) : Linked m eb (some b') =
                    (rw lb at (ok.linked b eb fb)) in
                  let up_one : ea.height ≡ suc qa.height = omega arith in
                  rw up_one (
                    Meets-parents a b a' b' ea eb qa.height (walk_together m fuel a' b') fa fb la lb
                      differ
                      (walk_together-Meets fuel a' b' qa qb fa' fb' (omega arith) (omega arith)))

  -- No block has more ancestors than its height.
  up-le :
      (n : ℕ) (b x : Hash) (e : BlockIndex) → lookup b m ≡ some e → up m n b ≡ some x → n ≤ e.height
  unfolding up
  up-le zero b x e h k = omega arith
  up-le (suc n) b x e h k = elim (Option-cases (parent m b)) [
    | inl root ↦ absurd (ground (arith, k))
    | inr (p, there) ↦
        let linked = prev_of b e h p there in
        let (q, found, higher, _, _) : Linked m e (some p) = (rw linked at (ok.linked b e h)) in
        omega (arith, up-le n p x q found (sym (up-suc m n b p e h linked) ∙ k))
  ]

-- The last common ancestor, or that there is none, from the index alone.
abbrev pub LastCommon : Index → Hash → Hash → Option Hash → Type 0
LastCommon m a b none = (i j : ℕ) (x : Hash) → up m i a ≡ some x → up m j b ≢ some x
LastCommon m a b (some c) =
    (i : ℕ) × (j : ℕ) × (up m i a ≡ some c)
    × (up m j b ≡ some c)
    × ((i' j' : ℕ) (x : Hash) → up m i' a ≡ some x → up m j' b ≡ some x → (i ≤ i') × (j ≤ j'))

module _ (m : Index) (ok : IsIndex m) where
  lowered :
      (a : Hash) (ea : BlockIndex) (h : ℕ)
      → lookup a m ≡ some ea
      → (if ltb h ea.height then get_ancestor m a h else some a) ≡ up m (ea.height - h) a
  unfolding up
  lowered a ea h fa = elim (Bool-cases (ltb h ea.height)) [
    | inl above ↦
        let inside : ltb ea.height h ≡ false = ground arith in
        rw above (get_ancestor-up m a ea h ok fa ∙ (rw inside refl))
    | inr low ↦ let z : ea.height - h ≡ 0 = ground arith in rw (low, z) refl
  ]

  pub ancestor_height :
      (i : ℕ) (a z : Hash) (ea : BlockIndex)
      → lookup a m ≡ some ea
      → up m i a ≡ some z
      → (q : BlockIndex) × (lookup z m ≡ some q) × (q.height + i ≡ ea.height)
  ancestor_height i a z ea fa path =
      let low = up-le m ok i a z ea fa path in
      let (c, q, path', found, level) = up-height m ok i a ea fa low in
      let same : c ≡ z = same_end (up m i a) path' path in
      (q, subst (λ w. lookup w m ≡ some q) same found, omega arith)

  module _ (a b x y : Hash) (ea eb : BlockIndex) where
    module _ (fa : lookup a m ≡ some ea) (fb : lookup b m ≡ some eb) where
      abbrev da : ℕ
      da = ea.height - eb.height

      abbrev db : ℕ
      db = eb.height - ea.height

      module _ (px : up m da a ≡ some x) (py : up m db b ≡ some y) where
        -- A common ancestor of the blocks is one of their ancestors at one height.
        met :
            (i j : ℕ) (z : Hash)
            → up m i a ≡ some z
            → up m j b ≡ some z
            → (k : ℕ) × (i ≡ da + k) × (j ≡ db + k) × (k ≤ ea.height - da) × (up m k x ≡ up m k y)
        met i j z pa pb =
            let (q, found, level) = ancestor_height i a z ea fa pa in
            let (q', found', level') = ancestor_height j b z eb fb pb in
            let same : q ≡ q' = same_end (lookup z m) found found' in
            let heights : q.height ≡ q'.height = ap (λ (e : BlockIndex). e.height) same in
            let split : i ≡ da + (i - da) = omega arith in
            let split' : j ≡ db + (i - da) = omega arith in
            let from_x : up m (da + (i - da)) a ≡ some z = (rw split at (pa)) in
            let from_y : up m (db + (i - da)) b ≡ some z = (rw split' at (pb)) in
            (
              i - da,
              split,
              split',
              omega arith,
              sym (up-add m da (i - da) a x px)
                  ∙ (from_x ∙ (sym from_y ∙ up-add m db (i - da) b y py)),
            )

        Meets-LastCommon : (r : Option Hash) → Meets m x y (ea.height - da) r → LastCommon m a b r
        Meets-LastCommon none apart =
            λ i j z pa pb. let (k, _, _, low, same) = met i j z pa pb in apart k low same
        Meets-LastCommon (some c) (n, low, pc, pc', first) = (
          da + n,
          db + n,
          up-add m da n a x px ∙ pc,
          up-add m db n b y py ∙ pc',
          λ i j z pa pb.
              let (k, si, sj, low', same) = met i j z pa pb in
              let later : n ≤ k = elim (Bool-cases (ltb k n)) [
                | inl before ↦ absurd (first k (ltb→lt k n before) same)
                | inr after ↦ ltb-false k n after
              ] in
              (omega arith, omega arith),
        )

  from_level :
      (a b x y : Hash) (ea eb qx qy : BlockIndex)
      → lookup a m ≡ some ea
      → lookup b m ≡ some eb
      → up m (ea.height - eb.height) a ≡ some x
      → up m (eb.height - ea.height) b ≡ some y
      → lookup x m ≡ some qx
      → lookup y m ≡ some qy
      → qx.height ≡ ea.height - (ea.height - eb.height)
      → qy.height ≡ eb.height - (eb.height - ea.height)
      → LastCommon m a b (last_common_ancestor m a b)
  unfolding last_common_ancestor
  from_level a b x y ea eb qx qy fa fb px py fx fy hx hy =
      let low : (if ltb eb.height ea.height then get_ancestor m a eb.height else some a) ≡ some x =
        lowered a ea eb.height fa ∙ px in
      let low' : (if ltb ea.height eb.height then get_ancestor m b ea.height else some b) ≡ some y =
        lowered b eb ea.height fb ∙ py in
      let meets =
        walk_together-Meets m ok (ea.height + 1) x y qx qy fx fy (omega arith) (omega arith) in
      rw (fa, last_common_ancestor)
        (simp (fb, low, low')
          (Meets-LastCommon a b x y ea eb fa fb px py (walk_together m (ea.height + 1) x y)
            (rw hx at (meets))))

  -- LastCommonAncestor finds the block where two branches part: an ancestor of both, such that each
  -- common ancestor is one of its own. It finds none only if there is no common ancestor.
  pub last_common_ancestor-LastCommon :
      (a b : Hash) (ea eb : BlockIndex)
      → lookup a m ≡ some ea
      → lookup b m ≡ some eb
      → LastCommon m a b (last_common_ancestor m a b)
  last_common_ancestor-LastCommon a b ea eb fa fb =
      let (x, qx, px, fx, hx) = up-height m ok (ea.height - eb.height) a ea fa (omega arith) in
      let (y, qy, py, fy, hy) = up-height m ok (eb.height - ea.height) b eb fb (omega arith) in
      from_level a b x y ea eb qx qy fa fb px py fx fy hx hy
