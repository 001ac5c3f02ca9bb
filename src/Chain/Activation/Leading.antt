-- ===== src/Chain/Activation/Leading.antt =====
-- What ConnectTip and DisconnectTip make of a chain that holds the ancestors of its tip.
use mathlib.Core.List.{append-nil, append_assoc, map-append, reverse-cons}
use coinbasechain.Base.{
  ℕ, zero, suc, ◌+◌, ◌-◌, ◌<◌, ◌≡◌, ◌≢◌, refl, sym, ap, ◌∙◌, arith, true, false, none, some, List,
  [], ◌∷◌, ◌++◌, map, reverse, if◌then◌else◌, Bool-cases, Option-cases, inl, inr, length,
}
use coinbasechain.Base.Map.{lookup, bytes_key, bytes_eq, bytes_eq_iff}
use coinbasechain.Chain.Index.{Hash, BlockIndex, Index, parent}
use coinbasechain.Chain.Index.Ancestors.{up, Linked, IsIndex}
use coinbasechain.Chain.Active.{Chain, tip, set_tip}
use coinbasechain.Chain.Active.Forks.{ancestor_height}
use coinbasechain.Chain.Index.Skips.{same_end}
use coinbasechain.Chain.Active.Filling.{Consistent, Holds}
use coinbasechain.Chain.Active.Tip.{set_tip-Holds}
use coinbasechain.Chain.Activation.{
  Chainstate, Notice, block_connected, block_disconnected, Attempt, connect_tip, disconnect_tip,
  disconnect_to, branch, connect_all,
}

-- The chain holds a block's ancestors, one for each height, and nothing else; what it holds fits
-- the index.
pub record Leads (m : Index) (c : Chain) (b : Hash) (e : BlockIndex) : Type 0 where
  pub known : lookup b m ≡ some e
  pub at_tip : tip c ≡ some b
  pub size : length c ≡ e.height + 1
  pub holds : Holds m c b e.height
  pub consistent : (h : ℕ) → Consistent m c h

-- The blocks from one back, n of them.
abbrev pub path : Index → ℕ → Hash → List Hash
path m zero b = []
path m (suc n) b = b ∷ elim (parent m b) [ none ↦ [] | some p ↦ path m n p ]

pub not_same : (f b : Hash) → b ≢ f → bytes_eq f b ≡ false
not_same f b h = elim (Bool-cases (bytes_eq f b)) [
  | inl same ↦ absurd (h (sym ((bytes_eq_iff f b).0 same)))
  | inr other ↦ other
]

module _ (m : Index) (ok : IsIndex m) where
  pub set_tip-Leads :
      (b : Hash) (e : BlockIndex) (c : Chain)
      → lookup b m ≡ some e
      → ((h : ℕ) → Consistent m c h)
      → Leads m (set_tip m b c) b e
  unfolding up
  set_tip-Leads b e c found good =
      let (size, holds, fits) = set_tip-Holds m b e c ok found good in
      let last : length (set_tip m b c) - 1 ≡ e.height - 0 = omega (arith, size) in
      record {
        known = found;
        at_tip = rw last (holds 0 (omega arith));
        size = size;
        holds = holds;
        consistent = fits;
      }

  parent-up :
      (n : ℕ) (b f : Hash)
      → up m (suc n) b ≡ some f
      → (p : Hash) × (parent m b ≡ some p) × (up m n p ≡ some f)
  unfolding up
  parent-up n b f h = elim (Option-cases (parent m b)) [
    | inl root ↦ absurd (ground (arith, h))
    | inr (p, there) ↦ (p, there, (rw (there, up) at (h)))
  ]

  -- A block is not among its own ancestors.
  up-other :
      (n : ℕ) (b f : Hash) (e : BlockIndex) → lookup b m ≡ some e → up m (suc n) b ≡ some f → b ≢ f
  up-other n b f e h k same =
      let (q, found, level) = ancestor_height m ok (suc n) b f e h k in
      let eq : q ≡ e = same_end (lookup b m) (rw (← same) at (found)) h in
      let flat : q.height ≡ e.height = ap (λ (x : BlockIndex). x.height) eq in omega arith

  parent_known :
      (b p : Hash) (e : BlockIndex)
      → lookup b m ≡ some e
      → parent m b ≡ some p
      → (q : BlockIndex) × (lookup p m ≡ some q) × (e.height ≡ q.height + 1)
  parent_known b p e h there =
      let linked : e.prev ≡ some p = ground (arith, h) in
      let (q, found, higher, _, _) : Linked m e (some p) = (rw linked at (ok.linked b e h)) in
      (q, found, higher)

  pub branch-path :
      (n fuel : ℕ) (b f : Hash) (e : BlockIndex)
      → lookup b m ≡ some e
      → up m n b ≡ some f
      → n < fuel
      → branch m (some f) fuel b ≡ path m n b
  unfolding branch up
  branch-path n zero b f e h k low = absurd (omega arith)
  branch-path zero (suc fuel) b f e h k low =
      let same : b ≡ f = cc in
      let here : bytes_eq f b ≡ true = (bytes_eq_iff f b).1 (sym same) in rw (here, branch) refl
  branch-path (suc n) (suc fuel) b f e h k low =
      let (p, there, above) = parent-up n b f k in
      let (q, found, _) = parent_known b p e h there in
      let other : bytes_eq f b ≡ false = not_same f b (up-other n b f e h k) in
      let rest = branch-path n fuel p f q found above (omega arith) in
      rw (other, branch) (rw there (ap (λ r. b ∷ r) rest))

module _ (s : Chainstate) (ok : IsIndex s.index) where
  abbrev m : Index
  m = s.index

  -- The state with another chain, after some notices.
  abbrev pub moved : Chain → List Notice → Attempt
  moved c events = record { state = record s { chain = c }; events = events; done = true }

  abbrev pub Moved : Hash → BlockIndex → List Notice → Attempt → Type 0
  Moved b e events a = (c : Chain) × Leads m c b e × (a ≡ moved c events)

  pub disconnect_tip-moved :
      (c : Chain) (b p : Hash) (events : List Notice)
      → tip c ≡ some b
      → parent m b ≡ some p
      → disconnect_tip (record s { chain = c }) events
        ≡ moved (set_tip m p c) (events ++ block_disconnected b ∷ [])
  unfolding disconnect_tip
  disconnect_tip-moved c b p events h k = rw (h, disconnect_tip) (rw k refl)

  -- The loop that disconnects goes back to the fork, block by block.
  pub disconnect_to-Moved :
      (n fuel : ℕ) (t f : Hash) (e ef : BlockIndex) (c : Chain) (events : List Notice)
      (taken : List Hash)
      → Leads m c t e
      → lookup f m ≡ some ef
      → up m n t ≡ some f
      → n < fuel
      → Moved f ef
          (events ++ map block_disconnected (path m n t))
          (disconnect_to fuel f (some t) (moved c events) taken).0
  unfolding disconnect_to up
  disconnect_to-Moved n zero t f e ef c events taken leads known k low = absurd (omega arith)
  disconnect_to-Moved zero (suc fuel) t f e ef c events taken leads known k low =
      let same : t ≡ f = cc in
      let here : bytes_eq t f ≡ true = (bytes_eq_iff t f).1 same in
      let entry : e ≡ ef = same_end (lookup f m) (rw same at (leads.known)) known in
      (
        c,
        rw (← entry) (rw (← same) leads),
        rw (here, disconnect_to) (ap (moved c) (sym (append-nil events))),
      )
  disconnect_to-Moved (suc n) (suc fuel) t f e ef c events taken leads known k low =
      let (p, there, above) = parent-up m ok n t f k in
      let (q, found, _) = parent_known m ok t p e leads.known there in
      let other : bytes_eq t f ≡ false =
        not_same t f (λ z. up-other m ok n t f e leads.known k (sym z)) in
      let leads' = set_tip-Leads m ok p q c found leads.consistent in
      let (c', end, eq) =
        disconnect_to-Moved n fuel p f q ef (set_tip m p c) (events ++ block_disconnected t ∷ [])
          (taken ++ t ∷ []) leads' known above (omega arith) in
      let step = disconnect_tip-moved c t p events leads.at_tip there in
      let go_on : Attempt → Attempt × List Hash = λ a. elim a.done [
        | false ↦ (a, taken ++ t ∷ [])
        | true ↦ disconnect_to fuel f (tip a.state.chain) a (taken ++ t ∷ [])
      ] in
      let turn : (disconnect_to (suc fuel) f (some t) (moved c events) taken).0
          ≡ (disconnect_to fuel f (some p)
              (moved (set_tip m p c) (events ++ block_disconnected t ∷ [])) (taken ++ t ∷ [])).0 =
        rw (other, disconnect_to) (ap (λ a. (go_on a).0) step ∙ rw (leads'.at_tip) refl) in
      (
        c',
        end,
        turn
            ∙ (eq
                ∙ ap (moved c') (
                    rw there (
                      append_assoc events (block_disconnected t ∷ [])
                        (map block_disconnected (path m n p))))),
      )

  -- Connecting the blocks of a branch from back to front ends at its first.
  pub connect_all-connects :
      (n : ℕ) (b f : Hash) (e ef : BlockIndex) (c : Chain) (events : List Notice)
      → Leads m c f ef
      → lookup b m ≡ some e
      → up m n b ≡ some f
      → Moved b e
          (events ++ map block_connected (reverse (path m n b)))
          (connect_all (path m n b) (moved c events))
  unfolding connect_all connect_tip up
  connect_all-connects zero b f e ef c events leads known k =
      let same : b ≡ f = cc in
      let entry : ef ≡ e = same_end (lookup b m) (rw (← same) at (leads.known)) known in
      (c, rw (← entry) (rw same leads), ap (moved c) (sym (append-nil events)))
  connect_all-connects (suc n) b f e ef c events leads known k =
      let (p, there, above) = parent-up m ok n b f k in
      let (q, found, _) = parent_known m ok b p e known there in
      let (c', end, eq) = connect_all-connects n p f q ef c events leads found above in
      let leads' = set_tip-Leads m ok b e c' known end.consistent in
      let tail = reverse (path m n p) in
      let put : Attempt → Attempt =
        λ a. if a.done then connect_tip (some b) a.state a.events else a in
      (
        set_tip m b c',
        leads',
        rw there (
            ap put eq
            ∙ ap (moved (set_tip m b c')) (
                append_assoc events (map block_connected tail) (block_connected b ∷ [])
                ∙ ap (λ r. events ++ r)
                    (sym (map-append block_connected tail (b ∷ []))
                      ∙ ap (map block_connected) (sym (reverse-cons b (path m n p)))))),
      )
