-- ===== src/Chain/Invalidation/Soundness.antt =====
-- InvalidateBlock ends, keeps the state correct, and takes the block off the active chain.
use coinbasechain.Base.{
  ℕ, zero, suc, ◌≤◌, ◌<◌, ◌≡◌, refl, sym, ap, subst, ◌∙◌, arith, Bool, true, false, not, Option,
  none, some, List, [], ◌∷◌, ◌++◌, ltb, leb, Bool_elim, Bool-cases, inl, inr, length, get_elem?,
  All, All-map, keep,
}
use coinbasechain.Base.Map.{lookup, insert, bytes_key, Distinct-listed}
use coinbasechain.Chain.Index.{Hash, BlockIndex, Index, parent}
use coinbasechain.Chain.Index.Ancestors.{IsIndex, parent_of}
use coinbasechain.Chain.Index.Changing.{SameLinks}
use coinbasechain.Chain.Active.{Chain, at, contains, is_block, set_tip}
use coinbasechain.Chain.Selection.{ChainSelector, add_candidate_unchecked, remove, chain_work_of}
use coinbasechain.Chain.Selection.Sets.{
  IsSorted, add_candidate-IsSorted, all-add_candidate_any, remove_candidate-IsSorted,
  all-remove_candidate,
}
use coinbasechain.Chain.Activation.{block_disconnected, Chainstate, Notice, Attempt, disconnect_tip}
use coinbasechain.Chain.Activation.Leading.{Leads, set_tip-Leads, disconnect_tip-moved}
use coinbasechain.Chain.Acceptance.Marking.{changed-Kept}
use coinbasechain.Chain.Processing.Carrying.{Known}
use coinbasechain.Chain.Processing.Soundness.{Sound, carried-Sound}
use coinbasechain.Chain.Invalidation.{keys, add_all, fall_back, disconnect_through, fail}

-- Sorted candidates that are all in the index.
abbrev pub Fit : Index → ChainSelector → Type 0
Fit m s = IsSorted m s.candidates × All (Known m) s.candidates

module _ (m : Index) where
  pub add_all-Fit :
      (bs : List Hash) (s : ChainSelector) → All (Known m) bs → Fit m s → Fit m (add_all m bs s)
  unfolding add_all
  add_all-Fit [] s known fit = fit
  add_all-Fit (b ∷ bs) s known fit = add_all-Fit bs (add_candidate_unchecked m (some b) s) known.1 (
    add_candidate-IsSorted m b s.candidates fit.0,
    all-add_candidate_any m (Known m) b s.candidates known.0 fit.1,
  )

  remove-Fit : (b : Hash) (s : ChainSelector) → Fit m s → Fit m (remove m (some b) s)
  remove-Fit b s fit = (
    remove_candidate-IsSorted m b s.candidates fit.0,
    all-remove_candidate m (Known m) b s.candidates fit.1,
  )

  pub all-keep :
      {A : Type 0} → (P : A → Type 0) (p : A → Bool) (xs : List A) → All P xs → All P (keep p xs)
  all-keep P p [] all = tt
  all-keep P p (x ∷ xs) all = ground (arith, all-keep P p xs)

  pub all-keys : (xs : Index) → All (λ x. Known m x.0) xs → All (Known m) (keys xs)
  all-keys [] all = tt
  all-keys (x ∷ xs) all = (all.0, all-keys xs all.1)

  pub entries-Known : IsIndex m → All (λ x. Known m x.0) m
  entries-Known ok = All-map there m (Distinct-listed m ok.distinct)
    where
      there : (x : Hash × BlockIndex) → lookup x.0 m ≡ some x.1 → Known m x.0
      there x found = (x.1, found)

  fall_back-Fit :
      (t : Hash) (p : Hash) (forks : List Hash) (s : ChainSelector)
      → Known m p
      → All (Known m) forks
      → Fit m s
      → Fit m (fall_back m t (some p) forks s).0 × All (Known m) (fall_back m t (some p) forks s).1
  unfolding fall_back
  fall_back-Fit t p forks s known all fit =
      let enough : Hash → Bool = λ f. leb (chain_work_of m p) (chain_work_of m f) in
      (
        add_all-Fit (keep enough forks) (add_candidate_unchecked m (some p) (remove m (some t) s))
            (all-keep (Known m) enough forks all)
            (add_all-Fit (p ∷ []) (remove m (some t) s) (known, tt) (remove-Fit t s fit)),
        all-keep (Known m) (λ f. not (enough f)) forks all,
      )

pub selected-Sound :
    (g : Hash) (s : Chainstate) (sel : ChainSelector)
    → Sound g s
    → Fit s.index sel
    → Sound g (record s { selector = sel })
selected-Sound g s sel sound fit = record {
  index = sound.index;
  rooted = sound.rooted;
  leads = sound.leads;
  sorted = fit.0;
  known = fit.1;
}

-- An entry whose links stay, with the candidates without it.
pub fail-Sound :
    (g : Hash) (s : Chainstate) (h : Hash) (e d : BlockIndex)
    → Sound g s
    → lookup h s.index ≡ some e
    → SameLinks e d
    → Sound g (fail h d s)
fail-Sound g s h e d sound known same =
    let m = insert h d s.index in
    let grown =
      (carried-Sound g s (record s { index = m }) sound
        (changed-Kept s.index h e d sound.index known same) refl refl).0 in
    let fit = remove-Fit m h s.selector (grown.sorted, grown.known) in
    record {
      index = grown.index;
      rooted = grown.rooted;
      leads = grown.leads;
      sorted = fit.0;
      known = fit.1;
    }

get_elem?_past : {A : Type 0} → (xs : List A) (k : ℕ) → length xs ≤ k → get_elem? xs k ≡ none
get_elem?_past [] k h = refl
get_elem?_past (x ∷ xs) zero h = absurd (omega arith)
get_elem?_past (x ∷ xs) (suc k) h = get_elem?_past xs k (omega arith)

-- A block that the chain contains is not above its end.
contains-height :
    (m : Index) (c : Chain) (b : Hash) (e : BlockIndex)
    → lookup b m ≡ some e
    → contains m c b ≡ true
    → e.height < length c
unfolding contains
contains-height m c b e known on = elim (Bool-cases (ltb e.height (length c))) [
  | inl low ↦ ground arith
  | inr high ↦
      let past : at c e.height ≡ none =
        ap (λ (o : Option (Option Hash)). elim o as (λ _. Option Hash) [ none ↦ none | some x ↦ x ])
          (get_elem?_past c e.height (ground arith)) in
      let off : contains m c b ≡ false = rw (known, contains) (ap (λ o. is_block o b) past) in
      absurd (cc (sym off ∙ on))
]

module _ (g : Hash) (s : Chainstate) (ok : IsIndex s.index) (b : Hash) (eb : BlockIndex) where
  module _ (known : lookup b s.index ≡ some eb) (above : 1 ≤ eb.height) where
    abbrev m : Index
    m = s.index

    abbrev pub falling : Chain → ChainSelector → List Notice → Attempt
    falling c sel events = record {
      state = record s { chain = c; selector = sel };
      events = events;
      done = true;
    }

    -- The block is off a chain that still leads to its tip.
    abbrev pub Off : Attempt → Type 0
    Off a =
        (c : Chain) × (sel : ChainSelector) × (events : List Notice) × (a ≡ falling c sel events)
        × ((t : Hash) × (e : BlockIndex) × Leads m c t e)
        × Fit m sel
        × (contains m c b ≡ false)

    abbrev pub LoopOff : ℕ → Type 0
    LoopOff fuel =
        (t : Hash) (et : BlockIndex) (c : Chain) (sel : ChainSelector) (forks : List Hash)
        (events : List Notice)
        → Leads m c t et
        → Fit m sel
        → All (Known m) forks
        → et.height < fuel
        → Off (disconnect_through fuel b forks (falling c sel events))

    module _ (fuel : ℕ) (ih : LoopOff fuel) (t : Hash) (et : BlockIndex) (c : Chain)
        (sel : ChainSelector) (forks : List Hash) (events : List Notice) where
      go_on : Attempt → Attempt
      go_on next =
          let fallen = fall_back m t (parent m t) forks next.state.selector in
          elim next.done [
            | false ↦ next
            | true ↦
                disconnect_through fuel b fallen.1
                  (record next { state = record next.state { selector = fallen.0 } })
          ]

      turn-Off :
          Leads m c t et
          → Fit m sel
          → All (Known m) forks
          → et.height < suc fuel
          → contains m c b ≡ true
          → Off (go_on (disconnect_tip (record s { chain = c; selector = sel }) events))
      unfolding go_on
      turn-Off leads fit all low there =
          let high = contains-height m c b eb known there in
          let (p, q, linked, found, level) =
            parent_of m ok t et leads.known (omega (arith, high, leads.size, above)) in
          let up_one : parent m t ≡ some p = rw (leads.known, parent) linked in
          let step =
            disconnect_tip-moved (record s { selector = sel }) ok c t p events leads.at_tip
              up_one in
          let (fit', all') = fall_back-Fit m t p forks sel (q, found) all fit in
          let fallen = fall_back m t (some p) forks sel in
          let rest =
            ih p q (set_tip m p c) fallen.0 fallen.1 (events ++ block_disconnected t ∷ [])
              (set_tip-Leads m ok p q c found leads.consistent) fit' all' (omega arith) in
          subst Off (sym (ap go_on step)) (rw up_one rest)

    pub through-Off : (fuel : ℕ) → LoopOff fuel
    unfolding disconnect_through go_on
    through-Off zero t et c sel forks events leads fit all low = absurd (omega arith)
    through-Off (suc fuel) t et c sel forks events leads fit all low =
        rw (leads.at_tip, disconnect_through)
          (Bool_elim Off (contains m c b)
            (turn-Off fuel (through-Off fuel) t et c sel forks events leads fit all low)
            (λ off. (c, sel, events, refl, (t, et, leads), fit, off)))
