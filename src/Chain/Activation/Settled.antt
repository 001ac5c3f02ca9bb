-- ===== src/Chain/Activation/Settled.antt =====
-- What ActivateBestChain leaves: why each candidate did not become the tip.
use coinbasechain.Base.{
  ℕ, ◌+◌, ◌≤◌, ◌≡◌, ◌⊎◌, subst, arith, true, false, Option, some, [], ◌∷◌, if_elim, Bool-cases, inl,
  inr, All,
}
use coinbasechain.Base.Map.{lookup, bytes_key, bytes_eq, bytes_eq_iff}
use coinbasechain.Chain.Index.{Hash, BlockIndex, Index}
use coinbasechain.Chain.Active.{last_common_ancestor}
use coinbasechain.Chain.Selection.{Candidates, chain_work_of, height_of, may_lead, scan}
use coinbasechain.Chain.Selection.Sets.{IsSorted, is_member}
use coinbasechain.Chain.Activation.{Chainstate, Activation}
use coinbasechain.Chain.Activation.Leading.{Leads}

-- A block whose branch joins the active one deeper than policy allows.
abbrev pub TooDeep : ℕ → Index → Hash → Hash → Type 0
TooDeep depth m t c =
    (f : Hash) × (last_common_ancestor m t c ≡ some f)
    × (1 ≤ depth)
    × (height_of m f + depth ≤ height_of m t)

-- Why a candidate did not become the tip: it is not valid, has no more work than the tip that was
-- chosen, or would need a reorganisation that policy refuses.
abbrev pub Settled : ℕ → Index → Hash → ℕ → Hash → Type 0
Settled depth m t work c = (may_lead m c ≡ false) ⊎ (chain_work_of m c ≤ work) ⊎ TooDeep depth m t c

-- A candidate is in the index and its branch meets the active one.
abbrev pub Meets : Index → Hash → Hash → Type 0
Meets m t c =
    (e : BlockIndex) × (lookup c m ≡ some e) × ((f : Hash) × (last_common_ancestor m t c ≡ some f))

abbrev pub Best : ℕ → Chainstate → Hash → BlockIndex → Candidates → Option Activation → Type 0
Best depth s t et cs o =
    (r : Activation) × (o ≡ some r)
    × (r.success ≡ true)
    × (r.state.index ≡ s.index)
    × IsSorted s.index r.state.selector.candidates
    × All (Meets s.index t) r.state.selector.candidates
    × ((t' : Hash) × (e' : BlockIndex) × Leads s.index r.state.chain t' e'
        × (et.chain_work ≤ e'.chain_work)
        × All (Settled depth s.index t e'.chain_work) cs)

pub all-member :
    (P : Hash → Type 0) (c : Hash) (s : Candidates) → All P s → is_member c s ≡ true → P c
all-member P c [] all h = cc
all-member P c (b ∷ s) all h = elim (Bool-cases (bytes_eq b c)) [
  | inl same ↦ subst P ((bytes_eq_iff b c).0 same) all.0
  | inr other ↦ all-member P c s all.1 (ground arith)
]

pub all-scan : (P : Hash → Type 0) (m : Index) (s : Candidates) → All P s → All P (scan m s).0
unfolding scan
all-scan P m [] all = tt
all-scan P m (b ∷ s) all =
    if_elim {A = Candidates × Option Hash} (λ r. All P r.0) (may_lead m b) (λ _. all)
      (λ _. all-scan P m s all.1)
