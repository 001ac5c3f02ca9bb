-- ===== src/Chain/Processing/Soundness.antt =====
-- Correct states, and what ActivateBestChain makes of one.
use coinbasechain.Base.{ℕ, ◌≤◌, ◌≡◌, refl, sym, ◌∙◌, arith, true, Option, none, some, All, All-map}
use coinbasechain.Base.Map.{bytes_key}
use coinbasechain.Chain.Index.{Hash, BlockIndex}
use coinbasechain.Chain.Index.Ancestors.{IsIndex}
use coinbasechain.Chain.Active.{tip}
use coinbasechain.Chain.Selection.{chain_work_of}
use coinbasechain.Chain.Selection.Sets.{IsSorted}
use coinbasechain.Chain.Activation.{Chainstate, Activation, activate_best_chain}
use coinbasechain.Chain.Activation.Leading.{Leads}
use coinbasechain.Chain.Activation.Settled.{Settled, Meets}
use coinbasechain.Chain.Activation.Best.{activate_best_chain-Best}
use coinbasechain.Chain.Acceptance.Marking.{Kept}
use coinbasechain.Chain.Processing.Carrying.{
  Known, OneRoot, Known-grown, Leads-grown, IsSorted-grown, last_common_ancestor_exists,
}

-- The index is well formed with one root, the active chain holds exactly the ancestors of its tip,
-- and the candidates are sorted blocks of the index.
pub record Sound (g : Hash) (s : Chainstate) : Type 0 where
  pub index : IsIndex s.index
  pub rooted : OneRoot g s.index
  pub leads : (t : Hash) × (e : BlockIndex) × Leads s.index s.chain t e
  pub sorted : IsSorted s.index s.selector.candidates
  pub known : All (Known s.index) s.selector.candidates

abbrev pub tip_work : Chainstate → ℕ
tip_work s = elim (tip s.chain) [ none ↦ 0 | some t ↦ chain_work_of s.index t ]

pub tip_work-Leads :
    (s : Chainstate) (t : Hash) (e : BlockIndex)
    → Leads s.index s.chain t e
    → tip_work s ≡ e.chain_work
tip_work-Leads s t e leads = rw (leads.at_tip, tip_work) (rw (leads.known, chain_work_of) refl)

-- An index that grows under the same chain and candidates.
pub carried-Sound :
    (g : Hash) (s s' : Chainstate)
    → Sound g s
    → Kept s.index s'.index
    → s'.chain ≡ s.chain
    → s'.selector.candidates ≡ s.selector.candidates
    → Sound g s' × (tip_work s' ≡ tip_work s)
carried-Sound g s s' sound (ok, grows, roots) same same' =
    let (t, e, leads) = sound.leads in
    let (d, leads', work) = Leads-grown s.index s'.index sound.index grows s.chain t e leads in
    let now : Leads s'.index s'.chain t d = rw same leads' in
    (
      record {
        index = ok;
        rooted =
            λ b d h root. let (e, found, root') = roots b d h root in sound.rooted b e found root';
        leads = (t, d, now);
        sorted = rw same' (
            IsSorted-grown s.index s'.index sound.index grows s.selector.candidates sound.known
              sound.sorted);
        known = rw same' (
            All-map (Known-grown s.index s'.index sound.index grows) s.selector.candidates
              sound.known);
      },
      tip_work-Leads s' t d now ∙ (work ∙ sym (tip_work-Leads s t e leads)),
    )

module _ (depth : ℕ) (g : Hash) where
  abbrev pub Activates : Chainstate → Option Activation → Type 0
  Activates s o =
      (r : Activation) × (o ≡ some r)
      × (r.success ≡ true)
      × (r.state.index ≡ s.index)
      × Sound g r.state
      × (tip_work s ≤ tip_work r.state)
      × ((t : Hash) × (tip s.chain ≡ some t)
          × All (Settled depth s.index t (tip_work r.state)) s.selector.candidates)

  pub activate_best_chain-Sound :
      (s : Chainstate) → Sound g s → Activates s (activate_best_chain depth none s)
  activate_best_chain-Sound s sound =
      let (t, e, leads) = sound.leads in
      let meets : (c : Hash) → Known s.index c → Meets s.index t c = λ c (d, found). (
        d,
        found,
        last_common_ancestor_exists g s.index sound.index sound.rooted t c e d leads.known found,
      ) in
      let (r, eq, success, same, sorted, met, (t', e', leads', more, settled)) =
        activate_best_chain-Best depth s sound.index t e leads sound.sorted
          (All-map meets s.selector.candidates sound.known) in
      let now : Leads r.state.index r.state.chain t' e' = rw same leads' in
      let work : tip_work r.state ≡ e'.chain_work = tip_work-Leads r.state t' e' now in
      (
        r,
        eq,
        success,
        same,
        record {
          index = rw same (sound.index);
          rooted = rw same (sound.rooted);
          leads = (t', e', now);
          sorted = rw same sorted;
          known = rw same (All-map (λ c m. (m.0, m.1)) r.state.selector.candidates met);
        },
        omega (arith, work, tip_work-Leads s t e leads),
        (t, leads.at_tip, rw work settled),
      )
