-- ===== src/Chain/Invalidation/Failing.antt =====
-- What failing one block does to the candidates, and what the last pass leaves of them.
use coinbasechain.Base.{
  ℕ, ◌-◌, ◌≡◌, refl, sym, ◌∙◌, arith, true, false, not, ◌&&◌, some, List, [], ◌∷◌, Bool-cases, inl,
  inr, All,
}
use coinbasechain.Base.Map.{lookup, insert, bytes_key, bytes_eq, bytes_eq_iff, bytes_eq_refl}
use coinbasechain.Chain.Index.{Hash, BlockIndex, Index, get_ancestor}
use coinbasechain.Chain.Index.Skips.{get_ancestor-up}
use coinbasechain.Chain.Index.Changing.{SameLinks, lookup-changed, up-changed, changed-IsIndex}
use coinbasechain.Chain.Selection.{ChainSelector, may_lead}
use coinbasechain.Chain.Selection.Sets.{
  is_member, is_member-add_candidate, is_member-remove_candidate,
}
use coinbasechain.Chain.Activation.{Chainstate}
use coinbasechain.Chain.Acceptance.Marking.{changed-Kept}
use coinbasechain.Chain.Processing.Soundness.{Sound, carried-Sound}
use coinbasechain.Chain.Invalidation.{keys, add_all, fail}
use coinbasechain.Chain.Invalidation.Flags.{FailedChild}

-- A block is not among the candidates.
abbrev pub Out : Hash → Chainstate → Type 0
Out x s = is_member x s.selector.candidates ≡ false

-- A block has the flag of a descendant, and is no candidate.
abbrev pub Gone : Hash → Chainstate → Type 0
Gone h s = ((d : BlockIndex) × (lookup h s.index ≡ some d) × FailedChild d.status) × Out h s

module _ (g : Hash) (s : Chainstate) (k : Hash) (e d : BlockIndex) (sound : Sound g s) where
  module _ (known : lookup k s.index ≡ some e) (same : SameLinks e d) where
    pub get_ancestor-changed :
        (h : Hash) (q : BlockIndex) (height : ℕ)
        → lookup h s.index ≡ some q
        → get_ancestor (insert k d s.index) h height ≡ get_ancestor s.index h height
    get_ancestor-changed h q height there =
        let (r, found, links) = lookup-changed s.index k e d known same h q there in
        let ok = changed-IsIndex s.index k e d known same sound.index in
        let old = get_ancestor-up s.index h q height sound.index there in
        get_ancestor-up (insert k d s.index) h r height ok found
        ∙ (rw (links.2, up-changed s.index k e d known same (q.height - height) h) (sym old))

    fail-member :
        (x : Hash)
        → is_member x (fail k d s).selector.candidates
          ≡ not (bytes_eq k x) && is_member x s.selector.candidates
    fail-member x =
        let m = insert k d s.index in
        let grown =
          (carried-Sound g s (record s { index = m }) sound
            (changed-Kept s.index k e d sound.index known same) refl refl).0 in
        is_member-remove_candidate m k x s.selector.candidates grown.sorted

    pub fail-Out : (x : Hash) → Out x s → Out x (fail k d s)
    fail-Out x out = ground (arith, fail-member x)

    pub fail-Out_self : Out k (fail k d s)
    fail-Out_self = ground (arith, fail-member k, bytes_eq_refl k)

-- Every block of an index is gone through.
pub lookup-keys :
    (h : Hash) (m : Index) (d : BlockIndex) → lookup h m ≡ some d → is_member h (keys m) ≡ true
unfolding lookup
lookup-keys h [] d found = cc
lookup-keys h ((k, e) ∷ m) d found = ground (arith, bytes_eq_iff k h, lookup-keys h m d)

-- Blocks that may lead leave out one that may not.
pub add_all-Out :
    (m : Index) (x : Hash) (bs : List Hash) (s : ChainSelector)
    → may_lead m x ≡ false
    → All (λ c. may_lead m c ≡ true) bs
    → is_member x s.candidates ≡ false
    → is_member x (add_all m bs s).candidates ≡ false
unfolding add_all
add_all-Out m x [] s bad all out = out
add_all-Out m x (c ∷ bs) s bad all out =
    let different : bytes_eq c x ≡ false = elim (Bool-cases (bytes_eq c x)) [
      | inr no_match ↦ no_match
      | inl match ↦
          let eq : c ≡ x = (bytes_eq_iff c x).0 match in
          let good : may_lead m x ≡ true = rw (← eq) (all.0) in absurd (cc (sym bad ∙ good))
    ] in
    add_all-Out m x bs _ bad (all.1)
      (is_member-add_candidate m c x s.candidates ∙ (rw (different, out) refl))
