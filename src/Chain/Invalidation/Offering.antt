-- ===== src/Chain/Invalidation/Offering.antt =====
-- The last pass of InvalidateBlock: what may become the tip again is a candidate.
use coinbasechain.Base.{
  ◌≤◌, ◌≡◌, refl, sym, ◌∙◌, arith, true, false, not, ◌&&◌, some, List, [], ◌∷◌, Option_elim,
  Bool-cases, inl, inr, leb, keep, Bool,
}
use coinbasechain.Base.Map.{lookup, bytes_key, bytes_eq, bytes_eq_iff}
use coinbasechain.Chain.Index.{Hash, BlockIndex, Index, is_valid, block_valid_tree}
use coinbasechain.Chain.Active.{tip}
use coinbasechain.Chain.Selection.{ChainSelector, chain_work_of, has_children}
use coinbasechain.Chain.Selection.Sets.{is_member, is_member-add_candidate}
use coinbasechain.Chain.Activation.{Chainstate}
use coinbasechain.Chain.Invalidation.{
  keys, add_all, failed_valid_status, fail, fail_descendants, leaves, mark_and_clean,
}

-- Each valid block without children that has at least the work of the tip is a candidate.
abbrev pub Offers : Chainstate → Type 0
Offers r =
    (t : Hash)
    → tip r.chain ≡ some t
    → (h : Hash) (d : BlockIndex) → lookup h r.index ≡ some d
    → is_valid block_valid_tree d ≡ true
    → chain_work_of r.index t ≤ d.chain_work
    → has_children h r.index ≡ false
    → is_member h r.selector.candidates ≡ true

module _ (m : Index) (x : Hash) where
  add_all-stays :
      (bs : List Hash) (s : ChainSelector)
      → is_member x s.candidates ≡ true
      → is_member x (add_all m bs s).candidates ≡ true
  unfolding add_all
  add_all-stays [] s there = there
  add_all-stays (c ∷ bs) s there =
      add_all-stays bs _ (ground (arith, is_member-add_candidate m c x s.candidates))

  add_all-added :
      (bs : List Hash) (s : ChainSelector)
      → is_member x bs ≡ true
      → is_member x (add_all m bs s).candidates ≡ true
  unfolding add_all
  add_all-added [] s listed = absurd (cc)
  add_all-added (c ∷ bs) s listed = elim (Bool-cases (bytes_eq c x)) [
    | inl match ↦ add_all-stays bs _ (ground (arith, is_member-add_candidate m c x s.candidates))
    | inr no_match ↦ add_all-added bs _ (ground arith)
  ]

module _ (x : Hash) where
  -- The blocks of an index that pass a test, by their names.
  listed_keep :
      (p : Hash × BlockIndex → Bool) (xs : Index) (d : BlockIndex)
      → lookup x xs ≡ some d
      → p (x, d) ≡ true
      → is_member x (keys (keep p xs)) ≡ true
  unfolding lookup
  listed_keep p [] d found pass = absurd (cc)
  listed_keep p ((k, e) ∷ xs) d found pass = elim (Bool-cases (bytes_eq k x)) [
    | inl match ↦
        let eq : k ≡ x = (bytes_eq_iff k x).0 match in
        let entry : e ≡ d = ground arith in
        let pass' : p (k, e) ≡ true = rw (eq, entry) pass in rw pass' (ground arith)
    | inr no_match ↦
        let rest = listed_keep p xs d (ground arith) pass in
        elim (Bool-cases (p (k, e))) [ inl kept ↦ rw kept (ground arith) | inr left ↦ rw left rest ]
  ]

leaves-Offers :
    (done : Chainstate) (t : Hash)
    → tip done.chain ≡ some t
    → Offers (record done { selector = add_all done.index (leaves done.index t) done.selector })
unfolding leaves
leaves-Offers done t found t' here h d known valid work alone =
    let both : some t ≡ some t' = sym found ∙ here in
    let same : t ≡ t' = cc in
    let work' : chain_work_of done.index t ≤ d.chain_work = rw same work in
    let enough : leb (chain_work_of done.index t) d.chain_work ≡ true = ground arith in
    let takes : Hash × BlockIndex → Bool = λ x.
      is_valid block_valid_tree x.1
      && leb (chain_work_of done.index t) x.1.chain_work
      && not (has_children x.0 done.index) in
    let pass : takes (h, d) ≡ true = rw (valid, enough, alone) refl in
    add_all-added done.index h (leaves done.index t) done.selector
      (listed_keep h takes done.index d known pass)

pub mark_and_clean-Offers :
    (b : Hash) (e : BlockIndex) (s : Chainstate) → Offers (mark_and_clean b e s)
unfolding mark_and_clean
mark_and_clean-Offers b e s =
    let begun = fail b (record e { status = failed_valid_status e.status }) s in
    let done = fail_descendants (keys begun.index) b e.height begun in
    Option_elim Offers (tip done.chain)
      (λ gone t here h d known valid work alone. absurd (cc (sym gone ∙ here)))
      (λ t found. leaves-Offers done t found)
