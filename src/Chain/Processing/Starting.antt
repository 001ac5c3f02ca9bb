-- ===== src/Chain/Processing/Starting.antt =====
-- Initialize gives a correct state.
use coinbasechain.Base.{
  ◌≡◌, ◌≢◌, refl, sym, ap, ◌∙◌, true, false, not, Option, none, some, List, [], ◌∷◌, Bool-cases,
  inl, inr, ℕ, zero, suc, Bool, ◌&&◌, ◌==◌, if◌then◌else◌,
}
use coinbasechain.Base.Map.{
  has, lookup, insert, bytes_key, bytes_eq, bytes_eq_iff, bytes_eq_refl, lookup-insert,
}
use coinbasechain.Chain.Header.{BlockHeader, get_hash, all_zero}
use coinbasechain.Chain.Arith.{get_block_proof}
use coinbasechain.Chain.Index.{
  Hash, BlockIndex, Index, parent, new_entry, raise_validity, block_valid_tree, add_to_block_index,
}
use coinbasechain.Chain.Index.Ancestors.{IsIndex}
use coinbasechain.Chain.Index.Adding.{add_to_block_index-IsIndex}
use coinbasechain.Chain.Active.{tip, set_tip}
use coinbasechain.Chain.Selection.{height_of, may_lead, add_candidate, add_candidate_unchecked}
use coinbasechain.Chain.Activation.{Chainstate}
use coinbasechain.Chain.Activation.Leading.{Leads, set_tip-Leads, not_same}
use coinbasechain.Chain.Acceptance.Marking.{
  changed-Kept, raise_validity-SameLinks, lookup-insert_self,
}
use coinbasechain.Chain.Processing.{
  Startup, walk_back, verify_chain_continuity, initialize_blocks, initialize,
}
use coinbasechain.Chain.Processing.Soundness.{Sound, carried-Sound}

-- A manager that holds no block.
abbrev pub nothing_yet : Startup
nothing_yet = record {
  chainstate = record {
    index = [];
    chain = [];
    selector = record { candidates = []; best_header = none };
    failed_blocks = [];
  };
  initialized = false;
  genesis_hash = [];
}

empty-IsIndex : IsIndex []
unfolding lookup
empty-IsIndex = record { distinct = tt; linked = λ b e h. cc; skips = λ b e s h k. cc }

walk_back-root :
    (allowed : ℕ) (m : Index) (b : Hash) → parent m b ≡ none → walk_back allowed m b 0 ≡ some (b, 0)
unfolding walk_back
walk_back-root zero m b root = rw (root, walk_back) refl
walk_back-root (suc allowed) m b root = rw (root, walk_back) refl

verify_chain_continuity-root :
    (m : Index) (b : Hash) (e : BlockIndex)
    → lookup b m ≡ some e
    → e.prev ≡ none
    → e.height ≡ 0
    → verify_chain_continuity m (some b) b ≡ true
unfolding verify_chain_continuity
verify_chain_continuity-root m b e known root low =
    let there : parent m b ≡ none = rw (known, parent) root in
    let level : height_of m b ≡ 0 = rw (known, height_of) low in
    let end : Option (Hash × ℕ) → Bool = λ o. elim o [
      | none ↦ false
      | some x ↦ bytes_eq x.0 b && height_of m x.0 == 0 && height_of m b == x.1
    ] in
    ap end (walk_back-root 1000000 m b there) ∙ (rw (bytes_eq_refl b, level) refl)

module _ (sha256 : List ℕ → List ℕ) (header : BlockHeader) where
  abbrev hash : Hash
  hash = get_hash sha256 header

  abbrev entry : BlockIndex
  entry = new_entry header none 0 (get_block_proof header.bits) header.time

  abbrev first : Index
  first = insert hash entry (insert hash (new_entry header none 0 0 0) [])

  module _ (no_parent : all_zero header.hash_prev_block ≡ true)
      (other : header.hash_prev_block ≢ hash) where
    genesis_added : add_to_block_index sha256 header [] ≡ (first, some hash)
    unfolding add_to_block_index has lookup
    genesis_added =
        let gone : lookup header.hash_prev_block (insert hash (new_entry header none 0 0 0) [])
            ≡ none =
          lookup-insert hash header.hash_prev_block (new_entry header none 0 0 0) []
          ∙ (rw (not_same hash header.hash_prev_block other) refl) in
        rw (gone, add_to_block_index) (rw no_parent refl)

    first-IsIndex : IsIndex first
    first-IsIndex =
        (rw genesis_added at ((add_to_block_index-IsIndex sha256 header [] empty-IsIndex other).0))

    entry-found : lookup hash first ≡ some entry
    entry-found = lookup-insert_self hash entry (insert hash (new_entry header none 0 0 0) [])

    abbrev begun : Chainstate
    begun = record nothing_yet.chainstate { index = first; chain = set_tip first hash [] }

    begun-Leads : Leads first begun.chain hash entry
    begun-Leads =
        set_tip-Leads first first-IsIndex hash entry [] entry-found (λ h j x low there. cc)

    only_entry : (b : Hash) (e : BlockIndex) → lookup b first ≡ some e → b ≡ hash
    unfolding lookup
    only_entry b e h = elim (Bool-cases (bytes_eq hash b)) [
      | inl here ↦ sym ((bytes_eq_iff hash b).0 here)
      | inr elsewhere ↦
          let old : lookup b first ≡ none =
            lookup-insert hash b entry (insert hash (new_entry header none 0 0 0) [])
            ∙ (rw elsewhere
                (lookup-insert hash b (new_entry header none 0 0 0) [] ∙ (rw elsewhere refl))) in
          absurd (cc (sym old ∙ h))
    ]

    begun-Sound : Sound hash begun
    begun-Sound = record {
      index = first-IsIndex;
      rooted = λ b e h root. only_entry b e h;
      leads = (hash, entry, begun-Leads);
      sorted = tt;
      known = tt;
    }

    continuous : verify_chain_continuity first (some hash) hash ≡ true
    continuous = verify_chain_continuity-root first hash entry entry-found refl refl

    abbrev ready : Startup
    ready = record { chainstate = begun; initialized = true; genesis_hash = hash }

    blocks_initialized : initialize_blocks sha256 header nothing_yet ≡ (ready, true)
    unfolding initialize_blocks
    blocks_initialized = ap rest genesis_added ∙ (rw continuous refl)
      where
        rest : Index × Option Hash → Startup × Bool
        rest (m, added) = elim added [
          | none ↦ (
            record nothing_yet { chainstate = record nothing_yet.chainstate { index = m } },
            false,
          )
          | some b ↦
              let set : Startup = record nothing_yet {
                chainstate = record nothing_yet.chainstate { index = m; chain = set_tip m b [] };
                genesis_hash = hash;
              } in
              if verify_chain_continuity m (some b) hash
              then (record set { initialized = true }, true)
              else (set, false)
        ]

    abbrev trusted : BlockIndex
    trusted = (raise_validity block_valid_tree entry).0

    abbrev raised : Index
    raised = insert hash trusted first

    abbrev started : Startup
    started = record ready {
      chainstate = record begun {
        index = raised;
        selector = record { candidates = hash ∷ []; best_header = some hash };
      };
    }

    initialized_state : initialize sha256 header nothing_yet ≡ (started, true)
    unfolding initialize add_candidate
    initialized_state =
        ap finish blocks_initialized ∙ (rw (begun-Leads.at_tip) (rw entry-found refl))
      where
        finish : Startup × Bool → Startup × Bool
        finish (s, good) =
            let c = s.chainstate in
            let unchanged : Startup × Bool = (s, true) in
            if not good then (s, false) else elim (tip c.chain) [
              | none ↦ unchanged
              | some g ↦ elim (lookup g c.index) [
                | none ↦ unchanged
                | some e ↦
                    let m = insert g (raise_validity block_valid_tree e).0 c.index in
                    let selected = add_candidate_unchecked m (some g) c.selector in
                    (
                      record s {
                        chainstate = record c {
                          index = m;
                          selector = record selected { best_header = some g };
                        };
                      },
                      true,
                    )
              ]
            ]

    started-Sound : Sound hash started.chainstate
    started-Sound =
        let links = raise_validity-SameLinks block_valid_tree entry in
        let kept = changed-Kept first hash entry trusted first-IsIndex entry-found links in
        let grown =
          (carried-Sound hash begun (record begun { index = raised }) begun-Sound kept refl
            refl).0 in
        record {
          index = grown.index;
          rooted = grown.rooted;
          leads = grown.leads;
          sorted = (tt, tt);
          known = ((trusted, lookup-insert_self hash trusted first), tt);
        }

    -- Initialize with a genesis header (its parent is zero, and not its own hash) on a manager that
    -- holds no block succeeds and gives a correct state whose tip is the genesis block, which is
    -- valid, the only candidate and the best header; to initialize again fails and changes nothing.
    pub initialize-Sound :
        (s : Startup) × (initialize sha256 header nothing_yet ≡ (s, true))
        × Sound hash s.chainstate
        × (tip s.chainstate.chain ≡ some hash)
        × (may_lead s.chainstate.index hash ≡ true)
        × (s.chainstate.selector.candidates ≡ hash ∷ [])
        × (s.chainstate.selector.best_header ≡ some hash)
        × ((again : BlockHeader) → initialize sha256 again s ≡ (s, false))
    unfolding initialize initialize_blocks may_lead
    initialize-Sound = (
      started,
      initialized_state,
      started-Sound,
      begun-Leads.at_tip,
      rw (lookup-insert_self hash trusted first, may_lead) refl,
      refl,
      refl,
      λ again. refl,
    )
