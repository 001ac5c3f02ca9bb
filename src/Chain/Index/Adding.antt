-- ===== src/Chain/Index/Adding.antt =====
-- A header that is added to a well-formed index.
use coinbasechain.Base.{
  Bool, ◌||◌, ℕ, ◌+◌, ◌%◌, ◌^◌, max, ◌≡◌, ◌≢◌, ◌⊎◌, refl, sym, ap, ◌∙◌, arith, true, false, not,
  Option, none, some, List, if◌then◌else◌, if_elim, Option_elim, inl, inr,
}
use coinbasechain.Base.Map.{
  has, lookup, insert, bytes_key, bytes_eq_iff, Distinct, Distinct-insert, lookup-insert,
  lookup-has, has-lookup, lookup-absent, erase-insert_new,
}
use coinbasechain.Chain.Header.{BlockHeader, get_hash, all_zero}
use coinbasechain.Chain.Arith.{get_block_proof}
use coinbasechain.Chain.Index.{Hash, BlockIndex, Index, new_entry, build_skip, add_to_block_index}
use coinbasechain.Chain.Index.Ancestors.{IsIndex}
use coinbasechain.Chain.Index.Extending.{
  Extends, IsIndex-extend, Written-Extends, Written-split, Written-here, insert-Written,
  with_child-IsIndex, build_skip-up,
}

module _ (sha256 : List ℕ → List ℕ) where
  -- Whether AddToBlockIndex should take a header: it is there already, or its parent is, or it names
  -- no parent.
  abbrev pub is_taken : BlockHeader → Index → Bool
  is_taken header m =
      has (get_hash sha256 header) m
      || has header.hash_prev_block m
      || all_zero header.hash_prev_block

  -- What AddToBlockIndex leaves and returns.
  abbrev pub Added : BlockHeader → Index → Index × Option Hash → Type 0
  Added header m r =
      let hash = get_hash sha256 header in
      let prev = header.hash_prev_block in
      IsIndex r.0
      × Extends m r.0
      × ((r.1 ≡ some hash) × (has hash r.0 ≡ true) ⊎ (r.1 ≡ none) × (r.0 ≡ m))
      × (r.1 ≡ (if is_taken header m then some hash else none))
      × (has hash m ≡ false
          → (e : BlockIndex) → lookup hash r.0 ≡ some e
          → e.prev ≡ (if has prev m then some prev else none))

  -- For a header that does not name itself as its parent, AddToBlockIndex keeps the index well
  -- formed, with skip pointers that lead to the right ancestor, and keeps every entry. It takes the
  -- header exactly if that is in the index already, or its parent is, or it names no parent; then it
  -- is in the index afterwards, and a new one is linked to its parent if that is known, and a root
  -- otherwise. A header that is not taken leaves no trace.
  pub add_to_block_index-IsIndex :
      (header : BlockHeader) (m : Index)
      → IsIndex m
      → header.hash_prev_block ≢ get_hash sha256 header
      → Added header m (add_to_block_index sha256 header m)
  unfolding add_to_block_index
  add_to_block_index-IsIndex header m ok other =
      if_elim Good (has hash m)
        (λ old. (
          ok,
          λ b e h. h,
          inl (refl, old),
          (rw old refl),
          λ absent. absurd (cc (sym absent ∙ old)),
        ))
        λ absent.
          Option_elim Good (lookup header.hash_prev_block created)
            (λ missing.
              if_elim Good (not (all_zero header.hash_prev_block))
                (λ lost. rw (erase-insert_new hash fresh m absent) (
                  ok,
                  λ b e h. h,
                  inr (refl, refl),
                  rw (absent, not_in_m missing) (ground (arith, lost)),
                  λ _ e here. absurd (cc (sym (has-lookup hash m absent) ∙ here)),
                ))
                (λ zeros. root absent (not_in_m missing) (ground (arith, zeros))))
            (λ p found. child absent p (in_m p found))
    where
      hash : Hash
      hash = get_hash sha256 header

      fresh : BlockIndex
      fresh = new_entry header none 0 0 0

      created : Index
      created = insert hash fresh m

      Good : Index × Option Hash → Type 0
      Good r = Added header m r

      prev_of : (d e : BlockIndex) → some d ≡ some e → e.prev ≡ d.prev
      prev_of d e same = cc

      created-Distinct : Distinct created
      created-Distinct = Distinct-insert hash fresh m ok.distinct

      in_m :
          (p : BlockIndex)
          → lookup header.hash_prev_block created ≡ some p
          → lookup header.hash_prev_block m ≡ some p
      in_m p found = ground (
        arith,
        lookup-insert hash header.hash_prev_block fresh m,
        bytes_eq_iff hash header.hash_prev_block,
      )

      not_in_m : lookup header.hash_prev_block created ≡ none → has header.hash_prev_block m ≡ false
      not_in_m missing =
          let gone : lookup header.hash_prev_block m ≡ none =
            ground (arith, lookup-insert hash header.hash_prev_block fresh m) in
          lookup-absent header.hash_prev_block m gone

      root :
          has hash m ≡ false
          → has header.hash_prev_block m ≡ false
          → all_zero header.hash_prev_block ≡ true
          → Good (
            insert hash (new_entry header none 0 (get_block_proof header.bits) header.time) created,
            some hash,
          )
      root absent unknown zeros =
          let genesis = new_entry header none 0 (get_block_proof header.bits) header.time in
          let m' = insert hash genesis created in
          let w = insert-Written m hash fresh genesis created (λ b. lookup-insert hash b fresh m) in
          let ext = Written-Extends m hash genesis m' w absent in
          (
            IsIndex-extend m m' hash genesis ok ext
                (Distinct-insert hash genesis created created-Distinct)
                (Written-split m hash genesis m' w) (refl, refl, refl) (λ s k. cc),
            ext,
            inl (refl, lookup-has hash m' (Written-here m hash genesis m' w)),
            rw (absent, unknown) (rw zeros refl),
            λ _ e here.
                rw unknown (prev_of genesis e (sym (Written-here m hash genesis m' w) ∙ here)),
          )

      child :
          has hash m ≡ false
          → (p : BlockIndex) → lookup header.hash_prev_block m ≡ some p
          → let work = (p.chain_work + get_block_proof header.bits) % 2 ^ 256 in
            let entry =
              new_entry header
                (some header.hash_prev_block)
                (p.height + 1)
                work
                (max p.time_max header.time) in
            let linked = insert hash entry created in
            Good (insert hash (build_skip linked header.hash_prev_block entry) linked, some hash)
      child absent p there =
          let prev = header.hash_prev_block in
          let work = (p.chain_work + get_block_proof header.bits) % 2 ^ 256 in
          let entry =
            new_entry header (some prev) (p.height + 1) work (max p.time_max header.time) in
          let linked = insert hash entry created in
          let new = build_skip linked prev entry in
          let m' = insert hash new linked in
          let w = insert-Written m hash fresh entry created (λ b. lookup-insert hash b fresh m) in
          let w' = insert-Written m hash entry new linked w in
          let d = Distinct-insert hash entry created created-Distinct in
          let ext = Written-Extends m hash entry linked w absent in
          let ok' =
            with_child-IsIndex m ok hash prev p absent there entry linked w d
              (p, there, refl, refl, refl) refl refl (λ s k. cc) in
          let known = lookup-has prev m there in
          let jump = build_skip-up m ok hash prev p absent there entry linked ok' ext refl in
          (
            with_child-IsIndex m ok hash prev p absent there new m' w'
                (Distinct-insert hash new linked d) (p, there, refl, refl, refl) refl refl
                (λ s k. sym jump ∙ k),
            Written-Extends m hash new m' w' absent,
            inl (refl, lookup-has hash m' (Written-here m hash new m' w')),
            rw (absent, known) refl,
            λ _ e here. rw known (prev_of new e (sym (Written-here m hash new m' w') ∙ here)),
          )

  -- A header whose parent is known is not a new root.
  pub add_to_block_index-roots :
      (header : BlockHeader) (m : Index) (p : BlockIndex)
      → lookup header.hash_prev_block m ≡ some p
      → (b : Hash) (d : BlockIndex) → lookup b (add_to_block_index sha256 header m).0 ≡ some d
      → d.prev ≡ none
      → (e : BlockIndex) × (lookup b m ≡ some e) × (e.prev ≡ none)
  unfolding add_to_block_index
  add_to_block_index-roots header m p there =
      if_elim Rooted (has hash m) (λ old b d h root. (d, h, root))
        λ absent.
          Option_elim Rooted (lookup prev created)
            (λ missing.
              let ext =
                Written-Extends m hash fresh created (λ b. lookup-insert hash b fresh m) absent in
              absurd (cc (sym missing ∙ ext prev p there)))
            λ q found b d h root.
              let entry =
                new_entry header (some prev) (q.height + 1)
                  ((q.chain_work + get_block_proof header.bits) % 2 ^ 256)
                  (max q.time_max header.time) in
              let linked = insert hash entry created in
              let new = build_skip linked prev entry in
              let w =
                insert-Written m hash entry new linked
                  (insert-Written m hash fresh entry created (λ b. lookup-insert hash b fresh m)) in
              elim (Written-split m hash new (insert hash new linked) w b d h) [
                | inl old ↦ (d, old, root)
                | inr (_, same) ↦ absurd (cc (sym root ∙ ap (λ (e : BlockIndex). e.prev) same))
              ]
    where
      hash : Hash
      hash = get_hash sha256 header

      prev : Hash
      prev = header.hash_prev_block

      fresh : BlockIndex
      fresh = new_entry header none 0 0 0

      created : Index
      created = insert hash fresh m

      Rooted : Index × Option Hash → Type 0
      Rooted r =
          (b : Hash) (d : BlockIndex)
          → lookup b r.0 ≡ some d
          → d.prev ≡ none
          → (e : BlockIndex) × (lookup b m ≡ some e) × (e.prev ≡ none)
