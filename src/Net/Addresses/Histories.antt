-- ===== src/Net/Addresses/Histories.antt =====
-- The tables after any calls, and an address that fails again and again.
use coinbasechain.Base.{
  ℕ, suc, ◌+◌, ◌<◌, ◌≡◌, refl, ap, ap₂, ◌∙◌, arith, Bool, true, false, Option, none, some, ◌⊎◌,
  List, [], ◌∷◌, ltb, leb, ◌==◌, if◌then◌else◌, length, Bool-cases, inl, inr,
}
use coinbasechain.Base.Map.{
  lookup, insert, erase, bytes_key, bytes_eq_refl, lookup-insert, lookup-erase,
}
use coinbasechain.Net.Wire.{NetworkAddress, TimestampedAddress}
use coinbasechain.Net.Addresses.{
  AddrKey, addr_key, AddrInfo, AddressManager, max_failures, is_terrible, add, add_multiple,
  attempt, good, failed, cleanup_stale,
}
use coinbasechain.Net.Addresses.Tables.{
  IsTables, add-IsTables, add_multiple-IsTables, attempt-IsTables, good-IsTables, failed-IsTables,
  cleanup_stale-IsTables,
}

pub data AddressCall : Type 0 where
  adds : NetworkAddress → ℕ → AddressCall
  adds_all : List TimestampedAddress → AddressCall
  attempts works fails : NetworkAddress → AddressCall
  cleans : AddressCall

-- A call at a time of the clock.
unfoldable pub step : ℕ × AddressCall → AddressManager → AddressManager
unfolding add add_multiple attempt good failed cleanup_stale
step (now, adds a timestamp) s = (add now a timestamp s).0
step (now, adds_all xs) s = (add_multiple now xs s).0
step (now, attempts a) s = attempt now a s
step (now, works a) s = good now a s
step (now, fails a) s = failed now a s
step (now, cleans) s = cleanup_stale now s

unfoldable pub run : List (ℕ × AddressCall) → AddressManager → AddressManager
unfolding step
run [] s = s
run (c ∷ cs) s = run cs (step c s)

step-IsTables : (c : ℕ × AddressCall) (s : AddressManager) → IsTables s → IsTables (step c s)
unfolding step
step-IsTables (now, adds a timestamp) s ok = add-IsTables now a s ok timestamp
step-IsTables (now, adds_all xs) s ok = add_multiple-IsTables now xs s ok
step-IsTables (now, attempts a) s ok = attempt-IsTables now a s ok
step-IsTables (now, works a) s ok = good-IsTables now a s ok
step-IsTables (now, fails a) s ok = failed-IsTables now a s ok
step-IsTables (now, cleans) s ok =
    cleanup_stale-IsTables now (record { services = 0; ip = []; port = 0 }) s ok

-- After any calls at any times no address stands twice, in one table or in both. Every entry stands
-- under its own key and has an address that can be used; those in TRIED have worked and have failed
-- fewer than ten times since, and those in NEW are not marked as tried.
pub run-IsTables :
    (cs : List (ℕ × AddressCall)) (s : AddressManager) → IsTables s → IsTables (run cs s)
unfolding run
run-IsTables [] s ok = ok
run-IsTables (c ∷ cs) s ok = run-IsTables cs (step c s) (step-IsTables c s ok)

-- What TRIED and NEW hold for a key.
abbrev pub standing : AddrKey → AddressManager → Option AddrInfo × Option AddrInfo
standing k s = (lookup k s.tried_table, lookup k s.new_table)

-- What they hold of an entry after so many failures.
abbrev pub after_failures : AddrInfo → ℕ → Option AddrInfo × Option AddrInfo
after_failures i n =
    if ltb n max_failures
    then (some (record i { attempts = n }), none)
    else if n == max_failures
    then (none, some (record i { attempts = n; tried = false }))
    else (none, none)

-- A call of failed at each of some times.
unfoldable pub fail_at : List ℕ → NetworkAddress → AddressManager → AddressManager
unfolding failed
fail_at [] a s = s
fail_at (now ∷ times) a s = fail_at times a (failed now a s)

module _ (now : ℕ) (a : NetworkAddress) (i : AddrInfo) (s : AddressManager) where
  abbrev key : AddrKey
  key = addr_key a

  failed-tried :
      (n : ℕ)
      → n < max_failures
      → lookup key s.tried_table ≡ some (record i { attempts = n })
      → lookup key s.new_table ≡ none
      → standing key (failed now a s) ≡ after_failures i (n + 1)
  unfolding failed
  failed-tried n few tried new = elim (Bool-cases (ltb (n + 1) max_failures)) [
    | inl fewer ↦
        let low : leb max_failures (n + 1) ≡ false = ground arith in
        let entry : AddrInfo = record i { attempts = n + 1 } in
        let there : lookup key (insert key entry s.tried_table) ≡ some entry =
          lookup-insert key key entry s.tried_table ∙ (rw (bytes_eq_refl key) refl) in
        rw (new, failed) (rw tried (rw (low, fewer) (ap₂ (λ x y. (x, y)) there new)))
    | inr enough ↦
        let same : n + 1 ≡ max_failures = ground arith in
        let high : leb max_failures (n + 1) ≡ true = ground arith in
        let last : n + 1 == max_failures ≡ true = ground arith in
        let entry : AddrInfo = record i { attempts = n + 1; tried = false } in
        let gone : lookup key (erase key s.tried_table) ≡ none =
          lookup-erase key key s.tried_table ∙ (rw (bytes_eq_refl key) refl) in
        let there : lookup key (insert key entry s.new_table) ≡ some entry =
          lookup-insert key key entry s.new_table ∙ (rw (bytes_eq_refl key) refl) in
        rw (new, failed) (rw tried (rw (high, enough) (rw last (ap₂ (λ x y. (x, y)) gone there))))
  ]

  failed-new :
      (j : AddrInfo)
      → j.attempts ≡ max_failures
      → lookup key s.tried_table ≡ none
      → lookup key s.new_table ≡ some j
      → standing key (failed now a s) ≡ (none, none)
  unfolding failed is_terrible
  failed-new j many tried new =
      let gone : lookup key (erase key s.new_table) ≡ none =
        lookup-erase key key s.new_table ∙ (rw (bytes_eq_refl key) refl) in
      let high : leb max_failures (j.attempts + 1) ≡ true = ground arith in
      rw (new, failed) (rw high (ap₂ (λ x y. (x, y)) tried gone))

  failed-gone :
      lookup key s.tried_table ≡ none
      → lookup key s.new_table ≡ none
      → standing key (failed now a s) ≡ (none, none)
  unfolding failed
  failed-gone tried new = rw (new, failed) (rw tried (ap₂ (λ x y. (x, y)) tried new))

first : {A B : Type 0} → (x y : A × B) → x ≡ y → x.0 ≡ y.0
first x y e = ap (λ z. z.0) e

second : {A B : Type 0} → (x y : A × B) → x ≡ y → x.1 ≡ y.1
second x y e = ap (λ z. z.1) e

failed-after_failures :
    (now : ℕ) (a : NetworkAddress) (i : AddrInfo) (n : ℕ) (s : AddressManager)
    → standing (addr_key a) s ≡ after_failures i n
    → standing (addr_key a) (failed now a s) ≡ after_failures i (n + 1)
failed-after_failures now a i n s h = elim (Bool-cases (ltb n max_failures)) [
  | inl few ↦
      let e : standing (addr_key a) s ≡ (some (record i { attempts = n }), none) =
        (rw few at (h)) in
      failed-tried now a i s n (ground arith) (first _ _ e) (second _ _ e)
  | inr many ↦
      let next : ltb (n + 1) max_failures ≡ false = ground arith in
      let more : n + 1 == max_failures ≡ false = ground arith in
      elim (Bool-cases (n == max_failures)) [
        | inl last ↦
            let j : AddrInfo = record i { attempts = n; tried = false } in
            let e : standing (addr_key a) s ≡ (none, some j) = (rw last at (rw many at (h))) in
            rw (next, more) (failed-new now a i s j (ground arith) (first _ _ e) (second _ _ e))
        | inr gone ↦
            let e : standing (addr_key a) s ≡ (none, none) = (rw gone at (rw many at (h))) in
            rw (next, more) (failed-gone now a i s (first _ _ e) (second _ _ e))
      ]
]

fail_at-standing :
    (times : List ℕ) (a : NetworkAddress) (i : AddrInfo) (n : ℕ) (s : AddressManager)
    → standing (addr_key a) s ≡ after_failures i n
    → standing (addr_key a) (fail_at times a s) ≡ after_failures i (n + length times)
unfolding fail_at
fail_at-standing [] a i n s h = let same : n + 0 ≡ n = omega arith in rw same h
fail_at-standing (now ∷ times) a i n s h =
    let same : n + suc (length times) ≡ n + 1 + length times = omega arith in
    rw same
      (fail_at-standing times a i (n + 1) (failed now a s) (failed-after_failures now a i n s h))

-- The entry after a connection that worked.
abbrev pub worked : ℕ → AddrInfo → AddrInfo
worked now old = record old { tried = true; last_success = now; attempts = 0 }

module _ (now : ℕ) (a : NetworkAddress) (s : AddressManager) (ok : IsTables s) where
  good-standing :
      (old : AddrInfo)
      → (lookup (addr_key a) s.tried_table ≡ some old)
        ⊎ (lookup (addr_key a) s.new_table ≡ some old)
      → standing (addr_key a) (good now a s) ≡ (some (worked now old), none)
  unfolding good
  good-standing old (inr new) =
      let k = addr_key a in
      let there : lookup k (insert k (worked now old) s.tried_table) ≡ some (worked now old) =
        lookup-insert k k (worked now old) s.tried_table ∙ (rw (bytes_eq_refl k) refl) in
      let gone : lookup k (erase k s.new_table) ≡ none =
        lookup-erase k k s.new_table ∙ (rw (bytes_eq_refl k) refl) in
      rw (new, good) (ap₂ (λ x y. (x, y)) there gone)
  good-standing old (inl tried) =
      let k = addr_key a in
      let new = ok.apart k old tried in
      let (_, flag, _) = ok.in_tried k old tried in
      let entry : AddrInfo = record old { last_success = now; attempts = 0 } in
      let same : entry ≡ worked now old = ap (λ (t : Bool). record entry { tried = t }) flag in
      let there : lookup k (insert k entry s.tried_table) ≡ some entry =
        lookup-insert k k entry s.tried_table ∙ (rw (bytes_eq_refl k) refl) in
      rw (new, good) (rw tried (ap₂ (λ x y. (x, y)) (there ∙ ap some same) new))

  -- A known address with which a connection has worked stands in TRIED alone until it has failed ten
  -- times in a row; then in NEW alone, and with the next failure in neither.
  pub good-failures :
      (old : AddrInfo) (times : List ℕ)
      → (lookup (addr_key a) s.tried_table ≡ some old)
        ⊎ (lookup (addr_key a) s.new_table ≡ some old)
      → standing (addr_key a) (fail_at times a (good now a s))
        ≡ after_failures (worked now old) (length times)
  good-failures old times known =
      let none_yet : 0 + length times ≡ length times = omega arith in
      rw (← none_yet)
        (fail_at-standing times a (worked now old) 0 (good now a s) (good-standing old known))
