-- ===== src/Net/Bans/Verdict.antt =====
-- What a history of calls says about an address, and that the ban manager answers it.
use coinbasechain.Base.{
  ℕ, ◌+◌, ◌-◌, ◌≤◌, ◌≡◌, refl, ◌∙◌, arith, Bool, false, not, ◌&&◌, Option, none, some, List, [],
  ◌∷◌, ltb, if◌then◌else◌, length, if_elim,
}
use coinbasechain.Base.Map.{
  has, lookup, insert, erase, nat_key, bytes_key, bytes_eq, bytes_eq_iff, Distinct, Distinct-insert,
  Distinct-erase, Distinct-keep, lookup-insert, lookup-erase, lookup-keep, has-lookup,
}
use coinbasechain.Net.Bans.{
  Address, CBanEntry, is_expired, Banned, BanManager, sweep_expired, save_bans_internal, auto_save,
  ban, unban, is_banned, clear_banned, sweep_banned,
}

pub data BanCall : Type 0 where
  bans : Address → ℕ → BanCall
  unbans : Address → BanCall
  clears : BanCall
  sweeps : BanCall

-- A call with the time it is made at and whether its save succeeds.
pub record TimedCall : Type 0 where
  pub now : ℕ
  pub written : Bool
  pub call : BanCall

unfoldable pub step : ℕ → Bool → BanCall → BanManager → BanManager
unfolding ban unban clear_banned sweep_banned
step now written (bans address offset) s = ban now written address offset s
step now written (unbans address) s = unban now written address s
step now written clears s = clear_banned now written s
step now written sweeps s = sweep_banned now written s

unfoldable pub run : BanManager → List TimedCall → BanManager
unfolding step
run s [] = s
run s (c ∷ cs) = run (step c.now c.written c.call s) cs

-- The clock does not go back, from one time to another.
abbrev pub InOrder : ℕ → List TimedCall → ℕ → Type 0
InOrder start [] t = start ≤ t
InOrder start (c ∷ cs) t = (start ≤ c.now) × InOrder c.now cs t

-- The last ban of an address that no later unban or clear takes back.
abbrev pub judge : Address → ℕ → BanCall → Option CBanEntry → Option CBanEntry
judge address now (bans other offset) v =
    if bytes_eq other address
    then some (record { create_time = now; ban_until = if ltb 0 offset then now + offset else 0 })
    else v
judge address now (unbans other) v = if bytes_eq other address then none else v
judge address now clears v = none
judge address now sweeps v = v

abbrev pub verdict : Address → List TimedCall → Option CBanEntry → Option CBanEntry
verdict address [] v = v
verdict address (c ∷ cs) v = verdict address cs (judge address c.now c.call v)

abbrev pub in_force : ℕ → Option CBanEntry → Bool
in_force t none = false
in_force t (some e) = not (is_expired t e)

pub is_banned_lem :
    (address : Address) (t : ℕ) (s : BanManager)
    → is_banned address t s ≡ in_force t (lookup address s.banned)
unfolding is_banned
is_banned_lem address t s = ground arith

-- What has expired stays expired, so sweeping changes no later answer.
pub is_banned-sweep :
    (address : Address) (now t : ℕ) (m : Banned)
    → Distinct m
    → now ≤ t
    → in_force t (lookup address (sweep_expired now m)) ≡ in_force t (lookup address m)
unfolding sweep_expired is_expired
is_banned-sweep address now t m d h =
    ground (arith, lookup-keep (λ x. not (is_expired now x.1)) address m d)

-- From a time on, the map answers for an address as a verdict does.
pub record Answers (address : Address) (start : ℕ) (m : Banned) (v : Option CBanEntry)
    : Type 0 where
  pub distinct : Distinct m
  pub agree : (t : ℕ) → start ≤ t → in_force t (lookup address m) ≡ in_force t v

sweep-Answers :
    (address : Address) (now : ℕ) (m : Banned) (v : Option CBanEntry)
    → Answers address now m v
    → Answers address now (sweep_expired now m) v
unfolding sweep_expired
sweep-Answers address now m v ok = record {
  distinct = Distinct-keep (λ x. not (is_expired now x.1)) m ok.distinct;
  agree = λ t h. is_banned-sweep address now t m ok.distinct h ∙ ok.agree t h;
}

pub auto_save-Answers :
    (address : Address) (now : ℕ) (written : Bool) (s : BanManager) (v : Option CBanEntry)
    → Answers address now s.banned v
    → Answers address now (auto_save now written s).banned v
unfolding auto_save save_bans_internal
auto_save-Answers address now written s v ok =
    if_elim After (s.ban_auto_save && s.has_ban_file_path)
      (λ _.
        if_elim After (not s.has_ban_file_path) (λ _. ok)
          (λ _. sweep-Answers address now s.banned v ok))
      (λ _. ok)
  where
    After : BanManager → Type 0
    After s' = Answers address now s'.banned v

step-Answers :
    (address : Address) (now : ℕ) (written : Bool) (c : BanCall) (s : BanManager)
    (v : Option CBanEntry)
    → Answers address now s.banned v
    → Answers address now (step now written c s).banned (judge address now c v)
unfolding step ban unban clear_banned sweep_banned lookup
step-Answers address now written (bans other offset) s v ok =
    let entry : CBanEntry = record {
      create_time = now;
      ban_until = if ltb 0 offset then now + offset else 0;
    } in
    auto_save-Answers address now written (record s { banned = insert other entry s.banned })
      (judge address now (bans other offset) v)
      (record {
        distinct = Distinct-insert other entry s.banned ok.distinct;
        agree = λ t h. ground (arith, lookup-insert other address entry s.banned, ok.agree t h);
      })
step-Answers address now written (unbans other) s v ok =
    if_elim After (has other s.banned)
      (λ _.
        auto_save-Answers address now written (record s { banned = erase other s.banned })
          (judge address now (unbans other) v)
          (record {
            distinct = Distinct-erase other s.banned ok.distinct;
            agree = λ t h. ground (arith, lookup-erase other address s.banned, ok.agree t h);
          }))
      (λ absent. record {
        distinct = ok.distinct;
        agree = λ t h.
            ground (arith, bytes_eq_iff other address, has-lookup other s.banned, ok.agree t h);
      })
  where
    After : BanManager → Type 0
    After s' = Answers address now s'.banned (judge address now (unbans other) v)
step-Answers address now written clears s v ok =
    auto_save-Answers address now written (record s { banned = [] }) none
      (record { distinct = tt; agree = λ t h. refl })
step-Answers address now written sweeps s v ok =
    let swept = record s { banned = sweep_expired now s.banned } in
    let ok' = sweep-Answers address now s.banned v ok in
    if_elim {A = BanManager} (λ s'. Answers address now s'.banned v)
      (ltb 0 (length s.banned - length swept.banned))
      (λ _. auto_save-Answers address now written swept v ok') (λ _. ok')

run-Answers :
    (address : Address) (start t : ℕ) (cs : List TimedCall) (s : BanManager) (v : Option CBanEntry)
    → InOrder start cs t
    → Answers address start s.banned v
    → Answers address t (run s cs).banned (verdict address cs v)
unfolding run
run-Answers address start t [] s v h ok = record {
  distinct = ok.distinct;
  agree = λ u k. ok.agree u (omega (arith, h));
}
run-Answers address start t (c ∷ cs) s v (h, more) ok =
    run-Answers address c.now t cs (step c.now c.written c.call s) (judge address c.now c.call v)
      more
      (step-Answers address c.now c.written c.call s v
        (record { distinct = ok.distinct; agree = λ u k. ok.agree u (omega (arith, h)) }))

-- After any history of bans, unbans, clears and sweeps whose times are in order, IsBanned answers
-- at a later time what the last ban that was not taken back says, whatever was swept or saved.
pub is_banned-run :
    (address : Address) (start t : ℕ) (cs : List TimedCall) (s : BanManager)
    → InOrder start cs t
    → Distinct s.banned
    → is_banned address t (run s cs) ≡ in_force t (verdict address cs (lookup address s.banned))
is_banned-run address start t cs s h d =
    is_banned_lem address t (run s cs)
    ∙ (run-Answers address start t cs s (lookup address s.banned) h
          (record { distinct = d; agree = λ u k. refl })).agree
        t (omega arith)
