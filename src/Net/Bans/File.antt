-- ===== src/Net/Bans/File.antt =====
-- Bans that go to the ban file and come back.
use coinbasechain.Base.{
  ℕ, ◌≤◌, ◌≡◌, refl, sym, ◌∙◌, arith, Bool, true, not, none, some, [], ◌∷◌, ltb, if◌then◌else◌,
  length, if_elim,
}
use coinbasechain.Base.Map.{
  lookup, insert, nat_key, bytes_key, bytes_eq_iff, Distinct, Distinct-insert, Distinct-keep,
  lookup-insert, has-lookup,
}
use coinbasechain.Net.Bans.{
  Address, is_expired, Banned, BanManager, sweep_expired, save_bans_internal, auto_save, is_banned,
  load_entries, load_bans,
}
use coinbasechain.Net.Bans.Verdict.{
  in_force, is_banned_lem, Answers, auto_save-Answers, is_banned-sweep,
}

load_entries-Distinct :
    (now : ℕ) (file m : Banned) → Distinct m → Distinct (load_entries now file m)
unfolding load_entries
load_entries-Distinct now [] m d = d
load_entries-Distinct now ((a, e) ∷ file) m d =
    load_entries-Distinct now file (if is_expired now e then m else insert a e m)
      (if_elim {A = Banned} Distinct (is_expired now e) (λ _. d) (λ _. Distinct-insert a e m d))

-- A live entry of the file wins over what was there.
lookup-load_entries :
    (address : Address) (now t : ℕ) (file m : Banned)
    → now ≤ t
    → Distinct file
    → lookup address (load_entries now file m) ≡ (elim (lookup address file) [
      | none ↦ lookup address m
      | some e ↦ if is_expired now e then lookup address m else some e
    ])
unfolding load_entries lookup
lookup-load_entries address now t [] m h d = refl
lookup-load_entries address now t ((a, e) ∷ file) m h d = ground (
  arith,
  bytes_eq_iff a address,
  has-lookup address file,
  lookup-insert a address e m,
  lookup-load_entries address now t file (if is_expired now e then m else insert a e m) h,
)

load_entries-Answers :
    (address : Address) (now : ℕ) (file : Banned)
    → Distinct file
    → Answers address now (load_entries now file []) (lookup address file)
unfolding is_expired lookup
load_entries-Answers address now file d = record {
  distinct = load_entries-Distinct now file [] tt;
  agree = λ t h. ground (arith, lookup-load_entries address now t file [] h d);
}

load_bans_lem :
    (address : Address) (now t : ℕ) (written : Bool) (file : Banned) (fresh : BanManager)
    → Distinct file
    → now ≤ t
    → is_banned address t
        (load_bans now written (record fresh { banned = []; ban_file = some file }))
      ≡ in_force t (lookup address file)
unfolding load_bans
load_bans_lem address now t written file fresh d h =
    let loaded = record fresh {
      banned = load_entries now file [];
      has_ban_file_path = true;
      ban_file = some file;
    } in
    let entries = load_entries-Answers address now file d in
    if_elim {A = BanManager} (λ s. is_banned address t s ≡ in_force t (lookup address file))
      (ltb (length (sweep_expired now file)) (length file))
      (λ _.
        is_banned_lem address t (auto_save now written loaded)
        ∙ (auto_save-Answers address now written loaded (lookup address file) entries).agree t h)
      (λ _. is_banned_lem address t loaded ∙ entries.agree t h)

sweep_expired-Distinct : (now : ℕ) (m : Banned) → Distinct m → Distinct (sweep_expired now m)
unfolding sweep_expired
sweep_expired-Distinct now m d = Distinct-keep (λ x. not (is_expired now x.1)) m d

save_bans_internal_file :
    (now : ℕ) (s : BanManager)
    → s.has_ban_file_path ≡ true
    → (save_bans_internal now true s).ban_file ≡ some (sweep_expired now s.banned)
unfolding save_bans_internal
save_bans_internal_file now s path = rw (path, save_bans_internal) refl

-- A manager that starts on a written ban file answers for every address, from its start on, as
-- the manager that saved it.
pub load_bans-save_bans :
    (address : Address) (saved loaded t : ℕ) (written : Bool) (s fresh : BanManager)
    → s.has_ban_file_path ≡ true
    → Distinct s.banned
    → saved ≤ loaded
    → loaded ≤ t
    → is_banned address t (
        load_bans loaded written
          (record fresh { banned = []; ban_file = (save_bans_internal saved true s).ban_file }))
      ≡ is_banned address t s
load_bans-save_bans address saved loaded t written s fresh path d h k =
    let file = sweep_expired saved s.banned in
    rw (save_bans_internal_file saved s path) (
      load_bans_lem address loaded t written file fresh (sweep_expired-Distinct saved s.banned d) k
      ∙ (is_banned-sweep address saved t s.banned d (omega arith)
          ∙ sym (is_banned_lem address t s)))
