-- ===== src/Net/Bans/Tests.antt =====
-- Bans on concrete addresses.
use coinbasechain.Base.{
  ◌+◌, ◌<◌, ◌≡◌, refl, true, false, none, List, [], ◌∷◌, length, arith, ltb, if◌then◌else◌,
}
use coinbasechain.Base.Map.{has, lookup, insert, erase, bytes_key, bytes_eq, bytes_less}
use coinbasechain.Net.Bans.{
  Address, is_expired, BanManager, save_bans_internal, is_banned, load_bans, discourage,
  is_discouraged, max_discouraged, discourage_duration, sweep_expired, auto_save, ban,
}
use coinbasechain.Net.Bans.Verdict.{
  TimedCall, bans, unbans, sweeps, run, step, verdict, in_force, is_banned-run,
}
use coinbasechain.Net.Bans.File.{load_bans-save_bans}
use coinbasechain.Net.Bans.Discouraged.{is_discouraged-discourage}

abbrev host : Address
host = 49 ∷ 46 ∷ []

abbrev other_host : Address
other_host = 50 ∷ []

abbrev started : BanManager
started = record {
  banned = (other_host, record { create_time = 5; ban_until = 90 }) ∷ [];
  discouraged = (other_host, 86500) ∷ [];
  whitelist = [];
  has_ban_file_path = true;
  ban_auto_save = true;
  ban_file = none;
}

abbrev history : List TimedCall
history =
    record { now = 10; written = true; call = bans host 50 }
    ∷ record { now = 70; written = false; call = sweeps }
    ∷ record { now = 70; written = true; call = bans host 0 }
    ∷ record { now = 80; written = true; call = unbans other_host }
    ∷ []

is_banned-run_example :
    is_banned host 100 (run started history)
    ≡ in_force 100 (verdict host history (lookup host started.banned))
unfolding has
is_banned-run_example =
    is_banned-run host 0 100 history started
      (omega arith, (omega arith, (omega arith, (omega arith, omega arith)))) (refl, tt)

history_outcome :
    (is_banned host 100 (run started history) ≡ true)
    × (is_banned other_host 80 (run started history) ≡ false)
unfolding run step is_banned lookup is_expired bytes_eq bytes_less insert erase has ban auto_save
    save_bans_internal sweep_expired
history_outcome = (refl, refl)

load_bans-save_bans_example :
    is_banned other_host 85 (
      load_bans 40 true
        (record started { banned = []; ban_file = (save_bans_internal 20 true started).ban_file }))
    ≡ is_banned other_host 85 started
unfolding has
load_bans-save_bans_example =
    load_bans-save_bans other_host 20 40 85 true started started refl (refl, tt) (omega arith)
      (omega arith)

is_discouraged-discourage_example :
    let wanted =
      if bytes_eq host other_host
      then ltb 200 (100 + discourage_duration)
      else is_discouraged other_host 200 started in
    (length started.discouraged < max_discouraged
      → is_discouraged other_host 200 (discourage 100 host started) ≡ wanted)
    × (is_discouraged other_host 200 (discourage 100 host started) ≡ true → wanted ≡ true)
unfolding has
is_discouraged-discourage_example =
    is_discouraged-discourage host other_host 100 200 started (refl, tt) (omega arith)
