-- ===== src/Agent/SelfUpdate/Tests.antt =====
-- Runs of a probe that replaces itself (internal/agent/selfupdate.go).
use fobe.Prelude.{ℕ, String, List, [], ◌∷◌, ◌≡◌, refl, arith, none, some, true, false, map}
use fobe.Agent.SelfUpdate.{
  Updater, Host, Report, Event, offers, fires, downloads, verifies, restarts, replaced,
  replaced_unsaved, refused, fresh, report, is_running, step, run, consider, decide, reanchor,
  converge, follow, fire, backoff, record_terminal, record_transient, download_ends, verify_ends,
  restart,
}
use fobe.Agent.SelfUpdate.Backoff.{backoff-doubling}
use fobe.Agent.SelfUpdate.Retry.{IsWanted, fire-download_ends, consider-forgotten}

program : Unit {0}
unfolding step run consider decide reanchor converge follow fire backoff record_terminal
    record_transient download_ends verify_ends restart
program = tt

abbrev linux : Host
linux = record { located = true; supported = true; reason = "" }

abbrev probe : Updater
probe = record {
  state = fresh "";
  running = none;
  timer = none;
  file = fresh "";
  version = "v1";
  installed = "v1";
}

-- The offer, the download and a self-check that fails, three times; then the offer once more.

abbrev thrice : List Event
thrice =
    offers linux 1000 "v2" 900
    ∷ downloads 1010 none
    ∷ verifies 1020 (refused "selfcheck")
    ∷ offers linux 1030 "v2" 900
    ∷ downloads 1040 none
    ∷ verifies 1050 (refused "selfcheck")
    ∷ restarts
    ∷ offers linux 1060 "v2" 900
    ∷ downloads 1070 none
    ∷ verifies 1080 (refused "selfcheck")
    ∷ offers linux 1090 "v2" 900
    ∷ []

phases :
    map {B = String × ℕ} (λ (r : Report). (r.phase, r.attempts)) (run thrice probe).1
    ≡ ("downloading", 0)
      ∷ ("verifying", 0)
      ∷ ("failed", 1)
      ∷ ("downloading", 1)
      ∷ ("verifying", 1)
      ∷ ("failed", 2)
      ∷ ("downloading", 2)
      ∷ ("verifying", 2)
      ∷ ("failed", 3)
      ∷ ("suppressed", 3)
      ∷ ("suppressed", 3)
      ∷ []
unfolding program
phases = refl

-- Replaced, but the process ends before the state file is written: the file names the target by an
-- earlier failure, and the new build says so itself.
unsaved :
    map
      (λ (r : Report). r.phase)
      (run
        (offers linux 1000 "v2" 900
          ∷ downloads 1010 none
          ∷ verifies 1020 replaced_unsaved
          ∷ offers linux 1030 "v2" 0
          ∷ [])
        (record probe { file = fresh "v2" })).1
    ≡ "downloading" ∷ "verifying" ∷ "committed" ∷ []
unfolding program
unsaved = refl

saved :
    map
      (λ (r : Report). r.phase)
      (run
        (offers linux 1000 "v2" 900
          ∷ downloads 1010 none
          ∷ verifies 1020 replaced
          ∷ offers linux 1030 "v2" 0
          ∷ [])
        probe).1
    ≡ "downloading" ∷ "verifying" ∷ "committed" ∷ []
unfolding program
saved = refl

-- The server's plan is 100 s away: the timer waits for it.
staggered :
    map (λ (r : Report). r.phase) (run (offers linux 800 "v2" 900 ∷ fires linux 899 ∷ []) probe).1
    ≡ []
unfolding program
staggered = refl

elapsed :
    map (λ (r : Report). r.phase) (run (offers linux 800 "v2" 900 ∷ fires linux 900 ∷ []) probe).1
    ≡ "downloading" ∷ []
unfolding program
elapsed = refl

pauses :
    map backoff (0 ∷ 1 ∷ 5 ∷ 6 ∷ 25 ∷ 33 ∷ 64 ∷ [])
    ≡ 60 ∷ 120 ∷ 1920 ∷ 3600 ∷ 3600 ∷ 3600 ∷ 3600 ∷ []
unfolding program
pauses = refl

backoff-doubling_example : backoff 40 ≡ 3600
backoff-doubling_example = backoff-doubling 40

abbrev trying : Updater
trying = record probe {
  state = record (fresh "v2") { anchor = 900 };
  running = some (record { target = "v2"; downloaded = false });
}

abbrev spent : Updater
spent = record probe {
  state = record (fresh "v2") { anchor = 900; terminal_attempts = 3; last_error = "selfcheck" };
}

trying-IsWanted : IsWanted linux "v2" 900 trying
trying-IsWanted = record {
  other = refl;
  full = refl;
  located = refl;
  supported = refl;
  set = omega arith;
}

spent-IsWanted : IsWanted linux "v2" 900 spent
spent-IsWanted = record {
  other = refl;
  full = refl;
  located = refl;
  supported = refl;
  set = omega arith;
}

fire-download_ends_example :
    is_running
      (fire linux 4620
        (consider linux 1030 "v2" 900 (download_ends 1020 (some "download: timeout") trying).0).0).0
    ≡ true
fire-download_ends_example =
    fire-download_ends linux "v2" 900 1020 1030 4620 "download: timeout" trying
      (record {
        running = refl;
        target = refl;
        anchor = refl;
        timer = refl;
        left = omega arith;
        wanted = trying-IsWanted;
      })
      (omega arith) (omega arith) (omega arith)

consider-forgotten_example :
    ((consider linux 1100 "v2" 900 spent).1
      ≡ report "v2" "suppressed" "terminal" 3 "selfcheck" ∷ [])
    × (is_running (consider linux 1120 "v2" 900 (consider linux 1110 "" 0 spent).0).0 ≡ true)
consider-forgotten_example =
    consider-forgotten linux "v2" 900 1100 1110 1120 spent
      (record {
        idle = refl;
        target = refl;
        anchor = refl;
        spent = omega arith;
        named = refl;
        wanted = spent-IsWanted;
      })
      (omega arith)
