-- ===== src/Server/Login/Tests.antt =====
-- An address that tries passwords (internal/server/httpapi/auth_handlers.go), four at a time and
-- one by one.
use fobe.Prelude.{
  ◌+◌, ◌*◌, ◌≤◌, String, List, [], ◌∷◌, ◌++◌, false, none, some, ◌≡◌, refl, arith, ◌==◌,
  String-HasEq,
}
use fobe.Prelude.Table.{lookup, update, upsert, delete}
use fobe.Store.Access as Access
use fobe.Store.Alerts as Alerts
use fobe.Server.LoginGate.{new_gate, try_acquire, refill, release}
use fobe.Server.Login.{
  Guard, Panel, System, ip_blacklisted, bad_credentials, now_blacklisted, Try, Event, enters,
  finishes, unblocks, enter, reject, accept, finish, step, run,
}
use fobe.Server.Login.Guesses.{guesses, guesses-run}

program : Unit {0}
unfolding lookup update upsert delete Access.create_session Access.is_blacklisted
    Access.record_login_fail Access.clear_login_fails Access.unblock_ip Alerts.create_alert
    Alerts.duplicate Alerts.insert try_acquire refill release enter reject accept finish step run
program = tt

abbrev guard : Guard
guard = record {
  verify_password = λ password hash. password == hash;
  never_blacklist = λ ip. ip == "127.0.0.1";
  payload = λ ip count. ip;
}

abbrev panel : Panel
panel = record {
  db = record {
    user = some (record { password_hash = "secret"; must_change = false });
    sessions = [];
    blacklist = [];
  };
  gate = new_gate;
  alerts = Alerts.empty;
  audits = [];
}

abbrev start : System
start = record { panel = panel; pending = [] }

abbrev guess : String → Try
guess password = record { password = some password; ua = "curl"; token = some "sid" }

-- Four pass the gate before the first is answered: the third failure blocks the address, and the
-- fourth still counts.
abbrev four_at_once : List Event
four_at_once =
    enters 1 100 "6.6.6.6"
    ∷ enters 2 100 "6.6.6.6"
    ∷ enters 3 100 "6.6.6.6"
    ∷ enters 4 100 "6.6.6.6"
    ∷ finishes 0 101 (guess "a")
    ∷ finishes 0 101 (guess "b")
    ∷ finishes 0 102 (guess "c")
    ∷ finishes 0 103 (guess "d")
    ∷ enters 5 1902 "6.6.6.6"
    ∷ unblocks 1902 "7.7.7.7"
    ∷ []

answers :
    (run guard four_at_once start).0
    ≡ none
      ∷ none
      ∷ none
      ∷ none
      ∷ some ("6.6.6.6", bad_credentials)
      ∷ some ("6.6.6.6", bad_credentials)
      ∷ some ("6.6.6.6", now_blacklisted)
      ∷ some ("6.6.6.6", now_blacklisted)
      ∷ some ("6.6.6.6", ip_blacklisted)
      ∷ none
      ∷ []
unfolding program
answers = refl

-- One after the other: three wrong, a block of half an hour, and one more.
abbrev one_by_one : List Event
one_by_one =
    enters 1 100 "6.6.6.6"
    ∷ finishes 0 101 (guess "a")
    ∷ enters 2 102 "6.6.6.6"
    ∷ finishes 0 103 (guess "b")
    ∷ enters 3 104 "6.6.6.6"
    ∷ finishes 0 105 (guess "c")
    ∷ enters 4 1904 "6.6.6.6"
    ∷ unblocks 1904 "7.7.7.7"
    ∷ enters 5 1905 "6.6.6.6"
    ∷ finishes 0 1906 (guess "d")
    ∷ []

four_guesses : guesses "6.6.6.6" (run guard one_by_one start).0 ≡ 4
unfolding program
four_guesses = refl

guesses-run_example : 600 * guesses "6.6.6.6" (run guard one_by_one start).0 + 100 ≤ 1800 + 1906
unfolding program
guesses-run_example =
    guesses-run guard "6.6.6.6" 100 one_by_one panel refl refl tt refl (ground arith)
      (tt, (tt, (tt, (tt, (tt, (tt, (tt, (refl, (tt, (tt, tt))))))))))
      (
        (λ h. refl),
        (
          tt,
          ((λ h. refl), (tt, ((λ h. refl), (tt, ((λ h. refl), (tt, ((λ h. refl), (tt, tt)))))))),
        ),
      )

-- The block has served its time: the next failure is the first of a new streak.
after_block :
    (run guard
      (four_at_once ++ (enters 6 1903 "6.6.6.6" ∷ finishes 0 1904 (guess "e") ∷ []))
      start).1.panel.db.blacklist
    ≡ (
      "6.6.6.6",
      record { reason = "login_failed"; fail_count = 1; created_at = 101; expires_at = 0 },
    )
      ∷ []
unfolding program
after_block = refl

-- The right password forgets the failures before it.
signed_in :
    (run guard
      (enters 1 100 "6.6.6.6"
        ∷ finishes 0 101 (guess "a")
        ∷ enters 2 110 "6.6.6.6"
        ∷ finishes 0 111 (guess "secret")
        ∷ [])
      start).1.panel.db.blacklist
    ≡ []
unfolding program
signed_in = refl
