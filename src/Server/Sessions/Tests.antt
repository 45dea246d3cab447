-- ===== src/Server/Sessions/Tests.antt =====
-- Two browsers, one of which changes the password (internal/server/httpapi/auth_handlers.go).
use fobe.Prelude.{List, [], ◌∷◌, true, false, some, ◌≡◌, refl, ◌==◌, String-HasEq}
use fobe.Prelude.Table.{lookup, update, delete, upsert}
use fobe.Store.Access as Access
use fobe.Store.Access.{Db, new_session}
use fobe.Server.Sessions.{
  Passwords, Call, requests, logs_in, prunes, admitted, unauthorized, password_change_required,
  require_session, change_password, logout, step, run,
}
use fobe.Server.Sessions.Eviction.{require_session-run}

program : Unit {0}
unfolding lookup update delete upsert Access.create_session Access.touch_session
    Access.revoke_session Access.revoke_other_sessions Access.revoke_all_sessions
    Access.prune_expired_sessions require_session change_password logout step run
program = tt

abbrev passwords : Passwords
passwords = record {
  verify = λ password hash. password == hash;
  hash = λ password. some password;
  is_short = λ password. password == "short";
}

abbrev two_browsers : Db
two_browsers = record {
  user = some (record { password_hash = "initial"; must_change = true });
  sessions = ("mine", new_session "" "" 100) ∷ ("theirs", new_session "" "" 90) ∷ [];
  blacklist = [];
}

abbrev afterwards : List Call
afterwards =
    requests 210 "theirs" false
    ∷ logs_in "third" "" "" 220
    ∷ requests 230 "mine" false
    ∷ prunes 3000000
    ∷ []

-- Until the password is changed, no session gets further than that.
required : (require_session 150 "theirs" false two_browsers).0 ≡ password_change_required
unfolding program
required = refl

kept :
    (require_session 210 "mine" false
      (change_password passwords "mine" "initial" "a new one" two_browsers).1).0
    ≡ admitted
unfolding program
kept = refl

-- A session ends after its thirty days.
expired : (require_session 2592100 "mine" true two_browsers).0 ≡ unauthorized
unfolding program
expired = refl

require_session-run_example :
    (require_session 240 "theirs" false
      (run afterwards (change_password passwords "mine" "initial" "a new one" two_browsers).1)).0
    ≡ unauthorized
unfolding program
require_session-run_example =
    require_session-run passwords "theirs" "mine" "initial" "a new one" 240 false afterwards
      two_browsers (refl, (refl, tt)) refl refl (tt, (refl, (tt, (tt, tt))))
