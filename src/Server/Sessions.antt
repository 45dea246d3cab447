-- ===== src/Server/Sessions.antt =====
-- The sessions of the panel: who is let in (internal/server/httpapi/server.go, requireSession), the
-- change of the password, logout and the revocation of all (auth_handlers.go, ops_handlers.go), and
-- the pruning of the scheduler, on the tables of Store.Access. The cookie is the session's id, ""
-- without one; passwords and the list of exempt paths are parameters of a call.
pub mod Eviction
mod Tests
use fobe.Prelude.{
  ℕ, ◌+◌, ◌-◌, String, List, [], ◌∷◌, Bool, true, false, not, ◌&&◌, Option, none, some, leb,
  if◌then◌else◌, ◌==◌, String-HasEq,
}
use fobe.Prelude.Table.{lookup}
use fobe.Store.Access.{
  Db, User, Session, Sessions, create_session, touch_session, revoke_session, revoke_other_sessions,
  revoke_all_sessions, prune_expired_sessions,
}

-- Thirty days.
abbrev pub session_ttl : ℕ
session_ttl = 2592000

abbrev pub session_expired : ℕ → ℕ → Bool
session_expired created_at now = leb (created_at + session_ttl) now

pub data Admission : Type 0 where
  unauthorized password_change_required admitted : Admission

abbrev pub must_change : Option User → Bool
must_change none = false
must_change (some u) = u.must_change

abbrev pub admit : ℕ → String → Bool → Option Session → Db → Admission × Db
admit now id exempt none db = (unauthorized, db)
admit now id exempt (some s) db =
    if s.revoked
    then (unauthorized, db)
    else (if session_expired s.created_at now
        then (unauthorized, record db { sessions = revoke_session id db.sessions })
        else (if not exempt && must_change db.user
            then (password_change_required, db)
            else (admitted, record db { sessions = touch_session id now db.sessions })))

unfoldable pub require_session : ℕ → String → Bool → Db → Admission × Db
require_session now id exempt db =
    if id == "" then (unauthorized, db) else admit now id exempt (lookup id db.sessions) db

pub data Change : Type 0 where
  bad_request password_too_short bad_credentials internal changed : Change

-- VerifyPassword, HashPassword, and the length in bytes.
pub record Passwords : Type 0 where
  pub verify : String → String → Bool
  pub hash : String → Option String
  pub is_short : String → Bool

abbrev update_password : String → Bool → User → User
update_password hash must u = record u { password_hash = hash; must_change = must }

abbrev pub store_password : String → User → Option String → Db → Change × Db
store_password keep u none db = (internal, db)
store_password keep u (some hash) db = (
  changed,
  record db {
    user = some (update_password hash false u);
    sessions = revoke_other_sessions keep db.sessions;
  },
)

abbrev pub renew : Passwords → String → String → String → Option User → Db → Change × Db
renew passwords keep old new none db = (internal, db)
renew passwords keep old new (some u) db =
    if passwords.verify old u.password_hash
    then store_password keep u (passwords.hash new) db
    else (bad_credentials, db)

unfoldable pub change_password : Passwords → String → String → String → Db → Change × Db
change_password passwords keep old new db =
    if new == ""
    then (bad_request, db)
    else (if passwords.is_short new
        then (password_too_short, db)
        else renew passwords keep old new db.user db)

abbrev pub opened : Option Sessions → Db → Db
opened none db = db
opened (some rows) db = record db { sessions = rows }

unfoldable pub logout : String → Db → Db
logout id db = if id == "" then db else record db { sessions = revoke_session id db.sessions }

pub data Call : Type 0 where
  requests : ℕ → String → Bool → Call
  logs_in : String → String → String → ℕ → Call
  changes : Passwords → String → String → String → Call
  logs_out : String → Call
  revokes_all : Call
  prunes : ℕ → Call

unfoldable pub step : Call → Db → Db
step (requests now id exempt) db = (require_session now id exempt db).1
step (logs_in id ua ip now) db = opened (create_session id ua ip now db.sessions) db
step (changes passwords keep old new) db = (change_password passwords keep old new db).1
step (logs_out id) db = logout id db
step revokes_all db = record db { sessions = revoke_all_sessions db.sessions }
step (prunes now) db = record db {
  sessions = prune_expired_sessions (now - session_ttl) db.sessions;
}

unfoldable pub run : List Call → Db → Db
run [] db = db
run (c ∷ cs) db = run cs (step c db)
