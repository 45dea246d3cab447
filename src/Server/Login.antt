-- ===== src/Server/Login.antt =====
-- A login at the panel (internal/server/httpapi/auth_handlers.go, handleLogin) and the release of a
-- blocked address, on the tables of Store.Access, the gate of Server.LoginGate and the alerts. A
-- request runs in two halves, up to the gate and from it to its answer; between them other
-- requests run. The check of a password, its texts and which addresses are never blocked are
-- parameters; seconds and the gate's nanoseconds come with the step.
pub mod Budget
pub mod Outcome
pub mod Requests
pub mod Spending
pub mod Guesses
mod Tests
use fobe.Prelude.{
  ℕ, zero, suc, ◌+◌, String, List, [], ◌∷◌, ◌++◌, Bool, true, false, not, ◌&&◌, ◌||◌, Option, none,
  some, ltb, leb, if◌then◌else◌, ◌==◌, String-HasEq,
}
use fobe.Store.Access as Access
use fobe.Store.Access.{
  User, is_blacklisted, record_login_fail, clear_login_fails, create_session, unblock_ip,
}
use fobe.Store.Alerts as Alerts
use fobe.Store.Alerts.{create_alert}
use fobe.Server.LoginGate.{Gate, try_acquire, release}

abbrev pub max_login_fails : ℕ
max_login_fails = 3

abbrev pub block_seconds : ℕ
block_seconds = 1800

-- VerifyPassword, NeverBlacklist of the address, and the payloads of the alerts by the address and
-- its count of failures, 0 where none is kept.
pub record Guard : Type 0 where
  pub verify_password : String → String → Bool
  pub never_blacklist : String → Bool
  pub payload : String → ℕ → String

pub record Audit : Type 0 where
  pub action : String
  pub source_ip : String
  pub command : String

pub record Panel : Type 0 where
  pub db : Access.Db
  pub gate : Gate
  pub alerts : Alerts.Db
  pub audits : List Audit

pub data Answer : Type 0 where
  ip_blacklisted too_many_requests bad_request not_initialized internal : Answer
  bad_credentials now_blacklisted welcome : Answer

-- What the second half finds: the decoded password, the agent, and the token, if there is one.
pub record Try : Type 0 where
  pub password : Option String
  pub ua : String
  pub token : Option String

abbrev noted : String → String → String → Panel → Panel
noted action ip command p = record p {
  audits = record { action = action; source_ip = ip; command = command } ∷ p.audits;
}

module _ (guard : Guard) where
  abbrev raise_login_alert : ℕ → String → String → ℕ → Panel → Panel
  raise_login_alert now kind ip count p = record p {
    alerts = (create_alert now kind "" (guard.payload ip count) 3600 p.alerts).2;
  }

  abbrev pub is_blocked : ℕ → String → Panel → Bool
  is_blocked now ip p =
      not (guard.never_blacklist ip)
      && elim (is_blacklisted now ip p.db.blacklist) [ none ↦ false | some e ↦ true ]

  -- The first half: an answer, or the way through the gate.
  unfoldable pub enter : ℕ → ℕ → String → Panel → Option Answer × Panel
  enter tick now ip p =
      if is_blocked now ip p
      then (some ip_blacklisted, noted "login_blocked" ip "" p)
      else let (granted, gate) = try_acquire tick p.gate in
        (if granted then none else some too_many_requests, record p { gate = gate })

  abbrev pub counted_fail : ℕ → String → ℕ → Panel → Answer × Panel
  counted_fail now ip count p =
      if leb max_login_fails count
      then (
        now_blacklisted,
        raise_login_alert now "login_blacklisted" ip count
            (noted "login_failed" ip "blacklisted" p),
      )
      else (
        bad_credentials,
        raise_login_alert now "login_failed" ip count (noted "login_failed" ip "" p),
      )

  unfoldable pub reject : ℕ → String → Panel → Answer × Panel
  reject now ip p =
      if guard.never_blacklist ip
      then (
        bad_credentials,
        raise_login_alert now "login_failed" ip 0
            (noted "login_failed" ip "protected_ip_not_counted" p),
      )
      else let (count, rows) =
          record_login_fail now ip "login_failed" max_login_fails block_seconds p.db.blacklist in
        counted_fail now ip count (record p { db = record p.db { blacklist = rows } })

  abbrev pub begin_session : String → Option Access.Sessions → Panel → Answer × Panel
  begin_session ip none p = (internal, p)
  begin_session ip (some rows) p =
      (welcome, noted "login_ok" ip "" (record p { db = record p.db { sessions = rows } }))

  unfoldable pub accept : ℕ → String → Try → Panel → Answer × Panel
  accept now ip t p =
      let cleared = record p {
        db = record p.db { blacklist = clear_login_fails ip p.db.blacklist };
      } in
      elim t.token [
        | none ↦ (internal, cleared)
        | some sid ↦ begin_session ip (create_session sid t.ua ip now p.db.sessions) cleared
      ]

  abbrev pub check : ℕ → String → Try → String → User → Panel → Answer × Panel
  check now ip t password u p =
      if guard.verify_password password u.password_hash then accept now ip t p else reject now ip p

  abbrev pub answer : ℕ → String → Try → Panel → Answer × Panel
  answer now ip t p = elim t.password [
    | none ↦ (bad_request, p)
    | some password ↦
        if password == ""
        then (bad_request, p)
        else elim p.db.user [ none ↦ (not_initialized, p) | some u ↦ check now ip t password u p ]
  ]

  -- The second half, with the release of its place at the gate.
  unfoldable pub finish : ℕ → String → Try → Panel → Answer × Panel
  finish now ip t p = let (a, q) = answer now ip t p in (a, record q { gate = release q.gate })

-- The requests between their halves, by the address.
pub record System : Type 0 where
  pub panel : Panel
  pub pending : List String

pub data Event : Type 0 where
  enters : ℕ → ℕ → String → Event
  finishes : ℕ → ℕ → Try → Event
  unblocks : ℕ → String → Event

-- The n-th of the list, and the others.
abbrev pub take_out : ℕ → List String → Option (String × List String)
take_out n [] = none
take_out zero (x ∷ xs) = some (x, xs)
take_out (suc n) (x ∷ xs) = elim (take_out n xs) [ none ↦ none | some (y, ys) ↦ some (y, x ∷ ys) ]

abbrev pub entered : String → Option Answer → Panel → System → Option (String × Answer) × System
entered ip none p s = (none, record { panel = p; pending = ip ∷ s.pending })
entered ip (some a) p s = (some (ip, a), record { panel = p; pending = s.pending })

module _ (guard : Guard) where
  abbrev pub finished :
      ℕ → Try → Option (String × List String) → System → Option (String × Answer) × System
  finished now t none s = (none, s)
  finished now t (some (ip, rest)) s =
      let (a, p) = finish guard now ip t s.panel in
      (some (ip, a), record { panel = p; pending = rest })

  -- The address and the answer, if the step has one.
  unfoldable pub step : Event → System → Option (String × Answer) × System
  step (enters tick now ip) s = let (a, p) = enter guard tick now ip s.panel in entered ip a p s
  step (finishes n now t) s = finished now t (take_out n s.pending) s
  step (unblocks now ip) s = (
    none,
    record s {
      panel = record s.panel {
        db = record s.panel.db { blacklist = unblock_ip ip s.panel.db.blacklist };
      };
    },
  )

  -- The answers in their order, and the system in the end.
  unfoldable pub run : List Event → System → List (Option (String × Answer)) × System
  run [] s = ([], s)
  run (e ∷ es) s = let (a, s₁) = step e s in let (rest, s₂) = run es s₁ in (a ∷ rest, s₂)
