-- ===== src/Server/Login/Outcome.antt =====
-- How a login ends (internal/server/httpapi/auth_handlers.go): its answer, what it does to the table
-- of failed logins, and the place at the gate that it gives back.
use fobe.Prelude.{
  ℕ, suc, String, true, Option, none, some, ◌≡◌, refl, ap, leb, Bool-cases, Option-cases, inl, inr,
  ◌==◌, String-HasEq,
}
use fobe.Store.Access.{
  Blacklist, Sessions, User, record_login_fail, clear_login_fails, create_session,
}
use fobe.Server.LoginGate.{release}
use fobe.Server.Login.{
  Guard, Panel, Answer, internal, bad_credentials, now_blacklisted, welcome, Try, max_login_fails,
  block_seconds, counted_fail, reject, begin_session, accept, check, answer, finish,
}

-- The wrong passwords of an address before the right one.
abbrev pub tally : Answer → ℕ → ℕ
tally bad_credentials n = suc n
tally now_blacklisted n = suc n
tally welcome n = 0
tally internal n = 0
tally _ n = n

module _ (guard : Guard) (now : ℕ) (ip : String) where
  pub data Fate (before : Blacklist) (a : Answer) (after : Blacklist) : Type 0 where
    unread : ((n : ℕ) → tally a n ≡ n) → after ≡ before → Fate before a after
    right : ((n : ℕ) → tally a n ≡ 0) → after ≡ clear_login_fails ip before → Fate before a after
    wrong :
        ((n : ℕ) → tally a n ≡ suc n)
        → after ≡ (record_login_fail now ip "login_failed" max_login_fails block_seconds before).1
        → Fate before a after
    shielded : guard.never_blacklist ip ≡ true → after ≡ before → Fate before a after

  abbrev pub Ends : Panel → Answer × Panel → Type 0
  Ends p (a, q) = Fate p.db.blacklist a q.db.blacklist × (q.gate ≡ p.gate)

  counted_fail-lem :
      (count : ℕ) (p : Panel)
      → ((n : ℕ) → tally (counted_fail guard now ip count p).0 n ≡ suc n)
        × ((counted_fail guard now ip count p).1.db.blacklist ≡ p.db.blacklist)
        × ((counted_fail guard now ip count p).1.gate ≡ p.gate)
  counted_fail-lem count p = elim (Bool-cases (leb max_login_fails count)) [
    | inl y ↦ rw y ((λ n. refl), refl, refl)
    | inr y ↦ rw y ((λ n. refl), refl, refl)
  ]

  reject-Ends : (p : Panel) → Ends p (reject guard now ip p)
  unfolding reject
  reject-Ends p = elim (Bool-cases (guard.never_blacklist ip)) [
    | inl y ↦ rw y (shielded y refl, refl)
    | inr y ↦ rw y (
        let c =
          counted_fail-lem
            (record_login_fail now ip "login_failed" max_login_fails block_seconds p.db.blacklist).0
            (record p {
              db = record p.db {
                blacklist =
                    (record_login_fail now ip "login_failed" max_login_fails block_seconds
                      p.db.blacklist).1;
              };
            }) in
        (wrong c.0 c.1, c.2))
  ]

  begin_session-lem :
      (rows : Option Sessions) (p : Panel)
      → ((n : ℕ) → tally (begin_session guard ip rows p).0 n ≡ 0)
        × ((begin_session guard ip rows p).1.db.blacklist ≡ p.db.blacklist)
        × ((begin_session guard ip rows p).1.gate ≡ p.gate)
  begin_session-lem none p = ((λ n. refl), refl, refl)
  begin_session-lem (some rows) p = ((λ n. refl), refl, refl)

  accept-Ends : (t : Try) (p : Panel) → Ends p (accept guard now ip t p)
  unfolding accept
  accept-Ends t p = elim (Option-cases t.token) [
    | inl e ↦ rw e (right (λ n. refl) refl, refl)
    | inr (sid, e) ↦
        let c =
          begin_session-lem (create_session sid t.ua ip now p.db.sessions)
            (record p { db = record p.db { blacklist = clear_login_fails ip p.db.blacklist } }) in
        rw e (right c.0 c.1, c.2)
  ]

  check-Ends :
      (t : Try) (password : String) (u : User) (p : Panel)
      → Ends p (check guard now ip t password u p)
  check-Ends t password u p = elim (Bool-cases (guard.verify_password password u.password_hash)) [
    | inl y ↦ rw y (accept-Ends t p)
    | inr y ↦ rw y (reject-Ends p)
  ]

  answer-Ends : (t : Try) (p : Panel) → Ends p (answer guard now ip t p)
  unfolding accept
  answer-Ends t p = elim (Option-cases t.password) [
    | inl e ↦ rw e (unread (λ n. refl) refl, refl)
    | inr (password, e) ↦ elim (Bool-cases (password == "")) [
      | inl y ↦ rw (e, y) (unread (λ n. refl) refl, refl)
      | inr y ↦ elim (Option-cases p.db.user) [
        | inl f ↦ rw (e, y, f) (unread (λ n. refl) refl, refl)
        | inr (u, f) ↦ rw (e, y, f) (check-Ends t password u p)
      ]
    ]
  ]

  pub finish-Fate :
      (t : Try) (p : Panel)
      → Fate p.db.blacklist (finish guard now ip t p).0 (finish guard now ip t p).1.db.blacklist
        × ((finish guard now ip t p).1.gate ≡ release p.gate)
  unfolding finish
  finish-Fate t p = let (f, g) = answer-Ends t p in (f, ap release g)
