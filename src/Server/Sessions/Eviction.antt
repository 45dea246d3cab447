-- ===== src/Server/Sessions/Eviction.antt =====
-- Sessions that are not let in any more (internal/server/httpapi and internal/server/store/auth.go).
use fobe.Prelude.{
  ℕ, String, List, [], ◌∷◌, Bool, true, false, not, ◌&&◌, Option, none, some, All, ◌≡◌, refl, arith,
  ◌==◌, String-HasEq, Bool-cases, Option-cases, inl, inr,
}
use fobe.Prelude.Table.{
  lookup, IsKeyed, update, delete, lookup-update, lookup-delete, lookup-upsert, update-IsKeyed,
  delete-IsKeyed, upsert-IsKeyed,
}
use fobe.Store.Access.{
  Db, User, Session, Sessions, seen, revoked_of, new_session, create_session, touch_session,
  revoke_session, revoke_other_sessions, revoke_all_sessions, prune_expired_sessions,
}
use fobe.Server.Sessions.{
  unauthorized, must_change, store_password, admit, require_session, changed, Passwords, renew,
  change_password, opened, logout, Call, requests, logs_in, changes, logs_out, revokes_all, prunes,
  step, run, session_expired,
}

abbrev is_shut : Option Session → Bool
is_shut none = true
is_shut (some s) = s.revoked

-- The token of a login is a new one.
abbrev pub Spares : String → Call → Type 0
Spares id (logs_in k ua ip now) = (k == id) ≡ false
Spares id _ = Unit

module _ (id : String) where
  abbrev IsShut : Sessions → Type 0
  IsShut rows = IsKeyed rows × (is_shut (lookup id rows) ≡ true)

  update-IsShut :
      (p : String → Session → Bool) (f : Session → Session) (rows : Sessions)
      → ((s : Session) → s.revoked ≡ true → (f s).revoked ≡ true)
      → IsShut rows
      → IsShut (update p f rows)
  update-IsShut p f rows h (d, e) = (
    update-IsKeyed p f rows d,
    elim (Option-cases (lookup id rows)) [
      | inl o ↦ ground (arith, lookup-update p f id rows, o)
      | inr (s, o) ↦
          let r : s.revoked ≡ true = rw o at e in
          ground (arith, lookup-update p f id rows, o, h s r, r)
    ],
  )

  delete-IsShut :
      (p : String → Session → Bool) (rows : Sessions) → IsShut rows → IsShut (delete p rows)
  delete-IsShut p rows (d, e) = (
    delete-IsKeyed p rows d,
    elim (Option-cases (lookup id rows)) [
      | inl o ↦ ground (arith, lookup-delete p id rows d, o)
      | inr (s, o) ↦
          let r : s.revoked ≡ true = rw o at e in ground (arith, lookup-delete p id rows d, o, r)
    ],
  )

  requests-IsShut :
      (now : ℕ) (k : String) (exempt : Bool) (db : Db)
      → IsShut db.sessions
      → IsShut (require_session now k exempt db).1.sessions
  unfolding require_session touch_session revoke_session
  requests-IsShut now k exempt db h = elim (Bool-cases (k == "")) [
    | inl y ↦ rw y h
    | inr y ↦ rw y (admitted-IsShut (lookup k db.sessions))
  ]
    where
      admitted-IsShut : (o : Option Session) → IsShut (admit now k exempt o db).1.sessions
      admitted-IsShut none = h
      admitted-IsShut (some s) = elim (Bool-cases s.revoked) [
        | inl y ↦ rw y h
        | inr y ↦ elim (Bool-cases (session_expired s.created_at now)) [
          | inl z ↦ rw (y, z) (update-IsShut _ revoked_of db.sessions (λ _ _. refl) h)
          | inr z ↦ elim (Bool-cases (not exempt && must_change db.user)) [
            | inl m ↦ rw (y, z, m) h
            | inr m ↦ rw (y, z, m) (update-IsShut _ (seen now) db.sessions (λ _ r. r) h)
          ]
        ]
      ]

  logs_in-IsShut :
      (k ua ip : String) (now : ℕ) (db : Db)
      → (k == id) ≡ false
      → IsShut db.sessions
      → IsShut (opened (create_session k ua ip now db.sessions) db).sessions
  unfolding create_session
  logs_in-IsShut k ua ip now db y (d, e) = elim (Option-cases (lookup k db.sessions)) [
    | inr (s, o) ↦ rw (create_session, o) (d, e)
    | inl o ↦
        let row = new_session ua ip now in
        rw (create_session, o)
          (
            upsert-IsKeyed k row (λ _. row) db.sessions d,
            ground (arith, y, lookup-upsert k id row (λ _. row) db.sessions),
          )
  ]

  store-IsShut :
      (keep : String) (u : User) (o : Option String) (db : Db)
      → IsShut db.sessions
      → IsShut (store_password keep u o db).1.sessions
  unfolding revoke_other_sessions
  store-IsShut keep u none db h = h
  store-IsShut keep u (some x) db h = update-IsShut _ revoked_of db.sessions (λ _ _. refl) h

  renew-IsShut :
      (passwords : Passwords) (keep old new : String) (o : Option User) (db : Db)
      → IsShut db.sessions
      → IsShut (renew passwords keep old new o db).1.sessions
  renew-IsShut passwords keep old new none db h = h
  renew-IsShut passwords keep old new (some u) db h =
      elim (Bool-cases (passwords.verify old u.password_hash)) [
        | inl y ↦ rw y (store-IsShut keep u (passwords.hash new) db h)
        | inr y ↦ rw y h
      ]

  changes-IsShut :
      (passwords : Passwords) (keep old new : String) (db : Db)
      → IsShut db.sessions
      → IsShut (change_password passwords keep old new db).1.sessions
  unfolding change_password
  changes-IsShut passwords keep old new db h = elim (Bool-cases (new == "")) [
    | inl y ↦ rw y h
    | inr y ↦ elim (Bool-cases (passwords.is_short new)) [
      | inl z ↦ rw (y, z) h
      | inr z ↦ rw (y, z) (renew-IsShut passwords keep old new db.user db h)
    ]
  ]

  logs_out-IsShut : (k : String) (db : Db) → IsShut db.sessions → IsShut (logout k db).sessions
  unfolding logout revoke_session
  logs_out-IsShut k db h = elim (Bool-cases (k == "")) [
    | inl y ↦ rw y h
    | inr y ↦ rw y (update-IsShut _ revoked_of db.sessions (λ _ _. refl) h)
  ]

  step-IsShut :
      (c : Call) (db : Db) → Spares id c → IsShut db.sessions → IsShut (step c db).sessions
  unfolding step revoke_all_sessions prune_expired_sessions
  step-IsShut (requests now k exempt) db _ h = requests-IsShut now k exempt db h
  step-IsShut (logs_in k ua ip now) db y h = logs_in-IsShut k ua ip now db y h
  step-IsShut (changes passwords keep old new) db _ h = changes-IsShut passwords keep old new db h
  step-IsShut (logs_out k) db _ h = logs_out-IsShut k db h
  step-IsShut revokes_all db _ h = update-IsShut _ revoked_of db.sessions (λ _ _. refl) h
  step-IsShut (prunes now) db _ h = delete-IsShut _ db.sessions h

  run-IsShut :
      (cs : List Call) (db : Db)
      → All (Spares id) cs
      → IsShut db.sessions
      → IsShut (run cs db).sessions
  unfolding run
  run-IsShut [] db _ h = h
  run-IsShut (c ∷ cs) db (y, ys) h = run-IsShut cs (step c db) ys (step-IsShut c db y h)

  require_session-unauthorized :
      (now : ℕ) (exempt : Bool) (db : Db)
      → IsShut db.sessions
      → (require_session now id exempt db).0 ≡ unauthorized
  unfolding require_session
  require_session-unauthorized now exempt db (d, e) = elim (Option-cases (lookup id db.sessions)) [
    | inl o ↦ ground (arith, o)
    | inr (s, o) ↦ let r : s.revoked ≡ true = rw o at e in ground (arith, o, r)
  ]

  store-changed :
      (keep : String) (u : User) (o : Option String) (db : Db)
      → (store_password keep u o db).0 ≡ changed
      → (store_password keep u o db).1.sessions ≡ revoke_other_sessions keep db.sessions
  store-changed keep u none db e = absurd (ground (arith, e))
  store-changed keep u (some x) db e = refl

  renew-changed :
      (passwords : Passwords) (keep old new : String) (o : Option User) (db : Db)
      → (renew passwords keep old new o db).0 ≡ changed
      → (renew passwords keep old new o db).1.sessions ≡ revoke_other_sessions keep db.sessions
  renew-changed passwords keep old new none db e = absurd (ground (arith, e))
  renew-changed passwords keep old new (some u) db e =
      elim (Bool-cases (passwords.verify old u.password_hash)) [
        | inl y ↦ rw y (store-changed keep u (passwords.hash new) db (rw y at e))
        | inr y ↦ absurd (ground (arith, e, y))
      ]

  change_password-changed :
      (passwords : Passwords) (keep old new : String) (db : Db)
      → (change_password passwords keep old new db).0 ≡ changed
      → (change_password passwords keep old new db).1.sessions
        ≡ revoke_other_sessions keep db.sessions
  unfolding change_password
  change_password-changed passwords keep old new db e = elim (Bool-cases (new == "")) [
    | inl y ↦ absurd (ground (arith, e, y))
    | inr y ↦ elim (Bool-cases (passwords.is_short new)) [
      | inl z ↦ absurd (ground (arith, e, y, z))
      | inr z ↦ rw (y, z) (renew-changed passwords keep old new db.user db (rw (y, z) at e))
    ]
  ]

  revoke_other_sessions-IsShut :
      (keep : String) (rows : Sessions)
      → IsKeyed rows
      → (id == keep) ≡ false
      → IsShut (revoke_other_sessions keep rows)
  unfolding revoke_other_sessions
  revoke_other_sessions-IsShut keep rows d y = (
    update-IsKeyed _ revoked_of rows d,
    elim (Option-cases (lookup id rows)) [
      | inl o ↦
          ground
            (arith, o, lookup-update (λ k s. not s.revoked && not (k == keep)) revoked_of id rows)
      | inr (s, o) ↦
          ground (
            arith,
            o,
            y,
            lookup-update (λ k s. not s.revoked && not (k == keep)) revoked_of id rows,
          )
    ],
  )

-- In a table of sessions whose ids stand once: when a change of the password from the session
-- `keep` has succeeded, any other session is refused as unauthorized, after any further
-- requests, logins, changes, logouts, revocations and prunings, unless a login is given its very
-- id again.
pub require_session-run :
    (passwords : Passwords) (id keep old new : String) (now : ℕ) (exempt : Bool) (cs : List Call)
    (db : Db)
    → IsKeyed db.sessions
    → (id == keep) ≡ false
    → (change_password passwords keep old new db).0 ≡ changed
    → All (Spares id) cs
    → (require_session now id exempt (run cs (change_password passwords keep old new db).1)).0
      ≡ unauthorized
require_session-run passwords id keep old new now exempt cs db d y e s =
    let kept = change_password-changed id passwords keep old new db e in
    require_session-unauthorized id now exempt _
      (run-IsShut id cs _ s (rw kept (revoke_other_sessions-IsShut id keep db.sessions d y)))
