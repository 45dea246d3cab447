-- ===== src/Server/Login/Requests.antt =====
-- The requests between their halves, and the rows that a login leaves as they were
-- (internal/server/httpapi/auth_handlers.go and loginlimit.go).
use fobe.Prelude.{
  ℕ, zero, suc, ◌+◌, ◌≤◌, ◌<◌, String, List, [], ◌∷◌, true, false, ◌||◌, none, some, ◌≡◌, ◌⊎◌, refl,
  ap, arith, ltb, leb, if◌then◌else◌, ◌==◌, String-HasEq, length, Bool-cases, Option-cases, inl,
  inr,
}
use fobe.Prelude.Table.{
  lookup, IsKeyed, upsert, lookup-delete, delete-IsKeyed, upsert-IsKeyed, update-IsKeyed,
}
use text.Mathlib.TextEquality.{eq_iff}
use fobe.Store.Access.{
  Blacklist, is_blacklisted, streak, first_fail, bumped, blocked, record_login_fail,
  clear_login_fails,
}
use fobe.Server.LoginGate.{Gate, max_inflight, token, refill, try_acquire, release}
use fobe.Server.Login.{
  Guard, Panel, Answer, ip_blacklisted, too_many_requests, max_login_fails, block_seconds,
  is_blocked, enter, take_out,
}
use fobe.Server.Login.Budget.{holds, lookup-record_login_fail}
use fobe.Server.Login.Outcome.{tally, Fate, unread, right, wrong, shielded}

-- The requests of an address among those under way.
abbrev pub count_of : String → List String → ℕ
count_of ip [] = 0
count_of ip (j ∷ js) = let rest = count_of ip js in if j == ip then suc rest else rest

pub count_of-length : (ip : String) (js : List String) → count_of ip js ≤ length js
count_of-length ip [] = omega arith
count_of-length ip (j ∷ js) = ground (arith, count_of-length ip js)

pub take_out-count :
    (ip : String) (n : ℕ) (js rest : List String) (j : String)
    → take_out n js ≡ some (j, rest)
    → (length js ≡ suc (length rest))
      × (count_of ip js ≡ (if j == ip then suc (count_of ip rest) else count_of ip rest))
take_out-count ip n [] rest j h = ground arith
take_out-count ip zero (x ∷ xs) rest j h = ground arith
take_out-count ip (suc n) (x ∷ xs) rest j h = elim (Option-cases (take_out n xs)) [
  | inl e ↦ ground arith
  | inr ((y, ys), e) ↦ ground (arith, take_out-count ip n xs ys y e)
]

pub record_login_fail-IsKeyed :
    (now : ℕ) (ip reason : String) (rows : Blacklist)
    → IsKeyed rows
    → IsKeyed (record_login_fail now ip reason max_login_fails block_seconds rows).1
unfolding record_login_fail
record_login_fail-IsKeyed now ip reason rows d =
    let count = streak now (lookup ip rows) in
    let counted = upsert ip (first_fail now reason) (bumped now reason count) rows in
    let kept = upsert-IsKeyed ip (first_fail now reason) (bumped now reason count) rows d in
    elim (Bool-cases (leb max_login_fails count)) [
      | inl y ↦ rw y (update-IsKeyed (λ k _. k == ip) (blocked (now + block_seconds)) counted kept)
      | inr y ↦ rw y kept
    ]

try_acquire-inflight :
    (tick : ℕ) (g : Gate)
    → (((try_acquire tick g).0 ≡ false) × ((try_acquire tick g).1.inflight ≡ g.inflight))
      ⊎ (((try_acquire tick g).0 ≡ true)
          × (g.inflight < 4)
          × ((try_acquire tick g).1.inflight ≡ suc g.inflight))
unfolding try_acquire
try_acquire-inflight tick g =
    elim (Bool-cases (leb max_inflight g.inflight || ltb (refill tick g) token)) [
      | inl y ↦ inl (ground (arith, y))
      | inr y ↦ inr (ground (arith, y))
    ]

-- The way in.
pub enter-lem :
    (guard : Guard) (tick now : ℕ) (ip : String) (p : Panel)
    → ((a : Answer) × ((enter guard tick now ip p).0 ≡ some a)
        × ((n : ℕ) → tally a n ≡ n)
        × ((enter guard tick now ip p).1.gate.inflight ≡ p.gate.inflight)
        × ((enter guard tick now ip p).1.db.blacklist ≡ p.db.blacklist))
      ⊎ (((enter guard tick now ip p).0 ≡ none)
          × (is_blocked guard now ip p ≡ false)
          × (p.gate.inflight < 4)
          × ((enter guard tick now ip p).1.gate.inflight ≡ suc p.gate.inflight)
          × ((enter guard tick now ip p).1.db.blacklist ≡ p.db.blacklist))
unfolding enter
enter-lem guard tick now ip p = elim (Bool-cases (is_blocked guard now ip p)) [
  | inl y ↦
      inl (ip_blacklisted, ground (arith, y), (λ n. refl), ground (arith, y), ground (arith, y))
  | inr y ↦ elim (try_acquire-inflight tick p.gate) [
    | inl (e, f) ↦ inl (
      too_many_requests,
      ground (arith, y, e, f),
      (λ n. refl),
      ground (arith, y, e, f),
      ground (arith, y, e, f),
    )
    | inr (e, f, g) ↦
        inr (ground (arith, y, e, g), y, f, ground (arith, y, e, g), ground (arith, y, e, g))
  ]
]

pub free-holds :
    (guard : Guard) (now : ℕ) (ip : String) (p : Panel)
    → guard.never_blacklist ip ≡ false
    → is_blocked guard now ip p ≡ false
    → holds now (lookup ip p.db.blacklist) ≡ false
unfolding is_blacklisted
free-holds guard now ip p open' h = elim (Option-cases (lookup ip p.db.blacklist)) [
  | inl e ↦ ground (arith, e)
  | inr (x, e) ↦ ground (arith, e)
]

pub release-inflight : (g : Gate) (n : ℕ) → g.inflight ≡ suc n → (release g).inflight ≡ n
unfolding release
release-inflight g n h = ground arith

-- What a login does to the row of another address, and to the keys.
pub Fate-other :
    (guard : Guard) (now : ℕ) (j ip : String) (before after : Blacklist) (a : Answer)
    → (j == ip) ≡ false
    → IsKeyed before
    → Fate guard now j before a after
    → lookup ip after ≡ lookup ip before
unfolding clear_login_fails
Fate-other guard now j ip before after a y d (unread z e) = ap (lookup ip) e
Fate-other guard now j ip before after a y d (shielded z e) = ap (lookup ip) e
Fate-other guard now j ip before after a y d (right z e) =
    rw e (ground (arith, y, eq_iff ip j, eq_iff j ip, lookup-delete (λ k _. k == j) ip before d))
Fate-other guard now j ip before after a y d (wrong z e) =
    rw e (ground (arith, y, lookup-record_login_fail now j ip "login_failed" before))

pub Fate-IsKeyed :
    (guard : Guard) (now : ℕ) (j : String) (before after : Blacklist) (a : Answer)
    → IsKeyed before
    → Fate guard now j before a after
    → IsKeyed after
unfolding clear_login_fails
Fate-IsKeyed guard now j before after a d (unread z e) = rw e d
Fate-IsKeyed guard now j before after a d (shielded z e) = rw e d
Fate-IsKeyed guard now j before after a d (right z e) =
    rw e (delete-IsKeyed (λ k _. k == j) before d)
Fate-IsKeyed guard now j before after a d (wrong z e) =
    rw e (record_login_fail-IsKeyed now j "login_failed" before d)
