-- ===== src/Server/Login/Budget.antt =====
-- What one address may still get wrong (internal/server/store/auth.go and
-- internal/server/httpapi/auth_handlers.go), by its row and its requests under way.
use fobe.Prelude.{
  ℕ, suc, ◌+◌, ◌-◌, ◌*◌, ◌≤◌, ◌<◌, String, Bool, false, Option, none, some, ◌≡◌, arith, ltb, leb,
  nat_beq, if◌then◌else◌, ◌==◌, String-HasEq, Bool-cases, inl, inr,
}
use text.Mathlib.TextEquality.{eq_iff}
use fobe.Prelude.Table.{lookup, upsert, lookup-update, lookup-upsert, merge}
use fobe.Store.Access.{Entry, Blacklist, streak, first_fail, bumped, blocked, record_login_fail}
use fobe.Server.Login.{max_login_fails, block_seconds}

-- 600 seconds for each wrong password.
abbrev pub room : ℕ → Option Entry → ℕ
room t none = 1800
room t (some e) =
    if nat_beq e.expires_at 0
    then 600 * (3 - e.fail_count)
    else (if leb e.expires_at t then 1800 else t + 1800 - e.expires_at)

-- A row that the panel can have written, a counter below three or a block of half an hour at most,
-- with `k` requests of the address under way.
abbrev pub IsSound : ℕ → ℕ → Option Entry → Type 0
IsSound t k none = k ≤ 1
IsSound t k (some e) =
    (k ≤ 1)
    × (e.expires_at ≡ 0 → e.fail_count ≤ 2)
    × (0 < e.expires_at → 3 ≤ e.fail_count)
    × (e.expires_at ≤ t + 1800)
    × (t < e.expires_at → k ≡ 0)

-- Half an hour of time gives room again.
pub room-later :
    (t t' k : ℕ) (row : Option Entry)
    → t ≤ t'
    → IsSound t k row
    → IsSound t' k row × (room t' row ≤ room t row + (t' - t))
room-later t t' k none h s = (s, omega arith)
room-later t t' k (some e) h s = ground arith

-- The row after a failure.
abbrev pub failed : ℕ → String → Option Entry → Entry
failed now reason row =
    let count = streak now row in
    let counted = merge (first_fail now reason) (bumped now reason count) row in
    if leb max_login_fails count then blocked (now + block_seconds) counted else counted

-- A failure takes its 600 seconds.
pub room-failed :
    (now k : ℕ) (reason : String) (row : Option Entry)
    → IsSound now (suc k) row
    → IsSound now k (some (failed now reason row))
      × (600 + room now (some (failed now reason row)) ≤ room now row)
room-failed now k reason none s = ground arith
room-failed now k reason (some e) s = ground arith

abbrev pub holds : ℕ → Option Entry → Bool
holds now none = false
holds now (some e) = ltb now e.expires_at

-- A request of the address is taken up where none is under way.
pub room-entered :
    (now k : ℕ) (row : Option Entry)
    → IsSound now k row
    → k ≡ 0
    → holds now row ≡ false
    → IsSound now (suc k) row
room-entered now k none s h free = omega arith
room-entered now k (some e) s h free = ground arith

-- It ends without a check of its password.
pub room-left : (now k : ℕ) (row : Option Entry) → IsSound now (suc k) row → IsSound now k row
room-left now k none s = omega arith
room-left now k (some e) s = ground arith

pub lookup-record_login_fail :
    (now : ℕ) (ip j reason : String) (rows : Blacklist)
    → lookup j (record_login_fail now ip reason max_login_fails block_seconds rows).1
      ≡ (if ip == j then some (failed now reason (lookup ip rows)) else lookup j rows)
unfolding record_login_fail
lookup-record_login_fail now ip j reason rows =
    let counted =
      upsert ip (first_fail now reason) (bumped now reason (streak now (lookup ip rows))) rows in
    let one =
      lookup-upsert ip j (first_fail now reason) (bumped now reason (streak now (lookup ip rows)))
        rows in
    let two = lookup-update (λ k _. k == ip) (blocked (now + block_seconds)) j counted in
    elim (Bool-cases (leb max_login_fails (streak now (lookup ip rows)))) [
      | inl y ↦ ground (arith, one, two, eq_iff ip j, eq_iff j ip)
      | inr y ↦ ground (arith, one, eq_iff ip j)
    ]
