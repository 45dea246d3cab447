-- ===== src/Store/Access.antt =====
-- Who may use the panel (internal/server/store/auth.go): the user, the sessions and the failed
-- logins by address. A row of `sessions` is keyed by its id, one of `ip_blacklist` by its address.
use fobe.Prelude.{
  ℕ, suc, ◌+◌, String, List, [], Bool, true, false, not, ◌&&◌, Option, none, some, ltb, leb,
  nat_beq, if◌then◌else◌, ◌==◌, String-HasEq,
}
use fobe.Prelude.Table.{lookup, update, delete, upsert, put}

pub record User : Type 0 where
  pub password_hash : String
  pub must_change : Bool

pub record Session : Type 0 where
  pub created_at : ℕ
  pub last_seen : ℕ
  pub ua : String
  pub ip : String
  pub revoked : Bool

-- An `expires_at` of 0 is no block.
pub record Entry : Type 0 where
  pub reason : String
  pub fail_count : ℕ
  pub created_at : ℕ
  pub expires_at : ℕ

abbrev pub Sessions : Type 0
Sessions = List (String × Session)

abbrev pub Blacklist : Type 0
Blacklist = List (String × Entry)

pub record Db : Type 0 where
  pub user : Option User
  pub sessions : Sessions
  pub blacklist : Blacklist

abbrev pub new_session : String → String → ℕ → Session
new_session ua ip created_at = record {
  created_at = created_at;
  last_seen = created_at;
  ua = ua;
  ip = ip;
  revoked = false;
}

-- An id that is there already is an error.
unfoldable pub create_session : String → String → String → ℕ → Sessions → Option Sessions
create_session id ua ip created_at rows = elim (lookup id rows) [
  | some s ↦ none
  | none ↦ some (put id (new_session ua ip created_at) rows)
]

abbrev pub seen : ℕ → Session → Session
seen at s = record s { last_seen = at }

abbrev pub revoked_of : Session → Session
revoked_of s = record s { revoked = true }

unfoldable pub touch_session : String → ℕ → Sessions → Sessions
touch_session id at = update (λ k _. k == id) (seen at)

unfoldable pub revoke_session : String → Sessions → Sessions
revoke_session id = update (λ k _. k == id) revoked_of

unfoldable pub revoke_other_sessions : String → Sessions → Sessions
revoke_other_sessions keep = update (λ k s. not s.revoked && not (k == keep)) revoked_of

unfoldable pub revoke_all_sessions : Sessions → Sessions
revoke_all_sessions = update (λ _ s. not s.revoked) revoked_of

-- `created_at < cutoff`
unfoldable pub prune_expired_sessions : ℕ → Sessions → Sessions
prune_expired_sessions cutoff = delete (λ _ s. ltb s.created_at cutoff)

abbrev still_blocked : ℕ → Entry → Option Entry
still_blocked now e = if ltb now e.expires_at then some e else none

unfoldable pub is_blacklisted : ℕ → String → Blacklist → Option Entry
is_blacklisted now ip rows = elim (lookup ip rows) [ none ↦ none | some e ↦ still_blocked now e ]

-- The failures of the running streak: a block that has served its time ends it.
abbrev pub streak : ℕ → Option Entry → ℕ
streak now none = 1
streak now (some e) =
    if not (nat_beq e.expires_at 0) && leb e.expires_at now then 1 else suc e.fail_count

abbrev pub first_fail : ℕ → String → Entry
first_fail now reason = record { reason = reason; fail_count = 1; created_at = now; expires_at = 0 }

abbrev pub bumped : ℕ → String → ℕ → Entry → Entry
bumped now reason count e = record e {
  fail_count = count;
  reason = reason;
  expires_at = if leb e.expires_at now then 0 else e.expires_at;
}

abbrev pub blocked : ℕ → Entry → Entry
blocked until e = record e { expires_at = until }

-- The count after the failure, and the table. The code has three statements without a transaction,
-- taken as one step: that is what it does while the failures of an address do not overlap.
unfoldable pub record_login_fail : ℕ → String → String → ℕ → ℕ → Blacklist → ℕ × Blacklist
record_login_fail now ip reason max_fails block_seconds rows =
    let count = streak now (lookup ip rows) in
    let counted = upsert ip (first_fail now reason) (bumped now reason count) rows in
    (
      count,
      if leb max_fails count && ltb 0 block_seconds
          then update (λ k _. k == ip) (blocked (now + block_seconds)) counted
          else counted,
    )

unfoldable pub clear_login_fails : String → Blacklist → Blacklist
clear_login_fails ip = delete (λ k _. k == ip)

unfoldable pub unblock_ip : String → Blacklist → Blacklist
unblock_ip ip rows = if ip == "all" then [] else delete (λ k _. k == ip) rows
