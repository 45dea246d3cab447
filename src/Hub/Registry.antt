-- ===== src/Hub/Registry.antt =====
-- The registry of live connections (`HandleAgentWS`, `writePump`, `sendEnvelope` and
-- `PushLatencyConfig` of internal/server/hub/hub.go). A connection is its node with a number; a
-- closed one has both its channels closed. Events interleave as the list says.
pub mod Open
mod Tests
use text.Mathlib.TextEquality.{eq_iff}
use fobe.Prelude.{
  ℕ, suc, ◌+◌, ◌≤◌, ◌<◌, String, List, [], ◌∷◌, Bool, true, false, not, ◌&&◌, ◌||◌, Option, none,
  some, ltb, contains, All, if◌then◌else◌, ◌==◌, ℕ-HasEq, String-HasEq, pair-HasEq, ◌≡◌, refl,
  arith, Option-cases, Bool-cases, inl, inr, ◌⊎◌,
}
use fobe.Prelude.Table.{
  lookup, upsert, put, delete, IsKeyed, lookup-upsert, lookup-delete, upsert-IsKeyed,
  delete-IsKeyed,
}

pub record Hub : Type 0 where
  pub conns : List (String × ℕ)
  pub closed : List (String × ℕ)
  pub next : ℕ

abbrev pub new_hub : Hub
new_hub = record { conns = []; closed = []; next = 0 }

abbrev pub is_closed : String → ℕ → Hub → Bool
is_closed node id h = contains (node, id) h.closed

-- A new connection takes its node's place and closes the one that stood there.
unfoldable pub register : String → Hub → Hub
register node h = record {
  conns = put node h.next h.conns;
  closed = elim (lookup node h.conns) [ none ↦ h.closed | some old ↦ (node, old) ∷ h.closed ];
  next = suc h.next;
}

abbrev pub holds : ℕ → Option ℕ → Bool
holds id none = false
holds id (some i) = i == id

-- The deferred end of a handler: it frees the node's place only if that is still its own. The
-- deletion, under the lock, and the close right after it are one step.
unfoldable pub teardown : String → ℕ → Hub → Hub
teardown node id h = record {
  conns = if holds id (lookup node h.conns) then delete (λ k _. k == node) h.conns else h.conns;
  closed = (node, id) ∷ h.closed;
  next = h.next;
}

-- The writer closes its connection on a failed write, and leaves it in the registry.
unfoldable pub write_failed : String → ℕ → Hub → Hub
write_failed node id h = record h { closed = (node, id) ∷ h.closed }

pub data Event : Type 0 where
  connects : String → Event
  ends : String → ℕ → Event
  fails : String → ℕ → Event

unfoldable pub step : Event → Hub → Hub
step (connects node) h = register node h
step (ends node id) h = teardown node id h
step (fails node id) h = write_failed node id h

unfoldable pub run : List Event → Hub → Hub
run [] h = h
run (e ∷ es) h = run es (step e h)

pub data Outcome : Type 0 where
  queued refused dropped panicked : Outcome

-- What the `select` of `sendEnvelope` may do on a connection with `n` frames in its queue of 64.
-- On closed channels both the receive from `done` and the send are ready, and that send panics.
pub data Sends (n : ℕ) (closed : Bool) : Outcome → Type 0 where
  queues : closed ≡ false → n < 64 → Sends n closed queued
  drops : closed ≡ false → 64 ≤ n → Sends n closed dropped
  refuses : closed ≡ true → Sends n closed refused
  panics : closed ≡ true → Sends n closed panicked
