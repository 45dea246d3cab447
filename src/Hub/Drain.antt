-- ===== src/Hub/Drain.antt =====
-- Delivering queued commands (`sendEnvelope` and `drainCommandQueue` of internal/server/hub/hub.go)
-- on a connection that is open and whose writer takes nothing out of the send queue meanwhile, as
-- in the drain that `HandleAgentWS` makes before it starts the writer. A drain shares one time.
pub mod Whole
mod Tests
use fobe.Prelude.{
  ℕ, zero, suc, ◌+◌, ◌-◌, ◌≤◌, String, List, [], ◌∷◌, ◌++◌, Bool, true, false, Option, none, some,
  ltb, length, if◌then◌else◌, ◌<◌, ◌==◌, String-HasEq, ◌≡◌, refl, arith, Option-cases, Bool-cases,
  inl, inr, length-append,
}
use Prim.Native.Nat.{min}
use fobe.Prelude.Table.{IsKeyed, update, update-IsKeyed}
use fobe.Store.Commands.{Command, Db, claim, oldest_pending, next_pending_command}
use fobe.Store.Commands.Lifecycle.{step-IsKeyed}
use fobe.Store.Commands.Claims.{count_waiting, count_waiting-claim, oldest_pending-none}

pub data Frame : Type 0 where
  hello_ack : Frame
  cmd : String × Command → Frame

-- The connection's send queue, a channel of 64 places.
abbrev pub Queue : Type 0
Queue = List Frame

abbrev pub capacity : ℕ
capacity = 64

-- Whether the frame was queued; a full queue drops it.
unfoldable pub send_envelope : Frame → Queue → Bool × Queue
send_envelope frame queue =
    if ltb (length queue) capacity then (true, queue ++ (frame ∷ [])) else (false, queue)

-- The loop, which ignores the answer of `send_envelope`; the fuel bounds its rounds.
unfoldable pub drain_rounds : ℕ → ℕ → String → Queue → Db → Option (Queue × Db)
drain_rounds zero now node queue db = none
drain_rounds (suc fuel) now node queue db = elim (next_pending_command now node db) [
  | none ↦ some (queue, db)
  | some (frame, db') ↦ drain_rounds fuel now node (send_envelope (cmd frame) queue).1 db'
]

-- One round for each command that waits, and the round that finds none.
unfoldable pub drain_command_queue : ℕ → String → Queue → Db → Option (Queue × Db)
drain_command_queue now node queue db = drain_rounds (suc (count_waiting node db)) now node queue db
