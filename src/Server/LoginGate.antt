-- ===== src/Server/LoginGate.antt =====
-- The gate before password verification (internal/server/httpapi/loginlimit.go): a token bucket and
-- a bound on the verifications that run at once. Times are in nanoseconds and tokens in their
-- 10⁸th parts, of which the bucket gains one each nanosecond: the source's float64 arithmetic
-- without its rounding. The clock does not run back, as time.Now's monotonic one.
pub mod Bounds
mod Tests
use fobe.Prelude.{
  ℕ, suc, ◌+◌, ◌-◌, ◌*◌, List, [], ◌∷◌, Bool, true, false, ◌||◌, Option, none, some, ltb, leb,
  if◌then◌else◌,
}
use Prim.Native.Nat.{min}

-- 10⁸ nanoseconds, and one token: the rate is 10 per second.
abbrev pub token : ℕ
token = 100000000

abbrev pub burst : ℕ
burst = 30 * token

abbrev pub max_inflight : ℕ
max_inflight = 4

pub record Gate : Type 0 where
  pub tokens : ℕ
  pub last : Option ℕ
  pub inflight : ℕ

abbrev pub new_gate : Gate
new_gate = record { tokens = 0; last = none; inflight = 0 }

unfoldable pub refill : ℕ → Gate → ℕ
refill now g = elim g.last [
  | none ↦ burst
  | some last ↦ if ltb last now then min burst (g.tokens + (now - last)) else g.tokens
]

-- Whether a slot is taken.
unfoldable pub try_acquire : ℕ → Gate → Bool × Gate
unfolding refill
try_acquire now g =
    let tokens = refill now g in
    if leb max_inflight g.inflight || ltb tokens token
    then (false, record { tokens = tokens; last = some now; inflight = g.inflight })
    else (true, record { tokens = tokens - token; last = some now; inflight = suc g.inflight })

unfoldable pub release : Gate → Gate
release g = record g { inflight = if ltb 0 g.inflight then g.inflight - 1 else g.inflight }

pub data Event : Type 0 where
  arrives : ℕ → Event
  leaves : Event

-- The slots granted over a history, and the gate after it.
unfoldable pub run : List Event → Gate → ℕ × Gate
run [] g = (0, g)
run (arrives now ∷ es) g =
    let (granted, g') = try_acquire now g in
    let (n, last) = run es g' in ((if granted then suc n else n), last)
run (leaves ∷ es) g = run es (release g)
