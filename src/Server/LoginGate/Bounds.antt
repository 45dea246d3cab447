-- ===== src/Server/LoginGate/Bounds.antt =====
-- What the gate bounds (internal/server/httpapi/loginlimit.go).
use fobe.Prelude.{ℕ, ◌+◌, ◌-◌, ◌*◌, ◌≤◌, List, [], ◌∷◌, some, if◌then◌else◌, ◌≡◌, arith}
use fobe.Server.LoginGate.{
  Gate, Event, arrives, leaves, token, burst, max_inflight, new_gate, refill, try_acquire, release,
  run,
}

-- The times of arrival, from `t` on, do not fall.
abbrev pub IsOrdered : ℕ → List Event → Type 0
IsOrdered t [] = Unit
IsOrdered t (arrives now ∷ es) = (t ≤ now) × IsOrdered now es
IsOrdered t (leaves ∷ es) = IsOrdered t es

-- The last time of arrival.
abbrev pub ending : ℕ → List Event → ℕ
ending t [] = t
ending t (arrives now ∷ es) = ending now es
ending t (leaves ∷ es) = ending t es

try_acquire-inflight :
    (now : ℕ) (g : Gate) → g.inflight ≤ max_inflight → (try_acquire now g).1.inflight ≤ max_inflight
unfolding try_acquire
try_acquire-inflight now g h = ground arith

release-inflight : (g : Gate) → g.inflight ≤ max_inflight → (release g).inflight ≤ max_inflight
unfolding release
release-inflight g h = ground arith

inflight-run_from :
    (es : List Event) (g : Gate) → g.inflight ≤ max_inflight → (run es g).1.inflight ≤ max_inflight
unfolding run
inflight-run_from [] g h = h
inflight-run_from (arrives now ∷ es) g h =
    inflight-run_from es (try_acquire now g).1 (try_acquire-inflight now g h)
inflight-run_from (leaves ∷ es) g h = inflight-run_from es (release g) (release-inflight g h)

-- What one arrival costs: a grant takes one token out of what the time has brought.
try_acquire-cost :
    (now t : ℕ) (g : Gate)
    → g.last ≡ some t
    → t ≤ now
    → (if (try_acquire now g).0 then token else 0) + (try_acquire now g).1.tokens
      ≤ g.tokens + (now - t)
unfolding try_acquire refill
try_acquire-cost now t g e h = ground arith

try_acquire-last : (now : ℕ) (g : Gate) → (try_acquire now g).1.last ≡ some now
unfolding try_acquire
try_acquire-last now g = ground arith

cost :
    (es : List Event) (t : ℕ) (g : Gate)
    → g.last ≡ some t
    → IsOrdered t es
    → (run es g).0 * token + (run es g).1.tokens + t ≤ g.tokens + ending t es
unfolding run release
cost [] t g e o = omega arith
cost (arrives now ∷ es) t g e o =
    let here = try_acquire-cost now t g e o.0 in
    let there = cost es now (try_acquire now g).1 (try_acquire-last now g) o.1 in
    let le : t ≤ now = o.0 in ground (arith, here, there)
cost (leaves ∷ es) t g e o = cost es t (release g) e o

-- The bucket never holds more than a burst.
try_acquire-tokens :
    (now : ℕ) (g : Gate)
    → g.tokens ≤ burst
    → (if (try_acquire now g).0 then token else 0) + (try_acquire now g).1.tokens ≤ burst
unfolding try_acquire refill
try_acquire-tokens now g h = ground arith

run-tokens : (es : List Event) (g : Gate) → g.tokens ≤ burst → (run es g).1.tokens ≤ burst
unfolding run release
run-tokens [] g h = h
run-tokens (arrives now ∷ es) g h =
    let here = try_acquire-tokens now g h in
    run-tokens es (try_acquire now g).1 (ground (arith, here))
run-tokens (leaves ∷ es) g h = run-tokens es (release g) h

-- After any history from a new gate, over any further arrivals from a time `t` on, in which time
-- does not run back, the slots granted are at most 30 and the ten that each second brings.
pub granted-run :
    (before : List Event) (t : ℕ) (es : List Event)
    → IsOrdered t es
    → (run (arrives t ∷ es) (run before new_gate).1).0 * token + t ≤ burst + ending t es
unfolding run
granted-run before t es o =
    let g = (run before new_gate).1 in
    let first = try_acquire-tokens t g (run-tokens before new_gate (omega arith)) in
    let rest = cost es t (try_acquire t g).1 (try_acquire-last t g) o in ground (arith, first, rest)

-- After any history from a new gate at most four verifications hold a slot, whatever the clock
-- and the releases do.
inflight-run : (es : List Event) → (run es new_gate).1.inflight ≤ max_inflight
inflight-run es = inflight-run_from es new_gate (omega arith)
