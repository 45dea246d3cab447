-- ===== src/Hub/Registry/Open.antt =====
-- Which connections are registered, and which of those are open (internal/server/hub/hub.go).
use text.Mathlib.TextEquality.{eq_iff}
use fobe.Prelude.{
  ℕ, suc, ◌<◌, String, List, [], ◌∷◌, Bool, true, false, not, ◌&&◌, ◌||◌, none, some, ltb, All,
  ltb→lt, if◌then◌else◌, ◌==◌, ℕ-HasEq, String-HasEq, pair-HasEq, ◌≡◌, refl, arith, Bool-cases, inl,
  inr, ◌⊎◌,
}
use fobe.Prelude.Table.{
  lookup, IsKeyed, lookup-upsert, lookup-delete, upsert-IsKeyed, delete-IsKeyed,
}
use fobe.Hub.Registry.{
  Hub, new_hub, is_closed, register, holds, teardown, write_failed, Event, connects, ends, fails,
  step, run, Outcome, queued, dropped, Sends, queues, drops, refuses, panics,
}

-- Every connection has been numbered, and nothing but the newest of a node is registered.
pub record IsSound (h : Hub) : Type 0 where
  pub keyed : IsKeyed h.conns
  pub registered : (node : String) (id : ℕ) → lookup node h.conns ≡ some id → id < h.next
  pub known : (node : String) (id : ℕ) → is_closed node id h ≡ true → id < h.next
  pub alive : (node : String) (id : ℕ) → lookup node h.conns ≡ some id → is_closed node id h ≡ false

-- The handler of a numbered connection ends.
abbrev pub is_orderly : ℕ → Event → Bool
is_orderly next (connects node) = true
is_orderly next (ends node id) = ltb id next
is_orderly next (fails node id) = false

lookup-register :
    (node m : String) (h : Hub)
    → lookup m (register node h).conns ≡ (if node == m then some h.next else lookup m h.conns)
unfolding register
lookup-register node m h = ground (arith, lookup-upsert node m h.next (λ _. h.next) h.conns)

lookup-teardown :
    (node m : String) (id : ℕ) (h : Hub)
    → IsKeyed h.conns
    → lookup m (teardown node id h).conns
      ≡ (if (node == m) && holds id (lookup m h.conns) then none else lookup m h.conns)
unfolding teardown
lookup-teardown node m id h d =
    ground (arith, eq_iff node m, eq_iff m node, lookup-delete (λ k (_ : ℕ). k == node) m h.conns d)

register-next : (node : String) (h : Hub) → (register node h).next ≡ suc h.next
unfolding register
register-next node h = refl

register-IsKeyed : (node : String) (h : Hub) → IsKeyed h.conns → IsKeyed (register node h).conns
unfolding register
register-IsKeyed node h d = upsert-IsKeyed node h.next (λ _. h.next) h.conns d

is_closed-register :
    (node m : String) (id : ℕ) (h : Hub)
    → is_closed m id (register node h)
      ≡ (((node == m) && holds id (lookup node h.conns)) || is_closed m id h)
unfolding register
is_closed-register node m id h = ground arith

is_closed-teardown :
    (node m : String) (id i : ℕ) (h : Hub)
    → is_closed m i (teardown node id h) ≡ (((node == m) && (id == i)) || is_closed m i h)
unfolding teardown
is_closed-teardown node m id i h = refl

teardown-next : (node : String) (id : ℕ) (h : Hub) → (teardown node id h).next ≡ h.next
unfolding teardown
teardown-next node id h = refl

teardown-IsKeyed :
    (node : String) (id : ℕ) (h : Hub) → IsKeyed h.conns → IsKeyed (teardown node id h).conns
unfolding teardown
teardown-IsKeyed node id h d = elim (Bool-cases (holds id (lookup node h.conns))) [
  | inl y ↦ rw y (delete-IsKeyed _ h.conns d)
  | inr y ↦ rw y d
]

register-IsSound : (node : String) (h : Hub) → IsSound h → IsSound (register node h)
register-IsSound node h s = record {
  keyed = register-IsKeyed node h s.keyed;
  registered =
      λ m id e. ground (arith, s.registered m id, lookup-register node m h, register-next node h);
  known = λ m id e. ground (
    arith,
    eq_iff node m,
    s.known m id,
    s.registered m id,
    is_closed-register node m id h,
    register-next node h,
  );
  alive = λ m id e. ground (
    arith,
    eq_iff node m,
    s.alive m id,
    s.known m id,
    s.registered m id,
    lookup-register node m h,
    is_closed-register node m id h,
  );
}

teardown-IsSound :
    (node : String) (id : ℕ) (h : Hub) → id < h.next → IsSound h → IsSound (teardown node id h)
teardown-IsSound node id h n s = record {
  keyed = teardown-IsKeyed node id h s.keyed;
  registered = λ m i e.
      ground
        (arith, s.registered m i, lookup-teardown node m id h s.keyed, teardown-next node id h);
  known = λ m i e.
      ground (arith, s.known m i, is_closed-teardown node m id i h, teardown-next node id h);
  alive = λ m i e. ground (
    arith,
    eq_iff node m,
    s.alive m i,
    lookup-teardown node m id h s.keyed,
    is_closed-teardown node m id i h,
  );
}

step-IsSound : (e : Event) (h : Hub) → is_orderly h.next e ≡ true → IsSound h → IsSound (step e h)
unfolding step
step-IsSound (connects node) h o s = register-IsSound node h s
step-IsSound (ends node id) h o s = teardown-IsSound node id h (ltb→lt id h.next o) s
step-IsSound (fails node id) h o s = ground arith

-- No write fails, and only numbered connections end.
abbrev pub IsOrderly : List Event → Hub → Type 0
IsOrderly [] h = Unit
IsOrderly (e ∷ es) h = (is_orderly h.next e ≡ true) × IsOrderly es (step e h)

run-IsSound : (es : List Event) (h : Hub) → IsOrderly es h → IsSound h → IsSound (run es h)
unfolding run
run-IsSound [] h o s = s
run-IsSound (e ∷ es) h o s = run-IsSound es (step e h) o.1 (step-IsSound e h o.0 s)

new_hub-IsSound : IsSound new_hub
unfolding lookup
new_hub-IsSound = record {
  keyed = tt;
  registered = λ node id e. ground arith;
  known = λ node id e. ground arith;
  alive = λ node id e. ground arith;
}

-- After any events from the empty registry in which no write fails and only numbered connections
-- end, a frame for a registered connection is queued or dropped: the send never panics and is
-- never refused.
pub run_no_panic :
    (es : List Event) (node : String) (id n : ℕ) (o : Outcome)
    → IsOrderly es new_hub
    → lookup node (run es new_hub).conns ≡ some id
    → Sends n (is_closed node id (run es new_hub)) o
    → (o ≡ queued) ⊎ (o ≡ dropped)
run_no_panic es node id n o orderly e (queues c l) = inl refl
run_no_panic es node id n o orderly e (drops c l) = inr refl
run_no_panic es node id n o orderly e (refuses c) =
    let open_conn = (run-IsSound es new_hub orderly new_hub-IsSound).alive node id e in cc
run_no_panic es node id n o orderly e (panics c) =
    let open_conn = (run-IsSound es new_hub orderly new_hub-IsSound).alive node id e in cc

-- An event that neither replaces the connection nor ends it.
abbrev pub leaves : String → ℕ → Event → Bool
leaves node id (connects m) = not (m == node)
leaves node id (ends m i) = not ((m == node) && (i == id))
leaves node id (fails m i) = true

step-keeps :
    (e : Event) (node : String) (id : ℕ) (h : Hub)
    → IsKeyed h.conns
    → leaves node id e ≡ true
    → lookup node h.conns ≡ some id
    → IsKeyed (step e h).conns × (lookup node (step e h).conns ≡ some id)
unfolding step write_failed
step-keeps (connects m) node id h d l e =
    (register-IsKeyed m h d, ground (arith, lookup-register m node h))
step-keeps (ends m i) node id h d l e =
    (teardown-IsKeyed m i h d, ground (arith, lookup-teardown m node i h d))
step-keeps (fails m i) node id h d l e = (d, e)

run-keeps :
    (es : List Event) (node : String) (id : ℕ) (h : Hub)
    → IsKeyed h.conns
    → All (λ e. leaves node id e ≡ true) es
    → lookup node h.conns ≡ some id
    → lookup node (run es h).conns ≡ some id
unfolding run
run-keeps [] node id h d l e = e
run-keeps (ev ∷ es) node id h d l e =
    let (d', e') = step-keeps ev node id h d l.0 e in run-keeps es node id (step ev h) d' l.1 e'

-- In a registry whose keys stand once, a new connection of a node stays the registered one until
-- the node connects again or that very connection ends: the late teardown of the connections
-- that it replaced does not unregister it.
pub run-register :
    (es : List Event) (node : String) (h : Hub)
    → IsKeyed h.conns
    → All (λ e. leaves node h.next e ≡ true) es
    → lookup node (run es (register node h)).conns ≡ some h.next
run-register es node h d l =
    run-keeps es node h.next (register node h) (register-IsKeyed node h d) l
      (ground (arith, eq_iff node node, lookup-register node node h))
