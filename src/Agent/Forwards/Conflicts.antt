-- ===== src/Agent/Forwards/Conflicts.antt =====
-- Which packets two port forwards would both take (internal/agent/forwards.go).
use text.Mathlib.TextEquality.{eq_iff}
use fobe.Prelude.{
  String, List, [], ◌∷◌, Bool, true, false, not, ◌&&◌, ◌||◌, none, any_of, first_of?, ◌==◌,
  String-HasEq, ◌≡◌, refl, sym, ◌∙◌, arith, Bool-cases, Option-cases, inl, inr,
}
use fobe.Prelude.Int.{ℤ, pos, ℤ-HasEq, beq_ℤ_iff}
use fobe.Agent.Forwards.{
  ForwardRule, ForwardsRead, ForwardsPlan, done, Grammar, no_handle, takes_port, conflict_with,
  validate_forward,
}
use fobe.Agent.Forwards.Plan.{plan_add, plan_update}

pub record Packet : Type 0 where
  pub proto : String
  pub port : ℤ
  pub iface : String

-- What a DNAT rule without extra matches (`ExtraMatch`) takes; no interface means every one.
unfoldable pub matches : ForwardRule → Packet → Bool
matches r p =
    (r.proto == p.proto) && ((r.src_port == p.port) && ((r.iface == "") || (r.iface == p.iface)))

takes_port-matches :
    (cand ex : ForwardRule) (self : ℤ) (p : Packet)
    → takes_port cand self ex ≡ false
    → matches cand p ≡ true
    → ((not (no_handle ex.handle) && (ex.handle == self)) || not (matches ex p)) ≡ true
unfolding takes_port matches
takes_port-matches cand ex self p h m = ground (
  arith,
  eq_iff ex.proto cand.proto,
  eq_iff cand.proto p.proto,
  eq_iff ex.proto p.proto,
  beq_ℤ_iff ex.src_port cand.src_port,
  beq_ℤ_iff cand.src_port p.port,
  beq_ℤ_iff ex.src_port p.port,
  eq_iff ex.iface cand.iface,
  eq_iff ex.iface p.iface,
  eq_iff cand.iface p.iface,
)

-- A rule with extra matches (a range or a set of ports, say) is not judged here: what it takes is
-- not in the fields that the conflict test reads.
abbrev pub plain_takes : Packet → ForwardRule → Bool
plain_takes p ex = not ex.extra_match && matches ex p

-- Whether a rule without extra matches, other than those of the handle, takes the packet.
abbrev pub other_takes : ℤ → Packet → ForwardRule → Bool
other_takes self p ex = not (not (no_handle ex.handle) && (ex.handle == self)) && plain_takes p ex

conflict_with-none :
    (rules : List ForwardRule) (cand : ForwardRule) (self : ℤ) (p : Packet)
    → conflict_with rules cand self ≡ none
    → matches cand p ≡ true
    → any_of (other_takes self p) rules ≡ false
unfolding conflict_with
conflict_with-none [] cand self p h m = refl
conflict_with-none (ex ∷ rules) cand self p h m = elim (Bool-cases (takes_port cand self ex)) [
  | inl y ↦ ground (arith, y)
  | inr y ↦
      let k : first_of? (takes_port cand self) rules ≡ none = rw y at h in
      ground
        (arith, takes_port-matches cand ex self p y m, conflict_with-none rules cand self p k m)
]

other_takes-zero :
    (p : Packet) (rules : List ForwardRule)
    → any_of (other_takes (pos 0) p) rules ≡ any_of (plain_takes p) rules
other_takes-zero p [] = refl
other_takes-zero p (ex ∷ rules) = ground (arith, other_takes-zero p rules)

-- If an added forward is planned, no packet that it takes is taken by a rule of the probe that
-- has no extra matches.
pub plan_add-done :
    (g : Grammar) (cur : ForwardsRead) (cand : ForwardRule) (plan : ForwardsPlan) (p : Packet)
    → plan_add g cur cand ≡ done plan
    → matches cand p ≡ true
    → any_of (plain_takes p) cur.rules ≡ false
unfolding plan_add
plan_add-done g cur cand plan p h m = elim (Option-cases (validate_forward g cand)) [
  | inr (code, e) ↦ ground arith
  | inl v ↦ elim (Option-cases (conflict_with cur.rules cand (pos 0))) [
    | inr (ex, e) ↦ ground arith
    | inl e ↦ sym (other_takes-zero p cur.rules) ∙ conflict_with-none cur.rules cand (pos 0) p e m
  ]
]

-- If an edit is planned, a packet that the new forward takes is taken by no rule of the probe
-- without extra matches but, at most, those with the handle that the edit names.
pub plan_update-done :
    (g : Grammar) (cur : ForwardsRead) (old cand : ForwardRule) (plan : ForwardsPlan) (p : Packet)
    → plan_update g cur old cand ≡ done plan
    → matches cand p ≡ true
    → any_of (other_takes old.handle p) cur.rules ≡ false
unfolding plan_update
plan_update-done g cur old cand plan p h m = elim (Option-cases (validate_forward g cand)) [
  | inr (code, e) ↦ ground arith
  | inl v ↦ elim (Option-cases (conflict_with cur.rules cand old.handle)) [
    | inr (ex, e) ↦ ground arith
    | inl e ↦ conflict_with-none cur.rules cand old.handle p e m
  ]
]
