-- ===== src/Server/AgentUpdate/Rollout/Breaker.antt =====
-- The failures of a whole roll-out (internal/server/agentupdate/agentupdate.go,
-- internal/agent/selfupdate.go).
use fobe.Prelude.{
  ℕ, ◌+◌, ◌≤◌, ◌<◌, String, List, [], ◌∷◌, true, false, some, All, ◌≡◌, refl, arith, ◌==◌,
  String-HasEq, inl, inr,
}
use fobe.Prelude.Table.{lookup}
use fobe.Store.Nodes.{Node}
use fobe.Agent.SelfUpdate.{Host}
use fobe.Agent.SelfUpdate.Budget.{terminal_failures, terminal_failures-append}
use fobe.Agent.SelfUpdate.Breaker.{IsNew}
use fobe.Agent.SelfUpdate.Placed.{new-IsActive}
use fobe.Server.AgentUpdate.{Texts, Offer, is_on, status, anchor_of, target_of, hello}
use fobe.Server.AgentUpdate.Plan.{
  target_of-IsAnchored, target_of-anchored, first-pos, first-IsAnchored,
}
use fobe.Server.AgentUpdate.Rollout.{System, Event, connects, pushes, works, step, run, IsReal}
use fobe.Server.AgentUpdate.Rollout.Runs.{target_of-Runs, hello-Runs, hello-IsAnchored}
use fobe.Server.AgentUpdate.Rollout.Phases.{
  slot, Phase, unheard, planned, placed, Goes, offered-planned, offered-placed, withdrawn-placed,
  works-Phase,
}

module _ (texts : Texts) (o : Offer) (id : String) (on' : is_on (status texts o) ≡ true)
    (full : (o.server_version == "") ≡ false) where
  connects-Phase :
      (host : Host) (now n : ℕ) (s : System)
      → 0 < now
      → Phase texts o id n s
      → Goes texts o id n (step texts o id (connects host now) s)
  unfolding step
  connects-Phase host now n s pos (unheard v w (m, e, other) z) =
      let anchor = anchor_of now o.server_version m in
      let later : 0 < anchor = first-pos texts o now id m pos in
      let (first, a) = first-IsAnchored texts o now id m s.panel.nodes on' e other in
      let rows = (target_of texts o now id s.panel.nodes).1 in
      rw first (
        offered-planned texts o id host now n anchor (hello texts o now id s.probe.version rows) s
          later (hello-IsAnchored texts o id now anchor s.probe.version rows later v.other a)
          (inl (rw z (new-IsActive o.server_version (slot texts o id anchor) s.probe v))))
  connects-Phase host now n s pos (planned anchor later a g) =
      let told =
        target_of-anchored texts id o.server_version anchor o now s.panel.nodes later refl a in
      let rows = (target_of texts o now id s.panel.nodes).1 in
      let a₁ =
        target_of-IsAnchored texts id o.server_version anchor o now id s.panel.nodes later refl a in
      rw (told, on')
        (elim g [
          | inl v ↦
              offered-planned texts o id host now n anchor
                (hello texts o now id s.probe.version rows) s later
                (hello-IsAnchored texts o id now anchor s.probe.version rows later v.other a₁)
                (inl v)
          | inr v ↦
              offered-placed texts o id host now n anchor
                (hello texts o now id s.probe.version rows) s later
                (hello-Runs texts o id now s.probe.version rows on' full v.same (a₁.0, a₁.1, tt)) v
        ])
  connects-Phase host now n s pos (placed after later a v) =
      let (nothing, a₁) = target_of-Runs texts o id now s.panel.nodes on' a in
      let rows = (target_of texts o now id s.panel.nodes).1 in
      rw nothing (
        withdrawn-placed texts o id host now n after (hello texts o now id s.probe.version rows) s
          full later
          (hello-Runs texts o id now s.probe.version rows on' full v.same (a₁.0, a₁.1, tt)) v)

  pushes-Phase :
      (host : Host) (now n : ℕ) (s : System)
      → 0 < now
      → Phase texts o id n s
      → Goes texts o id n (step texts o id (pushes host now) s)
  unfolding step
  pushes-Phase host now n s pos (unheard v w (m, e, other) z) =
      let anchor = anchor_of now o.server_version m in
      let later : 0 < anchor = first-pos texts o now id m pos in
      let (first, a) = first-IsAnchored texts o now id m s.panel.nodes on' e other in
      rw first (
        offered-planned texts o id host now n anchor (target_of texts o now id s.panel.nodes).1 s
          later a (inl (rw z (new-IsActive o.server_version (slot texts o id anchor) s.probe v))))
  pushes-Phase host now n s pos (planned anchor later a g) =
      let told =
        target_of-anchored texts id o.server_version anchor o now s.panel.nodes later refl a in
      rw (told, on')
        (offered-planned texts o id host now n anchor (target_of texts o now id s.panel.nodes).1 s
          later
          (target_of-IsAnchored texts id o.server_version anchor o now id s.panel.nodes later refl
            a)
          g)
  pushes-Phase host now n s pos (placed after later a v) =
      let (nothing, a₁) = target_of-Runs texts o id now s.panel.nodes on' a in
      rw nothing (
        withdrawn-placed texts o id host now n after (target_of texts o now id s.panel.nodes).1 s
          full later a₁ v)

  step-Phase :
      (n : ℕ) (e : Event) (s : System)
      → IsReal e
      → Phase texts o id n s
      → Goes texts o id n (step texts o id e s)
  step-Phase n (connects host now) s real ph = connects-Phase host now n s real ph
  step-Phase n (pushes host now) s real ph = pushes-Phase host now n s real ph
  step-Phase n (works now online e) s real ph = works-Phase texts o id now n online e s real ph

  Phase-limited : (n : ℕ) (s : System) → Phase texts o id n s → n ≤ 3
  Phase-limited n s (unheard v w row z) = omega (arith, z)
  Phase-limited n s (planned anchor pos a (inl v)) = v.limited
  Phase-limited n s (planned anchor pos a (inr v)) = v.limited
  Phase-limited n s (placed after pos a v) = v.limited

  run-Phase :
      (n : ℕ) (es : List Event) (s : System)
      → All IsReal es
      → Phase texts o id n s
      → n + terminal_failures (run texts o id es s).1 ≤ 3
  unfolding run
  run-Phase n [] s real ph = omega (arith, Phase-limited n s ph)
  run-Phase n (e ∷ es) s real ph =
      let (s₁, out) = step texts o id e s in
      let rest = run-Phase (n + terminal_failures out) es s₁ real.1 (step-Phase n e s real.0 ph) in
      omega (arith, rest, terminal_failures-append out (run texts o id es s₁).1)

-- If a build is offered whose name is not empty, the node is in the table with another build,
-- and its probe runs and has installed another one, has no budget for the offered one in its
-- memory or its file, no attempt under way and no timer: after any sequence of connects and
-- pushes, with a clock above zero, and of steps of the probe itself (timers, downloads, checks,
-- restarts), with its reports delivered or lost, the probe has reported at most three terminal
-- failures. No sequence holds a retry of the operator, and the switch, the artifact and the
-- version of the panel stay.
pub terminal_failures-rollout :
    (texts : Texts) (o : Offer) (id : String) (n : Node) (es : List Event) (s : System)
    → is_on (status texts o) ≡ true
    → (o.server_version == "") ≡ false
    → lookup id s.panel.nodes ≡ some n
    → (n.agent_version == o.server_version) ≡ false
    → IsNew o.server_version s.probe
    → (s.probe.installed == o.server_version) ≡ false
    → All IsReal es
    → terminal_failures (run texts o id es s).1 ≤ 3
terminal_failures-rollout texts o id n es s on' full e v new other real =
    omega (arith, run-Phase texts o id on' full 0 es s real (unheard new other (n, e, v) refl))
