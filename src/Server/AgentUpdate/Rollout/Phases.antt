-- ===== src/Server/AgentUpdate/Rollout/Phases.antt =====
-- Where a roll-out stands (internal/server/agentupdate/agentupdate.go,
-- internal/agent/selfupdate.go), and what the probe does by itself.
use fobe.Prelude.{
  ℕ, ◌+◌, ◌<◌, String, List, Bool, false, none, some, ◌≡◌, ap, arith, ◌==◌, String-HasEq,
}
use fobe.Store.Nodes.{Rows}
use fobe.Agent.SelfUpdate as Probe
use fobe.Agent.SelfUpdate.{Report, Updater, Host, consider}
use fobe.Agent.SelfUpdate.Budget.{terminal_failures, IsDone, IsGood, consider-Keeps}
use fobe.Agent.SelfUpdate.Breaker.{IsNew, step-Keeps}
use fobe.Agent.SelfUpdate.Placed.{
  IsOwn, consider-IsDone, step-IsDone, withdrawn-IsDone, step-IsNew, own-IsPlanned,
}
use fobe.Server.AgentUpdate.{Texts, Offer, stagger_offset}
use fobe.Server.AgentUpdate.NodeRow.{Holds}
use fobe.Server.AgentUpdate.Plan.{IsAnchored}
use fobe.Server.AgentUpdate.Rollout.{System, works, deliver, hand_over, step}
use fobe.Server.AgentUpdate.Rollout.Runs.{Runs, deliver-Runs, deliver-IsAnchored, either}

-- Where a roll-out stands, after `n` failures for good.
module _ (texts : Texts) (o : Offer) (id : String) where
  abbrev pub slot : ℕ → ℕ
  slot anchor = anchor + stagger_offset texts o id o.server_version

  pub data Phase (n : ℕ) (s : System) : Type 0 where
    unheard :
        IsNew o.server_version s.probe
        → (s.probe.installed == o.server_version) ≡ false
        → Holds id (λ m. (m.agent_version == o.server_version) ≡ false) s.panel.nodes
        → n ≡ 0
        → Phase n s
    planned :
        (anchor : ℕ)
        → 0 < anchor
        → IsAnchored id o.server_version anchor s.panel.nodes
        → IsGood o.server_version (slot anchor) n s.probe
        → Phase n s
    placed :
        (after : ℕ)
        → 0 < after
        → Holds id (Runs texts o id) s.panel.nodes
        → IsDone o.server_version after n s.probe
        → Phase n s

  -- What a step makes of it.
  abbrev pub Goes : ℕ → System × List Report → Type 0
  Goes n r = Phase (n + terminal_failures r.1) r.0

  pub offered-planned :
      (host : Host) (now n anchor : ℕ) (rows : Rows) (s : System)
      → 0 < anchor
      → IsAnchored id o.server_version anchor rows
      → IsGood o.server_version (slot anchor) n s.probe
      → Goes n (hand_over texts id host now (some (o.server_version, slot anchor)) rows s)
  offered-planned host now n anchor rows s pos a g =
      let kept = consider-Keeps o.server_version (slot anchor) host now n s.probe (omega arith) g in
      planned anchor pos
        (deliver-IsAnchored texts o id now anchor
          (consider host now o.server_version (slot anchor) s.probe).1
          (record s.panel { nodes = rows }) kept.about a)
        kept.good

  pub offered-placed :
      (host : Host) (now n anchor : ℕ) (rows : Rows) (s : System)
      → 0 < anchor
      → Holds id (Runs texts o id) rows
      → IsDone o.server_version (slot anchor) n s.probe
      → Goes n (hand_over texts id host now (some (o.server_version, slot anchor)) rows s)
  offered-placed host now n anchor rows s pos a v =
      placed (slot anchor) (omega arith)
        (deliver-Runs texts o id now (consider host now o.server_version (slot anchor) s.probe).1
          (record s.panel { nodes = rows }) a)
        (consider-IsDone o.server_version (slot anchor) host now n s.probe (omega arith) v)

  pub withdrawn-placed :
      (host : Host) (now n after : ℕ) (rows : Rows) (s : System)
      → (o.server_version == "") ≡ false
      → 0 < after
      → Holds id (Runs texts o id) rows
      → IsDone o.server_version after n s.probe
      → Goes n (hand_over texts id host now none rows s)
  withdrawn-placed host now n after rows s full pos a v =
      let (done, silent) = withdrawn-IsDone o.server_version after host now n s.probe full v in
      let none_more : n ≡ n + terminal_failures (consider host now "" 0 s.probe).1 =
        omega (arith, ap terminal_failures silent) in
      placed after pos
        (deliver-Runs texts o id now (consider host now "" 0 s.probe).1
          (record s.panel { nodes = rows }) a)
        (rw (← none_more) done)

  -- What a probe does by itself, with or without a connection for its reports.
  pub works-Phase :
      (now n : ℕ) (online : Bool) (e : Probe.Event) (s : System)
      → IsOwn e
      → Phase n s
      → Goes n (step texts o id (works now online e) s)
  unfolding step deliver
  works-Phase now n online e s own (unheard v w row z) =
      let (kept, silent) = step-IsNew o.server_version e s.probe own v w in
      let said : deliver texts id now (Probe.step e s.probe).1 s.panel ≡ s.panel =
        ap (λ out. deliver texts id now out s.panel) silent in
      unheard kept.0 kept.1
        (either (Holds id (λ m. (m.agent_version == o.server_version) ≡ false)) online
          (deliver texts id now (Probe.step e s.probe).1 s.panel) s.panel (rw said row) row)
        (omega (arith, z, ap terminal_failures silent))
  works-Phase now n online e s own (planned anchor pos a g) =
      let kept =
        step-Keeps o.server_version (slot anchor) n e s.probe (omega arith)
          (own-IsPlanned o.server_version (slot anchor) e own) g in
      planned anchor pos
        (either (IsAnchored id o.server_version anchor) online
          (deliver texts id now (Probe.step e s.probe).1 s.panel) s.panel
          (deliver-IsAnchored texts o id now anchor (Probe.step e s.probe).1 s.panel kept.about a)
          a)
        kept.good
  works-Phase now n online e s own (placed after pos a v) =
      placed after pos
        (either (Holds id (Runs texts o id)) online
          (deliver texts id now (Probe.step e s.probe).1 s.panel) s.panel
          (deliver-Runs texts o id now (Probe.step e s.probe).1 s.panel a) a)
        (step-IsDone o.server_version after n e s.probe pos
          (own-IsPlanned o.server_version after e own) v)
