-- ===== src/Server/AgentUpdate/Tests.antt =====
-- Runs of the panel's side of the agent's update (internal/server/agentupdate/agentupdate.go), alone
-- and with the probe of the node.
use fobe.Prelude.{
  ℕ, String, List, [], ◌∷◌, ◌++◌, ◌+◌, true, false, none, some, ◌≡◌, ◌≤◌, refl, arith, ◌==◌,
  String-HasEq, if◌then◌else◌,
}
use fobe.Prelude.Table.{lookup, update}
use fobe.Store.Alerts as Alerts
use fobe.Store.Nodes.{
  Node, set_agent_update_planned, record_agent_update, set_agent_version, stale_agent_updates,
  clear_agent_update,
}
use fobe.Agent.SelfUpdate as Probe
use fobe.Agent.SelfUpdate.{
  Updater, Host, Report, fresh, report, downloads, verifies, refused, fires, restarts,
}
use fobe.Agent.SelfUpdate.Budget.{terminal_failures}
use fobe.Server.AgentUpdate.{
  Texts, Offer, Panel, target_of, status, on_report, hello, sweep, retry, is_release_version,
  stagger_offset, planned_start, fnv1a, alert_on,
}
use fobe.Server.AgentUpdate.Calls.{Call, asks, hellos, reports, sweeps, step, run}
use fobe.Server.AgentUpdate.Plan.{target_of-run}
use fobe.Server.AgentUpdate.Alarms.{rings, rings-on_report}
use fobe.Server.AgentUpdate.Rollout as Rollout
use fobe.Server.AgentUpdate.Rollout.{System, Event, connects, pushes, works, deliver}
use fobe.Server.AgentUpdate.Rollout.Breaker.{terminal_failures-rollout}

program : Unit {0}
unfolding lookup update set_agent_update_planned record_agent_update set_agent_version
    stale_agent_updates clear_agent_update target_of status on_report hello sweep retry
    is_release_version stagger_offset planned_start fnv1a alert_on step run Rollout.step Rollout.run
    deliver Alerts.create_alert Alerts.recover_alert Alerts.duplicate Alerts.insert
    Alerts.open_alert Probe.step Probe.run Probe.consider Probe.follow Probe.decide Probe.reanchor
    Probe.converge Probe.fire Probe.backoff Probe.record_terminal Probe.record_transient
    Probe.download_ends Probe.verify_ends Probe.restart
program = tt

abbrev bytes_of : String → List ℕ
bytes_of s = if s == "a" then 97 ∷ [] else (if s == "v2" then 118 ∷ 50 ∷ [] else [])

abbrev texts : Texts
texts = record {
  trim_space = λ s. s;
  bytes = bytes_of;
  truncate = λ s n. s;
  node_payload = λ r why. why;
  stale_payload = λ version now rows. version;
  report_line = λ (r : Report). r.target;
  stale_line = λ version rows. version;
}

abbrev offer : Offer
offer = record {
  enabled = true;
  dl_dir = "/dl";
  artifact = true;
  server_version = "v2";
  stagger = 300;
  converge_after = 900;
}

abbrev node : Node
node = record {
  name = "a";
  agent_version = "v1";
  agent_target_version = "";
  agent_update_state = "";
  agent_update_attempts = 0;
  agent_update_error = "";
  agent_update_planned_at = 0;
  agent_update_done_at = 0;
}

abbrev panel : Panel
panel = record { nodes = ("a", node) ∷ []; alerts = Alerts.empty; audits = [] }

abbrev probe : Updater
probe = record {
  state = fresh "";
  running = none;
  timer = none;
  file = fresh "";
  version = "v1";
  installed = "v1";
}

abbrev linux : Host
linux = record { located = true; supported = true; reason = "" }

-- FNV-1a of the byte "a".
hash : fnv1a 14695981039346656037 (97 ∷ []) ≡ 12638187200555641996
unfolding program
hash = refl

offset : stagger_offset texts offer "a" "v2" ≡ 152
unfolding program
offset = refl

-- The plan is made once: later offers, reports and sweeps keep it.
abbrev quiet_day : List Call
quiet_day =
    hellos offer 1100 "a" "v1"
    ∷ reports 1200 "a" (report "v2" "failed" "transient" 1 "download: timeout")
    ∷ sweeps offer 1300
    ∷ asks offer 1400 "a"
    ∷ []

target_of-run_example :
    (target_of texts offer 1500 "a"
      (run texts quiet_day (step texts (asks offer 1000 "a") panel)).nodes).0
    ≡ some ("v2", 1152)
unfolding program
target_of-run_example =
    target_of-run texts offer offer 1000 1500 "a" node quiet_day panel refl refl refl (omega arith)
      refl refl ((refl, refl), (refl, (tt, (refl, tt))))

first_plan : (target_of texts offer 1000 "a" panel.nodes).0 ≡ some ("v2", 1152)
unfolding program
first_plan = refl

-- The node has followed: nothing is offered, and the plan is closed.
followed :
    lookup "a" (
      hello texts offer 1600 "a" "v2"
        (run texts quiet_day (step texts (asks offer 1000 "a") panel)).nodes)
    ≡ some (record node {
      agent_version = "v2";
      agent_target_version = "v2";
      agent_update_state = "committed";
      agent_update_attempts = 1;
      agent_update_done_at = 1600;
    })
unfolding program
followed = refl

-- A quarter of an hour after its plan the node is behind.
behind :
    rings "agent_update_stale" ""
      (sweep texts offer 1900 (step texts (asks offer 1000 "a") panel)).alerts
    ≡ true
unfolding program
behind = refl

rings-on_report_example :
    (rings "agent_update_failed" "a"
        (on_report texts 1200 "a" (report "v2" "suppressed" "terminal" 3 "selfcheck") panel).alerts
      ≡ true)
    × (rings "agent_update_transient" "a"
          (on_report texts 1200 "a"
            (report "v2" "suppressed" "terminal" 3 "selfcheck")
            panel).alerts
        ≡ false)
unfolding program
rings-on_report_example =
    rings-on_report texts 1200 "a" (report "v2" "suppressed" "terminal" 3 "selfcheck") node panel
      refl refl refl refl

-- The probe connects, waits for its time and fails, again and again, with a new process in between.
abbrev attempt : ℕ → List Event
attempt now =
    works (now + 10) true (downloads (now + 10) none)
    ∷ works (now + 20) true (verifies (now + 20) (refused "selfcheck"))
    ∷ connects linux (now + 30)
    ∷ []

abbrev bad_build : List Event
bad_build =
    connects linux 1000 ∷ works 1300 true (fires linux 1300) ∷ attempt 1300
    ++ (pushes linux 1400 ∷ attempt 1400)
    ++ (works 1500 true restarts ∷ connects linux 1510 ∷ attempt 1520)
    ++ (pushes linux 1600 ∷ [])

failures :
    terminal_failures
      (Rollout.run texts offer "a" bad_build (record { panel = panel; probe = probe })).1
    ≡ 3
unfolding program
failures = refl

terminal_failures-rollout_example :
    terminal_failures
      (Rollout.run texts offer "a" bad_build (record { panel = panel; probe = probe })).1
    ≤ 3
unfolding program
terminal_failures-rollout_example =
    terminal_failures-rollout texts offer "a" node bad_build
      (record { panel = panel; probe = probe }) refl refl refl refl
      (record { other = refl; unknown = refl; unsaved = refl; quiet = refl; unset = refl }) refl
      (ground arith)
