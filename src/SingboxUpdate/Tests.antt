-- ===== src/SingboxUpdate/Tests.antt =====
-- A distribution of version 1.12.0 to two nodes: `a` is connected, `b` is not.
use fobe.Prelude.{
  ℕ, ◌+◌, String, List, [], ◌∷◌, ◌++◌, Bool, true, false, none, some, ◌≡◌, refl, ◌==◌, String-HasEq,
}
use fobe.Prelude.Table.{lookup, upsert}
use fobe.Store.Singbox.{Node, NodeSingbox, Rows, get_node_singbox}
use fobe.SingboxUpdate.Job.{Job, new_job, state_done, count_results, pushed, offline_pending}
use fobe.SingboxUpdate.Manager.{Texts, Panel, spawned, restart, start_update}
use fobe.SingboxUpdate.Runner.{installed, HubAnswer, push_one, run_job, advance}
use fobe.SingboxUpdate.Check.{check_convergence}
use fobe.SingboxUpdate.History.{
  installation, with_runner, Reachable, first_boot, later, outside, starts, advances,
}
use fobe.SingboxUpdate.Invariant.{Working, Tallied, OptionAll}
use fobe.SingboxUpdate.Invariant.Reach.{last_update-Reachable}
use fobe.SingboxUpdate.Distribution.ByRow.{rolled_out, report_of}
use fobe.SingboxUpdate.Distribution.Report.{summary}
use fobe.SingboxUpdate.Distribution.Whole.{run_job-lem}
use fobe.SingboxUpdate.Convergence.{check_convergence-lem, Alerted}

abbrev plain : Texts
plain = record {
  canonical = λ v. some v;
  norm = λ v. v;
  is_blank = λ v. v == "";
  encode = λ job stale. "stale";
}

abbrev row : String → String → Bool → NodeSingbox
row version desired uninstall = record {
  version = version;
  desired_version = desired;
  desired_uninstall = uninstall;
  config_hash = "h";
  status = "running";
  last_error = "";
  cert_pem = "";
  cert_sha256 = "";
  cert_not_after = 0;
  port = 443;
  updated_at = 5;
}

abbrev two_rows : Rows
two_rows = ("a", row "1.11.0" "1.11.0" false) ∷ ("b", row "1.11.0" "1.11.0" false) ∷ []

abbrev two_nodes : List Node
two_nodes =
    record { id = "a"; name = "A"; status = "online" }
    ∷ record { id = "b"; name = "B"; status = "offline" }
    ∷ []

abbrev hub : String → HubAnswer
hub node = record { online = node == "a"; sent = true }

abbrev job : Job
job = new_job 10 "j1" "latest" "1.12.0"

abbrev ready : Panel
ready = record installation {
  manager = record { job = some job; loaded = true; armed_at = [] };
  last_update = some job;
  cache = "1.12.0" ∷ [];
  nodes = two_nodes;
  singbox = two_rows;
  runners = record { job_id = "j1"; phase = spawned } ∷ [];
}

run_job-lem_example :
    ((node : String)
      → lookup node (run_job plain 20 installed hub "j1" ready).singbox
        ≡ rolled_out plain 20 "1.12.0" node two_nodes (lookup node two_rows))
    × (job' : Job) × ((run_job plain 20 installed hub "j1" ready).manager.job ≡ some job')
    × (job'.state ≡ state_done)
    × (job'.deadline ≡ 20 + 900)
    × (job'.counts ≡ count_results job'.nodes)
    × (summary job'.nodes ≡ [] ++ report_of plain hub "1.12.0" two_nodes two_rows)
unfolding count_results
run_job-lem_example =
    run_job-lem plain 20 "j1" hub installed ready job refl refl refl refl (refl, (refl, tt))

-- What that report says.
reported_test :
    report_of plain hub "1.12.0" two_nodes two_rows ≡ ("a", pushed) ∷ ("b", offline_pending) ∷ []
unfolding lookup
reported_test = refl

-- A node that the operator has taken sing-box from after the targets were listed desires it again.
push_one_test :
    lookup "a"
      (push_one plain 20
        (hub "a")
        "1.12.0"
        (record {
          node = "a";
          name = "A";
          status = "online";
          version = "1.11.0";
          desired_version = "1.11.0";
        })
        (("a", row "1.11.0" "" true) ∷ [])).1
    ≡ some (record (row "1.11.0" "1.12.0" true) { status = "installing"; updated_at = 20 })
unfolding push_one lookup upsert
push_one_test = refl

abbrev booted : Panel
booted = restart 5 installation

abbrev supplied : Panel
supplied = record booted { cache = "1.12.0" ∷ []; nodes = two_nodes; singbox = two_rows }

abbrev begun : Panel
begun = (start_update plain 10 "j1" "1.12.0" "latest" supplied).1

abbrev at_work : Panel
at_work = with_runner [] [] "j1" (advance plain 11 installed (hub "a") "j1" spawned begun)

reached : Reachable plain at_work
unfolding restart start_update
reached =
    later begun at_work
      (later supplied begun
        (later booted supplied (first_boot 5)
          (outside true ("1.12.0" ∷ []) two_nodes two_rows (record { last_id = 0; rows = [] })))
        (starts 10 "j1" "1.12.0" "latest"
          (record { named = refl; unarmed = refl; unchecked = tt })))
      (advances 11 installed (hub "a") [] [] (record { job_id = "j1"; phase = spawned }) refl)

last_update-Reachable_example :
    (at_work.last_update ≡ at_work.manager.job)
    × Working at_work.runners at_work.manager.job
    × OptionAll Tallied at_work.manager.job
last_update-Reachable_example = last_update-Reachable plain at_work reached

abbrev checked : Panel
checked = record ready {
  manager = record {
    job = some (record job {
      state = state_done;
      nodes =
          record {
            node = "b";
            name = "B";
            online = false;
            outcome = offline_pending;
            reason = "";
            version = "1.11.0";
            desired_version = "1.12.0";
            converged = none;
            checked_at = 0;
          }
          ∷ [];
    });
    loaded = true;
    armed_at = "j1" ∷ [];
  };
  runners = [];
}

check_convergence-lem_example :
    (job' : Job) × ((check_convergence plain 920 "j1" checked).manager.job ≡ some job')
    × (job'.stale ≡ "b" ∷ [])
    × Alerted plain 920 "j1"
        ("b" ∷ [])
        (record { last_id = 0; rows = [] })
        (check_convergence plain 920 "j1" checked).alerts
    × ((later : ℕ)
        → check_convergence plain later "j1" (check_convergence plain 920 "j1" checked)
          ≡ check_convergence plain 920 "j1" checked)
unfolding lookup get_node_singbox
check_convergence-lem_example =
    check_convergence-lem plain 920 "j1" checked _ refl refl refl refl refl
