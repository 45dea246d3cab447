-- ===== src/SingboxUpdate/Runner.antt =====
-- The goroutine of a job, `runJob` (internal/server/singboxupdate/singboxupdate.go), as the steps
-- between which other calls may come, and run through in one go.
use Prim.Native.String.{◌++◌}
use fobe.Prelude.{
  ℕ, String, List, [], ◌∷◌, Bool, true, false, not, ◌&&◌, Option, none, some, ltb, contains,
  if◌then◌else◌, ◌==◌, String-HasEq,
}
use fobe.Store.Singbox.{
  NodeSingbox, Rows, SingboxTarget, get_node_singbox, upsert_node_singbox, list_singbox_targets,
}
use fobe.SingboxUpdate.Job.{
  state_downloading, state_pushing, NodeResult, Outcome, already_current, pushed, offline_pending,
  not_updated,
}
use fobe.SingboxUpdate.Manager.{
  Texts, Panel, Phase, spawned, fetching, pushing, set_state, fail, record_result, finish_job, arm,
}

-- What the release, the download and the store behind it came to.
pub data Download : Type 0 where
  unavailable : String → Download
  download_failed : String → Download
  installed : Download

-- What the hub says of a node: is it connected, and did the frame go out?
pub record HubAnswer : Type 0 where
  pub online : Bool
  pub sent : Bool

abbrev pub is_current : Texts → String → SingboxTarget → Bool
is_current texts target t =
    (texts.norm t.version == target) && (texts.norm t.desired_version == target)

abbrev pub result : String → SingboxTarget → Bool → Outcome → String → NodeResult
result target t online outcome reason = record {
  node = t.node;
  name = t.name;
  online = online;
  outcome = outcome;
  reason = reason;
  version = t.version;
  desired_version = target;
  converged = none;
  checked_at = 0;
}

-- The row with the version moved, and nothing else but the status.
abbrev pub moved : Texts → String → SingboxTarget → NodeSingbox → NodeSingbox
moved texts target t sb = record sb {
  desired_version = target;
  status = if texts.norm t.version == target then sb.status else "installing";
}

-- The row is read and written in two statements without a transaction, taken as one step.
unfoldable pub push_one : Texts → ℕ → HubAnswer → String → SingboxTarget → Rows → NodeResult × Rows
unfolding get_node_singbox upsert_node_singbox
push_one texts now answer target t rows =
    if is_current texts target t
    then (result target t answer.online already_current "already on the target version", rows)
    else elim (get_node_singbox t.node rows) [
      | none ↦
          (result target t answer.online not_updated "desired state unreadable: not found", rows)
      | some sb ↦
          let rows' = upsert_node_singbox now t.node (moved texts target t sb) rows in
          if not answer.online
          then (
            result target t false offline_pending "node offline; the agent converges on reconnect",
            rows',
          )
          else if not answer.sent
          then (
            result target t true not_updated
                "the agent disconnected before the desired frame was sent",
            rows',
          )
          else (result target t true pushed "", rows')
    ]

-- The check of the finished job is armed, if it is still there.
unfoldable pub arm_own : String → Panel → Panel
unfolding arm
arm_own id p = elim p.manager.job [
  | none ↦ p
  | some job ↦ if (job.id == id) && ltb 0 job.deadline then arm id p else p
]

module _ (texts : Texts) where
  -- The first state. The target is the job's, if it is still there.
  unfoldable pub run_spawned : String → Panel → Panel × Option String
  unfolding set_state
  run_spawned id p =
      let p₁ = set_state id state_downloading p in
      (
        p₁,
        elim p₁.manager.job [
          | none ↦ none
          | some job ↦ if job.id == id then some job.target_version else none
        ],
      )

  abbrev pub is_cached : String → Panel → Bool
  is_cached target p = p.dl_dir && (not (target == "") && contains target p.cache)

  -- The release is in the cache, or a reason why the job fails.
  unfoldable pub ensure_cached : Download → String → Panel → Panel × Option String
  ensure_cached download target p =
      if is_cached target p
      then (p, none)
      else if not p.dl_dir
      then (p, some "download_failed: FOBE_DL_DIR is not configured")
      else elim download [
        | unavailable e ↦ (p, some ("release_unavailable: " ++ e))
        | download_failed e ↦ (p, some ("download_failed: " ++ e))
        | installed ↦ (record p { cache = target ∷ p.cache }, none)
      ]

  -- The targets that the pushes go through, unless the job has failed.
  unfoldable pub after_cached :
      ℕ → String → Panel × Option String → Panel × Option (List SingboxTarget)
  unfolding fail list_singbox_targets set_state
  after_cached now id (p, some reason) = (fail now id reason p, none)
  after_cached now id (p, none) =
      (set_state id state_pushing p, some (list_singbox_targets p.nodes p.singbox))

  unfoldable pub run_fetching :
      ℕ → Download → String → String → Panel → Panel × Option (List SingboxTarget)
  unfolding ensure_cached after_cached
  run_fetching now download id target p = after_cached now id (ensure_cached download target p)

  unfoldable pub run_push : ℕ → HubAnswer → String → String → SingboxTarget → Panel → Panel
  unfolding push_one record_result
  run_push now answer id target t p =
      let (res, rows) = push_one texts now answer target t p.singbox in
      record_result id res (record p { singbox = rows })

  unfoldable pub run_done : ℕ → String → Panel → Panel
  unfolding finish_job arm_own
  run_done now id p = arm_own id (finish_job now id p)

  -- What is left of the goroutine after its first state, and after the download.
  abbrev pub to_fetching : Panel × Option String → Option Phase × Panel
  to_fetching (p, none) = (none, p)
  to_fetching (p, some target) = (some (fetching target), p)

  abbrev pub to_pushing : String → Panel × Option (List SingboxTarget) → Option Phase × Panel
  to_pushing target (p, none) = (none, p)
  to_pushing target (p, some ts) = (some (pushing target ts), p)

  -- What the goroutine does next, and where it stands then, unless it has ended.
  unfoldable pub advance : ℕ → Download → HubAnswer → String → Phase → Panel → Option Phase × Panel
  unfolding run_spawned run_fetching run_push run_done
  advance now download answer id spawned p = to_fetching (run_spawned id p)
  advance now download answer id (fetching target) p =
      to_pushing target (run_fetching now download id target p)
  advance now download answer id (pushing target []) p = (none, run_done now id p)
  advance now download answer id (pushing target (t ∷ ts)) p =
      (some (pushing target ts), run_push now answer id target t p)

  unfoldable pub run_pushes :
      ℕ → (String → HubAnswer) → String → String → List SingboxTarget → Panel → Panel
  unfolding run_push
  run_pushes now answers id target [] p = p
  run_pushes now answers id target (t ∷ ts) p =
      run_pushes now answers id target ts (run_push now (answers t.node) id target t p)

  abbrev pub push_targets :
      ℕ → (String → HubAnswer) → String → String → Panel × Option (List SingboxTarget) → Panel
  push_targets now answers id target (p, none) = p
  push_targets now answers id target (p, some ts) =
      run_done now id (run_pushes now answers id target ts p)

  abbrev pub fetch_target :
      ℕ → Download → (String → HubAnswer) → String → Panel × Option String → Panel
  fetch_target now download answers id (p, none) = p
  fetch_target now download answers id (p, some target) =
      push_targets now answers id target (run_fetching now download id target p)

  -- The goroutine from its start to its end, with nothing in between.
  unfoldable pub run_job : ℕ → Download → (String → HubAnswer) → String → Panel → Panel
  unfolding run_spawned run_fetching run_pushes run_done
  run_job now download answers id p = fetch_target now download answers id (run_spawned id p)
