-- ===== src/Agent/SelfUpdate.antt =====
-- The agent's replacement of itself, internal/agent/selfupdate.go: what it decides on an offer of
-- the server, its budget of failures in memory and in its state file, the timer, and an attempt
-- step by step. Files, downloads and the check of the candidate answer with the step. The state
-- file can be written, and the clock is in seconds.
pub mod Backoff
pub mod Budget
pub mod Cases
pub mod Attempts
pub mod Breaker
pub mod Placed
pub mod Retry
mod Tests
use fobe.Prelude.{
  ℕ, suc, ◌+◌, ◌-◌, ◌*◌, ◌%◌, ◌^◌, ◌/◌, String, List, [], ◌∷◌, ◌++◌, Bool, true, false, not, ◌&&◌,
  ◌||◌, Option, none, some, ltb, leb, nat_beq, if◌then◌else◌, ◌==◌, String-HasEq,
}

abbrev pub update_terminal_limit : ℕ
update_terminal_limit = 3

-- Nanoseconds, as `time.Duration` counts them.
abbrev second : ℕ
second = 1_000_000_000

abbrev pub transient_backoff_min : ℕ
transient_backoff_min = 60 * second

abbrev pub transient_backoff_max : ℕ
transient_backoff_max = 3600 * second

-- The state file.
pub record UpdateState : Type 0 where
  pub target : String
  pub terminal_attempts : ℕ
  pub transient_streak : ℕ
  pub last_error : String
  pub last_attempt_at : ℕ
  pub next_retry_at : ℕ
  pub anchor : ℕ
  pub committed_version : String

abbrev pub fresh : String → UpdateState
fresh target = record {
  target = target;
  terminal_attempts = 0;
  transient_streak = 0;
  last_error = "";
  last_attempt_at = 0;
  next_retry_at = 0;
  anchor = 0;
  committed_version = "";
}

abbrev pub committed : String → UpdateState
committed target = record (fresh target) { committed_version = target }

-- A wait is in seconds.
pub data Action : Type 0 where
  idle : Action
  wait : ℕ → Action
  begin : Action
  suppressed : Action
  unsupported : Action

pub record UpdateInput : Type 0 where
  pub self_update : Bool
  pub current : String
  pub target : String
  pub after : ℕ
  pub now : ℕ
  pub state : UpdateState

-- Not before the time that the server allows.
abbrev pub wait_for_plan : UpdateInput → Action
wait_for_plan in' = if ltb in'.now in'.after then wait (in'.after - in'.now) else begin

abbrev pub decide_known : UpdateInput → Action
decide_known in' =
    if leb update_terminal_limit in'.state.terminal_attempts
    then suppressed
    else (if ltb in'.now in'.state.next_retry_at
        then wait (in'.state.next_retry_at - in'.now)
        else wait_for_plan in')

unfoldable pub decide : UpdateInput → Action
decide in' =
    if (in'.target == "") || (in'.target == in'.current)
    then idle
    else (if not in'.self_update
        then unsupported
        else (if in'.state.target == in'.target then decide_known in' else wait_for_plan in'))

abbrev anchored : ℕ → UpdateState → UpdateState
anchored after st = if nat_beq after 0 then st else record st { anchor = after }

-- Another target, or another plan for the same one, starts a fresh budget.
unfoldable pub reanchor : UpdateState → String → ℕ → UpdateState
reanchor st target after = anchored after (
    if not (st.target == target) || (not (nat_beq st.anchor 0) && not (nat_beq after st.anchor))
    then fresh target
    else st)

-- A frame to the server: target, phase, class, attempts and error.
pub record Report : Type 0 where
  pub target : String
  pub phase : String
  pub class : String
  pub attempts : ℕ
  pub error : String

abbrev pub report : String → String → String → ℕ → String → Report
report target phase class attempts error = record {
  target = target;
  phase = phase;
  class = class;
  attempts = attempts;
  error = error;
}

pub record Timer : Type 0 where
  pub target : String
  pub after : ℕ
  pub due : ℕ

-- An attempt under way: its target, and whether the artifact is there.
pub record Attempt : Type 0 where
  pub target : String
  pub downloaded : Bool

-- The updater, its state file, and the builds that run and that lie in place of the binary.
pub record Updater : Type 0 where
  pub state : UpdateState
  pub running : Option Attempt
  pub timer : Option Timer
  pub file : UpdateState
  pub version : String
  pub installed : String

-- The executable: is it known, can its folder be written, and if not, why.
pub record Host : Type 0 where
  pub located : Bool
  pub supported : Bool
  pub reason : String

abbrev pub is_running : Updater → Bool
is_running u = elim u.running [ none ↦ false | some a ↦ true ]

abbrev pub persist : UpdateState → Updater → Updater
persist st u = record u { state = st; file = st }

-- The offer is the build that runs.
unfoldable pub converge : String → Updater → Updater × List Report
converge target u =
    if (u.state.target == target) && not (u.state.committed_version == u.version)
    then (
      persist (record (fresh target) { committed_version = u.version }) u,
      report target "committed" "" 0 "" ∷ [],
    )
    else (if not (u.state.target == "") && not (u.state.target == target)
        then (persist (record (fresh target) { committed_version = u.version }) u, [])
        else (u, []))

abbrev pub start : String → Updater → Updater × List Report
start target u = if is_running u then (u, []) else (
  record u {
    running = some (record { target = target; downloaded = false });
    state = record u.state { target = target };
  },
  report target "downloading" "" u.state.terminal_attempts "" ∷ [],
)

abbrev pub schedule : ℕ → String → ℕ → ℕ → Updater → Updater
schedule now target after seconds u =
    if is_running u
    then u
    else record u { timer = some (record { target = target; after = after; due = now + seconds }) }

abbrev pub act : Host → ℕ → String → ℕ → Action → Updater → Updater × List Report
act host now target after idle u = (u, [])
act host now target after unsupported u = (u, report target "unsupported" "" 0 host.reason ∷ [])
act host now target after suppressed u =
    (u, report target "suppressed" "terminal" u.state.terminal_attempts u.state.last_error ∷ [])
act host now target after (wait seconds) u = (schedule now target after seconds u, [])
act host now target after begin u = start target u

unfoldable pub follow : Host → ℕ → String → ℕ → Updater → Updater × List Report
unfolding reanchor decide
follow host now target after u =
    let u₁ = record u { state = reanchor u.state target after } in
    act host now target after
      (decide (record {
        self_update = host.supported;
        current = u.version;
        target = target;
        after = after;
        now = now;
        state = u₁.state;
      }))
      u₁

unfoldable pub consider : Host → ℕ → String → ℕ → Updater → Updater × List Report
consider host now target after u =
    if target == u.version
    then converge target u
    else (if host.located then follow host now target after u else (u, []))

-- `AfterFunc`: the call that was to wait, when it is due.
unfoldable pub fire : Host → ℕ → Updater → Updater × List Report
fire host now u = elim u.timer [
  | none ↦ (u, [])
  | some t ↦
      if leb t.due now
      then consider host now t.target t.after (record u { timer = none })
      else (u, [])
]

-- `transientBackoffMin << streak` in 64 bits, two's complement.
abbrev pub shifted : ℕ → ℕ
shifted streak = (transient_backoff_min * 2 ^ streak) % 2 ^ 64

-- Seconds; above 2^63 the shifted number is below zero.
unfoldable pub backoff : ℕ → ℕ
backoff streak =
    (if ltb transient_backoff_max (shifted streak) || nat_beq (shifted streak) 0
      then transient_backoff_max
      else shifted streak)
    / second

abbrev own_budget : String → UpdateState → UpdateState
own_budget target st = if st.target == target then st else fresh target

abbrev failed_terminal : ℕ → String → UpdateState → UpdateState
failed_terminal now error st = record st {
  last_error = error;
  last_attempt_at = now;
  terminal_attempts = suc st.terminal_attempts;
  next_retry_at = 0;
}

abbrev failed_transient : ℕ → String → UpdateState → UpdateState
failed_transient now error st = record st {
  last_error = error;
  last_attempt_at = now;
  transient_streak = suc st.transient_streak;
  next_retry_at = now + backoff st.transient_streak;
}

abbrev suppression : String → UpdateState → String → List Report
suppression target st error =
    if leb update_terminal_limit st.terminal_attempts
    then report target "suppressed" "terminal" st.terminal_attempts error ∷ []
    else []

unfoldable pub record_terminal : ℕ → String → String → Updater → Updater × List Report
record_terminal now target error u =
    let st = failed_terminal now error (own_budget target u.state) in
    (
      persist st u,
      report target "failed" "terminal" st.terminal_attempts error ∷ suppression target st error,
    )

unfoldable pub record_transient : ℕ → String → String → Updater → Updater × List Report
record_transient now target error u =
    let st = failed_transient now error (own_budget target u.state) in
    (
      persist st u,
      report target "failed" "transient" st.transient_streak error ∷ suppression target st error,
    )

-- How the second half of an attempt ends: no checksum to compare (of the server or of the file);
-- another checksum, a refused mode, a failed self-check or a failed rename; or replaced, and then
-- the process may end before the state file is written.
pub data Outcome : Type 0 where
  unverified : String → Outcome
  refused : String → Outcome
  replaced : Outcome
  replaced_unsaved : Outcome

abbrev pub idled : Updater × List Report → Updater × List Report
idled (u, out) = (record u { running = none }, out)

abbrev pub download_half : ℕ → Option String → Attempt → Updater → Updater × List Report
download_half now (some e) a u = idled (record_transient now a.target e u)
download_half now none a u = (
  record u { running = some (record a { downloaded = true }) },
  report a.target "verifying" "" u.state.terminal_attempts "" ∷ [],
)

unfoldable pub download_ends : ℕ → Option String → Updater → Updater × List Report
download_ends now error u = elim u.running [
  | none ↦ (u, [])
  | some a ↦ if a.downloaded then (u, []) else download_half now error a u
]

-- A new process: the state file, and the build that lies in place.
unfoldable pub restart : Updater → Updater
restart u = record u { state = u.file; running = none; timer = none; version = u.installed }

abbrev pub finish : ℕ → String → Outcome → Updater → Updater × List Report
finish now target (unverified e) u = idled (record_transient now target e u)
finish now target (refused e) u = idled (record_terminal now target e u)
finish now target replaced u = (
  restart (record (persist (committed target) u) { installed = target }),
  report target "committed" "" 0 "" ∷ [],
)
finish now target replaced_unsaved u = (restart (record u { installed = target }), [])

unfoldable pub verify_ends : ℕ → Outcome → Updater → Updater × List Report
verify_ends now outcome u = elim u.running [
  | none ↦ (u, [])
  | some a ↦ if a.downloaded then finish now a.target outcome u else (u, [])
]

-- What happens to a probe: an offer of the server, the timer, the two halves of an attempt, and the
-- end of its process.
pub data Event : Type 0 where
  offers : Host → ℕ → String → ℕ → Event
  fires : Host → ℕ → Event
  downloads : ℕ → Option String → Event
  verifies : ℕ → Outcome → Event
  restarts : Event

unfoldable pub step : Event → Updater → Updater × List Report
step (offers host now target after) u = consider host now target after u
step (fires host now) u = fire host now u
step (downloads now error) u = download_ends now error u
step (verifies now outcome) u = verify_ends now outcome u
step restarts u = (restart u, [])

-- The probe in the end, and all that it has reported.
unfoldable pub run : List Event → Updater → Updater × List Report
run [] u = (u, [])
run (e ∷ es) u = let (u₁, out) = step e u in let (u₂, rest) = run es u₁ in (u₂, out ++ rest)
