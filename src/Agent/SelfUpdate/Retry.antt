-- ===== src/Agent/SelfUpdate/Retry.antt =====
-- The next attempt after a failed download, and after an offer that was withdrawn
-- (internal/agent/selfupdate.go).
use fobe.Prelude.{
  ℕ, ◌+◌, ◌≤◌, ◌<◌, String, [], ◌∷◌, true, false, none, some, ◌≡◌, ap, ◌∙◌, arith, leb, ◌==◌,
  String-HasEq, Bool-cases, inl, inr,
}
use text.Mathlib.TextEquality.{eq_iff}
use fobe.Agent.SelfUpdate.{
  Updater, Host, report, is_running, consider, follow, decide, reanchor, fire, download_ends,
  record_transient, backoff, fresh,
}
use fobe.Agent.SelfUpdate.Backoff.{backoff_bounds}
use fobe.Agent.SelfUpdate.Cases.{fire-none, fire-some, download_ends-some}

module _ (host : Host) (t : String) (a : ℕ) (u : Updater) where
  -- Not the build that runs, on a host where it can be put in place.
  pub record IsWanted : Type 0 where
    pub other : (t == u.version) ≡ false
    pub full : (t == "") ≡ false
    pub located : host.located ≡ true
    pub supported : host.supported ≡ true
    pub set : 0 < a

  consider-begins :
      (now : ℕ)
      → IsWanted
      → u.running ≡ none
      → u.state.target ≡ t
      → u.state.anchor ≡ a
      → u.state.terminal_attempts < 3
      → u.state.next_retry_at ≤ now
      → a ≤ now
      → is_running (consider host now t a u).0 ≡ true
  unfolding consider follow decide reanchor
  consider-begins now w r e f h k m =
      ground (arith, w.other, w.full, w.located, w.supported, w.set, eq_iff u.state.target t)

  -- Three failures of the plan are enough.
  consider-suppressed :
      (now : ℕ)
      → IsWanted
      → u.state.target ≡ t
      → u.state.anchor ≡ a
      → 3 ≤ u.state.terminal_attempts
      → (consider host now t a u).1
        ≡ report t "suppressed" "terminal" u.state.terminal_attempts u.state.last_error ∷ []
  unfolding consider follow decide reanchor
  consider-suppressed now w e f h =
      ground (arith, w.other, w.full, w.located, w.supported, w.set, eq_iff u.state.target t)

  -- Before its time the next attempt waits on the timer.
  consider-waits :
      (now : ℕ)
      → IsWanted
      → u.running ≡ none
      → u.state.target ≡ t
      → u.state.anchor ≡ a
      → u.state.terminal_attempts < 3
      → now < u.state.next_retry_at
      → ((consider host now t a u).0.timer
          ≡ some (record { target = t; after = a; due = u.state.next_retry_at }))
        × ((consider host now t a u).0.running ≡ none)
        × ((consider host now t a u).0.version ≡ u.version)
        × ((consider host now t a u).0.state.target ≡ t)
        × ((consider host now t a u).0.state.anchor ≡ a)
        × ((consider host now t a u).0.state.terminal_attempts ≡ u.state.terminal_attempts)
        × ((consider host now t a u).0.state.next_retry_at ≡ u.state.next_retry_at)
  unfolding consider follow decide reanchor
  consider-waits now w r e f h k =
      ground (arith, w.other, w.full, w.located, w.supported, w.set, eq_iff u.state.target t)

  consider-begins_timer :
      (now : ℕ)
      → IsWanted
      → u.running ≡ none
      → u.timer ≡ none
      → u.state.target ≡ t
      → u.state.anchor ≡ a
      → u.state.terminal_attempts < 3
      → u.state.next_retry_at ≤ now
      → a ≤ now
      → (consider host now t a u).0.timer ≡ none
  unfolding consider follow decide reanchor
  consider-begins_timer now w r i e f h k m =
      ground (arith, w.other, w.full, w.located, w.supported, w.set, eq_iff u.state.target t)

  -- An offer of nothing takes the budget away.
  consider-withdrawn :
      (now : ℕ)
      → IsWanted
      → u.running ≡ none
      → u.state.target ≡ t
      → ("" == u.version) ≡ false
      → ((consider host now "" 0 u).0.running ≡ none)
        × ((consider host now "" 0 u).0.version ≡ u.version)
        × ((consider host now "" 0 u).0.state ≡ fresh "")
  unfolding consider follow decide reanchor
  consider-withdrawn now w r e v =
      ground (arith, w.full, w.located, eq_iff u.state.target "", eq_iff t "")

  -- With a budget for nothing, the offer is a new plan.
  consider-fresh :
      (now : ℕ)
      → IsWanted
      → u.running ≡ none
      → u.state ≡ fresh ""
      → a ≤ now
      → is_running (consider host now t a u).0 ≡ true
  unfolding consider follow decide reanchor
  consider-fresh now w r e m =
      ground (arith, w.other, w.full, w.located, w.supported, w.set, eq_iff t "", eq_iff "" t)

-- A transient failure.
download_ends-transient :
    (now : ℕ) (t e : String) (u : Updater)
    → u.running ≡ some (record { target = t; downloaded = false })
    → u.state.target ≡ t
    → ((download_ends now (some e) u).0.running ≡ none)
      × ((download_ends now (some e) u).0.timer ≡ u.timer)
      × ((download_ends now (some e) u).0.version ≡ u.version)
      × ((download_ends now (some e) u).0.state.target ≡ t)
      × ((download_ends now (some e) u).0.state.anchor ≡ u.state.anchor)
      × ((download_ends now (some e) u).0.state.terminal_attempts ≡ u.state.terminal_attempts)
      × ((download_ends now (some e) u).0.state.next_retry_at
          ≡ now + backoff u.state.transient_streak)
unfolding record_transient
download_ends-transient now t e u r h =
    rw (download_ends-some now (some e) u (record { target = t; downloaded = false }) r)
      (ground (arith, eq_iff u.state.target t))

-- An attempt at a plan whose download is about to fail.
pub record IsTrying (host : Host) (t : String) (a : ℕ) (u : Updater) : Type 0 where
  pub running : u.running ≡ some (record { target = t; downloaded = false })
  pub target : u.state.target ≡ t
  pub anchor : u.state.anchor ≡ a
  pub timer : u.timer ≡ none
  pub left : u.state.terminal_attempts < 3
  pub wanted : IsWanted host t a u

-- Idle between two attempts at the plan.
record IsPausing (host : Host) (t : String) (a : ℕ) (u : Updater) : Type 0 where
  idle : u.running ≡ none
  unset : u.timer ≡ none
  target : u.state.target ≡ t
  anchor : u.state.anchor ≡ a
  left : u.state.terminal_attempts < 3
  wanted : IsWanted host t a u

wanted_again :
    (host : Host) (t : String) (a : ℕ) (u v : Updater)
    → v.version ≡ u.version
    → IsWanted host t a u
    → IsWanted host t a v
wanted_again host t a u v same w = record {
  other = ap (λ x. t == x) same ∙ w.other;
  full = w.full;
  located = w.located;
  supported = w.supported;
  set = w.set;
}

after_failure :
    (host : Host) (t : String) (a now : ℕ) (e : String) (u : Updater)
    → IsTrying host t a u
    → IsPausing host t a (download_ends now (some e) u).0
      × ((download_ends now (some e) u).0.state.next_retry_at ≤ now + 3600)
after_failure host t a now e u v =
    let (idle, timer, version, target, anchor, attempts, due) =
      download_ends-transient now t e u v.running v.target in
    (
      record {
        idle = idle;
        unset = timer ∙ v.timer;
        target = target;
        anchor = anchor ∙ v.anchor;
        left = omega (arith, attempts, v.left);
        wanted = wanted_again host t a u _ version v.wanted;
      },
      omega (arith, due, (backoff_bounds u.state.transient_streak).1),
    )

-- Begun by the offer or left to the timer.
fire-consider :
    (host : Host) (t : String) (a now₁ now₂ : ℕ) (u : Updater)
    → IsPausing host t a u
    → u.state.next_retry_at ≤ now₂
    → a ≤ now₁
    → now₁ ≤ now₂
    → is_running (fire host now₂ (consider host now₁ t a u).0).0 ≡ true
fire-consider host t a now₁ now₂ u v h k m = elim (Bool-cases (leb u.state.next_retry_at now₁)) [
  | inl y ↦
      let n : u.state.next_retry_at ≤ now₁ = ground arith in
      rw
        (fire-none host now₂ (consider host now₁ t a u).0 (
          consider-begins_timer host t a u now₁ v.wanted v.idle v.unset v.target v.anchor v.left n
            k))
        (consider-begins host t a u now₁ v.wanted v.idle v.target v.anchor v.left n k)
  | inr y ↦
      let (timer, idle, version, target, anchor, attempts, due) =
        consider-waits host t a u now₁ v.wanted v.idle v.target v.anchor v.left (ground arith) in
      let u₁ = (consider host now₁ t a u).0 in
      let u₂ = record u₁ { timer = none } in
      let ready : leb u.state.next_retry_at now₂ ≡ true = ground arith in
      rw (fire-some host now₂ u₁ _ timer, ready)
        (consider-begins host t a u₂ now₂ (wanted_again host t a u u₂ version v.wanted) idle target
          anchor (omega (arith, attempts, v.left)) (omega (arith, due, h)) (omega arith))
]

-- Let an attempt at a build run on a host that can replace its binary, in the plan whose
-- earliest second is `a`, not 0, with fewer than three terminal failures and no timer, the build
-- another than the one that runs. However its download fails at `now`: if the plan is offered
-- again at some `now₁`, not before `a`, and the timer gets its turn at a second `now₂` that is
-- not before `now₁` and at least an hour after `now`, an attempt is under way in the end.
pub fire-download_ends :
    (host : Host) (t : String) (a now now₁ now₂ : ℕ) (e : String) (u : Updater)
    → IsTrying host t a u
    → a ≤ now₁
    → now₁ ≤ now₂
    → now + 3600 ≤ now₂
    → is_running (fire host now₂ (consider host now₁ t a (download_ends now (some e) u).0).0).0
      ≡ true
fire-download_ends host t a now now₁ now₂ e u v k order later =
    let (pausing, due) = after_failure host t a now e u v in
    fire-consider host t a now₁ now₂ _ pausing (omega arith) k order

-- Three failures, and then an offer of nothing.
pub record IsSpent (host : Host) (t : String) (a : ℕ) (u : Updater) : Type 0 where
  pub idle : u.running ≡ none
  pub target : u.state.target ≡ t
  pub anchor : u.state.anchor ≡ a
  pub spent : 3 ≤ u.state.terminal_attempts
  pub named : ("" == u.version) ≡ false
  pub wanted : IsWanted host t a u

-- Let a probe have used up its three terminal failures on a build that is not the one that runs,
-- in the plan whose earliest second is `a`, not 0, on a host that can replace its binary,
-- nothing being under way, and the build that runs have a name. An offer of the plan is then
-- answered as suppressed. But after one message in which no build is offered, at any time, the
-- same plan begins an attempt as soon as it is offered again, not before `a`.
pub consider-forgotten :
    (host : Host) (t : String) (a now now₁ now₂ : ℕ) (u : Updater)
    → IsSpent host t a u
    → a ≤ now₂
    → ((consider host now t a u).1
        ≡ report t "suppressed" "terminal" u.state.terminal_attempts u.state.last_error ∷ [])
      × (is_running (consider host now₂ t a (consider host now₁ "" 0 u).0).0 ≡ true)
consider-forgotten host t a now now₁ now₂ u v k = (
  consider-suppressed host t a u now v.wanted v.target v.anchor v.spent,
  let (idle, version, emptied) =
        consider-withdrawn host t a u now₁ v.wanted v.idle v.target v.named in
      let u₁ = (consider host now₁ "" 0 u).0 in
      consider-fresh host t a u₁ now₂ (wanted_again host t a u u₁ version v.wanted) idle emptied k,
)
