-- ===== src/Agent/SelfUpdate/Cases.antt =====
-- The timer and the halves of an attempt, by what is there (internal/agent/selfupdate.go).
use fobe.Prelude.{ℕ, String, [], Option, none, some, ◌≡◌, arith, if◌then◌else◌, String-HasEq, leb}
use fobe.Agent.SelfUpdate.{
  Timer, Attempt, Updater, Host, consider, fire, download_half, download_ends, verify_ends, Outcome,
  finish,
}

pub fire-none : (host : Host) (now : ℕ) (u : Updater) → u.timer ≡ none → fire host now u ≡ (u, [])
unfolding fire
fire-none host now u e = ground arith

pub fire-some :
    (host : Host) (now : ℕ) (u : Updater) (x : Timer)
    → u.timer ≡ some x
    → fire host now u ≡ (
        if leb x.due now
        then consider host now x.target x.after (record u { timer = none })
        else (u, []))
unfolding fire
fire-some host now u x e = ground arith

pub download_ends-none :
    (now : ℕ) (error : Option String) (u : Updater)
    → u.running ≡ none
    → download_ends now error u ≡ (u, [])
unfolding download_ends
download_ends-none now error u e = ground arith

pub download_ends-some :
    (now : ℕ) (error : Option String) (u : Updater) (x : Attempt)
    → u.running ≡ some x
    → download_ends now error u ≡ (if x.downloaded then (u, []) else download_half now error x u)
unfolding download_ends
download_ends-some now error u x e = ground arith

pub verify_ends-none :
    (now : ℕ) (outcome : Outcome) (u : Updater)
    → u.running ≡ none
    → verify_ends now outcome u ≡ (u, [])
unfolding verify_ends
verify_ends-none now outcome u e = ground arith

pub verify_ends-some :
    (now : ℕ) (outcome : Outcome) (u : Updater) (x : Attempt)
    → u.running ≡ some x
    → verify_ends now outcome u ≡ (if x.downloaded then finish now x.target outcome u else (u, []))
unfolding verify_ends
verify_ends-some now outcome u x e = ground arith
