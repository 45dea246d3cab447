-- ===== src/SingboxUpdate/Invariant/Reach.antt =====
-- The invariant along every history of the panel.
use fobe.Prelude.{ℕ, List, ◌∷◌, ◌++◌, Option, none, some, String-HasEq, ◌≡◌, refl}
use fobe.SingboxUpdate.Job.{Job}
use fobe.SingboxUpdate.Manager.{Texts, Panel, Runner}
use fobe.SingboxUpdate.Runner.{Download, HubAnswer, advance}
use fobe.SingboxUpdate.History.{
  installation, with_runner, Step, boots, starts, advances, fires, checks_off, deletes, outside,
  Reachable, first_boot, later,
}
use fobe.SingboxUpdate.Invariant.{IsSound, IsProper, Working, Tallied, OptionAll, same-IsSound}
use fobe.SingboxUpdate.Invariant.Goroutine.{Working-IsSole, advance-IsSound}
use fobe.SingboxUpdate.Invariant.Calls.{
  restart-IsSound, start_update-IsSound, delete_version-IsSound,
}
use fobe.SingboxUpdate.Invariant.Timers.{fires-IsSound, checks_off-IsSound}

module _ (texts : Texts) where
  advances-IsSound :
      (now : ℕ) (download : Download) (answer : HubAnswer) (before after : List Runner) (r : Runner)
      (p : Panel)
      → IsSound p
      → p.runners ≡ before ++ (r ∷ after)
      → IsSound
          (with_runner before after r.job_id (advance texts now download answer r.job_id r.phase p))
  advances-IsSound now download answer before after r p h e =
      let sole = Working-IsSole before after r p.manager.job (rw e at h.working) in
      let (b, a) = sole.no_other in
      rw (b, a)
        (advance-IsSound texts p h sole.job sole.is_current r.job_id sole.own sole.awake now
          download answer r.phase)

  Step-IsSound : (p p' : Panel) → Step texts p p' → IsSound p → IsSound p'
  Step-IsSound p p' (boots now) h = restart-IsSound now p (rw h.saved h.proper)
  Step-IsSound p p' (starts now id version requested fresh) h =
      start_update-IsSound texts now id version requested p h fresh
  Step-IsSound p p' (advances now download answer before after r e) h =
      advances-IsSound now download answer before after r p h e
  Step-IsSound p p' (fires id armed) h = fires-IsSound id p h armed
  Step-IsSound p p' (checks_off now before after job e) h =
      checks_off-IsSound texts now before after job p h e
  Step-IsSound p p' (deletes version force) h = delete_version-IsSound texts version force p h
  Step-IsSound p p' (outside dl_dir cache nodes singbox alerts) h =
      same-IsSound p _ h refl refl refl refl

  Reachable-IsSound : (p : Panel) → Reachable texts p → IsSound p
  Reachable-IsSound p (first_boot now) = restart-IsSound now installation tt
  Reachable-IsSound p (later p₀ p₁ r s) = Step-IsSound p₀ p s (Reachable-IsSound p₀ r)

  -- After any history of restarts, starts of updates, steps of their goroutines, timers,
  -- convergence checks and deletions, from a new installation, while the nodes, the alerts and
  -- the cache change at will: the saved job is the current one, its counts are the tally of its
  -- results, and a goroutine is at work only if the job is unfinished, is then the only one, and
  -- is that job's own.
  pub last_update-Reachable :
      (p : Panel)
      → Reachable texts p
      → (p.last_update ≡ p.manager.job)
        × Working p.runners p.manager.job
        × OptionAll Tallied p.manager.job
  last_update-Reachable p r =
      let h = Reachable-IsSound p r in (h.saved, h.working, tallied p.manager.job h.proper)
    where
      tallied : (current : Option Job) → OptionAll IsProper current → OptionAll Tallied current
      tallied none proper = tt
      tallied (some job) proper = proper.tallied
