-- ===== src/SingboxUpdate/Distribution/Report.antt =====
-- The report of a distribution.
use fobe.Prelude.{
  ℕ, String, List, [], ◌∷◌, ◌++◌, true, false, none, some, map, ◌==◌, String-HasEq, ◌≡◌, refl, sym,
  ap, ◌∙◌, arith, Bool-cases, inl, inr,
}
use fobe.Prelude.Table.{lookup}
use fobe.Store.Singbox.{Rows, SingboxTarget}
use fobe.SingboxUpdate.Job.{Job, NodeResult, Outcome, count_results}
use fobe.SingboxUpdate.Manager.{Texts, Panel, save_job, record_result}
use fobe.SingboxUpdate.Runner.{HubAnswer, push_one, run_push, run_pushes}
use fobe.SingboxUpdate.Invariant.{alter_job-lem}
use fobe.SingboxUpdate.Distribution.{
  outcome_of, target_of, Distinct, lookup-push_one, outcome-push_one, node-push_one,
  singbox-run_push,
}

abbrev pub summary : List NodeResult → List (String × Outcome)
summary = map (λ n. (n.node, n.outcome))

summary-append : (xs ys : List NodeResult) → summary (xs ++ ys) ≡ summary xs ++ summary ys
summary-append [] ys = refl
summary-append (x ∷ xs) ys = ap (λ rest. (x.node, x.outcome) ∷ rest) (summary-append xs ys)

append_nil : {A : Type 0} (xs : List A) → xs ++ [] ≡ xs
append_nil [] = refl
append_nil (x ∷ xs) = ap (λ rest. x ∷ rest) (append_nil xs)

append_assoc : {A : Type 0} (xs ys zs : List A) → (xs ++ ys) ++ zs ≡ xs ++ (ys ++ zs)
append_assoc [] ys zs = refl
append_assoc (x ∷ xs) ys zs = ap (λ rest. x ∷ rest) (append_assoc xs ys zs)

module _ (texts : Texts) (now : ℕ) (answers : String → HubAnswer) (target : String) where
  abbrev pub reported : Rows → List SingboxTarget → List (String × Outcome)
  reported rows =
      map (λ t. (t.node, outcome_of texts target (answers t.node) t (lookup t.node rows)))

  -- A push changes no row that the report of another target reads.
  reported-push_one :
      (t : SingboxTarget) (rows : Rows) (ts : List SingboxTarget)
      → target_of t.node ts ≡ none
      → reported (push_one texts now (answers t.node) target t rows).1 ts ≡ reported rows ts
  reported-push_one t rows [] new = refl
  reported-push_one t rows (s ∷ ts) new = elim (Bool-cases (s.node == t.node)) [
    | inl y ↦ absurd (let k : some s ≡ none = rw y at new in ground arith)
    | inr y ↦
        let other : (t.node == s.node) ≡ false =
          ground
            (arith, String-HasEq.same_iff t.node s.node, String-HasEq.same_iff s.node t.node) in
        let same = rw other at (lookup-push_one texts now answers target t rows s.node) in
        let head : String × Outcome =
          (s.node, outcome_of texts target (answers s.node) s (lookup s.node rows)) in
        rw same (ap (λ rest. head ∷ rest) (reported-push_one t rows ts (rw y at new)))
  ]

  -- The job of a goroutine after its pushes: as before, with the report added.
  pub record IsReported (job : Job) (ts : List SingboxTarget) (rows : Rows) (p : Panel)
      : Type 0 where
    pub job' : Job
    pub is_current : p.manager.job ≡ some job'
    pub same_id : job'.id ≡ job.id
    pub added : summary job'.nodes ≡ summary job.nodes ++ reported rows ts
    pub tallied : job'.counts ≡ count_results job'.nodes

  module _ (id : String) where
    run_push-lem :
        (t : SingboxTarget) (p : Panel) (job : Job)
        → p.manager.job ≡ some job
        → (job.id == id) ≡ true
        → IsReported job (t ∷ []) p.singbox (run_push texts now (answers t.node) id target t p)
    unfolding run_push record_result save_job
    run_push-lem t p job e own =
        let (res, rows) = push_one texts now (answers t.node) target t p.singbox in
        let f : Job → Job = (λ j. record j {
          nodes = j.nodes ++ (res ∷ []);
          counts = count_results (j.nodes ++ (res ∷ []));
        }) in
        let told : (res.node, res.outcome)
            ≡ (t.node, outcome_of texts target (answers t.node) t (lookup t.node p.singbox)) =
          rw
            (
              node-push_one texts now answers target t p.singbox,
              outcome-push_one texts now answers target t p.singbox,
            )
            refl in
        rw (alter_job-lem id f (record p { singbox = rows }) job e own, run_push, record_result)
          (record {
            job' = f job;
            is_current = refl;
            same_id = refl;
            added =
                summary-append job.nodes (res ∷ []) ∙ ap (λ x. summary job.nodes ++ (x ∷ [])) told;
            tallied = refl;
          })

    pub run_pushes-IsReported :
        (ts : List SingboxTarget) (p : Panel) (job : Job)
        → p.manager.job ≡ some job
        → (job.id == id) ≡ true
        → job.counts ≡ count_results job.nodes
        → Distinct ts
        → IsReported job ts p.singbox (run_pushes texts now answers id target ts p)
    unfolding run_pushes
    run_pushes-IsReported [] p job e own tallied d = record {
      job' = job;
      is_current = e;
      same_id = refl;
      added = sym (append_nil (summary job.nodes));
      tallied = tallied;
    }
    run_pushes-IsReported (t ∷ ts) p job e own tallied (new, d) =
        let p₁ = run_push texts now (answers t.node) id target t p in
        let step = run_push-lem t p job e own in
        let rest =
          run_pushes-IsReported ts p₁ step.job' step.is_current (rw step.same_id own) step.tallied
            d in
        let same : reported p₁.singbox ts ≡ reported p.singbox ts =
          ap (λ rows. reported rows ts) (singbox-run_push texts now answers target id t p)
          ∙ reported-push_one t p.singbox ts new in
        record {
          job' = rest.job';
          is_current = rest.is_current;
          same_id = rest.same_id ∙ step.same_id;
          added =
              rest.added
              ∙ ap (λ old. old ++ reported p₁.singbox ts) step.added
              ∙ append_assoc (summary job.nodes) _ (reported p₁.singbox ts)
              ∙ ap (λ new_ones. summary job.nodes ++ (reported p.singbox (t ∷ []) ++ new_ones))
                  same;
          tallied = rest.tallied;
        }
