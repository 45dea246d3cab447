-- ===== src/Server/AgentUpdate/Calls.antt =====
-- The calls of the panel on the plans of its nodes (internal/server/agentupdate/agentupdate.go), and
-- what each makes of their rows.
use fobe.Prelude.{
  ℕ, String, List, [], ◌∷◌, true, false, ◌||◌, none, some, ◌≡◌, ◌⊎◌, arith, if◌then◌else◌, ◌==◌,
  String-HasEq, Bool-cases, Option-cases, inl, inr,
}
use fobe.Prelude.Table.{lookup, update}
use fobe.Store.Nodes.{Node, Rows, recorded, record_agent_update}
use fobe.Agent.SelfUpdate.{Report}
use fobe.Server.AgentUpdate.{
  Texts, Offer, Panel, is_on, status, close_plan, state_of, has_changed, offer_plan, target_of,
  on_report, retry, sweep, hello,
}

-- What the panel does for its nodes.
pub data Call : Type 0 where
  asks : Offer → ℕ → String → Call
  hellos : Offer → ℕ → String → String → Call
  reports : ℕ → String → Report → Call
  retries : String → Call
  sweeps : Offer → ℕ → Call

module _ (texts : Texts) where
  unfoldable pub step : Call → Panel → Panel
  step (asks o now id) p = record p { nodes = (target_of texts o now id p.nodes).1 }
  step (hellos o now id version) p = record p { nodes = hello texts o now id version p.nodes }
  step (reports now id r) p = on_report texts now id r p
  step (retries id) p = retry id p
  step (sweeps o now) p = sweep texts o now p

  unfoldable pub run : List Call → Panel → Panel
  run [] p = p
  run (c ∷ cs) p = run cs (step c p)

-- The answer by its four cases.
module _ (texts : Texts) (o : Offer) (now : ℕ) (id : String) (rows : Rows) where
  pub target_of-off : is_on (status texts o) ≡ false → target_of texts o now id rows ≡ (none, rows)
  unfolding target_of
  target_of-off h = ground arith

  pub target_of-none : lookup id rows ≡ none → target_of texts o now id rows ≡ (none, rows)
  unfolding target_of
  target_of-none h = ground arith

  pub target_of-closed :
      (n : Node)
      → is_on (status texts o) ≡ true
      → lookup id rows ≡ some n
      → (n.agent_version == o.server_version) ≡ true
      → target_of texts o now id rows ≡ (none, close_plan now id o.server_version n rows)
  unfolding target_of
  target_of-closed n h e v = ground arith

  pub target_of-offered :
      (n : Node)
      → is_on (status texts o) ≡ true
      → lookup id rows ≡ some n
      → (n.agent_version == o.server_version) ≡ false
      → target_of texts o now id rows ≡ offer_plan texts o now id o.server_version n rows
  unfolding target_of
  target_of-offered n h e v = ground arith

module _ (texts : Texts) where
  -- What a report writes into the row.
  abbrev pub told : ℕ → Report → Node → Node
  told now r =
      recorded r.target (state_of r) r.attempts (texts.truncate r.error 500)
        (if state_of r == "committed" then now else 0)

  pub on_report-nodes :
      (now : ℕ) (k : String) (r : Report) (p : Panel)
      → ((on_report texts now k r p).nodes ≡ p.nodes)
        ⊎ ((on_report texts now k r p).nodes ≡ update (λ j _. j == k) (told now r) p.nodes)
  unfolding on_report record_agent_update
  on_report-nodes now k r p = elim (Bool-cases ((r.target == "") || (r.phase == ""))) [
    | inl y ↦ ground arith
    | inr y ↦ elim (Option-cases (lookup k p.nodes)) [
      | inl e ↦ ground arith
      | inr (n, e) ↦ elim (Bool-cases (has_changed r n)) [
        | inl c ↦ ground arith
        | inr c ↦ ground arith
      ]
    ]
  ]

  pub sweep-nodes : (o : Offer) (now : ℕ) (p : Panel) → (sweep texts o now p).nodes ≡ p.nodes
  unfolding sweep
  sweep-nodes o now p = ground arith
