-- ===== src/Server/AgentUpdate/Plan.antt =====
-- The plan of a node (internal/server/agentupdate/agentupdate.go): once it is anchored, the same
-- build and the same time are handed out at every handshake.
use fobe.Prelude.{
  ℕ, ◌+◌, ◌<◌, String, List, [], ◌∷◌, true, false, not, ◌&&◌, none, some, All, ◌≡◌, refl, sym, ap,
  ◌∙◌, arith, if◌then◌else◌, ◌==◌, String-HasEq, Bool-cases, Option-cases, inl, inr,
}
use fobe.Prelude.Table.{lookup, lookup-update}
use text.Mathlib.TextEquality.{eq_iff}
use fobe.Store.Nodes.{
  Node, Rows, planned, recorded, cleared, reports_version, set_agent_update_planned,
  clear_agent_update, set_agent_version,
}
use fobe.Agent.SelfUpdate.{Report}
use fobe.Server.AgentUpdate.{
  Texts, Offer, Panel, is_on, status, stagger_offset, close_plan, is_unplanned, anchor_of,
  offer_plan, target_of, on_report, retry, hello,
}
use fobe.Server.AgentUpdate.Calls.{
  Call, asks, hellos, reports, retries, sweeps, step, run, target_of-off, target_of-none,
  target_of-closed, target_of-offered, told, on_report-nodes, sweep-nodes,
}
use fobe.Server.AgentUpdate.NodeRow.{Holds, own_row, update-Holds, if-Holds, close_plan-Holds}

module _ (id t : String) (anchor : ℕ) where
  -- The row of a node that has a plan for the target and does not run it yet.
  abbrev pub Waits : Node → Type 0
  Waits n =
      ((n.agent_version == t) ≡ false)
      × (n.agent_target_version ≡ t)
      × (n.agent_update_planned_at ≡ anchor)

  abbrev pub IsAnchored : Rows → Type 0
  IsAnchored = Holds id Waits

  pub close_plan-IsAnchored :
      (now : ℕ) (k : String) (m : Node) (rows : Rows)
      → lookup k rows ≡ some m
      → (m.agent_version == t) ≡ true
      → IsAnchored rows
      → IsAnchored (close_plan now k t m rows)
  close_plan-IsAnchored now k m rows g v (n, e, w) =
      let apart : (f : Node → Node) → k ≡ id → (x : Node) → Waits x → Waits (f x) = λ f c x y.
        let s = own_row id k rows n m c e g in
        absurd (
          let z : (n.agent_version == t) ≡ true =
            sym (ap (λ (q : Node). q.agent_version == t) s) ∙ v in
          ground (arith, z, w.0)) in
      close_plan-Holds id Waits now k t m rows (apart (planned t 0))
        (apart (recorded t "committed" m.agent_update_attempts "" now)) (n, e, w)

module _ (id t : String) where
  -- A step that leaves the plan of the node alone: it runs another build, offers and reports are
  -- of the same target, and the operator does not retry.
  abbrev pub Spares : Call → Type 0
  Spares (asks o now k) = o.server_version ≡ t
  Spares (hellos o now k version) = (o.server_version ≡ t) × (((k == id) && (version == t)) ≡ false)
  Spares (reports now k r) = ((k == id) && not (r.target == t)) ≡ false
  Spares (retries k) = (k == id) ≡ false
  Spares (sweeps o now) = Unit

module _ (texts : Texts) (id t : String) (anchor : ℕ) where
  pub offer_plan-IsAnchored :
      (o : Offer) (now : ℕ) (k : String) (m : Node) (rows : Rows)
      → 0 < anchor
      → lookup k rows ≡ some m
      → IsAnchored id t anchor rows
      → IsAnchored id t anchor (offer_plan texts o now k t m rows).1
  unfolding set_agent_update_planned
  offer_plan-IsAnchored o now k m rows pos g (n, e, w) =
      if-Holds id (Waits id t anchor) (is_unplanned t m) (set_agent_update_planned k t now rows)
        rows
        (λ u.
          update-Holds id (Waits id t anchor) k (planned t now) rows
            (λ c x y.
              let s = own_row id k rows n m c e g in
              let z : is_unplanned t n ≡ true = sym (ap (is_unplanned t) s) ∙ u in
              absurd (ground (arith, z, eq_iff n.agent_target_version t, w.1, w.2)))
            (n, e, w))
        (λ _. (n, e, w))

  pub target_of-IsAnchored :
      (o : Offer) (now : ℕ) (k : String) (rows : Rows)
      → 0 < anchor
      → o.server_version ≡ t
      → IsAnchored id t anchor rows
      → IsAnchored id t anchor (target_of texts o now k rows).1
  target_of-IsAnchored o now k rows pos same a = elim (Bool-cases (is_on (status texts o))) [
    | inr off ↦ rw (target_of-off texts o now k rows off) a
    | inl y ↦ elim (Option-cases (lookup k rows)) [
      | inl absent ↦ rw (target_of-none texts o now k rows absent) a
      | inr (m, g) ↦ elim (Bool-cases (m.agent_version == o.server_version)) [
        | inl v ↦
            rw (target_of-closed texts o now k rows m y g v, same)
              (close_plan-IsAnchored id t anchor now k m rows g (rw same at v) a)
        | inr v ↦
            rw (target_of-offered texts o now k rows m y g v, same)
              (offer_plan-IsAnchored o now k m rows pos g a)
      ]
    ]
  ]

  pub on_report-IsAnchored :
      (now : ℕ) (k : String) (r : Report) (p : Panel)
      → ((k == id) && not (r.target == t)) ≡ false
      → IsAnchored id t anchor p.nodes
      → IsAnchored id t anchor (on_report texts now k r p).nodes
  on_report-IsAnchored now k r p h a = elim (on_report-nodes texts now k r p) [
    | inl e ↦ rw e a
    | inr e ↦ rw e (
        update-Holds id (Waits id t anchor) k (told texts now r) p.nodes
          (λ c n w. (w.0, ground (arith, eq_iff k id, eq_iff r.target t, h, c, w.1), w.2)) a)
  ]

  pub step-IsAnchored :
      (c : Call) (p : Panel)
      → 0 < anchor
      → Spares id t c
      → IsAnchored id t anchor p.nodes
      → IsAnchored id t anchor (step texts c p).nodes
  unfolding step hello retry set_agent_version clear_agent_update
  step-IsAnchored (asks o now k) p pos s a = target_of-IsAnchored o now k p.nodes pos s a
  step-IsAnchored (hellos o now k version) p pos s a = target_of-IsAnchored o now k _ pos s.0 (
      update-Holds id (Waits id t anchor) k (reports_version version) p.nodes
        (λ c n w. (ground (arith, eq_iff k id, s.1), w.1, w.2)) a)
  step-IsAnchored (reports now k r) p pos s a = on_report-IsAnchored now k r p s a
  step-IsAnchored (retries k) p pos s a =
      update-Holds id (Waits id t anchor) k cleared p.nodes
        (λ c n w. absurd (ground (arith, eq_iff k id, s, c))) a
  step-IsAnchored (sweeps o now) p pos s a = rw (sweep-nodes texts o now p) a

  run-IsAnchored :
      (cs : List Call) (p : Panel)
      → 0 < anchor
      → All (Spares id t) cs
      → IsAnchored id t anchor p.nodes
      → IsAnchored id t anchor (run texts cs p).nodes
  unfolding run
  run-IsAnchored [] p pos s a = a
  run-IsAnchored (c ∷ cs) p pos s a =
      run-IsAnchored cs (step texts c p) pos s.1 (step-IsAnchored c p pos s.0 a)

  -- What an anchored node is told.
  pub target_of-anchored :
      (o : Offer) (now : ℕ) (rows : Rows)
      → 0 < anchor
      → o.server_version ≡ t
      → IsAnchored id t anchor rows
      → (target_of texts o now id rows).0
        ≡ (if is_on (status texts o) then some (t, anchor + stagger_offset texts o id t) else none)
  target_of-anchored o now rows pos same (n, e, w) = elim (Bool-cases (is_on (status texts o))) [
    | inr off ↦ ground (arith, target_of-off texts o now id rows off)
    | inl y ↦
        let v : (n.agent_version == o.server_version) ≡ false = rw same w.0 in
        let planned : is_unplanned o.server_version n ≡ false =
          ground (arith, w.1, w.2, same, eq_iff n.agent_target_version o.server_version) in
        let answer : (target_of texts o now id rows).0
            ≡ some (o.server_version, anchor + stagger_offset texts o id o.server_version) =
          rw (target_of-offered texts o now id rows n y e v, planned, w.2) refl in
        rw y (rw (← same) answer)
  ]

module _ (texts : Texts) (o : Offer) (now : ℕ) (id : String) (n : Node) where
  pub first-pos : 0 < now → 0 < anchor_of now o.server_version n
  first-pos pos = ground arith

  -- The first offer anchors the plan, or finds it anchored.
  pub first-IsAnchored :
      (rows : Rows)
      → is_on (status texts o) ≡ true
      → lookup id rows ≡ some n
      → (n.agent_version == o.server_version) ≡ false
      → ((target_of texts o now id rows).0
          ≡ some (
            o.server_version,
            anchor_of now o.server_version n + stagger_offset texts o id o.server_version,
          ))
        × IsAnchored id o.server_version
            (anchor_of now o.server_version n)
            (target_of texts o now id rows).1
  unfolding set_agent_update_planned
  first-IsAnchored rows on' e v = rw (target_of-offered texts o now id rows n on' e v) (
    refl,
    elim (Bool-cases (is_unplanned o.server_version n)) [
      | inl y ↦ rw y (
        planned o.server_version now n,
        ground (
          arith,
          lookup-update (λ j _. j == id) (planned o.server_version now) id rows,
          eq_iff id id,
          e,
        ),
        (v, refl, refl),
      )
      | inr y ↦
          rw y (n, e, (v, ground (arith, y, eq_iff n.agent_target_version o.server_version), refl))
    ],
  )

stagger_offset-stagger :
    (texts : Texts) (o o' : Offer) (id t : String)
    → o'.stagger ≡ o.stagger
    → stagger_offset texts o id t ≡ stagger_offset texts o' id t
unfolding stagger_offset
stagger_offset-stagger texts o o' id t e = rw e refl

-- Let a build be offered to a node of the table that reports another one, at a time above zero.
-- After any further calls of the panel for any nodes, under settings with the same version, in
-- which this node is not retried, says in no hello that it runs that build and reports on no
-- other target: a later question, under settings with the same version and stagger, has the very
-- same answer, target and second, if a build is offered then, and no answer if not.
pub target_of-run :
    (texts : Texts) (o o' : Offer) (now now' : ℕ) (id : String) (n : Node) (cs : List Call)
    (p : Panel)
    → is_on (status texts o) ≡ true
    → o'.server_version ≡ o.server_version
    → o'.stagger ≡ o.stagger
    → 0 < now
    → lookup id p.nodes ≡ some n
    → (n.agent_version == o.server_version) ≡ false
    → All (Spares id o.server_version) cs
    → (target_of texts o' now' id (run texts cs (step texts (asks o now id) p)).nodes).0
      ≡ (if is_on (status texts o') then (target_of texts o now id p.nodes).0 else none)
unfolding step
target_of-run texts o o' now now' id n cs p on' same span pos e v s =
    let t = o.server_version in
    let anchor = anchor_of now t n in
    let later : 0 < anchor = first-pos texts o now id n pos in
    let (first, kept) = first-IsAnchored texts o now id n p.nodes on' e v in
    let told =
      target_of-anchored texts id t anchor o' now'
        (run texts cs (step texts (asks o now id) p)).nodes later same
        (run-IsAnchored texts id t anchor cs (step texts (asks o now id) p) later s kept) in
    let plan : (target_of texts o now id p.nodes).0
        ≡ some (t, anchor + stagger_offset texts o' id t) =
      first ∙ ap (λ m. some (t, anchor + m)) (stagger_offset-stagger texts o o' id t span) in
    told ∙ ap (λ m. if is_on (status texts o') then m else none) (sym plan)
