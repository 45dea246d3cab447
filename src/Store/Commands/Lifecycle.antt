-- ===== src/Store/Commands/Lifecycle.antt =====
-- The life of one command (internal/server/store/ops.go): the statuses move one way, and an
-- answer closes only a command of the probe that gives it.
use text.Mathlib.TextEquality.{eq_iff}
use fobe.Prelude.{
  ℕ, String, List, [], ◌∷◌, Bool, true, false, ◌&&◌, Option, none, some, leb, if◌then◌else◌, ◌==◌,
  String-HasEq, ◌≡◌, refl, sym, ap, ◌∙◌, ◌⊎◌, arith, beq→eq, Bool-cases, Option-cases, inl, inr,
}
use fobe.Prelude.Table.{lookup, change, IsKeyed, lookup-update, update-IsKeyed}
use fobe.Store.Commands.{
  Command, Db, Call, claims, finishes, expires, Status, pending, sent, ok, failed, timeout,
  is_unfinished, waits_for, earlier, oldest_pending, claim, next_pending_command, answers, finish,
  finish_command, is_stale, expire, timeout_stale_commands, step, run,
}

earlier-cases :
    (x : String × Command) (r : Option (String × Command))
    → (earlier x r ≡ x) ⊎ (r ≡ some (earlier x r))
earlier-cases x none = inl refl
earlier-cases (i, c) (some (j, d)) = elim (Bool-cases (leb c.created_at d.created_at)) [
  | inl y ↦ rw y (inl refl)
  | inr y ↦ rw y (inr refl)
]

pub oldest_pending-nil :
    (node : String) (x : String × Command) → oldest_pending node [] ≡ some x → ⊥
unfolding oldest_pending
oldest_pending-nil node x h = cc

pub oldest_pending-cases :
    (node j : String) (a : Command) (db : Db) (x : String × Command)
    → oldest_pending node ((j, a) ∷ db) ≡ some x
    → ((x ≡ (j, a)) × (waits_for node a ≡ true)) ⊎ (oldest_pending node db ≡ some x)
unfolding oldest_pending
oldest_pending-cases node j a db x h = elim (Bool-cases (waits_for node a)) [
  | inr y ↦ inr (rw y at h)
  | inl y ↦
      let k : some (earlier (j, a) (oldest_pending node db)) ≡ some x = rw y at h in
      let e : earlier (j, a) (oldest_pending node db) ≡ x = cc in
      elim (earlier-cases (j, a) (oldest_pending node db)) [
        | inl first ↦ inl (sym e ∙ first, y)
        | inr later ↦ inr (later ∙ ap some e)
      ]
]

-- A candidate is a row of the table that waits for the node.
pub oldest_pending-lookup :
    (node : String) (db : Db) (id : String) (c : Command)
    → IsKeyed db
    → oldest_pending node db ≡ some (id, c)
    → (lookup id db ≡ some c) × (waits_for node c ≡ true)
unfolding lookup
oldest_pending-lookup node [] id c d h = absurd (oldest_pending-nil node (id, c) h)
oldest_pending-lookup node ((j, a) ∷ db) id c d h =
    elim (oldest_pending-cases node j a db (id, c) h) [
      | inl (e, w) ↦ ground (arith, eq_iff j j)
      | inr e ↦
          let (found, w) = oldest_pending-lookup node db id c d.1 e in ground (arith, eq_iff j id)
    ]

-- A status that a command may have later.
abbrev pub may_become : Status → Status → Bool
may_become pending t = true
may_become sent pending = false
may_become sent t = true
may_become ok ok = true
may_become ok t = false
may_become failed failed = true
may_become failed t = false
may_become timeout timeout = true
may_become timeout t = false

-- What a command keeps for life, and how its status has moved.
pub record Follows (c d : Command) : Type 0 where
  pub status : may_become c.status d.status ≡ true
  pub node : d.node ≡ c.node
  pub kind : d.kind ≡ c.kind
  pub payload : d.payload ≡ c.payload
  pub created_at : d.created_at ≡ c.created_at

may_become_trans :
    (s t u : Status) → may_become s t ≡ true → may_become t u ≡ true → may_become s u ≡ true
may_become_trans pending t u h k = refl
may_become_trans sent t u h k = ground arith
may_become_trans ok t u h k = ground arith
may_become_trans failed t u h k = ground arith
may_become_trans timeout t u h k = ground arith

Follows-refl : (c : Command) → Follows c c
Follows-refl c = ground arith

Follows-trans : (c d e : Command) → Follows c d → Follows d e → Follows c e
Follows-trans c d e h k = record {
  status = may_become_trans c.status d.status e.status h.status k.status;
  node = k.node ∙ h.node;
  kind = k.kind ∙ h.kind;
  payload = k.payload ∙ h.payload;
  created_at = k.created_at ∙ h.created_at;
}

-- What one call makes of a row.
abbrev After : Command → Option Command → Type 0
After c r = (d : Command) × (r ≡ some d) × Follows c d × ((is_unfinished c.status ≡ true) ⊎ (d ≡ c))

claim-Follows :
    (node : String) (now : ℕ) (c : Command)
    → waits_for node c ≡ true
    → (is_unfinished c.status ≡ true) × Follows c (claim now c)
claim-Follows node now c h = ground arith

finish-Follows :
    (now : ℕ) (good : Bool) (result node j id : String) (c : Command)
    → answers node j id c ≡ true
    → (is_unfinished c.status ≡ true)
      × Follows c (finish now (if good then ok else failed) result c)
finish-Follows now good result node j id c h = ground arith

expire-Follows :
    (now : ℕ) (c : Command)
    → is_stale now c ≡ true
    → (is_unfinished c.status ≡ true) × Follows c (expire now c)
expire-Follows now c h = ground arith

After-change :
    (p : Command → Bool) (f : Command → Command) (c : Command)
    → (p c ≡ true → (is_unfinished c.status ≡ true) × Follows c (f c))
    → After c (change p f (some c))
After-change p f c h = elim (Bool-cases (p c)) [
  | inl y ↦ rw y (f c, refl, (h y).1, inl (h y).0)
  | inr y ↦ rw y (c, refl, Follows-refl c, inr refl)
]

same-claim :
    (node : String) (now : ℕ) (id j : String) (a c : Command) (db : Db)
    → (id == j) ≡ true
    → lookup j db ≡ some a
    → waits_for node a ≡ true
    → lookup id db ≡ some c
    → (is_unfinished c.status ≡ true) × Follows c (claim now c)
same-claim node now id j a c db y found waits h =
    let e : a ≡ c = cc (beq→eq id j y) in claim-Follows node now c (rw e at waits)

lookup-claims :
    (now : ℕ) (node id : String) (c : Command) (db : Db)
    → IsKeyed db
    → lookup id db ≡ some c
    → After c (lookup id (step now (claims node) db))
unfolding step next_pending_command
lookup-claims now node id c db d h = elim (Option-cases (oldest_pending node db)) [
  | inl e ↦ rw (e, step, next_pending_command) (c, h, Follows-refl c, inr refl)
  | inr ((j, a), e) ↦
      rw (e, step, next_pending_command, lookup-update, h)
        (After-change (λ v. id == j) (claim now) c
          (λ y.
            let (found, waits) = oldest_pending-lookup node db j a d e in
            same-claim node now id j a c db y found waits h))
]

unchanged :
    (c d : Command)
    → is_unfinished c.status ≡ false
    → ((is_unfinished c.status ≡ true) ⊎ (d ≡ c))
    → d ≡ c
unchanged c d u (inl y) = cc
unchanged c d u (inr e) = e

step-After :
    (now : ℕ) (k : Call) (id : String) (c : Command) (db : Db)
    → IsKeyed db
    → lookup id db ≡ some c
    → After c (lookup id (step now k db))
unfolding step finish_command timeout_stale_commands
step-After now (claims node) id c db d h = lookup-claims now node id c db d h
step-After now (finishes node j good result) id c db d h =
    rw (lookup-update, h)
      (After-change (answers node j id) (finish now (if good then ok else failed) result) c
        (finish-Follows now good result node j id c))
step-After now expires id c db d h =
    rw (lookup-update, h) (After-change (is_stale now) (expire now) c (expire-Follows now c))

pub step-IsKeyed : (now : ℕ) (k : Call) (db : Db) → IsKeyed db → IsKeyed (step now k db)
unfolding step next_pending_command finish_command timeout_stale_commands
step-IsKeyed now (claims node) db d = elim (Option-cases (oldest_pending node db)) [
  | inl e ↦ rw (e, step, next_pending_command) d
  | inr (x, e) ↦ rw (e, step, next_pending_command) (update-IsKeyed _ _ db d)
]
step-IsKeyed now (finishes node id good result) db d = update-IsKeyed _ _ db d
step-IsKeyed now expires db d = update-IsKeyed _ _ db d

-- In a table whose keys stand once, through any history of claims, answers and expiries a
-- command never leaves the table, keeps its node, kind, payload and creation time, and its
-- status never moves back: from `pending` to any, from `sent` to any but `pending`, from a final
-- one nowhere.
pub run-Follows :
    (cs : List (ℕ × Call)) (id : String) (c : Command) (db : Db)
    → IsKeyed db
    → lookup id db ≡ some c
    → (d : Command) × (lookup id (run cs db) ≡ some d) × Follows c d
unfolding run
run-Follows [] id c db k h = (c, h, Follows-refl c)
run-Follows ((now, call) ∷ cs) id c db k h =
    let (d, found, f, _) = step-After now call id c db k h in
    let (e, last, g) = run-Follows cs id d (step now call db) (step-IsKeyed now call db k) found in
    (e, last, Follows-trans c d e f g)

-- In a table whose keys stand once, a finished command is never touched again: no answer, claim
-- or expiry changes its row.
pub run-finished :
    (cs : List (ℕ × Call)) (id : String) (c : Command) (db : Db)
    → IsKeyed db
    → lookup id db ≡ some c
    → is_unfinished c.status ≡ false
    → lookup id (run cs db) ≡ some c
unfolding run
run-finished [] id c db k h u = h
run-finished ((now, call) ∷ cs) id c db k h u =
    let (d, found, f, same) = step-After now call id c db k h in
    let e : d ≡ c = unchanged c d u same in
    run-finished cs id c (step now call db) (step-IsKeyed now call db k) (found ∙ ap some e) u

-- An answer reports a match exactly if the command is known, unfinished and of the answering
-- probe, and then changes that row alone; any other answer changes nothing.
finish_command_lem :
    (now : ℕ) (node id : String) (status : Status) (result : String) (j : String) (db : Db)
    → ((finish_command now node id status result db).0 ≡ elim (lookup id db) [
      | none ↦ false
      | some c ↦ (c.node == node) && is_unfinished c.status
    ])
      × (lookup j (finish_command now node id status result db).1 ≡ elim (lookup j db) [
        | none ↦ none
        | some c ↦ some (
            if (j == id) && ((c.node == node) && is_unfinished c.status)
            then finish now status result c
            else c)
      ])
unfolding finish_command
finish_command_lem now node id status result j db = (
  ground (arith, eq_iff id id),
  ground (arith, lookup-update (answers node id) (finish now status result) j db),
)
