-- ===== src/Store/Commands/Claims.antt =====
-- What one claim does to the commands that wait (internal/server/store/ops.go).
use text.Mathlib.TextEquality.{eq_iff}
use fobe.Prelude.{
  ℕ, suc, String, [], ◌∷◌, true, Option, none, some, if◌then◌else◌, ◌==◌, String-HasEq, ◌≡◌, ◌≤◌,
  refl, sym, arith, Bool-cases, inl, inr,
}
use fobe.Prelude.Table.{lookup, update, IsKeyed}
use fobe.Store.Commands.{Command, Db, waits_for, earlier, oldest_pending, claim}
use fobe.Store.Commands.Lifecycle.{oldest_pending-nil, oldest_pending-cases, oldest_pending-lookup}

-- How many commands wait for the node.
abbrev pub count_waiting : String → Db → ℕ
count_waiting node [] = 0
count_waiting node ((id, c) ∷ db) =
    if waits_for node c then suc (count_waiting node db) else count_waiting node db

update-absent :
    (id : String) (f : Command → Command) (db : Db)
    → lookup id db ≡ none
    → update (λ k _. k == id) f db ≡ db
unfolding lookup update
update-absent id f [] h = refl
update-absent id f ((j, c) ∷ db) h = ground (arith, update-absent id f db)

-- A claim takes exactly one command out of those that wait for its node, and none of another's.
pub count_waiting-claim :
    (now : ℕ) (node id : String) (c : Command) (db : Db)
    → IsKeyed db
    → oldest_pending node db ≡ some (id, c)
    → suc (count_waiting node (update (λ k _. k == id) (claim now) db)) ≡ count_waiting node db
unfolding update
count_waiting-claim now node id c [] d h = absurd (oldest_pending-nil node (id, c) h)
count_waiting-claim now node id c ((j, a) ∷ db) d h =
    elim (oldest_pending-cases node j a db (id, c) h) [
      | inl (e, w) ↦ ground (arith, eq_iff j id, update-absent j (claim now) db d.0)
      | inr e ↦ ground (
        arith,
        eq_iff j id,
        oldest_pending-lookup node db id c d.1 e,
        count_waiting-claim now node id c db d.1 e,
      )
    ]

pub oldest_pending-none :
    (node : String) (db : Db) → oldest_pending node db ≡ none → count_waiting node db ≡ 0
unfolding oldest_pending
oldest_pending-none node [] h = refl
oldest_pending-none node ((j, a) ∷ db) h = ground (arith, oldest_pending-none node db)

earlier-head :
    (x : String × Command) (r : Option (String × Command))
    → (earlier x r).1.created_at ≤ x.1.created_at
earlier-head x none = omega arith
earlier-head (i, c) (some (j, d)) = ground arith

earlier-some : (x y : String × Command) → (earlier x (some y)).1.created_at ≤ y.1.created_at
earlier-some (i, c) (j, d) = ground arith

-- A waiting row that no waiting row is older than.
abbrev pub NoneOlder : String → Db → Command → Type 0
NoneOlder node db a =
    (x : String × Command) × (oldest_pending node db ≡ some x) × (x.1.created_at ≤ a.created_at)

NoneOlder-cons :
    (node i : String) (c a : Command) (db : Db)
    → NoneOlder node db a
    → NoneOlder node ((i, c) ∷ db) a
unfolding oldest_pending
NoneOlder-cons node i c a db (x, e, h) =
    let k = earlier-some (i, c) x in
    let below : (earlier (i, c) (some x)).1.created_at ≤ a.created_at = omega arith in
    elim (Bool-cases (waits_for node c)) [
      | inl y ↦ rw (y, e) (earlier (i, c) (some x), refl, below)
      | inr y ↦ rw (y, e) (x, refl, h)
    ]

pub oldest_pending-NoneOlder :
    (node : String) (db : Db) (j : String) (a : Command)
    → lookup j db ≡ some a
    → waits_for node a ≡ true
    → NoneOlder node db a
unfolding oldest_pending lookup
oldest_pending-NoneOlder node [] j a h w = ground arith
oldest_pending-NoneOlder node ((i, c) ∷ db) j a h w = elim (Bool-cases (i == j)) [
  | inl y ↦
      let k : some c ≡ some a = rw y at h in
      let e : c ≡ a = cc in
      let v : waits_for node c ≡ true = rw e w in
      rw v (
        earlier (i, c) (oldest_pending node db),
        refl,
        rw (sym e) (earlier-head (i, c) (oldest_pending node db)),
      )
  | inr y ↦ NoneOlder-cons node i c a db (oldest_pending-NoneOlder node db j a (rw y at h) w)
]
