-- ===== src/Store/Alerts/Queue.antt =====
-- The delivery queue over the table `alerts` (internal/server/store/ops.go): an alert is in it
-- until it is delivered, and comes back to it once, when it recovers.
use text.Mathlib.TextEquality.{eq_iff}
use fobe.Prelude.{
  ℕ, suc, ◌≤◌, ◌<◌, String, List, [], ◌∷◌, ◌++◌, Bool, true, false, ◌&&◌, ◌||◌, Option, none, some,
  first_of?, any_of, keep, if◌then◌else◌, ◌==◌, ℕ-HasEq, String-HasEq, ◌≡◌, refl, ◌∙◌, arith, map,
}
use fobe.Prelude.Table.{change}
use fobe.Store.Alerts.{
  Alert, Db, Call, creates, delivers, recovers, is_null, is_open, insert, create_alert,
  mark_delivered, recover_alert, open_alert, oldest_first, undelivered, step, run,
}

abbrev pub find : ℕ → List Alert → Option Alert
find id = first_of? (λ a. a.id == id)

-- Whether the delivery loop sees the alert.
unfoldable pub is_queued : ℕ → Db → Bool
unfolding undelivered
is_queued id db = any_of (λ a. a.id == id) (undelivered db)

-- Ids fall along the rows and stay under the bound.
abbrev pub Below : ℕ → List Alert → Type 0
Below bound [] = Unit
Below bound (a ∷ rest) = (a.id < bound) × Below a.id rest

abbrev pub IsNumbered : Db → Type 0
IsNumbered db = Below (suc db.last_id) db.rows

find_above :
    (bound id : ℕ) (rows : List Alert) → Below bound rows → bound ≤ id → find id rows ≡ none
find_above bound id [] b h = refl
find_above bound id (a ∷ rest) b h = ground (arith, find_above a.id id rest b.1)

any_of-append :
    (p : Alert → Bool) (xs ys : List Alert) → any_of p (xs ++ ys) ≡ (any_of p xs || any_of p ys)
any_of-append p [] ys = refl
any_of-append p (x ∷ xs) ys = ground (arith, any_of-append p xs ys)

any_of-oldest_first :
    (p : Alert → Bool) (xs : List Alert) → any_of p (oldest_first xs) ≡ any_of p xs
any_of-oldest_first p [] = refl
any_of-oldest_first p (x ∷ xs) =
    ground (arith, any_of-append p (oldest_first xs) (x ∷ []), any_of-oldest_first p xs)

abbrev waits : Option Alert → Bool
waits none = false
waits (some a) = is_null a.delivered_at

any_of-keep :
    (bound id : ℕ) (rows : List Alert)
    → Below bound rows
    → any_of (λ a. a.id == id) (keep (λ a. is_null a.delivered_at) rows) ≡ waits (find id rows)
any_of-keep bound id [] b = refl
any_of-keep bound id (a ∷ rest) b =
    ground (arith, any_of-keep a.id id rest b.1, find_above a.id id rest b.1)

-- With the ids in order, the queue holds an alert exactly if its row has no delivery time.
is_queued-waits : (id : ℕ) (db : Db) → IsNumbered db → is_queued id db ≡ waits (find id db.rows)
unfolding is_queued
is_queued-waits id db n = any_of-oldest_first _ (keep _ db.rows) ∙ any_of-keep _ id db.rows n

-- A pass over the rows that keeps their ids.
find-map :
    (id : ℕ) (p : Alert → Bool) (f : Alert → Alert) (rows : List Alert)
    → ((a : Alert) → (f a).id ≡ a.id)
    → find id (map (λ a. if p a then f a else a) rows) ≡ change p f (find id rows)
find-map id p f [] h = refl
find-map id p f (a ∷ rest) h = ground (arith, h a, find-map id p f rest h)

map-Below :
    (bound : ℕ) (p : Alert → Bool) (f : Alert → Alert) (rows : List Alert)
    → ((a : Alert) → (f a).id ≡ a.id)
    → Below bound rows
    → Below bound (map (λ a. if p a then f a else a) rows)
map-Below bound p f [] h b = tt
map-Below bound p f (a ∷ rest) h b = ground (arith, h a, map-Below a.id p f rest h b.1)

abbrev deliver_row : ℕ → Alert → Alert
deliver_row now a = record a { delivered_at = some now }

abbrev recover_row : ℕ → Alert → Alert
recover_row now a = record a { delivered_at = none; recovered_at = some now }

find-mark_delivered :
    (now id j : ℕ) (db : Db)
    → find j (mark_delivered now id db).rows
      ≡ change (λ a. a.id == id) (deliver_row now) (find j db.rows)
unfolding mark_delivered
find-mark_delivered now id j db = find-map j (λ a. a.id == id) (deliver_row now) db.rows (λ a. refl)

find-recover_alert :
    (now : ℕ) (kind node : String) (j : ℕ) (db : Db)
    → find j (recover_alert now kind node db).rows
      ≡ change (is_open kind node) (recover_row now) (find j db.rows)
unfolding recover_alert
find-recover_alert now kind node j db =
    find-map j (is_open kind node) (recover_row now) db.rows (λ a. refl)

recover_alert-IsNumbered :
    (now : ℕ) (kind node : String) (db : Db)
    → IsNumbered db
    → IsNumbered (recover_alert now kind node db)
unfolding recover_alert
recover_alert-IsNumbered now kind node db n = map-Below _ _ (recover_row now) db.rows (λ a. refl) n

mark_delivered-IsNumbered :
    (now id : ℕ) (db : Db) → IsNumbered db → IsNumbered (mark_delivered now id db)
unfolding mark_delivered
mark_delivered-IsNumbered now id db n = map-Below _ _ (deliver_row now) db.rows (λ a. refl) n

step-IsNumbered : (now : ℕ) (c : Call) (db : Db) → IsNumbered db → IsNumbered (step now c db)
unfolding step create_alert insert mark_delivered recover_alert
step-IsNumbered now (creates kind node payload window) db n = ground arith
step-IsNumbered now (delivers id) db n = mark_delivered-IsNumbered now id db n
step-IsNumbered now (recovers kind node) db n = recover_alert-IsNumbered now kind node db n

find-id : (id : ℕ) (rows : List Alert) (a : Alert) → find id rows ≡ some a → a.id ≡ id
find-id id [] a h = ground arith
find-id id (b ∷ rest) a h = ground (arith, find-id id rest a)

-- The row of an alert that has recovered and whose recovery was delivered.
abbrev IsDone : Option Alert → Type 0
IsDone r =
    (a : Alert) × (r ≡ some a) × (is_null a.delivered_at ≡ false) × (is_null a.recovered_at ≡ false)

create_alert-IsDone :
    (now : ℕ) (kind node payload : String) (window id : ℕ) (db : Db)
    → IsNumbered db
    → IsDone (find id db.rows)
    → IsDone (find id (create_alert now kind node payload window db).2.rows)
unfolding create_alert insert
create_alert-IsDone now kind node payload window id db n h =
    ground (arith, find_above (suc db.last_id) id db.rows n)

step-IsDone :
    (now : ℕ) (c : Call) (id : ℕ) (db : Db)
    → IsNumbered db
    → IsDone (find id db.rows)
    → IsDone (find id (step now c db).rows)
unfolding step
step-IsDone now (creates kind node payload window) id db n h =
    create_alert-IsDone now kind node payload window id db n h
step-IsDone now (delivers j) id db n h = ground (arith, find-mark_delivered now j id db)
step-IsDone now (recovers kind node) id db n h =
    ground (arith, find-recover_alert now kind node id db)

run-IsDone :
    (cs : List (ℕ × Call)) (id : ℕ) (db : Db)
    → IsNumbered db
    → IsDone (find id db.rows)
    → IsNumbered (run cs db) × IsDone (find id (run cs db).rows)
unfolding run
run-IsDone [] id db n h = (n, h)
run-IsDone ((now, c) ∷ cs) id db n h =
    run-IsDone cs id (step now c db) (step-IsNumbered now c db n) (step-IsDone now c id db n h)

-- In a table whose ids fall along the rows from the last given one, an open alert that recovers
-- is in the delivery queue, delivered before or not; once that recovery is delivered, no later
-- call puts it back.
pub is_queued-recover_alert :
    (now t id : ℕ) (kind node : String) (cs : List (ℕ × Call)) (db : Db) (a : Alert)
    → IsNumbered db
    → find id db.rows ≡ some a
    → is_open kind node a ≡ true
    → (is_queued id (recover_alert now kind node db) ≡ true)
      × (is_queued id (run cs (mark_delivered t id (recover_alert now kind node db))) ≡ false)
is_queued-recover_alert now t id kind node cs db a n f o =
    let db₁ = recover_alert now kind node db in
    let db₂ = mark_delivered t id db₁ in
    let n₁ : IsNumbered db₁ = recover_alert-IsNumbered now kind node db n in
    let n₂ : IsNumbered db₂ = mark_delivered-IsNumbered t id db₁ n₁ in
    let done : IsDone (find id db₂.rows) = (
      deliver_row t (recover_row now a),
      ground (
        arith,
        find-recover_alert now kind node id db,
        find-mark_delivered t id id db₁,
        find-id id db.rows a f,
      ),
      refl,
      refl,
    ) in
    let (n₃, (b, e, d, r)) = run-IsDone cs id db₂ n₂ done in
    (
      ground (arith, is_queued-waits id db₁ n₁, find-recover_alert now kind node id db),
      ground (arith, is_queued-waits id (run cs db₂) n₃),
    )

-- A recovery closes every open alert of its kind and node, and the newest open alert of any
-- other kind or node stays what it was.
pub open_alert-recover_alert :
    (now : ℕ) (kind node k n : String) (db : Db)
    → open_alert k n (recover_alert now kind node db)
      ≡ (if (kind == k) && (node == n) then none else open_alert k n db)
unfolding open_alert recover_alert
open_alert-recover_alert now kind node k n db = go db.rows
  where
    go :
        (rows : List Alert)
        → first_of?
            (is_open k n)
            (map (λ a. if is_open kind node a then recover_row now a else a) rows)
          ≡ (if (kind == k) && (node == n) then none else first_of? (is_open k n) rows)
    go [] = ground arith
    go (a ∷ rest) = ground (
      arith,
      eq_iff kind k,
      eq_iff node n,
      eq_iff a.kind k,
      eq_iff a.node n,
      eq_iff a.kind kind,
      eq_iff a.node node,
      go rest,
    )
