-- ===== src/Hub/Drain/Whole.antt =====
-- What a drain hands out (`drainCommandQueue` of internal/server/hub/hub.go) to a connection whose
-- writer takes nothing out of the send queue meanwhile.
use mathlib.Core.List.{Memᴰ}
use fobe.Prelude.{
  ℕ, zero, suc, ◌≤◌, String, List, [], ◌∷◌, ◌++◌, true, none, some, All, map, take, ltb, length,
  ◌<◌, ◌==◌, String-HasEq, ◌≡◌, refl, sym, ap, ◌∙◌, arith, Option-cases, Bool-cases, inl, inr,
  length-append, beq→eq,
}
use fobe.Prelude.Table.{lookup, change, lookup-update, IsKeyed, update, update-IsKeyed}
use fobe.Store.Commands.{Command, Db, sent, waits_for, claim, oldest_pending, next_pending_command}
use fobe.Store.Commands.Lifecycle.{oldest_pending-lookup}
use fobe.Store.Commands.Claims.{
  count_waiting, count_waiting-claim, oldest_pending-none, oldest_pending-NoneOlder,
}
use fobe.Hub.Drain.{Frame, cmd, Queue, capacity, send_envelope, drain_rounds, drain_command_queue}

-- The columns of a command that a probe has been given.
abbrev pub handed : ℕ → Command → Command
handed now c = record {
  node = c.node;
  kind = c.kind;
  payload = c.payload;
  status = sent;
  created_at = c.created_at;
  sent_at = some now;
  finished_at = c.finished_at;
  result = c.result;
  ttl_seconds = c.ttl_seconds;
  about = c.about;
}

-- The oldest first.
abbrev pub InOrder : List (String × Command) → Type 0
InOrder [] = Unit
InOrder (x ∷ xs) = All (λ y. x.1.created_at ≤ y.1.created_at) xs × InOrder xs

-- The commands that a drain hands out, and the table that it leaves.
pub record Drained (now : ℕ) (node : String) (db : Db) (given : List (String × Command)) (db' : Db)
    : Type 0 where
  pub rows : (j : String) → lookup j db' ≡ change (waits_for node) (handed now) (lookup j db)
  pub every :
      (j : String) (a : Command)
      → lookup j db ≡ some a
      → waits_for node a ≡ true
      → Memᴰ (j, a) given
  pub only : All (λ x. (lookup x.0 db ≡ some x.1) × (waits_for node x.1 ≡ true)) given
  pub count : length given ≡ count_waiting node db
  pub order : InOrder given

All-map :
    {A : Type 0} {P Q : A → Type 0} → ((x : A) → P x → Q x) → (xs : List A) → All P xs → All Q xs
All-map f [] l = tt
All-map f (x ∷ xs) (p, l) = (f x p, All-map f xs l)

module _ (now : ℕ) (node : String) where
  not_waiting :
      (db : Db) (j : String)
      → oldest_pending node db ≡ none
      → lookup j db ≡ change (waits_for node) (handed now) (lookup j db)
  not_waiting db j h = elim (Option-cases (lookup j db)) [
    | inl e ↦ rw e refl
    | inr (a, e) ↦ elim (Bool-cases (waits_for node a)) [
      | inr w ↦ rw e (rw w refl)
      | inl w ↦ absurd (let (x, found, below) = oldest_pending-NoneOlder node db j a e w in cc)
    ]
  ]

  no_claim : (db : Db) → oldest_pending node db ≡ none → Drained now node db [] db
  no_claim db h = record {
    rows = λ j. not_waiting db j h;
    every =
        λ j a e w. absurd (let (x, found, below) = oldest_pending-NoneOlder node db j a e w in cc);
    only = tt;
    count = sym (oldest_pending-none node db h);
    order = tt;
  }

  module _ (db : Db) (id : String) (c : Command) (keyed : IsKeyed db)
      (oldest : oldest_pending node db ≡ some (id, c)) where
    abbrev rest : Db
    rest = update (λ k _. k == id) (claim now) db

    lookup-rest :
        (j : String) → lookup j rest ≡ change (λ (_ : Command). j == id) (claim now) (lookup j db)
    lookup-rest j = lookup-update (λ k _. k == id) (claim now) j db

    -- A command that waits after the claim waited before it.
    still_waiting :
        (j : String) (a : Command)
        → lookup j rest ≡ some a
        → waits_for node a ≡ true
        → lookup j db ≡ some a
    still_waiting j a e w = elim (Bool-cases (j == id)) [
      | inr y ↦ elim (Option-cases (lookup j db)) [
        | inl z ↦ let k = lookup-rest j in ground (arith, y, z, k, e)
        | inr (b, z) ↦ let k = lookup-rest j in ground (arith, y, z, k, e)
      ]
      | inl y ↦ elim (Option-cases (lookup j db)) [
        | inl z ↦ let k = lookup-rest j in ground (arith, y, z, k, e)
        | inr (b, z) ↦ let k = lookup-rest j in ground (arith, y, z, k, e)
      ]
    ]

    rows-rest :
        (j : String)
        → lookup id db ≡ some c
        → waits_for node c ≡ true
        → change
            (waits_for node)
            (handed now)
            (change (λ (_ : Command). j == id) (claim now) (lookup j db))
          ≡ change (waits_for node) (handed now) (lookup j db)
    rows-rest j found waiting = elim (Bool-cases (j == id)) [
      | inl y ↦
          let e : lookup j db ≡ some c = ap (λ k. lookup k db) (beq→eq j id y) ∙ found in
          rw e (rw y (ground (arith, waiting)))
      | inr y ↦ elim (Option-cases (lookup j db)) [
        | inl z ↦ rw z refl
        | inr (b, z) ↦ rw z (rw y refl)
      ]
    ]

    every-rest :
        (given : List (String × Command))
        → ((j : String) (a : Command)
            → lookup j rest ≡ some a
            → waits_for node a ≡ true
            → Memᴰ (j, a) given)
        → lookup id db ≡ some c
        → (j : String) (a : Command) → lookup j db ≡ some a
        → waits_for node a ≡ true
        → Memᴰ (j, a) ((id, c) ∷ given)
    every-rest given others found j a e w = elim (Bool-cases (j == id)) [
      | inl y ↦
          let same : some a ≡ some c = sym e ∙ ap (λ k. lookup k db) (beq→eq j id y) ∙ found in
          let one : j ≡ id = beq→eq j id y in
          let two : a ≡ c = cc in Memᴰ.head (ap (λ k. (k, a)) one ∙ ap (λ b. (id, b)) two)
      | inr y ↦
          let kept : lookup j rest ≡ some a = lookup-rest j ∙ rw (e, y) refl in
          Memᴰ.tail (others j a kept w)
    ]

    oldest_of :
        (j : String) (a : Command)
        → lookup j rest ≡ some a
        → waits_for node a ≡ true
        → c.created_at ≤ a.created_at
    oldest_of j a e w =
        let (x, found, below) = oldest_pending-NoneOlder node db j a (still_waiting j a e w) w in
        let same : some x ≡ some (id, c) = sym found ∙ oldest in
        let one : x ≡ (id, c) = cc in rw one at below

    claim-Drained :
        (given : List (String × Command)) (db' : Db)
        → Drained now node rest given db'
        → Drained now node db ((id, c) ∷ given) db'
    claim-Drained given db' r =
        let (found, waiting) = oldest_pending-lookup node db id c keyed oldest in
        record {
          rows = λ j.
              r.rows j
              ∙ ap (change (waits_for node) (handed now)) (lookup-rest j)
              ∙ rows-rest j found waiting;
          every = every-rest given r.every found;
          only = (
            (found, waiting),
            All-map (λ x h. (still_waiting x.0 x.1 h.0 h.1, h.1)) given r.only,
          );
          count = ap suc r.count ∙ count_waiting-claim now node id c db keyed oldest;
          order = (All-map (λ x h. oldest_of x.0 x.1 h.0 h.1) given r.only, r.order);
        }

abbrev pub frames : List (String × Command) → Queue
frames = map cmd

take-append_full : (queue more : Queue) → take (length queue) (queue ++ more) ≡ queue
take-append_full [] [] = refl
take-append_full [] (x ∷ xs) = refl
take-append_full (x ∷ queue) more = ap (λ q. x ∷ q) (take-append_full queue more)

take-short : (n : ℕ) (queue : Queue) → length queue ≤ n → take n (queue ++ []) ≡ queue
take-short zero [] h = refl
take-short zero (x ∷ queue) h = absurd (omega arith)
take-short (suc n) [] h = refl
take-short (suc n) (x ∷ queue) h = ap (λ q. x ∷ q) (take-short n queue (omega arith))

append-cons : (queue more : Queue) (x : Frame) → (queue ++ (x ∷ [])) ++ more ≡ queue ++ (x ∷ more)
append-cons [] more x = refl
append-cons (y ∷ queue) more x = ap (λ q. y ∷ q) (append-cons queue more x)

-- What does not fit is dropped, and with it all that follows.
take-send_envelope :
    (frame : Frame) (queue more : Queue)
    → length queue ≤ capacity
    → take capacity ((send_envelope frame queue).1 ++ more)
      ≡ take capacity (queue ++ (frame ∷ more))
unfolding send_envelope
take-send_envelope frame queue more h = elim (Bool-cases (ltb (length queue) capacity)) [
  | inl y ↦ rw y (ap (take capacity) (append-cons queue more frame))
  | inr y ↦
      let full : length queue ≡ capacity = ground (arith, y) in
      let cut = λ (rest : Queue).
        ap (λ n. take n (queue ++ rest)) (sym full) ∙ take-append_full queue rest in
      rw y (cut more ∙ sym (cut (frame ∷ more)))
]

send_envelope-length :
    (frame : Frame) (queue : Queue)
    → length queue ≤ capacity
    → length (send_envelope frame queue).1 ≤ capacity
unfolding send_envelope
send_envelope-length frame queue h = ground (arith, length-append queue (frame ∷ []))

drain_rounds-total :
    (fuel now : ℕ) (node : String) (queue : Queue) (db : Db)
    → IsKeyed db
    → count_waiting node db < fuel
    → length queue ≤ capacity
    → (given : List (String × Command)) × (db' : Db) × (drain_rounds fuel now node queue db
        ≡ some (take capacity (queue ++ frames given), db'))
      × Drained now node db given db'
unfolding drain_rounds next_pending_command
drain_rounds-total zero now node queue db d lt l = absurd (omega arith)
drain_rounds-total (suc fuel) now node queue db d lt l =
    elim (Option-cases (oldest_pending node db)) [
      | inl e ↦
          rw (e, drain_rounds, next_pending_command)
            (
              [],
              db,
              ap (λ q. some (q, db)) (sym (take-short capacity queue l)),
              no_claim now node db e,
            )
      | inr ((id, c), e) ↦
          let left = count_waiting-claim now node id c db d e in
          let (given, db', run, drained) =
            drain_rounds-total fuel now node (send_envelope (cmd (id, c)) queue).1
              (update (λ k _. k == id) (claim now) db)
              (update-IsKeyed (λ k _. k == id) (claim now) db d) (omega (arith, left, lt))
              (send_envelope-length (cmd (id, c)) queue l) in
          rw (e, drain_rounds, next_pending_command)
            (
              (id, c) ∷ given,
              db',
              run
                  ∙ ap (λ q. some (q, db'))
                      (take-send_envelope (cmd (id, c)) queue (frames given) l),
              claim-Drained now node db id c d e given db' drained,
            )
    ]

-- On a queue within its capacity and a table whose keys stand once, a drain ends. It hands out
-- every command that waits for the node, each once and the oldest first; marks exactly those as
-- sent at its time, with their other columns and all other rows as they were; and appends their
-- frames to the queue in that order up to its capacity, the rest being dropped.
pub drain_command_queue_total :
    (now : ℕ) (node : String) (queue : Queue) (db : Db)
    → IsKeyed db
    → length queue ≤ capacity
    → (given : List (String × Command)) × (db' : Db) × (drain_command_queue now node queue db
        ≡ some (take capacity (queue ++ frames given), db'))
      × Drained now node db given db'
unfolding drain_command_queue
drain_command_queue_total now node queue db d l =
    drain_rounds-total _ now node queue db d (omega arith) l
