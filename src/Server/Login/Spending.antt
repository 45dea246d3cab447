-- ===== src/Server/Login/Spending.antt =====
-- What a step costs an address that tries passwords (internal/server/httpapi/auth_handlers.go).
use fobe.Prelude.{
  ℕ, suc, ◌+◌, ◌*◌, ◌≤◌, ◌<◌, String, List, ◌∷◌, true, false, ◌||◌, Option, none, some, ◌≡◌, ◌⊎◌,
  refl, ap, ◌∙◌, arith, if◌then◌else◌, ◌==◌, String-HasEq, length, Bool-cases, Option-cases, beq→eq,
  eq→beq, inl, inr,
}
use fobe.Prelude.Table.{lookup, IsKeyed, lookup-delete, delete-IsKeyed}
use text.Mathlib.TextEquality.{eq_iff}
use fobe.Store.Access.{is_blacklisted, unblock_ip}
use fobe.Server.LoginGate.{Gate}
use fobe.Server.Login.{
  Guard, Panel, Answer, System, enters, finishes, unblocks, Try, is_blocked, enter, finish,
  finished, take_out, step,
}
use fobe.Server.Login.Budget.{
  room, IsSound, failed, room-entered, room-left, room-failed, lookup-record_login_fail,
}
use fobe.Server.Login.Outcome.{tally, Fate, unread, right, wrong, shielded, finish-Fate}
use fobe.Server.Login.Requests.{
  count_of, take_out-count, enter-lem, free-holds, release-inflight, Fate-other, Fate-IsKeyed,
  record_login_fail-IsKeyed,
}

abbrev pub head : String → Option (String × Answer) → ℕ → ℕ
head ip none n = n
head ip (some (j, a)) n = if j == ip then tally a n else n

module _ (guard : Guard) (ip : String) where
  unfoldable pub room_of : ℕ → System → ℕ
  room_of t s = room t (lookup ip s.panel.db.blacklist)

  -- The places at the gate are those of the requests under way.
  pub record IsFine (t : ℕ) (s : System) : Type 0 where
    pub held : s.panel.gate.inflight ≡ length s.pending
    pub small : length s.pending ≤ 4
    pub keyed : IsKeyed s.panel.db.blacklist
    pub sound : IsSound t (count_of ip s.pending) (lookup ip s.panel.db.blacklist)

  -- Either the right password was given, or the step has taken its room.
  abbrev pub Spends : ℕ → System → Option (String × Answer) × System → Type 0
  Spends t s (a, s') =
      ((n : ℕ) → head ip a n ≡ 0)
      ⊎ (IsFine t s' × ((n : ℕ) → 600 * head ip a n + room_of t s' ≤ 600 * n + room_of t s))

  answered-Spends :
      (now : ℕ) (j : String) (a : Answer) (p : Panel) (s : System)
      → ((n : ℕ) → tally a n ≡ n)
      → p.gate.inflight ≡ s.panel.gate.inflight
      → p.db.blacklist ≡ s.panel.db.blacklist
      → IsFine now s
      → Spends now s (some (j, a), record { panel = p; pending = s.pending })
  unfolding room_of
  answered-Spends now j a p s quiet same rows f = inr (
    record {
      held = same ∙ f.held;
      small = f.small;
      keyed = rw rows f.keyed;
      sound = rw rows f.sound;
    },
    λ n. rw rows (ground (arith, quiet n)),
  )

  admitted-Spends :
      (now : ℕ) (j : String) (p : Panel) (s : System)
      → guard.never_blacklist ip ≡ false
      → is_blocked guard now j s.panel ≡ false
      → ((j == ip) ≡ true → count_of ip s.pending ≡ 0)
      → s.panel.gate.inflight < 4
      → p.gate.inflight ≡ suc s.panel.gate.inflight
      → p.db.blacklist ≡ s.panel.db.blacklist
      → IsFine now s
      → Spends now s (none, record { panel = p; pending = j ∷ s.pending })
  unfolding room_of is_blacklisted
  admitted-Spends now j p s open' free alone place next rows f = elim (Bool-cases (j == ip)) [
    | inl y ↦
        let free' = free-holds guard now ip s.panel open' (rw (beq→eq j ip y) at free) in
        let sound =
          room-entered now (count_of ip s.pending) (lookup ip s.panel.db.blacklist) f.sound
            (alone y) free' in
        inr (
          record {
            held = next ∙ ap suc f.held;
            small = omega (arith, f.held, place);
            keyed = rw rows f.keyed;
            sound = rw (rows, y) sound;
          },
          λ n. rw rows (omega arith),
        )
    | inr y ↦ inr (
      record {
        held = next ∙ ap suc f.held;
        small = omega (arith, f.held, place);
        keyed = rw rows f.keyed;
        sound = rw (rows, y) f.sound;
      },
      λ n. rw rows (omega arith),
    )
  ]

  pub enters-Spends :
      (tick now : ℕ) (j : String) (s : System)
      → guard.never_blacklist ip ≡ false
      → ((j == ip) ≡ true → count_of ip s.pending ≡ 0)
      → IsFine now s
      → Spends now s (step guard (enters tick now j) s)
  unfolding step
  enters-Spends tick now j s open' alone f =
      let p = (enter guard tick now j s.panel).1 in
      elim (enter-lem guard tick now j s.panel) [
        | inl (a, e, quiet, same, rows) ↦
            rw (step, e) (answered-Spends now j a p s quiet same rows f)
        | inr (e, free, place, next, rows) ↦
            rw (step, e) (admitted-Spends now j p s open' free alone place next rows f)
      ]

  -- A login of the address itself.
  own-Spends :
      (now : ℕ) (a : Answer) (p : Panel) (rest : List String) (s : System)
      → guard.never_blacklist ip ≡ false
      → p.gate.inflight ≡ length rest
      → length s.pending ≡ suc (length rest)
      → count_of ip s.pending ≡ suc (count_of ip rest)
      → Fate guard now ip s.panel.db.blacklist a p.db.blacklist
      → IsFine now s
      → Spends now s (some (ip, a), record { panel = p; pending = rest })
  unfolding room_of
  own-Spends now a p rest s open' held len cnt (right z e) f =
      inl (λ n. rw (eq→beq ip ip refl) (z n))
  own-Spends now a p rest s open' held len cnt (shielded h e) f = absurd (ground (arith, h, open'))
  own-Spends now a p rest s open' held len cnt (unread z e) f =
      let sound =
        room-left now (count_of ip rest) (lookup ip s.panel.db.blacklist) (rw cnt at f.sound) in
      inr (
        record {
          held = held;
          small = omega (arith, len, f.small);
          keyed = rw e f.keyed;
          sound = rw e sound;
        },
        λ n. rw (eq→beq ip ip refl, z n, e) (omega arith),
      )
  own-Spends now a p rest s open' held len cnt (wrong z e) f =
      let row = lookup ip s.panel.db.blacklist in
      let after : lookup ip p.db.blacklist ≡ some (failed now "login_failed" row) = rw e (
        ground (
          arith,
          eq→beq ip ip refl,
          lookup-record_login_fail now ip ip "login_failed" s.panel.db.blacklist,
        )) in
      let (sound, less) =
        room-failed now (count_of ip rest) "login_failed" row (rw cnt at f.sound) in
      inr (
        record {
          held = held;
          small = omega (arith, len, f.small);
          keyed =
              rw e (record_login_fail-IsKeyed now ip "login_failed" s.panel.db.blacklist f.keyed);
          sound = rw after sound;
        },
        λ n. rw (eq→beq ip ip refl, z n, after) (omega (arith, less)),
      )

  own_done-Spends :
      (k now : ℕ) (t : Try) (rest : List String) (s : System)
      → guard.never_blacklist ip ≡ false
      → take_out k s.pending ≡ some (ip, rest)
      → IsFine now s
      → Spends now s (finished guard now t (some (ip, rest)) s)
  own_done-Spends k now t rest s open' e f =
      let (len, cnt) = take_out-count ip k s.pending rest ip e in
      let (fate, gate) = finish-Fate guard now ip t s.panel in
      own-Spends now (finish guard now ip t s.panel).0 (finish guard now ip t s.panel).1 rest s
        open'
        (ap (λ (g : Gate). g.inflight) gate
          ∙ release-inflight s.panel.gate (length rest) (f.held ∙ len))
        len (ground (arith, cnt, eq→beq ip ip refl)) fate f

  done-Spends :
      (k now : ℕ) (t : Try) (j : String) (rest : List String) (s : System)
      → guard.never_blacklist ip ≡ false
      → take_out k s.pending ≡ some (j, rest)
      → IsFine now s
      → Spends now s (finished guard now t (some (j, rest)) s)
  unfolding room_of
  done-Spends k now t j rest s open' e f = elim (Bool-cases (j == ip)) [
    | inl y ↦
        let own = beq→eq j ip y in rw own (own_done-Spends k now t rest s open' (rw own at e) f)
    | inr y ↦
        let (len, cnt) = take_out-count ip k s.pending rest j e in
        let (fate, gate) = finish-Fate guard now j t s.panel in
        let p = (finish guard now j t s.panel).1 in
        let same = Fate-other guard now j ip s.panel.db.blacklist p.db.blacklist _ y f.keyed fate in
        let others : count_of ip rest ≡ count_of ip s.pending = ground (arith, cnt, y) in
        inr (
          record {
            held =
                ap (λ (g : Gate). g.inflight) gate
                ∙ release-inflight s.panel.gate (length rest) (f.held ∙ len);
            small = omega (arith, len, f.small);
            keyed = Fate-IsKeyed guard now j s.panel.db.blacklist p.db.blacklist _ f.keyed fate;
            sound = rw (same, others) f.sound;
          },
          λ n. rw (same, y) (omega arith),
        )
  ]

  pub finishes-Spends :
      (k now : ℕ) (t : Try) (s : System)
      → guard.never_blacklist ip ≡ false
      → IsFine now s
      → Spends now s (step guard (finishes k now t) s)
  unfolding step
  finishes-Spends k now t s open' f = elim (Option-cases (take_out k s.pending)) [
    | inl e ↦ rw (step, e) (inr (f, λ n. omega arith))
    | inr ((j, rest), e) ↦ rw (step, e) (done-Spends k now t j rest s open' e f)
  ]

  pub unblocks-Spends :
      (now : ℕ) (j : String) (s : System)
      → ((j == ip) || (j == "all")) ≡ false
      → IsFine now s
      → Spends now s (step guard (unblocks now j) s)
  unfolding step unblock_ip room_of
  unblocks-Spends now j s h f =
      let rows = s.panel.db.blacklist in
      let other : (j == "all") ≡ false = ground (arith, h) in
      let apart : (j == ip) ≡ false = ground (arith, h) in
      let same : lookup ip (unblock_ip j rows) ≡ lookup ip rows = ground (
        arith,
        other,
        apart,
        eq_iff ip j,
        eq_iff j ip,
        lookup-delete (λ k _. k == j) ip rows f.keyed,
      ) in
      inr (
        record {
          held = f.held;
          small = f.small;
          keyed = rw other (delete-IsKeyed (λ k _. k == j) rows f.keyed);
          sound = rw same f.sound;
        },
        λ n. rw same (omega arith),
      )
