-- ===== src/Agent/Forwards/Deletion.antt =====
-- What deleting a port forward takes out (internal/agent/forwards.go).
use text.Mathlib.TextEquality.{eq_iff}
use fobe.Prelude.{
  suc, ◌+◌, ◌-◌, ◌≤◌, List, [], ◌∷◌, ◌++◌, true, false, not, ◌&&◌, some, first_of?, any_of, length,
  keep, take, map, first_of?-Memᴰ, keep-Memᴰ, length-keep-le, length-append, length-take-le, ◌==◌,
  String-HasEq, ◌≡◌, refl, sym, ap, ◌∙◌, ◌⊎◌, arith, pair-HasEq, Bool-cases, Option-cases, inl, inr,
}
use mathlib.Core.List.{Memᴰ}
use Prim.Native.Nat.{min}
use fobe.Prelude.Int.{ℤ, ℤ-HasEq, beq_ℤ_iff}
use fobe.Agent.Forwards.{
  ForwardRule, MasqRule, NftLayout, ForwardsRead, ForwardsPlan, Code, Result, refused, done,
  delete_prerouting, delete_postrouting, no_handle, same_forward, only_match, resolve_targets,
  without, names,
}
use fobe.Agent.Forwards.Plan.{
  DestKey, dest_key, masq_key, count_for, handles_for, drops_for, insert_sorted, sort_ints,
  masq_handles_to_drop, delete_stmts, plan_delete,
}

insert_sorted-length : (h : ℤ) (hs : List ℤ) → length (insert_sorted h hs) ≡ suc (length hs)
insert_sorted-length h [] = refl
insert_sorted-length h (i ∷ hs) = ground (arith, insert_sorted-length h hs)

sort_ints-length : (hs : List ℤ) → length (sort_ints hs) ≡ length hs
sort_ints-length [] = refl
sort_ints-length (h ∷ hs) =
    ground (arith, sort_ints-length hs, insert_sorted-length h (sort_ints hs))

-- A rule of the probe that the edit may delete.
pub record IsTarget (rules : List ForwardRule) (want t : ForwardRule) : Type 0 where
  pub known : Memᴰ t rules
  pub same : same_forward t want ≡ true
  pub has_handle : no_handle t.handle ≡ false

only_match-done :
    (rules targets : List ForwardRule)
    → only_match rules ≡ done targets
    → (t : ForwardRule) × (targets ≡ t ∷ []) × Memᴰ t rules × (no_handle t.handle ≡ false)
only_match-done [] targets h = ground arith
only_match-done (r ∷ []) targets h = elim (Bool-cases (no_handle r.handle)) [
  | inl y ↦ ground arith
  | inr y ↦ (r, ground arith, Memᴰ.head refl, y)
]
only_match-done (r ∷ s ∷ rest) targets h = ground arith

handle_known :
    (rules : List ForwardRule) (want r : ForwardRule)
    → no_handle want.handle ≡ false
    → first_of? (λ x. (x.handle == want.handle) && same_forward x want) rules ≡ some r
    → IsTarget rules want r
handle_known rules want r n h =
    let (found, holds) =
      first_of?-Memᴰ (λ x. (x.handle == want.handle) && same_forward x want) rules r h in
    record {
      known = found;
      same = ground (arith, holds);
      has_handle = ground (arith, holds, beq_ℤ_iff r.handle want.handle);
    }

-- The edit acts on one rule of the probe, which is the forward that the operator named and has a
-- handle.
resolve_targets-done :
    (rules targets : List ForwardRule) (want : ForwardRule)
    → resolve_targets rules want ≡ done targets
    → (t : ForwardRule) × (targets ≡ t ∷ []) × IsTarget rules want t
unfolding resolve_targets
resolve_targets-done rules targets want h = elim (Bool-cases (no_handle want.handle)) [
  | inl y ↦ ground arith
  | inr y ↦
      elim (Option-cases
        (first_of? (λ r. (r.handle == want.handle) && same_forward r want) rules)) [
          | inr (r, e) ↦ (r, ground arith, handle_known rules want r y e)
          | inl e ↦
              let k : only_match (keep (λ r. same_forward r want) rules) ≡ done targets =
                ground arith in
              let (t, one, kept, n) = only_match-done _ targets k in
              let (found, same) = keep-Memᴰ (λ r. same_forward r want) rules t kept in
              (t, one, record { known = found; same = same; has_handle = n })
        ]
]

drops_for-length :
    (targets remaining : List ForwardRule) (masq : List MasqRule) (k : DestKey)
    → length (drops_for targets remaining masq k)
      ≤ min (count_for k targets) (length (handles_for k masq) - count_for k remaining)
unfolding drops_for
drops_for-length targets remaining masq k =
    let n = min (count_for k targets) (length (handles_for k masq) - count_for k remaining) in
    let kept = length-keep-le (λ h. not (no_handle h)) (take n (handles_for k masq)) in
    let taken = length-take-le n (handles_for k masq) in omega (arith, kept, taken)

drops-one :
    (t : ForwardRule) (remaining : List ForwardRule) (masq : List MasqRule)
    → length (masq_handles_to_drop (t ∷ []) remaining masq)
      ≤ min 1 (length (handles_for (dest_key t) masq) - count_for (dest_key t) remaining)
unfolding masq_handles_to_drop
drops-one t remaining masq =
    let d = drops_for (t ∷ []) remaining masq (dest_key t) in
    let sorted : length (masq_handles_to_drop (t ∷ []) remaining masq) ≡ length (d ++ []) =
      sort_ints-length (d ++ []) in
    let size : length (d ++ []) ≡ length d + 0 = length-append d [] in
    let few : length d
        ≤ min (count_for (dest_key t) (t ∷ []))
            (length (handles_for (dest_key t) masq) - count_for (dest_key t) remaining) =
      drops_for-length (t ∷ []) remaining masq (dest_key t) in
    let one : count_for (dest_key t) (t ∷ []) ≤ 1 =
      length-keep-le (λ r. dest_key r == dest_key t) (t ∷ []) in
    omega (arith, sorted, size, few, one)

delete_stmts-one :
    (t : ForwardRule) (remaining : List ForwardRule) (masq : List MasqRule)
    → no_handle t.handle ≡ false
    → delete_stmts (t ∷ []) remaining masq
      ≡ delete_prerouting t.handle
        ∷ map delete_postrouting (masq_handles_to_drop (t ∷ []) remaining masq)
unfolding delete_stmts
delete_stmts-one t remaining masq n = rw n refl

resolve_cases :
    {A : Type 0} (r : Result A) → ((c : Code) × (r ≡ refused c)) ⊎ ((a : A) × (r ≡ done a))
resolve_cases (refused c) = inl (c, refl)
resolve_cases (done a) = inr (a, refl)

-- If a deletion is planned, its script deletes one forward by its handle, which is the one that
-- the operator named, and with it at most one masquerade rule, and none unless the destination
-- has more of them than forwards that the code takes to remain.
plan_delete-done :
    (cur : ForwardsRead) (want : ForwardRule) (plan : ForwardsPlan)
    → plan_delete cur want ≡ done plan
    → (t : ForwardRule) × (hs : List ℤ) × IsTarget cur.rules want t
      × (plan.stmts ≡ delete_prerouting t.handle ∷ map delete_postrouting hs)
      × (length hs
          ≤ min 1 (
              length (handles_for (dest_key t) cur.masq)
              - count_for (dest_key t) (without cur.rules (t ∷ []))))
unfolding plan_delete delete_stmts
plan_delete-done cur want plan h = elim (resolve_cases (resolve_targets cur.rules want)) [
  | inl (code, e) ↦ ground arith
  | inr (targets, e) ↦
      let (t, one, target) = resolve_targets-done cur.rules targets want e in
      let e' : resolve_targets cur.rules want ≡ done (t ∷ []) = e ∙ ap done one in
      let remaining = without cur.rules (t ∷ []) in
      let deleting : ForwardsPlan = record {
        stmts = delete_stmts (t ∷ []) remaining cur.masq;
        ensure_forwarding = false;
      } in
      let k : done deleting ≡ done plan = rw (e', plan_delete) at h in
      let planned : deleting ≡ plan = cc in
      (
        t,
        masq_handles_to_drop (t ∷ []) remaining cur.masq,
        target,
        sym (ap (λ p. p.stmts) planned) ∙ delete_stmts-one t remaining cur.masq target.has_handle,
        drops-one t remaining cur.masq,
      )
]

count_for-without :
    (k : DestKey) (rules targets : List ForwardRule)
    → count_for k rules ≡ 0
    → count_for k (without rules targets) ≡ 0
unfolding without
count_for-without k [] targets h = refl
count_for-without k (r ∷ rules) targets h = elim (Bool-cases (dest_key r == k)) [
  | inl y ↦ absurd (let c : suc (count_for k rules) ≡ 0 = rw y at h in omega arith)
  | inr y ↦
      let rest = count_for-without k rules targets (rw y at h) in
      elim (Bool-cases (any_of (names r) targets)) [ inl z ↦ rw z rest | inr z ↦ rw z (rw y rest) ]
]

-- On a probe whose ruleset begins with two rules of the same forward and has no other rule to
-- its destination, and whose one masquerade rule is for that destination, the deletion of the
-- first rule, where it and the masquerade rule have handles, is planned as that of the first
-- rule and of the masquerade rule, which the second rule still needs.
pub plan_delete-twice :
    (r s : ForwardRule) (rest : List ForwardRule) (m : MasqRule) (layout : NftLayout)
    → no_handle r.handle ≡ false
    → no_handle m.handle ≡ false
    → same_forward r r ≡ true
    → same_forward s r ≡ true
    → (masq_key m == dest_key r) ≡ true
    → count_for (dest_key r) rest ≡ 0
    → plan_delete (record { rules = r ∷ s ∷ rest; masq = m ∷ []; layout = layout }) r
      ≡ done (record {
        stmts = delete_prerouting r.handle ∷ delete_postrouting m.handle ∷ [];
        ensure_forwarding = false;
      })
unfolding plan_delete resolve_targets without delete_stmts masq_handles_to_drop drops_for
plan_delete-twice r s rest m layout h k same twice dest others =
    let gone = count_for-without (dest_key r) rest (r ∷ []) others in
    ground (
      arith,
      gone,
      beq_ℤ_iff r.handle r.handle,
      eq_iff r.dst_ip r.dst_ip,
      eq_iff r.proto r.proto,
      beq_ℤ_iff r.dst_port r.dst_port,
    )
