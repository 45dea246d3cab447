-- ===== src/Agent/Forwards/Plan.antt =====
-- The script of an edit (the plans of internal/agent/forwards.go): which rules it deletes, by their
-- handles, and what it adds, in one transaction.
use fobe.Prelude.{
  ℕ, ◌-◌, String, List, [], ◌∷◌, ◌++◌, true, false, not, none, some, length, take, keep, contains,
  map, if◌then◌else◌, ◌==◌, ℕ-HasEq, String-HasEq, pair-HasEq,
}
use Prim.Native.Nat.{min}
use fobe.Prelude.Int.{ℤ, pos, ltb_ℤ, ℤ-HasEq}
use fobe.Agent.Forwards.{
  ForwardRule, MasqRule, NftLayout, ForwardsRead, ForwardsPlan, conflict, Result, refused, done,
  Stmt, Grammar, add_table, add_prerouting, add_postrouting, delete_prerouting, delete_postrouting,
  add_dnat, add_masquerade, no_handle, conflict_with, validate_forward, resolve_targets, without,
}

abbrev pub DestKey : Type 0
DestKey = String × (String × ℤ)

abbrev pub dest_key : ForwardRule → DestKey
dest_key r = (r.dst_ip, (r.proto, r.dst_port))

abbrev pub masq_key : MasqRule → DestKey
masq_key m = (m.dst_ip, (m.proto, m.dst_port))

abbrev pub count_for : DestKey → List ForwardRule → ℕ
count_for k rules = length (keep (λ r. dest_key r == k) rules)

-- avail[k]
abbrev pub handles_for : DestKey → List MasqRule → List ℤ
handles_for k masq = map (λ m. m.handle) (keep (λ m. masq_key m == k) masq)

-- The handles of one destination: a negative surplus is none.
unfoldable pub drops_for : List ForwardRule → List ForwardRule → List MasqRule → DestKey → List ℤ
drops_for targets remaining masq k =
    keep (λ h. not (no_handle h))
      (take (min (count_for k targets) (length (handles_for k masq) - count_for k remaining))
        (handles_for k masq))

-- The keys of `need`, each once.
abbrev pub dest_keys : List ForwardRule → List DestKey
dest_keys [] = []
dest_keys (r ∷ rules) =
    let rest = dest_keys rules in if contains (dest_key r) rest then rest else dest_key r ∷ rest

abbrev pub all_drops : List ForwardRule → List ForwardRule → List MasqRule → List DestKey → List ℤ
all_drops targets remaining masq [] = []
all_drops targets remaining masq (k ∷ ks) =
    drops_for targets remaining masq k ++ all_drops targets remaining masq ks

abbrev pub insert_sorted : ℤ → List ℤ → List ℤ
insert_sorted h [] = h ∷ []
insert_sorted h (i ∷ hs) =
    let rest = insert_sorted h hs in if ltb_ℤ i h then i ∷ rest else h ∷ i ∷ hs

-- sort.Ints
abbrev pub sort_ints : List ℤ → List ℤ
sort_ints [] = []
sort_ints (h ∷ hs) = insert_sorted h (sort_ints hs)

-- The map of the code is walked in some order, which the sorting makes up for.
unfoldable pub masq_handles_to_drop : List ForwardRule → List ForwardRule → List MasqRule → List ℤ
unfolding drops_for
masq_handles_to_drop targets remaining masq =
    sort_ints (all_drops targets remaining masq (dest_keys targets))

unfoldable pub init_stmts : NftLayout → List Stmt
init_stmts l =
    (if l.table then [] else add_table ∷ [])
    ++ ((if l.prerouting then [] else add_prerouting ∷ [])
        ++ (if l.postrouting then [] else add_postrouting ∷ []))

unfoldable pub delete_stmts : List ForwardRule → List ForwardRule → List MasqRule → List Stmt
unfolding masq_handles_to_drop
delete_stmts targets remaining masq =
    map (λ r. delete_prerouting r.handle) (keep (λ r. not (no_handle r.handle)) targets)
    ++ map delete_postrouting (masq_handles_to_drop targets remaining masq)

unfoldable pub plan_add : Grammar → ForwardsRead → ForwardRule → Result ForwardsPlan
unfolding validate_forward conflict_with init_stmts
plan_add g cur cand = elim (validate_forward g cand) [
  | some code ↦ refused code
  | none ↦ elim (conflict_with cur.rules cand (pos 0)) [
    | some c ↦ refused conflict
    | none ↦ done (record {
      stmts = init_stmts cur.layout ++ (add_dnat cand ∷ add_masquerade cand ∷ []);
      ensure_forwarding = true;
    })
  ]
]

unfoldable pub plan_update :
    Grammar → ForwardsRead → ForwardRule → ForwardRule → Result ForwardsPlan
unfolding validate_forward conflict_with resolve_targets without delete_stmts init_stmts
plan_update g cur old cand = elim (validate_forward g cand) [
  | some code ↦ refused code
  | none ↦ elim (resolve_targets cur.rules old) [
    | refused code ↦ refused code
    | done targets ↦ elim (conflict_with cur.rules cand old.handle) [
      | some c ↦ refused conflict
      | none ↦ done (record {
        stmts =
            init_stmts cur.layout
            ++ (delete_stmts targets (without cur.rules targets) cur.masq
                ++ (add_dnat cand ∷ add_masquerade cand ∷ []));
        ensure_forwarding = true;
      })
    ]
  ]
]

unfoldable pub plan_delete : ForwardsRead → ForwardRule → Result ForwardsPlan
unfolding resolve_targets without delete_stmts
plan_delete cur want = elim (resolve_targets cur.rules want) [
  | refused code ↦ refused code
  | done targets ↦ done (record {
    stmts = delete_stmts targets (without cur.rules targets) cur.masq;
    ensure_forwarding = false;
  })
]
