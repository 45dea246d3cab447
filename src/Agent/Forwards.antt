-- ===== src/Agent/Forwards.antt =====
-- Planning an edit of the probe's port forwards (internal/agent/forwards.go). A statement of the
-- nft script is a value in place of its text, and an error its code without the message. The
-- grammar of addresses and interface names (package net, a regular expression) is a parameter, and
-- so are the code points of a text.
pub mod Plan
pub mod Conflicts
pub mod Deletion
mod Tests
use fobe.Prelude.{
  ℕ, ◌-◌, String, List, [], ◌∷◌, ◌++◌, Bool, true, false, not, ◌&&◌, ◌||◌, Option, none, some, ltb,
  length, take, keep, any_of, first_of?, contains, map, if◌then◌else◌, ◌==◌, ℕ-HasEq, String-HasEq,
  pair-HasEq,
}
use Prim.Native.Nat.{min}
use fobe.Prelude.Int.{ℤ, pos, ltb_ℤ, ℤ-HasEq}

pub record ForwardRule : Type 0 where
  pub proto : String
  pub src_port : ℤ
  pub iface : String
  pub dst_ip : String
  pub dst_port : ℤ
  pub comment : String
  pub handle : ℤ
  pub extra_match : Bool

pub record MasqRule : Type 0 where
  pub handle : ℤ
  pub dst_ip : String
  pub proto : String
  pub dst_port : ℤ

pub record NftLayout : Type 0 where
  pub table : Bool
  pub prerouting : Bool
  pub postrouting : Bool

pub record ForwardsRead : Type 0 where
  pub rules : List ForwardRule
  pub masq : List MasqRule
  pub layout : NftLayout

pub data Code : Type 0 where
  bad_proto bad_port bad_ip bad_iface bad_comment conflict not_found ambiguous : Code

-- Go's `T, code`: an error code, or the value where the code is empty.
pub data Result {ℓ} (A : Type ℓ) : Type ℓ where
  refused : Code → Result A
  done : A → Result A

pub data Stmt : Type 0 where
  add_table add_prerouting add_postrouting : Stmt
  delete_prerouting delete_postrouting : ℤ → Stmt
  add_dnat add_masquerade : ForwardRule → Stmt

pub record ForwardsPlan : Type 0 where
  pub stmts : List Stmt
  pub ensure_forwarding : Bool

-- The grammars that the code takes from its libraries, and the code points of a text.
pub record Grammar : Type 0 where
  pub is_ipv4 : String → Bool
  pub is_iface : String → Bool
  pub runes : String → List ℕ

abbrev pub no_handle : ℤ → Bool
no_handle h = h == pos 0

unfoldable pub same_forward : ForwardRule → ForwardRule → Bool
same_forward a b =
    (a.proto == b.proto)
    && ((a.src_port == b.src_port)
        && ((a.iface == b.iface) && ((a.dst_ip == b.dst_ip) && (a.dst_port == b.dst_port))))

-- Whether the existing rule takes the port of the candidate; `self` is the handle to be replaced.
unfoldable pub takes_port : ForwardRule → ℤ → ForwardRule → Bool
takes_port cand self ex =
    if not (no_handle ex.handle) && (ex.handle == self)
    then false
    else if not (ex.proto == cand.proto) || not (ex.src_port == cand.src_port)
    then false
    else not (not (ex.iface == "") && (not (cand.iface == "") && not (ex.iface == cand.iface)))

unfoldable pub conflict_with : List ForwardRule → ForwardRule → ℤ → Option ForwardRule
unfolding takes_port
conflict_with rules cand self = first_of? (takes_port cand self) rules

abbrev pub valid_port : ℤ → Bool
valid_port p = not (ltb_ℤ p (pos 1)) && not (ltb_ℤ (pos 65535) p)

abbrev pub max_comment_len : ℕ
max_comment_len = 128

-- 34 is the double quote; 10, 13 and 9, which the code lists too, are below 32.
unfoldable pub validate_comment : Grammar → String → Option Code
validate_comment g c =
    if c == ""
    then none
    else if ltb max_comment_len (length (g.runes c))
    then some bad_comment
    else if contains 34 (g.runes c)
    then some bad_comment
    else if any_of (λ r. ltb r 32 || (r == 127)) (g.runes c)
    then some bad_comment
    else none

unfoldable pub validate_forward : Grammar → ForwardRule → Option Code
unfolding validate_comment
validate_forward g r =
    if not (r.proto == "tcp") && not (r.proto == "udp")
    then some bad_proto
    else if not (valid_port r.src_port)
    then some bad_port
    else if not (valid_port r.dst_port)
    then some bad_port
    else if not (g.is_ipv4 r.dst_ip)
    then some bad_ip
    else if not (r.iface == "") && not (g.is_iface r.iface)
    then some bad_iface
    else validate_comment g r.comment

-- The one match by tuple, if it has a handle.
abbrev pub only_match : List ForwardRule → Result (List ForwardRule)
only_match [] = refused not_found
only_match (r ∷ []) = if no_handle r.handle then refused not_found else done (r ∷ [])
only_match (r ∷ s ∷ rest) = refused ambiguous

unfoldable pub resolve_targets : List ForwardRule → ForwardRule → Result (List ForwardRule)
unfolding same_forward
resolve_targets rules want =
    if no_handle want.handle
    then refused not_found
    else elim (first_of? (λ r. (r.handle == want.handle) && same_forward r want) rules) [
      | some r ↦ done (r ∷ [])
      | none ↦ only_match (keep (λ r. same_forward r want) rules)
    ]

-- Whether a target stands for the rule.
abbrev pub names : ForwardRule → ForwardRule → Bool
names r t = (not (no_handle t.handle) && (r.handle == t.handle)) || same_forward r t

unfoldable pub without : List ForwardRule → List ForwardRule → List ForwardRule
unfolding same_forward
without rules targets = keep (λ r. not (any_of (names r) targets)) rules
