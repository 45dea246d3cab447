-- ===== src/Store/Singbox.antt =====
-- The table `node_singbox` (internal/server/store/ops.go): what each node should run and what its
-- probe reported. The columns that no query below reads or writes are left out. The nodes stand
-- in the order of their creation.
use fobe.Prelude.{
  ℕ, suc, String, List, [], ◌∷◌, Bool, not, ◌&&◌, Option, none, some, if◌then◌else◌, ◌==◌,
  String-HasEq,
}
use fobe.Prelude.Table.{lookup, put}

pub record Node : Type 0 where
  pub id : String
  pub name : String
  pub status : String

pub record NodeSingbox : Type 0 where
  pub version : String
  pub desired_version : String
  pub desired_uninstall : Bool
  pub config_hash : String
  pub status : String
  pub last_error : String
  pub cert_pem : String
  pub cert_sha256 : String
  pub cert_not_after : ℕ
  pub port : ℕ
  pub updated_at : ℕ

abbrev pub Rows : Type 0
Rows = List (String × NodeSingbox)

-- The last error of a target is left out: nothing reads it.
pub record SingboxTarget : Type 0 where
  pub node : String
  pub name : String
  pub status : String
  pub version : String
  pub desired_version : String

unfoldable pub get_node_singbox : String → Rows → Option NodeSingbox
get_node_singbox node rows = lookup node rows

unfoldable pub upsert_node_singbox : ℕ → String → NodeSingbox → Rows → Rows
upsert_node_singbox now node sb rows = put node (record sb { updated_at = now }) rows

-- How many nodes desire a version: a key of the map that the query gives, or 0.
unfoldable pub desired_version_refs : String → Rows → ℕ
desired_version_refs version [] = 0
desired_version_refs version ((node, sb) ∷ rows) =
    let rest = desired_version_refs version rows in
    if not (sb.desired_version == "") && (sb.desired_version == version) then suc rest else rest

abbrev pub is_target : NodeSingbox → Bool
is_target sb = not (sb.desired_version == "") && not sb.desired_uninstall

unfoldable pub list_singbox_targets : List Node → Rows → List SingboxTarget
list_singbox_targets [] rows = []
list_singbox_targets (n ∷ nodes) rows =
    let rest = list_singbox_targets nodes rows in
    elim (lookup n.id rows) [
      | none ↦ rest
      | some sb ↦
          if is_target sb
          then record {
            node = n.id;
            name = n.name;
            status = n.status;
            version = sb.version;
            desired_version = sb.desired_version;
          }
            ∷ rest
          else rest
    ]
