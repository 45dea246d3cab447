-- ===== src/Server/Versions.antt =====
-- Versions of sing-box and their order, internal/server/singboxdl/version.go, and the newest stable
-- release of a listing, internal/server/httpapi/singbox_releases.go. The packages regexp, strconv
-- and strings are parameters.
pub mod Order
pub mod Precedence
pub mod Latest
mod Tests
use fobe.Prelude.{
  ℕ, String, List, [], ◌∷◌, Bool, true, false, not, ◌&&◌, ◌||◌, Option, none, some, if◌then◌else◌,
  ◌==◌, String-HasEq, length,
}
use fobe.Prelude.Int.{ℤ, pos, ltb_ℤ}

-- The answers -1, 0 and 1 of a comparison.
pub data Sign : Type 0 where
  less same more : Sign

-- The groups of `versionRE`.
pub record Groups : Type 0 where
  pub major : String
  pub minor : String
  pub patch : String
  pub pre : String
  pub build : String

-- What the code takes from the standard library: TrimSpace, FindStringSubmatch, Atoi (the number
-- and whether there is no error), Split at dots and Compare of package strings.
pub record Library : Type 0 where
  pub trim_space : String → String
  pub find_groups : String → Option Groups
  pub atoi : String → ℤ × Bool
  pub split_dots : String → List String
  pub compare_texts : String → String → Sign

pub record Version : Type 0 where
  pub major : ℤ
  pub minor : ℤ
  pub patch : ℤ
  pub pre : String
  pub build : String

abbrev pub cmp_int : ℤ → ℤ → Sign
cmp_int a b = if ltb_ℤ a b then less else (if ltb_ℤ b a then more else same)

-- if c := …; c != 0 { return c }
abbrev pub or_else : Sign → Sign → Sign
or_else same rest = rest
or_else c rest = c

abbrev pub compare_numbers : ℤ × Bool → ℤ × Bool → Sign → Sign
compare_numbers (m, true) (n, true) texts = cmp_int m n
compare_numbers (m, true) (n, false) texts = less
compare_numbers (m, false) (n, true) texts = more
compare_numbers (m, false) (n, false) texts = texts

-- A release of the listing, with the fields that the loop reads.
pub record Release : Type 0 where
  pub version : String
  pub prerelease : Bool

abbrev pub is_more : Sign → Bool
is_more more = true
is_more _ = false

module _ (lib : Library) where
  unfoldable pub parse_version : String → Option Version
  parse_version s = elim (lib.find_groups (lib.trim_space s)) [
    | none ↦ none
    | some m ↦ some record {
      major = (lib.atoi m.major).0;
      minor = (lib.atoi m.minor).0;
      patch = (lib.atoi m.patch).0;
      pre = m.pre;
      build = m.build;
    }
  ]

  unfoldable pub compare_pre_ident : String → String → Sign
  compare_pre_ident a b = compare_numbers (lib.atoi a) (lib.atoi b) (lib.compare_texts a b)

  -- Where one list ends, the lengths of what is left decide.
  unfoldable pub compare_idents : List String → List String → Sign
  compare_idents [] bs = cmp_int (pos 0) (pos (length bs))
  compare_idents (a ∷ rest_a) [] = cmp_int (pos (length (a ∷ rest_a))) (pos 0)
  compare_idents (a ∷ rest_a) (b ∷ rest_b) =
      let rest = compare_idents rest_a rest_b in or_else (compare_pre_ident a b) rest

  unfoldable pub compare_pre : String → String → Sign
  compare_pre a b =
      if a == b
      then same
      else (if a == ""
          then more
          else (if b == "" then less else compare_idents (lib.split_dots a) (lib.split_dots b)))

  unfoldable pub compare : Version → Version → Sign
  compare v o = or_else (cmp_int v.major o.major) (
      or_else (cmp_int v.minor o.minor)
        (or_else (cmp_int v.patch o.patch) (compare_pre v.pre o.pre)))

  abbrev pub compare_parsed : Option Version → Option Version → Sign → Sign
  compare_parsed none none texts = texts
  compare_parsed none (some w) texts = less
  compare_parsed (some v) none texts = more
  compare_parsed (some v) (some w) texts = compare v w

  unfoldable pub compare_versions : String → String → Sign
  compare_versions a b = compare_parsed (parse_version a) (parse_version b) (lib.compare_texts a b)

  -- The loop over a listing: the version found so far, and the releases left.
  unfoldable pub latest_from : String → List Release → String
  latest_from latest [] = latest
  latest_from latest (rel ∷ rels) =
      latest_from
        (if not rel.prerelease && ((latest == "") || is_more (compare_versions rel.version latest))
          then rel.version
          else latest)
        rels

  unfoldable pub latest_stable : List Release → String
  latest_stable rels = latest_from "" rels
