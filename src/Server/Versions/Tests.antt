-- ===== src/Server/Versions/Tests.antt =====
-- The newest stable release of a small listing, with a library that knows its texts
-- (internal/server/singboxdl/version.go, internal/server/httpapi/singbox_releases.go).
use fobe.Prelude.{
  String, List, [], ◌∷◌, Bool, true, false, Option, none, some, if◌then◌else◌, ◌==◌, ◌≡◌, ◌≢◌, refl,
  String-HasEq,
}
use fobe.Prelude.Table.{lookup}
use fobe.Prelude.Int.{ℤ, pos}
use mathlib.Core.List.{Memᴰ}
use fobe.Server.Versions.{
  Sign, less, more, Groups, Library, Release, cmp_int, parse_version, compare_pre_ident,
  compare_idents, compare_pre, compare, compare_versions, latest_from, latest_stable,
}
use fobe.Server.Versions.Order.{cmp_int-IsOrder, on-IsOrder}
use fobe.Server.Versions.Latest.{latest_stable-lem}

program : Unit {0}
unfolding lookup parse_version compare_pre_ident compare_idents compare_pre compare compare_versions
    latest_from latest_stable
program = tt

abbrev groups : String → String → String → Option Groups
groups minor patch pre =
    some record { major = "1"; minor = minor; patch = patch; pre = pre; build = "" }

abbrev known_groups : String → Option Groups
known_groups s =
    if s == "1.9.0"
    then groups "9" "0" ""
    else (if s == "1.10.0"
        then groups "10" "0" ""
        else (if s == "1.11.0-beta.5" then groups "11" "0" "beta.5" else none))

abbrev known_number : String → ℤ × Bool
known_number s =
    if s == "1"
    then (pos 1, true)
    else (if s == "9"
        then (pos 9, true)
        else (if s == "10"
            then (pos 10, true)
            else (if s == "11" then (pos 11, true) else (pos 0, s == "0"))))

abbrev text_rank : String → ℤ
text_rank s = if s == "" then pos 0 else pos 1

abbrev known_compare : String → String → Sign
known_compare a b = cmp_int (text_rank a) (text_rank b)

abbrev sample : Library
sample = record {
  trim_space = λ s. s;
  find_groups = known_groups;
  atoi = known_number;
  split_dots = λ s. s ∷ [];
  compare_texts = known_compare;
}

abbrev listing : List Release
listing =
    record { version = "1.9.0"; prerelease = false }
    ∷ record { version = "1.11.0-beta.5"; prerelease = true }
    ∷ record { version = "1.10.0"; prerelease = false }
    ∷ []

numeric_test : compare_versions sample "1.9.0" "1.10.0" ≡ less
unfolding program
numeric_test = refl

invalid_test : compare_versions sample "1.9.0" "nightly" ≡ more
unfolding program
invalid_test = refl

latest_stable_test : latest_stable sample listing ≡ "1.10.0"
unfolding program
latest_stable_test = refl

latest_stable-lem_example :
    (compare_versions sample "1.9.0" (latest_stable sample listing) ≢ more)
    × ((r : Release) × Memᴰ r listing
        × (r.prerelease ≡ false)
        × (r.version ≡ latest_stable sample listing))
latest_stable-lem_example =
    latest_stable-lem sample (on-IsOrder cmp_int text_rank cmp_int-IsOrder) listing
      (record { version = "1.9.0"; prerelease = false }) (refl, (refl, (refl, tt))) (Memᴰ.head refl)
      refl
