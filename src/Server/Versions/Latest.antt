-- ===== src/Server/Versions/Latest.antt =====
-- The newest stable release of a listing (internal/server/httpapi/singbox_releases.go).
use fobe.Prelude.{
  String, List, [], ◌∷◌, false, not, ◌&&◌, ◌||◌, if◌then◌else◌, ◌==◌, ◌≡◌, ◌≢◌, refl, sym, ◌∙◌, ap,
  ◌⊎◌, eq→beq, inl, inr, arith, All, String-HasEq,
}
use mathlib.Core.List.{Memᴰ}
use fobe.Server.Versions.{
  more, Library, Release, is_more, compare_versions, latest_from, latest_stable,
}
use fobe.Server.Versions.Order.{IsOrder, refl_of, not_more_trans}
use fobe.Server.Versions.Precedence.{compare_versions-IsOrder}

module _ (lib : Library) (texts : IsOrder lib.compare_texts) where
  -- One more release: it is taken if nothing newer stands.
  pick : String → Release → String
  pick latest rel =
      if not rel.prerelease && ((latest == "") || is_more (compare_versions lib rel.version latest))
      then rel.version
      else latest

  -- Is `x` a version that the one found so far is not older than?
  not_newer-pick :
      (latest : String) (rel : Release)
      → (latest == "") ≡ false
      → (rel.version == "") ≡ false
      → (compare_versions lib latest (pick latest rel) ≢ more) × ((pick latest rel == "") ≡ false)
  unfolding pick
  not_newer-pick latest rel h k =
      let o = compare_versions-IsOrder lib texts in
      ground (arith, o.swap rel.version latest, refl_of (compare_versions lib) o latest)

  not_newer-latest_from :
      (latest : String) (rels : List Release)
      → (latest == "") ≡ false
      → All (λ r. (r.version == "") ≡ false) rels
      → compare_versions lib latest (latest_from lib latest rels) ≢ more
  unfolding latest_from pick
  not_newer-latest_from latest [] h named =
      let o = compare_versions-IsOrder lib texts in
      ground (arith, refl_of (compare_versions lib) o latest)
  not_newer-latest_from latest (rel ∷ rels) h named =
      let (step, full) = not_newer-pick latest rel h named.0 in
      not_more_trans (compare_versions lib) (compare_versions-IsOrder lib texts) latest
        (pick latest rel) (latest_from lib (pick latest rel) rels) step
        (not_newer-latest_from (pick latest rel) rels full named.1)

  -- A stable release that the loop reaches is not newer than what it takes.
  pick-stable :
      (latest : String) (rel : Release)
      → rel.prerelease ≡ false
      → (rel.version == "") ≡ false
      → (compare_versions lib rel.version (pick latest rel) ≢ more)
        × ((pick latest rel == "") ≡ false)
  unfolding pick
  pick-stable latest rel stable k =
      let o = compare_versions-IsOrder lib texts in
      ground (arith, refl_of (compare_versions lib) o rel.version)

  latest_from-newest :
      (latest : String) (rels : List Release) (rel : Release)
      → All (λ r. (r.version == "") ≡ false) rels
      → Memᴰ rel rels
      → rel.prerelease ≡ false
      → compare_versions lib rel.version (latest_from lib latest rels) ≢ more
  unfolding latest_from pick
  latest_from-newest latest [] rel named m stable = elim m [ ]
  latest_from-newest latest (r ∷ rels) rel named (Memᴰ.head e) stable =
      let own : compare_versions lib r.version (latest_from lib (pick latest r) rels) ≢ more =
        let (step, full) =
          pick-stable latest r (sym (ap (λ (x : Release). x.prerelease) e) ∙ stable) named.0 in
        not_more_trans (compare_versions lib) (compare_versions-IsOrder lib texts) r.version
          (pick latest r) (latest_from lib (pick latest r) rels) step
          (not_newer-latest_from (pick latest r) rels full named.1) in
      λ h. own (
        ap (λ (x : Release). compare_versions lib x.version (latest_from lib (pick latest r) rels))
          (sym e)
        ∙ h)
  latest_from-newest latest (r ∷ rels) rel named (Memᴰ.tail m) stable =
      latest_from-newest (pick latest r) rels rel named.1 m stable

  pick-cases :
      (latest : String) (rel : Release)
      → (pick latest rel ≡ latest) ⊎ ((rel.prerelease ≡ false) × (pick latest rel ≡ rel.version))
  unfolding pick
  pick-cases latest rel = ground arith

  -- What the loop ends with is a stable release of the listing, or where it began.
  latest_from-cases :
      (latest : String) (rels : List Release)
      → (latest_from lib latest rels ≡ latest)
        ⊎ ((r : Release) × Memᴰ r rels
            × (r.prerelease ≡ false)
            × (r.version ≡ latest_from lib latest rels))
  unfolding latest_from pick
  latest_from-cases latest [] = inl refl
  latest_from-cases latest (rel ∷ rels) = elim (latest_from-cases (pick latest rel) rels) [
    | inr (r, m, stable, e) ↦ inr (r, Memᴰ.tail m, stable, e)
    | inl e ↦ elim (pick-cases latest rel) [
      | inl kept ↦ inl (e ∙ kept)
      | inr (stable, taken) ↦ inr (rel, Memᴰ.head refl, stable, sym (e ∙ taken))
    ]
  ]

  named-latest_from :
      (latest : String) (rels : List Release)
      → (latest == "") ≡ false
      → All (λ r. (r.version == "") ≡ false) rels
      → (latest_from lib latest rels == "") ≡ false
  unfolding latest_from pick
  named-latest_from latest [] h named = h
  named-latest_from latest (rel ∷ rels) h named =
      named-latest_from (pick latest rel) rels (not_newer-pick latest rel h named.0).1 named.1

  latest_from-named :
      (latest : String) (rels : List Release) (rel : Release)
      → All (λ r. (r.version == "") ≡ false) rels
      → Memᴰ rel rels
      → rel.prerelease ≡ false
      → (latest_from lib latest rels == "") ≡ false
  unfolding latest_from pick
  latest_from-named latest [] rel named m stable = elim m [ ]
  latest_from-named latest (r ∷ rels) rel named (Memᴰ.head e) stable =
      named-latest_from (pick latest r) rels
        (pick-stable latest r (sym (ap (λ (x : Release). x.prerelease) e) ∙ stable) named.0).1
        named.1
  latest_from-named latest (r ∷ rels) rel named (Memᴰ.tail m) stable =
      latest_from-named (pick latest r) rels rel named.1 m stable

  -- If the comparison of texts is an order, no release of a listing has an empty version, and
  -- one of them, `rel`, is stable: the version found as the latest stable one is that of a
  -- stable release of the listing, and `rel` is not newer than it by CompareVersions, with or
  -- without suffixes and versions that do not parse.
  pub latest_stable-lem :
      (rels : List Release) (rel : Release)
      → All (λ r. (r.version == "") ≡ false) rels
      → Memᴰ rel rels
      → rel.prerelease ≡ false
      → (compare_versions lib rel.version (latest_stable lib rels) ≢ more)
        × ((r : Release) × Memᴰ r rels
            × (r.prerelease ≡ false)
            × (r.version ≡ latest_stable lib rels))
  unfolding latest_stable
  latest_stable-lem rels rel named m stable = (
    latest_from-newest "" rels rel named m stable,
    elim (latest_from-cases "" rels) [
      | inr found ↦ found
      | inl e ↦
          let full = latest_from-named "" rels rel named m stable in
          absurd (ground (arith, full, eq→beq (latest_from lib "" rels) "" e))
    ],
  )
