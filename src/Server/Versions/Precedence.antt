-- ===== src/Server/Versions/Precedence.antt =====
-- The order of versions (internal/server/singboxdl/version.go), put together from the orders of its
-- parts.
use fobe.Prelude.{
  String, List, [], ◌∷◌, Bool, true, false, Option, none, some, if◌then◌else◌, ◌==◌, ◌≡◌, refl, sym,
  ◌∙◌, ap, beq→eq, String-HasEq, arith, Bool-cases, inl, inr,
}
use fobe.Prelude.Int.{ℤ, pos}
use fobe.Server.Versions.{
  less, same, Library, Version, cmp_int, or_else, parse_version, compare_numbers, compare_pre_ident,
  compare_idents, compare_pre, compare, compare_parsed, compare_versions,
}
use fobe.Server.Versions.Order.{
  flip, IsOrder, refl_of, or_else-IsOrder, same_as-IsOrder, on-IsOrder, cmp_int-IsOrder,
}

-- A number comes before a text.
number_rank : ℤ × Bool → ℤ
number_rank (n, true) = pos 0
number_rank (n, false) = pos 1

number_key : ℤ × Bool → ℤ
number_key (n, true) = n
number_key (n, false) = pos 0

text_key : ℤ × Bool → String → String
text_key (n, true) text = ""
text_key (n, false) text = text

-- A text without a suffix comes after those with one.
suffix_rank : String → ℤ
suffix_rank a = if a == "" then pos 1 else pos 0

parsed_rank : Option Version → ℤ
parsed_rank none = pos 0
parsed_rank (some v) = pos 1

parsed_key : Version → Option Version → Version
parsed_key other none = other
parsed_key other (some v) = v

unparsed_key : Option Version → String → String
unparsed_key none text = text
unparsed_key (some v) text = ""

module _ (lib : Library) (texts : IsOrder lib.compare_texts) where
  compare_numbers-keys :
      (x y : ℤ × Bool) (a b : String)
      → compare_numbers x y (lib.compare_texts a b)
        ≡ or_else (cmp_int (number_rank x) (number_rank y)) (
            or_else
              (cmp_int (number_key x) (number_key y))
              (lib.compare_texts (text_key x a) (text_key y b)))
  unfolding number_rank number_key text_key
  compare_numbers-keys (m, true) (n, true) a b = ground (arith, refl_of lib.compare_texts texts "")
  compare_numbers-keys (m, true) (n, false) a b = refl
  compare_numbers-keys (m, false) (n, true) a b = refl
  compare_numbers-keys (m, false) (n, false) a b = refl

  compare_pre_ident-IsOrder : IsOrder (compare_pre_ident lib)
  unfolding compare_pre_ident
  compare_pre_ident-IsOrder =
      same_as-IsOrder
        (λ a b. or_else (cmp_int (number_rank (lib.atoi a)) (number_rank (lib.atoi b))) (
          or_else (cmp_int (number_key (lib.atoi a)) (number_key (lib.atoi b)))
            (lib.compare_texts (text_key (lib.atoi a) a) (text_key (lib.atoi b) b))))
        (compare_pre_ident lib)
        (or_else-IsOrder _ _ (on-IsOrder cmp_int (λ a. number_rank (lib.atoi a)) cmp_int-IsOrder) (
          or_else-IsOrder _ _ (on-IsOrder cmp_int (λ a. number_key (lib.atoi a)) cmp_int-IsOrder)
            (on-IsOrder lib.compare_texts (λ a. text_key (lib.atoi a) a) texts)))
        (λ a b. compare_numbers-keys (lib.atoi a) (lib.atoi b) a b)

  compare_idents-swap :
      (xs ys : List String) → compare_idents lib ys xs ≡ flip (compare_idents lib xs ys)
  unfolding compare_idents
  compare_idents-swap [] [] = refl
  compare_idents-swap [] (y ∷ ys) = ground arith
  compare_idents-swap (x ∷ xs) [] = ground arith
  compare_idents-swap (x ∷ xs) (y ∷ ys) =
      let o = compare_pre_ident-IsOrder in ground (arith, o.swap x y, compare_idents-swap xs ys)

  compare_idents-same :
      (xs ys zs : List String)
      → compare_idents lib xs ys ≡ same
      → compare_idents lib xs zs ≡ compare_idents lib ys zs
  unfolding compare_idents
  compare_idents-same [] [] zs h = refl
  compare_idents-same [] (y ∷ ys) zs h = ground arith
  compare_idents-same (x ∷ xs) [] zs h = ground arith
  compare_idents-same (x ∷ xs) (y ∷ ys) [] h = ground arith
  compare_idents-same (x ∷ xs) (y ∷ ys) (z ∷ zs) h =
      let o = compare_pre_ident-IsOrder in
      ground (arith, o.same_left x y z, compare_idents-same xs ys zs)

  compare_idents-less :
      (xs ys zs : List String)
      → compare_idents lib xs ys ≡ less
      → compare_idents lib ys zs ≡ less
      → compare_idents lib xs zs ≡ less
  unfolding compare_idents
  compare_idents-less [] [] zs h k = ground arith
  compare_idents-less [] (y ∷ ys) [] h k = ground arith
  compare_idents-less [] (y ∷ ys) (z ∷ zs) h k = ground arith
  compare_idents-less (x ∷ xs) [] zs h k = ground arith
  compare_idents-less (x ∷ xs) (y ∷ ys) [] h k = ground arith
  compare_idents-less (x ∷ xs) (y ∷ ys) (z ∷ zs) h k =
      let o = compare_pre_ident-IsOrder in
      ground (
        arith,
        o.swap y z,
        o.swap x z,
        o.swap x y,
        o.same_left x y z,
        o.same_left z y x,
        o.less_trans x y z,
        compare_idents-less xs ys zs,
      )

  compare_idents-IsOrder : IsOrder (compare_idents lib)
  compare_idents-IsOrder = record {
    swap = compare_idents-swap;
    same_left = compare_idents-same;
    less_trans = compare_idents-less;
  }

  compare_pre-keys :
      (a b : String)
      → compare_pre lib a b
        ≡ or_else
            (cmp_int (suffix_rank a) (suffix_rank b))
            (compare_idents lib (lib.split_dots a) (lib.split_dots b))
  unfolding compare_pre suffix_rank
  compare_pre-keys a b = elim (Bool-cases (a == b)) [
    | inl y ↦
        let e : a ≡ b = beq→eq a b y in
        let own : compare_idents lib (lib.split_dots a) (lib.split_dots b) ≡ same =
          sym (ap (λ x. compare_idents lib (lib.split_dots a) (lib.split_dots x)) e)
          ∙ refl_of (compare_idents lib) compare_idents-IsOrder (lib.split_dots a) in
        ground (arith, own, ap suffix_rank e)
    | inr y ↦
        ground
          (arith, String-HasEq.same_iff a b, String-HasEq.same_iff a "", String-HasEq.same_iff b "")
  ]

  compare_pre-IsOrder : IsOrder (compare_pre lib)
  compare_pre-IsOrder =
      same_as-IsOrder
        (λ a b.
          or_else (cmp_int (suffix_rank a) (suffix_rank b))
            (compare_idents lib (lib.split_dots a) (lib.split_dots b)))
        (compare_pre lib)
        (or_else-IsOrder _ _ (on-IsOrder cmp_int suffix_rank cmp_int-IsOrder)
          (on-IsOrder (compare_idents lib) lib.split_dots compare_idents-IsOrder))
        compare_pre-keys

  compare-IsOrder : IsOrder (compare lib)
  unfolding compare
  compare-IsOrder =
      or_else-IsOrder _ _ (on-IsOrder cmp_int (λ (v : Version). v.major) cmp_int-IsOrder) (
        or_else-IsOrder _ _ (on-IsOrder cmp_int (λ (v : Version). v.minor) cmp_int-IsOrder) (
          or_else-IsOrder _ _ (on-IsOrder cmp_int (λ (v : Version). v.patch) cmp_int-IsOrder)
            (on-IsOrder (compare_pre lib) (λ (v : Version). v.pre) compare_pre-IsOrder)))

  compare_parsed-keys :
      (other : Version) (x y : Option Version) (a b : String)
      → compare_parsed lib x y (lib.compare_texts a b)
        ≡ or_else (cmp_int (parsed_rank x) (parsed_rank y)) (
            or_else
              (compare lib (parsed_key other x) (parsed_key other y))
              (lib.compare_texts (unparsed_key x a) (unparsed_key y b)))
  unfolding parsed_rank parsed_key unparsed_key
  compare_parsed-keys other none none a b =
      ground (arith, refl_of (compare lib) compare-IsOrder other)
  compare_parsed-keys other none (some w) a b = refl
  compare_parsed-keys other (some v) none a b = refl
  compare_parsed-keys other (some v) (some w) a b =
      ground (arith, refl_of lib.compare_texts texts "")

  nothing : Version
  nothing = record { major = pos 0; minor = pos 0; patch = pos 0; pre = ""; build = "" }

  pub compare_versions-IsOrder : IsOrder (compare_versions lib)
  unfolding compare_versions
  compare_versions-IsOrder =
      let parse = parse_version lib in
      same_as-IsOrder
        (λ a b. or_else (cmp_int (parsed_rank (parse a)) (parsed_rank (parse b))) (
          or_else (compare lib (parsed_key nothing (parse a)) (parsed_key nothing (parse b)))
            (lib.compare_texts (unparsed_key (parse a) a) (unparsed_key (parse b) b))))
        (compare_versions lib)
        (or_else-IsOrder _ _ (on-IsOrder cmp_int (λ a. parsed_rank (parse a)) cmp_int-IsOrder) (
          or_else-IsOrder _ _
            (on-IsOrder (compare lib) (λ a. parsed_key nothing (parse a)) compare-IsOrder)
            (on-IsOrder lib.compare_texts (λ a. unparsed_key (parse a) a) texts)))
        (λ a b. compare_parsed-keys nothing (parse a) (parse b) a b)
