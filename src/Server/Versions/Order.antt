-- ===== src/Server/Versions/Order.antt =====
-- Comparisons that answer a sign, as in internal/server/singboxdl/version.go, and how orders are put
-- together.
use fobe.Prelude.{◌≡◌, ◌≢◌, String-HasEq, arith}
use fobe.Server.Versions.{Sign, less, same, more, cmp_int, or_else}

abbrev pub flip : Sign → Sign
flip less = more
flip same = same
flip more = less

-- A comparison that orders: both ways round agree, equal ones stand for each other.
pub record IsOrder {ℓ} {A : Type ℓ} (cmp : A → A → Sign) : Type ℓ where
  pub swap : (a b : A) → cmp b a ≡ flip (cmp a b)
  pub same_left : (a b c : A) → cmp a b ≡ same → cmp a c ≡ cmp b c
  pub less_trans : (a b c : A) → cmp a b ≡ less → cmp b c ≡ less → cmp a c ≡ less

module _ {ℓ} {A : Type ℓ} where
  pub refl_of : (cmp : A → A → Sign) (o : IsOrder cmp) (a : A) → cmp a a ≡ same
  refl_of cmp o a = ground (arith, o.swap a a)

  pub not_more_trans :
      (cmp : A → A → Sign) (o : IsOrder cmp) (a b c : A)
      → cmp a b ≢ more
      → cmp b c ≢ more
      → cmp a c ≢ more
  not_more_trans cmp o a b c h k = ground (
    arith,
    o.swap b c,
    o.swap a c,
    o.swap a b,
    o.same_left a b c,
    o.same_left c b a,
    o.less_trans a b c,
  )

  pub or_else-IsOrder :
      (f g : A → A → Sign) → IsOrder f → IsOrder g → IsOrder (λ a b. or_else (f a b) (g a b))
  or_else-IsOrder f g p q = record {
    swap = λ a b. ground (arith, p.swap a b, q.swap a b);
    same_left = λ a b c h. ground (arith, p.same_left a b c, q.same_left a b c);
    less_trans = λ a b c h k. ground (
      arith,
      p.swap b c,
      p.swap a c,
      p.swap a b,
      p.same_left a b c,
      p.same_left c b a,
      p.less_trans a b c,
      q.less_trans a b c,
    );
  }

  pub same_as-IsOrder : (f g : A → A → Sign) → IsOrder f → ((a b : A) → g a b ≡ f a b) → IsOrder g
  same_as-IsOrder f g p e = record {
    swap = λ a b. ground (arith, e a b, e b a, p.swap a b);
    same_left = λ a b c h. ground (arith, e a b, e a c, e b c, p.same_left a b c);
    less_trans = λ a b c h k. ground (arith, e a b, e a c, e b c, p.less_trans a b c);
  }

pub on-IsOrder {ℓ κ} :
    {A : Type ℓ} {B : Type κ} (f : B → B → Sign) (key : A → B)
    → IsOrder f
    → IsOrder (λ a b. f (key a) (key b))
on-IsOrder f key p = record {
  swap = λ a b. p.swap (key a) (key b);
  same_left = λ a b c. p.same_left (key a) (key b) (key c);
  less_trans = λ a b c. p.less_trans (key a) (key b) (key c);
}

pub cmp_int-IsOrder : IsOrder cmp_int
cmp_int-IsOrder = record {
  swap = λ a b. ground arith;
  same_left = λ a b c h. ground arith;
  less_trans = λ a b c h k. ground arith;
}
