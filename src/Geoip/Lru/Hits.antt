-- ===== src/Geoip/Lru/Hits.antt =====
-- A key that the cache holds comes to the front, by a lookup or with another code.
use fobe.Prelude.{
  ℕ, zero, suc, ◌≤◌, String, List, [], ◌∷◌, false, none, some, take, length, ◌==◌, String-HasEq,
  ℕ-HasEq, HasEq, beq→eq, beq_refl, ◌≡◌, refl, sym, ap, ◌∙◌, arith, Bool-cases, Option-cases, inl,
  inr,
}
use fobe.Prelude.Table.{lookup, delete, update, IsKeyed, lookup-delete, delete-IsKeyed}
use fobe.Geoip.Lru.{Item, Elements, Lru, remove, move_to_front, code_of, get}
use fobe.Geoip.Lru.Recency.{Recency, without, touch}
use fobe.Geoip.Lru.Elements.{
  recency, element_of, IsProper, IsHeld, element_of-IsHeld, element_of-recency, recency-remove,
  element_of-remove, length-delete,
}

-- The map and the list of elements agree.
pub record IsWell (c : Lru) : Type 0 where
  pub proper : IsProper c.ll
  pub mapped : (key : String) → lookup key c.els ≡ element_of key c.ll
  pub keyed : IsKeyed c.els
  pub sized : length c.els ≡ length c.ll
  pub unused : (el : ℕ) → c.fresh ≤ el → lookup el c.ll ≡ none

-- The cache stands for a recency list, within its capacity.
pub record Refines (capacity : ℕ) (c : Lru) (l : Recency) : Type 0 where
  pub well : IsWell c
  pub stands : recency c.ll ≡ l
  pub same_capacity : c.capacity ≡ capacity
  pub bounded : length c.ll ≤ capacity

pub absent-delete {ℓ κ} :
    {K : Type ℓ} {V : Type κ} ⦃e : HasEq K⦄ (key : K) (m : List (K × V))
    → IsKeyed m
    → lookup key (delete (λ j _. j == key) m) ≡ none
absent-delete key m d =
    lookup-delete (λ j _. j == key) key m d ∙ elim (Option-cases (lookup key m)) [
      | inl y ↦ rw y refl
      | inr (v, y) ↦ rw y (rw (beq_refl key) refl)
    ]

-- The cache with the element of a key at the front, whatever its new code.
abbrev pub fronted : ℕ → Item → Lru → Lru
fronted el item c = record c { ll = (el, item) ∷ remove el c.ll }

module _ (key : String) (el : ℕ) (item : Item) (c : Lru) (h : IsWell c)
    (at_key : lookup key c.els ≡ some el) (key_of : item.key ≡ key) where
  of_key : element_of key c.ll ≡ some el
  of_key = sym (h.mapped key) ∙ at_key

  recency-fronted : recency (fronted el item c).ll ≡ (key, item.code) ∷ without key (recency c.ll)
  recency-fronted =
      rw key_of (ap (λ l. (key, item.code) ∷ l) (recency-remove key el c.ll h.proper of_key))

  length-fronted : length (fronted el item c).ll ≡ length c.ll
  unfolding remove
  length-fronted =
      let proper = h.proper in
      let held = element_of-IsHeld key el c.ll proper.elements of_key in
      length-delete el held.item c.ll proper.elements held.found

  mapped-fronted : (other : String) → lookup other c.els ≡ element_of other (fronted el item c).ll
  mapped-fronted other = elim (Bool-cases (item.key == other)) [
    | inl y ↦
        let same : key ≡ other = sym key_of ∙ beq→eq item.key other y in
        rw y (ap (λ k. lookup k c.els) (sym same) ∙ at_key)
    | inr y ↦
        let apart : (key == other) ≡ false = rw key_of at y in
        rw y (
          h.mapped other
          ∙ sym (element_of-remove key el c.ll other h.proper of_key ∙ rw apart refl))
  ]

  unused-fronted : (i : ℕ) → c.fresh ≤ i → lookup i (fronted el item c).ll ≡ none
  unfolding remove lookup
  unused-fronted i k =
      let proper = h.proper in
      let held = element_of-IsHeld key el c.ll proper.elements of_key in
      elim (Bool-cases (el == i)) [
        | inl y ↦ absurd (
            let same : el ≡ i = beq→eq el i y in
            let none_here : lookup el c.ll ≡ none = h.unused el (omega (arith, same)) in
            let some_here = held.found in
            let clash : some held.item ≡ none = sym some_here ∙ none_here in ground arith)
        | inr y ↦
            rw y (lookup-delete (λ j _. j == el) i c.ll proper.elements ∙ rw (h.unused i k) refl)
      ]

  fronted-IsWell : IsWell (fronted el item c)
  unfolding remove lookup
  fronted-IsWell =
      let proper = h.proper in
      let held = element_of-IsHeld key el c.ll proper.elements of_key in
      record {
        proper = record {
          elements = (
            absent-delete el c.ll proper.elements,
            delete-IsKeyed (λ i _. i == el) c.ll proper.elements,
          );
          keys =
              rw (recency-remove key el c.ll proper of_key, key_of)
                (
                  absent-delete key (recency c.ll) proper.keys,
                  delete-IsKeyed (λ k _. k == key) (recency c.ll) proper.keys,
                );
        };
        mapped = mapped-fronted;
        keyed = h.keyed;
        sized = h.sized ∙ sym length-fronted;
        unused = unused-fronted;
      }

touch-absent : (key : String) (l : Recency) → lookup key l ≡ none → touch key l ≡ l
touch-absent key l h = rw (h, touch) refl

touch-known :
    (key code : String) (l : Recency)
    → lookup key l ≡ some code
    → touch key l ≡ (key, code) ∷ without key l
touch-known key code l h = rw (h, touch) refl

pub move_to_front-lem :
    (el : ℕ) (item : Item) (ll : Elements)
    → lookup el ll ≡ some item
    → move_to_front el ll ≡ (el, item) ∷ remove el ll
unfolding move_to_front
move_to_front-lem el item ll h = rw (h, move_to_front) refl

code_of-front :
    (el : ℕ) (item : Item) (ll : Elements) → code_of el ((el, item) ∷ ll) ≡ some item.code
unfolding lookup
code_of-front el item ll = rw (beq_refl el, code_of) refl

-- A hit: the element comes to the front, perhaps with another code.
pub hit-Refines :
    (capacity : ℕ) (key : String) (el : ℕ) (item : Item) (c : Lru) (l : Recency)
    → Refines capacity c l
    → lookup key c.els ≡ some el
    → item.key ≡ key
    → Refines capacity (fronted el item c) ((key, item.code) ∷ without key l)
hit-Refines capacity key el item c l r y key_of = record {
  well = fronted-IsWell key el item c r.well y key_of;
  stands = rw (sym r.stands) (recency-fronted key el item c r.well y key_of);
  same_capacity = r.same_capacity;
  bounded = rw (length-fronted key el item c r.well y key_of) r.bounded;
}

pub IsHeld-lem :
    (key : String) (el : ℕ) (c : Lru) → IsWell c → lookup key c.els ≡ some el → IsHeld key el c.ll
IsHeld-lem key el c h y =
    let proper = h.proper in element_of-IsHeld key el c.ll proper.elements (sym (h.mapped key) ∙ y)

-- Lookups.
pub get-lem :
    (capacity : ℕ) (key : String) (c : Lru) (l : Recency)
    → Refines capacity c l
    → ((get key c).0 ≡ lookup key l) × Refines capacity (get key c).1 (touch key l)
unfolding get
get-lem capacity key c l r = elim (Option-cases (lookup key c.els)) [
  | inl y ↦
      let well = r.well in
      let absent : lookup key l ≡ none =
        rw (sym r.stands) (element_of-recency key c.ll (sym (well.mapped key) ∙ y)) in
      rw (y, get) (sym absent, rw (touch-absent key l absent) r)
  | inr (el, y) ↦
      let held = IsHeld-lem key el c r.well y in
      let known : lookup key l ≡ some held.item.code = rw (sym r.stands) held.known in
      rw (y, get)
        (rw (move_to_front-lem el held.item c.ll held.found) (
          code_of-front el held.item (remove el c.ll) ∙ sym known,
          rw (touch-known key held.item.code l known)
              (hit-Refines capacity key el held.item c l r y held.key_of),
        ))
]

update-absent :
    (f : Item → Item) (el : ℕ) (ll : Elements)
    → lookup el ll ≡ none
    → update (λ i _. i == el) f ll ≡ ll
unfolding update lookup
update-absent f el [] h = refl
update-absent f el ((i, item) ∷ ll) h = elim (Bool-cases (i == el)) [
  | inl y ↦ absurd (let k : some item ≡ none = rw y at h in ground arith)
  | inr y ↦ rw y (ap (λ rest. (i, item) ∷ rest) (update-absent f el ll (rw y at h)))
]

pub update-front :
    (f : Item → Item) (el : ℕ) (item : Item) (ll : Elements)
    → lookup el ll ≡ none
    → update (λ i _. i == el) f ((el, item) ∷ ll) ≡ (el, f item) ∷ ll
unfolding update
update-front f el item ll h =
    rw (beq_refl el) (ap (λ rest. (el, f item) ∷ rest) (update-absent f el ll h))

pub take-all : {A : Type 0} (n : ℕ) (l : List A) → length l ≤ n → take n l ≡ l
take-all zero [] h = refl
take-all zero (x ∷ l) h = absurd (omega arith)
take-all (suc n) [] h = refl
take-all (suc n) (x ∷ l) h = ap (λ rest. x ∷ rest) (take-all n l (omega arith))

pub length-recency : (ll : Elements) → length (recency ll) ≡ length ll
length-recency [] = refl
length-recency (e ∷ ll) = ap suc (length-recency ll)
