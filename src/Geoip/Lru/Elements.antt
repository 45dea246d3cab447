-- ===== src/Geoip/Lru/Elements.antt =====
-- Lists of elements, and the recency list that they stand for.
use fobe.Prelude.{
  ℕ, zero, suc, String, List, [], ◌∷◌, true, false, Option, none, some, take, length, if◌then◌else◌,
  ◌==◌, String-HasEq, ℕ-HasEq, HasEq, beq→eq, eq→beq, ◌≡◌, refl, sym, ap, ◌∙◌, arith, Bool-cases,
  inl, inr, ◌⊎◌,
}
use fobe.Prelude.Table.{lookup, delete, IsKeyed}
use fobe.Geoip.Lru.{Item, Elements, remove, back}
use fobe.Geoip.Lru.Recency.{Recency, without}

abbrev pub recency : Elements → Recency
recency [] = []
recency ((i, item) ∷ ll) = (item.key, item.code) ∷ recency ll

-- The element that holds a key.
abbrev pub element_of : String → Elements → Option ℕ
element_of key [] = none
element_of key ((i, item) ∷ ll) = if item.key == key then some i else element_of key ll

-- No element and no key stands twice.
pub record IsProper (ll : Elements) : Type 0 where
  pub elements : IsKeyed ll
  pub keys : IsKeyed (recency ll)

pub delete-absent {ℓ κ} :
    {K : Type ℓ} {V : Type κ} ⦃e : HasEq K⦄ (key : K) (m : List (K × V))
    → lookup key m ≡ none
    → delete (λ j _. j == key) m ≡ m
unfolding lookup delete
delete-absent key [] h = refl
delete-absent key ((j, v) ∷ m) h = elim (Bool-cases (j == key)) [
  | inl y ↦ absurd (let k : some v ≡ none = rw y at h in ground arith)
  | inr y ↦ rw y (ap (λ rest. (j, v) ∷ rest) (delete-absent key m (rw y at h)))
]

pub length-delete {ℓ κ} :
    {K : Type ℓ} {V : Type κ} ⦃e : HasEq K⦄ (key : K) (v : V) (m : List (K × V))
    → IsKeyed m
    → lookup key m ≡ some v
    → suc (length (delete (λ j _. j == key) m)) ≡ length m
unfolding lookup delete
length-delete key v [] d h = ground arith
length-delete key v ((j, w) ∷ m) (new, d) h = elim (Bool-cases (j == key)) [
  | inl y ↦ rw y (rw (delete-absent key m (rw (sym (beq→eq j key y)) new)) refl)
  | inr y ↦ rw y (ap suc (length-delete key v m d (rw y at h)))
]

-- A key that is in a table is not one that is not.
absent-other {ℓ κ} :
    {K : Type ℓ} {V : Type κ} ⦃e : HasEq K⦄ (j k : K) (v : V) (m : List (K × V))
    → lookup j m ≡ none
    → lookup k m ≡ some v
    → (j == k) ≡ false
absent-other j k v m a b = elim (Bool-cases (j == k)) [
  | inr y ↦ y
  | inl y ↦ absurd (
      let same : some v ≡ none = sym b ∙ ap (λ i. lookup i m) (sym (beq→eq j k y)) ∙ a in
      ground arith)
]

pub element_of-recency :
    (key : String) (ll : Elements) → element_of key ll ≡ none → lookup key (recency ll) ≡ none
unfolding lookup
element_of-recency key [] h = refl
element_of-recency key ((i, item) ∷ ll) h = ground (arith, element_of-recency key ll)

-- The element that holds a key is in the list, with that key.
pub record IsHeld (key : String) (el : ℕ) (ll : Elements) : Type 0 where
  pub item : Item
  pub found : lookup el ll ≡ some item
  pub key_of : item.key ≡ key
  pub known : lookup key (recency ll) ≡ some item.code

pub element_of-IsHeld :
    (key : String) (el : ℕ) (ll : Elements)
    → IsKeyed ll
    → element_of key ll ≡ some el
    → IsHeld key el ll
unfolding lookup
element_of-IsHeld key el [] d h = ground arith
element_of-IsHeld key el ((i, item) ∷ ll) (new, d) h = elim (Bool-cases (item.key == key)) [
  | inl y ↦
      let same : i ≡ el = (let k : some i ≡ some el = rw y at h in cc) in
      record {
        item = item;
        found = rw (eq→beq i el same) refl;
        key_of = beq→eq item.key key y;
        known = rw y refl;
      }
  | inr y ↦
      let rest = element_of-IsHeld key el ll d (rw y at h) in
      let other : (i == el) ≡ false = absent-other i el rest.item ll new rest.found in
      record {
        item = rest.item;
        found = rw other rest.found;
        key_of = rest.key_of;
        known = rw y rest.known;
      }
]

recency-element_of :
    (key : String) (ll : Elements) → lookup key (recency ll) ≡ none → element_of key ll ≡ none
unfolding lookup
recency-element_of key [] h = refl
recency-element_of key ((i, item) ∷ ll) h = ground (arith, recency-element_of key ll)

-- The first element holds the key, which is nowhere else, or it is another with another key.
IsFirst : ℕ → String → ℕ → Item → Elements → Type 0
IsFirst el key i item ll =
    (item.key ≡ key) × ((i == el) ≡ true) × (remove el ll ≡ ll) × (element_of key ll ≡ none)

record IsLater (el : ℕ) (key : String) (i : ℕ) (item : Item) (ll : Elements) : Type 0 where
  no_key : (item.key == key) ≡ false
  no_element : (i == el) ≡ false
  proper : IsProper ll
  held : element_of key ll ≡ some el

head_cases :
    (key : String) (el i : ℕ) (item : Item) (ll : Elements)
    → IsProper ((i, item) ∷ ll)
    → element_of key ((i, item) ∷ ll) ≡ some el
    → IsFirst el key i item ll ⊎ IsLater el key i item ll
unfolding IsFirst remove
head_cases key el i item ll d h =
    let (new, elements) = d.elements in
    let (new_key, keys) = d.keys in
    elim (Bool-cases (item.key == key)) [
      | inl y ↦
          let same : i ≡ el = (let k : some i ≡ some el = rw y at h in cc) in
          let key_of : item.key ≡ key = beq→eq item.key key y in
          inl (
            key_of,
            eq→beq i el same,
            delete-absent el ll (rw (sym same) new),
            recency-element_of key ll (rw (sym key_of) new_key),
          )
      | inr y ↦
          let at_rest : element_of key ll ≡ some el = rw y at h in
          let held = element_of-IsHeld key el ll elements at_rest in
          inr (record {
            no_key = y;
            no_element = absent-other i el held.item ll new held.found;
            proper = record { elements = elements; keys = keys };
            held = at_rest;
          })
    ]

-- Removing the element of a key forgets the key, and nothing else.
pub recency-remove :
    (key : String) (el : ℕ) (ll : Elements)
    → IsProper ll
    → element_of key ll ≡ some el
    → recency (remove el ll) ≡ without key (recency ll)
unfolding remove delete IsFirst
recency-remove key el [] d h = refl
recency-remove key el ((i, item) ∷ ll) d h = elim (head_cases key el i item ll d h) [
  | inl (key_of, here, gone, absent) ↦
      rw (here, eq→beq item.key key key_of)
        (ap recency gone ∙ sym (delete-absent key (recency ll) (element_of-recency key ll absent)))
  | inr later ↦
      rw (later.no_key, later.no_element)
        (ap (λ rest. (item.key, item.code) ∷ rest)
          (recency-remove key el ll later.proper later.held))
]

pub element_of-remove :
    (key : String) (el : ℕ) (ll : Elements) (other : String)
    → IsProper ll
    → element_of key ll ≡ some el
    → element_of other (remove el ll) ≡ (if key == other then none else element_of other ll)
unfolding remove delete IsFirst
element_of-remove key el [] other d h = ground arith
element_of-remove key el ((i, item) ∷ ll) other d h = elim (head_cases key el i item ll d h) [
  | inl (key_of, here, gone, absent) ↦
      rw (here, gone, key_of)
        (elim (Bool-cases (key == other)) [
          | inl y ↦ rw y (rw (sym (beq→eq key other y)) absent)
          | inr y ↦ rw y refl
        ])
  | inr later ↦ rw later.no_element (elim (Bool-cases (item.key == other)) [
    | inl y ↦
        let apart : (key == other) ≡ false = elim (Bool-cases (key == other)) [
          | inr z ↦ z
          | inl z ↦ absurd (
              let same : (item.key == key) ≡ true =
                eq→beq item.key key (beq→eq item.key other y ∙ sym (beq→eq key other z)) in
              let no_key = later.no_key in cc)
        ] in
        rw (apart, y) refl
    | inr y ↦ rw y (element_of-remove key el ll other later.proper later.held)
  ])
]

-- The last element: its key is its own, and without it the list is cut by one.
record IsLast (el : ℕ) (item : Item) (ll : Elements) (n : ℕ) : Type 0 where
  own : element_of item.key ll ≡ some el
  cut : recency (remove el ll) ≡ take n (recency ll)

back-IsLast :
    (el : ℕ) (item : Item) (ll : Elements) (n : ℕ)
    → IsProper ll
    → back ll ≡ some (el, item)
    → length ll ≡ suc n
    → IsLast el item ll n
unfolding remove delete
back-IsLast el item [] n d h l = ground arith
back-IsLast el item ((i, it) ∷ []) (suc n) d h l = absurd (omega arith)
back-IsLast el item ((i, it) ∷ f ∷ rest) zero d h l = absurd (omega arith)
back-IsLast el item ((i, it) ∷ []) zero d h l =
    let same : some (i, it) ≡ some (el, item) = h in
    let first : i ≡ el = ap (λ o. elim o [ none ↦ i | some e ↦ e.0 ]) same in
    let second : it ≡ item = ap (λ o. elim o [ none ↦ it | some e ↦ e.1 ]) same in
    record {
      own = rw (eq→beq it.key item.key (ap (λ x. x.key) second)) (ap some first);
      cut = rw (eq→beq i el first) refl;
    }
back-IsLast el item ((i, it) ∷ f ∷ rest) (suc n) d h l =
    let (new, elements) = d.elements in
    let (new_key, keys) = d.keys in
    let last =
      back-IsLast el item (f ∷ rest) n (record { elements = elements; keys = keys }) h
        (omega arith) in
    let held = element_of-IsHeld item.key el (f ∷ rest) elements last.own in
    record {
      own = rw (absent-other it.key item.key _ (recency (f ∷ rest)) new_key held.known) last.own;
      cut =
          rw (absent-other i el held.item (f ∷ rest) new held.found)
            (ap (λ l. (it.key, it.code) ∷ l) last.cut);
    }

pub element_of-back :
    (el : ℕ) (item : Item) (ll : Elements) (n : ℕ)
    → IsProper ll
    → back ll ≡ some (el, item)
    → length ll ≡ suc n
    → element_of item.key ll ≡ some el
element_of-back el item ll n d h l = let last = back-IsLast el item ll n d h l in last.own

pub take-remove :
    (el : ℕ) (item : Item) (ll : Elements) (n : ℕ)
    → IsProper ll
    → back ll ≡ some (el, item)
    → length ll ≡ suc n
    → recency (remove el ll) ≡ take n (recency ll)
take-remove el item ll n d h l = let last = back-IsLast el item ll n d h l in last.cut
