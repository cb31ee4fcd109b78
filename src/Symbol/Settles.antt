-- ===== src/Symbol/Settles.antt =====
-- src/symbol.rs: the search of `find_membertype` ends, and the one way in which it panics.
use a2ltool.Prelude.{
  ℕ, zero, suc, ◌+◌, ◌≤◌, Text, codes, Option, none, some, Bool, true, false, List, [], ◌∷◌,
  Outcome, ok, err, panic, out_of_fuel, ◌>>=◌, ltb, ltb→lt, if◌then◌else◌, length, get_or,
  get_elem?, ◌≡◌, ◌≢◌, refl, arith, Bool-cases, ◌==◌, inl, inr, Option-cases, ◌↔◌, ◌⊎◌, ◌∙◌,
  ends_with,
}
use a2ltool.DebugInfo.{
  TypeInfo, DbgDataType, TypeTable, type_info, class, struct, union, array, Members, members_get,
}
use a2ltool.Symbol.Info.{SymbolError}
use a2ltool.Symbol.Names.{get_index}
use a2ltool.Symbol.Members.{
  Found, Search, index_or_error, read_indices, into_array, into_member, into_base_class,
  into_datatype, find_membertype_fuel, find_membertype,
}

abbrev lone_underscore : Text
lone_underscore = b'_' ∷ []

abbrev ok_of {ℓ} : {A : Type ℓ} → A → Outcome ⊥ A
ok_of a = ok a

if-ok {ℓ} : {A : Type ℓ} (b : Bool) (v w : A) → (u : A) × ((if b then ok v else ok w) ≡ ok_of u)
if-ok true v w = (v, refl)
if-ok false v w = (w, refl)

-- `get_index` returns on every text but "_".
get_index-returns : (s : Text) → (s ≡ lone_underscore) ⊎ ((v : Option ℕ) × (get_index s ≡ ok v))
unfolding get_index ends_with
get_index-returns [] = inr (none, refl)
get_index-returns (x ∷ []) = elim (Bool-cases (x == b'_')) [
  | inl same ↦ inl (ground arith)
  | inr other ↦ inr (none, ground arith)
]
get_index-returns (x ∷ y ∷ r) = inr (if-ok _ _ _)

-- `get_index` panics on the text "_", and on no other.
pub get_index-panic : (s : Text) → (get_index s ≡ panic) ↔ (s ≡ b'_' ∷ [])
get_index-panic s = (
  λ e. elim (get_index-returns s) [ inl lone ↦ lone | inr (v, r) ↦ cc ],
  λ e. rw e (unfold get_index ends_with in refl),
)

get_index-out_of_fuel : (s : Text) → get_index s ≢ out_of_fuel
get_index-out_of_fuel s e = elim (get_index-returns s) [
  | inl lone ↦ cc (e, (get_index-panic s).1 lone)
  | inr (v, r) ↦ cc
]

get_elem?-lone :
    (xs : List Text) (i : ℕ)
    → get_or xs i (codes "_0_") ≡ lone_underscore
    → get_elem? xs i ≡ some lone_underscore
get_elem?-lone [] i h = cc
get_elem?-lone (x ∷ xs) zero h = cc
get_elem?-lone (x ∷ xs) (suc i) h = get_elem?-lone xs i h

-- From the component `low` on, one is "_".
abbrev pub HasLoneUnderscore : List Text → ℕ → Type 0
HasLoneUnderscore components low = (i : ℕ) × (low ≤ i) × (get_elem? components i ≡ some (b'_' ∷ []))

module _ (types : TypeTable) (components : List Text) (low : ℕ) where
  -- Not out of fuel, and a panic only where a component is "_".
  abbrev Settled {ℓ} : {A : Type ℓ} → Outcome SymbolError A → Type 0
  Settled (ok a) = Unit
  Settled (err e) = Unit
  Settled panic = HasLoneUnderscore components low
  Settled out_of_fuel = ⊥

  Settled-bind {ℓ κ} :
      {A : Type ℓ} {B : Type κ} (m : Outcome SymbolError A) (f : A → Outcome SymbolError B)
      → Settled m
      → ((a : A) → Settled (f a))
      → Settled (m >>= f)
  Settled-bind (ok a) f hm hf = hf a
  Settled-bind (err e) f hm hf = tt
  Settled-bind panic f hm hf = hm
  Settled-bind out_of_fuel f hm hf = hm

  Settled-if {ℓ} :
      {A : Type ℓ} (b : Bool) (m n : Outcome SymbolError A)
      → (b ≡ true → Settled m)
      → (b ≡ false → Settled n)
      → Settled (if b then m else n)
  Settled-if true m n hm hn = hm refl
  Settled-if false m n hm hn = hn refl

  index_or_error-Settled :
      (position : ℕ) (component : Text) (r : Outcome ⊥ (Option ℕ))
      → low ≤ position
      → get_or components position (codes "_0_") ≡ component
      → get_index component ≡ r
      → Settled (index_or_error component r)
  index_or_error-Settled position component (ok (some i)) from named e = tt
  index_or_error-Settled position component (ok none) from named e = tt
  index_or_error-Settled position component (err x) from named e = absurd x
  index_or_error-Settled position component panic from named e =
      (position, from, get_elem?-lone components position (named ∙ (get_index-panic component).0 e))
  index_or_error-Settled position component out_of_fuel from named e =
      absurd (get_index-out_of_fuel component e)

  read_indices-Settled :
      (dims : List ℕ) (position m : ℕ)
      → low ≤ position
      → Settled (read_indices types components dims position m)
  unfolding read_indices
  read_indices-Settled [] position m from = tt
  read_indices-Settled (d ∷ ds) position m from =
      Settled-bind _ _ (index_or_error-Settled position _ _ from refl refl) λ i.
        Settled-if (ltb i d) _ _ (λ h. read_indices-Settled ds (suc position) _ (omega arith))
          (λ h. tt)

  -- A search that settles from a component index on.
  abbrev SettlesFrom : ℕ → Search → Type 0
  SettlesFrom first search =
      (t : TypeInfo) (index a : ℕ) → first ≤ index → Settled (search t index a)

  module _ (first : ℕ) (search : Search) (settles : SettlesFrom (suc first) search) (index a : ℕ)
      (from : first ≤ index) where
    into_member-Settled :
        (ms : Members) (key : Text) (missing : Found)
        → Settled missing
        → Settled (into_member types components search ms key index a missing)
    unfolding into_member
    into_member-Settled ms key missing otherwise = elim (Option-cases (members_get ms key)) [
      | inl e ↦ rw (e, into_member) otherwise
      | inr ((m, o), e) ↦ rw (e, into_member) (settles _ _ _ (omega arith))
    ]

    into_base_class-Settled :
        (inheritance : Members) (key : Text) (missing : Found)
        → Settled missing
        → Settled (into_base_class types components search inheritance key index a missing)
    unfolding into_base_class
    into_base_class-Settled inheritance key missing otherwise =
        elim (Option-cases (members_get inheritance key)) [
          | inl e ↦ rw (e, into_base_class) otherwise
          | inr ((m, o), e) ↦ rw (e, into_base_class) (settles _ _ _ (omega arith))
        ]

  into_array-Settled :
      (search : ℕ → ℕ → Found) (dim : List ℕ) (stride index a : ℕ)
      → low ≤ index
      → ((a : ℕ) → Settled (search (index + length dim) a))
      → Settled (into_array types components search dim stride index a)
  unfolding into_array
  into_array-Settled search dim stride index a past settles =
      Settled-bind _ _ (read_indices-Settled dim index 0 past) λ multi. settles _

  into_datatype-Settled :
      (first : ℕ) (search : Search)
      → SettlesFrom (suc first) search
      → (d : DbgDataType) (index a : ℕ)
      → ((size stride : ℕ) (u : TypeInfo) → d ≢ array size [] stride u)
      → first ≤ index
      → low ≤ index
      → Settled (into_datatype types components search d index a)
  unfolding into_datatype
  into_datatype-Settled first search settles (class size inheritance ms) index a flat from past =
      into_member-Settled first search settles index a from ms _ _
        (into_base_class-Settled first search settles index a from inheritance _ _ tt)
  into_datatype-Settled first search settles (struct size ms) index a flat from past =
      into_member-Settled first search settles index a from ms _ _ tt
  into_datatype-Settled first search settles (union size ms) index a flat from past =
      into_member-Settled first search settles index a from ms _ _ tt
  into_datatype-Settled first search settles (array size [] stride u) index a flat from past =
      absurd (flat size stride u refl)
  into_datatype-Settled first search settles (array size (d ∷ ds) stride u) index a flat from past =
      into_array-Settled (search u) (d ∷ ds) stride index a past (λ b. settles _ _ _ (omega arith))
  into_datatype-Settled first search settles _ index a flat from past = tt

  -- One unit of fuel for each component that is left is enough.
  find_membertype_fuel-Settled :
      (n : ℕ) (t : TypeInfo) (index a : ℕ)
      → length components ≤ index + n
      → low ≤ index
      → Settled (find_membertype_fuel types components n t index a)
  unfolding find_membertype_fuel
  find_membertype_fuel-Settled zero t index a enough past =
      Settled-if (ltb index (length components)) _ _
        (λ h. absurd (omega (arith, ltb→lt index (length components) h))) (λ h. tt)
  find_membertype_fuel-Settled (suc n) (type_info nm u (array size [] stride v) o) index a enough
        past =
      Settled-if (ltb index (length components)) _ _
        (λ h.
          into_array-Settled (find_membertype_fuel types components (suc n) v) [] stride index a
            past
            (λ b. find_membertype_fuel-Settled (suc n) v (index + 0) b (omega arith) (omega arith)))
        (λ h. tt)
  find_membertype_fuel-Settled (suc n) (type_info nm u d o) index a enough past =
      Settled-if (ltb index (length components)) _ _
        (λ h.
          into_datatype-Settled index (find_membertype_fuel types components n)
            (λ t i b from. find_membertype_fuel-Settled n t i b (omega arith) (omega arith)) d index
            a (λ size stride u. cc) (omega arith) past)
        (λ h. tt)

-- The search of `find_membertype` ends on all inputs (the fuel that it starts with is enough), and
-- it panics only where one of the components from the given one on is the text "_".
pub find_membertype_settles :
    (types : TypeTable) (components : List Text) (t : TypeInfo) (index a : ℕ)
    → (find_membertype types components t index a ≢ out_of_fuel)
      × (find_membertype types components t index a ≡ panic → HasLoneUnderscore components index)
unfolding find_membertype
find_membertype_settles types components t index a =
    let settled =
      find_membertype_fuel-Settled types components index (length components) t index a
        (omega arith) (omega arith) in
    (λ e. rw e at settled, λ e. rw e at settled)
