-- ===== src/TypeIter/Expand.antt =====
-- The components of a type in the order of its declaration, by plain recursion: an independent
-- description of what the iterator of src/debuginfo/iter.rs lists.

use a2ltool.Prelude.{
  ℕ, zero, suc, ◌+◌, ◌/◌, Text, codes, Option, none, some, Bool, List, [], ◌∷◌, ◌++◌, ◌≡◌, refl,
  Outcome, ok, err, panic, out_of_fuel, wrap64,
}
use a2ltool.DebugInfo.{
  TypeInfo, DbgDataType, Members, end, member, TypeTable, class, struct, union, array, datatype,
  get_reference,
}
use a2ltool.TypeIter.{Item, element_item}

infixl 5 ◌>>=◌
abbrev ◌>>=◌ {ℓ κ} : {A : Type ℓ} {B : Type κ} → Option A → (A → Option B) → Option B
none >>= f = none
some a >>= f = f a

-- A listing that is made of two parts behind an item.
pub join-eq-some :
    (it : Item) (m n : Option (List Item)) {xs : List Item}
    → (m >>= λ inner. n >>= λ rest. some (it ∷ inner ++ rest)) ≡ some xs
    → (inner : List Item) × (rest : List Item) × (m ≡ some inner)
      × (n ≡ some rest)
      × (xs ≡ it ∷ inner ++ rest)
join-eq-some it (some inner) (some rest) h = (inner, rest, refl, refl, cc)
join-eq-some it (some inner) none h = cc
join-eq-some it none n h = cc

abbrev pub Lister : Type 0
Lister = TypeInfo → ℕ → Text → Option (List Item)

abbrev pub value_of {ℓ} : {A : Type ℓ} → Outcome ⊥ A → Option A
value_of (ok a) = some a
value_of _ = none

pub element-value {ℓ} : {A : Type ℓ} (r : Outcome ⊥ A) {a : A} → value_of r ≡ some a → r ≡ ok a
element-value (ok a) h = cc
element-value (err e) h = cc
element-value panic h = cc
element-value out_of_fuel h = cc

module _ (types : TypeTable) (new_arrays : Bool) where
  -- Each member, followed by its own components.
  unfoldable pub expand_members : Lister → Members → ℕ → Text → Option (List Item)
  expand_members list end base prev = some []
  expand_members list (member nm t o ms) base prev = do
    let t' = get_reference t types
    let offset = wrap64 (base + o)
    let full = prev ++ codes "." ++ nm
    inner ← list t' offset full
    rest ← expand_members list ms base prev
    some ((full, t', offset) ∷ inner ++ rest)

  -- The next `n` elements from position `i` on, each followed by its own components.
  unfoldable pub expand_elements :
      Lister → ℕ → ℕ → List ℕ → ℕ → TypeInfo → ℕ → Text → Option (List Item)
  expand_elements list zero i dim stride arraytype base prev = some []
  expand_elements list (suc n) i dim stride arraytype base prev = do
    it ← value_of (element_item new_arrays dim stride arraytype i base prev)
    inner ← list it.1 it.2 it.0
    rest ← expand_elements list n (suc i) dim stride arraytype base prev
    some (it ∷ inner ++ rest)

  unfoldable pub expand_datatype : Lister → DbgDataType → ℕ → Text → Option (List Item)
  unfolding expand_members expand_elements
  expand_datatype list (class size inheritance ms) base prev = expand_members list ms base prev
  expand_datatype list (struct size ms) base prev = expand_members list ms base prev
  expand_datatype list (union size ms) base prev = expand_members list ms base prev
  expand_datatype list (array size dim zero arraytype) base prev = none
  expand_datatype list (array size dim (suc stride) arraytype) base prev =
      expand_elements list (size / suc stride) 0 dim (suc stride) arraytype base prev
  expand_datatype list _ base prev = some []

  -- `none`: a type is nested more than the fuel deep, or an array has no stride or a dimension 0.
  unfoldable pub expand : ℕ → Lister
  unfolding expand_datatype
  expand zero t base prev = none
  expand (suc n) t base prev = expand_datatype (expand n) (datatype t) base prev
