-- ===== src/Symbol/SubObject.antt =====
-- src/symbol.rs: what `find_membertype` finds is a part of the variable.
use mathlib.Core.Path.{subst₂}
use a2ltool.Prelude.{
  ℕ, zero, suc, ◌+◌, ◌*◌, ◌<◌, Text, codes, Option, some, Bool, true, false, List, [], ◌∷◌, ok, err,
  out_of_fuel, ltb, ltb→lt, if◌then◌else◌, wrap64, length, get_or, ◌≡◌, refl, arith, >>=-eq-ok,
  Bool-cases, inl, inr, ◌∙◌, Option-cases,
}
use a2ltool.DebugInfo.{
  TypeInfo, DbgDataType, TypeTable, type_info, class, struct, union, array, Members, members_get,
  get_reference, get_members, datatype,
}
use a2ltool.Symbol.Info.{index_out_of_bounds}
use a2ltool.Symbol.Names.{get_index}
use a2ltool.Symbol.Members.{
  Found, Search, index_or_error, read_indices, into_array, into_member, into_base_class,
  into_datatype, find_membertype_fuel, find_membertype,
}

abbrev pub product : List ℕ → ℕ
product [] = 1
product (d ∷ ds) = d * product ds

-- `SubObject types t a t' a'`: an object of type `t'` at address `a'` is a part of the object of
-- type `t` at `a`: the whole, or a part of a member at its offset, of a base class at its offset,
-- or of an array element whose number is below the number of elements.
pub data SubObject (types : TypeTable) : TypeInfo → ℕ → TypeInfo → ℕ → Type 0 where
  whole : {t : TypeInfo} {a : ℕ} → SubObject types t a t a
  in_member :
      {t t' m : TypeInfo} {a a' o : ℕ} {ms : Members} (key : Text)
      → get_members t ≡ some ms
      → members_get ms key ≡ some (m, o)
      → SubObject types (get_reference m types) (wrap64 (a + o)) t' a'
      → SubObject types t a t' a'
  in_base_class :
      {t t' m : TypeInfo} {a a' o size : ℕ} {inheritance ms : Members} (key : Text)
      → datatype t ≡ class size inheritance ms
      → members_get inheritance key ≡ some (m, o)
      → SubObject types m (wrap64 (a + o)) t' a'
      → SubObject types t a t' a'
  in_element :
      {t t' u : TypeInfo} {a a' size stride i : ℕ} {dim : List ℕ}
      → datatype t ≡ array size dim stride u
      → i < product dim
      → SubObject types u (wrap64 (a + i * stride)) t' a'
      → SubObject types t a t' a'

wrap64_mul : (x p : ℕ) → wrap64 (wrap64 x * p) ≡ wrap64 (x * p)
wrap64_mul x zero = omega arith
wrap64_mul x (suc p) = omega (arith, wrap64_mul x p)

wrap64_add : (x y : ℕ) → wrap64 (wrap64 x + y) ≡ wrap64 (x + y)
wrap64_add x y = omega arith

wrap64_add_right : (x y : ℕ) → wrap64 (x + wrap64 y) ≡ wrap64 (x + y)
wrap64_add_right x y = omega arith

-- One round of the index loop, on the whole number of the element.
wrap64_round :
    (m d i p j : ℕ)
    → wrap64 (wrap64 (wrap64 (m * d) + i) * p + j) ≡ wrap64 (m * (d * p) + (i * p + j))
wrap64_round m d i p j =
    let outer : wrap64 (wrap64 (wrap64 (m * d) + i) * p) ≡ wrap64 ((wrap64 (m * d) + i) * p) =
      wrap64_mul (wrap64 (m * d) + i) p in
    let inner : wrap64 (wrap64 (m * d) * p) ≡ wrap64 (m * d * p) = wrap64_mul (m * d) p in
    omega (arith, outer, inner)

element_address :
    (a multi i stride : ℕ)
    → wrap64 multi ≡ wrap64 i
    → wrap64 (a + wrap64 (multi * stride)) ≡ wrap64 (a + i * stride)
element_address a multi i stride same =
    let left : wrap64 (wrap64 multi * stride) ≡ wrap64 (multi * stride) = wrap64_mul multi stride in
    let right : wrap64 (wrap64 multi * stride) ≡ wrap64 (i * stride) =
      rw same (wrap64_mul i stride) in
    omega (arith, left, right)

pub index_below : (i d j p : ℕ) → i < d → j < p → i * p + j < d * p
index_below i d j p hi hj = grind arith

module _ (types : TypeTable) (components : List Text) where
  -- The number that the loop computes is, up to wrapping, that of an element of the array.
  read_indices-in_range :
      (dims : List ℕ) (position m r : ℕ)
      → read_indices types components dims position m ≡ ok r
      → (i : ℕ) × (i < product dims) × (wrap64 r ≡ wrap64 (m * product dims + i))
  unfolding read_indices
  read_indices-in_range [] position m r h = (0, omega arith, ground arith)
  read_indices-in_range (d ∷ ds) position m r h =
      let component = get_or components position (codes "_0_") in
      let (i, got, h') =
        >>=-eq-ok (index_or_error component (get_index component))
          (λ (i : ℕ).
            if ltb i d
            then read_indices types components ds (suc position) (wrap64 (wrap64 (m * d) + i))
            else err (index_out_of_bounds i components d))
          h in
      elim (Bool-cases (ltb i d)) [
        | inl below ↦
            let (j, j_below, same) =
              read_indices-in_range ds (suc position) (wrap64 (wrap64 (m * d) + i)) r
                (rw below at h') in
            (
              i * product ds + j,
              index_below i d j (product ds) (ltb→lt i d below) j_below,
              same ∙ wrap64_round m d i (product ds) j,
            )
        | inr above ↦ cc
      ]

  abbrev IsSound : Search → Type 0
  IsSound search =
      (t : TypeInfo) (index a a' : ℕ) (t' : TypeInfo)
      → search t index a ≡ ok (a', t')
      → SubObject types t a t' a'

  module _ (search : Search) (sound : IsSound search) (t : TypeInfo) (index a : ℕ) {a' : ℕ}
      {t' : TypeInfo} where
    into_member-SubObject :
        (ms : Members) (key : Text) (missing : Found)
        → get_members t ≡ some ms
        → (missing ≡ ok (a', t') → SubObject types t a t' a')
        → into_member types components search ms key index a missing ≡ ok (a', t')
        → SubObject types t a t' a'
    unfolding into_member
    into_member-SubObject ms key missing has otherwise h =
        elim (Option-cases (members_get ms key)) [
          | inl e ↦ otherwise (rw (e, into_member) at h)
          | inr ((m, o), e) ↦ in_member key has e (sound _ _ _ _ _ (rw (e, into_member) at h))
        ]

    into_base_class-SubObject :
        (size : ℕ) (inheritance ms : Members) (key : Text) (missing : Found)
        → datatype t ≡ class size inheritance ms
        → (missing ≡ ok (a', t') → SubObject types t a t' a')
        → into_base_class types components search inheritance key index a missing ≡ ok (a', t')
        → SubObject types t a t' a'
    unfolding into_base_class
    into_base_class-SubObject size inheritance ms key missing has otherwise h =
        elim (Option-cases (members_get inheritance key)) [
          | inl e ↦ otherwise (rw (e, into_base_class) at h)
          | inr ((m, o), e) ↦
              in_base_class key has e (sound _ _ _ _ _ (rw (e, into_base_class) at h))
        ]

  into_array-SubObject :
      (search : ℕ → ℕ → Found) (u : TypeInfo)
      → ((index a a' : ℕ) (t' : TypeInfo)
          → search index a ≡ ok (a', t')
          → SubObject types u a t' a')
      → (t : TypeInfo) (size stride : ℕ) (dim : List ℕ) (index a a' : ℕ) (t' : TypeInfo)
      → datatype t ≡ array size dim stride u
      → into_array types components search dim stride index a ≡ ok (a', t')
      → SubObject types t a t' a'
  unfolding into_array
  into_array-SubObject search u sound t size stride dim index a a' t' has h =
      let (multi, read, h') =
        >>=-eq-ok (read_indices types components dim index 0)
          (λ (multi : ℕ). search (index + length dim) (wrap64 (a + wrap64 (multi * stride)))) h in
      let (i, below, same) = read_indices-in_range dim index 0 multi read in
      in_element has below
        (rw (element_address a multi i stride (same ∙ (omega arith))) at (sound _ _ _ _ h'))

  into_datatype-SubObject :
      (search : Search)
      → IsSound search
      → (nm : Option Text) (u : ℕ) (d : DbgDataType) (o index a a' : ℕ) (t' : TypeInfo)
      → into_datatype types components search d index a ≡ ok (a', t')
      → SubObject types (type_info nm u d o) a t' a'
  unfolding into_datatype get_members
  into_datatype-SubObject search sound nm u (class size inheritance ms) o index a a' t' h =
      into_member-SubObject search sound _ index a ms _ _ refl
        (into_base_class-SubObject search sound _ index a size inheritance ms _ _ refl (λ e. cc)) h
  into_datatype-SubObject search sound nm u (struct size ms) o index a a' t' h =
      into_member-SubObject search sound _ index a ms _ _ refl (λ e. cc) h
  into_datatype-SubObject search sound nm u (union size ms) o index a a' t' h =
      into_member-SubObject search sound _ index a ms _ _ refl (λ e. cc) h
  into_datatype-SubObject search sound nm u (array size dim stride v) o index a a' t' h =
      into_array-SubObject (search v) v (sound v) _ size stride dim index a a' t' refl h
  into_datatype-SubObject search sound nm u _ o index a a' t' h = cc

  -- No component is left, or the search goes on.
  ends-SubObject :
      (b : Bool) (deeper : Found) (t : TypeInfo) (a a' : ℕ) (t' : TypeInfo)
      → (deeper ≡ ok (a', t') → SubObject types t a t' a')
      → (if b then deeper else ok (a, t)) ≡ ok (a', t')
      → SubObject types t a t' a'
  ends-SubObject true deeper t a a' t' sound h = sound h
  ends-SubObject false deeper t a a' t' sound h =
      let same_address : a ≡ a' = cc in
      let same_type : t ≡ t' = cc in
      subst₂ (λ x y. SubObject types t a y x) same_address same_type whole

  find_membertype_fuel-SubObject : (n : ℕ) → IsSound (find_membertype_fuel types components n)
  unfolding find_membertype_fuel
  find_membertype_fuel-SubObject zero t index a a' t' h =
      ends-SubObject (ltb index (length components)) out_of_fuel t a a' t' (λ e. cc) h
  find_membertype_fuel-SubObject (suc n) (type_info nm u (array size [] stride v) o) index a a' t'
        h =
      ends-SubObject (ltb index (length components)) _ _ a a' t'
        (into_array-SubObject (find_membertype_fuel types components (suc n) v) v
          (find_membertype_fuel-SubObject (suc n) v) _ size stride [] index a a' t' refl)
        h
  find_membertype_fuel-SubObject (suc n) (type_info nm u d o) index a a' t' h =
      ends-SubObject (ltb index (length components)) _ _ a a' t'
        (into_datatype-SubObject (find_membertype_fuel types components n)
          (find_membertype_fuel-SubObject n) nm u d o index a a' t')
        h

-- What `find_membertype` finds is a part of the variable: the result is reached from the type and
-- the address that it was given through members and base classes at their offsets and through
-- elements whose number is below the number of elements of their array, up to the wrapping of the
-- address.
pub find_membertype-SubObject :
    (types : TypeTable) (components : List Text) (t : TypeInfo) (index a a' : ℕ) (t' : TypeInfo)
    → find_membertype types components t index a ≡ ok (a', t')
    → SubObject types t a t' a'
unfolding find_membertype
find_membertype-SubObject types components t index a a' t' h =
    find_membertype_fuel-SubObject types components (length components) t index a a' t' h
