-- ===== src/TypeIter/Total.antt =====
-- Which types the iterator of src/debuginfo/iter.rs lists to the end.
use a2ltool.Prelude.{
  ℕ, zero, suc, ◌+◌, ◌*◌, ◌/◌, ◌%◌, ◌≢◌, Text, codes, some, Bool, false, List, [], ◌∷◌, ◌++◌, ◌≡◌,
  refl, arith, ok, length, ◌==◌, wrap64,
}
use a2ltool.DebugInfo.{
  TypeInfo, DbgDataType, Members, end, member, TypeTable, class, struct, union, array, datatype,
  get_reference,
}
use a2ltool.TypeIter.{Item, decompose, element_item, write_indices, collect, new}
use a2ltool.TypeIter.Expand.{Lister, expand, expand_datatype, expand_members, expand_elements}
use a2ltool.TypeIter.Traversal.{collect-new}

abbrev pub AllNonzero : List ℕ → Type 0
AllNonzero [] = Unit
AllNonzero (d ∷ ds) = (d ≢ 0) × AllNonzero ds

abbrev pub AllMembers : TypeTable → (TypeInfo → Type 0) → Members → Type 0
AllMembers types P end = Unit
AllMembers types P (member nm t o ms) = P (get_reference t types) × AllMembers types P ms

abbrev pub RegularParts : TypeTable → (TypeInfo → Type 0) → DbgDataType → Type 0
RegularParts types P (class size inheritance ms) = AllMembers types P ms
RegularParts types P (struct size ms) = AllMembers types P ms
RegularParts types P (union size ms) = AllMembers types P ms
RegularParts types P (array size dim stride t) = (stride ≢ 0) × AllNonzero dim × P t
RegularParts types P _ = Unit

-- Types that are nested at most `n` deep, and whose arrays have elements of some size and no
-- dimension 0.
abbrev pub IsRegular : TypeTable → ℕ → TypeInfo → Type 0
IsRegular types zero t = ⊥
IsRegular types (suc n) t = RegularParts types (IsRegular types n) (datatype t)

Listed : Lister → TypeInfo → Type 0
Listed list t = (base : ℕ) (nm : Text) → (xs : List Item) × (list t base nm ≡ some xs)

decompose-returns :
    (dim : List ℕ) (pos : ℕ) → AllNonzero dim → (r : List ℕ × ℕ) × (decompose dim pos ≡ ok r)
unfolding decompose
decompose-returns [] pos h = (([], pos), refl)
decompose-returns (d ∷ ds) pos (nonzero, h) =
    let ((js, r), e) = decompose-returns ds pos h in
    let other : (d == 0) ≡ false = ground arith in (((r % d) ∷ js, r / d), rw (e, other))

module _ (types : TypeTable) (new_arrays : Bool) where
  element_item-returns :
      (dim : List ℕ) (stride : ℕ) (t : TypeInfo) (pos base : ℕ) (nm : Text)
      → AllNonzero dim
      → (full : Text) × (o : ℕ) × (element_item new_arrays dim stride t pos base nm
          ≡ ok (full, t, o))
  unfolding element_item
  element_item-returns dim stride t pos base nm h =
      let ((js, r), e) = decompose-returns dim pos h in
      (write_indices new_arrays nm js, wrap64 (base + wrap64 (stride * pos)), rw e)

  expand_members-Listed :
      (list : Lister) (P : TypeInfo → Type 0)
      → ((t : TypeInfo) → P t → Listed list t)
      → (ms : Members) (base : ℕ) (nm : Text) → AllMembers types P ms
      → (xs : List Item) × (expand_members types new_arrays list ms base nm ≡ some xs)
  unfolding expand_members Listed
  expand_members-Listed list P listed end base nm h = ([], refl)
  expand_members-Listed list P listed (member key t o ms) base nm (ht, hms) =
      let full = nm ++ codes "." ++ key in
      let (inner, e) = listed (get_reference t types) ht (wrap64 (base + o)) full in
      let (rest, e') = expand_members-Listed list P listed ms base nm hms in
      ((full, get_reference t types, wrap64 (base + o)) ∷ inner ++ rest, rw (e, e'))

  expand_elements-Listed :
      (list : Lister) (t : TypeInfo)
      → Listed list t
      → (n pos : ℕ) (dim : List ℕ) (stride base : ℕ) (nm : Text) → AllNonzero dim
      → (xs : List Item) × (expand_elements types new_arrays list n pos dim stride t base nm
          ≡ some xs)
  unfolding expand_elements Listed
  expand_elements-Listed list t listed zero pos dim stride base nm h = ([], refl)
  expand_elements-Listed list t listed (suc n) pos dim stride base nm h =
      let (full, o, found) = element_item-returns dim stride t pos base nm h in
      let (inner, e) = listed o full in
      let (rest, e') = expand_elements-Listed list t listed n (suc pos) dim stride base nm h in
      ((full, t, o) ∷ inner ++ rest, rw (found, e, e'))

  expand_datatype-Listed :
      (list : Lister) (P : TypeInfo → Type 0)
      → ((t : TypeInfo) → P t → Listed list t)
      → (d : DbgDataType) (base : ℕ) (nm : Text) → RegularParts types P d
      → (xs : List Item) × (expand_datatype types new_arrays list d base nm ≡ some xs)
  unfolding expand_datatype
  expand_datatype-Listed list P listed (class size inheritance ms) base nm h =
      expand_members-Listed list P listed ms base nm h
  expand_datatype-Listed list P listed (struct size ms) base nm h =
      expand_members-Listed list P listed ms base nm h
  expand_datatype-Listed list P listed (union size ms) base nm h =
      expand_members-Listed list P listed ms base nm h
  expand_datatype-Listed list P listed (array size dim zero t) base nm h = absurd (h.0 refl)
  expand_datatype-Listed list P listed (array size dim (suc stride) t) base nm h =
      expand_elements-Listed list t (listed t h.2) _ 0 dim (suc stride) base nm h.1
  expand_datatype-Listed list P listed _ base nm h = ([], refl)

  expand-Listed :
      (n : ℕ) (t : TypeInfo) → IsRegular types n t → Listed (expand types new_arrays n) t
  unfolding expand Listed
  expand-Listed zero t h = absurd h
  expand-Listed (suc n) t h = λ base nm.
      expand_datatype-Listed (expand types new_arrays n) (IsRegular types n) (expand-Listed n)
        (datatype t) base nm h

-- For a type that is nested at most `n` deep, and whose arrays have a stride and no dimension 0,
-- the recursive listing is defined, and the iterator yields exactly that listing, in its order,
-- and then ends: it does not panic, and it does not go on however many items are asked for.
pub collect-new_regular :
    (types : TypeTable) (new_arrays : Bool) (n : ℕ) (t : TypeInfo)
    → IsRegular types n t
    → (xs : List Item) × (expand types new_arrays n t 0 (codes "") ≡ some xs)
      × ((k : ℕ) → collect types new_arrays (length xs + k) (new t) ≡ ok xs)
unfolding Listed
collect-new_regular types new_arrays n t h =
    let (xs, e) = expand-Listed types new_arrays n t h 0 (codes "") in
    (xs, e, λ k. collect-new types new_arrays n t xs k e)
