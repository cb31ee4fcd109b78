-- ===== src/Update/Enums/Tables.antt =====
-- src/update/enums.rs: the tables after `update_enum_compu_methods`.
use mathlib.Core.List.{Perm}
use mathlib.Core.List.Perm
use a2ltool.Update.Measurement.Cleanup.References.{All2, All2-map}
use a2ltool.Update.Enums.Users.{IsLastType, HasNoUser, compu_tabs-cases}
use a2ltool.Prelude.{
  ◌∙◌, ◌⊎◌, suc, ◌%◌, ◌^◌, Text, Option, none, some, true, List, [], ◌∷◌, map, ℤ, int_leb,
  int_leb_trans, int_leb_total, Bool-cases, inl, inr, length, ◌≡◌, refl, ap, arith,
}
use a2ltool.DebugInfo.{TypeInfo, DbgDataType, enumeration, datatype}
use a2ltool.DebugInfo.UnitName.{map_get}
use mathlib.Core.Path.{subst}
use a2ltool.Floats.{Floats}
use a2ltool.A2l.{CompuMethod, Module, CompuVtab, CompuVtabRange, tab_verb}
use a2ltool.Update.Enums.{
  sort_by_value, insert_by_value, resize, overwrite, update_vtab, update_vtab_range, compu_tabs,
  type_of_table, enumerators_of, update_tables, update_enum_compu_methods, value_pair,
}

abbrev Entries : Type 0
Entries = List (Text × ℤ)

abbrev pub IsBelow : Text × ℤ → Entries → Type 0
IsBelow e [] = Unit {0}
IsBelow e (e' ∷ es) = (int_leb e.1 e'.1 ≡ true) × IsBelow e es

-- In the order of the values.
abbrev pub IsSorted : Entries → Type 0
IsSorted [] = Unit {0}
IsSorted (e ∷ es) = IsBelow e es × IsSorted es

IsBelow-trans :
    (d e : Text × ℤ) (es : Entries) → int_leb d.1 e.1 ≡ true → IsBelow e es → IsBelow d es
IsBelow-trans d e [] h below = tt
IsBelow-trans d e (f ∷ es) h (le, below) =
    (int_leb_trans d.1 e.1 f.1 h le, IsBelow-trans d e es h below)

IsBelow-insert :
    (d e : Text × ℤ) (es : Entries)
    → int_leb d.1 e.1 ≡ true
    → IsBelow d es
    → IsBelow d (insert_by_value e es)
unfolding insert_by_value
IsBelow-insert d e [] h below = (h, tt)
IsBelow-insert d e (f ∷ es) h (le, below) = elim (Bool-cases (int_leb e.1 f.1)) [
  | inl first ↦ rw first (h, (le, below))
  | inr later ↦ rw later (le, IsBelow-insert d e es h below)
]

insert-IsSorted : (e : Text × ℤ) (es : Entries) → IsSorted es → IsSorted (insert_by_value e es)
unfolding insert_by_value
insert-IsSorted e [] h = (tt, tt)
insert-IsSorted e (f ∷ es) (below, sorted) = elim (Bool-cases (int_leb e.1 f.1)) [
  | inl first ↦ rw first ((first, IsBelow-trans e f es first below), (below, sorted))
  | inr later ↦
      rw later
        (IsBelow-insert f e es (int_leb_total e.1 f.1 later) below, insert-IsSorted e es sorted)
]

sort-IsSorted : (es : Entries) → IsSorted (sort_by_value es)
unfolding sort_by_value
sort-IsSorted [] = tt
sort-IsSorted (e ∷ es) = insert-IsSorted e (sort_by_value es) (sort-IsSorted es)

insert-perm : (e : Text × ℤ) (es : Entries) → Perm (insert_by_value e es) (e ∷ es)
unfolding insert_by_value
insert-perm e [] = Perm.rfl
insert-perm e (f ∷ es) = elim (Bool-cases (int_leb e.1 f.1)) [
  | inl first ↦ rw first Perm.rfl
  | inr later ↦ rw later (Perm.trans (Perm.cons f (insert-perm e es)) (Perm.swap e f es))
]

sort-perm : (es : Entries) → Perm (sort_by_value es) es
unfolding sort_by_value
sort-perm [] = Perm.rfl
sort-perm (e ∷ es) = Perm.trans (insert-perm e (sort_by_value es)) (Perm.cons e (sort-perm es))

length-insert : (e : Text × ℤ) (es : Entries) → length (insert_by_value e es) ≡ suc (length es)
unfolding insert_by_value
length-insert e [] = refl
length-insert e (f ∷ es) = ground (arith, length-insert e es)

length-sort : (es : Entries) → length (sort_by_value es) ≡ length es
unfolding sort_by_value
length-sort [] = refl
length-sort (e ∷ es) = ground (arith, length-insert e (sort_by_value es), length-sort es)

overwrite-resize {ℓ} :
    {A : Type ℓ} (g : Text × ℤ → A) (dummy : A) (es : Entries) (entries : List A)
    → overwrite (λ e entry. g e) es (resize dummy (length es) entries) ≡ map g es
unfolding overwrite resize
overwrite-resize g dummy [] entries = refl
overwrite-resize g dummy (e ∷ es) [] = ap (λ l. g e ∷ l) (overwrite-resize g dummy es [])
overwrite-resize g dummy (e ∷ es) (entry ∷ entries) =
    ap (λ l. g e ∷ l) (overwrite-resize g dummy es entries)

-- What holds of the enumerators of a type, and what holds of a type without them.
abbrev pub ForEnumerators : DbgDataType → (Entries → Type 0) → Type 0 → Type 0
ForEnumerators (enumeration size signed es) P Q = P es
ForEnumerators _ P Q = Q

nothing : (nm : Text) → map_get {V = TypeInfo} [] nm ≡ none
unfolding map_get
nothing nm = refl

module _ {F : Type 0} ⦃fl : Floats F⦄ where
  abbrev triple : Text × ℤ → F × F × Text
  triple e = (fl.from_int e.1, fl.from_int e.1, e.0)

  -- A table of an enumeration has its enumerators in the order of their values; any other is
  -- unchanged.
  abbrev pub VtabSorted : CompuVtab F → CompuVtab F → Entries → Type 0
  VtabSorted v v' es =
      (sorted : Entries) × Perm sorted es
      × IsSorted sorted
      × (v'.value_pairs ≡ map value_pair sorted)
      × (v'.number_value_pairs ≡ length es % 2 ^ 16)
      × (v'.name ≡ v.name)
      × (v'.conversion_type ≡ tab_verb)

  abbrev VtabUpdated : CompuVtab F → CompuVtab F → Option Entries → Type 0
  VtabUpdated v v' none = v' ≡ v
  VtabUpdated v v' (some es) = VtabSorted v v' es

  abbrev pub RangeSorted : CompuVtabRange F → CompuVtabRange F → Entries → Type 0
  RangeSorted v v' es =
      (sorted : Entries) × Perm sorted es
      × IsSorted sorted
      × (v'.value_triples ≡ map triple sorted)
      × (v'.number_value_triples ≡ length es % 2 ^ 16)
      × (v'.name ≡ v.name)

  abbrev RangeUpdated : CompuVtabRange F → CompuVtabRange F → Option Entries → Type 0
  RangeUpdated v v' none = v' ≡ v
  RangeUpdated v v' (some es) = RangeSorted v v' es

  update_vtab-VtabUpdated :
      (v : CompuVtab F) (o : Option Entries) → VtabUpdated v (update_vtab v o) o
  unfolding update_vtab
  update_vtab-VtabUpdated v none = refl
  update_vtab-VtabUpdated v (some es) = (
    sort_by_value es,
    sort-perm es,
    sort-IsSorted es,
    overwrite-resize value_pair _ (sort_by_value es) v.value_pairs,
    rw (length-sort es) refl,
    refl,
    refl,
  )

  update_vtab_range-RangeUpdated :
      (v : CompuVtabRange F) (o : Option Entries) → RangeUpdated v (update_vtab_range v o) o
  unfolding update_vtab_range
  update_vtab_range-RangeUpdated v none = refl
  update_vtab_range-RangeUpdated v (some es) = (
    sort_by_value es,
    sort-perm es,
    sort-IsSorted es,
    overwrite-resize triple _ (sort_by_value es) v.value_triples,
    rw (length-sort es) refl,
    refl,
  )

  -- By the type of the last COMPU_METHOD that refers to the table, if there is one.
  abbrev pub VtabFollows :
      List (Text × TypeInfo) → List (CompuMethod F) → CompuVtab F → CompuVtab F → Type 0
  VtabFollows types cms v v' =
      ((t : TypeInfo) × IsLastType types v.name cms t
        × ForEnumerators (datatype t) (VtabSorted v v') (v' ≡ v))
      ⊎ (HasNoUser types v.name cms × (v' ≡ v))

  abbrev pub RangeFollows :
      List (Text × TypeInfo) → List (CompuMethod F) → CompuVtabRange F → CompuVtabRange F → Type 0
  RangeFollows types cms v v' =
      ((t : TypeInfo) × IsLastType types v.name cms t
        × ForEnumerators (datatype t) (RangeSorted v v') (v' ≡ v))
      ⊎ (HasNoUser types v.name cms × (v' ≡ v))

  vtab_of_type :
      (v v' : CompuVtab F) (t : TypeInfo)
      → VtabUpdated v v' (enumerators_of (some t))
      → ForEnumerators (datatype t) (VtabSorted v v') (v' ≡ v)
  vtab_of_type v v' t h = by_kind (datatype t) h
    where
      by_kind :
          (d : DbgDataType)
          → VtabUpdated v v' (elim d [ enumeration size signed es ↦ some es | _ ↦ none ])
          → ForEnumerators d (VtabSorted v v') (v' ≡ v)
      by_kind (enumeration size signed es) h = h
      by_kind _ h = h

  range_of_type :
      (v v' : CompuVtabRange F) (t : TypeInfo)
      → RangeUpdated v v' (enumerators_of (some t))
      → ForEnumerators (datatype t) (RangeSorted v v') (v' ≡ v)
  range_of_type v v' t h = by_kind (datatype t) h
    where
      by_kind :
          (d : DbgDataType)
          → RangeUpdated v v' (elim d [ enumeration size signed es ↦ some es | _ ↦ none ])
          → ForEnumerators d (RangeSorted v v') (v' ≡ v)
      by_kind (enumeration size signed es) h = h
      by_kind _ h = h

  vtab-VtabFollows :
      (types : List (Text × TypeInfo)) (cms : List (CompuMethod F)) (v : CompuVtab F)
      → VtabFollows types cms v (update_vtab v (type_of_table (compu_tabs cms types []) v.name))
  unfolding type_of_table map_get
  vtab-VtabFollows types cms v =
      let o = map_get (compu_tabs cms types []) v.name in
      let v' = update_vtab v (enumerators_of o) in
      let done = update_vtab-VtabUpdated v (enumerators_of o) in
      elim (compu_tabs-cases types [] v.name cms) [
        | inl (t, last, e) ↦
            inl (
              t,
              last,
              vtab_of_type v v' t (subst (λ q. VtabUpdated v v' (enumerators_of q)) e done),
            )
        | inr (nobody, e) ↦
            inr (nobody, subst (λ q. VtabUpdated v v' (enumerators_of q)) (e ∙ nothing v.name) done)
      ]

  range-RangeFollows :
      (types : List (Text × TypeInfo)) (cms : List (CompuMethod F)) (v : CompuVtabRange F)
      → RangeFollows types cms v
          (update_vtab_range v (type_of_table (compu_tabs cms types []) v.name))
  unfolding type_of_table map_get
  range-RangeFollows types cms v =
      let o = map_get (compu_tabs cms types []) v.name in
      let v' = update_vtab_range v (enumerators_of o) in
      let done = update_vtab_range-RangeUpdated v (enumerators_of o) in
      elim (compu_tabs-cases types [] v.name cms) [
        | inl (t, last, e) ↦ inl (
          t,
          last,
          range_of_type v v' t (subst (λ q. RangeUpdated v v' (enumerators_of q)) e done),
        )
        | inr (nobody, e) ↦
            inr
              (nobody, subst (λ q. RangeUpdated v v' (enumerators_of q)) (e ∙ nothing v.name) done)
      ]

  -- With at least one enumeration to update, the tables keep their number and order. A COMPU_VTAB or
  -- COMPU_VTAB_RANGE to which a COMPU_METHOD refers that has one of the types gets the enumerators
  -- of the type of the last such COMPU_METHOD in the order of their values, each once, with their
  -- count (as a u16) and under its old name, whatever entries it had; it is unchanged if that type
  -- is no enumeration, or if there is no such COMPU_METHOD. The COMPU_METHODs are unchanged.
  pub update_enum_compu_methods-VtabsUpdated :
      {D : Type 0} (md : Module F D) (entry : Text × TypeInfo) (list : List (Text × TypeInfo))
      → let md' = update_enum_compu_methods md (entry ∷ list) in
        All2 (VtabFollows (entry ∷ list) md.compu_method) md.compu_vtab md'.compu_vtab
        × All2
            (RangeFollows (entry ∷ list) md.compu_method)
            md.compu_vtab_range
            md'.compu_vtab_range
        × (md'.compu_method ≡ md.compu_method)
  unfolding update_enum_compu_methods update_tables
  update_enum_compu_methods-VtabsUpdated md entry list = (
    All2-map (VtabFollows (entry ∷ list) md.compu_method) _
        (vtab-VtabFollows (entry ∷ list) md.compu_method) md.compu_vtab,
    All2-map (RangeFollows (entry ∷ list) md.compu_method) _
        (range-RangeFollows (entry ∷ list) md.compu_method) md.compu_vtab_range,
    refl,
  )
