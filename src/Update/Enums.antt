-- ===== src/Update/Enums.antt =====
-- src/update/enums.rs: the COMPU_METHODs and tables of enumerations.
-- `enum_convlist` and `enum_compu_tab` are hash maps: lists in which the latest entry stands first.
pub mod Tables
pub mod Users
pub mod Creation
use a2ltool.Prelude.{
  ℕ, zero, suc, ◌%◌, ◌^◌, Text, codes, Option, none, some, Bool, true, false, ◌&&◌, not, List, [],
  ◌∷◌, ◌++◌, map, ℤ, int_leb, if◌then◌else◌, length, text_eq, take, is_some,
}
use a2ltool.DebugInfo.{TypeInfo, DbgDataType, enumeration, datatype}
use a2ltool.DebugInfo.UnitName.{map_get}
use a2ltool.Floats.{Floats}
use a2ltool.A2l.{Module, CompuMethod, CompuVtab, CompuVtabRange, ConversionType, tab_verb}

-- `sort_by(|e1, e2| e1.1.cmp(&e2.1))`, which is stable.
unfoldable pub insert_by_value : Text × ℤ → List (Text × ℤ) → List (Text × ℤ)
insert_by_value e [] = e ∷ []
insert_by_value e (e' ∷ es) = if int_leb e.1 e'.1 then e ∷ e' ∷ es else e' ∷ insert_by_value e es

unfoldable pub sort_by_value : List (Text × ℤ) → List (Text × ℤ)
unfolding insert_by_value
sort_by_value [] = []
sort_by_value (e ∷ es) = insert_by_value e (sort_by_value es)

-- The two loops that bring a table to a number of entries: entries at the end are popped, and
-- dummies are pushed.
unfoldable pub resize {ℓ} : {A : Type ℓ} → A → ℕ → List A → List A
resize dummy zero entries = []
resize dummy (suc n) [] = dummy ∷ resize dummy n []
resize dummy (suc n) (entry ∷ entries) = entry ∷ resize dummy n entries

-- The loop that overwrites the entry at each index.
unfoldable pub overwrite {ℓ} : {A : Type ℓ} → (Text × ℤ → A → A) → List (Text × ℤ) → List A → List A
overwrite set [] entries = entries
overwrite set (e ∷ es) [] = []
overwrite set (e ∷ es) (entry ∷ entries) = set e entry ∷ overwrite set es entries

abbrev pub enumerators_of : Option TypeInfo → Option (List (Text × ℤ))
enumerators_of none = none
enumerators_of (some typeinfo) = elim (datatype typeinfo) [
  | enumeration size signed enumerators ↦ some enumerators
  | _ ↦ none
]

abbrev pub with_table :
    Option TypeInfo → Option Text → List (Text × TypeInfo) → List (Text × TypeInfo)
with_table (some typeinfo) (some compu_tab) enum_compu_tab = (compu_tab, typeinfo) ∷ enum_compu_tab
with_table _ _ enum_compu_tab = enum_compu_tab

abbrev pub type_of_table : List (Text × TypeInfo) → Text → Option (List (Text × ℤ))
unfolding map_get
type_of_table enum_compu_tab name = enumerators_of (map_get enum_compu_tab name)

module _ {F : Type 0} ⦃fl : Floats F⦄ where
  abbrev pub has_name : Text → List (CompuMethod F) → Bool
  has_name typename [] = false
  has_name typename (cm ∷ cms) = if text_eq cm.name typename then true else has_name typename cms

  abbrev pub has_vtab : Text → List (CompuVtab F) → Bool
  has_vtab typename [] = false
  has_vtab typename (v ∷ vs) = if text_eq v.name typename then true else has_vtab typename vs

  abbrev pub has_vtab_range : Text → List (CompuVtabRange F) → Bool
  has_vtab_range typename [] = false
  has_vtab_range typename (v ∷ vs) =
      if text_eq v.name typename then true else has_vtab_range typename vs

  abbrev pub new_compu_method : Text → CompuMethod F
  new_compu_method typename = record {
    name = typename;
    long_identifier = codes "Conversion table for enum " ++ typename;
    conversion_type = tab_verb;
    format = codes "%.4";
    unit = [];
    coeffs = none;
    coeffs_linear = none;
    compu_tab_ref = some typename;
  }

  abbrev pub value_pair : Text × ℤ → F × Text
  value_pair e = (fl.from_int e.1, e.0)

  abbrev pub new_compu_vtab : Text → List (Text × ℤ) → CompuVtab F
  new_compu_vtab typename enumerators = record {
    name = typename;
    long_identifier = codes "Conversion table for enum " ++ typename;
    conversion_type = tab_verb;
    number_value_pairs = length enumerators % 2 ^ 16;
    value_pairs = map (λ e. value_pair e) enumerators;
  }

  unfoldable pub create_vtab : {D : Type 0} → Module F D → Text → List (Text × ℤ) → Module F D
  create_vtab md typename enumerators =
      if not (has_vtab typename md.compu_vtab) && not (has_vtab_range typename md.compu_vtab_range)
      then record md { compu_vtab = md.compu_vtab ++ new_compu_vtab typename enumerators ∷ [] }
      else md

  unfoldable pub cond_create_enum_conversion :
      {D : Type 0} → Module F D → Text → List (Text × ℤ) → Module F D
  unfolding create_vtab
  cond_create_enum_conversion md typename enumerators =
      if has_name typename md.compu_method
      then md
      else create_vtab
          (record md { compu_method = md.compu_method ++ new_compu_method typename ∷ [] }) typename
          enumerators

  -- The first loop: the types of the tables.
  unfoldable pub compu_tabs :
      List (CompuMethod F)
      → List (Text × TypeInfo)
      → List (Text × TypeInfo)
      → List (Text × TypeInfo)
  unfolding map_get
  compu_tabs [] enum_convlist enum_compu_tab = enum_compu_tab
  compu_tabs (cm ∷ cms) enum_convlist enum_compu_tab =
      compu_tabs cms enum_convlist
        (with_table (map_get enum_convlist cm.name) cm.compu_tab_ref enum_compu_tab)

  -- ValuePairsStruct::new(0f64, "dummy") and its counterpart for triples
  abbrev pub dummy_pair : F × Text
  dummy_pair = (fl.zero_f, codes "dummy")

  abbrev pub dummy_triple : F × F × Text
  dummy_triple = (fl.zero_f, fl.zero_f, codes "dummy")

  unfoldable pub update_vtab : CompuVtab F → Option (List (Text × ℤ)) → CompuVtab F
  unfolding sort_by_value resize overwrite
  update_vtab compu_vtab none = compu_vtab
  update_vtab compu_vtab (some unsorted) =
      let enumerators = sort_by_value unsorted in
      record compu_vtab {
        conversion_type = tab_verb;
        number_value_pairs = length enumerators % 2 ^ 16;
        value_pairs =
            overwrite (λ e entry. (fl.from_int e.1, e.0)) enumerators
              (resize dummy_pair (length enumerators) compu_vtab.value_pairs);
      }

  unfoldable pub update_vtab_range : CompuVtabRange F → Option (List (Text × ℤ)) → CompuVtabRange F
  unfolding sort_by_value resize overwrite
  update_vtab_range compu_vtab_range none = compu_vtab_range
  update_vtab_range compu_vtab_range (some unsorted) =
      let enumerators = sort_by_value unsorted in
      record compu_vtab_range {
        number_value_triples = length enumerators % 2 ^ 16;
        value_triples =
            overwrite (λ e entry. (fl.from_int e.1, fl.from_int e.1, e.0)) enumerators
              (resize dummy_triple (length enumerators) compu_vtab_range.value_triples);
      }

  unfoldable pub update_tables : {D : Type 0} → Module F D → List (Text × TypeInfo) → Module F D
  unfolding update_vtab update_vtab_range map_get
  update_tables md enum_compu_tab = record md {
    compu_vtab = map (λ v. update_vtab v (type_of_table enum_compu_tab v.name)) md.compu_vtab;
    compu_vtab_range =
        map (λ v. update_vtab_range v (type_of_table enum_compu_tab v.name)) md.compu_vtab_range;
  }

  -- Without an enumeration nothing is done.
  unfoldable pub update_enum_compu_methods :
      {D : Type 0} → Module F D → List (Text × TypeInfo) → Module F D
  unfolding compu_tabs update_tables
  update_enum_compu_methods md [] = md
  update_enum_compu_methods md (entry ∷ enum_convlist) =
      update_tables md (compu_tabs md.compu_method (entry ∷ enum_convlist) [])
