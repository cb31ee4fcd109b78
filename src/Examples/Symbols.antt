-- ===== src/Examples/Symbols.antt =====
-- src/symbol.rs: the theorems at concrete names.
use a2ltool.Prelude.{
  ℕ, zero, suc, Text, codes, none, some, List, [], ◌∷◌, map, ok, err, panic, out_of_fuel, ◌≡◌, ◌≢◌,
  ◌↔◌, refl, arith, to_decimal, true, false, text_eq, ends_with, init, parse_usize, get_elem?, pos,
  if◌then◌else◌, ◌⊎◌,
}
use a2ltool.DebugInfo.{TypeInfo, uint32, members_get, get_reference, get_size, VarInfo}
use a2ltool.DebugInfo.UnitName.{map_get}
use a2ltool.TypeIter.{decompose, element_item}
use a2ltool.TypeIter.Expand.{expand}
use a2ltool.Symbol.Info.{SymbolInfo, offset_out_of_bounds}
use a2ltool.Symbol.Names.{AdditionalSpec, get_index, get_additional_spec, split_symbol_components}
use a2ltool.Symbol.Members.{find_membertype, read_indices}
use a2ltool.Symbol.Lookup.{find_symbol, select_varinfo}
use a2ltool.Symbol.SubObject.{SubObject, find_membertype-SubObject}
use a2ltool.Symbol.Settles.{HasLoneUnderscore, find_membertype_settles, get_index-panic}
use a2ltool.Symbol.Resolution.{IsResolved, find_symbol-IsResolved}
use a2ltool.Symbol.Safe.{HasEntries, find_symbol-returns}
use a2ltool.Symbol.Digits.{index_component, get_index-index_component}
use a2ltool.Symbol.Elements.{read_indices-decompose}
use a2ltool.Symbol.Selection.{IsFirstFit, NoneFits, select_varinfo_lem}
use a2ltool.Symbol.Written.{Part, written, components, split_symbol_components-written}
use a2ltool.Symbol.Offset.{
  find_symbol_by_offset, find_symbol_by_offset-first_at, first_at, out_of_bounds, as_i32, as_u64,
}
use a2ltool.Samples.{debug_data, plain, pair_array, my_struct, types, var_at}

abbrev element_name : Text
element_name = codes "my_struct.array_item._1_"

abbrev element_symbol : SymbolInfo
element_symbol = record {
  name = element_name;
  address = 4100;
  typeinfo = plain uint32;
  unit_idx = 0;
  function_name = none;
  namespaces = [];
  is_unique = true;
}

find_symbol-IsResolved_example : IsResolved debug_data element_symbol
unfolding find_symbol text_eq members_get get_reference get_index ends_with init parse_usize
find_symbol-IsResolved_example = find_symbol-IsResolved element_name debug_data element_symbol refl

debug_data-HasEntries : HasEntries debug_data
unfolding map_get
debug_data-HasEntries key = ground arith

element_name_is_clean :
    (i : ℕ)
    → get_elem? (split_symbol_components (get_additional_spec element_name).0) (suc i)
      ≢ some (b'_' ∷ [])
unfolding split_symbol_components get_additional_spec
element_name_is_clean zero = λ e. cc
element_name_is_clean (suc zero) = λ e. cc
element_name_is_clean (suc (suc i)) = λ e. cc

find_symbol-returns_example :
    (find_symbol element_name debug_data ≢ panic)
    × (find_symbol element_name debug_data ≢ out_of_fuel)
find_symbol-returns_example =
    find_symbol-returns element_name debug_data debug_data-HasEntries element_name_is_clean

abbrev element_components : List Text
element_components = map codes ("my_struct" ∷ "array_item" ∷ "_1_" ∷ [])

find_membertype-SubObject_example : SubObject types my_struct 4096 (plain uint32) 4100
unfolding find_membertype text_eq members_get get_reference get_index ends_with init parse_usize
find_membertype-SubObject_example =
    find_membertype-SubObject types element_components my_struct 1 4096 4100 (plain uint32) refl

find_membertype_settles_example :
    (find_membertype types element_components my_struct 1 4096 ≢ out_of_fuel)
    × (find_membertype types element_components my_struct 1 4096 ≡ panic
        → HasLoneUnderscore element_components 1)
find_membertype_settles_example = find_membertype_settles types element_components my_struct 1 4096

get_index-panic_example : (get_index (codes "_") ≡ panic) ↔ (codes "_" ≡ b'_' ∷ [])
get_index-panic_example = get_index-panic (codes "_")

get_index-index_component_example : get_index (index_component false 12) ≡ ok (some 12)
get_index-index_component_example = get_index-index_component false 12 (omega arith)

-- The element [1][2] of the array `s.x`, with a member `y`.
abbrev grid_path : List Part
grid_path = (codes "s", []) ∷ (codes "x", 1 ∷ 2 ∷ []) ∷ (codes "y", []) ∷ []

read_indices-decompose_example :
    (◌≡◌ {A = ℕ} 0 0)
    × (read_indices types (split_symbol_components (written false grid_path)) (2 ∷ 3 ∷ []) 2 0
        ≡ ok 5)
unfolding decompose
read_indices-decompose_example =
    read_indices-decompose types false (2 ∷ 3 ∷ []) 5 (1 ∷ 2 ∷ []) 0 ((codes "s", []) ∷ [])
      (codes "x") ((codes "y", []) ∷ []) refl (omega arith) (omega arith) (ground arith)

split_symbol_components-written_example :
    split_symbol_components (written true grid_path) ≡ components true grid_path
split_symbol_components-written_example =
    split_symbol_components-written true (codes "s", [])
      ((codes "x", 1 ∷ 2 ∷ []) ∷ (codes "y", []) ∷ []) (ground arith)

abbrev spec_b : AdditionalSpec
spec_b = record {
  function_name = some (codes "func_b");
  simple_unit_name = some (codes "file2_c");
  namespaces = [];
}

abbrev local_entries : List VarInfo
local_entries = var_at 1000 1 (some (codes "func_b")) ∷ []

select_varinfo_lem_example :
    (vi : VarInfo) × (select_varinfo
        (var_at 0 0 (some (codes "func_a")) ∷ local_entries)
        (some spec_b)
        debug_data
      ≡ ok vi)
    × (IsFirstFit debug_data spec_b (var_at 0 0 (some (codes "func_a")) ∷ local_entries) vi
        ⊎ (NoneFits debug_data spec_b (var_at 0 0 (some (codes "func_a")) ∷ local_entries)
            × (vi ≡ var_at 0 0 (some (codes "func_a")))))
select_varinfo_lem_example =
    select_varinfo_lem debug_data spec_b (var_at 0 0 (some (codes "func_a"))) local_entries

abbrev base_symbol : SymbolInfo
base_symbol = record element_symbol { name = codes "s"; address = 4096; typeinfo = pair_array }

abbrev pair_items : List (Text × TypeInfo × ℕ)
pair_items = (codes "._0_", plain uint32, 0) ∷ (codes "._1_", plain uint32, 4) ∷ []

find_symbol_by_offset-first_at_example : find_symbol_by_offset 3 base_symbol (pos 4) debug_data ≡ (
    if out_of_bounds (pos 4) (as_i32 (get_size pair_array))
    then err (offset_out_of_bounds (pos 4) base_symbol.name)
    else first_at base_symbol (as_u64 (pos 4)) pair_items)
unfolding expand element_item decompose to_decimal
find_symbol_by_offset-first_at_example =
    find_symbol_by_offset-first_at debug_data base_symbol (pos 4) 2 3 pair_items refl (omega arith)
