-- ===== src/Examples/Iterators.antt =====
-- src/debuginfo/iter.rs: the theorems at concrete types.
use a2ltool.Prelude.{
  ℕ, ◌+◌, Text, codes, none, some, List, [], ◌∷◌, ok, out_of_fuel, ◌≡◌, ◌≢◌, refl, arith, true,
  false, length, to_decimal,
}
use a2ltool.DebugInfo.{TypeInfo, DebugData, uint8, uint32, get_reference}
use a2ltool.TypeIter
use a2ltool.TypeIter.{Item, element_item, decompose}
use a2ltool.TypeIter.Expand.{expand}
use a2ltool.TypeIter.Total.{IsRegular, collect-new_regular}
use a2ltool.VariableIter
use a2ltool.VariableIter.{default_typeinfo}
use a2ltool.VariableIter.Fuel.{next_ends}
use a2ltool.VariableIter.Listing.{all_symbols, collect-new_variables}
use a2ltool.Symbol.Info.{SymbolInfo}
use a2ltool.Samples.{debug_data, plain, pair_array, my_struct, types, var_at, grid}

my_struct-IsRegular : IsRegular types 3 my_struct
unfolding get_reference
my_struct-IsRegular = omega arith

collect-new_regular_example :
    (xs : List Item) × (expand types false 3 my_struct 0 (codes "") ≡ some xs)
    × ((k : ℕ) → TypeIter.collect types false (length xs + k) (TypeIter.new my_struct) ≡ ok xs)
collect-new_regular_example = collect-new_regular types false 3 my_struct my_struct-IsRegular

grid_items :
    expand types true 2 grid 0 (codes "")
    ≡ some (
        (codes "[0][0]", plain uint8, 0)
        ∷ (codes "[0][1]", plain uint8, 1)
        ∷ (codes "[0][2]", plain uint8, 2)
        ∷ (codes "[1][0]", plain uint8, 3)
        ∷ (codes "[1][1]", plain uint8, 4)
        ∷ (codes "[1][2]", plain uint8, 5)
        ∷ [])
unfolding expand element_item decompose to_decimal
grid_items = refl

abbrev small_data : DebugData
small_data = record debug_data {
  variables = (codes "x", var_at 16 0 none ∷ []) ∷ [];
  types = λ n. some pair_array;
}

abbrev symbol_of : Text → ℕ → TypeInfo → SymbolInfo
symbol_of nm address typeinfo = record {
  name = nm;
  address = address;
  typeinfo = typeinfo;
  unit_idx = 0;
  function_name = none;
  namespaces = [];
  is_unique = true;
}

abbrev small_symbols : List SymbolInfo
small_symbols =
    symbol_of (codes "x") 16 pair_array
    ∷ symbol_of (codes "x._0_") 16 (plain uint32)
    ∷ symbol_of (codes "x._1_") 20 (plain uint32)
    ∷ []

collect-new_variables_example :
    VariableIter.collect small_data false (length small_symbols + 2) (VariableIter.new small_data)
    ≡ ok small_symbols
unfolding all_symbols expand element_item decompose to_decimal
collect-new_variables_example = collect-new_variables small_data false 2 small_symbols 2 refl

next_ends_example :
    (VariableIter.next small_data false (VariableIter.new small_data) ≢ out_of_fuel)
    × ((k : ℕ)
        → VariableIter.next_fuel small_data false
            (k + (3 + length (VariableIter.new small_data).var_iter))
            (VariableIter.new small_data)
          ≡ VariableIter.next small_data false (VariableIter.new small_data))
next_ends_example = next_ends small_data false (VariableIter.new small_data)
