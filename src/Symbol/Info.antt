-- ===== src/Symbol/Info.antt =====
-- `SymbolInfo` of src/symbol.rs, and the errors of its functions. An error stands for its message:
-- the values that the message shows are the constructor's fields.
use a2ltool.Prelude.{
  ℕ, Text, codes, Option, Bool, List, [], ◌∷◌, ◌++◌, ℤ, join, to_decimal, int_to_decimal,
}
use a2ltool.DebugInfo.{TypeInfo}

pub record SymbolInfo : Type 0 where
  pub name : Text
  pub address : ℕ
  pub typeinfo : TypeInfo
  pub unit_idx : ℕ
  pub function_name : Option Text
  pub namespaces : List Text
  pub is_unique : Bool

pub data SymbolError : Type 0 where
  no_symbol : Text → SymbolError
  no_member : Text → List Text → SymbolError
  no_array_index : Text → SymbolError
  index_out_of_bounds : ℕ → List Text → ℕ → SymbolError
  not_matched : List Text → List Text → SymbolError
  offset_out_of_bounds : ℤ → Text → SymbolError
  no_component_at_offset : ℕ → Text → SymbolError

abbrev quoted : Text → Text
quoted s = b'"' ∷ s ++ b'"' ∷ []

abbrev dotted : List Text → Text
dotted components = quoted (join (b'.' ∷ []) components)

-- The text of an error.
unfoldable pub error_message : SymbolError → Text
unfolding join
error_message (no_symbol s) = codes "Symbol " ++ quoted s ++ codes " does not exist"
error_message (no_member s before) =
    codes "There is no member " ++ quoted s ++ codes " in " ++ dotted before
error_message (no_array_index s) =
    codes "could not interpret " ++ quoted s ++ codes " as an array index"
error_message (index_out_of_bounds index components dim) =
    codes "requested array index "
    ++ to_decimal index
    ++ codes " in expression "
    ++ dotted components
    ++ codes ", but the array only has "
    ++ to_decimal dim
    ++ codes " elements"
error_message (not_matched remaining components) =
    codes "Remaining portion "
    ++ dotted remaining
    ++ codes " of "
    ++ dotted components
    ++ codes " could not be matched"
error_message (offset_out_of_bounds offset nm) =
    codes "Offset " ++ int_to_decimal offset ++ codes " is out of bounds for symbol " ++ quoted nm
error_message (no_component_at_offset offset nm) =
    codes "Could not find a symbol component at offset "
    ++ to_decimal offset
    ++ codes " from "
    ++ quoted nm
