-- ===== src/Update/SymbolNames.antt =====
-- src/update/mod.rs: the name that a SYMBOL_LINK holds, and the look-up of an object's symbol.
pub mod RoundTrip
use a2ltool.Prelude.{
  true, false, ℕ, Text, codes, Option, none, some, Bool, ◌||◌, List, [], ◌∷◌, ◌++◌, if◌then◌else◌,
  is_some,
}
use a2ltool.DebugInfo.{DebugData}
use a2ltool.DebugInfo.UnitName.{make_simple_unit_name}
use a2ltool.Symbol.Info.{SymbolInfo}

abbrev pub function_tag : Option Text → Text
function_tag none = []
function_tag (some funcname) = codes "{Function:" ++ funcname ++ codes "}"

abbrev pub namespace_tags : List Text → Text
namespace_tags [] = []
namespace_tags (ns ∷ rest) = codes "{Namespace:" ++ ns ++ codes "}" ++ namespace_tags rest

abbrev pub unit_tag : Option Text → Text
unit_tag none = []
unit_tag (some unit_name) = codes "{CompileUnit:" ++ unit_name ++ codes "}"

abbrev pub is_nonempty {ℓ} : {A : Type ℓ} → List A → Bool
is_nonempty [] = false
is_nonempty (x ∷ xs) = true

-- Without another tag the global namespace is not written.
unfoldable pub tags : Option Text → List Text → Option Text → Text
tags function_name namespaces unit_name =
    if is_some function_name || is_nonempty namespaces || is_some unit_name
    then function_tag function_name
      ++ namespace_tags namespaces
      ++ unit_tag unit_name
      ++ codes "{Namespace:Global}"
    else []

unfoldable pub make_symbol_link_string : SymbolInfo → DebugData → Text
unfolding tags
make_symbol_link_string sym_info debug_data =
    if sym_info.is_unique
    then sym_info.name
    else sym_info.name
      ++ tags sym_info.function_name sym_info.namespaces
          (make_simple_unit_name debug_data sym_info.unit_idx)
