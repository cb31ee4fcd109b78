-- ===== src/Symbol/Lookup.antt =====
-- src/symbol.rs: `find_symbol`, from the name of a symbol to its address and type.
use a2ltool.Prelude.{
  ℕ, Text, codes, Option, none, some, Bool, ◌&&◌, ◌||◌, List, [], ◌∷◌, ◌++◌, Outcome, ok, err,
  panic, out_of_fuel, ◌>>=◌, ◌==◌, if◌then◌else◌, length, drop, strip_prefix, is_some, not,
  opt_text_eq, texts_eq,
}
use a2ltool.DebugInfo.{TypeInfo, TypeTable, DebugData, VarInfo, type_info, uint8, usize_max}
use a2ltool.DebugInfo.UnitName.{make_simple_unit_name, map_get}
use a2ltool.Symbol.Info.{SymbolInfo, SymbolError, no_symbol, not_matched}
use a2ltool.Symbol.Names.{AdditionalSpec, get_additional_spec, split_symbol_components}
use a2ltool.Symbol.Members.{find_membertype}

-- The test of the loop of `select_varinfo`.
unfoldable pub spec_matches : DebugData → AdditionalSpec → VarInfo → Bool
spec_matches debug_data spec vi =
    (not (is_some spec.simple_unit_name)
      || opt_text_eq spec.simple_unit_name (make_simple_unit_name debug_data vi.unit_idx))
    && ((not (is_some spec.function_name) || opt_text_eq spec.function_name vi.function)
        && texts_eq spec.namespaces vi.namespaces)

unfoldable pub first_match : (VarInfo → Bool) → List VarInfo → Option VarInfo
first_match p [] = none
first_match p (vi ∷ rest) = if p vi then some vi else first_match p rest

-- `&varinfo_list[0]`
abbrev pub first_varinfo : List VarInfo → Outcome SymbolError VarInfo
first_varinfo [] = panic
first_varinfo (vi ∷ rest) = ok vi

abbrev pub or_first : Option VarInfo → List VarInfo → Outcome SymbolError VarInfo
or_first (some vi) varinfo_list = ok vi
or_first none varinfo_list = first_varinfo varinfo_list

-- Without a match the specification is ignored.
unfoldable pub select_varinfo :
    List VarInfo → Option AdditionalSpec → DebugData → Outcome SymbolError VarInfo
unfolding first_match
select_varinfo varinfo_list none debug_data = first_varinfo varinfo_list
select_varinfo varinfo_list (some spec) debug_data =
    or_first (first_match (spec_matches debug_data spec) varinfo_list) varinfo_list

abbrev pub symbol_at : VarInfo → Bool → ℕ × TypeInfo → SymbolInfo
symbol_at varinfo is_unique (addr, typeinfo) = record {
  name = codes "";
  address = addr;
  typeinfo = typeinfo;
  unit_idx = varinfo.unit_idx;
  function_name = varinfo.function;
  namespaces = varinfo.namespaces;
  is_unique = is_unique;
}

-- A variable whose type is missing is a uint8, and has no components.
unfoldable pub untyped_symbol : VarInfo → Bool → List Text → Outcome SymbolError SymbolInfo
untyped_symbol varinfo is_unique components =
    if length components == 1
    then ok (record {
      name = codes "";
      address = varinfo.address;
      typeinfo = type_info none usize_max uint8 0;
      unit_idx = varinfo.unit_idx;
      function_name = none;
      namespaces = varinfo.namespaces;
      is_unique = is_unique;
    })
    else err (not_matched (drop 1 components) components)

-- The branches on the look-up of the variable's type.
unfoldable pub resolve_typed :
    TypeTable → List Text → VarInfo → Bool → Option TypeInfo → Outcome SymbolError SymbolInfo
unfolding find_membertype untyped_symbol
resolve_typed types components varinfo is_unique (some vartype) = do
  found ← find_membertype types components vartype 1 varinfo.address
  ok (symbol_at varinfo is_unique found)
resolve_typed types components varinfo is_unique none = untyped_symbol varinfo is_unique components

-- The branches on the look-up of the variable.
unfoldable pub resolve_variable :
    DebugData
    → List Text
    → Option AdditionalSpec
    → Text
    → Option (List VarInfo)
    → Outcome SymbolError SymbolInfo
unfolding select_varinfo resolve_typed
resolve_variable debug_data components spec variable none = err (no_symbol variable)
resolve_variable debug_data components spec variable (some varinfo_list) = do
  varinfo ← select_varinfo varinfo_list spec debug_data
  resolve_typed debug_data.types components varinfo (length varinfo_list == 1)
      (debug_data.types varinfo.typeref)

unfoldable pub find_symbol_from_components :
    List Text → Option AdditionalSpec → DebugData → Outcome SymbolError SymbolInfo
unfolding map_get resolve_variable
find_symbol_from_components [] spec debug_data = panic
find_symbol_from_components (variable ∷ rest) spec debug_data =
    resolve_variable debug_data (variable ∷ rest) spec variable
      (map_get debug_data.variables variable)

-- `mangled.to_owned() + varname.strip_prefix(components[0]).unwrap()`
abbrev pub mangled_name : Text → Option Text → Outcome SymbolError Text
mangled_name mangled none = panic
mangled_name mangled (some rest) = ok (mangled ++ rest)

abbrev pub renamed : Text → SymbolInfo → SymbolInfo
renamed nm sym_info = record sym_info { name = nm }

-- The second attempt, with the first component replaced by its mangled form.
-- The second attempt has succeeded, or the first error is returned.
unfoldable pub name_mangled :
    Text
    → Text
    → Text
    → SymbolError
    → Outcome SymbolError SymbolInfo
    → Outcome SymbolError SymbolInfo
name_mangled varname first mangled find_err (ok sym_info) = do
  nm ← mangled_name mangled (strip_prefix first varname)
  ok (renamed nm sym_info)
name_mangled varname first mangled find_err (err e) = err find_err
name_mangled varname first mangled find_err panic = panic
name_mangled varname first mangled find_err out_of_fuel = out_of_fuel

-- The second attempt, if the first component has a mangled form.
unfoldable pub find_mangled :
    Text
    → Text
    → List Text
    → Option AdditionalSpec
    → DebugData
    → SymbolError
    → Option Text
    → Outcome SymbolError SymbolInfo
unfolding name_mangled find_symbol_from_components
find_mangled varname first rest spec debug_data find_err none = err find_err
find_mangled varname first rest spec debug_data find_err (some mangled) =
    name_mangled varname first mangled find_err
      (find_symbol_from_components (mangled ∷ rest) spec debug_data)

-- The branches on the first attempt.
unfoldable pub after_first_attempt :
    Text
    → Text
    → Text
    → List Text
    → Option AdditionalSpec
    → DebugData
    → Outcome SymbolError SymbolInfo
    → Outcome SymbolError SymbolInfo
unfolding find_mangled
after_first_attempt varname plain_symbol first rest spec debug_data (ok sym_info) =
    ok (renamed plain_symbol sym_info)
after_first_attempt varname plain_symbol first rest spec debug_data (err find_err) =
    find_mangled varname first rest spec debug_data find_err
      (map_get debug_data.demangled_names first)
after_first_attempt varname plain_symbol first rest spec debug_data panic = panic
after_first_attempt varname plain_symbol first rest spec debug_data out_of_fuel = out_of_fuel

unfoldable pub find_split :
    Text → Text → List Text → Option AdditionalSpec → DebugData → Outcome SymbolError SymbolInfo
unfolding after_first_attempt find_symbol_from_components
find_split varname plain_symbol [] spec debug_data = panic
find_split varname plain_symbol (first ∷ rest) spec debug_data =
    after_first_attempt varname plain_symbol first rest spec debug_data
      (find_symbol_from_components (first ∷ rest) spec debug_data)

unfoldable pub find_symbol : Text → DebugData → Outcome SymbolError SymbolInfo
unfolding find_split get_additional_spec split_symbol_components
find_symbol varname debug_data =
    let (plain_symbol, additional_spec) = get_additional_spec varname in
    find_split varname plain_symbol (split_symbol_components plain_symbol) additional_spec
      debug_data
