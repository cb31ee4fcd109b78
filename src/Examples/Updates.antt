-- ===== src/Examples/Updates.antt =====
-- src/update: the theorems on symbol names, IF_DATA, tables and MEASUREMENTs at concrete values.
use a2ltool.Prelude.{
  Option, ◌+◌, Text, codes, none, some, true, false, List, [], ◌∷◌, ◌++◌, length, ℤ, pos, negsuc,
  ok, err, ◌⊎◌, ◌≡◌, refl, arith,
}
use a2ltool.DebugInfo.{TypeInfo, VarInfo, enumeration, type_info}
use a2ltool.DebugInfo.UnitName.{make_simple_unit_name}
use a2ltool.Symbol.Info.{SymbolInfo}
use a2ltool.Symbol.Names.{get_additional_spec}
use a2ltool.Symbol.Lookup.{find_symbol, spec_matches}
use a2ltool.A2l.{Module, SymbolLink}
use a2ltool.DataTypes.{get_type_limits}
use a2ltool.Update.Limits.Stable.{HasOwnLimits}
use a2ltool.Update.SymbolNames.{make_symbol_link_string}
use a2ltool.Update.SymbolNames.RoundTrip.{spec_of, get_additional_spec-make_symbol_link_string}
use a2ltool.Update.IfData.{
  update_ifdata_address, update_ifdata_type, zero_if_data, get_symbol_name_from_ifdata, map_option,
}
use a2ltool.Update.IfData.Blocks.{AllZero, update_ifdata-link_name}
use a2ltool.Update.Enums.{update_enum_compu_methods, cond_create_enum_conversion, has_name}
use a2ltool.Update.Enums.Tables.{VtabFollows, RangeFollows, update_enum_compu_methods-VtabsUpdated}
use a2ltool.Update.Enums.Creation.{
  HasUniqueNames, HasConversion, cond_create_enum_conversion-HasUniqueNames,
}
use a2ltool.Update.Lookup.{get_symbol_info}
use a2ltool.Update.Lookup.Messages.{AreMessages}
use a2ltool.Update.Lookup.Sources.{IsOfLink, IsNamed, LinkFails, HasNoSymbol, get_symbol_info_lem}
use a2ltool.Update.Results.{updated, symbol_not_found, log_update_results, UpdateResult}
use a2ltool.Update.Results.Counts.{count_lines, count_missing, log_update_results-counts}
use a2ltool.Update.Measurement.{
  update_measurement_datatype, verify_measurement_datatype, without_pointer, without_array,
}
use a2ltool.Update.Measurement.Verified.{verify-update_measurement_datatype}
use a2ltool.Update.Measurement.Cleanup.{cleanup_removed_measurements}
use a2ltool.Update.Measurement.Cleanup.References.{
  All2, ModuleCleaned, cleanup_removed_measurements-ModuleCleaned,
}
use a2ltool.Update.Measurement.Processed.{Processed}
use a2ltool.Samples.{debug_data, byte}
use a2ltool.UpdateSamples.{
  Coarse, coarse, coarse-IsIeee, Block, plain_crate, plain_crate-LoadsStored, linked_block, measure,
  sample_module, full_info,
}

abbrev local_symbol : SymbolInfo
local_symbol = record {
  name = codes "var";
  address = 1000;
  typeinfo = byte;
  unit_idx = 1;
  function_name = some (codes "func_b");
  namespaces = codes "ns" ∷ [];
  is_unique = false;
}

abbrev local_entry : VarInfo
local_entry = record {
  address = 1000;
  typeref = 1;
  unit_idx = 1;
  function = some (codes "func_b");
  namespaces = codes "ns" ∷ [];
}

get_additional_spec-make_symbol_link_string_example :
    (get_additional_spec (make_symbol_link_string local_symbol debug_data)
      ≡ (codes "var", some (spec_of (some (codes "func_b")) (codes "file2_c") (codes "ns" ∷ []))))
    × (spec_matches debug_data
          (spec_of (some (codes "func_b")) (codes "file2_c") (codes "ns" ∷ []))
          local_entry
        ≡ true)
get_additional_spec-make_symbol_link_string_example =
    get_additional_spec-make_symbol_link_string debug_data local_symbol (codes "file2_c")
      local_entry refl (unfold make_simple_unit_name in refl) (ground arith) (ground arith)
      (ground arith) (ground arith) (refl, refl, refl)

update_ifdata-link_name_example :
    (get_symbol_name_from_ifdata
        (update_ifdata_type (update_ifdata_address (linked_block ∷ []) (codes "var") 1000) byte)
      ≡ map_option (λ _. codes "var") (get_symbol_name_from_ifdata (linked_block ∷ [])))
    × (get_symbol_name_from_ifdata (zero_if_data (linked_block ∷ []))
        ≡ get_symbol_name_from_ifdata (linked_block ∷ []))
    × AllZero plain_crate-LoadsStored (zero_if_data (linked_block ∷ []))
update_ifdata-link_name_example =
    update_ifdata-link_name plain_crate-LoadsStored (linked_block ∷ []) (codes "var") 1000 byte

abbrev colour : TypeInfo
colour =
    type_info (some (codes "colour")) 0
      (enumeration 4 true ((codes "red", pos 7) ∷ (codes "none", negsuc 0) ∷ [])) 0

abbrev colours : List (Text × ℤ)
colours = (codes "red", pos 7) ∷ (codes "none", negsuc 0) ∷ []

cond_create_enum_conversion-HasUniqueNames_example :
    let md' = cond_create_enum_conversion sample_module (codes "colour") colours in
    HasUniqueNames md'
    × (has_name (codes "colour") sample_module.compu_method ≡ false
        → HasConversion (codes "colour") md')
    × (has_name (codes "colour") sample_module.compu_method ≡ true → md' ≡ sample_module)
    × (cond_create_enum_conversion md' (codes "colour") [] ≡ md')
cond_create_enum_conversion-HasUniqueNames_example =
    cond_create_enum_conversion-HasUniqueNames sample_module (codes "colour") colours [] (tt, tt)

abbrev coloured_module : Module Coarse Block
coloured_module = cond_create_enum_conversion sample_module (codes "colour") colours

update_enum_compu_methods-VtabsUpdated_example :
    let md' = update_enum_compu_methods coloured_module ((codes "colour", colour) ∷ []) in
    All2
      (VtabFollows ((codes "colour", colour) ∷ []) coloured_module.compu_method)
      coloured_module.compu_vtab
      md'.compu_vtab
    × All2
        (RangeFollows ((codes "colour", colour) ∷ []) coloured_module.compu_method)
        coloured_module.compu_vtab_range
        md'.compu_vtab_range
    × (md'.compu_method ≡ coloured_module.compu_method)
update_enum_compu_methods-VtabsUpdated_example =
    update_enum_compu_methods-VtabsUpdated coloured_module (codes "colour", colour) []

get_symbol_info_lem_example :
    let by_ifdata = get_symbol_name_from_ifdata (linked_block ∷ []) in
    ((s : SymbolInfo)
      → get_symbol_info 9 (codes "x") none (linked_block ∷ []) debug_data ≡ ok s
      → IsOfLink 9 debug_data none s
        ⊎ ((LinkFails debug_data none × IsNamed debug_data by_ifdata s)
            ⊎ ((◌≡◌ {A = Option SymbolLink} none none)
                × HasNoSymbol debug_data by_ifdata
                × (find_symbol (codes "x") debug_data ≡ ok s))))
    × ((ms : List Text)
        → get_symbol_info 9 (codes "x") none (linked_block ∷ []) debug_data ≡ err ms
        → AreMessages ms)
get_symbol_info_lem_example = get_symbol_info_lem 9 (codes "x") none (linked_block ∷ []) debug_data

abbrev two_results : List UpdateResult
two_results =
    updated ∷ symbol_not_found (codes "MEASUREMENT") (codes "lost") 7 (codes "no" ∷ []) ∷ []

log_update_results-counts_example :
    let r = log_update_results [] two_results in
    ((added : List Text) × (r.0 ≡ [] ++ added) × (length added ≡ count_lines two_results))
    × (r.2 ≡ count_missing two_results)
    × (r.1 + r.2 ≡ length two_results)
log_update_results-counts_example = log_update_results-counts [] two_results (omega arith)

byte-HasOwnLimits :
    HasOwnLimits coarse (without_array (without_pointer byte full_info.debug_data.types))
unfolding get_type_limits without_array without_pointer
byte-HasOwnLimits a b c d = refl

verify-update_measurement_datatype_example :
    let r = update_measurement_datatype full_info sample_module (measure (codes "m")) byte [] in
    verify_measurement_datatype full_info r.1 r.0 byte ≡ updated
verify-update_measurement_datatype_example =
    verify-update_measurement_datatype coarse-IsIeee full_info sample_module (measure (codes "m"))
      byte [] byte-HasOwnLimits refl refl (unfold update_measurement_datatype in refl)
      (unfold update_measurement_datatype in refl) (unfold update_measurement_datatype in refl)
      (unfold update_measurement_datatype in refl)

cleanup_removed_measurements-ModuleCleaned_example :
    ModuleCleaned
      (codes "lost" ∷ [])
      sample_module
      (cleanup_removed_measurements sample_module (codes "lost" ∷ []))
cleanup_removed_measurements-ModuleCleaned_example =
    cleanup_removed_measurements-ModuleCleaned sample_module (codes "lost" ∷ [])

abbrev pub last_symbol : SymbolInfo
last_symbol = record {
  name = codes "my_struct.last";
  address = 4104;
  typeinfo = byte;
  unit_idx = 0;
  function_name = none;
  namespaces = [];
  is_unique = true;
}
