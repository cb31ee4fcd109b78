-- ===== src/Update/Measurement.antt =====
-- src/update/measurement.rs: the update of the MEASUREMENTs of a module. `fuel` is that of
-- `find_symbol_by_offset`. `enum_convlist` is a hash map: a list with the latest entry first.
pub mod Equality
pub mod Cleanup
pub mod Verified
pub mod Loop
pub mod Kept
pub mod Processed
pub mod Total
use a2ltool.Prelude.{
  ℕ, Text, codes, Option, none, some, Bool, true, false, ◌&&◌, ◌||◌, not, List, [], ◌∷◌, ◌++◌,
  Outcome, ok, err, panic, out_of_fuel, ◌>>=◌, if◌then◌else◌, text_eq, get_elem?, ℤ, ◌==◌,
}
use a2ltool.DebugInfo.{
  TypeInfo, DbgDataType, TypeTable, enumeration, datatype, name, get_pointer, get_arraytype,
  unwrap_or,
}
use a2ltool.DebugInfo.UnitName.{map_get}
use a2ltool.Symbol.Info.{SymbolInfo}
use a2ltool.TypeIter.{Run}
use a2ltool.Floats.{Floats}
use a2ltool.DataTypes.{DataType, get_a2l_datatype}
use a2ltool.A2l.{
  Module, Measurement, CompuMethod, HexNumber, SymbolLink, AddrType, Group, FunctionBlock,
  Characteristic, TypedefCharacteristic, pbyte, pword, plong, plonglong, direct,
}
use a2ltool.Update.Info.{A2lUpdateInfo, A2lVersion, version_at_least, v1_6_0, v1_7_0}
use a2ltool.Update.Limits.{adjust_limits}
use a2ltool.Update.Fields.{
  set_symbol_link, set_matrix_dim, set_measurement_ecu_address, set_bitmask, set_address_type,
  cleanup_item_list, contains,
}
use a2ltool.Update.SymbolNames.{make_symbol_link_string}
use a2ltool.Update.IfData.{A2lCrate, update_ifdata_address, update_ifdata_type, zero_if_data}
use a2ltool.Update.Lookup.{get_symbol_info, Found}
use a2ltool.Update.Enums.{cond_create_enum_conversion, update_enum_compu_methods}
use a2ltool.Update.Results.{UpdateResult, updated, symbol_not_found, invalid_data_type}
use a2ltool.Update.Measurement.Equality.{addr_type_eq, dims_eq, mask_eq, data_type_eq}

abbrev pub ConvList : Type 0
ConvList = List (Text × TypeInfo)

abbrev pub no_compu_method : Text
no_compu_method = codes "NO_COMPU_METHOD"

abbrev pointer_target : Option (ℕ × TypeInfo) → TypeInfo → TypeInfo
pointer_target none typeinfo = typeinfo
pointer_target (some (size, target)) typeinfo = target

-- `typeinfo.get_pointer(types).map_or(typeinfo, |(_, t)| t)`
unfoldable pub without_pointer : TypeInfo → TypeTable → TypeInfo
unfolding get_pointer
without_pointer typeinfo types = pointer_target (get_pointer typeinfo types) typeinfo

-- `typeinfo.get_arraytype().unwrap_or(typeinfo)`
unfoldable pub without_array : TypeInfo → TypeInfo
unfolding get_arraytype
without_array typeinfo = unwrap_or (get_arraytype typeinfo) typeinfo

abbrev pub type_of_measurement : TypeInfo → TypeTable → TypeInfo
unfolding without_pointer without_array
type_of_measurement typeinfo types = without_array (without_pointer typeinfo types)

abbrev pub enum_of : DbgDataType → Option (List (Text × ℤ))
enum_of (enumeration size signed enumerators) = some enumerators
enum_of _ = none

-- The name of the conversion that an enumeration is given, if there was none.
unfoldable pub enum_conversion : Text → Text → Option Text → Text
enum_conversion conversion measurement_name type_name =
    if text_eq conversion no_compu_method
    then unwrap_or type_name (measurement_name ++ codes "_compu_method")
    else conversion

abbrev pub compu_method_at : {F : Type 0} → Option ℕ → List (CompuMethod F) → Option (CompuMethod F)
compu_method_at none compu_methods = none
compu_method_at (some idx) compu_methods = get_elem? compu_methods idx

abbrev pub is_bad_conversion : Text → Option (List (Text × ℤ)) → Bool
is_bad_conversion conversion none = false
is_bad_conversion conversion (some enumerators) = text_eq conversion no_compu_method

module _ {F D : Type 0} ⦃fl : Floats F⦄ ⦃a2l : A2lCrate D⦄ where
  -- The COMPU_METHOD by its index at the start of the update.
  unfoldable pub compu_method_of : A2lUpdateInfo → Module F D → Text → Option (CompuMethod F)
  unfolding map_get
  compu_method_of info md conversion =
      compu_method_at (map_get info.compu_method_index conversion) md.compu_method

  unfoldable pub update_measurement_address :
      Measurement F D → A2lUpdateInfo → SymbolInfo → Measurement F D
  unfolding make_symbol_link_string set_symbol_link set_measurement_ecu_address
  update_measurement_address measurement info sym_info = record measurement {
    symbol_link =
        if version_at_least info.version v1_6_0
        then set_symbol_link measurement.symbol_link
            (make_symbol_link_string sym_info info.debug_data)
        else none;
    ecu_address =
        set_measurement_ecu_address a2l.new_address_hex measurement.ecu_address sym_info.address;
  }

  -- The branch for an enumeration: the conversion and its tables.
  unfoldable pub enum_branch :
      Measurement F D
      → TypeInfo
      → Module F D
      → ConvList
      → Option (List (Text × ℤ))
      → Text × Module F D × ConvList
  unfolding cond_create_enum_conversion enum_conversion
  enum_branch measurement typeinfo md convlist none = (measurement.conversion, md, convlist)
  enum_branch measurement typeinfo md convlist (some enumerators) =
      let conversion = enum_conversion measurement.conversion measurement.name (name typeinfo) in
      (
        conversion,
        cond_create_enum_conversion md conversion enumerators,
        (conversion, typeinfo) ∷ convlist,
      )

  -- The assignments that follow the branch.
  unfoldable pub set_type_fields :
      A2lUpdateInfo → Measurement F D → TypeInfo → Text × Module F D × ConvList → Measurement F D
  unfolding set_address_type set_matrix_dim set_bitmask adjust_limits get_a2l_datatype
      compu_method_of without_pointer without_array
  set_type_fields info measurement typeinfo (conversion, md, convlist) =
      let types = info.debug_data.types in
      let target = without_pointer typeinfo types in
      let inner = without_array target in
      let limits =
        adjust_limits inner measurement.lower_limit measurement.upper_limit
          (compu_method_of info md conversion) in
      record measurement {
        address_type = set_address_type measurement.address_type typeinfo;
        matrix_dim =
            set_matrix_dim measurement.matrix_dim target (version_at_least info.version v1_7_0);
        array_size = none;
        conversion = conversion;
        lower_limit = limits.0;
        upper_limit = limits.1;
        datatype = get_a2l_datatype inner;
        bit_mask = set_bitmask measurement.bit_mask inner;
      }

  unfoldable pub update_measurement_datatype :
      A2lUpdateInfo
      → Module F D
      → Measurement F D
      → TypeInfo
      → ConvList
      → Measurement F D × Module F D × ConvList
  unfolding enum_branch set_type_fields without_pointer without_array
  update_measurement_datatype info md measurement typeinfo convlist =
      let inner = without_array (without_pointer typeinfo info.debug_data.types) in
      let branch = enum_branch measurement inner md convlist (enum_of (datatype inner)) in
      (set_type_fields info measurement typeinfo branch, branch.1, branch.2)

  -- The tests of `verify_measurement_datatype`, on what `typeinfo` asks for.
  unfoldable pub has_type_fields : A2lUpdateInfo → Module F D → Measurement F D → TypeInfo → Bool
  unfolding set_address_type set_matrix_dim set_bitmask adjust_limits get_a2l_datatype
      compu_method_of without_pointer without_array addr_type_eq dims_eq mask_eq data_type_eq
  has_type_fields info md measurement typeinfo =
      let types = info.debug_data.types in
      let target = without_pointer typeinfo types in
      let inner = without_array target in
      let limits =
        adjust_limits inner measurement.lower_limit measurement.upper_limit
          (compu_method_of info md measurement.conversion) in
      addr_type_eq (set_address_type measurement.address_type typeinfo) measurement.address_type
      && (dims_eq
            (set_matrix_dim measurement.matrix_dim target (version_at_least info.version v1_7_0))
            measurement.matrix_dim
          && (mask_eq (set_bitmask measurement.bit_mask inner) measurement.bit_mask
              && (fl.eq limits.0 measurement.lower_limit
                  && (fl.eq limits.1 measurement.upper_limit
                      && (data_type_eq (get_a2l_datatype inner) measurement.datatype
                          && not (
                              is_bad_conversion measurement.conversion
                                (enum_of (datatype inner))))))))

  unfoldable pub verify_measurement_datatype :
      A2lUpdateInfo → Module F D → Measurement F D → TypeInfo → UpdateResult
  unfolding has_type_fields
  verify_measurement_datatype info md measurement typeinfo =
      if has_type_fields info md measurement typeinfo
      then updated
      else invalid_data_type (codes "MEASUREMENT") measurement.name measurement.line
