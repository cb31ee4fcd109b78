-- ===== src/Update/Characteristics.antt =====
-- src/update/characteristic.rs: the update of the CHARACTERISTICs of a module. `fuel` is that of
-- `find_symbol_by_offset`.
pub mod Axes
pub mod Datatype
pub mod Cleanup
pub mod Readdressed
pub mod Shape
pub mod Verified
use a2ltool.Prelude.{
  ℕ, ◌%◌, ◌^◌, ◌==◌, Text, codes, none, some, Bool, true, false, List, [], ◌∷◌, ok, err, panic,
  out_of_fuel, ◌>>=◌, if◌then◌else◌,
}
use a2ltool.DebugInfo.{DebugData}
use a2ltool.Symbol.Info.{SymbolInfo}
use a2ltool.TypeIter.{Run}
use a2ltool.Floats.{Floats}
use a2ltool.A2l.{Module, Characteristic, AxisPts}
use a2ltool.Update.Info.{A2lUpdateInfo, A2lVersion, version_at_least, v1_6_0, v1_7_0}
use a2ltool.Update.Fields.{set_symbol_link}
use a2ltool.Update.SymbolNames.{make_symbol_link_string}
use a2ltool.Update.IfData.{A2lCrate, update_ifdata_address, update_ifdata_type, zero_if_data}
use a2ltool.Update.Lookup.{get_symbol_info, Found}
use a2ltool.Update.Enums.{update_enum_compu_methods}
use a2ltool.Update.Results.{UpdateResult, updated, symbol_not_found, invalid_data_type}
use a2ltool.Update.Objects.{A2lUpdater, Changed, Single, LoopState, Kind, update_loop, start}
use a2ltool.Update.Characteristics.Datatype.{
  update_characteristic_datatype, verify_characteristic_datatype,
}
use a2ltool.Update.Characteristics.Cleanup.{cleanup_removed_characteristics}

module _ {F D : Type 0} ⦃fl : Floats F⦄ ⦃a2l : A2lCrate D⦄ where
  unfoldable pub update_characteristic_address :
      Characteristic F D → DebugData → A2lVersion → SymbolInfo → Characteristic F D
  unfolding make_symbol_link_string set_symbol_link
  update_characteristic_address characteristic debug_data version sym_info = record characteristic {
    symbol_link =
        if version_at_least version v1_6_0
        then set_symbol_link characteristic.symbol_link
            (make_symbol_link_string sym_info debug_data)
        else none;
    address_hex = if characteristic.address == 0 then true else characteristic.address_hex;
    address = sym_info.address % 2 ^ 32;
  }

  -- The address, in the object and in its IF_DATA.
  unfoldable pub addressed : A2lUpdateInfo → SymbolInfo → Characteristic F D → Characteristic F D
  unfolding update_characteristic_address update_ifdata_address
  addressed info sym_info characteristic =
      let c = update_characteristic_address characteristic info.debug_data info.version sym_info in
      record c { if_data = update_ifdata_address c.if_data sym_info.name sym_info.address }

  unfoldable pub fully_updated :
      A2lUpdateInfo
      → List (Text × ℕ)
      → Changed F D
      → SymbolInfo
      → Characteristic F D
      → Run (Single (Changed F D) (Characteristic F D))
  unfolding update_ifdata_type update_characteristic_datatype
  fully_updated info axis_pts_dim changed sym_info characteristic = do
    let c = record characteristic {
      if_data = update_ifdata_type characteristic.if_data sym_info.typeinfo;
    }
    r ←
        update_characteristic_datatype changed.0 c sym_info.typeinfo changed.1 axis_pts_dim
          (version_at_least info.version v1_7_0) info
    ok (updated, r.0, r.1)

  -- The symbol has been found.
  unfoldable pub with_symbol :
      A2lUpdateInfo
      → List (Text × ℕ)
      → Changed F D
      → Characteristic F D
      → SymbolInfo
      → Run (Single (Changed F D) (Characteristic F D))
  unfolding addressed fully_updated verify_characteristic_datatype
  with_symbol info axis_pts_dim changed characteristic sym_info =
      let c = addressed info sym_info characteristic in
      if info.full_update
      then fully_updated info axis_pts_dim changed sym_info c
      else if info.strict_update
      then (verify_characteristic_datatype changed.0 info c sym_info.typeinfo
            (version_at_least info.version v1_7_0)
          >>= λ r. ok (r, c, changed))
      else ok (updated, c, changed)

  unfoldable pub on_found :
      A2lUpdateInfo
      → List (Text × ℕ)
      → Changed F D
      → Characteristic F D
      → Found
      → Run (Single (Changed F D) (Characteristic F D))
  unfolding with_symbol
  on_found info axis_pts_dim changed characteristic (ok sym_info) =
      with_symbol info axis_pts_dim changed characteristic sym_info
  on_found info axis_pts_dim changed characteristic (err errmsgs) = ok (
    symbol_not_found (codes "CHARACTERISTIC") characteristic.name characteristic.line errmsgs,
    characteristic,
    changed,
  )
  on_found info axis_pts_dim changed characteristic panic = panic
  on_found info axis_pts_dim changed characteristic out_of_fuel = out_of_fuel

  -- A VIRTUAL_CHARACTERISTIC has no address.
  unfoldable pub update_module_characteristic :
      ℕ
      → A2lUpdateInfo
      → List (Text × ℕ)
      → Changed F D
      → Characteristic F D
      → Run (Single (Changed F D) (Characteristic F D))
  unfolding get_symbol_info on_found
  update_module_characteristic fuel info axis_pts_dim changed characteristic =
      if characteristic.virtual_characteristic
      then ok (updated, characteristic, changed)
      else on_found info axis_pts_dim changed characteristic (
          get_symbol_info fuel characteristic.name characteristic.symbol_link characteristic.if_data
            info.debug_data)

  abbrev pub zeroed : Characteristic F D → Characteristic F D
  zeroed characteristic = record characteristic {
    address = 0;
    if_data = zero_if_data characteristic.if_data;
  }

  unfoldable pub characteristic_kind :
      ℕ → A2lUpdateInfo → List (Text × ℕ) → Kind (Changed F D) (Characteristic F D)
  unfolding update_module_characteristic
  characteristic_kind fuel info axis_pts_dim = record {
    update_one = λ changed c. update_module_characteristic fuel info axis_pts_dim changed c;
    name_of = λ c. c.name;
    zeroed = λ c. zeroed c;
  }

  -- The points of each AXIS_PTS; a hash map, so the latest comes first.
  unfoldable pub axis_points : List (AxisPts F D) → List (Text × ℕ) → List (Text × ℕ)
  axis_points [] entries = entries
  axis_points (item ∷ items) entries =
      axis_points items ((item.name, item.max_axis_points) ∷ entries)

  -- What is done after the loop.
  unfoldable pub finish :
      LoopState (Changed F D) (Characteristic F D) → A2lUpdater F D × List UpdateResult
  unfolding update_enum_compu_methods cleanup_removed_characteristics
  finish s =
      let md = record s.changed.0.md { characteristic = s.kept } in
      (
        record s.changed.0 {
          md =
              cleanup_removed_characteristics (update_enum_compu_methods md s.changed.1)
                s.removed_items;
        },
        s.results,
      )

  unfoldable pub update_all_module_characteristics :
      ℕ → A2lUpdateInfo → A2lUpdater F D → Run (A2lUpdater F D × List UpdateResult)
  unfolding update_loop characteristic_kind axis_points finish
  update_all_module_characteristics fuel info updater = do
    let axis_pts_dim = axis_points updater.md.axis_pts []
    let swapped = record updater { md = record updater.md { characteristic = [] } }
    s ←
        update_loop (characteristic_kind fuel info axis_pts_dim) info.preserve_unknown
          updater.md.characteristic (start (swapped, []))
    ok (finish s)
