-- ===== src/Update/AxisPoints.antt =====
-- src/update/axis_pts.rs: the update of the AXIS_PTS of a module. `fuel` is that of
-- `find_symbol_by_offset`.
pub mod Cleanup
pub mod Datatype
pub mod Verified
use a2ltool.Prelude.{
  ℕ, ◌%◌, ◌^◌, ◌==◌, Text, codes, Option, none, some, Bool, true, false, ◌&&◌, ◌||◌, not, List, [],
  ◌∷◌, ok, err, panic, out_of_fuel, ◌>>=◌, if◌then◌else◌, get_elem?, map, ℤ,
}
use a2ltool.DebugInfo.{DebugData, TypeInfo, DbgDataType, array, enumeration, datatype, name}
use a2ltool.DebugInfo.UnitName.{map_get}
use a2ltool.Symbol.Info.{SymbolInfo}
use a2ltool.TypeIter.{Run}
use a2ltool.Floats.{Floats}
use a2ltool.DataTypes.{DataType, get_a2l_datatype}
use a2ltool.A2l.{
  Module, AxisPts, AxisDescr, AxisPtsDim, Characteristic, TypedefCharacteristic, RecordLayout,
}
use a2ltool.Update.Info.{A2lUpdateInfo, A2lVersion, version_at_least, v1_6_0}
use a2ltool.Update.Limits.{adjust_limits}
use a2ltool.Update.Fields.{set_symbol_link, contains}
use a2ltool.Update.SymbolNames.{make_symbol_link_string}
use a2ltool.Update.IfData.{A2lCrate, update_ifdata_address, update_ifdata_type, zero_if_data}
use a2ltool.Update.Lookup.{get_symbol_info, Found}
use a2ltool.Update.Enums.{cond_create_enum_conversion, update_enum_compu_methods}
use a2ltool.Update.Results.{UpdateResult, updated, symbol_not_found, invalid_data_type}
use a2ltool.Update.RecordLayouts.Members.{get_axis_pts_x_memberid, get_inner_type}
use a2ltool.Update.RecordLayouts.{update_record_layout}
use a2ltool.Update.RecordLayouts.Store.{RecordLayoutInfo}
use a2ltool.Update.Objects.{
  A2lUpdater, layouts_of, with_layouts, Changed, layout_at, Single, LoopState, Kind, update_loop,
  start,
}
use a2ltool.Update.Measurement.{ConvList, enum_conversion, compu_method_of}
use a2ltool.Update.Measurement.Equality.{data_type_eq}
use a2ltool.Update.AxisPoints.Datatype.{update_axis_pts_datatype, verify_axis_pts_datatype}
use a2ltool.Update.AxisPoints.Cleanup.{cleanup_removed_axis_pts}

module _ {F D : Type 0} ⦃fl : Floats F⦄ ⦃a2l : A2lCrate D⦄ where
  unfoldable pub update_axis_pts_address :
      AxisPts F D → DebugData → A2lVersion → SymbolInfo → AxisPts F D
  unfolding make_symbol_link_string set_symbol_link
  update_axis_pts_address axis_pts debug_data version sym_info = record axis_pts {
    symbol_link =
        if version_at_least version v1_6_0
        then set_symbol_link axis_pts.symbol_link (make_symbol_link_string sym_info debug_data)
        else none;
    address_hex = if axis_pts.address == 0 then true else axis_pts.address_hex;
    address = sym_info.address % 2 ^ 32;
  }

  -- The address, in the object and in its IF_DATA.
  unfoldable pub addressed : A2lUpdateInfo → SymbolInfo → AxisPts F D → AxisPts F D
  unfolding update_axis_pts_address update_ifdata_address
  addressed info sym_info axis_pts =
      let a = update_axis_pts_address axis_pts info.debug_data info.version sym_info in
      record a { if_data = update_ifdata_address a.if_data sym_info.name sym_info.address }

  unfoldable pub fully_updated :
      A2lUpdateInfo
      → Changed F D
      → SymbolInfo
      → AxisPts F D
      → Run (Single (Changed F D) (AxisPts F D))
  unfolding update_ifdata_type update_axis_pts_datatype
  fully_updated info changed sym_info axis_pts = do
    let a = record axis_pts { if_data = update_ifdata_type axis_pts.if_data sym_info.typeinfo }
    r ← update_axis_pts_datatype changed.0 a info sym_info changed.1
    ok (updated, r.0, r.1)

  -- The symbol has been found.
  unfoldable pub with_symbol :
      A2lUpdateInfo
      → Changed F D
      → AxisPts F D
      → SymbolInfo
      → Run (Single (Changed F D) (AxisPts F D))
  unfolding addressed fully_updated verify_axis_pts_datatype
  with_symbol info changed axis_pts sym_info =
      let a = addressed info sym_info axis_pts in
      if info.full_update
      then fully_updated info changed sym_info a
      else if info.strict_update
      then (verify_axis_pts_datatype changed.0 info a sym_info >>= λ r. ok (r, a, changed))
      else ok (updated, a, changed)

  unfoldable pub on_found :
      A2lUpdateInfo → Changed F D → AxisPts F D → Found → Run (Single (Changed F D) (AxisPts F D))
  unfolding with_symbol
  on_found info changed axis_pts (ok sym_info) = with_symbol info changed axis_pts sym_info
  on_found info changed axis_pts (err errmsgs) =
      ok
        (symbol_not_found (codes "AXIS_PTS") axis_pts.name axis_pts.line errmsgs, axis_pts, changed)
  on_found info changed axis_pts panic = panic
  on_found info changed axis_pts out_of_fuel = out_of_fuel

  unfoldable pub update_module_axis_pts :
      ℕ → A2lUpdateInfo → Changed F D → AxisPts F D → Run (Single (Changed F D) (AxisPts F D))
  unfolding get_symbol_info on_found
  update_module_axis_pts fuel info changed axis_pts =
      on_found info changed axis_pts
        (get_symbol_info fuel axis_pts.name axis_pts.symbol_link axis_pts.if_data info.debug_data)

  abbrev pub zeroed : AxisPts F D → AxisPts F D
  zeroed axis_pts = record axis_pts { address = 0; if_data = zero_if_data axis_pts.if_data }

  unfoldable pub axis_pts_kind : ℕ → A2lUpdateInfo → Kind (Changed F D) (AxisPts F D)
  unfolding update_module_axis_pts
  axis_pts_kind fuel info = record {
    update_one = λ changed axis_pts. update_module_axis_pts fuel info changed axis_pts;
    name_of = λ axis_pts. axis_pts.name;
    zeroed = λ axis_pts. zeroed axis_pts;
  }

  -- What is done after the loop.
  unfoldable pub finish : LoopState (Changed F D) (AxisPts F D) → A2lUpdater F D × List UpdateResult
  unfolding update_enum_compu_methods cleanup_removed_axis_pts
  finish s =
      let md = record s.changed.0.md { axis_pts = s.kept } in
      (
        record s.changed.0 {
          md = cleanup_removed_axis_pts (update_enum_compu_methods md s.changed.1) s.removed_items;
        },
        s.results,
      )

  unfoldable pub update_all_module_axis_pts :
      ℕ → A2lUpdateInfo → A2lUpdater F D → Run (A2lUpdater F D × List UpdateResult)
  unfolding update_loop axis_pts_kind finish
  update_all_module_axis_pts fuel info updater = do
    let swapped = record updater { md = record updater.md { axis_pts = [] } }
    s ←
        update_loop (axis_pts_kind fuel info) info.preserve_unknown updater.md.axis_pts
          (start (swapped, []))
    ok (finish s)
