-- ===== src/Update/AxisPoints/Datatype.antt =====
-- src/update/axis_pts.rs: the data type of an AXIS_PTS, its update and its check.
use a2ltool.Prelude.{
  ℕ, ◌%◌, ◌^◌, ◌==◌, Text, codes, Option, none, some, Bool, true, false, ◌&&◌, not, List, [], ◌∷◌,
  ok, ◌>>=◌, if◌then◌else◌, ℤ,
}
use a2ltool.DebugInfo.{TypeInfo, DbgDataType, array, enumeration, datatype, name}
use a2ltool.DebugInfo.UnitName.{map_get}
use a2ltool.Symbol.Info.{SymbolInfo}
use a2ltool.TypeIter.{Run}
use a2ltool.Floats.{Floats}
use a2ltool.DataTypes.{DataType, get_a2l_datatype}
use a2ltool.A2l.{Module, AxisPts, AxisPtsDim, RecordLayout}
use a2ltool.Update.Info.{A2lUpdateInfo}
use a2ltool.Update.Limits.{adjust_limits}
use a2ltool.Update.IfData.{A2lCrate}
use a2ltool.Update.Enums.{cond_create_enum_conversion}
use a2ltool.Update.Results.{UpdateResult, updated, invalid_data_type}
use a2ltool.Update.RecordLayouts.Members.{get_axis_pts_x_memberid, get_inner_type}
use a2ltool.Update.RecordLayouts.{update_record_layout}
use a2ltool.Update.RecordLayouts.Store.{RecordLayoutInfo}
use a2ltool.Update.Objects.{A2lUpdater, layouts_of, with_layouts, Changed, layout_at}
use a2ltool.Update.Measurement.{ConvList, enum_conversion, compu_method_of}
use a2ltool.Update.Measurement.Equality.{data_type_eq}

-- The type of the AXIS_PTS and its points: an array has its first dimension, an enumeration has
-- one, and another type leaves them.
abbrev pub points_of : DbgDataType → ℕ → ℕ
points_of (array size (d ∷ dim) stride arraytype) points = d % 2 ^ 16
points_of (array size [] stride arraytype) points = points
points_of (enumeration size signed enumerators) points = 1
points_of _ points = points

-- The type whose enumerators the conversion shows.
abbrev pub element_type : DbgDataType → TypeInfo → Option TypeInfo
element_type (array size dim stride arraytype) typeinfo = some arraytype
element_type (enumeration size signed enumerators) typeinfo = some typeinfo
element_type _ typeinfo = none

abbrev pub with_enum : DbgDataType → TypeInfo → Option (TypeInfo × List (Text × ℤ))
with_enum (enumeration size signed enumerators) typeinfo = some (typeinfo, enumerators)
with_enum _ typeinfo = none

abbrev pub enum_element : Option TypeInfo → Option (TypeInfo × List (Text × ℤ))
enum_element none = none
enum_element (some t) = with_enum (datatype t) t

-- What `verify_axis_pts_datatype` expects.
abbrev pub expected_points : DbgDataType → ℕ
expected_points (array size (d ∷ dim) stride arraytype) = d % 2 ^ 16
expected_points _ = 1

abbrev axis_pts_x_of : Option RecordLayout → Option AxisPtsDim
axis_pts_x_of none = none
axis_pts_x_of (some rl) = rl.x.axis_pts

-- `idxmap.get(..)`, `record_layout.get(..)` and `axis_pts_x`
unfoldable pub axis_pts_x_at : List RecordLayout → RecordLayoutInfo → Text → Option AxisPtsDim
unfolding map_get
axis_pts_x_at record_layout info deposit =
    axis_pts_x_of (layout_at (map_get info.idxmap deposit) record_layout)

abbrev pub is_bad_datatype : Option AxisPtsDim → DataType → Bool
is_bad_datatype none calc_datatype = false
is_bad_datatype (some axis_pts_x) calc_datatype =
    not (data_type_eq axis_pts_x.datatype calc_datatype)

module _ {F D : Type 0} ⦃fl : Floats F⦄ ⦃a2l : A2lCrate D⦄ where
  -- The conversion, the module and the list of types.
  unfoldable pub update_axis_pts_conversion :
      Module F D
      → AxisPts F D
      → Option (TypeInfo × List (Text × ℤ))
      → ConvList
      → Text × Module F D × ConvList
  unfolding cond_create_enum_conversion enum_conversion
  update_axis_pts_conversion md axis_pts none convlist = (axis_pts.conversion, md, convlist)
  update_axis_pts_conversion md axis_pts (some (typeinfo, enumerators)) convlist =
      let conversion = enum_conversion axis_pts.conversion axis_pts.name (name typeinfo) in
      (
        conversion,
        cond_create_enum_conversion md conversion enumerators,
        (conversion, typeinfo) ∷ convlist,
      )

  -- The points, the conversion and the limits, if the symbol has the type of the member.
  unfoldable pub update_inner :
      A2lUpdateInfo
      → Module F D
      → AxisPts F D
      → ConvList
      → Option TypeInfo
      → AxisPts F D × Module F D × ConvList
  unfolding update_axis_pts_conversion adjust_limits compu_method_of
  update_inner info md axis_pts convlist none = (axis_pts, md, convlist)
  update_inner info md axis_pts convlist (some inner) =
      let t = datatype inner in
      let r =
        update_axis_pts_conversion md axis_pts (enum_element (element_type t inner)) convlist in
      let limits =
        adjust_limits inner axis_pts.lower_limit axis_pts.upper_limit
          (compu_method_of info r.1 r.0) in
      (
        record axis_pts {
          max_axis_points = points_of t axis_pts.max_axis_points;
          conversion = r.0;
          lower_limit = limits.0;
          upper_limit = limits.1;
        },
        r.1,
        r.2,
      )

  -- The members' part, and then the RECORD_LAYOUT.
  unfoldable pub update_with_member :
      A2lUpdater F D
      → AxisPts F D
      → A2lUpdateInfo
      → SymbolInfo
      → ConvList
      → Option TypeInfo
      → Run (AxisPts F D × Changed F D)
  unfolding update_inner update_record_layout
  update_with_member updater axis_pts info sym_info convlist member = do
    let r = update_inner info updater.md axis_pts convlist member
    let inner_updater = record updater { md = r.1 }
    stored ←
        update_record_layout a2l.type_text (layouts_of inner_updater) axis_pts.deposit_record
          sym_info.typeinfo
    ok (record r.0 { deposit_record = stored.0 }, (with_layouts inner_updater stored.1, r.2))

  unfoldable pub update_axis_pts_datatype :
      A2lUpdater F D
      → AxisPts F D
      → A2lUpdateInfo
      → SymbolInfo
      → ConvList
      → Run (AxisPts F D × Changed F D)
  unfolding get_axis_pts_x_memberid get_inner_type update_with_member
  update_axis_pts_datatype updater axis_pts info sym_info convlist = do
    member_id ←
        get_axis_pts_x_memberid updater.md.record_layout updater.reclayout_info
          axis_pts.deposit_record
    update_with_member updater axis_pts info sym_info convlist
        (get_inner_type sym_info.typeinfo member_id)

  -- The tests of `verify_axis_pts_datatype`, where there is an inner type.
  unfoldable pub has_axis_fields :
      A2lUpdateInfo → A2lUpdater F D → AxisPts F D → Option TypeInfo → Bool
  unfolding adjust_limits get_a2l_datatype compu_method_of axis_pts_x_at data_type_eq
  has_axis_fields info updater axis_pts none = true
  has_axis_fields info updater axis_pts (some inner) =
      let limits =
        adjust_limits inner axis_pts.lower_limit axis_pts.upper_limit
          (compu_method_of info updater.md axis_pts.conversion) in
      expected_points (datatype inner) == axis_pts.max_axis_points
      && (fl.eq limits.0 axis_pts.lower_limit
          && (fl.eq limits.1 axis_pts.upper_limit
              && not (
                  is_bad_datatype
                    (axis_pts_x_at updater.md.record_layout updater.reclayout_info
                      axis_pts.deposit_record)
                    (get_a2l_datatype inner))))

  unfoldable pub verify_with_member :
      A2lUpdater F D → A2lUpdateInfo → AxisPts F D → Option TypeInfo → UpdateResult
  unfolding has_axis_fields
  verify_with_member updater info axis_pts member =
      if has_axis_fields info updater axis_pts member
      then updated
      else invalid_data_type (codes "AXIS_PTS") axis_pts.name axis_pts.line

  unfoldable pub verify_axis_pts_datatype :
      A2lUpdater F D → A2lUpdateInfo → AxisPts F D → SymbolInfo → Run UpdateResult
  unfolding get_axis_pts_x_memberid get_inner_type verify_with_member
  verify_axis_pts_datatype updater info axis_pts sym_info = do
    member_id ←
        get_axis_pts_x_memberid updater.md.record_layout updater.reclayout_info
          axis_pts.deposit_record
    ok (verify_with_member updater info axis_pts (get_inner_type sym_info.typeinfo member_id))
