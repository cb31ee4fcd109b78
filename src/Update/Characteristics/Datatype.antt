-- ===== src/Update/Characteristics/Datatype.antt =====
-- src/update/characteristic.rs: the data type of a CHARACTERISTIC, its update and its check.
use a2ltool.Prelude.{
  ℕ, Text, codes, Option, none, some, Bool, true, false, ◌&&◌, not, List, [], ◌∷◌, ok, ◌>>=◌,
  if◌then◌else◌, is_some, ℤ,
}
use a2ltool.DebugInfo.{TypeInfo, datatype, name}
use a2ltool.DebugInfo.UnitName.{map_get}
use a2ltool.TypeIter.{Run}
use a2ltool.Floats.{Floats}
use a2ltool.DataTypes.{DataType, get_a2l_datatype}
use a2ltool.A2l.{
  Module, Characteristic, CharacteristicType, ascii, curve, map as map_type, cuboid, cube_4, cube_5,
  val_blk, value, AxisDescr, RecordLayout, FncValues,
}
use a2ltool.Update.Info.{A2lUpdateInfo}
use a2ltool.Update.Limits.{adjust_limits}
use a2ltool.Update.Fields.{set_matrix_dim, set_bitmask}
use a2ltool.Update.IfData.{A2lCrate}
use a2ltool.Update.Enums.{cond_create_enum_conversion}
use a2ltool.Update.Results.{UpdateResult, updated, invalid_data_type}
use a2ltool.Update.RecordLayouts.Members.{layout_of, get_fnc_values_memberid, get_inner_type}
use a2ltool.Update.RecordLayouts.{update_record_layout}
use a2ltool.Update.RecordLayouts.Store.{RecordLayoutInfo}
use a2ltool.Update.Objects.{A2lUpdater, layouts_of, with_layouts, Changed, layout_at}
use a2ltool.Update.Measurement.{
  ConvList, enum_conversion, compu_method_of, enum_of, is_bad_conversion,
}
use a2ltool.Update.Measurement.Equality.{data_type_eq, dims_eq}
use a2ltool.Update.Characteristics.Axes.{update_characteristic_axis}

-- A curve, a map or a cuboid has axes.
abbrev pub needs_axes : CharacteristicType → Bool
needs_axes curve = true
needs_axes map_type = true
needs_axes cuboid = true
needs_axes cube_4 = true
needs_axes cube_5 = true
needs_axes ascii = false
needs_axes val_blk = false
needs_axes value = false

-- Without axes it becomes a value.
abbrev pub patched_type : CharacteristicType → List AxisDescr → CharacteristicType
patched_type t [] = if needs_axes t then value else t
patched_type t (axis ∷ axes) = t

-- The type, MATRIX_DIM and NUMBER of a value that has the dimensions `dim`.
abbrev pub shape_of :
    CharacteristicType
    → Option (List ℕ)
    → Option ℕ
    → CharacteristicType × Option (List ℕ) × Option ℕ
shape_of value none number = (value, none, none)
shape_of value (some dim) number = (val_blk, some dim, none)
shape_of val_blk none number = (value, none, none)
shape_of val_blk (some dim) number = (val_blk, some dim, none)
shape_of ascii dim number = (ascii, none, number)
shape_of curve dim number = (curve, none, number)
shape_of map_type dim number = (map_type, none, number)
shape_of cuboid dim number = (cuboid, none, number)
shape_of cube_4 dim number = (cube_4, none, number)
shape_of cube_5 dim number = (cube_5, none, number)

abbrev pub fnc_values_of : Option RecordLayout → Option FncValues
fnc_values_of none = none
fnc_values_of (some rl) = rl.fnc_values

-- `idxmap.get(..)`, `record_layout.get(..)` and `fnc_values`
unfoldable pub fnc_values_at : List RecordLayout → RecordLayoutInfo → Text → Option FncValues
unfolding map_get
fnc_values_at record_layout info deposit =
    fnc_values_of (layout_at (map_get info.idxmap deposit) record_layout)

abbrev pub has_type : Option FncValues → DataType → Bool
has_type none a2l_datatype = false
has_type (some fnc_values) a2l_datatype = data_type_eq a2l_datatype fnc_values.datatype

-- The check of MATRIX_DIM, NUMBER and the axes; `dim` is what the type asks for.
abbrev pub has_shape :
    CharacteristicType → Option (List ℕ) → Option (List ℕ) → Option ℕ → List AxisDescr → Bool
has_shape value dim matrix_dim number axes =
    not (is_some dim) && (not (is_some matrix_dim) && not (is_some number))
has_shape val_blk dim matrix_dim number axes = is_some matrix_dim && dims_eq dim matrix_dim
has_shape ascii dim matrix_dim number axes = true
has_shape _ dim matrix_dim number [] = false
has_shape _ dim matrix_dim number (axis ∷ axes) = true

module _ {F D : Type 0} ⦃fl : Floats F⦄ ⦃a2l : A2lCrate D⦄ where
  -- The conversion, the module and the list of types.
  unfoldable pub update_conversion :
      Module F D
      → Characteristic F D
      → TypeInfo
      → ConvList
      → Option (List (Text × ℤ))
      → Text × Module F D × ConvList
  unfolding cond_create_enum_conversion enum_conversion
  update_conversion md characteristic inner convlist none =
      (characteristic.conversion, md, convlist)
  update_conversion md characteristic inner convlist (some enumerators) =
      let conversion = enum_conversion characteristic.conversion characteristic.name (name inner) in
      (
        conversion,
        cond_create_enum_conversion md conversion enumerators,
        (conversion, inner) ∷ convlist,
      )

  -- The conversion, the limits and the bit mask, if the symbol has the type of the member.
  unfoldable pub update_inner :
      A2lUpdateInfo
      → Module F D
      → Characteristic F D
      → ConvList
      → Option TypeInfo
      → Characteristic F D × Module F D × ConvList
  unfolding update_conversion adjust_limits compu_method_of set_bitmask
  update_inner info md characteristic convlist none = (characteristic, md, convlist)
  update_inner info md characteristic convlist (some inner) =
      let r = update_conversion md characteristic inner convlist (enum_of (datatype inner)) in
      let limits =
        adjust_limits inner characteristic.lower_limit characteristic.upper_limit
          (compu_method_of info r.1 r.0) in
      (
        record characteristic {
          conversion = r.0;
          lower_limit = limits.0;
          upper_limit = limits.1;
          bit_mask = set_bitmask characteristic.bit_mask inner;
        },
        r.1,
        r.2,
      )

  -- The kind of characteristic, and its dimensions.
  unfoldable pub update_shape : Characteristic F D → TypeInfo → Bool → Characteristic F D
  unfolding set_matrix_dim
  update_shape characteristic typeinfo use_new_matrix_dim =
      let shape =
        shape_of (patched_type characteristic.characteristic_type characteristic.axis_descr)
          (set_matrix_dim characteristic.matrix_dim typeinfo use_new_matrix_dim)
          characteristic.number in
      record characteristic {
        characteristic_type = shape.0;
        matrix_dim = shape.1;
        number = shape.2;
      }

  -- The axes and the RECORD_LAYOUT.
  unfoldable pub update_layout :
      A2lUpdater F D
      → Characteristic F D
      → TypeInfo
      → List (Text × ℕ)
      → Run (Characteristic F D × A2lUpdater F D)
  unfolding layout_of update_characteristic_axis update_record_layout
  update_layout updater characteristic typeinfo axis_pts_dim = do
    record_layout ← layout_of updater.md.record_layout updater.reclayout_info characteristic.deposit
    axes ← update_characteristic_axis characteristic.axis_descr record_layout axis_pts_dim typeinfo
    stored ← update_record_layout a2l.type_text (layouts_of updater) characteristic.deposit typeinfo
    ok (
      record characteristic { axis_descr = axes; deposit = stored.0 },
      with_layouts updater stored.1,
    )

  unfoldable pub update_with_member :
      A2lUpdater F D
      → Characteristic F D
      → TypeInfo
      → ConvList
      → List (Text × ℕ)
      → Bool
      → A2lUpdateInfo
      → Option TypeInfo
      → Run (Characteristic F D × Changed F D)
  unfolding update_inner update_shape update_layout
  update_with_member updater characteristic typeinfo convlist axis_pts_dim new_dim info member = do
    let r = update_inner info updater.md characteristic convlist member
    s ←
        update_layout (record updater { md = r.1 }) (update_shape r.0 typeinfo new_dim) typeinfo
          axis_pts_dim
    ok (s.0, (s.1, r.2))

  unfoldable pub update_characteristic_datatype :
      A2lUpdater F D
      → Characteristic F D
      → TypeInfo
      → ConvList
      → List (Text × ℕ)
      → Bool
      → A2lUpdateInfo
      → Run (Characteristic F D × Changed F D)
  unfolding get_fnc_values_memberid get_inner_type update_with_member
  update_characteristic_datatype updater characteristic typeinfo convlist axis_pts_dim new_dim
        info =
      get_fnc_values_memberid updater.md.record_layout updater.reclayout_info characteristic.deposit
      >>= λ member_id.
          update_with_member updater characteristic typeinfo convlist axis_pts_dim new_dim info
            (get_inner_type typeinfo member_id)

  -- The tests of `verify_characteristic_datatype`; without an inner type it is bad. The bit mask is
  -- computed there, and not compared.
  unfoldable pub has_fields :
      A2lUpdateInfo → A2lUpdater F D → Characteristic F D → Bool → Option TypeInfo → Bool
  unfolding adjust_limits get_a2l_datatype compu_method_of set_matrix_dim fnc_values_at dims_eq
      data_type_eq
  has_fields info updater characteristic use_new_matrix_dim none = false
  has_fields info updater characteristic use_new_matrix_dim (some inner) =
      let limits =
        adjust_limits inner characteristic.lower_limit characteristic.upper_limit
          (compu_method_of info updater.md characteristic.conversion) in
      not (is_bad_conversion characteristic.conversion (enum_of (datatype inner)))
      && (fl.eq limits.0 characteristic.lower_limit
          && (fl.eq limits.1 characteristic.upper_limit
              && (has_shape characteristic.characteristic_type
                    (set_matrix_dim characteristic.matrix_dim inner use_new_matrix_dim)
                    characteristic.matrix_dim characteristic.number characteristic.axis_descr
                  && has_type
                      (fnc_values_at updater.md.record_layout updater.reclayout_info
                        characteristic.deposit)
                      (get_a2l_datatype inner))))

  unfoldable pub verify_with_member :
      A2lUpdateInfo → A2lUpdater F D → Characteristic F D → Bool → Option TypeInfo → UpdateResult
  unfolding has_fields
  verify_with_member info updater characteristic use_new_matrix_dim member =
      if has_fields info updater characteristic use_new_matrix_dim member
      then updated
      else invalid_data_type (codes "CHARACTERISTIC") characteristic.name characteristic.line

  unfoldable pub verify_characteristic_datatype :
      A2lUpdater F D → A2lUpdateInfo → Characteristic F D → TypeInfo → Bool → Run UpdateResult
  unfolding get_fnc_values_memberid get_inner_type verify_with_member
  verify_characteristic_datatype updater info characteristic typeinfo use_new_matrix_dim = do
    member_id ←
        get_fnc_values_memberid updater.md.record_layout updater.reclayout_info
          characteristic.deposit
    ok (
        verify_with_member info updater characteristic use_new_matrix_dim
          (get_inner_type typeinfo member_id))
