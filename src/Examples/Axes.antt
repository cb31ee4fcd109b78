-- ===== src/Examples/Axes.antt =====
-- src/update/axis_pts.rs and characteristic.rs: an AXIS_PTS and a curve for a struct.
use a2ltool.Prelude.{codes, true, none, some, [], ◌∷◌, ok, ◌≡◌, refl}
use a2ltool.DebugInfo.{members_get_index}
use a2ltool.DataTypes.{get_type_limits, ulong}
use a2ltool.Symbol.Info.{SymbolInfo}
use a2ltool.A2l.{AxisPts, AxisDescr, Characteristic, FncValues, direct}
use a2ltool.Update.Fields.{set_matrix_dim}
use a2ltool.Update.Limits.Stable.{HasOwnLimits}
use a2ltool.Update.Measurement.{ConvList}
use a2ltool.Update.Results.{updated}
use a2ltool.Update.RecordLayouts.Build.{build}
use a2ltool.Update.RecordLayouts.Members.{get_inner_type}
use a2ltool.Update.Objects.{A2lUpdater}
use a2ltool.Update.AxisPoints.Datatype.{
  update_axis_pts_datatype, verify_axis_pts_datatype, update_inner,
}
use a2ltool.Update.AxisPoints.Verified.{verify-update_axis_pts_datatype}
use a2ltool.Update.Characteristics.Axes.{update_characteristic_axis}
use a2ltool.Update.Characteristics.Datatype.{
  update_characteristic_datatype, verify_characteristic_datatype,
}
use a2ltool.Update.Characteristics.Verified.{verify-update_characteristic_datatype}
use a2ltool.Samples.{pair_array, my_struct, byte}
use a2ltool.UpdateSamples.{Coarse, coarse, coarse-IsIeee, Block, plain_crate, full_info}
use a2ltool.Examples.Layouts.{
  axis_points, axis_descr, curve_object, old_layout, cloned_layout, layout_module,
  layouts-IsIndexed, layouts-length, layouts-named, layouts-cloned,
}

abbrev updater : A2lUpdater Coarse Block
updater = record { md = layout_module; reclayout_info = build layout_module }

abbrev struct_symbol : SymbolInfo
struct_symbol = record {
  name = codes "my_struct";
  address = 4096;
  typeinfo = my_struct;
  unit_idx = 0;
  function_name = none;
  namespaces = [];
  is_unique = true;
}

abbrev new_axis : AxisDescr
new_axis = record axis_descr { max_axis_points = 2 }

abbrev old_values : FncValues
old_values = record {
  position = 2;
  datatype = ulong;
  index_mode = codes "COLUMN_DIR";
  address_type = direct;
}

axis_member : get_inner_type my_struct 1 ≡ some pair_array
unfolding get_inner_type members_get_index
axis_member = refl

value_member : get_inner_type my_struct 2 ≡ some byte
unfolding get_inner_type members_get_index
value_member = refl

pair_array-HasOwnLimits : HasOwnLimits coarse pair_array
unfolding get_type_limits
pair_array-HasOwnLimits a b c d = refl

byte-HasOwnLimits : HasOwnLimits coarse byte
unfolding get_type_limits
byte-HasOwnLimits a b c d = refl

curve_axes :
    update_characteristic_axis curve_object.axis_descr (some old_layout) [] my_struct
    ≡ ok (new_axis ∷ [])
unfolding update_characteristic_axis get_inner_type members_get_index
curve_axes = refl

no_dimensions :
    set_matrix_dim curve_object.matrix_dim my_struct true
    ≡ set_matrix_dim curve_object.matrix_dim byte true
unfolding set_matrix_dim
no_dimensions = refl

verify-update_axis_pts_datatype_example :
    (a' : AxisPts Coarse Block) × (updater' : A2lUpdater Coarse Block) × (list' : ConvList)
    × (update_axis_pts_datatype updater axis_points full_info struct_symbol []
        ≡ ok (a', (updater', list')))
    × (verify_axis_pts_datatype updater' full_info a' struct_symbol ≡ ok updated)
verify-update_axis_pts_datatype_example =
    verify-update_axis_pts_datatype coarse-IsIeee full_info updater axis_points struct_symbol [] 0
      old_layout cloned_layout pair_array layouts-IsIndexed layouts-length layouts-named refl
      layouts-cloned axis_member tt pair_array-HasOwnLimits refl refl (unfold update_inner in refl)
      (unfold update_inner in refl) (unfold update_inner in refl)

verify-update_characteristic_datatype_example :
    (c' : Characteristic Coarse Block) × (updater' : A2lUpdater Coarse Block) × (list' : ConvList)
    × (update_characteristic_datatype updater curve_object my_struct [] [] true full_info
        ≡ ok (c', (updater', list')))
    × (verify_characteristic_datatype updater' full_info c' my_struct true ≡ ok updated)
verify-update_characteristic_datatype_example =
    verify-update_characteristic_datatype coarse-IsIeee full_info updater curve_object my_struct []
      [] true 0 old_layout cloned_layout old_values byte (new_axis ∷ []) layouts-IsIndexed
      layouts-length layouts-named refl layouts-cloned curve_axes refl value_member no_dimensions
      byte-HasOwnLimits refl refl (unfold update_characteristic_datatype in refl)
      (unfold update_characteristic_datatype in refl)
      (unfold update_characteristic_datatype in refl)
      (unfold update_characteristic_datatype in refl)
