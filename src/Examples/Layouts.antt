-- ===== src/Examples/Layouts.antt =====
-- src/update/record_layout.rs: a module with one RECORD_LAYOUT, and a symbol of another type.
use a2ltool.Prelude.{
  ℕ, ◌^◌, ◌<◌, Text, codes, none, some, false, List, [], ◌∷◌, ok, length, inr, ◌≡◌, refl, text_eq,
  replace_first, find_text, arith,
}
use a2ltool.DebugInfo.{members_get_index}
use a2ltool.DebugInfo.UnitName.{map_get}
use a2ltool.DataTypes.{DataType, ubyte, ulong, get_a2l_datatype}
use a2ltool.A2l.{
  AxisPts, AxisDescr, Characteristic, curve, direct, AxisLayout, RecordLayout, Module,
}
use a2ltool.Remove.Unique.{IsUnique}
use a2ltool.Update.Fields.{contains}
use a2ltool.Update.Measurement.Equality.{data_type_eq}
use a2ltool.Update.RecordLayouts.Store.{Layouts}
use a2ltool.Update.RecordLayouts.Build.{build, index_names, names_of}
use a2ltool.Update.RecordLayouts.Clone.{
  new_layout, update_fnc_values, update_axis, update_axis_pts, update_no_axis_pts,
}
use a2ltool.Update.RecordLayouts.{update_record_layout}
use a2ltool.Update.RecordLayouts.Members.{get_inner_type}
use a2ltool.Update.RecordLayouts.Naming.{make_unique_reclayout_name, contains_key}
use a2ltool.Update.RecordLayouts.Unique.{make_unique_reclayout_name-returns}
use a2ltool.Update.RecordLayouts.Indexed.{IsIndexed}
use a2ltool.Update.RecordLayouts.Replaced.{
  IsKept, update_record_layout-Resolves, update_record_layout-IsIndexed,
}
use a2ltool.Update.RecordLayouts.Resolved.{Resolves}
use a2ltool.Update.RecordLayouts.Built.{build-IsIndexed}
use a2ltool.Samples.{my_struct}
use a2ltool.UpdateSamples.{nothing, highest, Coarse, Block, keyword, sample_module}

abbrev pub no_axis : AxisLayout
no_axis = record { axis_pts = none; no_axis_pts = none; fix_no_axis_pts = none }

-- An axis at position 1 and function values at position 2.
abbrev pub curve_layout : Text → DataType → DataType → ℕ → RecordLayout
curve_layout nm axis_type value_type points = record {
  name = nm;
  fnc_values = some (record {
    position = 2;
    datatype = value_type;
    index_mode = codes "COLUMN_DIR";
    address_type = direct;
  });
  x = record {
    axis_pts = some (record {
      position = 1;
      datatype = axis_type;
      index_order = codes "INDEX_INCR";
      address_type = direct;
    });
    no_axis_pts = none;
    fix_no_axis_pts = some points;
  };
  y = no_axis;
  z = no_axis;
  axis_4 = no_axis;
  axis_5 = no_axis;
  other_keywords = [];
}

abbrev pub old_layout : RecordLayout
old_layout = curve_layout (codes "Curve_ULONG") ubyte ulong 4

abbrev pub axis_points : AxisPts Coarse Block
axis_points = record {
  name = codes "axis";
  line = 5;
  address = 0;
  address_hex = false;
  input_quantity = codes "NO_INPUT_QUANTITY";
  deposit_record = codes "Curve_ULONG";
  conversion = codes "NO_COMPU_METHOD";
  max_axis_points = 9;
  lower_limit = nothing;
  upper_limit = highest;
  symbol_link = none;
  if_data = [];
}

abbrev pub axis_descr : AxisDescr
axis_descr = record {
  input_quantity = codes "NO_INPUT_QUANTITY";
  max_axis_points = 9;
  axis_pts_ref = none;
}

abbrev pub curve_object : Characteristic Coarse Block
curve_object = record {
  name = codes "curve";
  line = 6;
  characteristic_type = curve;
  address = 0;
  address_hex = false;
  deposit = codes "Curve_ULONG";
  conversion = codes "NO_COMPU_METHOD";
  lower_limit = nothing;
  upper_limit = highest;
  axis_descr = axis_descr ∷ [];
  comparison_quantity = none;
  bit_mask = none;
  matrix_dim = none;
  number = none;
  virtual_characteristic = false;
  symbol_link = none;
  if_data = [];
}

-- The layout has two users.
abbrev pub layout_module : Module Coarse Block
layout_module = record sample_module {
  characteristic = curve_object ∷ [];
  axis_pts = axis_points ∷ [];
  record_layout = old_layout ∷ [];
}

abbrev pub layouts : Layouts
layouts = record { record_layout = old_layout ∷ []; reclayout_info = build layout_module }

-- The layout for `my_struct`.
abbrev pub cloned_layout : RecordLayout
cloned_layout = curve_layout (codes "Curve_UBYTE") ulong ubyte 2

pub layouts-IsUnique :
    IsUnique (names_of (λ (r : RecordLayout). r.name) layout_module.record_layout)
unfolding contains
layouts-IsUnique = (refl, tt)

pub layouts-IsIndexed : IsIndexed layouts
layouts-IsIndexed = build-IsIndexed layout_module layouts-IsUnique

pub layouts-length : length layouts.reclayout_info.idxmap < 2 ^ 31
unfolding build index_names
layouts-length = omega arith

pub layouts-named : map_get layouts.reclayout_info.idxmap (codes "Curve_ULONG") ≡ some 0
unfolding build index_names map_get text_eq
layouts-named = refl

pub layouts-cloned : new_layout keyword old_layout my_struct ≡ ok cloned_layout
unfolding new_layout update_fnc_values update_axis update_axis_pts update_no_axis_pts get_inner_type
    members_get_index get_a2l_datatype data_type_eq replace_first find_text text_eq
layouts-cloned = refl

layouts-free : contains_key layouts.reclayout_info.idxmap (codes "Curve_UBYTE") ≡ false
unfolding build index_names contains_key text_eq
layouts-free = refl

build-IsIndexed_example :
    IsIndexed
      (record { record_layout = layout_module.record_layout; reclayout_info = build layout_module })
build-IsIndexed_example = build-IsIndexed layout_module layouts-IsUnique

update_record_layout-Resolves_example :
    (nm' : Text) × (s' : Layouts) × (update_record_layout keyword layouts
        (codes "Curve_ULONG")
        my_struct
      ≡ ok (nm', s'))
    × Resolves s' nm' cloned_layout
    × IsKept layouts s' 0
update_record_layout-Resolves_example =
    update_record_layout-Resolves keyword layouts (codes "Curve_ULONG") my_struct 0 old_layout
      cloned_layout layouts-IsIndexed layouts-length layouts-named refl layouts-cloned

update_record_layout-IsIndexed_example :
    (nm' : Text) × (s' : Layouts) × (update_record_layout keyword layouts
        (codes "Curve_ULONG")
        my_struct
      ≡ ok (nm', s'))
    × IsIndexed s'
update_record_layout-IsIndexed_example =
    update_record_layout-IsIndexed keyword layouts (codes "Curve_ULONG") my_struct 0 old_layout
      cloned_layout layouts-IsIndexed layouts-length layouts-named refl layouts-cloned
      (inr layouts-free)

abbrev taken_names : List (Text × ℕ)
taken_names = (codes "__UBYTE_S", 0) ∷ (codes "__UBYTE_S_UPDATED", 1) ∷ []

make_unique_reclayout_name-returns_example :
    (nm : Text) × (make_unique_reclayout_name (codes "__UBYTE_S") taken_names ≡ ok nm)
    × (contains_key taken_names nm ≡ false)
make_unique_reclayout_name-returns_example =
    make_unique_reclayout_name-returns (codes "__UBYTE_S") taken_names (omega arith)
