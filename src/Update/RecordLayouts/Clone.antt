-- ===== src/Update/RecordLayouts/Clone.antt =====
-- src/update/record_layout.rs: the clone of a layout, with the data types of a symbol.
use a2ltool.Prelude.{
  ℕ, ◌%◌, ◌^◌, Text, Option, none, some, List, [], ◌∷◌, ok, panic, ◌>>=◌, if◌then◌else◌,
  replace_first,
}
use a2ltool.DebugInfo.{TypeInfo, DbgDataType, array, datatype}
use a2ltool.TypeIter.{Run}
use a2ltool.DataTypes.{DataType, get_a2l_datatype}
use a2ltool.A2l.{RecordLayout, AxisLayout, AxisPtsDim, NoAxisPts, FncValues}
use a2ltool.Update.Measurement.Equality.{data_type_eq}
use a2ltool.Update.RecordLayouts.Members.{get_inner_type}

-- `dim[0] as u16`
abbrev pub first_dim : List ℕ → Run ℕ
first_dim [] = panic
first_dim (d ∷ ds) = ok (d % 2 ^ 16)

abbrev points_of : DbgDataType → ℕ → Run ℕ
points_of (array size dim stride arraytype) points = first_dim dim
points_of _ points = ok points

abbrev pub fix_points : DbgDataType → Option ℕ → Run (Option ℕ)
fix_points t none = ok none
fix_points t (some points) = points_of t points >>= λ n. ok (some n)

abbrev pub new_axis_pts : AxisPtsDim → TypeInfo → AxisPtsDim
new_axis_pts axis_pts itemtype = record axis_pts { datatype = get_a2l_datatype itemtype }

abbrev pub retype_axis_pts : AxisLayout → AxisPtsDim → Option TypeInfo → Run AxisLayout
retype_axis_pts axis axis_pts none = ok axis
retype_axis_pts axis axis_pts (some itemtype) = do
  points ← fix_points (datatype itemtype) axis.fix_no_axis_pts
  ok (record axis { axis_pts = some (new_axis_pts axis_pts itemtype); fix_no_axis_pts = points })

abbrev pub axis_pts_branch : AxisLayout → TypeInfo → Option AxisPtsDim → Run AxisLayout
axis_pts_branch axis typeinfo none = ok axis
axis_pts_branch axis typeinfo (some axis_pts) =
    retype_axis_pts axis axis_pts (get_inner_type typeinfo axis_pts.position)

-- AXIS_PTS_X with FIX_NO_AXIS_PTS_X.
unfoldable pub update_axis_pts : AxisLayout → TypeInfo → Run AxisLayout
unfolding get_inner_type get_a2l_datatype
update_axis_pts axis typeinfo = axis_pts_branch axis typeinfo axis.axis_pts

abbrev pub retype_no_axis_pts : AxisLayout → NoAxisPts → Option TypeInfo → AxisLayout
retype_no_axis_pts axis no_axis_pts none = axis
retype_no_axis_pts axis no_axis_pts (some itemtype) = record axis {
  no_axis_pts = some (record no_axis_pts { datatype = get_a2l_datatype itemtype });
}

abbrev pub no_axis_pts_branch : AxisLayout → TypeInfo → Option NoAxisPts → AxisLayout
no_axis_pts_branch axis typeinfo none = axis
no_axis_pts_branch axis typeinfo (some no_axis_pts) =
    retype_no_axis_pts axis no_axis_pts (get_inner_type typeinfo no_axis_pts.position)

-- NO_AXIS_PTS_X
unfoldable pub update_no_axis_pts : AxisLayout → TypeInfo → AxisLayout
unfolding get_inner_type get_a2l_datatype
update_no_axis_pts axis typeinfo = no_axis_pts_branch axis typeinfo axis.no_axis_pts

unfoldable pub update_axis : AxisLayout → TypeInfo → Run AxisLayout
unfolding update_axis_pts update_no_axis_pts
update_axis axis typeinfo = do
  updated ← update_axis_pts axis typeinfo
  ok (update_no_axis_pts updated typeinfo)

abbrev pub with_datatype : FncValues → DataType → FncValues
with_datatype fnc_values new_datatype = record fnc_values { datatype = new_datatype }

module _ (type_text : DataType → Text) where
  abbrev pub retype_fnc_values : RecordLayout → FncValues → Option TypeInfo → RecordLayout
  retype_fnc_values rl fnc_values none = rl
  retype_fnc_values rl fnc_values (some itemtype) =
      let new_datatype = get_a2l_datatype itemtype in
      if data_type_eq new_datatype fnc_values.datatype then rl else record rl {
        name = replace_first (type_text fnc_values.datatype) (type_text new_datatype) rl.name;
        fnc_values = some (with_datatype fnc_values new_datatype);
      }

  abbrev pub fnc_values_branch : RecordLayout → TypeInfo → Option FncValues → RecordLayout
  fnc_values_branch rl typeinfo none = rl
  fnc_values_branch rl typeinfo (some fnc_values) =
      retype_fnc_values rl fnc_values (get_inner_type typeinfo fnc_values.position)

  -- The name follows the data type, e.g. from __UBYTE_S to __ULONG_S.
  unfoldable pub update_fnc_values : RecordLayout → TypeInfo → RecordLayout
  unfolding get_inner_type get_a2l_datatype replace_first data_type_eq
  update_fnc_values rl typeinfo = fnc_values_branch rl typeinfo rl.fnc_values

  -- The clone with the data types of `typeinfo`.
  unfoldable pub new_layout : RecordLayout → TypeInfo → Run RecordLayout
  unfolding update_fnc_values update_axis
  new_layout old typeinfo = do
    x ← update_axis old.x typeinfo
    y ← update_axis old.y typeinfo
    z ← update_axis old.z typeinfo
    axis_4 ← update_axis old.axis_4 typeinfo
    axis_5 ← update_axis old.axis_5 typeinfo
    ok (record (update_fnc_values old typeinfo) {
      x = x;
      y = y;
      z = z;
      axis_4 = axis_4;
      axis_5 = axis_5;
    })
