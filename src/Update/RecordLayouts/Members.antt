-- ===== src/Update/RecordLayouts/Members.antt =====
-- src/update/record_layout.rs: the member of a type that a layout describes.
use a2ltool.Prelude.{ℕ, ◌-◌, ◌==◌, Text, Option, none, some, List, ok, ◌>>=◌, if◌then◌else◌}
use a2ltool.DebugInfo.{TypeInfo, DbgDataType, struct, datatype, members_get_index}
use a2ltool.DebugInfo.UnitName.{map_get}
use a2ltool.TypeIter.{Run}
use a2ltool.A2l.{RecordLayout, AxisLayout}
use a2ltool.Update.RecordLayouts.Store.{at, RecordLayoutInfo}

abbrev pub position_or_1 : Option ℕ → ℕ
position_or_1 none = 1
position_or_1 (some position) = position

abbrev pub axis_position : AxisLayout → Option ℕ
axis_position axis = elim axis.axis_pts [ none ↦ none | some axis_pts ↦ some axis_pts.position ]

abbrev pub fnc_position : RecordLayout → Option ℕ
fnc_position rl = elim rl.fnc_values [ none ↦ none | some fnc_values ↦ some fnc_values.position ]

abbrev pub layout_branch : List RecordLayout → Option ℕ → Run (Option RecordLayout)
layout_branch record_layout none = ok none
layout_branch record_layout (some idx) = at record_layout idx >>= λ rl. ok (some rl)

-- The layout of a name, where the index of the name is in the list.
unfoldable pub layout_of : List RecordLayout → RecordLayoutInfo → Text → Run (Option RecordLayout)
unfolding map_get at
layout_of record_layout info recordlayout_name =
    layout_branch record_layout (map_get info.idxmap recordlayout_name)

abbrev pub axis_pts_x_position : Option RecordLayout → Option ℕ
axis_pts_x_position none = none
axis_pts_x_position (some rl) = axis_position rl.x

abbrev pub fnc_values_position : Option RecordLayout → Option ℕ
fnc_values_position none = none
fnc_values_position (some rl) = fnc_position rl

unfoldable pub get_axis_pts_x_memberid : List RecordLayout → RecordLayoutInfo → Text → Run ℕ
unfolding layout_of
get_axis_pts_x_memberid record_layout info recordlayout_name = do
  rl ← layout_of record_layout info recordlayout_name
  ok (position_or_1 (axis_pts_x_position rl))

unfoldable pub get_fnc_values_memberid : List RecordLayout → RecordLayoutInfo → Text → Run ℕ
unfolding layout_of
get_fnc_values_memberid record_layout info recordlayout_name = do
  rl ← layout_of record_layout info recordlayout_name
  ok (position_or_1 (fnc_values_position rl))

abbrev pub member_type : Option (Text × TypeInfo × ℕ) → Option TypeInfo
member_type none = none
member_type (some (nm, t, offset)) = some t

-- The match of `get_inner_type`, at an index that starts at 0.
abbrev pub inner_type : DbgDataType → TypeInfo → ℕ → Option TypeInfo
inner_type (struct size members) typeinfo id = member_type (members_get_index members id)
inner_type _ typeinfo id = if id == 0 then some typeinfo else none

-- A position of 0 is read as 1, since the subtraction stops at 0.
unfoldable pub get_inner_type : TypeInfo → ℕ → Option TypeInfo
unfolding members_get_index
get_inner_type typeinfo memberid = inner_type (datatype typeinfo) typeinfo (memberid - 1)
