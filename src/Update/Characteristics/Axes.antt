-- ===== src/Update/Characteristics/Axes.antt =====
-- src/update/characteristic.rs: `update_characteristic_axis`.
use a2ltool.Prelude.{
  ℕ, suc, Text, Option, none, some, List, [], ◌∷◌, ok, ◌>>=◌, if◌then◌else◌, get_elem?, leb,
}
use a2ltool.DebugInfo.{TypeInfo, DbgDataType, array, datatype}
use a2ltool.DebugInfo.UnitName.{map_get}
use a2ltool.TypeIter.{Run}
use a2ltool.A2l.{AxisDescr, RecordLayout}
use a2ltool.Update.RecordLayouts.Members.{axis_position, get_inner_type}
use a2ltool.Update.RecordLayouts.Clone.{first_dim}

-- The positions of the axes that are part of the data; without a layout there is none.
abbrev pub axis_positions : Option RecordLayout → List (Option ℕ)
axis_positions none = []
axis_positions (some rl) =
    axis_position rl.x
    ∷ axis_position rl.y
    ∷ axis_position rl.z
    ∷ axis_position rl.axis_4
    ∷ axis_position rl.axis_5
    ∷ []

abbrev pub with_points : AxisDescr → Option ℕ → AxisDescr
with_points axis_descr none = axis_descr
with_points axis_descr (some points) = record axis_descr { max_axis_points = points }

abbrev pub array_points : AxisDescr → DbgDataType → Run AxisDescr
array_points axis_descr (array size dim stride arraytype) = do
  points ← first_dim dim
  ok (record axis_descr { max_axis_points = points })
array_points axis_descr _ = ok axis_descr

abbrev pub member_points : AxisDescr → Option TypeInfo → Run AxisDescr
member_points axis_descr none = ok axis_descr
member_points axis_descr (some t) = array_points axis_descr (datatype t)

-- `axis_positions.get(idx)`
abbrev pub internal_points : TypeInfo → AxisDescr → Option (Option ℕ) → Run AxisDescr
internal_points typeinfo axis_descr none = ok axis_descr
internal_points typeinfo axis_descr (some none) = ok axis_descr
internal_points typeinfo axis_descr (some (some position)) =
    member_points axis_descr (get_inner_type typeinfo position)

-- An axis that refers to an AXIS_PTS, or an internal one.
abbrev pub axis_branch :
    List (Option ℕ) → List (Text × ℕ) → TypeInfo → ℕ → AxisDescr → Option Text → Run AxisDescr
axis_branch positions axis_pts_dim typeinfo idx axis_descr (some axis_points) =
    ok (with_points axis_descr (map_get axis_pts_dim axis_points))
axis_branch positions axis_pts_dim typeinfo idx axis_descr none =
    if leb idx 5
    then internal_points typeinfo axis_descr (get_elem? positions idx)
    else ok axis_descr

-- The loop over the axes, from index `idx` on.
unfoldable pub axis_loop :
    List (Option ℕ) → List (Text × ℕ) → TypeInfo → ℕ → List AxisDescr → Run (List AxisDescr)
unfolding map_get get_inner_type
axis_loop positions axis_pts_dim typeinfo idx [] = ok []
axis_loop positions axis_pts_dim typeinfo idx (axis_descr ∷ axes) = do
  first ← axis_branch positions axis_pts_dim typeinfo idx axis_descr axis_descr.axis_pts_ref
  rest ← axis_loop positions axis_pts_dim typeinfo (suc idx) axes
  ok (first ∷ rest)

unfoldable pub update_characteristic_axis :
    List AxisDescr → Option RecordLayout → List (Text × ℕ) → TypeInfo → Run (List AxisDescr)
unfolding axis_loop
update_characteristic_axis axis_descr record_layout axis_pts_dim typeinfo =
    axis_loop (axis_positions record_layout) axis_pts_dim typeinfo 0 axis_descr
