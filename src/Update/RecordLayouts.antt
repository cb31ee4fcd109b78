-- ===== src/Update/RecordLayouts.antt =====
-- src/update/record_layout.rs: the RECORD_LAYOUT of an object whose symbol has another type.
pub mod Build
pub mod Built
pub mod Clone
pub mod Entries
pub mod Equality
pub mod Indexed
pub mod Kept
pub mod Members
pub mod Naming
pub mod Replaced
pub mod Resolved
pub mod Store
pub mod Unique
use a2ltool.Prelude.{
  ℕ, zero, suc, ◌+◌, ◌-◌, ◌%◌, ◌^◌, ◌==◌, Text, codes, Option, none, some, Bool, true, false, List,
  [], ◌∷◌, ◌++◌, ok, panic, ◌>>=◌, if◌then◌else◌, length, get_elem?, text_eq, replace_first,
}
use a2ltool.DebugInfo.{TypeInfo, DbgDataType, array, struct, datatype, members_get_index, name}
use a2ltool.DebugInfo.UnitName.{map_get}
use a2ltool.TypeIter.{Run}
use a2ltool.DataTypes.{DataType, get_a2l_datatype}
use a2ltool.A2l.{
  Module, RecordLayout, AxisLayout, AxisPtsDim, NoAxisPts, FncValues, AxisPts, Characteristic,
  TypedefAxis, TypedefCharacteristic,
}
use a2ltool.Update.Measurement.Equality.{data_type_eq}
use a2ltool.Update.RecordLayouts.Equality.{layout_eq, compare_rl_content}
use a2ltool.Update.RecordLayouts.Naming.{make_unique_reclayout_name}
use a2ltool.Update.RecordLayouts.Store.{
  at, update_at, map_remove, decrease, increase, RecordLayoutInfo, Layouts,
}
use a2ltool.Update.RecordLayouts.Clone.{
  first_dim, fix_points, new_axis_pts, retype_axis_pts, axis_pts_branch, update_axis_pts,
  retype_no_axis_pts, no_axis_pts_branch, update_no_axis_pts, update_axis, with_datatype,
  retype_fnc_values, fnc_values_branch, update_fnc_values, new_layout,
}

-- The first layout with the same content, with its index counted from `i`.
unfoldable pub find_content : RecordLayout → List RecordLayout → ℕ → Option (ℕ × RecordLayout)
unfolding compare_rl_content
find_content new [] i = none
find_content new (item ∷ items) i =
    let rest = find_content new items (suc i) in
    if compare_rl_content new item then some (i, item) else rest

-- There already is a layout with these parameters.
unfoldable pub use_existing : Layouts → ℕ → ℕ → RecordLayout → Run (Text × Layouts)
unfolding at update_at
use_existing s idx existing_idx existing = do
  c ← at s.reclayout_info.refcount idx
  let less = update_at decrease s.reclayout_info.refcount idx
  d ← at less existing_idx
  ok (
    existing.name,
    record s {
      reclayout_info = record s.reclayout_info { refcount = update_at increase less existing_idx };
    },
  )

-- The only user has the layout overwritten.
unfoldable pub overwrite_layout : Layouts → ℕ → RecordLayout → RecordLayout → Text × Layouts
unfolding update_at map_remove
overwrite_layout s idx old new = (
  new.name,
  record {
    record_layout = update_at (λ _. new) s.record_layout idx;
    reclayout_info = record s.reclayout_info {
      idxmap =
          if text_eq old.name new.name
          then s.reclayout_info.idxmap
          else (new.name, idx) ∷ map_remove s.reclayout_info.idxmap old.name;
    };
  },
)

-- Others use the layout too, so the new one is added.
unfoldable pub add_layout : Layouts → ℕ → RecordLayout → Run (Text × Layouts)
unfolding update_at make_unique_reclayout_name
add_layout s idx new = do
  unique_name ← make_unique_reclayout_name new.name s.reclayout_info.idxmap
  ok (
    unique_name,
    record {
      record_layout = s.record_layout ++ (record new { name = unique_name }) ∷ [];
      reclayout_info = record {
        idxmap = (unique_name, length s.record_layout) ∷ s.reclayout_info.idxmap;
        refcount = update_at decrease s.reclayout_info.refcount idx ++ 1 ∷ [];
      };
    },
  )

unfoldable pub replace_layout :
    Layouts → ℕ → RecordLayout → RecordLayout → Option (ℕ × RecordLayout) → Run (Text × Layouts)
unfolding at use_existing overwrite_layout add_layout
replace_layout s idx old new (some (existing_idx, existing)) =
    use_existing s idx existing_idx existing
replace_layout s idx old new none = do
  count ← at s.reclayout_info.refcount idx
  if count == 1 then ok (overwrite_layout s idx old new) else add_layout s idx new

unfoldable pub store_layout :
    Layouts → ℕ → Text → RecordLayout → RecordLayout → Run (Text × Layouts)
unfolding layout_eq replace_layout find_content
store_layout s idx nm old new =
    if layout_eq old new
    then ok (nm, s)
    else replace_layout s idx old new (find_content new s.record_layout 0)

module _ (type_text : DataType → Text) where
  unfoldable pub update_at_index : Layouts → Text → TypeInfo → Option ℕ → Run (Text × Layouts)
  unfolding at new_layout store_layout
  update_at_index s nm typeinfo none = ok (nm, s)
  update_at_index s nm typeinfo (some idx) = do
    old ← at s.record_layout idx
    new ← new_layout type_text old typeinfo
    store_layout s idx nm old new

  -- The name of the layout to use, and the layouts.
  unfoldable pub update_record_layout : Layouts → Text → TypeInfo → Run (Text × Layouts)
  unfolding update_at_index map_get
  update_record_layout s nm typeinfo =
      update_at_index s nm typeinfo (map_get s.reclayout_info.idxmap nm)
