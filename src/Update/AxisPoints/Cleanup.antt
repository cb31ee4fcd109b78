-- ===== src/Update/AxisPoints/Cleanup.antt =====
-- src/update/axis_pts.rs: the removal of the references to AXIS_PTS that were deleted.
use a2ltool.Prelude.{Text, none, some, List, [], ◌∷◌, if◌then◌else◌, map}
use a2ltool.A2l.{Module, AxisDescr, Characteristic, TypedefCharacteristic}
use a2ltool.Update.Fields.{contains}

abbrev pub cleanup_axis_pts_ref : List Text → AxisDescr → AxisDescr
cleanup_axis_pts_ref removed_items axis_descr = record axis_descr {
  axis_pts_ref = elim axis_descr.axis_pts_ref [
    | none ↦ none
    | some axis_points ↦ (if contains removed_items axis_points then none else some axis_points)
  ];
}

module _ {F D : Type 0} where
  unfoldable pub cleanup_axis_refs : Module F D → List Text → Module F D
  unfolding contains
  cleanup_axis_refs md removed_items = record md {
    characteristic =
        map
          (λ (c : Characteristic F D). record c {
            axis_descr = map (λ a. cleanup_axis_pts_ref removed_items a) c.axis_descr;
          })
          md.characteristic;
    typedef_characteristic =
        map
          (λ (c : TypedefCharacteristic). record c {
            axis_descr = map (λ a. cleanup_axis_pts_ref removed_items a) c.axis_descr;
          })
          md.typedef_characteristic;
  }

  unfoldable pub cleanup_removed_axis_pts : Module F D → List Text → Module F D
  unfolding cleanup_axis_refs
  cleanup_removed_axis_pts md [] = md
  cleanup_removed_axis_pts md (item ∷ removed_items) = cleanup_axis_refs md (item ∷ removed_items)
