-- ===== src/Update/Measurement/Cleanup.antt =====
-- src/update/measurement.rs: `cleanup_removed_measurements`, which removes the names of removed
-- objects from the objects that refer to them. `removed_items` is a set, as a list.
pub mod References
use a2ltool.Prelude.{
  Text, codes, Option, none, some, Bool, true, false, List, [], ◌∷◌, map, if◌then◌else◌, ◌≡◌, ◌≢◌,
  refl, Bool-cases, inl, inr, text_eq, arith,
}
use a2ltool.A2l.{
  Module, Group, FunctionBlock, Characteristic, AxisPts, TypedefCharacteristic, TypedefAxis,
  AxisDescr,
}
use a2ltool.Update.Fields.{cleanup_item_list, contains}

abbrev pub if_nonempty : List Text → Option (List Text)
if_nonempty [] = none
if_nonempty (item ∷ items) = some (item ∷ items)

-- A list of references, which is deleted when it becomes empty.
unfoldable pub cleanup_references : List Text → Option (List Text) → Option (List Text)
unfolding cleanup_item_list
cleanup_references removed_items none = none
cleanup_references removed_items (some identifier_list) =
    if_nonempty (cleanup_item_list identifier_list removed_items)

abbrev pub no_input_quantity : Text
no_input_quantity = codes "NO_INPUT_QUANTITY"

unfoldable pub cleanup_quantity : List Text → Text → Text
unfolding contains
cleanup_quantity removed_items quantity =
    if contains removed_items quantity then no_input_quantity else quantity

unfoldable pub cleanup_comparison : List Text → Option Text → Option Text
unfolding contains
cleanup_comparison removed_items none = none
cleanup_comparison removed_items (some quantity) =
    if contains removed_items quantity then none else some quantity

abbrev pub cleanup_axis_descr : List Text → AxisDescr → AxisDescr
cleanup_axis_descr removed_items axis_descr = record axis_descr {
  input_quantity = cleanup_quantity removed_items axis_descr.input_quantity;
}

module _ {F D : Type 0} where
  unfoldable pub cleanup_references_all : Module F D → List Text → Module F D
  unfolding cleanup_references cleanup_quantity cleanup_comparison
  cleanup_references_all md removed_items = record md {
    group =
        map
          (λ (g : Group). record g {
            ref_measurement = cleanup_references removed_items g.ref_measurement;
          })
          md.group;
    function =
        map
          (λ (f : FunctionBlock). record f {
            in_measurement = cleanup_references removed_items f.in_measurement;
            loc_measurement = cleanup_references removed_items f.loc_measurement;
            out_measurement = cleanup_references removed_items f.out_measurement;
          })
          md.function;
    characteristic =
        map
          (λ (c : Characteristic F D). record c {
            axis_descr = map (λ a. cleanup_axis_descr removed_items a) c.axis_descr;
            comparison_quantity = cleanup_comparison removed_items c.comparison_quantity;
          })
          md.characteristic;
    typedef_characteristic =
        map
          (λ (c : TypedefCharacteristic). record c {
            axis_descr = map (λ a. cleanup_axis_descr removed_items a) c.axis_descr;
          })
          md.typedef_characteristic;
    axis_pts =
        map
          (λ (a : AxisPts F D). record a {
            input_quantity = cleanup_quantity removed_items a.input_quantity;
          })
          md.axis_pts;
    typedef_axis =
        map
          (λ (a : TypedefAxis). record a {
            input_quantity = cleanup_quantity removed_items a.input_quantity;
          })
          md.typedef_axis;
  }

  unfoldable pub cleanup_removed_measurements : Module F D → List Text → Module F D
  unfolding cleanup_references_all
  cleanup_removed_measurements md [] = md
  cleanup_removed_measurements md (item ∷ removed_items) =
      cleanup_references_all md (item ∷ removed_items)
