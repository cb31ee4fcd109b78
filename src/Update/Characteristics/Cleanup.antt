-- ===== src/Update/Characteristics/Cleanup.antt =====
-- src/update/characteristic.rs: `cleanup_removed_characteristics`.
use a2ltool.Prelude.{Text, List, [], ◌∷◌, map}
use a2ltool.A2l.{Module, Group, FunctionBlock}
use a2ltool.Update.Measurement.Cleanup.{cleanup_references}

module _ {F D : Type 0} where
  unfoldable pub cleanup_characteristic_refs : Module F D → List Text → Module F D
  unfolding cleanup_references
  cleanup_characteristic_refs md removed_items = record md {
    group =
        map
          (λ (g : Group). record g {
            ref_characteristic = cleanup_references removed_items g.ref_characteristic;
          })
          md.group;
    function =
        map
          (λ (f : FunctionBlock). record f {
            def_characteristic = cleanup_references removed_items f.def_characteristic;
            ref_characteristic = cleanup_references removed_items f.ref_characteristic;
          })
          md.function;
  }

  unfoldable pub cleanup_removed_characteristics : Module F D → List Text → Module F D
  unfolding cleanup_characteristic_refs
  cleanup_removed_characteristics md [] = md
  cleanup_removed_characteristics md (item ∷ removed_items) =
      cleanup_characteristic_refs md (item ∷ removed_items)
