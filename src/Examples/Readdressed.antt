-- ===== src/Examples/Readdressed.antt =====
-- src/update/characteristic.rs: a strict update of two curves; one has a symbol, the other has none.
use a2ltool.Prelude.{codes, true, false, List, [], ◌∷◌}
use a2ltool.A2l.{Characteristic, Module}
use a2ltool.Update.Info.{A2lUpdateInfo}
use a2ltool.Update.RecordLayouts.Build.{build}
use a2ltool.Update.Objects.{A2lUpdater}
use a2ltool.Update.Objects.Outcomes.{Outcomes}
use a2ltool.UpdateSamples.{Coarse, coarse, Block, plain_crate, full_info}
use a2ltool.Examples.Layouts.{layout_module, curve_object}

abbrev strict_info : A2lUpdateInfo
strict_info = record full_info { full_update = false; strict_update = true }

abbrev curves : List (Characteristic Coarse Block)
curves =
    record curve_object { name = codes "my_struct.last" }
    ∷ record curve_object { name = codes "lost" }
    ∷ []

abbrev curve_module : Module Coarse Block
curve_module = record layout_module { characteristic = curves }

abbrev curve_updater : A2lUpdater Coarse Block
curve_updater = record { md = curve_module; reclayout_info = build curve_module }
