-- ===== src/Update/Objects.antt =====
-- src/update/axis_pts.rs and characteristic.rs: the loop that is the same in both. The
-- objects are swapped out of the module; each is updated, and pushed back or removed.
pub mod Outcomes
use a2ltool.Prelude.{
  ℕ, Text, Bool, Option, none, some, List, [], ◌∷◌, ◌++◌, get_elem?, ok, ◌>>=◌, if◌then◌else◌,
}
use a2ltool.TypeIter.{Run}
use a2ltool.A2l.{Module, RecordLayout}
use a2ltool.Update.Measurement.{ConvList}
use a2ltool.Update.RecordLayouts.Store.{RecordLayoutInfo, Layouts}
use a2ltool.Update.Results.{UpdateResult, updated, symbol_not_found, invalid_data_type}

-- What is modified by an update.
pub record A2lUpdater (F D : Type 0) : Type 0 where
  pub md : Module F D
  pub reclayout_info : RecordLayoutInfo

abbrev pub layouts_of : {F D : Type 0} → A2lUpdater F D → Layouts
layouts_of updater = record {
  record_layout = updater.md.record_layout;
  reclayout_info = updater.reclayout_info;
}

abbrev pub with_layouts : {F D : Type 0} → A2lUpdater F D → Layouts → A2lUpdater F D
with_layouts updater layouts = record {
  md = record updater.md { record_layout = layouts.record_layout };
  reclayout_info = layouts.reclayout_info;
}

-- What has changed: the module with the layouts, and the types of the conversions.
abbrev pub Changed : Type 0 → Type 0 → Type 0
Changed F D = A2lUpdater F D × ConvList

abbrev pub layout_at : Option ℕ → List RecordLayout → Option RecordLayout
layout_at none record_layout = none
layout_at (some idx) record_layout = get_elem? record_layout idx

-- The result of one object, the object, and what else has been changed.
abbrev pub Single : Type 0 → Type 0 → Type 0
Single S O = UpdateResult × O × S

-- What the loop has changed, the objects that were pushed back, the names of those that were not,
-- and the results.
pub record LoopState (S O : Type 0) : Type 0 where
  pub changed : S
  pub kept : List O
  pub removed_items : List Text
  pub results : List UpdateResult

abbrev pub start : {S O : Type 0} → S → LoopState S O
start changed = record { changed = changed; kept = []; removed_items = []; results = [] }

-- The kind of objects: the update of one, its name, and what is left of it without a symbol.
pub record Kind (S O : Type 0) : Type 0 where
  pub update_one : S → O → Run (Single S O)
  pub name_of : O → Text
  pub zeroed : O → O

module _ {S O : Type 0} (kind : Kind S O) (preserve_unknown : Bool) where
  unfoldable pub push_back : LoopState S O → Single S O → LoopState S O
  push_back s (symbol_not_found b n l es, o, changed) =
      if preserve_unknown
      then record {
        changed = changed;
        kept = s.kept ++ kind.zeroed o ∷ [];
        removed_items = s.removed_items;
        results = s.results ++ symbol_not_found b n l es ∷ [];
      }
      else record {
        changed = changed;
        kept = s.kept;
        removed_items = s.removed_items ++ kind.name_of o ∷ [];
        results = s.results ++ symbol_not_found b n l es ∷ [];
      }
  push_back s (updated, o, changed) = record {
    changed = changed;
    kept = s.kept ++ o ∷ [];
    removed_items = s.removed_items;
    results = s.results ++ updated ∷ [];
  }
  push_back s (invalid_data_type b n l, o, changed) = record {
    changed = changed;
    kept = s.kept ++ o ∷ [];
    removed_items = s.removed_items;
    results = s.results ++ invalid_data_type b n l ∷ [];
  }

  unfoldable pub update_loop : List O → LoopState S O → Run (LoopState S O)
  unfolding push_back
  update_loop [] s = ok s
  update_loop (o ∷ objects) s = do
    r ← kind.update_one s.changed o
    update_loop objects (push_back s r)
