-- ===== src/Update/RecordLayouts/Build.antt =====
-- src/update/record_layout.rs: `RecordLayoutInfo::build`.
use a2ltool.Prelude.{ℕ, suc, Text, Option, none, some, List, [], ◌∷◌, ◌++◌}
use a2ltool.DebugInfo.UnitName.{map_get}
use a2ltool.A2l.{Module, RecordLayout, AxisPts, Characteristic, TypedefAxis, TypedefCharacteristic}
use a2ltool.Update.RecordLayouts.Store.{update_at, increase, RecordLayoutInfo}

-- The entries of the names from index `i` on, in front of `entries`.
unfoldable pub index_names : ℕ → List Text → List (Text × ℕ) → List (Text × ℕ)
index_names i [] entries = entries
index_names i (nm ∷ names) entries = index_names (suc i) names ((nm, i) ∷ entries)

abbrev pub names_of : {A : Type 0} → (A → Text) → List A → List Text
names_of f [] = []
names_of f (x ∷ xs) = f x ∷ names_of f xs

abbrev pub count_use : List ℕ → Option ℕ → List ℕ
count_use refcount none = refcount
count_use refcount (some idx) = update_at increase refcount idx

-- One more for each name that has an index.
unfoldable pub count_uses : List (Text × ℕ) → List Text → List ℕ → List ℕ
unfolding map_get update_at
count_uses idxmap [] refcount = refcount
count_uses idxmap (nm ∷ names) refcount =
    count_uses idxmap names (count_use refcount (map_get idxmap nm))

abbrev pub zeros : {A : Type 0} → List A → List ℕ
zeros [] = []
zeros (x ∷ xs) = 0 ∷ zeros xs

module _ {F D : Type 0} where
  -- The names that the objects of a module use, in the order of the loops of `build`.
  unfoldable pub used_names : Module F D → List Text
  used_names md =
      names_of (λ (a : AxisPts F D). a.deposit_record) md.axis_pts
      ++ names_of (λ (c : Characteristic F D). c.deposit) md.characteristic
      ++ names_of (λ (a : TypedefAxis). a.record_layout) md.typedef_axis
      ++ names_of (λ (c : TypedefCharacteristic). c.record_layout) md.typedef_characteristic

  unfoldable pub build : Module F D → RecordLayoutInfo
  unfolding index_names count_uses used_names
  build md =
      let idxmap = index_names 0 (names_of (λ (r : RecordLayout). r.name) md.record_layout) [] in
      record {
        idxmap = idxmap;
        refcount = count_uses idxmap (used_names md) (zeros md.record_layout);
      }
