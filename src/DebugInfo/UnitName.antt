-- ===== src/DebugInfo/UnitName.antt =====
-- src/debuginfo/mod.rs: `make_simple_unit_name`, and the look-up in maps with text keys.
use a2ltool.Prelude.{
  ℕ, Text, Option, none, some, List, [], ◌∷◌, get_elem?, after_last, replace_char, text_eq,
  if◌then◌else◌,
}
use a2ltool.DebugInfo.{DebugData}

unfoldable pub file_name : Text → Text
unfolding after_last
file_name full_name = elim (after_last b'\x5c' full_name) [
  | some s ↦ s
  | none ↦ elim (after_last b'/' full_name) [ some s ↦ s | none ↦ full_name ]
]

abbrev simple_name : Option (Option Text) → Option Text
simple_name (some (some full_name)) = some (replace_char b'.' b'_' (file_name full_name))
simple_name _ = none

unfoldable pub make_simple_unit_name : DebugData → ℕ → Option Text
unfolding file_name replace_char
make_simple_unit_name debug_data unit_idx = simple_name (get_elem? debug_data.unit_names unit_idx)

-- `get` of a map with text keys.
unfoldable pub map_get {ℓ} : {V : Type ℓ} → List (Text × V) → Text → Option V
map_get [] key = none
map_get ((k, v) ∷ m) key = if text_eq k key then some v else map_get m key
