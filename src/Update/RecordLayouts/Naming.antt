-- ===== src/Update/RecordLayouts/Naming.antt =====
-- src/update/record_layout.rs: `make_unique_reclayout_name`.
use a2ltool.Prelude.{
  ℕ, zero, suc, Text, codes, Option, none, some, Bool, true, false, List, [], ◌∷◌, ◌++◌, ok,
  out_of_fuel, if◌then◌else◌, length, text_eq, starts_with, find_text, to_decimal,
}
use a2ltool.TypeIter.{Run}

unfoldable pub contains_key : {A : Type 0} → List (Text × A) → Text → Bool
contains_key [] key = false
contains_key ((k, v) ∷ entries) key = if text_eq k key then true else contains_key entries key

abbrev pub updated_tag : Text
updated_tag = codes "_UPDATED"

-- What stands after the tag is nothing, or begins with a dot.
abbrev pub ends_name : Text → Bool
ends_name [] = true
ends_name (c ∷ cs) = starts_with b'.' (c ∷ cs)

-- The text in front of the tag, and the one after it.
abbrev pub base_of : Text → Option (Text × Text) → Text
base_of initial_name none = initial_name ++ updated_tag
base_of initial_name (some (before, after)) =
    if ends_name after then before ++ updated_tag else initial_name ++ updated_tag

unfoldable pub base_name : Text → Text
unfolding find_text
base_name initial_name = base_of initial_name (find_text updated_tag initial_name)

-- `basename`, then `basename.2`, `basename.3` and so on.
abbrev pub candidate : Text → ℕ → Text
candidate basename zero = basename
candidate basename (suc zero) = basename
candidate basename (suc (suc n)) = basename ++ (codes "." ++ to_decimal (suc (suc n)))

-- The loop; `counter` is that of the name to try.
unfoldable pub unique_loop : ℕ → List (Text × ℕ) → Text → ℕ → Run Text
unfolding contains_key
unique_loop zero idxmap basename counter = out_of_fuel
unique_loop (suc fuel) idxmap basename counter =
    let rest = unique_loop fuel idxmap basename (suc counter) in
    if contains_key idxmap (candidate basename counter)
    then rest
    else ok (candidate basename counter)

-- One more round than there are names is enough.
unfoldable pub make_unique_reclayout_name : Text → List (Text × ℕ) → Run Text
unfolding contains_key base_name unique_loop
make_unique_reclayout_name initial_name idxmap =
    if contains_key idxmap initial_name
    then unique_loop (suc (length idxmap)) idxmap (base_name initial_name) 1
    else ok initial_name
