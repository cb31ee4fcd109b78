-- ===== src/Remove.antt =====
-- src/remove.rs: the removal of the objects whose names match a regular expression. The regex
-- crate is an argument: what a text is compiled to, and whether an expression matches a name.
-- `removed_items` is a set, as a list in which no name is there twice.
pub mod Again
pub mod Matched
pub mod Stripped
pub mod Unique
use a2ltool.Prelude.{
  ℕ, Text, codes, Option, none, some, Bool, true, false, ◌&&◌, not, List, [], ◌∷◌, ◌++◌, map, ok,
  panic, ◌>>=◌, if◌then◌else◌, length, starts_with, ends_with,
}
use a2ltool.TypeIter.{Run}
use a2ltool.A2l.{Module, Characteristic, Measurement, Instance, Group}
use a2ltool.Update.Fields.{contains}
use a2ltool.Update.Measurement.Cleanup.{cleanup_references}

-- `Regex::new`, which can fail, and `is_match`.
pub record RegexCrate (Regex : Type 0) : Type 0 where
  pub new_regex : Text → Option Regex
  pub is_match : Regex → Text → Bool

-- The two anchors are 94 and 36.
unfoldable pub extended_regex : Text → Text
unfolding ends_with
extended_regex re =
    if not (starts_with 94 re) && not (ends_with 36 re) then codes "^" ++ re ++ codes "$" else re

-- What has been removed, and the log.
pub record Removal : Type 0 where
  pub removed_items : List Text
  pub log_messages : List Text

abbrev pub insert_item : List Text → Text → List Text
insert_item items name = if contains items name then items else items ++ name ∷ []

unfoldable pub remove_item : Text → Text → Removal → Removal
unfolding contains
remove_item kind name s = record {
  removed_items = insert_item s.removed_items name;
  log_messages = s.log_messages ++ (codes "Removed " ++ kind ++ codes " " ++ name) ∷ [];
}

unfoldable pub on_hit : Text → Text → Bool → Removal → Removal
unfolding remove_item
on_hit kind name true s = remove_item kind name s
on_hit kind name false s = s

-- The objects that stay, and what has been removed.
abbrev pub Swapped : Type 0 → Type 0
Swapped A = List A × Removal

abbrev pub push_unless : {A : Type 0} → Bool → A → List A → List A
push_unless true a kept = kept
push_unless false a kept = kept ++ a ∷ []

-- The references from all groups to removed objects.
unfoldable pub cleanup_groups : List Text → List Group → List Group
unfolding cleanup_references
cleanup_groups removed_items = map λ (group : Group). record group {
  ref_measurement = cleanup_references removed_items group.ref_measurement;
  ref_characteristic = cleanup_references removed_items group.ref_characteristic;
}

module _ {Regex : Type 0} (crate : RegexCrate Regex) where
  abbrev compiled : Option Regex → Run Regex
  compiled none = panic
  compiled (some regex) = ok regex

  -- An expression that does not compile is a panic.
  unfoldable pub compile_all : List Text → Run (List Regex)
  unfolding extended_regex
  compile_all [] = ok []
  compile_all (re ∷ regex_strings) = do
    regex ← compiled (crate.new_regex (extended_regex re))
    regexes ← compile_all regex_strings
    ok (regex ∷ regexes)

  -- Each of the expressions that match removes the object.
  unfoldable pub match_loop : Text → Text → List Regex → Bool → Removal → Bool × Removal
  unfolding on_hit
  match_loop kind name [] removed s = (removed, s)
  match_loop kind name (regex ∷ regexes) removed s =
      let hit = crate.is_match regex name in
      match_loop kind name regexes (if hit then true else removed) (on_hit kind name hit s)

  unfoldable pub swap_loop :
      {A : Type 0} → (A → Text) → Text → List Regex → List A → List A → Removal → Swapped A
  unfolding match_loop
  swap_loop name_of kind regexes [] kept s = (kept, s)
  swap_loop name_of kind regexes (a ∷ swapped) kept s =
      let r = match_loop kind (name_of a) regexes false s in
      swap_loop name_of kind regexes swapped (push_unless r.0 a kept) r.1

  module _ {F D : Type 0} where
    unfoldable pub remove_from_module : List Regex → Module F D → Removal → Module F D × Removal
    unfolding swap_loop cleanup_groups
    remove_from_module regexes md s =
        let c =
          swap_loop (λ (x : Characteristic F D). x.name) (codes "characteristic") regexes
            md.characteristic [] s in
        let m =
          swap_loop (λ (x : Measurement F D). x.name) (codes "measurement") regexes md.measurement
            [] c.1 in
        let i =
          swap_loop (λ (x : Instance D). x.name) (codes "instance") regexes md.instances [] m.1 in
        (
          record md {
            characteristic = c.0;
            measurement = m.0;
            instances = i.0;
            group = cleanup_groups i.1.removed_items md.group;
          },
          i.1,
        )

    unfoldable pub module_loop :
        List Regex → List (Module F D) → Removal → List (Module F D) × Removal
    unfolding remove_from_module
    module_loop regexes [] s = ([], s)
    module_loop regexes (md ∷ modules) s =
        let here = remove_from_module regexes md s in
        let rest = module_loop regexes modules here.1 in (here.0 ∷ rest.0, rest.1)

    -- The modules, the log and the number of removed names.
    unfoldable pub remove_items :
        List (Module F D) → List Text → List Text → Run (List (Module F D) × List Text × ℕ)
    unfolding compile_all module_loop
    remove_items modules regex_strings log_messages = do
      regexes ← compile_all regex_strings
      let r =
          module_loop regexes modules (record { removed_items = []; log_messages = log_messages })
      ok (r.0, r.1.log_messages, length r.1.removed_items)
