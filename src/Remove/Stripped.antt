-- ===== src/Remove/Stripped.antt =====
-- src/remove.rs: what `remove_items` leaves of the modules.
use a2ltool.Prelude.{Text, codes, some, ◌||◌, List, [], ◌∷◌, ok, length, ◌≡◌, refl, ◌∙◌, arith}
use a2ltool.A2l.{Module, Characteristic, Measurement, Instance, Group}
use a2ltool.Update.Fields.{contains}
use a2ltool.Update.Measurement.Cleanup.References.{
  All2, All2-map, ReferencesCleaned, references_cleaned,
}
use a2ltool.Remove.{
  RegexCrate, Removal, swap_loop, cleanup_groups, extended_regex, compile_all, remove_from_module,
  module_loop, remove_items,
}
use a2ltool.Remove.Unique.{IsUnique}
use a2ltool.Remove.Matched.{unmatched, is_matched, swap_loop-Swaps}

abbrev pub GroupCleaned : List Text → Group → Group → Type 0
GroupCleaned removed g g' =
    ReferencesCleaned removed g.ref_measurement g'.ref_measurement
    × ReferencesCleaned removed g.ref_characteristic g'.ref_characteristic

module _ {Regex : Type 0} (crate : RegexCrate Regex) where
  module _ {F D : Type 0} where
    -- One module: the names in the set before and after it.
    abbrev pub ModuleStripped :
        List Regex → List Text → List Text → Module F D → Module F D → Type 0
    ModuleStripped regexes before after md md' =
        let name_of = λ (c : Characteristic F D). c.name in
        let measurement_name = λ (m : Measurement F D). m.name in
        let instance_name = λ (i : Instance D). i.name in
        (md'.characteristic ≡ unmatched crate name_of regexes md.characteristic)
        × (md'.measurement ≡ unmatched crate measurement_name regexes md.measurement)
        × (md'.instances ≡ unmatched crate instance_name regexes md.instances)
        × ((x : Text)
            → contains after x ≡ (
                contains before x
                || (is_matched crate name_of regexes md.characteristic x
                    || (is_matched crate measurement_name regexes md.measurement x
                        || is_matched crate instance_name regexes md.instances x))))
        × All2 (GroupCleaned after) md.group md'.group

    -- The modules one after the other; the set of the names goes from each to the next.
    abbrev pub AllStripped :
        List Regex → List Text → List (Module F D) → List (Module F D) → List Text → Type 0
    AllStripped regexes before [] [] after = after ≡ before
    AllStripped regexes before (md ∷ mds) (md' ∷ mds') after =
        (here : List Text) × ModuleStripped regexes before here md md'
        × AllStripped regexes here mds mds' after
    AllStripped regexes before _ _ after = ⊥

    remove_from_module-lem :
        (regexes : List Regex) (md : Module F D) (s : Removal)
        → let r = remove_from_module crate regexes md s in
          ModuleStripped regexes s.removed_items r.1.removed_items md r.0
          × (IsUnique s.removed_items → IsUnique r.1.removed_items)
    unfolding remove_from_module cleanup_groups
    remove_from_module-lem regexes md s =
        let c =
          swap_loop-Swaps crate (λ (x : Characteristic F D). x.name) (codes "characteristic")
            regexes md.characteristic [] s in
        let c_loop =
          swap_loop crate (λ (x : Characteristic F D). x.name) (codes "characteristic") regexes
            md.characteristic [] s in
        let m =
          swap_loop-Swaps crate (λ (x : Measurement F D). x.name) (codes "measurement") regexes
            md.measurement [] c_loop.1 in
        let m_loop =
          swap_loop crate (λ (x : Measurement F D). x.name) (codes "measurement") regexes
            md.measurement [] c_loop.1 in
        let i =
          swap_loop-Swaps crate (λ (x : Instance D). x.name) (codes "instance") regexes md.instances
            [] m_loop.1 in
        let r = remove_from_module crate regexes md s in
        (
          (
            c.0,
            m.0,
            i.0,
            λ x. i.1 x ∙ ground (arith, m.1 x, c.1 x),
            All2-map (GroupCleaned r.1.removed_items) _
                (λ g. (
                  references_cleaned r.1.removed_items g.ref_measurement,
                  references_cleaned r.1.removed_items g.ref_characteristic,
                ))
                md.group,
          ),
          λ unique. i.2 (m.2 (c.2 unique)),
        )

    module_loop-AllStripped :
        (regexes : List Regex) (modules : List (Module F D)) (s : Removal)
        → let r = module_loop crate regexes modules s in
          AllStripped regexes s.removed_items modules r.0 r.1.removed_items
          × (IsUnique s.removed_items → IsUnique r.1.removed_items)
    unfolding module_loop
    module_loop-AllStripped regexes [] s = (refl, λ unique. unique)
    module_loop-AllStripped regexes (md ∷ modules) s =
        let here = remove_from_module-lem regexes md s in
        let rest =
          module_loop-AllStripped regexes modules (remove_from_module crate regexes md s).1 in
        (
          ((remove_from_module crate regexes md s).1.removed_items, here.0, rest.0),
          λ unique. rest.1 (here.1 unique),
        )

  -- Each text, with its anchors, is compiled to the expression in its place.
  abbrev pub Compiles : List Text → List Regex → Type 0
  Compiles [] [] = Unit
  Compiles (re ∷ res) (regex ∷ regexes) =
      (crate.new_regex (extended_regex re) ≡ some regex) × Compiles res regexes
  Compiles _ _ = ⊥

  pub compile_all-Compiles :
      (res : List Text) (regexes : List Regex)
      → Compiles res regexes
      → compile_all crate res ≡ ok regexes
  unfolding compile_all
  compile_all-Compiles [] [] h = refl
  compile_all-Compiles (re ∷ res) (regex ∷ regexes) (first, rest) =
      rw (first, compile_all-Compiles res regexes rest) refl
  compile_all-Compiles [] (regex ∷ regexes) h = elim h [ ]
  compile_all-Compiles (re ∷ res) [] h = elim h [ ]

  -- Where every expression compiles, `remove_items` returns, and with the set of all removed names,
  -- none twice: in each module exactly the CHARACTERISTICs, MEASUREMENTs and INSTANCEs stay that no
  -- expression matches, in their order; the set grows by exactly the names of those that one
  -- matches; and a GROUP refers afterwards to exactly the names that it referred to and that were
  -- not removed from this module or an earlier one. The count is the number of removed names.
  pub remove_items-AllStripped :
      {F D : Type 0} (modules : List (Module F D)) (regex_strings log : List Text)
      (regexes : List Regex)
      → Compiles regex_strings regexes
      → (modules' : List (Module F D)) × (log' : List Text) × (removed_names : List Text)
        × (remove_items crate modules regex_strings log ≡ ok (modules', log', length removed_names))
        × IsUnique removed_names
        × AllStripped regexes [] modules modules' removed_names
  unfolding remove_items
  remove_items-AllStripped modules regex_strings log regexes compiles =
      let s : Removal = record { removed_items = []; log_messages = log } in
      let r = module_loop crate regexes modules s in
      let (stripped, unique) = module_loop-AllStripped regexes modules s in
      (
        r.0,
        r.1.log_messages,
        r.1.removed_items,
        rw (compile_all-Compiles regex_strings regexes compiles) refl,
        unique tt,
        stripped,
      )
