-- ===== src/Examples/Removal.antt =====
-- The removal of an object of the sample module, with expressions that have no operators.
use a2ltool.Prelude.{
  none, ends_with, Text, codes, some, List, [], ◌∷◌, ◌++◌, ok, length, ◌≡◌, refl, text_eq,
}
use a2ltool.A2l.{Module}
use a2ltool.Remove.{RegexCrate, remove_items, extended_regex}
use a2ltool.Remove.Unique.{IsUnique}
use a2ltool.Remove.Stripped.{AllStripped, remove_items-AllStripped}
use a2ltool.Remove.Again.{remove_items-remove_items}
use a2ltool.Update.Fields.{contains}
use a2ltool.UpdateSamples.{Coarse, Block, sample_module, measure}

-- An expression between its anchors is the name that it matches.
abbrev anchored : RegexCrate Text
anchored = record {
  new_regex = λ re. some re;
  is_match = λ regex name. text_eq regex (codes "^" ++ name ++ codes "$");
}

remove_items-AllStripped_example :
    (modules' : List (Module Coarse Block)) × (log' : List Text) × (removed_names : List Text)
    × (remove_items anchored (sample_module ∷ []) (codes "lost" ∷ []) []
        ≡ ok (modules', log', length removed_names))
    × IsUnique removed_names
    × AllStripped anchored (codes "^lost$" ∷ []) [] (sample_module ∷ []) modules' removed_names
unfolding extended_regex
remove_items-AllStripped_example =
    remove_items-AllStripped anchored (sample_module ∷ []) (codes "lost" ∷ []) []
      (codes "^lost$" ∷ []) (refl, tt)

abbrev stripped_module : Module Coarse Block
stripped_module = record sample_module {
  measurement = measure (codes "my_struct.last") ∷ [];
  group =
      record { ref_measurement = some (codes "my_struct.last" ∷ []); ref_characteristic = none }
      ∷ [];
}

stripped :
    remove_items anchored (sample_module ∷ []) (codes "lost" ∷ []) []
    ≡ ok (stripped_module ∷ [], codes "Removed measurement lost" ∷ [], 1)
unfolding remove_items text_eq contains ends_with
stripped = refl

remove_items-remove_items_example :
    remove_items anchored
      (stripped_module ∷ [])
      (codes "lost" ∷ [])
      (codes "Removed measurement lost" ∷ [])
    ≡ ok (stripped_module ∷ [], codes "Removed measurement lost" ∷ [], 0)
remove_items-remove_items_example =
    remove_items-remove_items anchored (sample_module ∷ []) (stripped_module ∷ [])
      (codes "lost" ∷ []) [] (codes "Removed measurement lost" ∷ []) 1 stripped
