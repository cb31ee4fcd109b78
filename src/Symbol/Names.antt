-- ===== src/Symbol/Names.antt =====
-- src/symbol.rs: the syntax of symbol names: components, array indices and the additional
-- specification in braces.
use a2ltool.Prelude.{
  ℕ, Text, codes, Option, none, some, ◌&&◌, ◌||◌, List, [], ◌∷◌, ◌++◌, Outcome, ok, panic,
  if◌then◌else◌, split_at_first, split_on, split_inclusive, split_on_pair, strip_prefix, strip_last,
  starts_with, ends_with, init, parse_usize,
}

pub record AdditionalSpec : Type 0 where
  pub function_name : Option Text
  pub simple_unit_name : Option Text
  pub namespaces : List Text

abbrev pub empty_spec : AdditionalSpec
empty_spec = record { function_name = none; simple_unit_name = none; namespaces = [] }

-- The loop over the components of the specification; `CompileUnit:` breaks out of it.
unfoldable pub read_spec : List Text → AdditionalSpec → AdditionalSpec
read_spec [] spec = spec
read_spec (component ∷ rest) spec = elim (strip_prefix (codes "Function:") component) [
  | some func_name ↦ read_spec rest (record spec { function_name = some func_name })
  | none ↦ elim (strip_prefix (codes "Namespace:") component) [
    | some nsname ↦ read_spec rest (record spec { namespaces = spec.namespaces ++ nsname ∷ [] })
    | none ↦ elim (strip_prefix (codes "CompileUnit:") component) [
      | some unit_name ↦ record spec { simple_unit_name = some unit_name }
      | none ↦ read_spec rest spec
    ]
  ]
]

unfoldable pub strip_braces : Text → Option Text
unfolding strip_prefix strip_last
strip_braces s = elim (strip_prefix (codes "{") s) [ none ↦ none | some r ↦ strip_last b'}' r ]

unfoldable pub get_additional_spec : Text → Text × Option AdditionalSpec
unfolding read_spec split_at_first split_on_pair strip_braces
get_additional_spec varname_ext = elim (split_at_first b'{' varname_ext) [
  | none ↦ (varname_ext, none)
  | some (base, spec_str) ↦ elim (strip_braces spec_str) [
    | none ↦ (base, none)
    | some s ↦ (base, some (read_spec (split_on_pair b'}' b'{' s) empty_spec))
  ]
]

-- A component with its array indices split off.
unfoldable pub split_indices : Text → List Text
unfolding split_at_first split_inclusive
split_indices component = elim (split_at_first b'[' component) [
  | none ↦ component ∷ []
  | some (nm, indexstring) ↦ nm ∷ split_inclusive b']' indexstring
]

unfoldable pub split_all : List Text → List Text
unfolding split_indices
split_all [] = []
split_all (component ∷ rest) = split_indices component ++ split_all rest

unfoldable pub split_symbol_components : Text → List Text
unfolding split_all split_on
split_symbol_components varname = split_all (split_on b'.' varname)

-- `idxstr[1..(idxstrlen - 1)]` panics on a text of one character, where the range is 1..0.
abbrev inner_slice : Text → Outcome ⊥ Text
inner_slice [] = panic
inner_slice (x ∷ []) = panic
inner_slice (x ∷ y ∷ r) = ok (init (y ∷ r))

abbrev parse_slice : Outcome ⊥ Text → Outcome ⊥ (Option ℕ)
parse_slice (ok s) = ok (parse_usize s)
parse_slice _ = panic

unfoldable pub get_index : Text → Outcome ⊥ (Option ℕ)
get_index idxstr =
    if (starts_with b'_' idxstr && ends_with b'_' idxstr)
      || (starts_with b'[' idxstr && ends_with b']' idxstr)
    then parse_slice (inner_slice idxstr)
    else ok none
