-- ===== src/Symbol/Tests.antt =====
-- Runs of src/symbol.rs, most of them from its unit tests.
use a2ltool.Prelude.{
  ℕ, codes, some, [], ◌∷◌, Outcome, ok, err, panic, ◌≡◌, refl, ◌>>=◌, map, text_eq, ends_with, init,
  parse_usize, opt_text_eq, texts_eq,
}
use a2ltool.DebugInfo.{members_get, get_reference}
use a2ltool.DebugInfo.UnitName.{make_simple_unit_name}
use a2ltool.Symbol.Names.{get_index, get_additional_spec, split_symbol_components}
use a2ltool.Symbol.Info.{SymbolError, SymbolInfo, index_out_of_bounds}
use a2ltool.Symbol.Lookup.{find_symbol, spec_matches}
use a2ltool.Samples.{debug_data}

split_brackets :
    split_symbol_components (codes "my_struct.array_field[5][1]")
    ≡ map codes ("my_struct" ∷ "array_field" ∷ "[5]" ∷ "[1]" ∷ [])
unfolding split_symbol_components
split_brackets = refl

split_underscores :
    split_symbol_components (codes "my_struct.array_field._5_._1_")
    ≡ map codes ("my_struct" ∷ "array_field" ∷ "_5_" ∷ "_1_" ∷ [])
unfolding split_symbol_components
split_underscores = refl

index_12 : get_index (codes "_12_") ≡ ok (some 12)
unfolding get_index ends_with init parse_usize
index_12 = refl

spec_of_all_parts :
    get_additional_spec
      (codes "v{Function:f}{Namespace:Foo}{Namespace:Bar}{CompileUnit:c}{Namespace:Global}")
    ≡ (
      codes "v",
      some (record {
        function_name = some (codes "f");
        simple_unit_name = some (codes "c");
        namespaces = map codes ("Foo" ∷ "Bar" ∷ []);
      }),
    )
unfolding get_additional_spec
spec_of_all_parts = refl

abbrev address_of : Outcome SymbolError SymbolInfo → Outcome SymbolError ℕ
address_of r = r >>= λ s. ok s.address

element_address : address_of (find_symbol (codes "my_struct.array_item._1_") debug_data) ≡ ok 4100
unfolding find_symbol text_eq members_get get_reference get_index ends_with init parse_usize
element_address = refl

bracket_address : address_of (find_symbol (codes "my_struct.array_item[1]") debug_data) ≡ ok 4100
unfolding find_symbol text_eq members_get get_reference get_index ends_with init parse_usize
bracket_address = refl

mangled_address : address_of (find_symbol (codes "S::m.last") debug_data) ≡ ok 4104
unfolding find_symbol text_eq members_get get_reference get_index ends_with init parse_usize
mangled_address = refl

past_end :
    find_symbol (codes "my_struct.array_item._2_") debug_data
    ≡ err (index_out_of_bounds 2 (map codes ("my_struct" ∷ "array_item" ∷ "_2_" ∷ [])) 2)
unfolding find_symbol text_eq members_get get_reference get_index ends_with init parse_usize
past_end = refl

selected_with_braces :
    address_of
      (find_symbol (codes "var{Function:func_c}{CompileUnit:file2_c}{Namespace:Global}") debug_data)
    ≡ ok 2000
unfolding find_symbol text_eq spec_matches opt_text_eq make_simple_unit_name texts_eq
selected_with_braces = refl

lone_underscore : find_symbol (codes "my_struct.array_item._") debug_data ≡ panic
unfolding find_symbol text_eq members_get get_reference get_index ends_with init parse_usize
lone_underscore = refl
