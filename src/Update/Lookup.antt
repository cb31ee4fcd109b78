-- ===== src/Update/Lookup.antt =====
-- src/update/mod.rs: `get_symbol_info`, which looks for the symbol of an object in three places.
pub mod Messages
pub mod Sources
use a2ltool.Prelude.{
  ℕ, Text, Option, none, some, Bool, List, [], ◌∷◌, ◌++◌, Outcome, ok, err, panic, out_of_fuel, ℤ,
  pos, int_eq, if◌then◌else◌,
}
use a2ltool.DebugInfo.{DebugData}
use a2ltool.Symbol.Info.{SymbolInfo, SymbolError, error_message}
use a2ltool.Symbol.Lookup.{find_symbol}
use a2ltool.Symbol.Offset.{find_symbol_by_offset}
use a2ltool.A2l.{SymbolLink}
use a2ltool.Update.Fields.{contains}
use a2ltool.Update.IfData.{A2lCrate, get_symbol_name_from_ifdata}

abbrev pub Found : Type 0
Found = Outcome (List Text) SymbolInfo

-- An attempt ends the search, or leaves a message if it was made.
pub data Attempt : Type 0 where
  finished : Found → Attempt
  failed : Option Text → Attempt

abbrev pub with_message : Outcome SymbolError SymbolInfo → Found
with_message (ok s) = ok s
with_message (err e) = err (error_message e ∷ [])
with_message panic = panic
with_message out_of_fuel = out_of_fuel

-- A `return` of a found symbol.
abbrev pub attempt : Outcome SymbolError SymbolInfo → Attempt
attempt (ok s) = finished (ok s)
attempt (err e) = failed (some (error_message e))
attempt panic = finished panic
attempt out_of_fuel = finished out_of_fuel

abbrev pub at_offset : ℕ → ℤ → DebugData → Outcome SymbolError SymbolInfo → Attempt
at_offset fuel offset debug_data (ok s) =
    if int_eq offset (pos 0)
    then finished (ok s)
    else finished (with_message (find_symbol_by_offset fuel s offset debug_data))
at_offset fuel offset debug_data (err e) = failed (some (error_message e))
at_offset fuel offset debug_data panic = finished panic
at_offset fuel offset debug_data out_of_fuel = finished out_of_fuel

unfoldable pub link_attempt : ℕ → Option SymbolLink → DebugData → Attempt
unfolding find_symbol find_symbol_by_offset
link_attempt fuel none debug_data = failed none
link_attempt fuel (some l) debug_data =
    at_offset fuel l.offset debug_data (find_symbol l.symbol_name debug_data)

unfoldable pub name_attempt : Option Text → DebugData → Attempt
unfolding find_symbol
name_attempt none debug_data = failed none
name_attempt (some name) debug_data = attempt (find_symbol name debug_data)

abbrev pub unless_linked : Option SymbolLink → Text → Option Text
unless_linked none name = some name
unless_linked (some l) name = none

-- A message is pushed if it is not there yet.
abbrev pub push_new : List Text → Option Text → List Text
push_new errors none = errors
push_new errors (some message) = if contains errors message then errors else errors ++ message ∷ []

abbrev pub push_first : Option Text → List Text
push_first none = []
push_first (some message) = message ∷ []

abbrev pub last_attempt : Option Text → Option Text → Attempt → Found
last_attempt m1 m2 (finished r) = r
last_attempt m1 m2 (failed m3) = err (push_new (push_new (push_first m1) m2) m3)

abbrev pub second_attempt : Option Text → Attempt → Attempt → Found
second_attempt m1 (finished r) third = r
second_attempt m1 (failed m2) third = last_attempt m1 m2 third

abbrev pub first_attempt : Attempt → Attempt → Attempt → Found
first_attempt (finished r) second third = r
first_attempt (failed m1) second third = second_attempt m1 second third

unfoldable pub get_symbol_info :
    {D : Type 0} ⦃a2l : A2lCrate D⦄ → ℕ → Text → Option SymbolLink → List D → DebugData → Found
unfolding link_attempt name_attempt get_symbol_name_from_ifdata contains
get_symbol_info fuel name opt_symbol_link ifdata_vec debug_data =
    first_attempt (link_attempt fuel opt_symbol_link debug_data)
      (name_attempt (get_symbol_name_from_ifdata ifdata_vec) debug_data)
      (name_attempt (unless_linked opt_symbol_link name) debug_data)
