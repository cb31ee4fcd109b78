-- ===== src/VariableIter.antt =====
-- src/debuginfo/iter.rs: the iterator over all variables and their components.
-- A call of `next` calls itself after it has moved on; the calls are counted by fuel. Three calls,
-- and one for each variable that is left, are enough.
pub mod Fuel
pub mod Steps
pub mod Listing
use a2ltool.Prelude.{
  ℕ, zero, suc, ◌+◌, Text, Option, none, some, Bool, List, [], ◌∷◌, ◌++◌, Outcome, ok, panic,
  out_of_fuel, ◌>>=◌, gather, ltb, ◌==◌, if◌then◌else◌, wrap64, length, get_elem?,
}
use a2ltool.DebugInfo.{
  TypeInfo, TypeTable, DebugData, VarInfo, type_info, sint16, usize_max, unwrap_or,
}
use a2ltool.Symbol.Info.{SymbolInfo}
use a2ltool.TypeIter
use a2ltool.TypeIter.{IterState, Run, Item}

-- A variable's name and its entries.
abbrev pub Variable : Type 0
Variable = Text × List VarInfo

abbrev pub default_typeinfo : TypeInfo
default_typeinfo = type_info none usize_max sint16 0

pub record VarIterState : Type 0 where
  pub var_iter : List Variable
  pub current_var : Option Variable
  pub position : ℕ
  pub type_iter : Option IterState

-- `var_iter.next()`
abbrev pub first_var : List Variable → Option Variable
first_var [] = none
first_var (v ∷ vs) = some v

abbrev pub later_vars : List Variable → List Variable
later_vars [] = []
later_vars (v ∷ vs) = vs

unfoldable pub new : DebugData → VarIterState
new debugdata = record {
  var_iter = later_vars debugdata.variables;
  current_var = first_var debugdata.variables;
  position = 0;
  type_iter = none;
}

-- The symbol of a variable.
abbrev pub variable_symbol : Text → List VarInfo → VarInfo → TypeInfo → SymbolInfo
variable_symbol varname list varinfo typeinfo = record {
  name = varname;
  address = varinfo.address;
  typeinfo = typeinfo;
  unit_idx = varinfo.unit_idx;
  function_name = varinfo.function;
  namespaces = varinfo.namespaces;
  is_unique = length list == 1;
}

-- The symbol of one of its components.
abbrev pub component_symbol : Text → List VarInfo → VarInfo → Item → SymbolInfo
component_symbol varname list varinfo (component_name, typeinfo, offset) = record {
  name = varname ++ component_name;
  address = wrap64 (varinfo.address + offset);
  typeinfo = typeinfo;
  unit_idx = varinfo.unit_idx;
  function_name = varinfo.function;
  namespaces = varinfo.namespaces;
  is_unique = length list == 1;
}

abbrev pub Step : Type 0
Step = Run (Option SymbolInfo × VarIterState)

-- To the next entry of the variable, and to the next variable.
abbrev pub next_entry : VarIterState → VarIterState
next_entry s = record s { position = suc s.position; type_iter = none }

abbrev pub next_variable : VarIterState → VarIterState
next_variable s = record s {
  var_iter = later_vars s.var_iter;
  current_var = first_var s.var_iter;
  position = 0;
  type_iter = none;
}

-- The branches on what the type iterator yields; `again` is the call of `next`.
abbrev pub after_component :
    Text
    → List VarInfo
    → VarInfo
    → (VarIterState → Step)
    → VarIterState
    → Option Item × IterState
    → Step
after_component varname list varinfo again s (some it, iter) =
    ok (some (component_symbol varname list varinfo it), record s { type_iter = some iter })
after_component varname list varinfo again s (none, iter) = again (next_entry s)

module _ (debugdata : DebugData) (new_arrays : Bool) where
  -- The branches on `self.type_iter`.
  unfoldable pub at_entry :
      Text → List VarInfo → VarInfo → (VarIterState → Step) → VarIterState → Option IterState → Step
  at_entry varname list varinfo again s none =
      let typeinfo = unwrap_or (debugdata.types varinfo.typeref) default_typeinfo in
      ok (
        some (variable_symbol varname list varinfo typeinfo),
        record s { type_iter = some (TypeIter.new typeinfo) },
      )
  at_entry varname list varinfo again s (some iter) = do
    r ← TypeIter.next debugdata.types new_arrays iter
    after_component varname list varinfo again s r

  -- The branches on `self.position < list.len()`.
  unfoldable pub at_variable :
      Text → List VarInfo → (VarIterState → Step) → VarIterState → Option VarInfo → Step
  unfolding at_entry
  at_variable varname list again s (some varinfo) =
      at_entry varname list varinfo again s s.type_iter
  at_variable varname list again s none = again (next_variable s)

  unfoldable pub at_current : (VarIterState → Step) → VarIterState → Option Variable → Step
  unfolding at_variable
  at_current again s none = ok (none, s)
  at_current again s (some (varname, list)) =
      at_variable varname list again s (get_elem? list s.position)

  unfoldable pub next_fuel : ℕ → VarIterState → Step
  unfolding at_current
  next_fuel zero s = out_of_fuel
  next_fuel (suc n) s = at_current (next_fuel n) s s.current_var

  unfoldable pub next : VarIterState → Step
  unfolding next_fuel
  next s = next_fuel (3 + length s.var_iter) s

  -- `next_sibling`: the components of the current one are left out.
  abbrev skip_children : VarIterState → Option IterState → VarIterState
  skip_children s none = s
  skip_children s (some iter) = record s { type_iter = some (TypeIter.up iter) }

  unfoldable pub next_sibling : VarIterState → Step
  unfolding next
  next_sibling s = next (skip_children s s.type_iter)

  -- The first `k` symbols, fewer if the iterator ends before.
  unfoldable pub collect : ℕ → VarIterState → Run (List SymbolInfo)
  unfolding next
  collect zero s = ok []
  collect (suc k) s = next s >>= gather (collect k)
