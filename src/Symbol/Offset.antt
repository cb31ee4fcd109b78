-- ===== src/Symbol/Offset.antt =====
-- src/symbol.rs: `find_symbol_by_offset`. The loop over the items of the iterator runs on fuel, one
-- round for each item.
use a2ltool.Prelude.{
  ℕ, zero, suc, ◌+◌, ◌-◌, ◌%◌, ◌^◌, ◌<◌, codes, Option, none, some, Bool, false, ◌||◌, List, [],
  ◌∷◌, ◌++◌, Outcome, ok, err, panic, out_of_fuel, ◌>>=◌, length, ltb, ◌==◌, if◌then◌else◌, wrap64,
  ℤ, pos, negsuc, int_leb, not, ◌≡◌, refl, ap, arith, ◌∙◌,
}
use a2ltool.DebugInfo.{TypeTable, DebugData, get_size}
use a2ltool.TypeIter
use a2ltool.TypeIter.{IterState, Run, Item}
use a2ltool.TypeIter.Expand.{expand}
use a2ltool.TypeIter.Traversal.{collect-new}
use a2ltool.VariableIter.Steps.{Yields, Yields-cons, Yields-nil, Yields-next}
use a2ltool.Symbol.Info.{SymbolInfo, SymbolError, offset_out_of_bounds, no_component_at_offset}

-- `n as i32` for a u64
abbrev pub as_i32 : ℕ → ℤ
as_i32 n = let low = n % 2 ^ 32 in if ltb low (2 ^ 31) then pos low else negsuc (2 ^ 32 - 1 - low)

abbrev pub out_of_bounds : ℤ → ℤ → Bool
out_of_bounds offset size = not (int_leb (pos 0) offset) || not (int_leb offset size)

abbrev pub as_u64 : ℤ → ℕ
as_u64 (pos n) = n
as_u64 (negsuc n) = 2 ^ 64 - 1 - n

abbrev pub component_at : SymbolInfo → Item → SymbolInfo
component_at base (nm, typeinfo, item_offset) = record base {
  name = base.name ++ nm;
  address = wrap64 (item_offset + base.address);
  typeinfo = typeinfo;
}

abbrev pub Result : Type 0
Result = Outcome SymbolError SymbolInfo

-- A panic of the iterator is a panic of the loop.
abbrev pub lift_run {ℓ} : {A : Type ℓ} → Run A → Outcome SymbolError A
lift_run (ok a) = ok a
lift_run (err e) = absurd e
lift_run panic = panic
lift_run out_of_fuel = out_of_fuel

-- The body of the loop; `again` is its next round.
abbrev pub check_item : SymbolInfo → ℕ → (IterState → Result) → Option Item × IterState → Result
check_item base offset again (none, iter) = err (no_component_at_offset offset base.name)
check_item base offset again (some it, iter) =
    let rest = again iter in if it.2 == offset then ok (component_at base it) else rest

module _ (types : TypeTable) (base : SymbolInfo) (offset : ℕ) where
  unfoldable pub find_item : ℕ → IterState → Result
  find_item zero iter = out_of_fuel
  find_item (suc fuel) iter =
      lift_run (TypeIter.next types false iter) >>= check_item base offset (find_item fuel)

unfoldable pub find_symbol_by_offset : ℕ → SymbolInfo → ℤ → DebugData → Result
unfolding find_item
find_symbol_by_offset fuel base offset debug_data =
    if out_of_bounds offset (as_i32 (get_size base.typeinfo))
    then err (offset_out_of_bounds offset base.name)
    else find_item debug_data.types base (as_u64 offset) fuel (TypeIter.new base.typeinfo)

-- The first component of a listing that stands at the offset.
unfoldable pub first_at : SymbolInfo → ℕ → List Item → Result
first_at base offset [] = err (no_component_at_offset offset base.name)
first_at base offset (it ∷ its) =
    if it.2 == offset then ok (component_at base it) else first_at base offset its

module _ (d : DebugData) (base : SymbolInfo) (offset : ℕ) where
  found-first_at :
      (it : Item) (again : IterState → Result) (iter : IterState) (its : List Item)
      → again iter ≡ first_at base offset its
      → check_item base offset again (some it, iter) ≡ first_at base offset (it ∷ its)
  unfolding first_at
  found-first_at it again iter its same = rw same

  find_item-first_at :
      (xs : List Item) (fuel : ℕ) (iter : IterState)
      → length xs < fuel
      → Yields d false iter xs
      → find_item d.types base offset fuel iter ≡ first_at base offset xs
  unfolding find_item
  find_item-first_at xs zero iter enough yields = absurd (omega arith)
  find_item-first_at [] (suc fuel) iter enough yields =
      let (r, step) = Yields-next d false iter [] yields in
      let (iter', nothing) = Yields-nil d false iter r step yields in
      rw (step ∙ ap ok nothing) (unfold first_at in refl)
  find_item-first_at (x ∷ xs) (suc fuel) iter enough yields =
      let (r, step) = Yields-next d false iter (x ∷ xs) yields in
      let (iter', found, yields') = Yields-cons d false iter x xs r step yields in
      rw (step ∙ ap ok found) (
        found-first_at x (find_item d.types base offset fuel) iter' xs
          (find_item-first_at xs fuel iter' (omega arith) yields'))

-- Where the listing of the symbol's type is defined, and the fuel is more than its length, the
-- result is an error for an offset that is negative or past the size (read as an i32), and
-- otherwise the first component in the listing that stands at the offset, with the name appended
-- and the address moved, or an error if none stands there.
pub find_symbol_by_offset-first_at :
    (d : DebugData) (base : SymbolInfo) (offset : ℤ) (depth fuel : ℕ) (xs : List Item)
    → expand d.types false depth base.typeinfo 0 (codes "") ≡ some xs
    → length xs < fuel
    → find_symbol_by_offset fuel base offset d ≡ (
        if out_of_bounds offset (as_i32 (get_size base.typeinfo))
        then err (offset_out_of_bounds offset base.name)
        else first_at base (as_u64 offset) xs)
unfolding find_symbol_by_offset
find_symbol_by_offset-first_at d base offset depth fuel xs listed enough = rw (
    find_item-first_at d base (as_u64 offset) xs fuel (TypeIter.new base.typeinfo) enough
      (λ k. collect-new d.types false depth base.typeinfo xs k listed))
