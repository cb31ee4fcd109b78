-- ===== src/VariableIter/Listing.antt =====
-- src/debuginfo/iter.rs: the variables iterator yields each entry of each variable, followed by
-- the components of its type.
use mathlib.Core.List.{append_assoc}
use native.Mathlib.Nat.{zero-add, add-zero}
use a2ltool.Prelude.{
  ℕ, zero, suc, ◌+◌, Text, codes, Option, none, some, Bool, List, [], ◌∷◌, ◌++◌, map, ok, length,
  get_elem?, ◌≡◌, refl, ap, arith, ◌∙◌, Option-cases, inl, inr,
}
use a2ltool.DebugInfo.{DebugData, VarInfo}
use a2ltool.Symbol.Info.{SymbolInfo}
use a2ltool.TypeIter.{IterState, Item}
use a2ltool.TypeIter.Expand.{expand}
use a2ltool.TypeIter.Traversal.{collect-new}
use a2ltool.VariableIter.{
  Variable, VarIterState, first_var, later_vars, at_current, next_fuel, next, collect, new,
  variable_symbol, component_symbol,
}
use a2ltool.VariableIter.Steps.{
  Yields, Shows, Yields-cons, Yields-nil, Yields-next, Shows-cons, Shows-same, type_of, state_at,
  next-entry, next-component, next-done, next-variable,
}

infixl 5 ◌>>=◌
abbrev ◌>>=◌ {ℓ κ} : {A : Type ℓ} {B : Type κ} → Option A → (A → Option B) → Option B
none >>= f = none
some a >>= f = f a

append-eq-some :
    (m n : Option (List SymbolInfo)) {zs : List SymbolInfo}
    → (m >>= λ first. n >>= λ rest. some (first ++ rest)) ≡ some zs
    → (first : List SymbolInfo) × (rest : List SymbolInfo) × (m ≡ some first)
      × (n ≡ some rest)
      × (zs ≡ first ++ rest)
append-eq-some (some first) (some rest) h = (first, rest, refl, refl, cc)
append-eq-some (some first) none h = cc
append-eq-some none n h = cc

shift : (j p : ℕ) → j + suc p ≡ suc j + p
shift j p = omega arith

collect-past_the_end :
    (d : DebugData) (new_arrays : Bool) (m : ℕ)
    → collect d new_arrays m
        (record { var_iter = []; current_var = none; position = 0; type_iter = none })
      ≡ ok []
unfolding collect next next_fuel at_current
collect-past_the_end d new_arrays zero = refl
collect-past_the_end d new_arrays (suc m) = refl

module _ (d : DebugData) (new_arrays : Bool) (depth : ℕ) where
  -- The symbol of an entry, and those of its components.
  unfoldable pub entry_symbols : Text → List VarInfo → VarInfo → Option (List SymbolInfo)
  entry_symbols nm list vi = do
    its ← expand d.types new_arrays depth (type_of d new_arrays vi) 0 (codes "")
    some (
        variable_symbol nm list vi (type_of d new_arrays vi)
        ∷ map (component_symbol nm list vi) its)

  unfoldable pub entries_symbols : Text → List VarInfo → List VarInfo → Option (List SymbolInfo)
  unfolding entry_symbols
  entries_symbols nm list [] = some []
  entries_symbols nm list (vi ∷ vis) = do
    first ← entry_symbols nm list vi
    rest ← entries_symbols nm list vis
    some (first ++ rest)

  -- All symbols of the variables in their order; `none` if the components of a type have no
  -- listing within the depth.
  unfoldable pub all_symbols : List Variable → Option (List SymbolInfo)
  unfolding entries_symbols
  all_symbols [] = some []
  all_symbols ((nm, list) ∷ vars) = do
    first ← entries_symbols nm list list
    rest ← all_symbols vars
    some (first ++ rest)

  -- The components of an entry, and then what the next entry shows.
  components-Shows :
      (vars : List Variable) (nm : Text) (list : List VarInfo) (p : ℕ) (vi : VarInfo)
      → get_elem? list p ≡ some vi
      → (xs : List Item) (iter : IterState) → Yields d new_arrays iter xs
      → (ys : List SymbolInfo)
      → Shows d new_arrays (state_at d new_arrays vars nm list (suc p) none) ys
      → Shows d new_arrays
          (state_at d new_arrays vars nm list p (some iter))
          (map (component_symbol nm list vi) xs ++ ys)
  components-Shows vars nm list p vi e [] iter yields ys rest =
      let (r, step) = Yields-next d new_arrays iter [] yields in
      let (iter', nothing) = Yields-nil d new_arrays iter r step yields in
      Shows-same d new_arrays _ _ ys
        (next-done d new_arrays vars nm list p vi iter iter' e (step ∙ ap ok nothing)) rest
  components-Shows vars nm list p vi e (x ∷ xs) iter yields ys rest =
      let (r, step) = Yields-next d new_arrays iter (x ∷ xs) yields in
      let (iter', found, yields') = Yields-cons d new_arrays iter x xs r step yields in
      Shows-cons d new_arrays _ _ (component_symbol nm list vi x) _
        (next-component d new_arrays vars nm list p vi iter iter' x e (step ∙ ap ok found))
        (components-Shows vars nm list p vi e xs iter' yields' ys rest)

  entry-Shows :
      (vars : List Variable) (nm : Text) (list : List VarInfo) (p : ℕ) (vi : VarInfo)
      → get_elem? list p ≡ some vi
      → (zs : List SymbolInfo) → entry_symbols nm list vi ≡ some zs
      → (ys : List SymbolInfo)
      → Shows d new_arrays (state_at d new_arrays vars nm list (suc p) none) ys
      → Shows d new_arrays (state_at d new_arrays vars nm list p none) (zs ++ ys)
  unfolding entry_symbols
  entry-Shows vars nm list p vi e zs listed ys rest =
      elim (Option-cases (expand d.types new_arrays depth (type_of d new_arrays vi) 0 [])) [
        | inl none_listed ↦ cc (rw none_listed at listed)
        | inr (its, found) ↦
            let symbols =
              variable_symbol nm list vi (type_of d new_arrays vi)
              ∷ map (component_symbol nm list vi) its in
            let same : symbols ≡ zs = cc (rw found at listed) in
            rw (← same) (
              Shows-cons d new_arrays _ _ _ _ (next-entry d new_arrays vars nm list p vi e) (
                components-Shows vars nm list p vi e its _
                  (λ k. collect-new d.types new_arrays depth _ its k found) ys rest))
      ]

  abbrev EntriesFrom : List VarInfo → ℕ → List VarInfo → Type 0
  EntriesFrom list p vis = (j : ℕ) → get_elem? list (j + p) ≡ get_elem? vis j

  -- The state in which the iterator moves on to the variables that are left.
  abbrev fresh : List Variable → VarIterState
  fresh vars = record {
    var_iter = later_vars vars;
    current_var = first_var vars;
    position = 0;
    type_iter = none;
  }

  entries-Shows :
      (vars : List Variable) (nm : Text) (list : List VarInfo) (vis : List VarInfo) (p : ℕ)
      → EntriesFrom list p vis
      → (zs : List SymbolInfo) → entries_symbols nm list vis ≡ some zs
      → (ys : List SymbolInfo) → Shows d new_arrays (fresh vars) ys
      → Shows d new_arrays (state_at d new_arrays vars nm list p none) (zs ++ ys)
  unfolding entries_symbols
  entries-Shows vars nm list [] p from zs listed ys rest =
      let empty : [] ≡ zs = cc in
      let past : get_elem? list p ≡ none = rw (zero-add p) at (from 0) in
      rw (← empty)
        (Shows-same d new_arrays _ _ ys (next-variable d new_arrays vars nm list p past) rest)
  entries-Shows vars nm list (vi ∷ vis) p from zs listed ys rest =
      let (first, more, listed_first, listed_more, split) =
        append-eq-some (entry_symbols nm list vi) (entries_symbols nm list vis) listed in
      let here : get_elem? list p ≡ some vi = rw (zero-add p) at (from 0) in
      let after : EntriesFrom list (suc p) vis = λ j. rw (shift j p) (from (suc j)) in
      rw (split, append_assoc first more ys)
        (entry-Shows vars nm list p vi here first listed_first (more ++ ys)
          (entries-Shows vars nm list vis (suc p) after more listed_more ys rest))

  all_symbols-Shows :
      (vars : List Variable) (zs : List SymbolInfo)
      → all_symbols vars ≡ some zs
      → Shows d new_arrays (fresh vars) zs
  unfolding all_symbols
  all_symbols-Shows [] zs listed =
      let empty : [] ≡ zs = cc in rw (← empty) (λ k. collect-past_the_end d new_arrays (0 + k))
  all_symbols-Shows ((nm, list) ∷ vars) zs listed =
      let (first, more, listed_first, listed_more, split) =
        append-eq-some (entries_symbols nm list list) (all_symbols vars) listed in
      rw split (
        entries-Shows vars nm list list 0 (λ j. rw (add-zero j)) first listed_first more
          (all_symbols-Shows vars more listed_more))

-- Where the listing of all symbols is defined, the variables iterator yields that listing and then
-- ends: the entries of the variables in their order, each followed by the components of its type
-- with the offsets added to its address, and marked as unique exactly if the variable has one
-- entry; asking for more symbols yields no other and no panic.
pub collect-new_variables :
    (d : DebugData) (new_arrays : Bool) (depth : ℕ) (zs : List SymbolInfo) (k : ℕ)
    → all_symbols d new_arrays depth d.variables ≡ some zs
    → collect d new_arrays (length zs + k) (new d) ≡ ok zs
unfolding new
collect-new_variables d new_arrays depth zs k listed =
    all_symbols-Shows d new_arrays depth d.variables zs listed k
