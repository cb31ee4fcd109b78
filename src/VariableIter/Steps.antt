-- ===== src/VariableIter/Steps.antt =====
-- src/debuginfo/iter.rs: the single steps of the variables iterator.
use native.Mathlib.Nat.{suc-add}
use native.Mathlib.Numerals.{add-one}
use a2ltool.Prelude.{
  ℕ, zero, suc, ◌+◌, Text, Option, none, some, Bool, List, [], ◌∷◌, ok, gather, >>=-eq-ok,
  gather-eq-ok, length, get_elem?, ◌≡◌, refl, sym, ap, arith, ◌∙◌,
}
use a2ltool.DebugInfo.{DebugData, VarInfo, TypeInfo, unwrap_or}
use a2ltool.Symbol.Info.{SymbolInfo}
use a2ltool.TypeIter
use a2ltool.TypeIter.{IterState, Run, Item}
use a2ltool.VariableIter.{
  Variable, VarIterState, next_entry, next_variable, at_entry, at_variable, at_current, next_fuel,
  next, collect, default_typeinfo, variable_symbol, component_symbol,
}
use a2ltool.VariableIter.Fuel.{next_fuel-more, outside_type, past_the_end}

-- A state of the type iterator that yields `xs`, and then ends.
abbrev pub Yields : DebugData → Bool → IterState → List Item → Type 0
Yields d new_arrays iter xs =
    (k : ℕ) → TypeIter.collect d.types new_arrays (length xs + k) iter ≡ ok xs

-- A state of the variables iterator that yields `ys`, and then ends.
abbrev pub Shows : DebugData → Bool → VarIterState → List SymbolInfo → Type 0
Shows d new_arrays s ys = (k : ℕ) → collect d new_arrays (length ys + k) s ≡ ok ys

module _ (d : DebugData) (new_arrays : Bool) where
  pub Yields-cons :
      (iter : IterState) (x : Item) (xs : List Item) (r : Option Item × IterState)
      → TypeIter.next d.types new_arrays iter ≡ ok r
      → Yields d new_arrays iter (x ∷ xs)
      → (iter' : IterState) × (r ≡ (some x, iter')) × Yields d new_arrays iter' xs
  unfolding TypeIter.collect
  Yields-cons iter x xs (none, iter') e h = cc (rw (suc-add _ 0, e) at (h 0))
  Yields-cons iter x xs (some it, iter') e h = (
    iter',
    ap (λ (y : Item). (some y, iter')) (gather-eq-ok _ it x xs (rw (suc-add _ 0, e) at (h 0))).0,
    λ k. (gather-eq-ok _ it x xs (rw (suc-add _ k, e) at (h k))).1,
  )

  pub Yields-nil :
      (iter : IterState) (r : Option Item × IterState)
      → TypeIter.next d.types new_arrays iter ≡ ok r
      → Yields d new_arrays iter []
      → (iter' : IterState) × (r ≡ (none, iter'))
  unfolding TypeIter.collect
  Yields-nil iter (none, iter') e h = (iter', refl)
  Yields-nil iter (some it, iter') e h =
      let one : TypeIter.collect d.types new_arrays 1 iter ≡ ok [] = h 1 in cc (rw e at one)

  -- A state that yields something has a step that returns.
  pub Yields-next :
      (iter : IterState) (xs : List Item)
      → Yields d new_arrays iter xs
      → (r : Option Item × IterState) × (TypeIter.next d.types new_arrays iter ≡ ok r)
  unfolding TypeIter.collect
  Yields-next iter xs h =
      let first : TypeIter.collect d.types new_arrays (suc (length xs)) iter ≡ ok xs =
        rw (add-one (length xs)) at (h 1) in
      let (r, e, rest) =
        >>=-eq-ok (TypeIter.next d.types new_arrays iter)
          (gather (TypeIter.collect d.types new_arrays (length xs))) first in
      (r, e)

  pub Shows-cons :
      (s s' : VarIterState) (y : SymbolInfo) (ys : List SymbolInfo)
      → next d new_arrays s ≡ ok (some y, s')
      → Shows d new_arrays s' ys
      → Shows d new_arrays s (y ∷ ys)
  unfolding collect
  Shows-cons s s' y ys e h k = rw (suc-add _ k, e, h k)

  collect-same :
      (m : ℕ) (s s' : VarIterState)
      → next d new_arrays s ≡ next d new_arrays s'
      → collect d new_arrays m s ≡ collect d new_arrays m s'
  unfolding collect
  collect-same zero s s' e = refl
  collect-same (suc m) s s' e = rw e

  pub Shows-same :
      (s s' : VarIterState) (ys : List SymbolInfo)
      → next d new_arrays s ≡ next d new_arrays s'
      → Shows d new_arrays s' ys
      → Shows d new_arrays s ys
  Shows-same s s' ys e h k = collect-same (length ys + k) s s' e ∙ h k

  abbrev pub type_of : VarInfo → TypeInfo
  type_of vi = unwrap_or (d.types vi.typeref) default_typeinfo

  module _ (vars : List Variable) (nm : Text) (list : List VarInfo) (p : ℕ) where
    abbrev pub state_at : Option IterState → VarIterState
    state_at iter = record {
      var_iter = vars;
      current_var = some (nm, list);
      position = p;
      type_iter = iter;
    }

    pub next-entry :
        (vi : VarInfo)
        → get_elem? list p ≡ some vi
        → next d new_arrays (state_at none)
          ≡ ok (
            some (variable_symbol nm list vi (type_of vi)),
            state_at (some (TypeIter.new (type_of vi))),
          )
    unfolding next next_fuel at_current at_variable at_entry
    next-entry vi e =
        let calls : 3 + length vars ≡ suc (2 + length vars) = omega arith in
        rw (calls, e, at_variable)

    pub next-component :
        (vi : VarInfo) (iter iter' : IterState) (it : Item)
        → get_elem? list p ≡ some vi
        → TypeIter.next d.types new_arrays iter ≡ ok (some it, iter')
        → next d new_arrays (state_at (some iter))
          ≡ ok (some (component_symbol nm list vi it), state_at (some iter'))
    unfolding next next_fuel at_current at_variable at_entry
    next-component vi iter iter' it e found =
        let calls : 3 + length vars ≡ suc (2 + length vars) = omega arith in
        rw (calls, e, at_variable, found)

    step-done :
        (n : ℕ) (vi : VarInfo) (iter iter' : IterState)
        → get_elem? list p ≡ some vi
        → TypeIter.next d.types new_arrays iter ≡ ok (none, iter')
        → next_fuel d new_arrays (suc n) (state_at (some iter))
          ≡ next_fuel d new_arrays n (next_entry (state_at (some iter)))
    unfolding next_fuel at_current at_variable at_entry
    step-done n vi iter iter' e done = rw (e, at_variable, done)

    step-variable :
        (n : ℕ) (iter : Option IterState)
        → get_elem? list p ≡ none
        → next_fuel d new_arrays (suc n) (state_at iter)
          ≡ next_fuel d new_arrays n (next_variable (state_at iter))
    unfolding next_fuel at_current
    step-variable n iter e = rw (e, at_variable)

    pub next-done :
        (vi : VarInfo) (iter iter' : IterState)
        → get_elem? list p ≡ some vi
        → TypeIter.next d.types new_arrays iter ≡ ok (none, iter')
        → next d new_arrays (state_at (some iter))
          ≡ next d new_arrays (next_entry (state_at (some iter)))
    unfolding next
    next-done vi iter iter' e done =
        let calls : 3 + length vars ≡ suc (2 + length vars) = omega arith in
        let more : 3 + length vars ≡ 1 + (2 + length vars) = omega arith in
        let after = next_entry (state_at (some iter)) in
        let enough : next_fuel d new_arrays (3 + length vars) after
            ≡ next_fuel d new_arrays (2 + length vars) after =
          rw more (
            next_fuel-more d new_arrays 1 (2 + length vars) after (
              outside_type d new_arrays vars (2 + length vars) (nm, list) (suc p) (omega arith))) in
        rw enough (rw calls (step-done (2 + length vars) vi iter iter' e done))

  pub next-variable :
      (vars : List Variable) (nm : Text) (list : List VarInfo) (p : ℕ)
      → get_elem? list p ≡ none
      → next d new_arrays (state_at vars nm list p none)
        ≡ next d new_arrays (next_variable (state_at vars nm list p none))
  unfolding next
  next-variable [] nm list p e =
      step-variable [] nm list p 2 none e
      ∙ sym (
          next_fuel-more d new_arrays 1 2
            (record { var_iter = []; current_var = none; position = 0; type_iter = none })
            (past_the_end d new_arrays 2 0 (omega arith)))
  next-variable (w ∷ vars) nm list p e =
      let calls : 3 + suc (length vars) ≡ suc (3 + length vars) = omega arith in
      rw calls (step-variable (w ∷ vars) nm list p (3 + length vars) none e)
