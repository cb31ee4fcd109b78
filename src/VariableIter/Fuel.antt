-- ===== src/VariableIter/Fuel.antt =====
-- src/debuginfo/iter.rs: a call of the variables iterator ends, however many calls of itself it is
-- given beyond the number that is enough.
use native.Mathlib.Nat.{zero-add, suc-add}
use a2ltool.Prelude.{
  ℕ, zero, suc, ◌+◌, ◌≤◌, Text, Option, none, some, Bool, List, [], ◌∷◌, ok, err, panic,
  out_of_fuel, ◌>>=◌, length, get_elem?, ◌≡◌, ◌≢◌, refl, sym, arith, ◌∙◌, Option-cases, inl, inr,
}
use a2ltool.DebugInfo.{DebugData, VarInfo}
use a2ltool.TypeIter.{IterState, Run, Item}
use a2ltool.TypeIter.Ends.{next-ne-out_of_fuel}
use a2ltool.VariableIter.{
  Variable, VarIterState, Step, after_component, at_entry, at_variable, at_current, next_fuel, next,
}

-- Enough calls for a state that is not inside a type.
abbrev Ends : (VarIterState → Step) → VarIterState → Type 0
Ends again s = again s ≢ out_of_fuel

module _ (d : DebugData) (new_arrays : Bool) where
  -- Where the calls are enough, more of them make no difference.
  after_component-more :
      (nm : Text) (list : List VarInfo) (vi : VarInfo) (f g : VarIterState → Step)
      → ((s : VarIterState) → Ends f s → g s ≡ f s)
      → (s : VarIterState) (r : Option Item × IterState)
      → after_component nm list vi f s r ≢ out_of_fuel
      → after_component nm list vi g s r ≡ after_component nm list vi f s r
  after_component-more nm list vi f g more s (some it, iter) h = refl
  after_component-more nm list vi f g more s (none, iter) h = more _ h

  bind-more :
      (m : Run (Option Item × IterState)) (f g : Option Item × IterState → Step)
      → ((r : Option Item × IterState) → f r ≢ out_of_fuel → g r ≡ f r)
      → (m >>= f) ≢ out_of_fuel
      → (m >>= g) ≡ (m >>= f)
  bind-more (ok r) f g more h = more r h
  bind-more (err e) f g more h = refl
  bind-more panic f g more h = refl
  bind-more out_of_fuel f g more h = refl

  at_entry-more :
      (nm : Text) (list : List VarInfo) (vi : VarInfo) (f g : VarIterState → Step)
      → ((s : VarIterState) → Ends f s → g s ≡ f s)
      → (s : VarIterState) (iter : Option IterState)
      → at_entry d new_arrays nm list vi f s iter ≢ out_of_fuel
      → at_entry d new_arrays nm list vi g s iter ≡ at_entry d new_arrays nm list vi f s iter
  unfolding at_entry
  at_entry-more nm list vi f g more s none h = refl
  at_entry-more nm list vi f g more s (some iter) h =
      bind-more _ _ _ (λ r p. after_component-more nm list vi f g more s r p) h

  at_variable-more :
      (nm : Text) (list : List VarInfo) (f g : VarIterState → Step)
      → ((s : VarIterState) → Ends f s → g s ≡ f s)
      → (s : VarIterState) (vi : Option VarInfo)
      → at_variable d new_arrays nm list f s vi ≢ out_of_fuel
      → at_variable d new_arrays nm list g s vi ≡ at_variable d new_arrays nm list f s vi
  unfolding at_variable
  at_variable-more nm list f g more s (some vi) h =
      at_entry-more nm list vi f g more s s.type_iter h
  at_variable-more nm list f g more s none h = more _ h

  at_current-more :
      (f g : VarIterState → Step)
      → ((s : VarIterState) → Ends f s → g s ≡ f s)
      → (s : VarIterState) (current : Option Variable)
      → at_current d new_arrays f s current ≢ out_of_fuel
      → at_current d new_arrays g s current ≡ at_current d new_arrays f s current
  unfolding at_current
  at_current-more f g more s none h = refl
  at_current-more f g more s (some (nm, list)) h = at_variable-more nm list f g more s _ h

  next_fuel-suc :
      (n : ℕ) (s : VarIterState)
      → next_fuel d new_arrays n s ≢ out_of_fuel
      → next_fuel d new_arrays (suc n) s ≡ next_fuel d new_arrays n s
  unfolding next_fuel
  next_fuel-suc zero s h = absurd (h refl)
  next_fuel-suc (suc n) s h =
      at_current-more (next_fuel d new_arrays n) (next_fuel d new_arrays (suc n)) (next_fuel-suc n)
        s s.current_var h

  pub next_fuel-more :
      (k n : ℕ) (s : VarIterState)
      → next_fuel d new_arrays n s ≢ out_of_fuel
      → next_fuel d new_arrays (k + n) s ≡ next_fuel d new_arrays n s
  next_fuel-more zero n s h = rw (zero-add n)
  next_fuel-more (suc k) n s h =
      let same = next_fuel-more k n s h in
      rw (suc-add k n) (next_fuel-suc (k + n) s (λ e. h (sym same ∙ e)) ∙ same)

  -- A state with no variable left.
  pub past_the_end :
      (n p : ℕ)
      → 1 ≤ n
      → next_fuel d new_arrays n
          (record { var_iter = []; current_var = none; position = p; type_iter = none })
        ≢ out_of_fuel
  unfolding next_fuel at_current
  past_the_end zero p h = absurd (omega arith)
  past_the_end (suc n) p h = λ e. cc

  -- A state that is not inside a type: each variable that is left takes one call at most.
  pub outside_type :
      (vars : List Variable) (n : ℕ) (v : Variable) (p : ℕ)
      → 2 + length vars ≤ n
      → next_fuel d new_arrays n
          (record { var_iter = vars; current_var = some v; position = p; type_iter = none })
        ≢ out_of_fuel
  unfolding next_fuel at_current at_variable at_entry
  outside_type vars zero v p h = absurd (omega arith)
  outside_type [] (suc n) (nm, list) p h = elim (Option-cases (get_elem? list p)) [
    | inr (vi, e) ↦ rw (e, at_variable) (λ e'. cc)
    | inl e ↦ rw (e, at_variable) (past_the_end n 0 (omega arith))
  ]
  outside_type (w ∷ vars) (suc n) (nm, list) p h = elim (Option-cases (get_elem? list p)) [
    | inr (vi, e) ↦ rw (e, at_variable) (λ e'. cc)
    | inl e ↦ rw (e, at_variable) (outside_type vars n w 0 (omega arith))
  ]

  after_component-ends :
      (nm : Text) (list : List VarInfo) (vi : VarInfo) (vars : List Variable) (n p : ℕ)
      (iter : IterState) (r : Option Item × IterState)
      → 2 + length vars ≤ n
      → after_component nm list vi
          (next_fuel d new_arrays n)
          (record {
            var_iter = vars;
            current_var = some (nm, list);
            position = p;
            type_iter = some iter;
          })
          r
        ≢ out_of_fuel
  after_component-ends nm list vi vars n p iter (some it, iter') h = λ e. cc
  after_component-ends nm list vi vars n p iter (none, iter') h =
      outside_type vars n (nm, list) (suc p) h

  bind-ends :
      (m : Run (Option Item × IterState)) (f : Option Item × IterState → Step)
      → m ≢ out_of_fuel
      → ((r : Option Item × IterState) → f r ≢ out_of_fuel)
      → (m >>= f) ≢ out_of_fuel
  bind-ends (ok r) f hm hf = hf r
  bind-ends (err e) f hm hf = λ e'. cc
  bind-ends panic f hm hf = λ e'. cc
  bind-ends out_of_fuel f hm hf = λ e'. hm refl

  inside_type :
      (vars : List Variable) (n : ℕ) (v : Variable) (p : ℕ) (iter : IterState)
      → 3 + length vars ≤ n
      → next_fuel d new_arrays n
          (record { var_iter = vars; current_var = some v; position = p; type_iter = some iter })
        ≢ out_of_fuel
  unfolding next_fuel at_current at_variable at_entry
  inside_type vars zero v p iter h = absurd (omega arith)
  inside_type [] (suc n) (nm, list) p iter h = elim (Option-cases (get_elem? list p)) [
    | inr (vi, e) ↦
        rw (e, at_variable)
          (bind-ends _ _ (next-ne-out_of_fuel d.types new_arrays iter)
            λ r. after_component-ends nm list vi [] n p iter r (omega arith))
    | inl e ↦ rw (e, at_variable) (past_the_end n 0 (omega arith))
  ]
  inside_type (w ∷ vars) (suc n) (nm, list) p iter h = elim (Option-cases (get_elem? list p)) [
    | inr (vi, e) ↦
        rw (e, at_variable)
          (bind-ends _ _ (next-ne-out_of_fuel d.types new_arrays iter)
            λ r. after_component-ends nm list vi (w ∷ vars) n p iter r (omega arith))
    | inl e ↦ rw (e, at_variable) (outside_type vars n w 0 (omega arith))
  ]

  state_ends :
      (vars : List Variable) (n : ℕ) (current : Option Variable) (p : ℕ) (iter : Option IterState)
      → 3 + length vars ≤ n
      → next_fuel d new_arrays n
          (record { var_iter = vars; current_var = current; position = p; type_iter = iter })
        ≢ out_of_fuel
  unfolding next_fuel at_current
  state_ends vars zero current p iter h = absurd (omega arith)
  state_ends vars (suc n) (some v) p (some iter) h = inside_type vars (suc n) v p iter h
  state_ends vars (suc n) (some v) p none h = outside_type vars (suc n) v p (omega arith)
  state_ends vars (suc n) none p iter h = λ e. cc

-- A call of `next` of the variables iterator ends in every state: the calls of itself that it
-- makes are at most two more than the variables that are left. More fuel makes no difference.
pub next_ends :
    (d : DebugData) (new_arrays : Bool) (s : VarIterState)
    → (next d new_arrays s ≢ out_of_fuel)
      × ((k : ℕ) → next_fuel d new_arrays (k + (3 + length s.var_iter)) s ≡ next d new_arrays s)
unfolding next
next_ends d new_arrays s =
    let ends =
      state_ends d new_arrays s.var_iter (3 + length s.var_iter) s.current_var s.position
        s.type_iter (omega arith) in
    (ends, λ k. next_fuel-more d new_arrays k (3 + length s.var_iter) s ends)
