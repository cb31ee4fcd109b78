-- ===== src/TypeIter/Frames.antt =====
-- The four stacks of the iterator of src/debuginfo/iter.rs are always one list of frames.
use a2ltool.Prelude.{
  ℕ, zero, suc, Text, none, some, Bool, List, [], ◌∷◌, ◌++◌, ◌≡◌, refl, map, ok, err, panic,
  out_of_fuel, ◌>>=◌,
}
use a2ltool.DebugInfo.{TypeInfo, TypeTable}
use a2ltool.TypeIter.{Item, Run, IterState, up, next_core, next, collect, descend}

pub record Frame : Type 0 where
  pub typeinfo : TypeInfo
  pub position : ℕ
  pub base : ℕ
  pub prev_name : Text

abbrev pub to_state : List Frame → IterState
to_state fs = record {
  type_stack = map (λ (f : Frame). f.typeinfo) fs;
  position_stack = map (λ (f : Frame). f.position) fs;
  offset_stack = map (λ (f : Frame). f.base) fs;
  name_stack = map (λ (f : Frame). f.prev_name) fs;
}

abbrev pub first_frame : TypeInfo → ℕ → Text → Frame
first_frame t base nm = record { typeinfo = t; position = 0; base = base; prev_name = nm }

abbrev pub prepend : List Item → Run (List Item) → Run (List Item)
prepend its m = m >>= λ rest. ok (its ++ rest)

pub prepend-nil : (m : Run (List Item)) → prepend [] m ≡ m
prepend-nil (ok its) = refl
prepend-nil (err e) = refl
prepend-nil panic = refl
prepend-nil out_of_fuel = refl

module _ (types : TypeTable) (new_arrays : Bool) where
  -- A frame with nothing left is popped.
  pub next-spent :
      (f : Frame) (fs : List Frame)
      → next_core types new_arrays (to_state (f ∷ fs)) ≡ ok (none, to_state (f ∷ fs))
      → next types new_arrays (to_state (f ∷ fs)) ≡ next types new_arrays (to_state fs)
  unfolding next up
  next-spent f fs h = rw h

  pub collect-spent :
      (f : Frame) (fs : List Frame)
      → next_core types new_arrays (to_state (f ∷ fs)) ≡ ok (none, to_state (f ∷ fs))
      → (k : ℕ)
      → collect types new_arrays k (to_state (f ∷ fs)) ≡ collect types new_arrays k (to_state fs)
  unfolding collect
  collect-spent f fs h zero = refl
  collect-spent f fs h (suc k) = rw (next-spent f fs h)

  -- An item that is found comes first; its own components come next, then the rest of the frame.
  pub collect-found :
      (it : Item) (f : Frame) (fs : List Frame)
      → next_core types new_arrays (to_state (f ∷ fs))
        ≡ ok (some it, descend it (to_state (f ∷ fs)))
      → (k : ℕ)
      → collect types new_arrays (suc k) (to_state (f ∷ fs)) ≡ (
          collect types new_arrays k
            (to_state (first_frame it.1 it.2 it.0 ∷ record f { position = suc f.position } ∷ fs))
          >>= λ its. ok (it ∷ its))
  unfolding collect next
  collect-found it f fs h k = rw h

  pub collect-nil : (k : ℕ) → collect types new_arrays k (to_state []) ≡ ok []
  unfolding collect next next_core
  collect-nil zero = refl
  collect-nil (suc k) = refl
