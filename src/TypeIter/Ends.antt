-- ===== src/TypeIter/Ends.antt =====
-- src/debuginfo/iter.rs: a step of the type iterator ends, with an item, without one, or by a
-- panic.
use a2ltool.Prelude.{
  ℕ, zero, suc, Text, Option, none, some, Bool, true, false, List, [], ◌∷◌, ok, err, panic,
  out_of_fuel, ◌>>=◌, if◌then◌else◌, ◌==◌, ltb, ◌/◌, length, ◌≢◌,
}
use a2ltool.DebugInfo.{
  TypeInfo, DbgDataType, Members, TypeTable, class, struct, union, array, datatype,
}
use a2ltool.TypeIter.{
  IterState, Run, Item, top, decompose, next_member, next_element, element_item, core_at, core_top,
  next_core, climb, up, next,
}

abbrev Ends {ℓ} : {A : Type ℓ} → Run A → Type 0
Ends out_of_fuel = ⊥
Ends _ = Unit

Ends-bind {ℓ κ} :
    {A : Type ℓ} {B : Type κ} (m : Run A) (f : A → Run B)
    → Ends m
    → ((a : A) → Ends (f a))
    → Ends (m >>= f)
Ends-bind (ok a) f hm hf = hf a
Ends-bind (err e) f hm hf = tt
Ends-bind panic f hm hf = tt
Ends-bind out_of_fuel f hm hf = hm

Ends-if {ℓ} : {A : Type ℓ} (b : Bool) (m n : Run A) → Ends m → Ends n → Ends (if b then m else n)
Ends-if true m n hm hn = hm
Ends-if false m n hm hn = hn

Ends-top {ℓ} : {A : Type ℓ} (xs : List A) → Ends (top xs)
Ends-top [] = tt
Ends-top (x ∷ xs) = tt

decompose-Ends : (dim : List ℕ) (pos : ℕ) → Ends (decompose dim pos)
unfolding decompose
decompose-Ends [] pos = tt
decompose-Ends (d ∷ ds) pos = Ends-bind _ _ (decompose-Ends ds pos) λ r. Ends-if (d == 0) _ _ tt tt

module _ (types : TypeTable) (new_arrays : Bool) where
  next_member-Ends : (ms : Members) (s : IterState) → Ends (next_member types ms s)
  unfolding next_member
  next_member-Ends ms s = Ends-bind _ _ (Ends-top s.position_stack) λ p.
      Ends-bind _ _ (Ends-top s.offset_stack) λ b. Ends-bind _ _ (Ends-top s.name_stack) λ n. tt

  element_item-Ends :
      (dim : List ℕ) (stride : ℕ) (t : TypeInfo) (p b : ℕ) (nm : Text)
      → Ends (element_item new_arrays dim stride t p b nm)
  unfolding element_item
  element_item-Ends dim stride t p b nm = Ends-bind _ _ (decompose-Ends dim p) λ r. tt

  next_element-Ends :
      (size : ℕ) (dim : List ℕ) (stride : ℕ) (t : TypeInfo) (s : IterState)
      → Ends (next_element new_arrays size dim stride t s)
  unfolding next_element
  next_element-Ends size dim stride t s = Ends-if (stride == 0) _ _ tt (
      Ends-bind _ _ (Ends-top s.position_stack) λ p. Ends-bind _ _ (Ends-top s.name_stack) λ n.
        Ends-bind _ _ (Ends-top s.offset_stack) λ b.
          Ends-if (ltb p (size / stride)) _ _
            (Ends-bind _ _ (element_item-Ends dim stride t p b n) λ it. tt) tt)

  core_at-Ends : (d : DbgDataType) (s : IterState) → Ends (core_at types new_arrays d s)
  unfolding core_at
  core_at-Ends (class size inheritance ms) s = next_member-Ends ms s
  core_at-Ends (struct size ms) s = next_member-Ends ms s
  core_at-Ends (union size ms) s = next_member-Ends ms s
  core_at-Ends (array size dim stride t) s = next_element-Ends size dim stride t s
  core_at-Ends _ s = tt

  core_top-Ends : (ts : List TypeInfo) (s : IterState) → Ends (core_top types new_arrays ts s)
  unfolding core_top
  core_top-Ends [] s = tt
  core_top-Ends (t ∷ ts) s = core_at-Ends (datatype t) s

  next_core-Ends : (s : IterState) → Ends (next_core types new_arrays s)
  unfolding next_core
  next_core-Ends s = core_top-Ends s.type_stack s

  climb-Ends : (n : ℕ) (r : Option Item × IterState) → Ends (climb types new_arrays n r)
  unfolding climb
  climb-Ends zero r = tt
  climb-Ends (suc n) (some it, s) = tt
  climb-Ends (suc n) (none, s) = Ends-bind _ _ (next_core-Ends (up s)) λ r. climb-Ends n r

  next-Ends : (s : IterState) → Ends (next types new_arrays s)
  unfolding next
  next-Ends s = Ends-bind _ _ (next_core-Ends s) λ r. climb-Ends (length s.type_stack) r

-- No step of the type iterator runs out of fuel.
pub next-ne-out_of_fuel :
    (types : TypeTable) (new_arrays : Bool) (s : IterState) → next types new_arrays s ≢ out_of_fuel
next-ne-out_of_fuel types new_arrays s e = rw e at (next-Ends types new_arrays s)
