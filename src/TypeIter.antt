-- ===== src/TypeIter.antt =====
-- src/debuginfo/iter.rs: the iterator over the components of a type.
-- Its four stacks are lists whose head is the top. Arithmetic on offsets wraps, as in a release
-- build; a division by zero panics.
pub mod Expand
mod Frames
pub mod Traversal
pub mod Total
pub mod Ends
use a2ltool.Prelude.{
  ℕ, zero, suc, ◌+◌, ◌*◌, ◌/◌, ◌%◌, Text, codes, Option, none, some, Bool, true, false, List, [],
  ◌∷◌, ◌++◌, Outcome, ok, panic, ◌>>=◌, gather, ltb, ◌==◌, if◌then◌else◌, wrap64, to_decimal,
  length,
}
use a2ltool.DebugInfo.{
  TypeInfo, DbgDataType, Members, TypeTable, class, struct, union, array, datatype,
  members_get_index, get_reference,
}

-- The name, the type and the offset of a component.
abbrev pub Item : Type 0
Item = Text × TypeInfo × ℕ

-- A computation that can panic, and has no other error.
abbrev pub Run {ℓ} : Type ℓ → Type ℓ
Run A = Outcome ⊥ A

pub record IterState : Type 0 where
  pub type_stack : List TypeInfo
  pub position_stack : List ℕ
  pub offset_stack : List ℕ
  pub name_stack : List Text

-- `stack[depth]` for the last index; indexing out of bounds panics.
abbrev pub top {ℓ} : {A : Type ℓ} → List A → Run A
top [] = panic
top (x ∷ xs) = ok x

abbrev pub pop {ℓ} : {A : Type ℓ} → List A → List A
pop [] = []
pop (x ∷ xs) = xs

-- `position_stack[depth] += 1`
abbrev pub advance : List ℕ → List ℕ
advance [] = []
advance (p ∷ ps) = suc p ∷ ps

-- The indices of the element at a position, last dimension first, and what remains of it.
unfoldable pub split_dimension : ℕ → List ℕ × ℕ → Run (List ℕ × ℕ)
split_dimension d (indices, rem) = if d == 0 then panic else ok ((rem % d) ∷ indices, rem / d)

unfoldable pub decompose : List ℕ → ℕ → Run (List ℕ × ℕ)
unfolding split_dimension
decompose [] rem = ok ([], rem)
decompose (d ∷ ds) rem = decompose ds rem >>= split_dimension d

-- One index, as `[i]` or as `._i_`.
unfoldable pub write_index : Bool → Text → ℕ → Text
write_index true output val = output ++ codes "[" ++ to_decimal val ++ codes "]"
write_index false output val = output ++ codes "._" ++ to_decimal val ++ codes "_"

unfoldable pub write_indices : Bool → Text → List ℕ → Text
unfolding write_index
write_indices new output [] = output
write_indices new output (val ∷ vals) = write_indices new (write_index new output val) vals

unfoldable pub new : TypeInfo → IterState
new typeinfo = record {
  type_stack = typeinfo ∷ [];
  position_stack = 0 ∷ [];
  offset_stack = 0 ∷ [];
  name_stack = codes "" ∷ [];
}

unfoldable pub up : IterState → IterState
up s = record {
  type_stack = pop s.type_stack;
  position_stack = pop s.position_stack;
  offset_stack = pop s.offset_stack;
  name_stack = pop s.name_stack;
}

-- The position moves on, and the children of the component are next.
abbrev descend : Item → IterState → IterState
descend (nm, t, o) s = record {
  type_stack = t ∷ s.type_stack;
  position_stack = 0 ∷ advance s.position_stack;
  offset_stack = o ∷ s.offset_stack;
  name_stack = nm ∷ s.name_stack;
}

abbrev pub yield_item : Item → IterState → Option Item × IterState
yield_item it s = (some it, descend it s)

-- `members.get_index(position)?` and what follows it.
unfoldable pub member_item : TypeTable → Option (Text × TypeInfo × ℕ) → ℕ → Text → Option Item
member_item types none base prev_name = none
member_item types (some (nm, t, o)) base prev_name =
    some (prev_name ++ codes "." ++ nm, get_reference t types, wrap64 (base + o))

abbrev pub finish : Option Item → IterState → Option Item × IterState
finish none s = (none, s)
finish (some it) s = yield_item it s

unfoldable pub next_member : TypeTable → Members → IterState → Run (Option Item × IterState)
unfolding member_item
next_member types members s = do
  position ← top s.position_stack
  base ← top s.offset_stack
  prev_name ← top s.name_stack
  ok (finish (member_item types (members_get_index members position) base prev_name) s)

unfoldable pub element_item : Bool → List ℕ → ℕ → TypeInfo → ℕ → ℕ → Text → Run Item
unfolding write_indices
element_item new_arrays dim stride arraytype position base prev_name = do
  (indices, rem) ← decompose dim position
  ok (
    write_indices new_arrays prev_name indices,
    arraytype,
    wrap64 (base + wrap64 (stride * position)),
  )

unfoldable pub next_element :
    Bool → ℕ → List ℕ → ℕ → TypeInfo → IterState → Run (Option Item × IterState)
next_element new_arrays size dim stride arraytype s = if stride == 0 then panic else do
  position ← top s.position_stack
  prev_name ← top s.name_stack
  base ← top s.offset_stack
  if ltb position (size / stride)
      then (do
        it ← element_item new_arrays dim stride arraytype position base prev_name
        ok (yield_item it s))
      else ok (none, s)

module _ (types : TypeTable) (new_arrays : Bool) where
  unfoldable pub core_at : DbgDataType → IterState → Run (Option Item × IterState)
  unfolding next_member next_element
  core_at (class size inheritance members) s = next_member types members s
  core_at (struct size members) s = next_member types members s
  core_at (union size members) s = next_member types members s
  core_at (array size dim stride arraytype) s = next_element new_arrays size dim stride arraytype s
  core_at _ s = ok (none, s)

  unfoldable pub core_top : List TypeInfo → IterState → Run (Option Item × IterState)
  unfolding core_at
  core_top [] s = ok (none, s)
  core_top (t ∷ ts) s = core_at (datatype t) s

  unfoldable pub next_core : IterState → Run (Option Item × IterState)
  unfolding core_top
  next_core s = core_top s.type_stack s

  -- `while result.is_none() && !self.type_stack.is_empty()`: each round pops one type, so the
  -- number of types on the stack bounds the rounds.
  unfoldable pub climb : ℕ → Option Item × IterState → Run (Option Item × IterState)
  unfolding next_core up
  climb zero r = ok r
  climb (suc n) (some it, s) = ok (some it, s)
  climb (suc n) (none, s) = do r ← next_core (up s); climb n r

  unfoldable pub next : IterState → Run (Option Item × IterState)
  unfolding climb
  next s = do r ← next_core s; climb (length s.type_stack) r

  -- The first `k` items that the iterator yields, fewer if it ends before.
  unfoldable pub collect : ℕ → IterState → Run (List Item)
  unfolding next
  collect zero s = ok []
  collect (suc k) s = next s >>= gather (collect k)
