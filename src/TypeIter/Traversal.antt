-- ===== src/TypeIter/Traversal.antt =====
-- What the iterator of src/debuginfo/iter.rs yields is the recursive listing of the type.
use mathlib.Core.List.{append_assoc, append-nil}
use native.Mathlib.Nat.{zero-add, add-zero}
use a2ltool.Prelude.{
  ℕ, zero, suc, ◌+◌, ◌/◌, ◌<◌, ◌≤◌, Text, codes, Option, none, some, Bool, List, [], ◌∷◌, ◌++◌, ◌≡◌,
  refl, arith, ok, err, panic, out_of_fuel, ◌>>=◌, length, wrap64, length-append, Option-cases, ◌∙◌,
  ltb, lt→ltb, inl, inr, false, ◌==◌,
}
use a2ltool.DebugInfo.{
  TypeInfo, DbgDataType, TypeTable, Members, member, end, datatype, members_get_index,
  get_reference, class, struct, union, array, type_info,
}
use a2ltool.TypeIter.{
  Item, IterState, Run, descend, next_member, next_element, next_core, core_at, collect, new,
  element_item, member_item,
}
use a2ltool.TypeIter.Frames.{
  Frame, to_state, first_frame, prepend, prepend-nil, collect-spent, collect-found, collect-nil,
}
use a2ltool.TypeIter.Expand.{
  Lister, expand, expand_members, expand_elements, expand_datatype, value_of, join-eq-some,
  element-value,
}

suc_not_zero : (n : ℕ) → (suc n == 0) ≡ false
suc_not_zero n = ground arith

-- Two runs one after the other.
prepend-prepend :
    (it : Item) (xs ys : List Item) (m : Run (List Item))
    → (prepend xs (prepend ys m) >>= λ its. ok (it ∷ its)) ≡ prepend (it ∷ xs ++ ys) m
prepend-prepend it xs ys (ok its) = simp append_assoc
prepend-prepend it xs ys (err e) = refl
prepend-prepend it xs ys panic = refl
prepend-prepend it xs ys out_of_fuel = refl

module _ (types : TypeTable) (new_arrays : Bool) where
  -- From the first frame of a type the iterator yields what the lister lists, and goes on below.
  abbrev IsListed : Lister → Type 0
  IsListed list =
      (t : TypeInfo) (base : ℕ) (nm : Text) (xs : List Item)
      → list t base nm ≡ some xs
      → (fs : List Frame) (k : ℕ)
      → collect types new_arrays (length xs + k) (to_state (first_frame t base nm ∷ fs))
        ≡ prepend xs (collect types new_arrays k (to_state fs))

  -- One item, its components and the rest of its frame.
  step-IsListed :
      (list : Lister)
      → IsListed list
      → (it : Item) (f : Frame) (fs : List Frame) (xs ys : List Item) (k : ℕ)
      → next_core types new_arrays (to_state (f ∷ fs))
        ≡ ok (some it, descend it (to_state (f ∷ fs)))
      → list it.1 it.2 it.0 ≡ some xs
      → collect types new_arrays
          (length ys + k)
          (to_state (record f { position = suc f.position } ∷ fs))
        ≡ prepend ys (collect types new_arrays k (to_state fs))
      → collect types new_arrays (length (it ∷ xs ++ ys) + k) (to_state (f ∷ fs))
        ≡ prepend (it ∷ xs ++ ys) (collect types new_arrays k (to_state fs))
  step-IsListed list listed it f fs xs ys k found inner rest =
      let count : length (it ∷ xs ++ ys) + k ≡ suc (length xs + (length ys + k)) =
        omega (arith, length-append xs ys) in
      rw
        (
          count,
          collect-found types new_arrays it f fs found,
          listed it.1 it.2 it.0 xs inner (record f { position = suc f.position } ∷ fs)
              (length ys + k),
          rest,
        )
        (prepend-prepend it xs ys _)

  -- The members from a position on.
  abbrev Suffix : Members → ℕ → Members → Type 0
  Suffix all p rest = (i : ℕ) → members_get_index all (i + p) ≡ members_get_index rest i

  Suffix-next :
      (all : Members) (p : ℕ) (nm : Text) (t : TypeInfo) (o : ℕ) (rest : Members)
      → Suffix all p (member nm t o rest)
      → Suffix all (suc p) rest
  unfolding members_get_index
  Suffix-next all p nm t o rest h i =
      let e : i + suc p ≡ suc i + p = omega arith in rw e (h (suc i))

  module _ (t : TypeInfo) (all : Members)
      (core : (s : IterState)
        → core_at types new_arrays (datatype t) s ≡ next_member types all s) where
    abbrev frame_at : ℕ → ℕ → Text → Frame
    frame_at p base nm = record { typeinfo = t; position = p; base = base; prev_name = nm }

    members-spent :
        (p base : ℕ) (nm : Text) (fs : List Frame)
        → members_get_index all p ≡ none
        → next_core types new_arrays (to_state (frame_at p base nm ∷ fs))
          ≡ ok (none, to_state (frame_at p base nm ∷ fs))
    unfolding next_core next_member member_item
    members-spent p base nm fs h = rw (core, h)

    members-found :
        (p base : ℕ) (nm : Text) (fs : List Frame) (key : Text) (u : TypeInfo) (o : ℕ)
        → members_get_index all p ≡ some (key, u, o)
        → next_core types new_arrays (to_state (frame_at p base nm ∷ fs))
          ≡ ok (
            some (nm ++ codes "." ++ key, get_reference u types, wrap64 (base + o)),
            descend
                (nm ++ codes "." ++ key, get_reference u types, wrap64 (base + o))
                (to_state (frame_at p base nm ∷ fs)),
          )
    unfolding next_core next_member member_item
    members-found p base nm fs key u o h = rw (core, h)

    members-IsListed :
        (list : Lister)
        → IsListed list
        → (rest : Members) (p base : ℕ) (nm : Text) → Suffix all p rest
        → (xs : List Item) → expand_members types new_arrays list rest base nm ≡ some xs
        → (fs : List Frame) (k : ℕ)
        → collect types new_arrays (length xs + k) (to_state (frame_at p base nm ∷ fs))
          ≡ prepend xs (collect types new_arrays k (to_state fs))
    unfolding expand_members members_get_index
    members-IsListed list listed end p base nm suffix xs h fs k =
        let empty : xs ≡ [] = cc in
        let here : members_get_index all p ≡ none = rw (zero-add p) at (suffix 0) in
        rw (empty, zero-add k, prepend-nil)
          (collect-spent types new_arrays (frame_at p base nm) fs (members-spent p base nm fs here)
            k)
    members-IsListed list listed (member key u o rest) p base nm suffix xs h fs k =
        let it : Item = (nm ++ codes "." ++ key, get_reference u types, wrap64 (base + o)) in
        let (inner, ys, listed_inner, listed_rest, split) =
          join-eq-some it (list it.1 it.2 it.0) (expand_members types new_arrays list rest base nm)
            h in
        let here : members_get_index all p ≡ some (key, u, o) = rw (zero-add p) at (suffix 0) in
        rw split (
          step-IsListed list listed it (frame_at p base nm) fs inner ys k
            (members-found p base nm fs key u o here) listed_inner
            (members-IsListed list listed rest (suc p) base nm
              (Suffix-next all p key u o rest suffix) ys listed_rest fs k))

  module _ (size stride : ℕ) (dim : List ℕ) (u : TypeInfo) (t : TypeInfo)
      (core : (s : IterState)
        → core_at types new_arrays (datatype t) s
          ≡ next_element new_arrays size dim (suc stride) u s) where
    abbrev element_frame : ℕ → ℕ → Text → Frame
    element_frame p base nm = record { typeinfo = t; position = p; base = base; prev_name = nm }

    elements-spent :
        (p base : ℕ) (nm : Text) (fs : List Frame)
        → size / suc stride ≤ p
        → next_core types new_arrays (to_state (element_frame p base nm ∷ fs))
          ≡ ok (none, to_state (element_frame p base nm ∷ fs))
    unfolding next_core next_element
    elements-spent p base nm fs h =
        let past : ltb p (size / suc stride) ≡ false = ground arith in
        rw (core, suc_not_zero stride, past)

    elements-found :
        (p base : ℕ) (nm : Text) (fs : List Frame) (it : Item)
        → p < size / suc stride
        → element_item new_arrays dim (suc stride) u p base nm ≡ ok it
        → next_core types new_arrays (to_state (element_frame p base nm ∷ fs))
          ≡ ok (some it, descend it (to_state (element_frame p base nm ∷ fs)))
    unfolding next_core next_element
    elements-found p base nm fs it h e = rw (core, suc_not_zero stride, lt→ltb _ _ h, e)

    elements-IsListed :
        (list : Lister)
        → IsListed list
        → (n p base : ℕ) (nm : Text) → n + p ≡ size / suc stride
        → (xs : List Item)
        → expand_elements types new_arrays list n p dim (suc stride) u base nm ≡ some xs
        → (fs : List Frame) (k : ℕ)
        → collect types new_arrays (length xs + k) (to_state (element_frame p base nm ∷ fs))
          ≡ prepend xs (collect types new_arrays k (to_state fs))
    unfolding expand_elements
    elements-IsListed list listed zero p base nm total xs h fs k =
        let empty : xs ≡ [] = cc in
        rw (empty, zero-add k, prepend-nil)
          (collect-spent types new_arrays (element_frame p base nm) fs
            (elements-spent p base nm fs (omega arith)) k)
    elements-IsListed list listed (suc n) p base nm total xs h fs k =
        elim (Option-cases (value_of (element_item new_arrays dim (suc stride) u p base nm))) [
          | inl e ↦ cc
          | inr (it, e) ↦
              let (inner, ys, listed_inner, listed_rest, split) =
                join-eq-some it (list it.1 it.2 it.0)
                  (expand_elements types new_arrays list n (suc p) dim (suc stride) u base nm)
                  (rw e at h) in
              rw split (
                step-IsListed list listed it (element_frame p base nm) fs inner ys k
                  (elements-found p base nm fs it (omega arith) (element-value _ e)) listed_inner
                  (elements-IsListed list listed n (suc p) base nm (omega arith) ys listed_rest fs
                    k))
        ]

  leaf-IsListed :
      (t : TypeInfo)
      → ((s : IterState) → core_at types new_arrays (datatype t) s ≡ ok (none, s))
      → (base : ℕ) (nm : Text) (xs : List Item) → ◌≡◌ {A = Option (List Item)} (some []) (some xs)
      → (fs : List Frame) (k : ℕ)
      → collect types new_arrays (length xs + k) (to_state (first_frame t base nm ∷ fs))
        ≡ prepend xs (collect types new_arrays k (to_state fs))
  unfolding next_core
  leaf-IsListed t core base nm xs h fs k =
      let empty : xs ≡ [] = cc in
      rw (empty, zero-add k, prepend-nil)
        (collect-spent types new_arrays (first_frame t base nm) fs (rw core) k)

  -- One level: with a sound lister for the components, the whole type is listed.
  datatype-IsListed :
      (list : Lister)
      → IsListed list
      → (name : Option Text) (u : ℕ) (d : DbgDataType) (o base : ℕ) (nm : Text) (xs : List Item)
      → expand_datatype types new_arrays list d base nm ≡ some xs
      → (fs : List Frame) (k : ℕ)
      → collect types new_arrays
          (length xs + k)
          (to_state (first_frame (type_info name u d o) base nm ∷ fs))
        ≡ prepend xs (collect types new_arrays k (to_state fs))
  unfolding expand_datatype core_at
  datatype-IsListed list listed name u (class size inheritance ms) o base nm xs h fs k =
      members-IsListed _ ms (λ s. refl) list listed ms 0 base nm (λ i. rw (add-zero i)) xs h fs k
  datatype-IsListed list listed name u (struct size ms) o base nm xs h fs k =
      members-IsListed _ ms (λ s. refl) list listed ms 0 base nm (λ i. rw (add-zero i)) xs h fs k
  datatype-IsListed list listed name u (union size ms) o base nm xs h fs k =
      members-IsListed _ ms (λ s. refl) list listed ms 0 base nm (λ i. rw (add-zero i)) xs h fs k
  datatype-IsListed list listed name u (array size dim zero t) o base nm xs h fs k = cc
  datatype-IsListed list listed name u (array size dim (suc stride) t) o base nm xs h fs k =
      elements-IsListed size stride dim t _ (λ s. refl) list listed (size / suc stride) 0 base nm
        (add-zero _) xs h fs k
  datatype-IsListed list listed name u _ o base nm xs h fs k =
      leaf-IsListed _ (λ s. refl) base nm xs h fs k

  expand-IsListed : (n : ℕ) → IsListed (expand types new_arrays n)
  unfolding expand
  expand-IsListed zero t base nm xs h fs k = cc
  expand-IsListed (suc n) (type_info name u d o) base nm xs h fs k =
      datatype-IsListed (expand types new_arrays n) (expand-IsListed n) name u d o base nm xs h fs k

-- Where the recursive listing of a type from offset 0 is defined, the iterator over the type yields
-- the items of that listing, in its order, and then ends: asking for more items than there are
-- yields no other item and no panic.
pub collect-new :
    (types : TypeTable) (new_arrays : Bool) (n : ℕ) (t : TypeInfo) (xs : List Item) (k : ℕ)
    → expand types new_arrays n t 0 (codes "") ≡ some xs
    → collect types new_arrays (length xs + k) (new t) ≡ ok xs
unfolding new
collect-new types new_arrays n t xs k h =
    expand-IsListed types new_arrays n t 0 (codes "") xs h [] k
    ∙ rw (collect-nil types new_arrays k, append-nil)
