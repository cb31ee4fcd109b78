-- ===== src/Symbol/Elements.antt =====
-- The array indices that src/debuginfo/iter.rs writes for the number of an element are those that
-- src/symbol.rs reads back as this number.
use native.Mathlib.Nat.{zero-add, div-add-mod', mod-lt}
use mathlib.Core.Path.{subst₂}
use mathlib.Core.List.{append_assoc}
use a2ltool.Prelude.{
  ℕ, zero, suc, ◌+◌, ◌*◌, ◌/◌, ◌%◌, ◌^◌, ◌<◌, ◌≤◌, Text, codes, some, Bool, List, [], ◌∷◌, ◌++◌,
  map, ◌==◌, ◌≡◌, refl, ap, ◌∙◌, arith, Bool-cases, inl, inr, lt→ltb, Outcome, ok, >>=-eq-ok,
  get_or, wrap64, sym, length,
}
use a2ltool.DebugInfo.{TypeTable}
use a2ltool.TypeIter.{decompose, split_dimension}
use a2ltool.Symbol.Names.{get_index, split_symbol_components}
use a2ltool.Symbol.Written.{Part, written, components, AreNames, split_symbol_components-written}
use a2ltool.Symbol.Members.{read_indices}
use a2ltool.Symbol.SubObject.{product, index_below}
use a2ltool.Symbol.Digits.{index_component, get_index-index_component}

-- One index for each dimension, and below it.
abbrev pub InBounds : List ℕ → List ℕ → Type 0
InBounds [] [] = Unit
InBounds (d ∷ ds) (i ∷ is) = (i < d) × InBounds ds is
InBounds _ _ = ⊥

-- The number of the element with these indices, the last dimension running fastest.
abbrev pub number : List ℕ → List ℕ → ℕ
number (d ∷ ds) (i ∷ is) = i * product ds + number ds is
number _ _ = 0

step_number : (d p n r pos : ℕ) → n + r * p ≡ pos → r % d * p + n + r / d * (d * p) ≡ pos
step_number d p n r pos h =
    let split : r / d * d + r % d ≡ r = div-add-mod' r d in
    let scaled : (r / d * d + r % d) * p ≡ r * p = ap (λ (t : ℕ). t * p) split in
    omega (arith, scaled)

split_dimension-eq-ok :
    (d : ℕ) (js is : List ℕ) (r rem : ℕ)
    → split_dimension d (js, r) ≡ ok (is, rem)
    → ((r % d) ∷ js ≡ is) × (r / d ≡ rem) × (r % d < d)
unfolding split_dimension
split_dimension-eq-ok d js is r rem h = elim (Bool-cases (d == 0)) [
  | inl e ↦ cc (rw e at h)
  | inr e ↦
      let positive : 0 < d = ground arith in
      let bound : r % d < d = mod-lt r positive in
      let same : ◌≡◌ {A = Outcome ⊥ (List ℕ × ℕ)} (ok ((r % d) ∷ js, r / d)) (ok (is, rem)) =
        rw e at h in
      (cc, cc, bound)
]

-- The indices are in bounds, and with what remains they determine the position.
decompose-number :
    (dims : List ℕ) (pos : ℕ) (is : List ℕ) (rem : ℕ)
    → decompose dims pos ≡ ok (is, rem)
    → InBounds dims is × (number dims is + rem * product dims ≡ pos)
unfolding decompose
decompose-number [] pos is rem h =
    let none_left : is ≡ [] = cc in let all : rem ≡ pos = cc in rw none_left (tt, omega arith)
decompose-number (d ∷ ds) pos is rem h =
    let ((js, r), found, h') = >>=-eq-ok (decompose ds pos) (split_dimension d) h in
    let (indices, left, below) = split_dimension-eq-ok d js is r rem h' in
    let (inside, whole) = decompose-number ds pos js r found in
    subst₂ (λ x y. InBounds (d ∷ ds) x × (number (d ∷ ds) x + y * product (d ∷ ds) ≡ pos)) indices
      left ((below, inside), step_number d (product ds) (number ds js) r pos whole)

-- From a position on, the components are those of a list.
abbrev pub ComponentsAt : List Text → ℕ → List Text → Type 0
ComponentsAt components position texts =
    (j : ℕ) (default : Text) → get_or components (j + position) default ≡ get_or texts j default

ComponentsAt-next :
    (components : List Text) (position : ℕ) (text : Text) (texts : List Text)
    → ComponentsAt components position (text ∷ texts)
    → ComponentsAt components (suc position) texts
ComponentsAt-next components position text texts h j default =
    let e : j + suc position ≡ suc j + position = omega arith in rw e (h (suc j) default)

mul_mono : (a p : ℕ) → 0 < p → a * 1 ≤ a * p
mul_mono a p h = grind arith

-- The last number of an array is below the number of its elements, so there are some.
InBounds-product : (dims is : List ℕ) → InBounds dims is → number dims is < product dims
InBounds-product [] [] h = omega arith
InBounds-product (d ∷ ds) (i ∷ is) (below, inside) =
    index_below i d (number ds is) (product ds) below (InBounds-product ds is inside)
InBounds-product [] (i ∷ is) h = absurd h
InBounds-product (d ∷ ds) [] h = absurd h

round_fits :
    (m d i p n : ℕ)
    → 0 < p
    → m * (d * p) + (i * p + n) < 2 ^ 64
    → wrap64 (wrap64 (m * d) + i) ≡ m * d + i
round_fits m d i p n positive fits =
    let grows : (m * d + i) * 1 ≤ (m * d + i) * p = mul_mono (m * d + i) p positive in omega arith

regroup : (m d i p n : ℕ) → (m * d + i) * p + n ≡ m * (d * p) + (i * p + n)
regroup m d i p n = omega arith

read_indices-number :
    (types : TypeTable) (components : List Text) (new_arrays : Bool) (dims is : List ℕ)
    (position m : ℕ) (rest : List Text)
    → InBounds dims is
    → ComponentsAt components position (map (index_component new_arrays) is ++ rest)
    → m * product dims + number dims is < 2 ^ 64
    → read_indices types components dims position m ≡ ok (m * product dims + number dims is)
unfolding read_indices
read_indices-number types components new_arrays [] [] position m rest inside here fits =
    ap ok (omega arith)
read_indices-number types components new_arrays (d ∷ ds) (i ∷ is) position m rest (below, inside)
      here fits =
    let p = product ds in
    let n = number ds is in
    let bound : n < p = InBounds-product ds is inside in
    let small : i * 1 ≤ i * p = mul_mono i p (omega arith) in
    let at_position : get_or components position (codes "_0_") ≡ index_component new_arrays i =
      rw (zero-add position) at (here 0 (codes "_0_")) in
    let value : get_index (index_component new_arrays i) ≡ ok (some i) =
      get_index-index_component new_arrays i (omega arith) in
    rw (at_position, value, lt→ltb i d below, round_fits m d i p n (omega arith) fits)
      (read_indices-number types components new_arrays ds is (suc position) (m * d + i) rest inside
          (ComponentsAt-next components position _ _ here) (rw (regroup m d i p n) fits)
        ∙ ap ok (regroup m d i p n))
read_indices-number types components new_arrays [] (i ∷ is) position m rest inside here fits =
    absurd inside
read_indices-number types components new_arrays (d ∷ ds) [] position m rest inside here fits =
    absurd inside

no_remainder : (n rem p pos : ℕ) → n + rem * p ≡ pos → pos < p → rem ≡ 0
no_remainder n zero p pos h below = refl
no_remainder n (suc rem) p pos h below = absurd (omega arith)

components-append :
    (new_arrays : Bool) (before after : List Part)
    → components new_arrays (before ++ after)
      ≡ components new_arrays before ++ components new_arrays after
components-append new_arrays [] after = refl
components-append new_arrays ((nm, is) ∷ before) after =
    ap (λ l. (nm ∷ map (index_component new_arrays) is) ++ l)
      (components-append new_arrays before after)
    ∙ sym (
        append_assoc (nm ∷ map (index_component new_arrays) is) (components new_arrays before)
          (components new_arrays after))

split-whole :
    (new_arrays : Bool) (before : List Part) (part : Part) (after : List Part)
    → AreNames (before ++ part ∷ after)
    → split_symbol_components (written new_arrays (before ++ part ∷ after))
      ≡ components new_arrays before ++ components new_arrays (part ∷ after)
split-whole new_arrays [] part after h = split_symbol_components-written new_arrays part after h
split-whole new_arrays (first ∷ before) part after h =
    split_symbol_components-written new_arrays first (before ++ part ∷ after) h
    ∙ components-append new_arrays (first ∷ before) (part ∷ after)

-- What stands behind a number of components and a name.
get_or-behind :
    (xs : List Text) (nm : Text) (texts : List Text) (j : ℕ) (default : Text)
    → get_or (xs ++ nm ∷ texts) (j + suc (length xs)) default ≡ get_or texts j default
get_or-behind [] nm texts j default = let e : j + 1 ≡ suc j = omega arith in rw e refl
get_or-behind (x ∷ xs) nm texts j default =
    let e : j + suc (suc (length xs)) ≡ suc (j + suc (length xs)) = omega arith in
    rw e (get_or-behind xs nm texts j default)

-- For an array with the dimensions `dims`, where the iterator splits the number of an element into
-- indices, and the number is a u64 and below the number of elements: nothing remains, and in the
-- name of any path that has these indices written after an array's name, in either notation,
-- `read_indices` reads the number of the element back from the components that
-- `split_symbol_components` makes of the name. The names of the path have no dot and no opening
-- bracket.
pub read_indices-decompose :
    (types : TypeTable) (new_arrays : Bool) (dims : List ℕ) (pos : ℕ) (is : List ℕ) (rem : ℕ)
    (before : List Part) (nm : Text) (after : List Part)
    → decompose dims pos ≡ ok (is, rem)
    → pos < product dims
    → pos < 2 ^ 64
    → AreNames (before ++ (nm, is) ∷ after)
    → let texts = split_symbol_components (written new_arrays (before ++ (nm, is) ∷ after)) in
      (rem ≡ 0)
      × (read_indices types texts dims (suc (length (components new_arrays before))) 0 ≡ ok pos)
read_indices-decompose types new_arrays dims pos is rem before nm after h below fits names =
    let (inside, whole) = decompose-number dims pos is rem h in
    let nothing : rem ≡ 0 = no_remainder (number dims is) rem (product dims) pos whole below in
    let same : number dims is ≡ pos = omega (arith, ap (λ (t : ℕ). t * product dims) nothing) in
    let front = components new_arrays before in
    let rest = components new_arrays after in
    let items = map (index_component new_arrays) is in
    (
      nothing,
      ap (λ l. read_indices types l dims (suc (length front)) 0)
            (split-whole new_arrays before (nm, is) after names)
          ∙ read_indices-number types (front ++ (nm ∷ (items ++ rest))) new_arrays dims is
              (suc (length front)) 0 rest inside
              (λ j default. get_or-behind front nm (items ++ rest) j default) (omega arith)
          ∙ ap ok (omega arith),
    )
