-- ===== src/Prelude/Strs.antt =====
-- The functions of Rust's `str` that the program calls, on lists of code points.
use Prim.Native.Nat.{ℕ, ◌+◌, ◌*◌, ◌-◌, ◌^◌}
use mathlib.Core.Bool.{Bool, true, false, ◌&&◌}
use mathlib.Core.List.{List, [], ◌∷◌, ◌++◌}
use mathlib.Core.Option.{Option, none, some}
use a2ltool.Prelude.Tests.{◌==◌, ltb, leb, if◌then◌else◌}
use a2ltool.Prelude.Texts.{Text}

-- `find(c)` and `split_at` there: what stands before the first `c`, and what begins with it.
unfoldable pub split_at_first : ℕ → Text → Option (Text × Text)
split_at_first c [] = none
split_at_first c (x ∷ xs) =
    let rest = split_at_first c xs in
    if x == c
    then some ([], x ∷ xs)
    else elim rest [ none ↦ none | some (before, after) ↦ some (x ∷ before, after) ]

abbrev pub add_front : ℕ → List Text → List Text
add_front x [] = (x ∷ []) ∷ []
add_front x (piece ∷ pieces) = (x ∷ piece) ∷ pieces

-- `split(c)`
unfoldable pub split_on : ℕ → Text → List Text
split_on c [] = [] ∷ []
split_on c (x ∷ xs) = let rest = split_on c xs in if x == c then [] ∷ rest else add_front x rest

-- `split_inclusive(c)`: each piece keeps its `c`, and no empty piece stands at the end.
unfoldable pub split_inclusive : ℕ → Text → List Text
split_inclusive c [] = []
split_inclusive c (x ∷ xs) =
    let rest = split_inclusive c xs in if x == c then (x ∷ []) ∷ rest else add_front x rest

-- `split` on a pattern of the two characters `a` and `b`.
unfoldable pub split_on_pair : ℕ → ℕ → Text → List Text
split_on_pair a b [] = [] ∷ []
split_on_pair a b (x ∷ []) = (x ∷ []) ∷ []
split_on_pair a b (x ∷ y ∷ r) =
    let after = split_on_pair a b r in
    let from_y = split_on_pair a b (y ∷ r) in
    if x == a && y == b then [] ∷ after else add_front x from_y

unfoldable pub strip_prefix : Text → Text → Option Text
strip_prefix [] s = some s
strip_prefix (p ∷ ps) [] = none
strip_prefix (p ∷ ps) (x ∷ xs) = let rest = strip_prefix ps xs in if p == x then rest else none

-- `strip_suffix(c)`
unfoldable pub strip_last : ℕ → Text → Option Text
strip_last c [] = none
strip_last c (x ∷ []) = if x == c then some [] else none
strip_last c (x ∷ y ∷ r) = elim (strip_last c (y ∷ r)) [ none ↦ none | some s ↦ some (x ∷ s) ]

abbrev pub is_some {ℓ} : {A : Type ℓ} → Option A → Bool
is_some none = false
is_some (some a) = true

abbrev pub starts_with : ℕ → Text → Bool
starts_with c [] = false
starts_with c (x ∷ xs) = x == c

unfoldable pub ends_with : ℕ → Text → Bool
unfolding strip_last
ends_with c s = is_some (strip_last c s)

-- The text without its last character.
unfoldable pub init : Text → Text
init [] = []
init (x ∷ []) = []
init (x ∷ y ∷ r) = x ∷ init (y ∷ r)

-- `rfind(c)` and the slice after it.
unfoldable pub after_last : ℕ → Text → Option Text
after_last c [] = none
after_last c (x ∷ xs) = elim (after_last c xs) [
  | none ↦ (if x == c then some xs else none)
  | some s ↦ some s
]

-- `replace(from, to)` on single characters.
unfoldable pub replace_char : ℕ → ℕ → Text → Text
replace_char from to [] = []
replace_char from to (x ∷ xs) = (if x == from then to else x) ∷ replace_char from to xs

unfoldable pub parse_digits : ℕ → Text → Option ℕ
parse_digits acc [] = some acc
parse_digits acc (c ∷ cs) =
    let n = acc * 10 + (c - b'0') in
    let rest = parse_digits n cs in
    if leb b'0' c && leb c b'9' then (if ltb n (2 ^ 64) then rest else none) else none

abbrev pub parse_unsigned : Text → Option ℕ
parse_unsigned [] = none
parse_unsigned (c ∷ cs) = parse_digits 0 (c ∷ cs)

-- `parse::<usize>()`: a `+` may stand in front; no digit, another character or a value past the
-- range is an error.
unfoldable pub parse_usize : Text → Option ℕ
unfolding parse_digits
parse_usize [] = none
parse_usize (c ∷ cs) = if c == b'+' then parse_unsigned cs else parse_unsigned (c ∷ cs)

-- `join(sep)`
unfoldable pub join : Text → List Text → Text
join sep [] = []
join sep (piece ∷ []) = piece
join sep (piece ∷ next ∷ pieces) = piece ++ sep ++ join sep (next ∷ pieces)

abbrev pub found_here : Option Text → ℕ → Option (Text × Text) → Option (Text × Text)
found_here (some after) x rest = some ([], after)
found_here none x none = none
found_here none x (some (before, after)) = some (x ∷ before, after)

-- `find(pattern)`: what stands before the first occurrence, and what stands after it.
unfoldable pub find_text : Text → Text → Option (Text × Text)
unfolding strip_prefix
find_text pattern [] = elim (strip_prefix pattern []) [
  | none ↦ none
  | some after ↦ some ([], after)
]
find_text pattern (x ∷ xs) = found_here (strip_prefix pattern (x ∷ xs)) x (find_text pattern xs)

-- `replacen(from, to, 1)`
unfoldable pub replace_first : Text → Text → Text → Text
unfolding find_text
replace_first from to s = elim (find_text from s) [
  | none ↦ s
  | some (before, after) ↦ before ++ to ++ after
]
