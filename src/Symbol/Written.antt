-- ===== src/Symbol/Written.antt =====
-- src/symbol.rs: the names that src/debuginfo/iter.rs writes, and their components.
use mathlib.Core.List.{append_assoc, append-nil}
use a2ltool.Prelude.{
  ℕ, zero, suc, ◌+◌, ◌/◌, ◌%◌, ◌<◌, Text, codes, none, some, Bool, true, false, List, [], ◌∷◌, ◌++◌,
  map, ◌==◌, ◌≡◌, refl, sym, ap, ◌∙◌, Bool-cases, inl, inr, ==_refl, arith, add_front,
  split_at_first, split_on, split_inclusive, to_decimal, decimal_loop, ltb,
}
use a2ltool.TypeIter.{write_index, write_indices}
use a2ltool.Symbol.Names.{split_indices, split_all, split_symbol_components}
use a2ltool.Symbol.Digits.{index_component}

-- The character does not occur in the text.
abbrev pub Lacks : ℕ → Text → Type 0
Lacks c [] = Unit
Lacks c (x ∷ xs) = ((x == c) ≡ false) × Lacks c xs

abbrev pub AllLack : ℕ → List Text → Type 0
AllLack c [] = Unit
AllLack c (p ∷ ps) = Lacks c p × AllLack c ps

abbrev pub IsNonempty : List Text → Type 0
IsNonempty [] = ⊥
IsNonempty (p ∷ ps) = Unit

-- A variable or a member, with the indices of an element if it is an array.
abbrev pub Part : Type 0
Part = Text × List ℕ

-- The name of a path, in which a dot stands between two parts.
abbrev pub written : Bool → List Part → Text
written new_arrays [] = []
written new_arrays ((nm, is) ∷ []) = write_indices new_arrays nm is
written new_arrays ((nm, is) ∷ part ∷ parts) =
    write_indices new_arrays nm is ++ b'.' ∷ written new_arrays (part ∷ parts)

-- Each name and each index is a component.
abbrev pub components : Bool → List Part → List Text
components new_arrays [] = []
components new_arrays ((nm, is) ∷ parts) =
    (nm ∷ map (index_component new_arrays) is) ++ components new_arrays parts

-- Names without a dot and an opening bracket.
abbrev pub AreNames : List Part → Type 0
AreNames [] = Unit
AreNames ((nm, is) ∷ parts) = Lacks b'.' nm × Lacks b'[' nm × AreNames parts

Lacks-append : (c : ℕ) (p q : Text) → Lacks c p → Lacks c q → Lacks c (p ++ q)
Lacks-append c [] q h k = k
Lacks-append c (x ∷ p) q (other, h) k = (other, Lacks-append c p q h k)

-- The character is no digit.
abbrev IsNoDigit : ℕ → Type 0
IsNoDigit c = (d : ℕ) → d < 10 → ((48 + d) == c) ≡ false

decimal_loop-Lacks :
    (c f n : ℕ) (rest : Text) → IsNoDigit c → Lacks c rest → Lacks c (decimal_loop f n rest)
unfolding decimal_loop
decimal_loop-Lacks c zero n rest other h = h
decimal_loop-Lacks c (suc f) n rest other h =
    let now : Lacks c ((48 + n % 10) ∷ rest) = (other (n % 10) (omega arith), h) in
    elim (Bool-cases (ltb n 10)) [
      | inl small ↦ rw small now
      | inr big ↦ rw big (decimal_loop-Lacks c f (n / 10) ((48 + n % 10) ∷ rest) other now)
    ]

to_decimal-Lacks : (c n : ℕ) → IsNoDigit c → Lacks c (to_decimal n)
unfolding to_decimal
to_decimal-Lacks c n other = decimal_loop-Lacks c (suc n) n [] other tt

dot-IsNoDigit : IsNoDigit b'.'
dot-IsNoDigit d h = ground arith

bracket-IsNoDigit : IsNoDigit b'['
bracket-IsNoDigit d h = ground arith

closing-IsNoDigit : IsNoDigit b']'
closing-IsNoDigit d h = ground arith

IsNonempty-add_front : (x : ℕ) (ps : List Text) → IsNonempty (add_front x ps)
IsNonempty-add_front x [] = tt
IsNonempty-add_front x (p ∷ ps) = tt

split_on-IsNonempty : (c : ℕ) (s : Text) → IsNonempty (split_on c s)
unfolding split_on
split_on-IsNonempty c [] = tt
split_on-IsNonempty c (x ∷ xs) = elim (Bool-cases (x == c)) [
  | inl e ↦ rw e tt
  | inr e ↦ rw e (IsNonempty-add_front x (split_on c xs))
]

add_front-append :
    (x : ℕ) (ps qs : List Text) → IsNonempty ps → add_front x (ps ++ qs) ≡ add_front x ps ++ qs
add_front-append x [] qs h = absurd h
add_front-append x (p ∷ ps) qs h = refl

split_on-append : (c : ℕ) (a b : Text) → split_on c (a ++ c ∷ b) ≡ split_on c a ++ split_on c b
unfolding split_on
split_on-append c [] b = rw (==_refl c) refl
split_on-append c (x ∷ a) b = elim (Bool-cases (x == c)) [
  | inl e ↦ rw (e, split_on-append c a b) refl
  | inr e ↦
      rw (e, split_on-append c a b)
        (add_front-append x (split_on c a) (split_on c b) (split_on-IsNonempty c a))
]

split_on-Lacks : (c : ℕ) (s : Text) → Lacks c s → split_on c s ≡ s ∷ []
unfolding split_on
split_on-Lacks c [] h = refl
split_on-Lacks c (x ∷ s) (other, h) = rw (other, split_on-Lacks c s h) refl

split_at_first-none : (c : ℕ) (s : Text) → Lacks c s → split_at_first c s ≡ none
unfolding split_at_first
split_at_first-none c [] h = refl
split_at_first-none c (x ∷ xs) (hx, h) = rw (hx, split_at_first-none c xs h)

split_indices-Lacks : (p : Text) → Lacks b'[' p → split_indices p ≡ p ∷ []
unfolding split_indices
split_indices-Lacks p h = rw (split_indices, split_at_first-none b'[' p h)

split_at_first-Lacks :
    (c : ℕ) (s r : Text) → Lacks c s → split_at_first c (s ++ c ∷ r) ≡ some (s, c ∷ r)
unfolding split_at_first
split_at_first-Lacks c [] r h = rw (==_refl c) refl
split_at_first-Lacks c (x ∷ s) r (other, h) = rw (other, split_at_first-Lacks c s r h) refl

split_inclusive-Lacks :
    (c : ℕ) (p r : Text)
    → Lacks c p
    → split_inclusive c (p ++ c ∷ r) ≡ (p ++ c ∷ []) ∷ split_inclusive c r
unfolding split_inclusive
split_inclusive-Lacks c [] r h = rw (==_refl c) refl
split_inclusive-Lacks c (x ∷ p) r (other, h) = rw (other, split_inclusive-Lacks c p r h) refl

split_all-append : (xs ys : List Text) → split_all (xs ++ ys) ≡ split_all xs ++ split_all ys
unfolding split_all
split_all-append [] ys = refl
split_all-append (x ∷ xs) ys =
    ap (λ l. split_indices x ++ l) (split_all-append xs ys)
    ∙ sym (append_assoc (split_indices x) (split_all xs) (split_all ys))

-- A text without a dot and a bracket is one component.
split-one : (s : Text) → Lacks b'.' s → Lacks b'[' s → split_all (split_on b'.' s) ≡ s ∷ []
unfolding split_all
split-one s no_dot no_bracket =
    rw (split_on-Lacks b'.' s no_dot, split_indices-Lacks s no_bracket) refl

underscored-Lacks : (c i : ℕ) → IsNoDigit c → (95 == c) ≡ false → Lacks c (index_component false i)
underscored-Lacks c i other h =
    Lacks-append c (b'_' ∷ to_decimal i) (b'_' ∷ []) (h, to_decimal-Lacks c i other) (h, tt)

dotted :
    (output d : Text)
    → output ++ codes "._" ++ d ++ codes "_" ≡ output ++ b'.' ∷ (codes "_" ++ d ++ codes "_")
dotted output d = simp append_assoc

write_index-dot :
    (output : Text) (i : ℕ) → write_index false output i ≡ output ++ b'.' ∷ index_component false i
unfolding write_index
write_index-dot output i = dotted output (to_decimal i)

-- Indices that are written as `._i_`, after any text.
split-underscored :
    (output : Text) (is : List ℕ)
    → split_all (split_on b'.' (write_indices false output is))
      ≡ split_all (split_on b'.' output) ++ map (index_component false) is
unfolding write_indices
split-underscored output [] = sym (append-nil (split_all (split_on b'.' output)))
split-underscored output (i ∷ is) =
    let item = index_component false i in
    let whole = write_index-dot output i in
    let first : split_all (split_on b'.' (write_index false output i))
        ≡ split_all (split_on b'.' output) ++ item ∷ [] =
      ap (λ t. split_all (split_on b'.' t)) whole
      ∙ ap split_all (split_on-append b'.' output item)
      ∙ split_all-append (split_on b'.' output) (split_on b'.' item)
      ∙ ap (λ l. split_all (split_on b'.' output) ++ l)
          (split-one item (underscored-Lacks b'.' i dot-IsNoDigit refl)
            (underscored-Lacks b'[' i bracket-IsNoDigit refl)) in
    split-underscored (write_index false output i) is
    ∙ ap (λ l. l ++ map (index_component false) is) first
    ∙ append_assoc (split_all (split_on b'.' output)) (item ∷ []) (map (index_component false) is)

-- The indices that are written as `[i]`.
abbrev brackets : List ℕ → Text
brackets [] = []
brackets (i ∷ is) = index_component true i ++ brackets is

write_indices-brackets :
    (output : Text) (is : List ℕ) → write_indices true output is ≡ output ++ brackets is
unfolding write_indices write_index
write_indices-brackets output [] = sym (append-nil output)
write_indices-brackets output (i ∷ is) =
    write_indices-brackets (write_index true output i) is
    ∙ shape output (to_decimal i) (brackets is)
  where
    shape :
        (output d rest : Text)
        → (output ++ codes "[" ++ d ++ codes "]") ++ rest
          ≡ output ++ ((codes "[" ++ d ++ codes "]") ++ rest)
    shape output d rest = simp append_assoc

brackets-Lacks : (is : List ℕ) → Lacks b'.' (brackets is)
brackets-Lacks [] = tt
brackets-Lacks (i ∷ is) =
    Lacks-append b'.' (index_component true i) (brackets is)
      (Lacks-append b'.' (b'[' ∷ to_decimal i) (b']' ∷ [])
        (refl, to_decimal-Lacks b'.' i dot-IsNoDigit) (refl, tt))
      (brackets-Lacks is)

split_inclusive-brackets :
    (is : List ℕ) → split_inclusive b']' (brackets is) ≡ map (index_component true) is
split_inclusive-brackets [] = unfold split_inclusive in refl
split_inclusive-brackets (i ∷ is) =
    let body = b'[' ∷ to_decimal i in
    let lacks : Lacks b']' body = (refl, to_decimal-Lacks b']' i closing-IsNoDigit) in
    ap (split_inclusive b']') (append_assoc body (b']' ∷ []) (brackets is))
    ∙ split_inclusive-Lacks b']' body (brackets is) lacks
    ∙ ap (λ l. index_component true i ∷ l) (split_inclusive-brackets is)

split_indices-bracket :
    (nm r : Text)
    → Lacks b'[' nm
    → split_indices (nm ++ b'[' ∷ r) ≡ nm ∷ split_inclusive b']' (b'[' ∷ r)
unfolding split_indices
split_indices-bracket nm r h = rw (split_indices, split_at_first-Lacks b'[' nm r h) refl

split-bracketed :
    (nm : Text) (is : List ℕ)
    → Lacks b'.' nm
    → Lacks b'[' nm
    → split_all (split_on b'.' (nm ++ brackets is)) ≡ nm ∷ map (index_component true) is
unfolding split_all
split-bracketed nm [] no_dot no_bracket = rw (append-nil nm) (split-one nm no_dot no_bracket)
split-bracketed nm (i ∷ is) no_dot no_bracket =
    ap split_all (
      split_on-Lacks b'.' (nm ++ brackets (i ∷ is))
        (Lacks-append b'.' nm (brackets (i ∷ is)) no_dot (brackets-Lacks (i ∷ is))))
    ∙ append-nil (split_indices (nm ++ brackets (i ∷ is)))
    ∙ split_indices-bracket nm ((to_decimal i ++ codes "]") ++ brackets is) no_bracket
    ∙ ap (λ l. nm ∷ l) (split_inclusive-brackets (i ∷ is))

split-part :
    (new_arrays : Bool) (nm : Text) (is : List ℕ)
    → Lacks b'.' nm
    → Lacks b'[' nm
    → split_all (split_on b'.' (write_indices new_arrays nm is))
      ≡ nm ∷ map (index_component new_arrays) is
split-part true nm is no_dot no_bracket =
    ap (λ t. split_all (split_on b'.' t)) (write_indices-brackets nm is)
    ∙ split-bracketed nm is no_dot no_bracket
split-part false nm is no_dot no_bracket =
    split-underscored nm is
    ∙ ap (λ l. l ++ map (index_component false) is) (split-one nm no_dot no_bracket)

-- The name of a path, with the indices of each part as `write_indices` writes them in either
-- notation and a dot between two parts, is split into the names of its parts and, after each, its
-- indices one by one, where no name contains a dot or an opening bracket.
pub split_symbol_components-written :
    (new_arrays : Bool) (part : Part) (parts : List Part)
    → AreNames (part ∷ parts)
    → split_symbol_components (written new_arrays (part ∷ parts))
      ≡ components new_arrays (part ∷ parts)
unfolding split_symbol_components
split_symbol_components-written new_arrays (nm, is) [] (no_dot, no_bracket, h) =
    split-part new_arrays nm is no_dot no_bracket
    ∙ sym (append-nil (nm ∷ map (index_component new_arrays) is))
split_symbol_components-written new_arrays (nm, is) (part ∷ parts) (no_dot, no_bracket, h) =
    let rest = written new_arrays (part ∷ parts) in
    let text = write_indices new_arrays nm is in
    ap split_all (split_on-append b'.' text rest)
    ∙ split_all-append (split_on b'.' text) (split_on b'.' rest)
    ∙ ap (λ l. l ++ split_all (split_on b'.' rest)) (split-part new_arrays nm is no_dot no_bracket)
    ∙ ap (λ l. (nm ∷ map (index_component new_arrays) is) ++ l)
        (split_symbol_components-written new_arrays part parts h)
