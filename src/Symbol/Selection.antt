-- ===== src/Symbol/Selection.antt =====
-- src/symbol.rs: which entry of a variable `select_varinfo` takes.
use a2ltool.Prelude.{
  Text, Option, none, some, Bool, true, false, ◌&&◌, ◌||◌, not, is_some, List, [], ◌∷◌, ok,
  opt_text_eq, opt_text_eq_iff, texts_eq_iff, Bool-cases, inl, inr, ◌⊎◌, ◌≡◌, refl, sym, ◌∙◌, arith,
}
use a2ltool.DebugInfo.{DebugData, VarInfo}
use a2ltool.DebugInfo.UnitName.{make_simple_unit_name}
use a2ltool.Symbol.Names.{AdditionalSpec}
use a2ltool.Symbol.Lookup.{spec_matches, first_match, select_varinfo}

-- The value is the one that is asked for, if any is.
abbrev pub IsAsked : Option Text → Option Text → Type 0
IsAsked wanted o = (t : Text) → wanted ≡ some t → o ≡ some t

-- The entry is in the unit and the function of the specification, where it has them, and in exactly
-- its namespaces.
abbrev pub Fits : DebugData → AdditionalSpec → VarInfo → Type 0
Fits d spec vi =
    IsAsked spec.simple_unit_name (make_simple_unit_name d vi.unit_idx)
    × IsAsked spec.function_name vi.function
    × (vi.namespaces ≡ spec.namespaces)

abbrev pub NoneFits : DebugData → AdditionalSpec → List VarInfo → Type 0
NoneFits d spec [] = Unit
NoneFits d spec (vi ∷ l) = (Fits d spec vi → ⊥) × NoneFits d spec l

-- The entry is the first of the list that fits.
abbrev pub IsFirstFit : DebugData → AdditionalSpec → List VarInfo → VarInfo → Type 0
IsFirstFit d spec [] vi = ⊥
IsFirstFit d spec (x ∷ l) vi =
    (Fits d spec x × (vi ≡ x)) ⊎ ((Fits d spec x → ⊥) × IsFirstFit d spec l vi)

value_required :
    (wanted o : Option Text)
    → (not (is_some wanted) || opt_text_eq wanted o) ≡ true
    → IsAsked wanted o
value_required none o h t e = cc
value_required (some w) o h t e = sym ((opt_text_eq_iff (some w) o).0 h) ∙ e

value_differs :
    (wanted o : Option Text)
    → (not (is_some wanted) || opt_text_eq wanted o) ≡ false
    → IsAsked wanted o
    → ⊥
value_differs none o h asked = cc
value_differs (some w) o h asked =
    let same = (opt_text_eq_iff (some w) o).1 (sym (asked w refl)) in let clash = sym h ∙ same in cc

all_three : (a b c : Bool) → (a && (b && c)) ≡ true → (a ≡ true) × (b ≡ true) × (c ≡ true)
all_three a b c h = ground arith

one_of_three : (a b c : Bool) → (a && (b && c)) ≡ false → (a ≡ false) ⊎ ((b ≡ false) ⊎ (c ≡ false))
one_of_three a b c h = ground arith

spec_matches-Fits :
    (d : DebugData) (spec : AdditionalSpec) (vi : VarInfo)
    → spec_matches d spec vi ≡ true
    → Fits d spec vi
unfolding spec_matches
spec_matches-Fits d spec vi h =
    let (unit, function, namespaces) = all_three _ _ _ h in
    (
      value_required spec.simple_unit_name (make_simple_unit_name d vi.unit_idx) unit,
      value_required spec.function_name vi.function function,
      sym ((texts_eq_iff spec.namespaces vi.namespaces).0 namespaces),
    )

spec_matches-not_Fits :
    (d : DebugData) (spec : AdditionalSpec) (vi : VarInfo)
    → spec_matches d spec vi ≡ false
    → Fits d spec vi
    → ⊥
unfolding spec_matches
spec_matches-not_Fits d spec vi h (unit, function, namespaces) = elim (one_of_three _ _ _ h) [
  | inl no_unit ↦
      value_differs spec.simple_unit_name (make_simple_unit_name d vi.unit_idx) no_unit unit
  | inr (inl no_function) ↦ value_differs spec.function_name vi.function no_function function
  | inr (inr differ) ↦
      (let clash = sym differ ∙ (texts_eq_iff spec.namespaces vi.namespaces).1 (sym namespaces) in
        cc)
]

-- What the loop finds.
first_match-cases :
    (d : DebugData) (spec : AdditionalSpec) (l : List VarInfo)
    → ((vi : VarInfo) × (first_match (spec_matches d spec) l ≡ some vi) × IsFirstFit d spec l vi)
      ⊎ ((first_match (spec_matches d spec) l ≡ none) × NoneFits d spec l)
unfolding first_match
first_match-cases d spec [] = inr (refl, tt)
first_match-cases d spec (x ∷ l) = elim (Bool-cases (spec_matches d spec x)) [
  | inl fits ↦ inl (x, rw fits refl, inl (spec_matches-Fits d spec x fits, refl))
  | inr differs ↦
      let no = spec_matches-not_Fits d spec x differs in
      elim (first_match-cases d spec l) [
        | inl (vi, found, first) ↦ inl (vi, rw differs found, inr (no, first))
        | inr (nothing, none_fits) ↦ inr (rw differs nothing, (no, none_fits))
      ]
]

-- With a specification, the entry that is taken is the first one in its unit, where the
-- specification has one, in its function, where it has one, and in exactly its namespaces; if there
-- is none, the first entry of the variable is taken.
pub select_varinfo_lem :
    (d : DebugData) (spec : AdditionalSpec) (first : VarInfo) (rest : List VarInfo)
    → (vi : VarInfo) × (select_varinfo (first ∷ rest) (some spec) d ≡ ok vi)
      × (IsFirstFit d spec (first ∷ rest) vi ⊎ (NoneFits d spec (first ∷ rest) × (vi ≡ first)))
unfolding select_varinfo
select_varinfo_lem d spec first rest = elim (first_match-cases d spec (first ∷ rest)) [
  | inl (vi, found, fits) ↦ (vi, rw found refl, inl fits)
  | inr (nothing, none_fits) ↦ (first, rw nothing refl, inr (none_fits, refl))
]
