-- ===== src/Symbol/Resolution.antt =====
-- src/symbol.rs: what `find_symbol` returns, and when it panics.
use mathlib.Core.Path.{subst}
use a2ltool.Prelude.{
  ℕ, Text, Option, none, some, Bool, true, List, [], ◌∷◌, ◌==◌, length, strip_prefix, ◌≡◌, ◌⊎◌, inl,
  inr, refl, arith, Outcome, ok, err, >>=-eq-ok, Bool-cases, Option-cases, sym,
}
use a2ltool.DebugInfo.{TypeInfo, DebugData, VarInfo, TypeTable, type_info, uint8, usize_max}
use a2ltool.DebugInfo.UnitName.{map_get}
use a2ltool.Symbol.Info.{SymbolInfo, SymbolError}
use a2ltool.Symbol.Names.{AdditionalSpec}
use a2ltool.Symbol.Members.{find_membertype}
use a2ltool.Symbol.Lookup.{
  spec_matches, first_match, first_varinfo, select_varinfo, symbol_at, resolve_variable,
  find_symbol_from_components, mangled_name, renamed, find_mangled, find_split, find_symbol,
  untyped_symbol, resolve_typed, name_mangled, after_first_attempt,
}
use a2ltool.Symbol.SubObject.{SubObject, find_membertype-SubObject}

abbrev pub IsIn : {A : Type 0} → A → List A → Type 0
IsIn a [] = ⊥
IsIn a (x ∷ xs) = (a ≡ x) ⊎ IsIn a xs

-- The type of a variable that is missing from the table is a uint8.
abbrev pub IsPartOf : Option TypeInfo → TypeTable → VarInfo → TypeInfo → ℕ → Type 0
IsPartOf (some t) types vi typeinfo address = SubObject types t vi.address typeinfo address
IsPartOf none types vi typeinfo address =
    (address ≡ vi.address) × (typeinfo ≡ type_info none usize_max uint8 0)

-- The symbol is a part of a variable of the debug data, described with that variable's unit and
-- namespaces, and marked as unique if the variable's name stands for it alone.
abbrev pub IsResolved : DebugData → SymbolInfo → Type 0
IsResolved d s =
    (key : Text) × (varinfos : List VarInfo) × (vi : VarInfo) × (map_get d.variables key
      ≡ some varinfos)
    × IsIn vi varinfos
    × (s.unit_idx ≡ vi.unit_idx)
    × (s.namespaces ≡ vi.namespaces)
    × (s.is_unique ≡ (length varinfos == 1))
    × IsPartOf (d.types vi.typeref) d.types vi s.typeinfo s.address

first_varinfo-IsIn : (l : List VarInfo) {vi : VarInfo} → first_varinfo l ≡ ok vi → IsIn vi l
first_varinfo-IsIn [] h = cc
first_varinfo-IsIn (x ∷ xs) h = inl cc

first_match-IsIn :
    (p : VarInfo → Bool) (l : List VarInfo) {vi : VarInfo}
    → first_match p l ≡ some vi
    → IsIn vi l × (p vi ≡ true)
unfolding first_match
first_match-IsIn p [] h = cc
first_match-IsIn p (x ∷ xs) {vi} h = elim (Bool-cases (p x)) [
  | inl e ↦ let same : x ≡ vi = ground arith in (inl (sym same), rw (← same) e)
  | inr e ↦ let (isin, holds) = first_match-IsIn p xs (rw e at h) in (inr isin, holds)
]

select_varinfo-IsIn :
    (l : List VarInfo) (spec : Option AdditionalSpec) (d : DebugData) {vi : VarInfo}
    → select_varinfo l spec d ≡ ok vi
    → IsIn vi l
unfolding select_varinfo
select_varinfo-IsIn l none d h = first_varinfo-IsIn l h
select_varinfo-IsIn l (some spec) d {vi} h =
    elim (Option-cases (first_match (spec_matches d spec) l)) [
      | inl e ↦ first_varinfo-IsIn l (rw e at h)
      | inr (x, e) ↦
          let same : x ≡ vi = cc (rw e at h) in
          rw (← same) (first_match-IsIn (spec_matches d spec) l e).0
    ]

abbrev IsDescribed : TypeTable → VarInfo → Bool → Option TypeInfo → SymbolInfo → Type 0
IsDescribed types vi unique t s =
    (s.unit_idx ≡ vi.unit_idx)
    × (s.namespaces ≡ vi.namespaces)
    × (s.is_unique ≡ unique)
    × IsPartOf t types vi s.typeinfo s.address

untyped_symbol-IsDescribed :
    (types : TypeTable) (vi : VarInfo) (unique : Bool) (components : List Text) (s : SymbolInfo)
    → untyped_symbol vi unique components ≡ ok s
    → IsDescribed types vi unique none s
unfolding untyped_symbol
untyped_symbol-IsDescribed types vi unique components s h = ground arith

resolve_typed-IsDescribed :
    (types : TypeTable) (components : List Text) (vi : VarInfo) (unique : Bool)
    (t : Option TypeInfo) (s : SymbolInfo)
    → resolve_typed types components vi unique t ≡ ok s
    → IsDescribed types vi unique t s
unfolding resolve_typed
resolve_typed-IsDescribed types components vi unique (some t) s h =
    let ((a, u), found, made) =
      >>=-eq-ok (find_membertype types components t 1 vi.address)
        (λ (r : ℕ × TypeInfo). ok (symbol_at vi unique r)) h in
    let same : symbol_at vi unique (a, u) ≡ s = cc in
    subst (IsDescribed types vi unique (some t)) same
      (refl, refl, refl, find_membertype-SubObject types components t 1 vi.address a u found)
resolve_typed-IsDescribed types components vi unique none s h =
    untyped_symbol-IsDescribed types vi unique components s h

module _ (d : DebugData) where
  resolve_variable-IsResolved :
      (components : List Text) (spec : Option AdditionalSpec) (variable : Text)
      (found : Option (List VarInfo)) (s : SymbolInfo)
      → map_get d.variables variable ≡ found
      → resolve_variable d components spec variable found ≡ ok s
      → IsResolved d s
  unfolding resolve_variable
  resolve_variable-IsResolved components spec variable none s listed h = cc
  resolve_variable-IsResolved components spec variable (some varinfos) s listed h =
      let (vi, selected, h') =
        >>=-eq-ok (select_varinfo varinfos spec d)
          (λ (vi : VarInfo).
            resolve_typed d.types components vi (length varinfos == 1) (d.types vi.typeref))
          h in
      let (units, spaces, unique, part) =
        resolve_typed-IsDescribed d.types components vi _ _ s h' in
      (
        variable,
        varinfos,
        vi,
        listed,
        select_varinfo-IsIn varinfos spec d selected,
        units,
        spaces,
        unique,
        part,
      )

  find_symbol_from_components-IsResolved :
      (components : List Text) (spec : Option AdditionalSpec) (s : SymbolInfo)
      → find_symbol_from_components components spec d ≡ ok s
      → IsResolved d s
  unfolding find_symbol_from_components
  find_symbol_from_components-IsResolved [] spec s h = cc
  find_symbol_from_components-IsResolved (variable ∷ rest) spec s h =
      resolve_variable-IsResolved (variable ∷ rest) spec variable _ s refl h

  name_mangled-IsResolved :
      (varname first mangled : Text) (e : SymbolError) (r : Outcome SymbolError SymbolInfo)
      (s : SymbolInfo)
      → ((s' : SymbolInfo) → r ≡ ok s' → IsResolved d s')
      → name_mangled varname first mangled e r ≡ ok s
      → IsResolved d s
  unfolding name_mangled
  name_mangled-IsResolved varname first mangled e (ok s') s resolved h =
      let (nm, named, made) =
        >>=-eq-ok (mangled_name mangled (strip_prefix first varname))
          (λ (nm : Text). ok (renamed nm s')) h in
      let same : renamed nm s' ≡ s = cc in subst (IsResolved d) same (resolved s' refl)
  name_mangled-IsResolved varname first mangled e _ s resolved h = cc

  find_mangled-IsResolved :
      (varname first : Text) (rest : List Text) (spec : Option AdditionalSpec) (e : SymbolError)
      (mangled : Option Text) (s : SymbolInfo)
      → find_mangled varname first rest spec d e mangled ≡ ok s
      → IsResolved d s
  unfolding find_mangled
  find_mangled-IsResolved varname first rest spec e none s h = cc
  find_mangled-IsResolved varname first rest spec e (some mangled) s h =
      name_mangled-IsResolved varname first mangled e _ s
        (λ s' p. find_symbol_from_components-IsResolved (mangled ∷ rest) spec s' p) h

  after_first_attempt-IsResolved :
      (varname plain first : Text) (rest : List Text) (spec : Option AdditionalSpec)
      (r : Outcome SymbolError SymbolInfo) (s : SymbolInfo)
      → ((s' : SymbolInfo) → r ≡ ok s' → IsResolved d s')
      → after_first_attempt varname plain first rest spec d r ≡ ok s
      → IsResolved d s
  unfolding after_first_attempt
  after_first_attempt-IsResolved varname plain first rest spec (ok s') s resolved h =
      let same : renamed plain s' ≡ s = cc in subst (IsResolved d) same (resolved s' refl)
  after_first_attempt-IsResolved varname plain first rest spec (err e) s resolved h =
      find_mangled-IsResolved varname first rest spec e _ s h
  after_first_attempt-IsResolved varname plain first rest spec _ s resolved h = cc

  find_split-IsResolved :
      (varname plain : Text) (components : List Text) (spec : Option AdditionalSpec)
      (s : SymbolInfo)
      → find_split varname plain components spec d ≡ ok s
      → IsResolved d s
  unfolding find_split
  find_split-IsResolved varname plain [] spec s h = cc
  find_split-IsResolved varname plain (first ∷ rest) spec s h =
      after_first_attempt-IsResolved varname plain first rest spec _ s
        (λ s' p. find_symbol_from_components-IsResolved (first ∷ rest) spec s' p) h

-- A symbol that `find_symbol` returns is a part of one of the variables of the debug data: a
-- sub-object of it, or, where the type of the variable is missing, the variable as a uint8. The
-- unit and the namespaces are that variable's, and the symbol is unique exactly if the variable's
-- name has one entry.
pub find_symbol-IsResolved :
    (varname : Text) (d : DebugData) (s : SymbolInfo)
    → find_symbol varname d ≡ ok s
    → IsResolved d s
unfolding find_symbol
find_symbol-IsResolved varname d s h = find_split-IsResolved d varname _ _ _ s h
