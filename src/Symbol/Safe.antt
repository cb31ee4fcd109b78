-- ===== src/Symbol/Safe.antt =====
-- src/symbol.rs: `find_symbol` ends, and the one name component on which it panics.
use a2ltool.Prelude.{
  ℕ, zero, suc, Text, Option, none, some, Bool, List, [], ◌∷◌, ◌++◌, ◌==◌, length, get_elem?, ◌≡◌,
  ◌≢◌, inl, inr, refl, arith, Outcome, ok, err, panic, out_of_fuel, ◌>>=◌, Bool-cases, ap, ◌∙◌,
}
use mathlib.Core.List.{append_assoc}
use a2ltool.DebugInfo.{TypeInfo, DebugData, VarInfo, TypeTable}
use a2ltool.DebugInfo.UnitName.{map_get}
use a2ltool.Symbol.Info.{SymbolInfo, SymbolError}
use a2ltool.Symbol.Names.{AdditionalSpec, get_additional_spec, split_symbol_components}
use a2ltool.Symbol.Members.{find_membertype}
use a2ltool.Symbol.Lookup.{
  first_varinfo, select_varinfo, resolve_variable, or_first, find_symbol_from_components,
  find_mangled, find_split, find_symbol, untyped_symbol, resolve_typed, name_mangled,
  after_first_attempt,
}
use a2ltool.Symbol.Prefix.{
  BeginsWith, get_additional_spec-BeginsWith, split_symbol_components-first, strip_prefix-append,
}
use a2ltool.Symbol.Settles.{HasLoneUnderscore, find_membertype_settles}

-- No variable of the debug data has an empty list of entries.
abbrev pub HasEntries : DebugData → Type 0
HasEntries d = (key : Text) → map_get d.variables key ≢ some []

-- The components after the first have no "_" in vain: a panic needs one.
abbrev IsSafe {ℓ} : {A : Type ℓ} → List Text → Outcome SymbolError A → Type 0
IsSafe rest (ok a) = Unit
IsSafe rest (err e) = Unit
IsSafe rest panic = HasLoneUnderscore rest 0
IsSafe rest out_of_fuel = ⊥

IsSafe-bind {ℓ κ} :
    {A : Type ℓ} {B : Type κ} (rest : List Text) (m : Outcome SymbolError A)
    (f : A → Outcome SymbolError B)
    → IsSafe rest m
    → ((a : A) → IsSafe rest (f a))
    → IsSafe rest (m >>= f)
IsSafe-bind rest (ok a) f hm hf = hf a
IsSafe-bind rest (err e) f hm hf = tt
IsSafe-bind rest panic f hm hf = hm
IsSafe-bind rest out_of_fuel f hm hf = hm

IsSafe-cases {ℓ} :
    {A : Type ℓ} (rest : List Text) (m : Outcome SymbolError A)
    → m ≢ out_of_fuel
    → (m ≡ panic → HasLoneUnderscore rest 0)
    → IsSafe rest m
IsSafe-cases rest (ok a) ends why = tt
IsSafe-cases rest (err e) ends why = tt
IsSafe-cases rest panic ends why = why refl
IsSafe-cases rest out_of_fuel ends why = ends refl

lone_in_rest :
    (x : Text) (rest : List Text) → HasLoneUnderscore (x ∷ rest) 1 → HasLoneUnderscore rest 0
lone_in_rest x rest (zero, from, e) = absurd (omega arith)
lone_in_rest x rest (suc i, from, e) = (i, omega arith, e)

find_membertype-IsSafe :
    (types : TypeTable) (x : Text) (rest : List Text) (t : TypeInfo) (a : ℕ)
    → IsSafe rest (find_membertype types (x ∷ rest) t 1 a)
find_membertype-IsSafe types x rest t a =
    let (ends, why) = find_membertype_settles types (x ∷ rest) t 1 a in
    IsSafe-cases rest _ ends (λ e. lone_in_rest x rest (why e))

untyped_symbol-IsSafe :
    (rest : List Text) (vi : VarInfo) (unique : Bool) (components : List Text)
    → IsSafe rest (untyped_symbol vi unique components)
unfolding untyped_symbol
untyped_symbol-IsSafe rest vi unique components = elim (Bool-cases (length components == 1)) [
  | inl e ↦ rw e tt
  | inr e ↦ rw e tt
]

resolve_typed-IsSafe :
    (types : TypeTable) (x : Text) (rest : List Text) (vi : VarInfo) (unique : Bool)
    (t : Option TypeInfo)
    → IsSafe rest (resolve_typed types (x ∷ rest) vi unique t)
unfolding resolve_typed
resolve_typed-IsSafe types x rest vi unique (some t) =
    IsSafe-bind rest _ _ (find_membertype-IsSafe types x rest t vi.address) λ found. tt
resolve_typed-IsSafe types x rest vi unique none = untyped_symbol-IsSafe rest vi unique (x ∷ rest)

first_varinfo-IsSafe :
    (rest : List Text) (l : List VarInfo) → l ≢ [] → IsSafe rest (first_varinfo l)
first_varinfo-IsSafe rest [] h = absurd (h refl)
first_varinfo-IsSafe rest (vi ∷ l) h = tt

or_first-IsSafe :
    (rest : List Text) (found : Option VarInfo) (l : List VarInfo)
    → l ≢ []
    → IsSafe rest (or_first found l)
or_first-IsSafe rest (some vi) l h = tt
or_first-IsSafe rest none l h = first_varinfo-IsSafe rest l h

select_varinfo-IsSafe :
    (rest : List Text) (l : List VarInfo) (spec : Option AdditionalSpec) (d : DebugData)
    → l ≢ []
    → IsSafe rest (select_varinfo l spec d)
unfolding select_varinfo
select_varinfo-IsSafe rest l none d h = first_varinfo-IsSafe rest l h
select_varinfo-IsSafe rest l (some spec) d h = or_first-IsSafe rest _ l h

module _ (d : DebugData) (entries : HasEntries d) where
  resolve_variable-IsSafe :
      (x : Text) (rest : List Text) (spec : Option AdditionalSpec) (found : Option (List VarInfo))
      → map_get d.variables x ≡ found
      → IsSafe rest (resolve_variable d (x ∷ rest) spec x found)
  unfolding resolve_variable
  resolve_variable-IsSafe x rest spec none listed = tt
  resolve_variable-IsSafe x rest spec (some l) listed =
      IsSafe-bind rest _ _
        (select_varinfo-IsSafe rest l spec d (λ e. entries x (listed ∙ ap some e)))
        λ vi. resolve_typed-IsSafe d.types x rest vi _ _

  find_symbol_from_components-IsSafe :
      (x : Text) (rest : List Text) (spec : Option AdditionalSpec)
      → IsSafe rest (find_symbol_from_components (x ∷ rest) spec d)
  unfolding find_symbol_from_components
  find_symbol_from_components-IsSafe x rest spec = resolve_variable-IsSafe x rest spec _ refl

  name_mangled-IsSafe :
      (varname first mangled : Text) (rest : List Text) (e : SymbolError)
      (r : Outcome SymbolError SymbolInfo)
      → BeginsWith varname first
      → IsSafe rest r
      → IsSafe rest (name_mangled varname first mangled e r)
  unfolding name_mangled
  name_mangled-IsSafe varname first mangled rest e (ok s) (more, begins) safe =
      rw (begins, strip_prefix-append first more) tt
  name_mangled-IsSafe varname first mangled rest e (err e') begins safe = tt
  name_mangled-IsSafe varname first mangled rest e panic begins safe = safe
  name_mangled-IsSafe varname first mangled rest e out_of_fuel begins safe = safe

  find_mangled-IsSafe :
      (varname first : Text) (rest : List Text) (spec : Option AdditionalSpec) (e : SymbolError)
      (mangled : Option Text)
      → BeginsWith varname first
      → IsSafe rest (find_mangled varname first rest spec d e mangled)
  unfolding find_mangled
  find_mangled-IsSafe varname first rest spec e none begins = tt
  find_mangled-IsSafe varname first rest spec e (some mangled) begins =
      name_mangled-IsSafe varname first mangled rest e _ begins
        (find_symbol_from_components-IsSafe mangled rest spec)

  after_first_attempt-IsSafe :
      (varname plain first : Text) (rest : List Text) (spec : Option AdditionalSpec)
      (r : Outcome SymbolError SymbolInfo)
      → BeginsWith varname first
      → IsSafe rest r
      → IsSafe rest (after_first_attempt varname plain first rest spec d r)
  unfolding after_first_attempt
  after_first_attempt-IsSafe varname plain first rest spec (ok s) begins safe = tt
  after_first_attempt-IsSafe varname plain first rest spec (err e) begins safe =
      find_mangled-IsSafe varname first rest spec e _ begins
  after_first_attempt-IsSafe varname plain first rest spec panic begins safe = safe
  after_first_attempt-IsSafe varname plain first rest spec out_of_fuel begins safe = safe

  find_symbol-IsSafe :
      (varname : Text)
      → (first : Text) × (rest : List Text) × (split_symbol_components
            (get_additional_spec varname).0
          ≡ first ∷ rest)
        × IsSafe rest (find_symbol varname d)
  unfolding find_symbol find_split
  find_symbol-IsSafe varname =
      let (first, rest, split, (more, begins)) =
        split_symbol_components-first (get_additional_spec varname).0 in
      let (spec_text, whole) = get_additional_spec-BeginsWith varname in
      (
        first,
        rest,
        split,
        rw split (
            after_first_attempt-IsSafe varname _ first rest _ _
              (
                more ++ spec_text,
                whole
                    ∙ ap (λ (s : Text). s ++ spec_text) begins
                    ∙ append_assoc first more spec_text,
              )
              (find_symbol_from_components-IsSafe first rest _)),
      )

-- `find_symbol` returns a symbol or an error on every name, if each variable of the debug data has
-- an entry, unless a component of the name after the first is the text "_": without such a
-- component neither the index of the first component, nor the removal of the prefix, nor the slice
-- of an array index panics, and the search ends.
pub find_symbol-returns :
    (varname : Text) (d : DebugData)
    → HasEntries d
    → ((i : ℕ)
        → get_elem? (split_symbol_components (get_additional_spec varname).0) (suc i)
          ≢ some (b'_' ∷ []))
    → (find_symbol varname d ≢ panic) × (find_symbol varname d ≢ out_of_fuel)
find_symbol-returns varname d entries clean =
    let (first, rest, split, safe) = find_symbol-IsSafe d entries varname in
    (λ e. let (i, from, lone) = rw e at safe in clean i (rw split lone), λ e. rw e at safe)
