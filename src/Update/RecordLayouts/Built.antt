-- ===== src/Update/RecordLayouts/Built.antt =====
-- src/update/record_layout.rs: the index and the counts that `RecordLayoutInfo::build` makes.
use a2ltool.Prelude.{
  ℕ, zero, suc, ◌+◌, Text, Option, none, some, false, List, [], ◌∷◌, length, get_elem?, text_eq,
  text_eq_sound, ◌≡◌, refl, sym, ap, ◌∙◌, Bool-cases, inl, inr, ◌⊎◌, arith,
}
use mathlib.Core.Path.{subst}
use a2ltool.DebugInfo.UnitName.{map_get}
use a2ltool.A2l.{Module, RecordLayout}
use a2ltool.Update.Fields.{contains}
use a2ltool.Remove.Unique.{IsUnique}
use a2ltool.Update.RecordLayouts.Build.{
  index_names, names_of, count_use, count_uses, zeros, build, used_names,
}
use a2ltool.Update.RecordLayouts.Store.{increase}
use a2ltool.Update.RecordLayouts.Entries.{length-update_at}
use a2ltool.Update.RecordLayouts.Indexed.{IsIndexed, map_get-first, map_get-later}

index_names-other :
    (i : ℕ) (names : List Text) (entries : List (Text × ℕ)) (key : Text)
    → contains names key ≡ false
    → map_get (index_names i names entries) key ≡ map_get entries key
unfolding index_names contains
index_names-other i [] entries key h = refl
index_names-other i (nm ∷ names) entries key h =
    index_names-other (suc i) names ((nm, i) ∷ entries) key (ground arith)
    ∙ map_get-later entries nm key i (ground arith)

index_names-at :
    (i p : ℕ) (names : List Text) (entries : List (Text × ℕ)) (key : Text)
    → IsUnique names
    → get_elem? names p ≡ some key
    → map_get (index_names i names entries) key ≡ some (i + p)
unfolding index_names
index_names-at i p [] entries key h e = cc
index_names-at i zero (nm ∷ names) entries key (first, h) e =
    let same : nm ≡ key = cc in
    index_names-other (suc i) names ((nm, i) ∷ entries) key (ap (contains names) (sym same) ∙ first)
    ∙ ap (map_get ((nm, i) ∷ entries)) (sym same)
    ∙ map_get-first entries nm i
    ∙ ap some (omega arith)
index_names-at i (suc p) (nm ∷ names) entries key (first, h) e =
    index_names-at (suc i) p names ((nm, i) ∷ entries) key h e ∙ ap some (omega arith)

index_names-cases :
    (i j : ℕ) (names : List Text) (entries : List (Text × ℕ)) (key : Text)
    → map_get (index_names i names entries) key ≡ some j
    → ((p : ℕ) × (j ≡ i + p) × (get_elem? names p ≡ some key)) ⊎ (map_get entries key ≡ some j)
unfolding index_names
index_names-cases i j [] entries key h = inr h
index_names-cases i j (nm ∷ names) entries key h =
    elim (index_names-cases (suc i) j names ((nm, i) ∷ entries) key h) [
      | inl (p, e, there) ↦ inl (suc p, omega arith, there)
      | inr before ↦ elim (Bool-cases (text_eq nm key)) [
        | inl same ↦
            let e = text_eq_sound nm key same in
            let at_i : ◌≡◌ {A = Option ℕ} (some i) (some j) =
              sym (map_get-first entries nm i) ∙ ap (map_get ((nm, i) ∷ entries)) e ∙ before in
            let i_j : i ≡ j = cc in inl (zero, omega arith, ap some e)
        | inr other ↦ inr (sym (map_get-later entries nm key i other) ∙ before)
      ]
    ]

layout_name :
    (rls : List RecordLayout) (p : ℕ) (rl : RecordLayout)
    → get_elem? rls p ≡ some rl
    → get_elem? (names_of (λ (r : RecordLayout). r.name) rls) p ≡ some rl.name
layout_name [] p rl h = cc
layout_name (x ∷ rls) zero rl h =
    let same : x ≡ rl = cc in ap (λ (r : RecordLayout). some r.name) same
layout_name (x ∷ rls) (suc p) rl h = layout_name rls p rl h

named_layout :
    (rls : List RecordLayout) (p : ℕ) (key : Text)
    → get_elem? (names_of (λ (r : RecordLayout). r.name) rls) p ≡ some key
    → (rl : RecordLayout) × (get_elem? rls p ≡ some rl) × (rl.name ≡ key)
named_layout [] p key h = cc
named_layout (x ∷ rls) zero key h = let e : x.name ≡ key = cc in (x, refl, e)
named_layout (x ∷ rls) (suc p) key h = named_layout rls p key h

length-zeros : (rls : List RecordLayout) → length (zeros rls) ≡ length rls
length-zeros [] = refl
length-zeros (x ∷ rls) = ap suc (length-zeros rls)

length-count_use :
    (refcount : List ℕ) (o : Option ℕ) → length (count_use refcount o) ≡ length refcount
length-count_use refcount none = refl
length-count_use refcount (some idx) = length-update_at increase refcount idx

length-count_uses :
    (idxmap : List (Text × ℕ)) (names : List Text) (refcount : List ℕ)
    → length (count_uses idxmap names refcount) ≡ length refcount
unfolding count_uses
length-count_uses idxmap [] refcount = refl
length-count_uses idxmap (nm ∷ names) refcount =
    length-count_uses idxmap names (count_use refcount (map_get idxmap nm))
    ∙ length-count_use refcount (map_get idxmap nm)

-- For layouts of different names, `build` makes an index that finds each of them by its own name and
-- no other one, and a count for each.
pub build-IsIndexed :
    {F D : Type 0} (md : Module F D)
    → IsUnique (names_of (λ (r : RecordLayout). r.name) md.record_layout)
    → IsIndexed (record { record_layout = md.record_layout; reclayout_info = build md })
unfolding build
build-IsIndexed md different =
    let names = names_of (λ (r : RecordLayout). r.name) md.record_layout in
    (
      length-count_uses (index_names 0 names []) (used_names md) (zeros md.record_layout)
          ∙ length-zeros md.record_layout,
      λ key idx h. elim (index_names-cases 0 idx names [] key h) [
        | inl (p, e, there) ↦
            let same : p ≡ idx = omega arith in
            named_layout md.record_layout idx key
              (subst (λ q. get_elem? names q ≡ some key) same there)
        | inr nothing ↦ absurd_entry key idx nothing
      ],
      λ idx rl h.
          index_names-at 0 idx names [] rl.name different (layout_name md.record_layout idx rl h)
          ∙ ap some (omega arith),
    )
  where
    absurd_entry :
        (key : Text) (idx : ℕ)
        → map_get [] key ≡ some idx
        → (rl : RecordLayout) × (get_elem? md.record_layout idx ≡ some rl) × (rl.name ≡ key)
    absurd_entry key idx h = cc
