-- ===== src/Update/Enums/Creation.antt =====
-- src/update/enums.rs: what `cond_create_enum_conversion` adds to a module.
use a2ltool.Prelude.{
  Text, true, false, List, [], ◌∷◌, ◌++◌, ℤ, Bool-cases, inl, inr, ◌≡◌, ◌⊎◌, refl, arith, text_eq,
  text_eq_refl, text_eq_comm, ◌∙◌,
}
use a2ltool.Floats.{Floats}
use a2ltool.A2l.{Module, CompuMethod, CompuVtab}
use a2ltool.Update.Enums.{
  cond_create_enum_conversion, create_vtab, has_name, has_vtab, has_vtab_range, new_compu_method,
  new_compu_vtab,
}

module _ {F : Type 0} ⦃fl : Floats F⦄ where
  has_name-append :
      (t : Text) (cms : List (CompuMethod F)) → has_name t (cms ++ new_compu_method t ∷ []) ≡ true
  has_name-append t [] = rw (text_eq_refl t)
  has_name-append t (cm ∷ cms) = ground (arith, has_name-append t cms)

  has_vtab-append :
      (t : Text) (vs : List (CompuVtab F)) (es : List (Text × ℤ))
      → has_vtab t (vs ++ new_compu_vtab t es ∷ []) ≡ true
  has_vtab-append t [] es = rw (text_eq_refl t)
  has_vtab-append t (v ∷ vs) es = ground (arith, has_vtab-append t vs es)

  -- The names of the COMPU_METHODs are all different.
  abbrev pub NamesDiffer : List (CompuMethod F) → Type 0
  NamesDiffer [] = Unit
  NamesDiffer (cm ∷ cms) = (has_name cm.name cms ≡ false) × NamesDiffer cms

  abbrev pub VtabNamesDiffer : List (CompuVtab F) → Type 0
  VtabNamesDiffer [] = Unit
  VtabNamesDiffer (v ∷ vs) = (has_vtab v.name vs ≡ false) × VtabNamesDiffer vs

  has_name-append_other :
      (s t : Text) (cms : List (CompuMethod F))
      → has_name s cms ≡ false
      → text_eq t s ≡ false
      → has_name s (cms ++ new_compu_method t ∷ []) ≡ false
  has_name-append_other s t [] h other = rw other
  has_name-append_other s t (cm ∷ cms) h other = ground (arith, has_name-append_other s t cms)

  has_vtab-append_other :
      (s t : Text) (vs : List (CompuVtab F)) (es : List (Text × ℤ))
      → has_vtab s vs ≡ false
      → text_eq t s ≡ false
      → has_vtab s (vs ++ new_compu_vtab t es ∷ []) ≡ false
  has_vtab-append_other s t [] es h other = rw other
  has_vtab-append_other s t (v ∷ vs) es h other = ground (arith, has_vtab-append_other s t vs es)

  names-append :
      (t : Text) (cms : List (CompuMethod F))
      → has_name t cms ≡ false
      → NamesDiffer cms
      → NamesDiffer (cms ++ new_compu_method t ∷ [])
  names-append t [] new differ = (refl, tt)
  names-append t (cm ∷ cms) new (first, differ) =
      let other : text_eq t cm.name ≡ false = text_eq_comm t cm.name ∙ ground arith in
      (has_name-append_other cm.name t cms first other, names-append t cms (ground arith) differ)

  vtab_names-append :
      (t : Text) (vs : List (CompuVtab F)) (es : List (Text × ℤ))
      → has_vtab t vs ≡ false
      → VtabNamesDiffer vs
      → VtabNamesDiffer (vs ++ new_compu_vtab t es ∷ [])
  vtab_names-append t [] es new differ = (refl, tt)
  vtab_names-append t (v ∷ vs) es new (first, differ) =
      let other : text_eq t v.name ≡ false = text_eq_comm t v.name ∙ ground arith in
      (
        has_vtab-append_other v.name t vs es first other,
        vtab_names-append t vs es (ground arith) differ,
      )

  module _ {D : Type 0} where
    create_vtab-tables :
        (md : Module F D) (t : Text) (es : List (Text × ℤ))
        → VtabNamesDiffer md.compu_vtab
        → ((create_vtab md t es).compu_method ≡ md.compu_method)
          × ((has_vtab t (create_vtab md t es).compu_vtab ≡ true)
              ⊎ (has_vtab_range t (create_vtab md t es).compu_vtab_range ≡ true))
          × VtabNamesDiffer (create_vtab md t es).compu_vtab
    unfolding create_vtab
    create_vtab-tables md t es differ = elim (Bool-cases (has_vtab t md.compu_vtab)) [
      | inl there ↦ rw there (refl, inl there, differ)
      | inr missing ↦ elim (Bool-cases (has_vtab_range t md.compu_vtab_range)) [
        | inl there ↦ rw (missing, there) (refl, inr there, differ)
        | inr missing' ↦
            rw (missing, missing')
              (
                refl,
                inl (has_vtab-append t md.compu_vtab es),
                vtab_names-append t md.compu_vtab es missing differ,
              )
      ]
    ]

    -- The conversion of an enumeration is complete.
    abbrev pub HasConversion : Text → Module F D → Type 0
    HasConversion t md =
        (has_name t md.compu_method ≡ true)
        × ((has_vtab t md.compu_vtab ≡ true) ⊎ (has_vtab_range t md.compu_vtab_range ≡ true))

    abbrev pub HasUniqueNames : Module F D → Type 0
    HasUniqueNames md = NamesDiffer md.compu_method × VtabNamesDiffer md.compu_vtab

    created :
        (md : Module F D) (t : Text) (es : List (Text × ℤ))
        → has_name t md.compu_method ≡ false
        → HasUniqueNames md
        → HasConversion t (cond_create_enum_conversion md t es)
          × HasUniqueNames (cond_create_enum_conversion md t es)
    unfolding cond_create_enum_conversion
    created md t es missing (differ, vdiffer) =
        let md' : Module F D = record md {
          compu_method = md.compu_method ++ new_compu_method t ∷ [];
        } in
        let (same, table, vdiffer') = create_vtab-tables md' t es vdiffer in
        rw missing (
          (rw same (has_name-append t md.compu_method), table),
          (rw same (names-append t md.compu_method missing differ), vdiffer'),
        )

    exists :
        (md : Module F D) (t : Text) (es : List (Text × ℤ))
        → has_name t md.compu_method ≡ true
        → cond_create_enum_conversion md t es ≡ md
    unfolding cond_create_enum_conversion
    exists md t es there = rw there

    -- In a module whose COMPU_METHODs have different names, and whose COMPU_VTABs do, the creation
    -- of the conversion of an enumeration keeps both so. If there was no COMPU_METHOD of that name,
    -- there is one afterwards, and a table of the name of either kind; if there was one, nothing is
    -- changed; and creating it again changes nothing, whatever the enumerators are.
    pub cond_create_enum_conversion-HasUniqueNames :
        (md : Module F D) (t : Text) (es es' : List (Text × ℤ))
        → HasUniqueNames md
        → let md' = cond_create_enum_conversion md t es in
          HasUniqueNames md'
          × (has_name t md.compu_method ≡ false → HasConversion t md')
          × (has_name t md.compu_method ≡ true → md' ≡ md)
          × (cond_create_enum_conversion md' t es' ≡ md')
    cond_create_enum_conversion-HasUniqueNames md t es es' unique =
        elim (Bool-cases (has_name t md.compu_method)) [
          | inl there ↦
              rw (exists md t es there) (unique, λ missing. cc, λ _. refl, exists md t es' there)
          | inr missing ↦
              let (complete, unique') = created md t es missing unique in
              (
                unique',
                λ _. complete,
                λ there. cc,
                exists (cond_create_enum_conversion md t es) t es' complete.0,
              )
        ]
