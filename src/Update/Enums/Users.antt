-- ===== src/Update/Enums/Users.antt =====
-- src/update/enums.rs: which type the loop of `update_enum_compu_methods` keeps for a table.
use a2ltool.Prelude.{
  Text, Option, none, some, List, [], ◌∷◌, text_eq, text_eq_refl, text_eq_sound, false, Bool-cases,
  inl, inr, ◌≡◌, ◌≢◌, ◌⊎◌, refl, sym, ap, ◌∙◌,
}
use a2ltool.DebugInfo.{TypeInfo}
use a2ltool.DebugInfo.UnitName.{map_get}
use a2ltool.Floats.{Floats}
use a2ltool.A2l.{CompuMethod}
use a2ltool.Update.Enums.{compu_tabs, with_table}

module _ {F : Type 0} where
  -- The COMPU_METHOD has a type, and refers to the table.
  abbrev pub IsUser : List (Text × TypeInfo) → Text → CompuMethod F → TypeInfo → Type 0
  IsUser types table cm t = (cm.compu_tab_ref ≡ some table) × (map_get types cm.name ≡ some t)

  abbrev pub HasNoUser : List (Text × TypeInfo) → Text → List (CompuMethod F) → Type 0
  HasNoUser types table [] = Unit
  HasNoUser types table (cm ∷ cms) =
      ((t : TypeInfo) → IsUser types table cm t → ⊥) × HasNoUser types table cms

  -- `t` is the type of the last COMPU_METHOD that has one and refers to the table.
  abbrev pub IsLastType : List (Text × TypeInfo) → Text → List (CompuMethod F) → TypeInfo → Type 0
  IsLastType types table [] t = ⊥
  IsLastType types table (cm ∷ cms) t =
      (IsUser types table cm t × HasNoUser types table cms) ⊎ IsLastType types table cms t

module _ {F : Type 0} ⦃fl : Floats F⦄ where
  -- What one COMPU_METHOD adds.
  with_table-cases :
      (types tabs : List (Text × TypeInfo)) (table : Text) (cm : CompuMethod F)
      (o : Option TypeInfo) (r : Option Text)
      → map_get types cm.name ≡ o
      → cm.compu_tab_ref ≡ r
      → ((t : TypeInfo) × IsUser types table cm t × (map_get (with_table o r tabs) table ≡ some t))
        ⊎ (((t : TypeInfo) → IsUser types table cm t → ⊥)
            × (map_get (with_table o r tabs) table ≡ map_get tabs table))
  unfolding map_get
  with_table-cases types tabs table cm none r e e' =
      inr ((λ t (h, h'). (let clash = sym e ∙ h' in cc)), refl)
  with_table-cases types tabs table cm (some t) none e e' =
      inr ((λ t (h, h'). (let clash = sym e' ∙ h in cc)), refl)
  with_table-cases types tabs table cm (some t) (some name) e e' =
      elim (Bool-cases (text_eq name table)) [
        | inl same ↦ inl (t, (e' ∙ ap some (text_eq_sound name table same), e), rw same refl)
        | inr other ↦ inr (
          (λ t' (h, h'). not_same name table other (some_name name table (sym e' ∙ h))),
          rw other refl,
        )
      ]
    where
      some_name : (a b : Text) → ◌≡◌ {A = Option Text} (some a) (some b) → a ≡ b
      some_name a b h = cc

      not_same : (a b : Text) → text_eq a b ≡ false → a ≢ b
      not_same a b h e = let clash = sym h ∙ ap (text_eq a) (sym e) ∙ text_eq_refl a in cc

  pub compu_tabs-cases :
      (types tabs : List (Text × TypeInfo)) (table : Text) (cms : List (CompuMethod F))
      → ((t : TypeInfo) × IsLastType types table cms t
          × (map_get (compu_tabs cms types tabs) table ≡ some t))
        ⊎ (HasNoUser types table cms
            × (map_get (compu_tabs cms types tabs) table ≡ map_get tabs table))
  unfolding compu_tabs
  compu_tabs-cases types tabs table [] = inr (tt, refl)
  compu_tabs-cases types tabs table (cm ∷ cms) =
      let o = map_get types cm.name in
      elim (compu_tabs-cases types (with_table o cm.compu_tab_ref tabs) table cms) [
        | inl (t, last, e) ↦ inl (t, inr last, e)
        | inr (nobody, e) ↦
            elim (with_table-cases types tabs table cm o cm.compu_tab_ref refl refl) [
              | inl (t, user, e') ↦ inl (t, inl (user, nobody), e ∙ e')
              | inr (no_user, e') ↦ inr ((no_user, nobody), e ∙ e')
            ]
      ]
