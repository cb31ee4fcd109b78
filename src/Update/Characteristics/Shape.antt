-- ===== src/Update/Characteristics/Shape.antt =====
-- src/update/characteristic.rs: the kind, the dimensions and the axes that an update leaves.
use a2ltool.Prelude.{
  ℕ, Text, Option, none, some, Bool, true, false, List, [], ◌∷◌, ok, >>=-eq-ok, ◌≡◌, refl, sym, ap,
  ◌∙◌,
}
use mathlib.Core.Path.{subst}
use a2ltool.DebugInfo.{TypeInfo}
use a2ltool.TypeIter.{Run}
use a2ltool.Floats.{Floats}
use a2ltool.A2l.{
  Characteristic, CharacteristicType, ascii, curve, map as map_type, cuboid, cube_4, cube_5,
  val_blk, value, AxisDescr, RecordLayout,
}
use a2ltool.Update.Fields.{set_matrix_dim}
use a2ltool.Update.IfData.{A2lCrate}
use a2ltool.Update.Measurement.Equality.{dims_eq_refl}
use a2ltool.Update.Characteristics.Axes.{
  axis_loop, axis_branch, axis_positions, update_characteristic_axis,
}
use a2ltool.Update.Characteristics.Datatype.{
  needs_axes, patched_type, shape_of, has_shape, update_shape,
}

-- Both lists are empty, or none of them.
abbrev pub AreAlike : List AxisDescr → List AxisDescr → Type 0
AreAlike [] [] = Unit
AreAlike [] (b ∷ bs) = ⊥
AreAlike (a ∷ as') [] = ⊥
AreAlike (a ∷ as') (b ∷ bs) = Unit

axes_injective : (a b : List AxisDescr) → ◌≡◌ {A = Run (List AxisDescr)} (ok a) (ok b) → a ≡ b
axes_injective a b h = cc

pub axes-AreAlike :
    (axes axes' : List AxisDescr) (rl : Option RecordLayout) (dims : List (Text × ℕ)) (t : TypeInfo)
    → update_characteristic_axis axes rl dims t ≡ ok axes'
    → AreAlike axes axes'
unfolding update_characteristic_axis axis_loop
axes-AreAlike [] axes' rl dims t h = subst (λ l. AreAlike [] l) (axes_injective [] axes' h) tt
axes-AreAlike (a ∷ axes) axes' rl dims t h =
    let (first, at_first, h₁) =
      >>=-eq-ok (axis_branch (axis_positions rl) dims t 0 a a.axis_pts_ref) _ h in
    let (rest, at_rest, h₂) = >>=-eq-ok (axis_loop (axis_positions rl) dims t 1 axes) _ h₁ in
    subst (λ l. AreAlike (a ∷ axes) l) (axes_injective (first ∷ rest) axes' h₂) tt

-- The shape after an update passes the check of the shape.
value_shape :
    (t : CharacteristicType) (dim : Option (List ℕ)) (number : Option ℕ) (axes : List AxisDescr)
    → needs_axes t ≡ false
    → let s = shape_of t dim number in has_shape s.0 dim s.1 s.2 axes ≡ true
value_shape value none number axes h = refl
value_shape value (some dim) number axes h = dims_eq_refl (some dim)
value_shape val_blk none number axes h = refl
value_shape val_blk (some dim) number axes h = dims_eq_refl (some dim)
value_shape ascii dim number axes h = refl
value_shape curve dim number axes h = cc
value_shape map_type dim number axes h = cc
value_shape cuboid dim number axes h = cc
value_shape cube_4 dim number axes h = cc
value_shape cube_5 dim number axes h = cc

shape_accepted :
    (t : CharacteristicType) (dim : Option (List ℕ)) (number : Option ℕ)
    (axes axes' : List AxisDescr)
    → AreAlike axes axes'
    → let s = shape_of (patched_type t axes) dim number in has_shape s.0 dim s.1 s.2 axes' ≡ true
shape_accepted value dim number [] [] h = value_shape value dim number [] refl
shape_accepted val_blk dim number [] [] h = value_shape val_blk dim number [] refl
shape_accepted ascii dim number [] [] h = refl
shape_accepted curve dim number [] [] h = value_shape value dim number [] refl
shape_accepted map_type dim number [] [] h = value_shape value dim number [] refl
shape_accepted cuboid dim number [] [] h = value_shape value dim number [] refl
shape_accepted cube_4 dim number [] [] h = value_shape value dim number [] refl
shape_accepted cube_5 dim number [] [] h = value_shape value dim number [] refl
shape_accepted value dim number (a ∷ as') (b ∷ bs) h = value_shape value dim number (b ∷ bs) refl
shape_accepted val_blk dim number (a ∷ as') (b ∷ bs) h =
    value_shape val_blk dim number (b ∷ bs) refl
shape_accepted ascii dim number (a ∷ as') (b ∷ bs) h = refl
shape_accepted curve dim number (a ∷ as') (b ∷ bs) h = refl
shape_accepted map_type dim number (a ∷ as') (b ∷ bs) h = refl
shape_accepted cuboid dim number (a ∷ as') (b ∷ bs) h = refl
shape_accepted cube_4 dim number (a ∷ as') (b ∷ bs) h = refl
shape_accepted cube_5 dim number (a ∷ as') (b ∷ bs) h = refl
shape_accepted t dim number [] (b ∷ bs) h = elim h [ ]
shape_accepted t dim number (a ∷ as') [] h = elim h [ ]

-- The dimensions depend on the type only.
set_matrix_dim-any :
    (a b : Option (List ℕ)) (t : TypeInfo) (new_format : Bool)
    → set_matrix_dim a t new_format ≡ set_matrix_dim b t new_format
unfolding set_matrix_dim
set_matrix_dim-any a b t new_format = refl

module _ {F D : Type 0} ⦃fl : Floats F⦄ ⦃a2l : A2lCrate D⦄ where
  -- The shape that the update leaves is accepted for the member, if it has the type's dimensions.
  pub kept_shape :
      (c : Characteristic F D) (t inner : TypeInfo) (new_dim : Bool) (axes : List AxisDescr)
      → set_matrix_dim c.matrix_dim t new_dim ≡ set_matrix_dim c.matrix_dim inner new_dim
      → AreAlike c.axis_descr axes
      → let shaped = update_shape c t new_dim in
        has_shape shaped.characteristic_type
          (set_matrix_dim shaped.matrix_dim inner new_dim)
          shaped.matrix_dim
          shaped.number
          axes
        ≡ true
  unfolding update_shape
  kept_shape c t inner new_dim axes same_dims alike =
      let shaped = update_shape c t new_dim in
      ap (λ d. has_shape shaped.characteristic_type d shaped.matrix_dim shaped.number axes)
        (set_matrix_dim-any shaped.matrix_dim c.matrix_dim inner new_dim ∙ sym same_dims)
      ∙ shape_accepted c.characteristic_type (set_matrix_dim c.matrix_dim t new_dim) c.number
          c.axis_descr axes alike
