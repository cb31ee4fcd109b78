-- ===== src/DataTypes/Limits.antt =====
-- src/datatype.rs: the limits of an enumeration.
use a2ltool.Prelude.{
  ℕ, Option, Bool, Text, List, [], ◌∷◌, ℤ, int_leb, int_leb_refl, int_leb_trans, int_leb_total, ◌≡◌,
  refl, ◌∙◌, ◌⊎◌, inl, inr, true, arith,
}
use a2ltool.DebugInfo.{type_info, enumeration}
use a2ltool.Floats.{Floats}
use a2ltool.DataTypes.{get_type_limits, extreme, int_min, int_max, fold_with, values_of}

-- One of the values of a list.
abbrev pub IsOneOf : ℤ → List ℤ → Type 0
IsOneOf v [] = ⊥
IsOneOf v (w ∷ ws) = (v ≡ w) ⊎ IsOneOf v ws

-- `f` picks one of its arguments, which bounds both from the side of `le`.
record Picks (f : ℤ → ℤ → ℤ) (le : ℤ → ℤ → Type 0) : Type 0 where
  left : (a b : ℤ) → le (f a b) a
  right : (a b : ℤ) → le (f a b) b
  trans : (a b c : ℤ) → le a b → le b c → le a c
  self : (a : ℤ) → le a a
  one_of : (a b : ℤ) → (f a b ≡ a) ⊎ (f a b ≡ b)

module _ {f : ℤ → ℤ → ℤ} {le : ℤ → ℤ → Type 0} (picks : Picks f le) where
  fold_with-le : (acc : ℤ) (vs : List ℤ) → le (fold_with f acc vs) acc
  fold_with-le acc [] = picks.self acc
  fold_with-le acc (v ∷ vs) = picks.trans _ _ _ (fold_with-le (f acc v) vs) (picks.left acc v)

  fold_with-le_all : (acc : ℤ) (vs : List ℤ) (v : ℤ) → IsOneOf v vs → le (fold_with f acc vs) v
  fold_with-le_all acc [] v h = absurd h
  fold_with-le_all acc (w ∷ vs) v (inl e) =
      rw e (picks.trans _ _ _ (fold_with-le (f acc w) vs) (picks.right acc w))
  fold_with-le_all acc (w ∷ vs) v (inr h) = fold_with-le_all (f acc w) vs v h

  fold_with-IsOneOf : (acc : ℤ) (vs : List ℤ) → IsOneOf (fold_with f acc vs) (acc ∷ vs)
  fold_with-IsOneOf acc [] = inl refl
  fold_with-IsOneOf acc (w ∷ vs) = elim (fold_with-IsOneOf (f acc w) vs) [
    | inr h ↦ inr (inr h)
    | inl e ↦ elim (picks.one_of acc w) [ inl e' ↦ inl (e ∙ e') | inr e' ↦ inr (inl (e ∙ e')) ]
  ]

  extreme-le : (vs : List ℤ) (v : ℤ) → IsOneOf v vs → le (extreme f vs) v
  unfolding extreme
  extreme-le [] v h = absurd h
  extreme-le (w ∷ vs) v (inl e) = rw e (fold_with-le w vs)
  extreme-le (w ∷ vs) v (inr h) = fold_with-le_all w vs v h

  extreme-IsOneOf : (v : ℤ) (vs : List ℤ) → IsOneOf (extreme f (v ∷ vs)) (v ∷ vs)
  unfolding extreme
  extreme-IsOneOf v vs = fold_with-IsOneOf v vs

min-Picks : Picks int_min (λ a b. int_leb a b ≡ true)
min-Picks = record {
  left = λ a b. ground (arith, int_leb_refl a);
  right = λ a b. ground (arith, int_leb_refl b);
  trans = int_leb_trans;
  self = int_leb_refl;
  one_of = λ a b. ground arith;
}

max-Picks : Picks int_max (λ a b. int_leb b a ≡ true)
max-Picks = record {
  left = λ a b. ground (arith, int_leb_refl a);
  right = λ a b. ground (arith, int_leb_refl b, int_leb_total a b);
  trans = λ a b c h k. int_leb_trans c b a k h;
  self = int_leb_refl;
  one_of = λ a b. ground arith;
}

-- The limits are two of the values, and all values lie between them.
abbrev pub AreTightLimits : {F : Type 0} ⦃fl : Floats F⦄ → List ℤ → F × F → Type 0
AreTightLimits ⦃fl⦄ values limits =
    (lower : ℤ) × (upper : ℤ) × (limits ≡ (fl.from_int lower, fl.from_int upper))
    × IsOneOf lower values
    × IsOneOf upper values
    × ((v : ℤ) → IsOneOf v values → (int_leb lower v ≡ true) × (int_leb v upper ≡ true))

-- For an enumeration with an enumerator, whatever limits are given and in whatever order the
-- enumerators stand, the type limits are the smallest and the largest value of its enumerators.
pub get_type_limits-enumeration :
    {F : Type 0} ⦃fl : Floats F⦄ (nm : Option Text) (u size o : ℕ) (signed : Bool) (e : Text × ℤ)
    (es : List (Text × ℤ)) (lower upper : F)
    → AreTightLimits
        (values_of (e ∷ es))
        (get_type_limits (type_info nm u (enumeration size signed (e ∷ es)) o) lower upper)
unfolding get_type_limits
get_type_limits-enumeration nm u size o signed e es lower upper =
    let vs = values_of (e ∷ es) in
    (
      extreme int_min vs,
      extreme int_max vs,
      refl,
      extreme-IsOneOf min-Picks e.1 (values_of es),
      extreme-IsOneOf max-Picks e.1 (values_of es),
      λ v h. (extreme-le min-Picks vs v h, extreme-le max-Picks vs v h),
    )
