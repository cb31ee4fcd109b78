-- ===== src/Update/Limits/Stable.antt =====
-- src/update/mod.rs: a second `adjust_limits` changes nothing.
use a2ltool.Prelude.{
  Option, none, some, true, false, ◌&&◌, if◌then◌else◌, Bool-cases, inl, inr, ◌⊎◌, ◌≡◌, refl, ap,
  ap₂, arith, ◌∙◌,
}
use a2ltool.DebugInfo.{TypeInfo}
use a2ltool.Floats.{Floats, IsIeee, is_infinite}
use a2ltool.DataTypes.{get_type_limits}
use a2ltool.A2l.{
  CompuMethod, ConversionType, identical, form, linear, rat_func, tab_intp, tab_nointp, tab_verb,
  Coeffs,
}
use a2ltool.Update.Limits.{
  adjust_limits, physical_limits, converted, rat_func_limits, is_linear, apply_rat_func,
  shrink_lower, shrink_upper, make_finite,
}

-- The type has limits of its own.
abbrev pub HasOwnLimits : {F : Type 0} → Floats F → TypeInfo → Type 0
HasOwnLimits {F} fl t =
    (a b c d : F) → get_type_limits ⦃fl = fl⦄ t a b ≡ get_type_limits ⦃fl = fl⦄ t c d

module _ {F : Type 0} ⦃fl : Floats F⦄ where
  -- Where the type limits are given, the converted limits are always the same, or always the old
  -- ones.
  abbrev IsUniform : (F × F → F × F) → Type 0
  IsUniform g = ((a b : F × F) → g a ≡ g b) ⊎ ((a : F × F) → g a ≡ a)

  rat_func-IsUniform :
      (o : Option (Coeffs F)) (limits : F × F) → IsUniform (λ old. apply_rat_func o old limits)
  unfolding rat_func_limits
  rat_func-IsUniform none limits = inl (λ a b. refl)
  rat_func-IsUniform (some c) limits = elim (Bool-cases (is_linear c)) [
    | inl simple ↦ inl (λ a b. rw simple)
    | inr complex ↦ inr (λ a. rw complex)
  ]

  converted-IsUniform :
      (c : ConversionType) (cm : CompuMethod F) (limits : F × F)
      → IsUniform (λ old. converted c cm old limits)
  unfolding converted
  converted-IsUniform form cm limits = inr (λ a. refl)
  converted-IsUniform identical cm limits = inl (λ a b. refl)
  converted-IsUniform tab_intp cm limits = inl (λ a b. refl)
  converted-IsUniform tab_nointp cm limits = inl (λ a b. refl)
  converted-IsUniform tab_verb cm limits = inl (λ a b. refl)
  converted-IsUniform linear cm limits = inl (λ a b. refl)
  converted-IsUniform rat_func cm limits = rat_func-IsUniform cm.coeffs limits

  make_finite-id : (x : F) → is_infinite x ≡ false → make_finite x ≡ x
  unfolding make_finite
  make_finite-id x h = ground arith

module _ {F : Type 0} ⦃fl : Floats F⦄ (ieee : IsIeee fl) where
  finite_again : (x : F) → make_finite (make_finite x) ≡ make_finite x
  unfolding make_finite
  finite_again x = ground (arith, ieee.min_finite, ieee.max_finite)

  lower_repeated :
      (l : F) → make_finite (if fl.lt l (make_finite l) then make_finite l else l) ≡ make_finite l
  unfolding make_finite
  lower_repeated l = ground (
    arith,
    ieee.neg_infinity_lt_min l,
    ieee.infinity_lt fl.f64_max l,
    ieee.lt_irrefl l,
    ieee.min_finite,
    ieee.max_finite,
  )

  upper_repeated :
      (u : F) → make_finite (if fl.lt (make_finite u) u then make_finite u else u) ≡ make_finite u
  unfolding make_finite
  upper_repeated u = ground (
    arith,
    ieee.max_lt_infinity u,
    ieee.lt_neg_infinity fl.f64_min u,
    ieee.lt_irrefl u,
    ieee.min_finite,
    ieee.max_finite,
  )

  shrink_lower-used :
      (lower upper l : F)
      → (fl.eq lower fl.zero_f && fl.eq upper fl.zero_f) ≡ false
      → shrink_lower lower upper l ≡ (if fl.lt l lower then lower else l)
  unfolding shrink_lower
  shrink_lower-used lower upper l used = ground arith

  shrink_upper-used :
      (lower upper u : F)
      → (fl.eq lower fl.zero_f && fl.eq upper fl.zero_f) ≡ false
      → shrink_upper lower upper u ≡ (if fl.lt upper u then upper else u)
  unfolding shrink_upper
  shrink_upper-used lower upper u used = ground arith

  shrink_lower-cases :
      (lower upper l : F)
      → ((shrink_lower lower upper l ≡ lower) × (fl.lt l lower ≡ true))
        ⊎ (shrink_lower lower upper l ≡ l)
  unfolding shrink_lower
  shrink_lower-cases lower upper l = ground arith

  shrink_upper-cases :
      (lower upper u : F)
      → ((shrink_upper lower upper u ≡ upper) × (fl.lt upper u ≡ true))
        ⊎ (shrink_upper lower upper u ≡ u)
  unfolding shrink_upper
  shrink_upper-cases lower upper u = ground arith

  lower_stable :
      (old_lower old_upper l : F)
      → is_infinite old_lower ≡ false
      → let lower' = make_finite (shrink_lower old_lower old_upper l) in
        make_finite (if fl.lt l lower' then lower' else l) ≡ lower'
  lower_stable old_lower old_upper l finite = elim (shrink_lower-cases old_lower old_upper l) [
    | inl (same, below) ↦
        rw (same, make_finite-id old_lower finite, below) (make_finite-id old_lower finite)
    | inr same ↦ rw same (lower_repeated l)
  ]

  upper_stable :
      (old_lower old_upper u : F)
      → is_infinite old_upper ≡ false
      → let upper' = make_finite (shrink_upper old_lower old_upper u) in
        make_finite (if fl.lt upper' u then upper' else u) ≡ upper'
  upper_stable old_lower old_upper u finite = elim (shrink_upper-cases old_lower old_upper u) [
    | inl (same, above) ↦
        rw (same, make_finite-id old_upper finite, above) (make_finite-id old_upper finite)
    | inr same ↦ rw same (upper_repeated u)
  ]

  second_round :
      (g : F × F → F × F) (lower upper : F)
      → IsUniform g
      → is_infinite lower ≡ false
      → is_infinite upper ≡ false
      → let lower' = make_finite (shrink_lower lower upper (g (lower, upper)).0) in
        let upper' = make_finite (shrink_upper lower upper (g (lower, upper)).1) in
        (fl.eq lower' fl.zero_f && fl.eq upper' fl.zero_f) ≡ false
        → (make_finite (shrink_lower lower' upper' (g (lower', upper')).0) ≡ lower')
          × (make_finite (shrink_upper lower' upper' (g (lower', upper')).1) ≡ upper')
  second_round g lower upper uniform finite finite' used =
      let l = (g (lower, upper)).0 in
      let u = (g (lower, upper)).1 in
      let lower' = make_finite (shrink_lower lower upper l) in
      let upper' = make_finite (shrink_upper lower upper u) in
      elim uniform [
        | inl same ↦
            let e = same (lower', upper') (lower, upper) in
            (
              ap (λ (p : F × F). make_finite (shrink_lower lower' upper' p.0)) e
                  ∙ ap make_finite (shrink_lower-used lower' upper' l used)
                  ∙ lower_stable lower upper l finite,
              ap (λ (p : F × F). make_finite (shrink_upper lower' upper' p.1)) e
                  ∙ ap make_finite (shrink_upper-used lower' upper' u used)
                  ∙ upper_stable lower upper u finite',
            )
        | inr own ↦
            let e = own (lower', upper') in
            (
              ap (λ (p : F × F). make_finite (shrink_lower lower' upper' p.0)) e
                  ∙ ap make_finite
                      (shrink_lower-used lower' upper' lower' used ∙ rw (ieee.lt_irrefl lower'))
                  ∙ finite_again (shrink_lower lower upper l),
              ap (λ (p : F × F). make_finite (shrink_upper lower' upper' p.1)) e
                  ∙ ap make_finite
                      (shrink_upper-used lower' upper' upper' used ∙ rw (ieee.lt_irrefl upper'))
                  ∙ finite_again (shrink_upper lower upper u),
            )
      ]

  physical_limits-IsUniform :
      (cm : Option (CompuMethod F)) (limits : F × F)
      → IsUniform (λ old. physical_limits cm old limits)
  unfolding physical_limits
  physical_limits-IsUniform none limits = inl (λ a b. refl)
  physical_limits-IsUniform (some cm) limits = converted-IsUniform cm.conversion_type cm limits

  -- With numbers that compare as in IEEE 754, for a type that has limits of its own and every
  -- conversion method: if the old limits are finite or NaN, and the adjusted limits are not both
  -- zero, then adjusting them again changes nothing.
  pub adjust_limits-adjust_limits :
      (t : TypeInfo) (lower upper : F) (cm : Option (CompuMethod F))
      → HasOwnLimits fl t
      → is_infinite lower ≡ false
      → is_infinite upper ≡ false
      → let new = adjust_limits t lower upper cm in
        (fl.eq new.0 fl.zero_f && fl.eq new.1 fl.zero_f) ≡ false
        → adjust_limits t new.0 new.1 cm ≡ new
  unfolding adjust_limits
  adjust_limits-adjust_limits t lower upper cm own finite finite' used =
      let limits = get_type_limits t lower upper in
      let g = λ (old : F × F). physical_limits cm old limits in
      let (l, u) =
        second_round g lower upper (physical_limits-IsUniform cm limits) finite finite' used in
      let new = adjust_limits t lower upper cm in
      rw (own new.0 new.1 lower upper) (ap₂ (λ a b. (a, b)) l u)

  -- The limits are those that `adjust_limits` computes from them, if they are no NaN.
  pub limits_kept :
      (t : TypeInfo) (lower upper : F) (cm : Option (CompuMethod F))
      → let new = adjust_limits t lower upper cm in
        let again = adjust_limits t new.0 new.1 cm in
        HasOwnLimits fl t
        → is_infinite lower ≡ false
        → is_infinite upper ≡ false
        → (fl.eq new.0 fl.zero_f && fl.eq new.1 fl.zero_f) ≡ false
        → fl.eq new.0 new.0 ≡ true
        → fl.eq new.1 new.1 ≡ true
        → (fl.eq again.0 new.0 ≡ true) × (fl.eq again.1 new.1 ≡ true)
  limits_kept t lower upper cm own finite finite' used low high =
      let new = adjust_limits t lower upper cm in
      let e = adjust_limits-adjust_limits t lower upper cm own finite finite' used in
      (ap (λ (p : F × F). fl.eq p.0 new.0) e ∙ low, ap (λ (p : F × F). fl.eq p.1 new.1) e ∙ high)
