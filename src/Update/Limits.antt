-- ===== src/Update/Limits.antt =====
-- src/update/mod.rs: `adjust_limits`.
pub mod Shrink
pub mod Stable
use a2ltool.Prelude.{Option, none, some, Bool, ◌&&◌, ◌||◌, not, if◌then◌else◌}
use a2ltool.DebugInfo.{TypeInfo}
use a2ltool.Floats.{Floats}
use a2ltool.DataTypes.{get_type_limits}
use a2ltool.A2l.{
  CompuMethod, Coeffs, CoeffsLinear, ConversionType, identical, form, linear, rat_func, tab_intp,
  tab_nointp, tab_verb,
}

module _ {F : Type 0} ⦃fl : Floats F⦄ where
  -- `x >= 0.0`, which is false for NaN.
  abbrev pub at_least_zero : F → Bool
  at_least_zero x = fl.lt fl.zero_f x || fl.eq x fl.zero_f

  -- The negative factor computes the lower limit from the new upper limit.
  unfoldable pub linear_limits : CoeffsLinear F → F × F → F × F
  linear_limits c (lower, upper) =
      let swapped_upper = fl.add (fl.mul c.a lower) c.b in
      if at_least_zero c.a
      then (fl.add (fl.mul c.a lower) c.b, fl.add (fl.mul c.a upper) c.b)
      else (fl.add (fl.mul c.a swapped_upper) c.b, swapped_upper)

  abbrev pub is_linear : Coeffs F → Bool
  is_linear c =
      fl.eq c.a fl.zero_f
      && (fl.eq c.d fl.zero_f && (fl.eq c.e fl.zero_f && not (fl.eq c.f fl.zero_f)))

  abbrev pub inverse : Coeffs F → F → F
  inverse c y = fl.sub (fl.mul (fl.div c.f c.b) y) (fl.div c.c c.b)

  abbrev pub in_order : F × F → F × F
  in_order (lower, upper) = if fl.lt upper lower then (upper, lower) else (lower, upper)

  unfoldable pub rat_func_limits : Coeffs F → F × F → F × F → F × F
  rat_func_limits c old (lower, upper) =
      if is_linear c then in_order (inverse c lower, inverse c upper) else old

  abbrev apply_linear : Option (CoeffsLinear F) → F × F → F × F
  apply_linear none limits = limits
  apply_linear (some c) limits = linear_limits c limits

  abbrev apply_rat_func : Option (Coeffs F) → F × F → F × F → F × F
  apply_rat_func none old limits = limits
  apply_rat_func (some c) old limits = rat_func_limits c old limits

  -- The match on `cm.conversion_type`.
  unfoldable pub converted : ConversionType → CompuMethod F → F × F → F × F → F × F
  unfolding linear_limits rat_func_limits
  converted form cm old limits = old
  converted linear cm old limits = apply_linear cm.coeffs_linear limits
  converted rat_func cm old limits = apply_rat_func cm.coeffs old limits
  converted identical cm old limits = limits
  converted tab_intp cm old limits = limits
  converted tab_nointp cm old limits = limits
  converted tab_verb cm old limits = limits

  unfoldable pub physical_limits : Option (CompuMethod F) → F × F → F × F → F × F
  unfolding converted
  physical_limits none old limits = limits
  physical_limits (some cm) old limits = converted cm.conversion_type cm old limits

  -- Limits that are not both zero can only shrink.
  unfoldable pub shrink_lower : F → F → F → F
  shrink_lower old_lower old_upper new =
      if (not (fl.eq old_lower fl.zero_f) || not (fl.eq old_upper fl.zero_f)) && fl.lt new old_lower
      then old_lower
      else new

  unfoldable pub shrink_upper : F → F → F → F
  shrink_upper old_lower old_upper new =
      if (not (fl.eq old_lower fl.zero_f) || not (fl.eq old_upper fl.zero_f)) && fl.lt old_upper new
      then old_upper
      else new

  unfoldable pub make_finite : F → F
  make_finite x =
      if fl.eq x (fl.neg fl.infinity)
      then fl.f64_min
      else if fl.eq x fl.infinity
      then fl.f64_max
      else x

  unfoldable pub adjust_limits : TypeInfo → F → F → Option (CompuMethod F) → F × F
  unfolding physical_limits shrink_lower shrink_upper make_finite get_type_limits
  adjust_limits typeinfo old_lower old_upper opt_compu_method =
      let new =
        physical_limits opt_compu_method (old_lower, old_upper)
          (get_type_limits typeinfo old_lower old_upper) in
      (
        make_finite (shrink_lower old_lower old_upper new.0),
        make_finite (shrink_upper old_lower old_upper new.1),
      )
