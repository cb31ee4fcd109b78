-- ===== src/Update/Limits/Shrink.antt =====
-- src/update/mod.rs: what `adjust_limits` guarantees of its results.
use a2ltool.Prelude.{Option, false, ◌&&◌, ◌≡◌, arith}
use a2ltool.DebugInfo.{TypeInfo}
use a2ltool.Floats.{Floats, IsIeee, is_infinite}
use a2ltool.DataTypes.{get_type_limits}
use a2ltool.A2l.{CompuMethod}
use a2ltool.Update.Limits.{adjust_limits, physical_limits, shrink_lower, shrink_upper, make_finite}

module _ {F : Type 0} ⦃fl : Floats F⦄ where
  -- The limits lie within the old ones, and are finite.
  abbrev pub IsWithin : F × F → F × F → Type 0
  IsWithin old new =
      (fl.lt new.0 old.0 ≡ false)
      × (fl.lt old.1 new.1 ≡ false)
      × (is_infinite new.0 ≡ false)
      × (is_infinite new.1 ≡ false)

module _ {F : Type 0} ⦃fl : Floats F⦄ (ieee : IsIeee fl) where
  make_finite-is_infinite : (x : F) → is_infinite (make_finite x) ≡ false
  unfolding make_finite
  make_finite-is_infinite x = ground (arith, ieee.min_finite, ieee.max_finite)

  shrunk_lower :
      (old_lower old_upper new : F)
      → (fl.eq old_lower fl.zero_f && fl.eq old_upper fl.zero_f) ≡ false
      → fl.lt (shrink_lower old_lower old_upper new) old_lower ≡ false
  unfolding shrink_lower
  shrunk_lower old_lower old_upper new used = ground (arith, ieee.lt_irrefl old_lower)

  shrunk_upper :
      (old_lower old_upper new : F)
      → (fl.eq old_lower fl.zero_f && fl.eq old_upper fl.zero_f) ≡ false
      → fl.lt old_upper (shrink_upper old_lower old_upper new) ≡ false
  unfolding shrink_upper
  shrunk_upper old_lower old_upper new used = ground (arith, ieee.lt_irrefl old_upper)

  finite_lower :
      (old s : F)
      → is_infinite old ≡ false
      → fl.lt s old ≡ false
      → fl.lt (make_finite s) old ≡ false
  unfolding make_finite
  finite_lower old s finite above = ground (arith, ieee.min_lt old s, ieee.above_max old)

  finite_upper :
      (old s : F)
      → is_infinite old ≡ false
      → fl.lt old s ≡ false
      → fl.lt old (make_finite s) ≡ false
  unfolding make_finite
  finite_upper old s finite below = ground (arith, ieee.lt_max old s, ieee.below_min old)

  -- With numbers that compare as in IEEE 754, for every type and conversion method: where the old
  -- limits are finite or NaN and not both zero, the new lower limit is not below the old one, the
  -- new upper limit is not above the old one, and neither of the new limits is infinite.
  pub adjust_limits-IsWithin :
      (t : TypeInfo) (lower upper : F) (cm : Option (CompuMethod F))
      → is_infinite lower ≡ false
      → is_infinite upper ≡ false
      → (fl.eq lower fl.zero_f && fl.eq upper fl.zero_f) ≡ false
      → IsWithin (lower, upper) (adjust_limits t lower upper cm)
  unfolding adjust_limits
  adjust_limits-IsWithin t lower upper cm finite finite' used =
      let new = physical_limits cm (lower, upper) (get_type_limits t lower upper) in
      (
        finite_lower lower _ finite (shrunk_lower lower upper new.0 used),
        finite_upper upper _ finite' (shrunk_upper lower upper new.1 used),
        make_finite-is_infinite (shrink_lower lower upper new.0),
        make_finite-is_infinite (shrink_upper lower upper new.1),
      )
