-- ===== src/Floats.antt =====
-- The `f64` operations that the program uses. They are the compiler's and not the program's: a
-- type of numbers with these operations is an argument of all that computes with limits, and
-- `IsIeee` names what IEEE 754 says of them where a theorem needs it.
use a2ltool.Prelude.{Bool, true, false, ◌≡◌, ◌||◌, ℤ}

pub record Floats (F : Type 0) : Type 0 where
  pub from_int : ℤ → F
  pub neg : F → F
  pub add : F → F → F
  pub sub : F → F → F
  pub mul : F → F → F
  pub div : F → F → F
  pub lt : F → F → Bool
  pub eq : F → F → Bool
  pub zero_f : F
  pub f64_min : F
  pub f64_max : F
  pub f32_min : F
  pub f32_max : F
  pub infinity : F

-- `x == f64::INFINITY || x == -f64::INFINITY`
abbrev pub is_infinite : {F : Type 0} ⦃fl : Floats F⦄ → F → Bool
is_infinite ⦃fl⦄ x = fl.eq x fl.infinity || fl.eq x (fl.neg fl.infinity)

-- Comparisons of IEEE 754: nothing is less than itself, what is above MAX is infinite, what is
-- below MIN is minus infinity, MIN and MAX are finite and the infinities are beyond them. They hold for NaN too, with which every
-- comparison is false.
pub record IsIeee {F : Type 0} (fl : Floats F) : Type 0 where
  pub lt_irrefl : (x : F) → fl.lt x x ≡ false
  pub above_max : (x : F) → fl.lt fl.f64_max x ≡ true → fl.eq x fl.infinity ≡ true
  pub below_min : (x : F) → fl.lt x fl.f64_min ≡ true → fl.eq x (fl.neg fl.infinity) ≡ true
  pub min_lt :
      (x y : F) → fl.eq y (fl.neg fl.infinity) ≡ true → fl.lt fl.f64_min x ≡ true → fl.lt y x ≡ true
  pub lt_max : (x y : F) → fl.eq y fl.infinity ≡ true → fl.lt x fl.f64_max ≡ true → fl.lt x y ≡ true
  pub infinity_lt : (x y : F) → fl.eq y fl.infinity ≡ true → fl.lt y x ≡ false
  pub lt_neg_infinity : (x y : F) → fl.eq y (fl.neg fl.infinity) ≡ true → fl.lt x y ≡ false
  pub neg_infinity_lt_min :
      (y : F) → fl.eq y (fl.neg fl.infinity) ≡ true → fl.lt y fl.f64_min ≡ true
  pub max_lt_infinity : (y : F) → fl.eq y fl.infinity ≡ true → fl.lt fl.f64_max y ≡ true
  pub min_finite : is_infinite ⦃fl = fl⦄ fl.f64_min ≡ false
  pub max_finite : is_infinite ⦃fl = fl⦄ fl.f64_max ≡ false
