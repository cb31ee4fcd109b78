-- ===== src/Update/Measurement/Verified.antt =====
-- src/update/measurement.rs: a full update leaves a MEASUREMENT that the strict update accepts.
use a2ltool.Prelude.{ℕ, Option, none, some, Bool, true, false, ◌&&◌, not, ◌≡◌, refl, ap, arith, ◌∙◌}
use a2ltool.DebugInfo.{TypeInfo, DbgDataType, datatype, bitfield}
use a2ltool.Floats.{Floats, IsIeee, is_infinite}
use a2ltool.DataTypes.{get_a2l_datatype}
use a2ltool.A2l.{Module, Measurement, HexNumber}
use a2ltool.Update.Info.{A2lUpdateInfo, version_at_least, v1_7_0}
use a2ltool.Update.Limits.Stable.{HasOwnLimits, limits_kept}
use a2ltool.Update.Fields.{
  set_address_type, set_matrix_dim, set_bitmask, bitmask_of, mask_with, wide_mask, to_u32,
}
use a2ltool.Update.IfData.{A2lCrate}
use a2ltool.Update.Results.{updated}
use a2ltool.Update.Measurement.Equality.{
  mask_eq, addr_type_eq_refl, dims_eq_refl, mask_eq_refl, data_type_eq_refl,
}
use a2ltool.Update.Measurement.{
  ConvList, update_measurement_datatype, verify_measurement_datatype, has_type_fields, enum_branch,
  set_type_fields, compu_method_of, without_pointer, without_array, enum_of, is_bad_conversion,
}

mask_with_again : (o : Option HexNumber) (n : ℕ) → mask_with (mask_with o n) n ≡ mask_with o n
mask_with_again none n = refl
mask_with_again (some m) n = refl

bitmask_again :
    (o : Option HexNumber) (t : DbgDataType) → bitmask_of (bitmask_of o t) t ≡ bitmask_of o t
unfolding bitmask_of
bitmask_again o (bitfield basetype offset size) = mask_with_again o (to_u32 (wide_mask offset size))
bitmask_again o _ = refl

set_bitmask-set_bitmask :
    (o : Option HexNumber) (t : TypeInfo) → set_bitmask (set_bitmask o t) t ≡ set_bitmask o t
unfolding set_bitmask
set_bitmask-set_bitmask o t = bitmask_again o (datatype t)

all_seven :
    (a b c d e f g : Bool)
    → a ≡ true
    → b ≡ true
    → c ≡ true
    → d ≡ true
    → e ≡ true
    → f ≡ true
    → g ≡ false
    → (a && (b && (c && (d && (e && (f && not g)))))) ≡ true
all_seven a b c d e f g ha hb hc hd he hf hg = ground arith

module _ {F D : Type 0} ⦃fl : Floats F⦄ ⦃a2l : A2lCrate D⦄ where
  accepted :
      (info : A2lUpdateInfo) (md : Module F D) (m : Measurement F D) (t : TypeInfo)
      → has_type_fields info md m t ≡ true
      → verify_measurement_datatype info md m t ≡ updated
  unfolding verify_measurement_datatype
  accepted info md m t h = rw h

module _ {F D : Type 0} ⦃fl : Floats F⦄ ⦃a2l : A2lCrate D⦄ (ieee : IsIeee fl) where
  -- With numbers that compare as in IEEE 754: what a full update makes of a MEASUREMENT and its
  -- module is accepted by the check of the strict update, for the same symbol. The conditions are
  -- that the type of its values has limits of its own, the old limits are finite, the new limits
  -- are not both zero and are no NaN, and an enumeration does not end with the conversion
  -- NO_COMPU_METHOD.
  pub verify-update_measurement_datatype :
      (info : A2lUpdateInfo) (md : Module F D) (m : Measurement F D) (t : TypeInfo)
      (list : ConvList)
      → let inner = without_array (without_pointer t info.debug_data.types) in
        let (m', md', list') = update_measurement_datatype info md m t list in
        HasOwnLimits fl inner
        → is_infinite m.lower_limit ≡ false
        → is_infinite m.upper_limit ≡ false
        → (fl.eq m'.lower_limit fl.zero_f && fl.eq m'.upper_limit fl.zero_f) ≡ false
        → fl.eq m'.lower_limit m'.lower_limit ≡ true
        → fl.eq m'.upper_limit m'.upper_limit ≡ true
        → is_bad_conversion m'.conversion (enum_of (datatype inner)) ≡ false
        → verify_measurement_datatype info md' m' t ≡ updated
  unfolding update_measurement_datatype has_type_fields set_type_fields
  verify-update_measurement_datatype info md m t list own finite finite' used low high conv =
      let inner = without_array (without_pointer t info.debug_data.types) in
      let branch = enum_branch m inner md list (enum_of (datatype inner)) in
      let cm = compu_method_of info branch.1 branch.0 in
      let (lower_ok, upper_ok) =
        limits_kept ieee inner m.lower_limit m.upper_limit cm own finite finite' used low high in
      let target = without_pointer t info.debug_data.types in
      accepted info branch.1 (set_type_fields info m t branch) t (
        all_seven _ _ _ _ _ _ _ (addr_type_eq_refl (set_address_type m.address_type t))
          (dims_eq_refl (set_matrix_dim m.matrix_dim target (version_at_least info.version v1_7_0)))
          (ap (λ o. mask_eq o (set_bitmask m.bit_mask inner))
              (set_bitmask-set_bitmask m.bit_mask inner)
            ∙ mask_eq_refl (set_bitmask m.bit_mask inner))
          lower_ok upper_ok (data_type_eq_refl (get_a2l_datatype inner)) conv)
