-- ===== src/Examples/Types.antt =====
-- src/datatype.rs and src/update/mod.rs: the theorems on data types, limits and keywords at
-- concrete values.
use a2ltool.Prelude.{
  ◌+◌, ◌*◌, Text, codes, none, some, true, false, ◌&&◌, List, [], ◌∷◌, ℤ, pos, negsuc, ltb, leb,
  inl, ◌≡◌, refl, arith,
}
use a2ltool.DebugInfo.{type_info, uint8, uint16, sint16, array, bitfield, enumeration, get_size}
use a2ltool.DataTypes.{get_a2l_datatype, get_type_limits, values_of}
use a2ltool.DataTypes.Sizes.{a2l_size, scalar, is_uint16, a2l_size-get_a2l_datatype}
use a2ltool.DataTypes.Limits.{AreTightLimits, get_type_limits-enumeration}
use a2ltool.Update.Limits.{adjust_limits}
use a2ltool.Update.Limits.Shrink.{IsWithin, adjust_limits-IsWithin}
use a2ltool.Update.Limits.Stable.{HasOwnLimits, adjust_limits-adjust_limits}
use a2ltool.Update.Fields.{set_matrix_dim, set_bitmask, matrix_dim_values}
use a2ltool.Update.Fields.Dimensions.{
  product, IsDense, dense, dense_array, no_array, product-set_matrix_dim,
}
use a2ltool.Update.Fields.Masks.{masked_bit, test_bit-set_bitmask}
use a2ltool.Update.IfData.{LinkMap, update_ifdata_type_canape_ext}
use a2ltool.Update.IfData.TypeCode.{Codes, int_bits, update_ifdata_type_canape_ext-Codes}
use a2ltool.Samples.{plain, grid, byte}
use a2ltool.UpdateSamples.{coarse, coarse-IsIeee, nothing, highest}

a2l_size-get_a2l_datatype_example :
    a2l_size (get_a2l_datatype (plain uint16)) ≡ get_size (plain uint16)
a2l_size-get_a2l_datatype_example =
    a2l_size-get_a2l_datatype (plain uint16) (scalar none 0 uint16 0 is_uint16)

abbrev red : Text × ℤ
red = (codes "red", pos 7)

abbrev others : List (Text × ℤ)
others = (codes "none", negsuc 0) ∷ (codes "blue", pos 2) ∷ []

get_type_limits-enumeration_example :
    AreTightLimits
      (values_of (red ∷ others))
      (get_type_limits (type_info none 0 (enumeration 4 true (red ∷ others)) 0) nothing highest)
get_type_limits-enumeration_example =
    get_type_limits-enumeration none 0 4 0 true red others nothing highest

adjust_limits-IsWithin_example :
    IsWithin (nothing, highest) (adjust_limits (plain uint8) nothing highest none)
adjust_limits-IsWithin_example =
    adjust_limits-IsWithin coarse-IsIeee (plain uint8) nothing highest none refl refl refl

uint8-HasOwnLimits : HasOwnLimits coarse (plain uint8)
unfolding get_type_limits
uint8-HasOwnLimits a b c d = refl

uint8_limits_used :
    let new = adjust_limits (plain uint8) nothing highest none in
    (coarse.eq new.0 coarse.zero_f && coarse.eq new.1 coarse.zero_f) ≡ false
unfolding adjust_limits
uint8_limits_used = refl

adjust_limits-adjust_limits_example :
    let new = adjust_limits (plain uint8) nothing highest none in
    adjust_limits (plain uint8) new.0 new.1 none ≡ new
adjust_limits-adjust_limits_example =
    adjust_limits-adjust_limits coarse-IsIeee (plain uint8) nothing highest none uint8-HasOwnLimits
      refl refl uint8_limits_used

grid-IsDense : IsDense 1 grid
unfolding matrix_dim_values get_size
grid-IsDense = dense none 0 (array 6 (2 ∷ 3 ∷ []) 1 byte) 0 (
    dense_array 6 (2 ∷ 3 ∷ []) 1 byte refl refl (omega arith)
      (dense none 0 uint8 0 (no_array uint8 refl refl)))

product-set_matrix_dim_example : product (2 ∷ 3 ∷ []) * 1 ≡ get_size grid
product-set_matrix_dim_example =
    product-set_matrix_dim none grid true 1 (2 ∷ 3 ∷ []) grid-IsDense (inl refl)
      (unfold set_matrix_dim in refl)

test_bit-set_bitmask_example :
    masked_bit (set_bitmask none (type_info none 0 (bitfield byte 4 8) 0)) 5
    ≡ some (leb 4 5 && ltb 5 (8 + 4))
test_bit-set_bitmask_example = test_bit-set_bitmask byte none 0 0 none 4 8 5 (omega arith)

abbrev old_link : LinkMap
old_link = record {
  symbol_name = codes "var";
  address = pos 4096;
  address_ext = 0;
  ds_relative = 0;
  segment_offset = pos 0;
  datatype_valid = 0;
  datatype = 0;
  bit_offset = 3;
  hex = false;
}

update_ifdata_type_canape_ext-Codes_example :
    (m' : LinkMap) × (update_ifdata_type_canape_ext (some old_link) (plain sint16) ≡ some m')
    × Codes m'.datatype (true, 16)
    × (m'.datatype_valid ≡ 1)
update_ifdata_type_canape_ext-Codes_example =
    update_ifdata_type_canape_ext-Codes (plain sint16) (true, 16) old_link (unfold int_bits in refl)
