-- ===== src/DataTypes.antt =====
-- src/datatype.rs: the A2L data type of a type of the program, and the limits of its values.
pub mod Sizes
pub mod Limits
use a2ltool.Prelude.{
  ℕ, ◌/◌, ◌%◌, ◌^◌, Text, Bool, true, false, List, [], ◌∷◌, map, ℤ, pos, negsuc, int_leb,
  if◌then◌else◌, ◌==◌,
}
use a2ltool.DebugInfo.{
  TypeInfo, DbgDataType, type_info, uint8, uint16, uint32, uint64, sint8, sint16, sint32, sint64,
  float, double, bitfield, pointer, struct, class, union, enumeration, array, type_ref, func_ptr,
  other, datatype,
}
use a2ltool.Floats.{Floats}

-- The enumeration of the a2lfile crate.
pub data DataType : Type 0 where
  ubyte sbyte uword sword ulong slong a_uint64 a_int64 : DataType
  float16_ieee float32_ieee float64_ieee : DataType

abbrev unsigned_type : ℕ → DataType
unsigned_type size =
    if size == 8 then a_uint64 else if size == 4 then ulong else if size == 2 then uword else ubyte

abbrev signed_type : ℕ → DataType
signed_type size =
    if size == 8 then a_int64 else if size == 4 then slong else if size == 2 then sword else sbyte

unfoldable mutual
  pub get_a2l_datatype : TypeInfo → DataType
  get_a2l_datatype (type_info nm u t o) = a2l_type t

  -- the match of `get_a2l_datatype` on `typeinfo.datatype`
  pub a2l_type : DbgDataType → DataType
  a2l_type uint8 = ubyte
  a2l_type uint16 = uword
  a2l_type uint32 = ulong
  a2l_type uint64 = a_uint64
  a2l_type sint8 = sbyte
  a2l_type sint16 = sword
  a2l_type sint32 = slong
  a2l_type sint64 = a_int64
  a2l_type float = float32_ieee
  a2l_type double = float64_ieee
  a2l_type (bitfield basetype bit_offset bit_size) = get_a2l_datatype basetype
  a2l_type (pointer size dest) = if size == 8 then a_uint64 else ulong
  a2l_type (enumeration size signed enumerators) =
      if signed then signed_type size else unsigned_type size
  a2l_type (other size) = unsigned_type size
  a2l_type (array size dim stride arraytype) = get_a2l_datatype arraytype
  a2l_type (struct size members) = ubyte
  a2l_type (class size inheritance members) = ubyte
  a2l_type (union size members) = ubyte
  a2l_type (type_ref dest size) = ubyte
  a2l_type (func_ptr size) = ubyte

-- The basetypes of a bitfield that the limits and the IF_DATA type code take as signed.
abbrev pub is_signed_int : DbgDataType → Bool
is_signed_int sint8 = true
is_signed_int sint16 = true
is_signed_int sint32 = true
is_signed_int sint64 = true
is_signed_int _ = false

abbrev pub int_min : ℤ → ℤ → ℤ
int_min a b = if int_leb a b then a else b

abbrev pub int_max : ℤ → ℤ → ℤ
int_max a b = if int_leb a b then b else a

-- `iter().min().unwrap_or(0)` and `iter().max().unwrap_or(0)`, folded from the left.
abbrev pub fold_with : (ℤ → ℤ → ℤ) → ℤ → List ℤ → ℤ
fold_with f acc [] = acc
fold_with f acc (v ∷ vs) = fold_with f (f acc v) vs

unfoldable pub extreme : (ℤ → ℤ → ℤ) → List ℤ → ℤ
extreme f [] = pos 0
extreme f (v ∷ vs) = fold_with f v vs

abbrev pub values_of : List (Text × ℤ) → List ℤ
values_of enumerators = map (λ e. e.1) enumerators

module _ {F : Type 0} ⦃fl : Floats F⦄ where
  -- In a release build the shift takes the low six bits of its count.
  unfoldable pub bitfield_limits : Bool → ℕ → F × F
  bitfield_limits signed bit_size =
      let raw_range : ℕ = 2 ^ (bit_size % 64) in
      if signed
      then (fl.neg (fl.from_int (pos (raw_range / 2))), fl.from_int (pos (raw_range / 2)))
      else (fl.zero_f, fl.from_int (pos raw_range))

  unfoldable mutual
    unfolding bitfield_limits extreme

    pub get_type_limits : TypeInfo → F → F → F × F
    get_type_limits (type_info nm u t o) default_lower default_upper =
        type_limits t default_lower default_upper

    -- the match of `get_type_limits` on `typeinfo.datatype`
    pub type_limits : DbgDataType → F → F → F × F
    type_limits (array size dim stride arraytype) lower upper =
        get_type_limits arraytype lower upper
    type_limits (bitfield basetype bit_offset bit_size) lower upper =
        bitfield_limits (is_signed_int (datatype basetype)) bit_size
    type_limits double lower upper = (fl.f64_min, fl.f64_max)
    type_limits float lower upper = (fl.f32_min, fl.f32_max)
    type_limits uint8 lower upper = (fl.from_int (pos 0), fl.from_int (pos 255))
    type_limits uint16 lower upper = (fl.from_int (pos 0), fl.from_int (pos 65535))
    type_limits uint32 lower upper = (fl.from_int (pos 0), fl.from_int (pos 4294967295))
    type_limits uint64 lower upper = (fl.from_int (pos 0), fl.from_int (pos 18446744073709551615))
    type_limits sint8 lower upper = (fl.from_int (negsuc 127), fl.from_int (pos 127))
    type_limits sint16 lower upper = (fl.from_int (negsuc 32767), fl.from_int (pos 32767))
    type_limits sint32 lower upper = (fl.from_int (negsuc 2147483647), fl.from_int (pos 2147483647))
    type_limits sint64 lower upper =
        (fl.from_int (negsuc 9223372036854775807), fl.from_int (pos 9223372036854775807))
    type_limits (enumeration size signed enumerators) lower upper = (
      fl.from_int (extreme int_min (values_of enumerators)),
      fl.from_int (extreme int_max (values_of enumerators)),
    )
    type_limits (pointer size dest) lower upper = (lower, upper)
    type_limits (other size) lower upper = (lower, upper)
    type_limits (struct size members) lower upper = (lower, upper)
    type_limits (class size inheritance members) lower upper = (lower, upper)
    type_limits (union size members) lower upper = (lower, upper)
    type_limits (type_ref dest size) lower upper = (lower, upper)
    type_limits (func_ptr size) lower upper = (lower, upper)
