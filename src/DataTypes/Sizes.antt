-- ===== src/DataTypes/Sizes.antt =====
-- src/datatype.rs: the A2L data type has the size of the value that it describes.
use a2ltool.Prelude.{ℕ, Text, Bool, Option, List, ℤ, ◌≡◌, ◌⊎◌, refl, arith, true, false}
use a2ltool.DebugInfo.{
  TypeInfo, DbgDataType, type_info, uint8, uint16, uint32, uint64, sint8, sint16, sint32, sint64,
  float, double, bitfield, pointer, enumeration, other, get_size, datatype_size,
}
use a2ltool.DataTypes.{
  DataType, ubyte, sbyte, uword, sword, ulong, slong, a_uint64, a_int64, float16_ieee, float32_ieee,
  float64_ieee, get_a2l_datatype, a2l_type,
}

-- The size in bytes of an A2L data type, as ASAP2 defines it.
abbrev pub a2l_size : DataType → ℕ
a2l_size ubyte = 1
a2l_size sbyte = 1
a2l_size uword = 2
a2l_size sword = 2
a2l_size ulong = 4
a2l_size slong = 4
a2l_size a_uint64 = 8
a2l_size a_int64 = 8
a2l_size float16_ieee = 2
a2l_size float32_ieee = 4
a2l_size float64_ieee = 8

abbrev IsWordSize : ℕ → Type 0
IsWordSize n = (n ≡ 1) ⊎ ((n ≡ 2) ⊎ ((n ≡ 4) ⊎ (n ≡ 8)))

-- A value that a measurement can hold: a number, a bitfield of numbers, a pointer of 4 or 8
-- bytes, or an enumeration or unknown type of 1, 2, 4 or 8 bytes.
mutual
  pub data IsScalar : TypeInfo → Type 0 where
    scalar :
        (nm : Option Text) (u : ℕ) (t : DbgDataType) (o : ℕ)
        → IsScalarType t
        → IsScalar (type_info nm u t o)

  pub data IsScalarType : DbgDataType → Type 0 where
    is_uint8 : IsScalarType uint8
    is_uint16 : IsScalarType uint16
    is_uint32 : IsScalarType uint32
    is_uint64 : IsScalarType uint64
    is_sint8 : IsScalarType sint8
    is_sint16 : IsScalarType sint16
    is_sint32 : IsScalarType sint32
    is_sint64 : IsScalarType sint64
    is_float : IsScalarType float
    is_double : IsScalarType double
    is_bitfield : (t : TypeInfo) (off size : ℕ) → IsScalar t → IsScalarType (bitfield t off size)
    is_pointer : (size dest : ℕ) → (size ≡ 4) ⊎ (size ≡ 8) → IsScalarType (pointer size dest)
    is_enumeration :
        (size : ℕ) (signed : Bool) (es : List (Text × ℤ))
        → IsWordSize size
        → IsScalarType (enumeration size signed es)
    is_other : (size : ℕ) → IsWordSize size → IsScalarType (other size)

word_size-unsigned : (size : ℕ) → IsWordSize size → a2l_size (a2l_type (other size)) ≡ size
unfolding a2l_type
word_size-unsigned size h = ground arith

word_size-enumeration :
    (size : ℕ) (signed : Bool) (es : List (Text × ℤ))
    → IsWordSize size
    → a2l_size (a2l_type (enumeration size signed es)) ≡ size
unfolding a2l_type
word_size-enumeration size true es h = ground arith
word_size-enumeration size false es h = ground arith

word_size-pointer :
    (size dest : ℕ) → (size ≡ 4) ⊎ (size ≡ 8) → a2l_size (a2l_type (pointer size dest)) ≡ size
unfolding a2l_type
word_size-pointer size dest h = ground arith

mutual
  unfolding get_a2l_datatype get_size

  scalar-size : {t : TypeInfo} → IsScalar t → a2l_size (get_a2l_datatype t) ≡ get_size t
  scalar-size (scalar nm u t o s) = scalar_type-size s

  scalar_type-size : {t : DbgDataType} → IsScalarType t → a2l_size (a2l_type t) ≡ datatype_size t
  scalar_type-size is_uint8 = refl
  scalar_type-size is_uint16 = refl
  scalar_type-size is_uint32 = refl
  scalar_type-size is_uint64 = refl
  scalar_type-size is_sint8 = refl
  scalar_type-size is_sint16 = refl
  scalar_type-size is_sint32 = refl
  scalar_type-size is_sint64 = refl
  scalar_type-size is_float = refl
  scalar_type-size is_double = refl
  scalar_type-size (is_bitfield t off size s) = scalar-size s
  scalar_type-size (is_pointer size dest h) = word_size-pointer size dest h
  scalar_type-size (is_enumeration size signed es h) = word_size-enumeration size signed es h
  scalar_type-size (is_other size h) = word_size-unsigned size h

-- For a number, a bitfield of scalars, a pointer of 4 or 8 bytes, and an enumeration or unknown
-- type of 1, 2, 4 or 8 bytes, the A2L data type has the size in bytes of the value.
pub a2l_size-get_a2l_datatype :
    (t : TypeInfo) → IsScalar t → a2l_size (get_a2l_datatype t) ≡ get_size t
a2l_size-get_a2l_datatype t s = scalar-size s
