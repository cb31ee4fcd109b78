-- ===== src/Update/IfData/TypeCode.antt =====
-- src/update/ifdata_update.rs: the number of bits and the sign in the type code of a LINK_MAP.
use mathlib.Core.Option.{some-injective, none-ne-some}
use a2ltool.Prelude.{
  ℕ, zero, suc, ◌+◌, ◌-◌, ◌/◌, ◌%◌, ◌≤◌, ◌<◌, Text, Option, none, some, Bool, true, false, ◌&&◌,
  ◌≡◌, refl, arith, ◌==◌, ==_iff, inl, inr, if◌then◌else◌, List, ℤ, ltb, leb, Bool-cases,
}
use a2ltool.DebugInfo.{
  TypeInfo, DbgDataType, type_info, uint8, uint16, uint32, uint64, sint8, sint16, sint32, sint64,
  bitfield, enumeration, array, datatype,
}
use a2ltool.DataTypes.{is_signed_int}
use a2ltool.Update.IfData.{
  LinkMap, link_type, link_datatype, update_ifdata_type_canape_ext, bitfield_code, enum_code,
}

-- The sign and the number of bits of an integer, an enumeration or a bitfield, or of the elements
-- of an array of such.
unfoldable mutual
  pub int_bits : TypeInfo → Option (Bool × ℕ)
  int_bits (type_info nm u t o) = datatype_bits t

  pub datatype_bits : DbgDataType → Option (Bool × ℕ)
  datatype_bits uint8 = some (false, 8)
  datatype_bits uint16 = some (false, 16)
  datatype_bits uint32 = some (false, 32)
  datatype_bits uint64 = some (false, 64)
  datatype_bits sint8 = some (true, 8)
  datatype_bits sint16 = some (true, 16)
  datatype_bits sint32 = some (true, 32)
  datatype_bits sint64 = some (true, 64)
  datatype_bits (enumeration size signed enumerators) =
      if size == 1
      then some (signed, 8)
      else if size == 2
      then some (signed, 16)
      else if size == 4
      then some (signed, 32)
      else if size == 8
      then some (signed, 64)
      else none
  datatype_bits (bitfield basetype bit_offset bit_size) =
      if ltb 0 bit_size && leb bit_size 64
      then some (is_signed_int (datatype basetype), bit_size)
      else none
  datatype_bits (array size dim stride arraytype) = int_bits arraytype
  datatype_bits _ = none

-- 0x80 marks an integer, 0x40 its sign, and the low six bits are the number of bits less one.
abbrev pub code_bits : ℕ → Bool × ℕ
code_bits code = (code / 64 % 2 == 1, code % 64 + 1)

-- The code is that of an integer, and the sign and the number of bits are read back from it.
abbrev pub Codes : ℕ → Bool × ℕ → Type 0
Codes code b = (code / 128 ≡ 1) × (code_bits code ≡ b)

-- All sizes from 1 to `n`.
all_sizes : ℕ → (ℕ → Bool) → Bool
all_sizes zero p = true
all_sizes (suc n) p = p (suc n) && all_sizes n p

all_sizes_sound : (n : ℕ) (p : ℕ → Bool) (x : ℕ) → all_sizes n p ≡ true → 0 < x → x ≤ n → p x ≡ true
unfolding all_sizes
all_sizes_sound zero p x h pos le = absurd (omega arith)
all_sizes_sound (suc n) p x h pos le = ground (arith, all_sizes_sound n p x)

abbrev is_code_of : Bool → ℕ → Bool
is_code_of signed size = bitfield_code signed size == (if signed then 192 else 128) + (size - 1)

code_table : (signed : Bool) → all_sizes 64 (is_code_of signed) ≡ true
unfolding all_sizes bitfield_code
code_table true = refl
code_table false = refl

plain_code-Codes :
    (signed : Bool) (size : ℕ)
    → 0 < size
    → size ≤ 64
    → Codes ((if signed then 192 else 128) + (size - 1)) (signed, size)
plain_code-Codes true size pos le = ground arith
plain_code-Codes false size pos le = ground arith

bitfield_code-Codes :
    (signed : Bool) (size : ℕ)
    → 0 < size
    → size ≤ 64
    → Codes (bitfield_code signed size) (signed, size)
bitfield_code-Codes signed size pos le =
    let e =
      (==_iff _ _).0 (all_sizes_sound 64 (is_code_of signed) size (code_table signed) pos le) in
    rw e (plain_code-Codes signed size pos le)

enum_code-Codes :
    (size : ℕ) (signed : Bool) (es : List (Text × ℤ)) (b : Bool × ℕ)
    → datatype_bits (enumeration size signed es) ≡ some b
    → Codes (enum_code size signed) b
unfolding datatype_bits
enum_code-Codes size true es b h = ground arith
enum_code-Codes size false es b h = ground arith

bits-Codes : (b c : Bool × ℕ) (code : ℕ) → some b ≡ some c → Codes code b → Codes code c
bits-Codes b c code e h = rw (← some-injective _ _ e) h

bitfield-Codes :
    (basetype : TypeInfo) (offset size : ℕ) (b : Bool × ℕ)
    → datatype_bits (bitfield basetype offset size) ≡ some b
    → Codes (bitfield_code (is_signed_int (datatype basetype)) size) b
unfolding datatype_bits
bitfield-Codes basetype offset size b h = elim (Bool-cases (ltb 0 size && leb size 64)) [
  | inl fits ↦
      bits-Codes (is_signed_int (datatype basetype), size) b _ (rw fits at h)
        (bitfield_code-Codes (is_signed_int (datatype basetype)) size (ground arith) (ground arith))
  | inr no_fit ↦ absurd (none-ne-some b (rw no_fit at h))
]

mutual
  unfolding int_bits link_type

  link_type-Codes :
      (t : TypeInfo) (b : Bool × ℕ) (m : LinkMap)
      → int_bits t ≡ some b
      → Codes (link_type t m).datatype b × ((link_type t m).datatype_valid ≡ 1)
  link_type-Codes (type_info nm u t o) b m h = link_datatype-Codes t b m h

  link_datatype-Codes :
      (t : DbgDataType) (b : Bool × ℕ) (m : LinkMap)
      → datatype_bits t ≡ some b
      → Codes (link_datatype t m).datatype b × ((link_datatype t m).datatype_valid ≡ 1)
  link_datatype-Codes uint8 b m h = (bits-Codes (false, 8) b 0x87 h (refl, refl), refl)
  link_datatype-Codes uint16 b m h = (bits-Codes (false, 16) b 0x8f h (refl, refl), refl)
  link_datatype-Codes uint32 b m h = (bits-Codes (false, 32) b 0x9f h (refl, refl), refl)
  link_datatype-Codes uint64 b m h = (bits-Codes (false, 64) b 0xbf h (refl, refl), refl)
  link_datatype-Codes sint8 b m h = (bits-Codes (true, 8) b 0xc7 h (refl, refl), refl)
  link_datatype-Codes sint16 b m h = (bits-Codes (true, 16) b 0xcf h (refl, refl), refl)
  link_datatype-Codes sint32 b m h = (bits-Codes (true, 32) b 0xdf h (refl, refl), refl)
  link_datatype-Codes sint64 b m h = (bits-Codes (true, 64) b 0xff h (refl, refl), refl)
  link_datatype-Codes (enumeration size signed es) b m h =
      (enum_code-Codes size signed es b h, refl)
  link_datatype-Codes (bitfield basetype offset size) b m h =
      (bitfield-Codes basetype offset size b h, refl)
  link_datatype-Codes (array size dim stride arraytype) b m h = link_type-Codes arraytype b m h
  link_datatype-Codes _ b m h = absurd (none-ne-some b h)

-- For an integer, an enumeration of 1, 2, 4 or 8 bytes or a bitfield of 1 to 64 bits, and for an
-- array of such, the type code that a LINK_MAP is given is valid, it is one of an integer, and the
-- sign and the number of bits of the type are read back from it.
pub update_ifdata_type_canape_ext-Codes :
    (t : TypeInfo) (b : Bool × ℕ) (m : LinkMap)
    → int_bits t ≡ some b
    → (m' : LinkMap) × (update_ifdata_type_canape_ext (some m) t ≡ some m')
      × Codes m'.datatype b
      × (m'.datatype_valid ≡ 1)
unfolding update_ifdata_type_canape_ext
update_ifdata_type_canape_ext-Codes t b m h =
    let (codes, valid) = link_type-Codes t b m h in (link_type t m, refl, codes, valid)
