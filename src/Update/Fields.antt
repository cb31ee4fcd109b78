-- ===== src/Update/Fields.antt =====
-- src/update/mod.rs: the functions that set one optional keyword of an object.
pub mod Masks
pub mod Dimensions
use a2ltool.Prelude.{
  ℕ, zero, suc, ◌+◌, ◌-◌, ◌*◌, ◌/◌, ◌%◌, ◌^◌, Text, Option, none, some, Bool, true, false, List, [],
  ◌∷◌, ◌++◌, map, if◌then◌else◌, ltb, ◌==◌, take, text_eq, pos,
}
use a2ltool.DebugInfo.{TypeInfo, DbgDataType, type_info, bitfield, array, pointer, datatype}
use a2ltool.A2l.{SymbolLink, HexNumber, AddrType, pbyte, pword, plong, plonglong, direct}

unfoldable pub set_symbol_link : Option SymbolLink → Text → Option SymbolLink
set_symbol_link (some symbol_link) symbol_name =
    some (record symbol_link { symbol_name = symbol_name })
set_symbol_link none symbol_name = some (record { symbol_name = symbol_name; offset = pos 0 })

-- `u16::try_from(val).unwrap_or(u16::MAX)` and the same for u32.
abbrev pub to_u16 : ℕ → ℕ
to_u16 n = if ltb n (2 ^ 16) then n else 65535

abbrev pub to_u32 : ℕ → ℕ
to_u32 n = if ltb n (2 ^ 32) then n else 4294967295

-- The loop over the nested arrays.
unfoldable mutual
  pub matrix_dim_values : TypeInfo → List ℕ
  matrix_dim_values (type_info nm u t o) = datatype_dims t

  pub datatype_dims : DbgDataType → List ℕ
  datatype_dims (array size dim stride arraytype) =
      map (λ n. to_u16 n) dim ++ matrix_dim_values arraytype
  datatype_dims _ = []

-- `while matrix_dim_values.len() < 3 { matrix_dim_values.push(1) }`
abbrev pub pad_to_three : List ℕ → List ℕ
pad_to_three [] = 1 ∷ 1 ∷ 1 ∷ []
pad_to_three (a ∷ []) = a ∷ 1 ∷ 1 ∷ []
pad_to_three (a ∷ b ∷ []) = a ∷ b ∷ 1 ∷ []
pad_to_three (a ∷ b ∷ c ∷ r) = a ∷ b ∷ c ∷ r

abbrev pub matrix_dim_of : List ℕ → Bool → Option (List ℕ)
matrix_dim_of [] new_format = none
matrix_dim_of (v ∷ vs) true = some (v ∷ vs)
matrix_dim_of (v ∷ vs) false = some (take 3 (pad_to_three (v ∷ vs)))

-- The keyword that was there is replaced: its list is overwritten or it is deleted.
unfoldable pub set_matrix_dim : Option (List ℕ) → TypeInfo → Bool → Option (List ℕ)
unfolding matrix_dim_values
set_matrix_dim opt_matrix_dim typeinfo new_format =
    matrix_dim_of (matrix_dim_values typeinfo) new_format

-- An address of 0 may have been written in decimal. How the a2lfile crate writes the number of a
-- new keyword is an argument.
unfoldable pub set_measurement_ecu_address : Bool → Option HexNumber → ℕ → Option HexNumber
set_measurement_ecu_address new_hex (some ecu_address) address = some (record ecu_address {
  value = address % 2 ^ 32;
  hex = if ecu_address.value == 0 then true else ecu_address.hex;
})
set_measurement_ecu_address new_hex none address =
    some (record { value = address % 2 ^ 32; hex = new_hex })

-- In a release build the shifts take the low six bits of their counts, and the result wraps.
unfoldable pub wide_mask : ℕ → ℕ → ℕ
wide_mask bit_offset bit_size = (2 ^ (bit_size % 64) - 1) * 2 ^ (bit_offset % 64) % 2 ^ 64

abbrev pub mask_with : Option HexNumber → ℕ → Option HexNumber
mask_with (some bit_mask) mask = some (record bit_mask { value = mask })
mask_with none mask = some (record { value = mask; hex = true })

unfoldable pub bitmask_of : Option HexNumber → DbgDataType → Option HexNumber
unfolding wide_mask
bitmask_of opt_bitmask (bitfield basetype bit_offset bit_size) =
    mask_with opt_bitmask (to_u32 (wide_mask bit_offset bit_size))
bitmask_of opt_bitmask _ = opt_bitmask

-- A mask that is there stays if the type is no bitfield.
unfoldable pub set_bitmask : Option HexNumber → TypeInfo → Option HexNumber
unfolding bitmask_of
set_bitmask opt_bitmask typeinfo = bitmask_of opt_bitmask (datatype typeinfo)

abbrev pub pointer_type : ℕ → AddrType
pointer_type ptsize =
    if ptsize == 1
    then pbyte
    else if ptsize == 2
    then pword
    else if ptsize == 4
    then plong
    else if ptsize == 8
    then plonglong
    else direct

abbrev pub address_type_of : DbgDataType → Option AddrType
address_type_of (pointer ptsize dest) = some (pointer_type ptsize)
address_type_of _ = none

unfoldable pub set_address_type : Option AddrType → TypeInfo → Option AddrType
set_address_type address_type_opt newtype = address_type_of (datatype newtype)

unfoldable pub contains : List Text → Text → Bool
contains [] key = false
contains (item ∷ items) key = if text_eq item key then true else contains items key

-- `removed_items` is a set; its order does not matter.
unfoldable pub cleanup_item_list : List Text → List Text → List Text
unfolding contains
cleanup_item_list [] removed_items = []
cleanup_item_list (item ∷ items) removed_items =
    let kept = cleanup_item_list items removed_items in
    if contains removed_items item then kept else item ∷ kept
