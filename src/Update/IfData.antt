-- ===== src/Update/IfData.antt =====
-- src/update/ifdata_update.rs: the copies of an object's address and type in its IF_DATA, and
-- `get_symbol_name_from_ifdata` of src/update/mod.rs. The parts LINK_MAP and DP_BLOB are those of
-- src/ifdata.rs. Decoding and encoding is code that a macro of the a2lfile crate generates: an
-- argument.
pub mod Blocks
pub mod TypeCode
use Prim.Native.Nat.{bit_or}
use a2ltool.Prelude.{
  ℕ, ◌+◌, ◌-◌, ◌%◌, ◌^◌, Text, Option, none, some, Bool, true, false, List, [], ◌∷◌, ◌==◌, ℤ, pos,
  if◌then◌else◌, int_eq,
}
use a2ltool.DebugInfo.{
  TypeInfo, DbgDataType, type_info, uint8, uint16, uint32, uint64, sint8, sint16, sint32, sint64,
  float, double, bitfield, enumeration, array, datatype,
}
use a2ltool.DataTypes.{DataType, is_signed_int}
use a2ltool.Symbol.Offset.{as_i32}

pub record LinkMap : Type 0 where
  pub symbol_name : Text
  pub address : ℤ
  pub address_ext : ℕ
  pub ds_relative : ℕ
  pub segment_offset : ℤ
  pub datatype_valid : ℕ
  pub datatype : ℕ
  pub bit_offset : ℕ
  -- the layout flag of `address`
  pub hex : Bool

pub record DpBlob : Type 0 where
  pub address_extension : ℕ
  pub base_address : ℕ
  pub size : ℕ

-- The parts of a decoded block that the update reads: `canape_ext` and its `link_map`, and
-- `asap1b_ccp` and its `dp_blob`.
pub record Decoded : Type 0 where
  pub canape_ext : Option (Option LinkMap)
  pub asap1b_ccp : Option (Option DpBlob)

-- `store_to_ifdata` writes these parts and keeps the others. `new_address_hex` says how the crate
-- writes the number of a new ECU_ADDRESS, and `type_text` is the keyword of a data type.
-- `if_data_eq` is the derived comparison.
pub record A2lCrate (D : Type 0) : Type 0 where
  pub load_from_ifdata : D → Option Decoded
  pub store_to_ifdata : Decoded → D → D
  pub new_address_hex : Bool
  pub type_text : DataType → Text
  pub if_data_eq : D → D → Bool

abbrev pub update_link_address : ℕ → Text → LinkMap → LinkMap
update_link_address address symbol_name link_map = record link_map {
  hex = if int_eq link_map.address (pos 0) then true else link_map.hex;
  address = as_i32 address;
  symbol_name = symbol_name;
  datatype = 0;
  bit_offset = 0;
  datatype_valid = 0;
}

abbrev pub map_option {ℓ} : {A : Type ℓ} → (A → A) → Option A → Option A
map_option f none = none
map_option f (some a) = some (f a)

unfoldable pub update_ifdata_address_canape_ext : Option LinkMap → ℕ → Text → Option LinkMap
update_ifdata_address_canape_ext link_map address symbol_name =
    map_option (update_link_address address symbol_name) link_map

unfoldable pub update_ifdata_address_asap1b_ccp : Option DpBlob → ℕ → Option DpBlob
update_ifdata_address_asap1b_ccp dp_blob address =
    map_option (λ b. record b { address_extension = 0; base_address = address % 2 ^ 32; size = 0 })
      dp_blob

abbrev pub set_type : ℕ → ℕ → ℕ → LinkMap → LinkMap
set_type code bit_offset valid link_map = record link_map {
  datatype = code;
  bit_offset = bit_offset;
  datatype_valid = valid;
}

abbrev pub enum_code : ℕ → Bool → ℕ
enum_code size signed =
    if size == 1
    then (if signed then 0xc7 else 0x87)
    else if size == 2
    then (if signed then 0xcf else 0x8f)
    else if size == 4
    then (if signed then 0xdf else 0x9f)
    else if size == 8
    then (if signed then 0xff else 0xbf)
    else 0

-- `0x80 | signed | (bit_size - 1)` on u16, where the subtraction wraps in a release build.
unfoldable pub bitfield_code : Bool → ℕ → ℕ
bitfield_code signed bit_size =
    bit_or (bit_or 0x80 (if signed then 0x40 else 0)) ((bit_size + 65535) % 65536)

-- The code, the bit offset and the validity that a type is given.
unfoldable mutual
  unfolding bitfield_code

  pub link_type : TypeInfo → LinkMap → LinkMap
  link_type (type_info nm u t o) link_map = link_datatype t link_map

  -- the match of `update_ifdata_type_canape_ext` on `typeinfo.datatype`
  pub link_datatype : DbgDataType → LinkMap → LinkMap
  link_datatype uint8 link_map = set_type 0x87 0 1 link_map
  link_datatype uint16 link_map = set_type 0x8f 0 1 link_map
  link_datatype uint32 link_map = set_type 0x9f 0 1 link_map
  link_datatype uint64 link_map = set_type 0xbf 0 1 link_map
  link_datatype sint8 link_map = set_type 0xc7 0 1 link_map
  link_datatype sint16 link_map = set_type 0xcf 0 1 link_map
  link_datatype sint32 link_map = set_type 0xdf 0 1 link_map
  link_datatype sint64 link_map = set_type 0xff 0 1 link_map
  link_datatype float link_map = set_type 0x01 0 1 link_map
  link_datatype double link_map = set_type 0x02 0 1 link_map
  link_datatype (enumeration size signed enumerators) link_map =
      set_type (enum_code size signed) 0 1 link_map
  link_datatype (bitfield basetype bit_offset bit_size) link_map =
      set_type (bitfield_code (is_signed_int (datatype basetype)) bit_size) bit_offset 1 link_map
  link_datatype (array size dim stride arraytype) link_map = link_type arraytype link_map
  link_datatype _ link_map = set_type 0 0 0 link_map

unfoldable pub update_ifdata_type_canape_ext : Option LinkMap → TypeInfo → Option LinkMap
unfolding link_type
update_ifdata_type_canape_ext link_map typeinfo = map_option (link_type typeinfo) link_map

abbrev set_size : ℕ → DpBlob → DpBlob
set_size n dp_blob = record dp_blob { size = n }

unfoldable mutual
  pub blob_type : TypeInfo → DpBlob → DpBlob
  blob_type (type_info nm u t o) dp_blob = blob_datatype t dp_blob

  -- the match of `update_ifdata_type_asap1b_ccp` on `typeinfo.datatype`
  pub blob_datatype : DbgDataType → DpBlob → DpBlob
  blob_datatype uint8 dp_blob = set_size 1 dp_blob
  blob_datatype sint8 dp_blob = set_size 1 dp_blob
  blob_datatype uint16 dp_blob = set_size 2 dp_blob
  blob_datatype sint16 dp_blob = set_size 2 dp_blob
  blob_datatype float dp_blob = set_size 4 dp_blob
  blob_datatype uint32 dp_blob = set_size 4 dp_blob
  blob_datatype sint32 dp_blob = set_size 4 dp_blob
  blob_datatype double dp_blob = set_size 8 dp_blob
  blob_datatype uint64 dp_blob = set_size 8 dp_blob
  blob_datatype sint64 dp_blob = set_size 8 dp_blob
  blob_datatype (enumeration size signed enumerators) dp_blob = set_size (size % 2 ^ 32) dp_blob
  blob_datatype (array size dim stride arraytype) dp_blob = blob_type arraytype dp_blob
  blob_datatype _ dp_blob = dp_blob

unfoldable pub update_ifdata_type_asap1b_ccp : Option DpBlob → TypeInfo → Option DpBlob
unfolding blob_type
update_ifdata_type_asap1b_ccp dp_blob typeinfo = map_option (blob_type typeinfo) dp_blob

abbrev pub zero_link : LinkMap → LinkMap
zero_link link_map = record link_map {
  address = pos 0;
  datatype = 0;
  bit_offset = 0;
  datatype_valid = 0;
}

abbrev pub zero_blob : DpBlob → DpBlob
zero_blob dp_blob = record dp_blob { address_extension = 0; base_address = 0 }

-- The part that is there is changed, CANAPE_EXT before ASAP1B_CCP; `none` stores nothing.
abbrev pub change :
    (Option LinkMap → Option LinkMap)
    → (Option DpBlob → Option DpBlob)
    → Decoded
    → Option (Option LinkMap)
    → Option (Option DpBlob)
    → Option Decoded
change on_link on_blob decoded (some link_map) ccp =
    some (record decoded { canape_ext = some (on_link link_map) })
change on_link on_blob decoded none (some dp_blob) =
    some (record decoded { asap1b_ccp = some (on_blob dp_blob) })
change on_link on_blob decoded none none = none

abbrev pub or_same {ℓ} : {A : Type ℓ} → Option A → A → A
or_same none a = a
or_same (some b) a = b

abbrev pub address_change : Text → ℕ → Decoded → Option Decoded
address_change symbol_name address decoded =
    change (λ l. update_ifdata_address_canape_ext l address symbol_name)
      (λ b. update_ifdata_address_asap1b_ccp b address) decoded decoded.canape_ext
      decoded.asap1b_ccp

abbrev pub type_change : TypeInfo → Decoded → Option Decoded
type_change typeinfo decoded =
    change (λ l. update_ifdata_type_canape_ext l typeinfo)
      (λ b. update_ifdata_type_asap1b_ccp b typeinfo) decoded decoded.canape_ext decoded.asap1b_ccp

-- A decoded block is stored in any case.
abbrev pub zero_change : Decoded → Option Decoded
zero_change decoded = some (
    or_same
      (change (map_option zero_link) (map_option zero_blob) decoded decoded.canape_ext
        decoded.asap1b_ccp)
      decoded)

abbrev pub link_name_of : Option (Option LinkMap) → Option Text
link_name_of (some (some link_map)) = some link_map.symbol_name
link_name_of _ = none

abbrev pub decoded_link_name : Option Decoded → Option Text
decoded_link_name none = none
decoded_link_name (some decoded) = link_name_of decoded.canape_ext

-- The first name ends the search.
abbrev pub or_else : Option Text → Option Text → Option Text
or_else none b = b
or_else (some a) b = some a

module _ {D : Type 0} ⦃a2l : A2lCrate D⦄ where
  abbrev pub store : Option Decoded → D → D
  store none ifdata = ifdata
  store (some decoded) ifdata = a2l.store_to_ifdata decoded ifdata

  abbrev pub change_block : (Decoded → Option Decoded) → D → Option Decoded → D
  change_block f ifdata none = ifdata
  change_block f ifdata (some decoded) = store (f decoded) ifdata

  -- The loop over the blocks.
  unfoldable pub change_all : (Decoded → Option Decoded) → List D → List D
  change_all f [] = []
  change_all f (ifdata ∷ rest) =
      change_block f ifdata (a2l.load_from_ifdata ifdata) ∷ change_all f rest

  unfoldable pub update_ifdata_address : List D → Text → ℕ → List D
  unfolding change_all update_ifdata_address_canape_ext update_ifdata_address_asap1b_ccp
  update_ifdata_address ifdata_vec symbol_name address =
      change_all (address_change symbol_name address) ifdata_vec

  unfoldable pub update_ifdata_type : List D → TypeInfo → List D
  unfolding change_all update_ifdata_type_canape_ext update_ifdata_type_asap1b_ccp
  update_ifdata_type ifdata_vec typeinfo = change_all (type_change typeinfo) ifdata_vec

  unfoldable pub zero_if_data : List D → List D
  unfolding change_all
  zero_if_data ifdata_vec = change_all zero_change ifdata_vec

  unfoldable pub get_symbol_name_from_ifdata : List D → Option Text
  get_symbol_name_from_ifdata [] = none
  get_symbol_name_from_ifdata (ifdata ∷ rest) =
      or_else (decoded_link_name (a2l.load_from_ifdata ifdata)) (get_symbol_name_from_ifdata rest)
