-- ===== src/DebugInfo.antt =====
-- src/debuginfo/mod.rs: the data that the DWARF and PDB readers produce, and the small accessors
-- of `TypeInfo`. The fields of `TypeInfo` are read by the functions of the same names, since a
-- record cannot stand in a mutual block.
-- The hash map `types` is a function, since nothing depends on its order; an `IndexMap` of members
-- is the list of its entries in their order.
pub mod UnitName
use a2ltool.Prelude.{
  ℕ, zero, suc, ◌+◌, ◌^◌, Text, Option, none, some, Bool, List, ℤ, text_eq, if◌then◌else◌,
}

mutual
  pub data TypeInfo : Type 0 where
    type_info : Option Text → ℕ → DbgDataType → ℕ → TypeInfo

  pub data DbgDataType : Type 0 where
    uint8 uint16 uint32 uint64 sint8 sint16 sint32 sint64 float double : DbgDataType
    bitfield : TypeInfo → ℕ → ℕ → DbgDataType
    pointer : ℕ → ℕ → DbgDataType
    struct : ℕ → Members → DbgDataType
    class : ℕ → Members → Members → DbgDataType
    union : ℕ → Members → DbgDataType
    enumeration : ℕ → Bool → List (Text × ℤ) → DbgDataType
    array : ℕ → List ℕ → ℕ → TypeInfo → DbgDataType
    type_ref : ℕ → ℕ → DbgDataType
    func_ptr : ℕ → DbgDataType
    other : ℕ → DbgDataType

  -- IndexMap<String, (TypeInfo, u64)>
  pub data Members : Type 0 where
    end : Members
    member : Text → TypeInfo → ℕ → Members → Members

abbrev pub TypeTable : Type 0
TypeTable = ℕ → Option TypeInfo

pub record VarInfo : Type 0 where
  pub address : ℕ
  pub typeref : ℕ
  pub unit_idx : ℕ
  pub function : Option Text
  pub namespaces : List Text

pub record DebugData : Type 0 where
  pub variables : List (Text × List VarInfo)
  pub types : TypeTable
  pub demangled_names : List (Text × Text)
  pub unit_names : List (Option Text)

abbrev pub name : TypeInfo → Option Text
name (type_info nm u t o) = nm

abbrev pub datatype : TypeInfo → DbgDataType
datatype (type_info nm u t o) = t

abbrev pub dbginfo_offset : TypeInfo → ℕ
dbginfo_offset (type_info nm u t o) = o

-- usize::MAX
abbrev pub usize_max : ℕ
usize_max = 18446744073709551615

-- IndexMap::get, IndexMap::get_index and IndexMap::len
unfoldable pub members_get : Members → Text → Option (TypeInfo × ℕ)
members_get end key = none
members_get (member k t o ms) key = if text_eq k key then some (t, o) else members_get ms key

unfoldable pub members_get_index : Members → ℕ → Option (Text × TypeInfo × ℕ)
members_get_index end i = none
members_get_index (member k t o ms) zero = some (k, t, o)
members_get_index (member k t o ms) (suc i) = members_get_index ms i

unfoldable pub members_len : Members → ℕ
members_len end = 0
members_len (member k t o ms) = suc (members_len ms)

unfoldable mutual
  pub get_size : TypeInfo → ℕ
  get_size (type_info nm u t o) = datatype_size t

  -- the match of `get_size` on `self.datatype`
  pub datatype_size : DbgDataType → ℕ
  datatype_size uint8 = 1
  datatype_size uint16 = 2
  datatype_size uint32 = 4
  datatype_size uint64 = 8
  datatype_size sint8 = 1
  datatype_size sint16 = 2
  datatype_size sint32 = 4
  datatype_size sint64 = 8
  datatype_size float = 4
  datatype_size double = 8
  datatype_size (bitfield basetype bit_offset bit_size) = get_size basetype
  datatype_size (pointer size dest) = size
  datatype_size (other size) = size
  datatype_size (struct size members) = size
  datatype_size (class size inheritance members) = size
  datatype_size (union size members) = size
  datatype_size (enumeration size signed enumerators) = size
  datatype_size (array size dim stride arraytype) = size
  datatype_size (func_ptr size) = size
  datatype_size (type_ref dest size) = size

abbrev members_of : DbgDataType → Option Members
members_of (struct size members) = some members
members_of (class size inheritance members) = some members
members_of (union size members) = some members
members_of _ = none

unfoldable pub get_members : TypeInfo → Option Members
get_members t = members_of (datatype t)

abbrev pointer_of : DbgDataType → TypeTable → Option (ℕ × TypeInfo)
pointer_of (pointer pt_size pt_ref) types = elim (types pt_ref) [
  | none ↦ none
  | some typeinfo ↦ some (pt_size, typeinfo)
]
pointer_of _ types = none

unfoldable pub get_pointer : TypeInfo → TypeTable → Option (ℕ × TypeInfo)
get_pointer t types = pointer_of (datatype t) types

abbrev arraytype_of : DbgDataType → Option TypeInfo
arraytype_of (array size dim stride arraytype) = some arraytype
arraytype_of _ = none

unfoldable pub get_arraytype : TypeInfo → Option TypeInfo
get_arraytype t = arraytype_of (datatype t)

abbrev pub unwrap_or {ℓ} : {A : Type ℓ} → Option A → A → A
unwrap_or none d = d
unwrap_or (some a) d = a

abbrev reference_of : DbgDataType → TypeInfo → TypeTable → TypeInfo
reference_of (type_ref dest size) self types = unwrap_or (types dest) self
reference_of _ self types = self

unfoldable pub get_reference : TypeInfo → TypeTable → TypeInfo
get_reference t types = reference_of (datatype t) t types
