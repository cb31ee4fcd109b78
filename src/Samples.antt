-- ===== src/Samples.antt =====
-- Types and debug data like those of the unit tests in src/debuginfo/iter.rs and src/symbol.rs.
use a2ltool.Prelude.{ℕ, Text, codes, Option, none, some, [], ◌∷◌, ◌==◌, if◌then◌else◌}
use a2ltool.DebugInfo.{
  TypeInfo, DbgDataType, type_info, uint8, uint32, struct, array, end, member, DebugData, VarInfo,
}

abbrev pub plain : DbgDataType → TypeInfo
plain d = type_info none 0 d 0

abbrev pub byte : TypeInfo
byte = plain uint8

-- uint32_t x[2]
abbrev pub pair_array : TypeInfo
pair_array = plain (array 8 (2 ∷ []) 4 (plain uint32))

-- uint8_t x[2][3]
abbrev pub grid : TypeInfo
grid = plain (array 6 (2 ∷ 3 ∷ []) 1 byte)

-- struct { uint32_t array_item[2]; uint8_t last; }
abbrev pub my_struct : TypeInfo
my_struct =
    plain (struct 12 (member (codes "array_item") pair_array 0 (member (codes "last") byte 8 end)))

abbrev pub types : ℕ → Option TypeInfo
types n = if n == 1 then some my_struct else none

abbrev pub var_at : ℕ → ℕ → Option Text → VarInfo
var_at addr unit func = record {
  address = addr;
  typeref = 1;
  unit_idx = unit;
  function = func;
  namespaces = [];
}

abbrev pub debug_data : DebugData
debug_data = record {
  variables =
      (codes "my_struct", var_at 4096 0 none ∷ [])
      ∷ (
        codes "var",
        var_at 0 0 (some (codes "func_a"))
            ∷ var_at 1000 1 (some (codes "func_b"))
            ∷ var_at 2000 1 (some (codes "func_c"))
            ∷ [],
      )
      ∷ [];
  types = types;
  demangled_names = (codes "S::m", codes "my_struct") ∷ [];
  unit_names = some (codes "file1.c") ∷ some (codes "src/file2.c") ∷ [];
}
