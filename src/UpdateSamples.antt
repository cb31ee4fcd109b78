-- ===== src/UpdateSamples.antt =====
-- Numbers, IF_DATA blocks and a module to update, like those of the tests in src/update/mod.rs.
use a2ltool.Prelude.{
  ℕ, zero, suc, ◌<◌, Text, codes, Option, none, some, true, false, [], ◌∷◌, ℤ, pos, negsuc, ltb,
  ◌==◌, Bool, ◌&&◌, text_eq, int_eq, refl, arith,
}
use a2ltool.Floats.{Floats, IsIeee}
use a2ltool.DataTypes.{
  DataType, ubyte, sbyte, uword, sword, ulong, slong, a_uint64, a_int64, float16_ieee, float32_ieee,
  float64_ieee,
}
use a2ltool.A2l.{Module, Measurement}
use a2ltool.Update.IfData.{A2lCrate, Decoded, LinkMap, DpBlob}
use a2ltool.Update.RecordLayouts.Equality.{option_eq}
use a2ltool.Update.IfData.Blocks.{LoadsStored}
use a2ltool.Update.Info.{A2lUpdateInfo, v1_7_0}
use a2ltool.Samples.{debug_data}

-- The coarsest numbers that compare as in IEEE 754.
pub data Coarse : Type 0 where
  minus_infinite lowest nothing highest infinite : Coarse

abbrev rank : Coarse → ℕ
rank minus_infinite = 0
rank lowest = 1
rank nothing = 2
rank highest = 3
rank infinite = 4

abbrev negated : Coarse → Coarse
negated minus_infinite = infinite
negated lowest = highest
negated nothing = nothing
negated highest = lowest
negated infinite = minus_infinite

abbrev from_integer : ℤ → Coarse
from_integer (pos n) = elim n [ zero ↦ nothing | suc k ↦ highest ]
from_integer (negsuc n) = lowest

instance abbrev pub coarse : Floats Coarse
coarse = record {
  from_int = from_integer;
  neg = negated;
  add = λ a b. a;
  sub = λ a b. a;
  mul = λ a b. a;
  div = λ a b. a;
  lt = λ a b. ltb (rank a) (rank b);
  eq = λ a b. rank a == rank b;
  zero_f = nothing;
  f64_min = lowest;
  f64_max = highest;
  f32_min = lowest;
  f32_max = highest;
  infinity = infinite;
}

rank-lt : (x : Coarse) → rank x < 5
rank-lt minus_infinite = omega arith
rank-lt lowest = omega arith
rank-lt nothing = omega arith
rank-lt highest = omega arith
rank-lt infinite = omega arith

pub coarse-IsIeee : IsIeee coarse
coarse-IsIeee = record {
  lt_irrefl = λ x. ground arith;
  above_max = λ x h. ground (arith, rank-lt x);
  below_min = λ x h. ground arith;
  min_lt = λ x y e h. ground arith;
  lt_max = λ x y e h. ground arith;
  infinity_lt = λ x y e. ground (arith, rank-lt x);
  lt_neg_infinity = λ x y e. ground arith;
  neg_infinity_lt_min = λ y e. ground arith;
  max_lt_infinity = λ y e. ground arith;
  min_finite = refl;
  max_finite = refl;
}

-- A block is what is decoded from it.
abbrev pub Block : Type 0
Block = Option Decoded

abbrev pub keyword : DataType → Text
keyword ubyte = codes "UBYTE"
keyword sbyte = codes "SBYTE"
keyword uword = codes "UWORD"
keyword sword = codes "SWORD"
keyword ulong = codes "ULONG"
keyword slong = codes "SLONG"
keyword a_uint64 = codes "A_UINT64"
keyword a_int64 = codes "A_INT64"
keyword float16_ieee = codes "FLOAT16_IEEE"
keyword float32_ieee = codes "FLOAT32_IEEE"
keyword float64_ieee = codes "FLOAT64_IEEE"

abbrev link_eq : LinkMap → LinkMap → Bool
link_eq a b =
    text_eq a.symbol_name b.symbol_name
    && (int_eq a.address b.address
        && (a.address_ext == b.address_ext
            && (a.ds_relative == b.ds_relative
                && (int_eq a.segment_offset b.segment_offset
                    && (a.datatype_valid == b.datatype_valid
                        && (a.datatype == b.datatype && a.bit_offset == b.bit_offset))))))

abbrev blob_eq : DpBlob → DpBlob → Bool
blob_eq a b =
    a.address_extension == b.address_extension
    && (a.base_address == b.base_address && a.size == b.size)

abbrev decoded_eq : Decoded → Decoded → Bool
decoded_eq a b =
    option_eq (λ x y. option_eq link_eq x y) a.canape_ext b.canape_ext
    && option_eq (λ x y. option_eq blob_eq x y) a.asap1b_ccp b.asap1b_ccp

instance abbrev pub plain_crate : A2lCrate Block
plain_crate = record {
  load_from_ifdata = λ x. x;
  store_to_ifdata = λ d x. some d;
  new_address_hex = true;
  type_text = keyword;
  if_data_eq = λ a b. option_eq decoded_eq a b;
}

pub plain_crate-LoadsStored : LoadsStored plain_crate
plain_crate-LoadsStored d x = refl

abbrev pub linked_block : Block
linked_block = some (record {
  canape_ext = some (
      some (record {
        symbol_name = codes "my_struct.last";
        address = pos 0;
        address_ext = 0;
        ds_relative = 0;
        segment_offset = pos 0;
        datatype_valid = 0;
        datatype = 0;
        bit_offset = 0;
        hex = false;
      }));
  asap1b_ccp = none;
})

abbrev pub measure : Text → Measurement Coarse Block
measure nm = record {
  name = nm;
  line = 7;
  datatype = sword;
  conversion = codes "NO_COMPU_METHOD";
  lower_limit = nothing;
  upper_limit = highest;
  var_virtual = false;
  symbol_link = none;
  if_data = [];
  ecu_address = none;
  address_type = none;
  matrix_dim = none;
  array_size = none;
  bit_mask = none;
}

-- One MEASUREMENT has a symbol, and the other has none.
abbrev pub sample_module : Module Coarse Block
sample_module = record {
  measurement = measure (codes "my_struct.last") ∷ measure (codes "lost") ∷ [];
  characteristic = [];
  axis_pts = [];
  blob = [];
  instances = [];
  record_layout = [];
  compu_method = [];
  compu_vtab = [];
  compu_vtab_range = [];
  group =
      record {
        ref_measurement = some (codes "lost" ∷ codes "my_struct.last" ∷ []);
        ref_characteristic = none;
      }
      ∷ [];
  function = [];
  transformer = [];
  typedef_characteristic = [];
  typedef_axis = [];
  typedef_structure = [];
  typedef_measurement = [];
  typedef_blob = [];
}

abbrev pub full_info : A2lUpdateInfo
full_info = record {
  debug_data = debug_data;
  preserve_unknown = false;
  strict_update = false;
  full_update = true;
  version = v1_7_0;
  enable_structures = false;
  compu_method_index = [];
}
