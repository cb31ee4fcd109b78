-- ===== src/A2l.antt =====
-- The objects of an A2L file, with the fields that the program reads or writes; they are structs
-- of the a2lfile crate. A keyword of one value is that value, and an optional one is an `Option`.
-- `F` is the type of the `f64` numbers, and `D` that of the undecoded IF_DATA blocks.
use a2ltool.Prelude.{ℕ, Text, Option, Bool, List, ℤ}
use a2ltool.DataTypes.{DataType}

pub data AddrType : Type 0 where
  pbyte pword plong plonglong direct : AddrType

pub data ConversionType : Type 0 where
  identical form linear rat_func tab_intp tab_nointp tab_verb : ConversionType

pub record SymbolLink : Type 0 where
  pub symbol_name : Text
  pub offset : ℤ

-- A number with the flag of the file's layout that it is written in hexadecimal.
pub record HexNumber : Type 0 where
  pub value : ℕ
  pub hex : Bool

-- (a x^2 + b x + c) / (d x^2 + e x + f)
pub record Coeffs (F : Type 0) : Type 0 where
  pub a : F
  pub b : F
  pub c : F
  pub d : F
  pub e : F
  pub f : F

-- a x + b
pub record CoeffsLinear (F : Type 0) : Type 0 where
  pub a : F
  pub b : F

pub record CompuMethod (F : Type 0) : Type 0 where
  pub name : Text
  pub long_identifier : Text
  pub conversion_type : ConversionType
  pub format : Text
  pub unit : Text
  pub coeffs : Option (Coeffs F)
  pub coeffs_linear : Option (CoeffsLinear F)
  pub compu_tab_ref : Option Text

pub record CompuVtab (F : Type 0) : Type 0 where
  pub name : Text
  pub long_identifier : Text
  pub conversion_type : ConversionType
  pub number_value_pairs : ℕ
  pub value_pairs : List (F × Text)

-- A triple has the smallest and the largest value, and the text.
pub record CompuVtabRange (F : Type 0) : Type 0 where
  pub name : Text
  pub number_value_triples : ℕ
  pub value_triples : List (F × F × Text)

pub record Measurement (F D : Type 0) : Type 0 where
  pub name : Text
  pub line : ℕ
  pub datatype : DataType
  pub conversion : Text
  pub lower_limit : F
  pub upper_limit : F
  pub var_virtual : Bool
  pub symbol_link : Option SymbolLink
  pub if_data : List D
  pub ecu_address : Option HexNumber
  pub address_type : Option AddrType
  pub matrix_dim : Option (List ℕ)
  pub array_size : Option ℕ
  pub bit_mask : Option HexNumber

pub record Blob (D : Type 0) : Type 0 where
  pub name : Text
  pub line : ℕ
  pub start_address : ℕ
  pub size : ℕ
  pub symbol_link : Option SymbolLink
  pub if_data : List D

pub data CharacteristicType : Type 0 where
  ascii curve map cuboid cube_4 cube_5 val_blk value : CharacteristicType

-- An axis of its own, or one of an AXIS_PTS that it names.
pub record AxisDescr : Type 0 where
  pub input_quantity : Text
  pub max_axis_points : ℕ
  pub axis_pts_ref : Option Text

-- The flag of the address is that it is written in hexadecimal.
pub record Characteristic (F D : Type 0) : Type 0 where
  pub name : Text
  pub line : ℕ
  pub characteristic_type : CharacteristicType
  pub address : ℕ
  pub address_hex : Bool
  pub deposit : Text
  pub conversion : Text
  pub lower_limit : F
  pub upper_limit : F
  pub axis_descr : List AxisDescr
  pub comparison_quantity : Option Text
  pub bit_mask : Option HexNumber
  pub matrix_dim : Option (List ℕ)
  pub number : Option ℕ
  pub virtual_characteristic : Bool
  pub symbol_link : Option SymbolLink
  pub if_data : List D

pub record AxisPts (F D : Type 0) : Type 0 where
  pub name : Text
  pub line : ℕ
  pub address : ℕ
  pub address_hex : Bool
  pub input_quantity : Text
  pub deposit_record : Text
  pub conversion : Text
  pub max_axis_points : ℕ
  pub lower_limit : F
  pub upper_limit : F
  pub symbol_link : Option SymbolLink
  pub if_data : List D

pub record Instance (D : Type 0) : Type 0 where
  pub name : Text
  pub line : ℕ
  pub type_ref : Text
  pub start_address : ℕ
  pub address_hex : Bool
  pub address_type : Option AddrType
  pub matrix_dim : Option (List ℕ)
  pub symbol_link : Option SymbolLink
  pub if_data : List D

pub record TypedefCharacteristic : Type 0 where
  pub name : Text
  pub axis_descr : List AxisDescr
  pub record_layout : Text

pub record TypedefAxis : Type 0 where
  pub name : Text
  pub input_quantity : Text
  pub record_layout : Text

-- FNC_VALUES
pub record FncValues : Type 0 where
  pub position : ℕ
  pub datatype : DataType
  pub index_mode : Text
  pub address_type : AddrType

-- AXIS_PTS_X, AXIS_PTS_Y, AXIS_PTS_Z, AXIS_PTS_4 and AXIS_PTS_5
pub record AxisPtsDim : Type 0 where
  pub position : ℕ
  pub datatype : DataType
  pub index_order : Text
  pub address_type : AddrType

-- NO_AXIS_PTS_X and the others
pub record NoAxisPts : Type 0 where
  pub position : ℕ
  pub datatype : DataType

-- The keywords of one axis; FIX_NO_AXIS_PTS_X and the others are a number of points.
pub record AxisLayout : Type 0 where
  pub axis_pts : Option AxisPtsDim
  pub no_axis_pts : Option NoAxisPts
  pub fix_no_axis_pts : Option ℕ

-- The keywords that the program only compares are texts.
pub record RecordLayout : Type 0 where
  pub name : Text
  pub fnc_values : Option FncValues
  pub x : AxisLayout
  pub y : AxisLayout
  pub z : AxisLayout
  pub axis_4 : AxisLayout
  pub axis_5 : AxisLayout
  pub other_keywords : List Text

pub record Group : Type 0 where
  pub ref_measurement : Option (List Text)
  pub ref_characteristic : Option (List Text)

pub record FunctionBlock : Type 0 where
  pub in_measurement : Option (List Text)
  pub loc_measurement : Option (List Text)
  pub out_measurement : Option (List Text)
  pub def_characteristic : Option (List Text)
  pub ref_characteristic : Option (List Text)

pub record Transformer : Type 0 where
  pub transformer_in_objects : Option (List Text)
  pub transformer_out_objects : Option (List Text)

-- Of a TYPEDEF_STRUCTURE, TYPEDEF_MEASUREMENT or TYPEDEF_BLOB there is only the name.
pub record Module (F D : Type 0) : Type 0 where
  pub measurement : List (Measurement F D)
  pub characteristic : List (Characteristic F D)
  pub axis_pts : List (AxisPts F D)
  pub blob : List (Blob D)
  pub instances : List (Instance D)
  pub record_layout : List RecordLayout
  pub compu_method : List (CompuMethod F)
  pub compu_vtab : List (CompuVtab F)
  pub compu_vtab_range : List (CompuVtabRange F)
  pub group : List Group
  pub function : List FunctionBlock
  pub transformer : List Transformer
  pub typedef_characteristic : List TypedefCharacteristic
  pub typedef_axis : List TypedefAxis
  pub typedef_structure : List Text
  pub typedef_measurement : List Text
  pub typedef_blob : List Text
