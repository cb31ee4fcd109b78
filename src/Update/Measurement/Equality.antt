-- ===== src/Update/Measurement/Equality.antt =====
-- The derived comparisons of the a2lfile crate that src/update/measurement.rs uses. The layout of a
-- number is not compared; here it is the same on both sides wherever both are there.
use a2ltool.Prelude.{
  ℕ, Option, none, some, Bool, true, false, ◌&&◌, List, [], ◌∷◌, ◌==◌, ==_refl, ◌≡◌, refl, arith,
}
use a2ltool.DataTypes.{
  DataType, ubyte, sbyte, uword, sword, ulong, slong, a_uint64, a_int64, float16_ieee, float32_ieee,
  float64_ieee,
}
use a2ltool.A2l.{AddrType, pbyte, pword, plong, plonglong, direct, HexNumber}

abbrev pub addr_type_rank : AddrType → ℕ
addr_type_rank pbyte = 0
addr_type_rank pword = 1
addr_type_rank plong = 2
addr_type_rank plonglong = 3
addr_type_rank direct = 4

unfoldable pub addr_type_eq : Option AddrType → Option AddrType → Bool
addr_type_eq none none = true
addr_type_eq (some a) (some b) = addr_type_rank a == addr_type_rank b
addr_type_eq _ _ = false

pub addr_type_eq_refl : (a : Option AddrType) → addr_type_eq a a ≡ true
unfolding addr_type_eq
addr_type_eq_refl none = refl
addr_type_eq_refl (some a) = ==_refl (addr_type_rank a)

unfoldable pub list_eq : List ℕ → List ℕ → Bool
list_eq [] [] = true
list_eq (x ∷ xs) (y ∷ ys) = x == y && list_eq xs ys
list_eq _ _ = false

list_eq_refl : (xs : List ℕ) → list_eq xs xs ≡ true
unfolding list_eq
list_eq_refl [] = refl
list_eq_refl (x ∷ xs) = ground (arith, list_eq_refl xs)

unfoldable pub dims_eq : Option (List ℕ) → Option (List ℕ) → Bool
unfolding list_eq
dims_eq none none = true
dims_eq (some a) (some b) = list_eq a b
dims_eq _ _ = false

pub dims_eq_refl : (a : Option (List ℕ)) → dims_eq a a ≡ true
unfolding dims_eq
dims_eq_refl none = refl
dims_eq_refl (some a) = list_eq_refl a

unfoldable pub mask_eq : Option HexNumber → Option HexNumber → Bool
mask_eq none none = true
mask_eq (some a) (some b) = a.value == b.value
mask_eq _ _ = false

pub mask_eq_refl : (a : Option HexNumber) → mask_eq a a ≡ true
unfolding mask_eq
mask_eq_refl none = refl
mask_eq_refl (some a) = ==_refl a.value

abbrev pub data_type_rank : DataType → ℕ
data_type_rank ubyte = 0
data_type_rank sbyte = 1
data_type_rank uword = 2
data_type_rank sword = 3
data_type_rank ulong = 4
data_type_rank slong = 5
data_type_rank a_uint64 = 6
data_type_rank a_int64 = 7
data_type_rank float16_ieee = 8
data_type_rank float32_ieee = 9
data_type_rank float64_ieee = 10

unfoldable pub data_type_eq : DataType → DataType → Bool
data_type_eq a b = data_type_rank a == data_type_rank b

pub data_type_eq_refl : (a : DataType) → data_type_eq a a ≡ true
unfolding data_type_eq
data_type_eq_refl a = ==_refl (data_type_rank a)
