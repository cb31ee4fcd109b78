-- ===== src/Update/Fields/Dimensions.antt =====
-- src/update/mod.rs: `set_matrix_dim` and the number of elements of an array.
use a2ltool.Prelude.{
  ℕ, ◌*◌, ◌^◌, ◌≤◌, ◌<◌, Text, Option, some, Bool, true, false, List, [], ◌∷◌, ◌++◌, map, length,
  take, ◌≡◌, ◌⊎◌, inl, inr, refl, arith, sym, ◌∙◌, ap,
}
use native.Mathlib.Nat.{mul_assoc}
use mathlib.Core.Option.{some-injective}
use a2ltool.DebugInfo.{TypeInfo, DbgDataType, type_info, array, get_size, datatype_size}
use a2ltool.Update.Fields.{
  set_matrix_dim, matrix_dim_of, matrix_dim_values, datatype_dims, pad_to_three, to_u16,
}

abbrev pub product : List ℕ → ℕ
product [] = 1
product (n ∷ ns) = n * product ns

abbrev AllU16 : List ℕ → Type 0
AllU16 [] = Unit {0}
AllU16 (n ∷ ns) = (n < 2 ^ 16) × AllU16 ns

-- An array whose elements stand one after the other, with dimensions that a u16 can hold, and so
-- do the arrays in it. `size_in` is the size of what is not an array in the end.
mutual
  pub data IsDense (size_in : ℕ) : TypeInfo → Type 0 where
    dense :
        (nm : Option Text) (u : ℕ) (t : DbgDataType) (o : ℕ)
        → IsDenseType size_in t
        → IsDense size_in (type_info nm u t o)

  pub data IsDenseType (size_in : ℕ) : DbgDataType → Type 0 where
    no_array :
        (t : DbgDataType) → datatype_dims t ≡ [] → datatype_size t ≡ size_in → IsDenseType size_in t
    dense_array :
        (size : ℕ) (dim : List ℕ) (stride : ℕ) (arraytype : TypeInfo)
        → size ≡ product dim * stride
        → stride ≡ get_size arraytype
        → AllU16 dim
        → IsDense size_in arraytype
        → IsDenseType size_in (array size dim stride arraytype)

product-append : (ms ns : List ℕ) → product (ms ++ ns) ≡ product ms * product ns
product-append [] ns = omega arith
product-append (m ∷ ms) ns = rw (product-append ms ns) (sym (mul_assoc m (product ms) (product ns)))

map-to_u16 : (ns : List ℕ) → AllU16 ns → map (λ n. to_u16 n) ns ≡ ns
map-to_u16 [] h = refl
map-to_u16 (n ∷ ns) h = ground (arith, map-to_u16 ns h.1)

mutual
  unfolding matrix_dim_values get_size

  dense-size :
      {size_in : ℕ} {t : TypeInfo}
      → IsDense size_in t
      → product (matrix_dim_values t) * size_in ≡ get_size t
  dense-size (dense nm u t o d) = dense_type-size d

  dense_type-size :
      {size_in : ℕ} {t : DbgDataType}
      → IsDenseType size_in t
      → product (datatype_dims t) * size_in ≡ datatype_size t
  dense_type-size (no_array t e s) = rw e (omega (arith, s))
  dense_type-size {size_in} (dense_array size dim stride arraytype e s small d) =
      rw (map-to_u16 dim small, product-append dim (matrix_dim_values arraytype))
        (mul_assoc (product dim) (product (matrix_dim_values arraytype)) size_in
          ∙ ap (λ n. product dim * n) (dense-size d ∙ sym s)
          ∙ sym e)

padded-product : (ns : List ℕ) → length ns ≤ 3 → product (take 3 (pad_to_three ns)) ≡ product ns
padded-product [] h = refl
padded-product (a ∷ []) h = refl
padded-product (a ∷ b ∷ []) h = refl
padded-product (a ∷ b ∷ c ∷ []) h = refl
padded-product (a ∷ b ∷ c ∷ d ∷ r) h = absurd (omega arith)

matrix_dim_of-product :
    (vs : List ℕ) (new_format : Bool) (dims : List ℕ)
    → (new_format ≡ true) ⊎ (length vs ≤ 3)
    → matrix_dim_of vs new_format ≡ some dims
    → product dims ≡ product vs
matrix_dim_of-product [] new_format dims fits e = cc
matrix_dim_of-product (v ∷ vs) true dims fits e = cc
matrix_dim_of-product (v ∷ vs) false dims (inl no_new) e = cc
matrix_dim_of-product (v ∷ vs) false dims (inr few) e =
    ap product (sym (some-injective _ _ e)) ∙ padded-product (v ∷ vs) few

-- For an array whose elements stand one after the other and whose dimensions fit into a u16,
-- nested in any way, the MATRIX_DIM that is set has as many elements as the array: their product
-- times the size of an element is the size of the type. In the format with exactly three
-- dimensions this holds for at most three dimensions.
pub product-set_matrix_dim :
    (old : Option (List ℕ)) (t : TypeInfo) (new_format : Bool) (size_in : ℕ) (dims : List ℕ)
    → IsDense size_in t
    → (new_format ≡ true) ⊎ (length (matrix_dim_values t) ≤ 3)
    → set_matrix_dim old t new_format ≡ some dims
    → product dims * size_in ≡ get_size t
unfolding set_matrix_dim
product-set_matrix_dim old t new_format size_in dims d fits e =
    rw (matrix_dim_of-product (matrix_dim_values t) new_format dims fits e) (dense-size d)
