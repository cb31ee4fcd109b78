-- ===== src/Update/RecordLayouts/Equality.antt =====
-- src/update/record_layout.rs: the derived comparison of RECORD_LAYOUTs, and `compare_rl_content`.
-- The layout of the file is not compared.
use a2ltool.Prelude.{
  ℕ, zero, suc, Option, none, some, Bool, true, false, ◌&&◌, ◌==◌, text_eq, texts_eq, text_eq_sound,
  texts_eq_iff, ◌≡◌, refl, sym, ap, ◌∙◌, arith,
}
use a2ltool.A2l.{
  RecordLayout, AxisLayout, AxisPtsDim, NoAxisPts, FncValues, AddrType, pbyte, pword, plong,
  plonglong, direct,
}
use a2ltool.Update.Measurement.Equality.{addr_type_eq, data_type_eq, data_type_rank, addr_type_rank}
use a2ltool.DataTypes.{
  DataType, ubyte, sbyte, uword, sword, ulong, slong, a_uint64, a_int64, float16_ieee, float32_ieee,
  float64_ieee,
}

abbrev pub option_eq : {A : Type 0} → (A → A → Bool) → Option A → Option A → Bool
option_eq eq none none = true
option_eq eq (some a) (some b) = eq a b
option_eq eq (some a) none = false
option_eq eq none (some b) = false

unfoldable pub axis_pts_dim_eq : AxisPtsDim → AxisPtsDim → Bool
unfolding data_type_eq addr_type_eq
axis_pts_dim_eq a b =
    a.position == b.position
    && (data_type_eq a.datatype b.datatype
        && (text_eq a.index_order b.index_order
            && addr_type_eq (some a.address_type) (some b.address_type)))

unfoldable pub no_axis_pts_eq : NoAxisPts → NoAxisPts → Bool
unfolding data_type_eq
no_axis_pts_eq a b = a.position == b.position && data_type_eq a.datatype b.datatype

unfoldable pub fnc_values_eq : FncValues → FncValues → Bool
unfolding data_type_eq addr_type_eq
fnc_values_eq a b =
    a.position == b.position
    && (data_type_eq a.datatype b.datatype
        && (text_eq a.index_mode b.index_mode
            && addr_type_eq (some a.address_type) (some b.address_type)))

unfoldable pub axis_layout_eq : AxisLayout → AxisLayout → Bool
unfolding axis_pts_dim_eq no_axis_pts_eq
axis_layout_eq a b =
    option_eq axis_pts_dim_eq a.axis_pts b.axis_pts
    && (option_eq no_axis_pts_eq a.no_axis_pts b.no_axis_pts
        && option_eq (λ m n. m == n) a.fix_no_axis_pts b.fix_no_axis_pts)

-- Without the name.
unfoldable pub compare_rl_content : RecordLayout → RecordLayout → Bool
unfolding axis_layout_eq fnc_values_eq
compare_rl_content a b =
    axis_layout_eq a.x b.x
    && (axis_layout_eq a.y b.y
        && (axis_layout_eq a.z b.z
            && (axis_layout_eq a.axis_4 b.axis_4
                && (axis_layout_eq a.axis_5 b.axis_5
                    && (option_eq fnc_values_eq a.fnc_values b.fnc_values
                        && texts_eq a.other_keywords b.other_keywords)))))

unfoldable pub layout_eq : RecordLayout → RecordLayout → Bool
unfolding compare_rl_content
layout_eq a b = text_eq a.name b.name && compare_rl_content a b

type_of_rank : ℕ → DataType
type_of_rank zero = ubyte
type_of_rank (suc zero) = sbyte
type_of_rank (suc (suc zero)) = uword
type_of_rank (suc (suc (suc zero))) = sword
type_of_rank (suc (suc (suc (suc zero)))) = ulong
type_of_rank (suc (suc (suc (suc (suc zero))))) = slong
type_of_rank (suc (suc (suc (suc (suc (suc zero)))))) = a_uint64
type_of_rank (suc (suc (suc (suc (suc (suc (suc zero))))))) = a_int64
type_of_rank (suc (suc (suc (suc (suc (suc (suc (suc zero)))))))) = float16_ieee
type_of_rank (suc (suc (suc (suc (suc (suc (suc (suc (suc zero))))))))) = float32_ieee
type_of_rank (suc (suc (suc (suc (suc (suc (suc (suc (suc (suc n)))))))))) = float64_ieee

type_of_rank-data_type_rank : (a : DataType) → type_of_rank (data_type_rank a) ≡ a
unfolding type_of_rank
type_of_rank-data_type_rank ubyte = refl
type_of_rank-data_type_rank sbyte = refl
type_of_rank-data_type_rank uword = refl
type_of_rank-data_type_rank sword = refl
type_of_rank-data_type_rank ulong = refl
type_of_rank-data_type_rank slong = refl
type_of_rank-data_type_rank a_uint64 = refl
type_of_rank-data_type_rank a_int64 = refl
type_of_rank-data_type_rank float16_ieee = refl
type_of_rank-data_type_rank float32_ieee = refl
type_of_rank-data_type_rank float64_ieee = refl

addr_of_rank : ℕ → AddrType
addr_of_rank zero = pbyte
addr_of_rank (suc zero) = pword
addr_of_rank (suc (suc zero)) = plong
addr_of_rank (suc (suc (suc zero))) = plonglong
addr_of_rank (suc (suc (suc (suc n)))) = direct

addr_of_rank-addr_type_rank : (a : AddrType) → addr_of_rank (addr_type_rank a) ≡ a
unfolding addr_of_rank
addr_of_rank-addr_type_rank pbyte = refl
addr_of_rank-addr_type_rank pword = refl
addr_of_rank-addr_type_rank plong = refl
addr_of_rank-addr_type_rank plonglong = refl
addr_of_rank-addr_type_rank direct = refl

pub data_type_eq_sound : (a b : DataType) → data_type_eq a b ≡ true → a ≡ b
unfolding data_type_eq
data_type_eq_sound a b h =
    let e : data_type_rank a ≡ data_type_rank b = ground arith in
    sym (type_of_rank-data_type_rank a) ∙ ap type_of_rank e ∙ type_of_rank-data_type_rank b

addr_type_eq_sound : (a b : AddrType) → addr_type_eq (some a) (some b) ≡ true → a ≡ b
unfolding addr_type_eq
addr_type_eq_sound a b h =
    let e : addr_type_rank a ≡ addr_type_rank b = ground arith in
    sym (addr_of_rank-addr_type_rank a) ∙ ap addr_of_rank e ∙ addr_of_rank-addr_type_rank b

option_eq_sound :
    {A : Type 0} (eq : A → A → Bool)
    → ((a b : A) → eq a b ≡ true → a ≡ b)
    → (a b : Option A) → option_eq eq a b ≡ true
    → a ≡ b
option_eq_sound eq sound none none h = refl
option_eq_sound eq sound (some a) (some b) h = ap some (sound a b h)
option_eq_sound eq sound none (some b) h = cc
option_eq_sound eq sound (some a) none h = cc

axis_pts_dim_eq_sound : (a b : AxisPtsDim) → axis_pts_dim_eq a b ≡ true → a ≡ b
unfolding axis_pts_dim_eq
axis_pts_dim_eq_sound a b h =
    let p : a.position ≡ b.position = ground arith in
    let d = data_type_eq_sound a.datatype b.datatype (ground arith) in
    let o = text_eq_sound a.index_order b.index_order (ground arith) in
    let t = addr_type_eq_sound a.address_type b.address_type (ground arith) in
    λ i. record { position = p i; datatype = d i; index_order = o i; address_type = t i }

no_axis_pts_eq_sound : (a b : NoAxisPts) → no_axis_pts_eq a b ≡ true → a ≡ b
unfolding no_axis_pts_eq
no_axis_pts_eq_sound a b h =
    let p : a.position ≡ b.position = ground arith in
    let d = data_type_eq_sound a.datatype b.datatype (ground arith) in
    λ i. record { position = p i; datatype = d i }

fnc_values_eq_sound : (a b : FncValues) → fnc_values_eq a b ≡ true → a ≡ b
unfolding fnc_values_eq
fnc_values_eq_sound a b h =
    let p : a.position ≡ b.position = ground arith in
    let d = data_type_eq_sound a.datatype b.datatype (ground arith) in
    let o = text_eq_sound a.index_mode b.index_mode (ground arith) in
    let t = addr_type_eq_sound a.address_type b.address_type (ground arith) in
    λ i. record { position = p i; datatype = d i; index_mode = o i; address_type = t i }

axis_layout_eq_sound : (a b : AxisLayout) → axis_layout_eq a b ≡ true → a ≡ b
unfolding axis_layout_eq
axis_layout_eq_sound a b h =
    let p =
      option_eq_sound axis_pts_dim_eq axis_pts_dim_eq_sound a.axis_pts b.axis_pts (ground arith) in
    let n =
      option_eq_sound no_axis_pts_eq no_axis_pts_eq_sound a.no_axis_pts b.no_axis_pts
        (ground arith) in
    let f =
      option_eq_sound (λ m n. m == n) (λ m n e. ground arith) a.fix_no_axis_pts b.fix_no_axis_pts
        (ground arith) in
    λ i. record { axis_pts = p i; no_axis_pts = n i; fix_no_axis_pts = f i }

and_parts : (p q : Bool) → (p && q) ≡ true → (p ≡ true) × (q ≡ true)
and_parts p q h = ground arith

-- Two layouts with the same content differ in their names at most.
pub compare_rl_content_sound :
    (a b : RecordLayout) → compare_rl_content a b ≡ true → a ≡ record b { name = a.name }
unfolding compare_rl_content
compare_rl_content_sound a b h =
    let (hx, h₁) = and_parts (axis_layout_eq a.x b.x) _ h in
    let (hy, h₂) = and_parts (axis_layout_eq a.y b.y) _ h₁ in
    let (hz, h₃) = and_parts (axis_layout_eq a.z b.z) _ h₂ in
    let (hu, h₄) = and_parts (axis_layout_eq a.axis_4 b.axis_4) _ h₃ in
    let (hv, h₅) = and_parts (axis_layout_eq a.axis_5 b.axis_5) _ h₄ in
    let (hf, ho) = and_parts (option_eq fnc_values_eq a.fnc_values b.fnc_values) _ h₅ in
    let x = axis_layout_eq_sound a.x b.x hx in
    let y = axis_layout_eq_sound a.y b.y hy in
    let z = axis_layout_eq_sound a.z b.z hz in
    let u = axis_layout_eq_sound a.axis_4 b.axis_4 hu in
    let v = axis_layout_eq_sound a.axis_5 b.axis_5 hv in
    let f = option_eq_sound fnc_values_eq fnc_values_eq_sound a.fnc_values b.fnc_values hf in
    let o = (texts_eq_iff a.other_keywords b.other_keywords).0 ho in
    λ i. record {
      name = a.name;
      fnc_values = f i;
      x = x i;
      y = y i;
      z = z i;
      axis_4 = u i;
      axis_5 = v i;
      other_keywords = o i;
    }

pub layout_eq_sound : (a b : RecordLayout) → layout_eq a b ≡ true → a ≡ b
unfolding layout_eq
layout_eq_sound a b h =
    let n = text_eq_sound a.name b.name (ground arith) in
    compare_rl_content_sound a b (ground arith) ∙ λ i. record b { name = n i }
