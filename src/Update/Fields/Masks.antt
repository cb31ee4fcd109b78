-- ===== src/Update/Fields/Masks.antt =====
-- src/update/mod.rs: the bits of the BIT_MASK of a bitfield.
use native.Mathlib.Nat.{add-zero, add-suc, pow-suc, one-le-pow, pow-le-pow_right}
use a2ltool.Prelude.{
  ℕ, zero, suc, ◌+◌, ◌-◌, ◌*◌, ◌/◌, ◌%◌, ◌^◌, ◌≤◌, ◌<◌, Text, Option, none, some, Bool, true, false,
  ◌&&◌, ◌≡◌, ap, ◌∙◌, refl, arith, ltb, leb, ◌==◌,
}
use a2ltool.Update.Fields.{mask_with, wide_mask, to_u32, set_bitmask}
use a2ltool.A2l.{HexNumber}
use a2ltool.DebugInfo.{TypeInfo, type_info, bitfield}

-- Bit `i` of a number.
unfoldable pub test_bit : ℕ → ℕ → Bool
test_bit n zero = n % 2 == 1
test_bit n (suc i) = test_bit (n / 2) i

-- Bit `i` of a mask, if there is one.
abbrev pub masked_bit : Option HexNumber → ℕ → Option Bool
masked_bit none i = none
masked_bit (some mask) i = some (test_bit mask.value i)

-- `size` ones above `offset` zeros.
ones : ℕ → ℕ → ℕ
ones offset size = (2 ^ size - 1) * 2 ^ offset

ones_up : (offset size : ℕ) → ones (suc offset) size ≡ 2 * ones offset size
unfolding ones
ones_up offset size = rw (pow-suc 2 offset) (grind arith)

ones_more : (size : ℕ) → ones 0 (suc size) ≡ 2 * ones 0 size + 1
unfolding ones
ones_more size = rw (pow-suc 2 size) (omega (arith, one-le-pow size 2))

ones_top : (offset size : ℕ) → ones offset size + 2 ^ offset ≡ 2 ^ (size + offset)
ones_top zero size = rw (add-zero size) (unfold ones in omega (arith, one-le-pow size 2))
ones_top (suc offset) size =
    rw (ones_up offset size, add-suc size offset, pow-suc 2 offset, pow-suc 2 (size + offset))
      (omega (arith, ones_top offset size))

test_bit-double : (n i : ℕ) → test_bit (2 * n) (suc i) ≡ test_bit n i
unfolding test_bit
test_bit-double n i = let half : 2 * n / 2 ≡ n = omega arith in rw half

test_bit-double_one : (n i : ℕ) → test_bit (2 * n + 1) (suc i) ≡ test_bit n i
unfolding test_bit
test_bit-double_one n i = let half : (2 * n + 1) / 2 ≡ n = omega arith in rw half

test_bit-zero : (i : ℕ) → test_bit 0 i ≡ false
unfolding test_bit
test_bit-zero zero = refl
test_bit-zero (suc i) = test_bit-zero i

lowest_bit-double : (n : ℕ) → test_bit (2 * n) 0 ≡ false
unfolding test_bit
lowest_bit-double n = ground arith

lowest_bit-double_one : (n : ℕ) → test_bit (2 * n + 1) 0 ≡ true
unfolding test_bit
lowest_bit-double_one n = ground arith

test_bit-ones :
    (offset size i : ℕ) → test_bit (ones offset size) i ≡ (leb offset i && ltb i (size + offset))
test_bit-ones zero zero i =
    let none_set : ones 0 0 ≡ 0 = unfold ones in refl in
    rw none_set (test_bit-zero i ∙ ground arith)
test_bit-ones zero (suc size) zero =
    rw (ones_more size) (lowest_bit-double_one (ones 0 size) ∙ ground arith)
test_bit-ones zero (suc size) (suc i) =
    rw (ones_more size)
      (test_bit-double_one (ones 0 size) i ∙ test_bit-ones 0 size i ∙ ground arith)
test_bit-ones (suc offset) size zero =
    rw (ones_up offset size) (lowest_bit-double (ones offset size) ∙ ground arith)
test_bit-ones (suc offset) size (suc i) =
    rw (ones_up offset size)
      (test_bit-double (ones offset size) i ∙ test_bit-ones offset size i ∙ ground arith)

ones-lt : (offset size : ℕ) → size + offset ≤ 32 → ones offset size < 2 ^ 32
ones-lt offset size fits =
    let bound : 2 ^ (size + offset) ≤ 2 ^ 32 = pow-le-pow_right {n = 2} (omega arith) fits in
    omega (arith, ones_top offset size, one-le-pow offset 2, bound)

wide_mask-ones : (offset size : ℕ) → size + offset ≤ 32 → wide_mask offset size ≡ ones offset size
unfolding wide_mask ones
wide_mask-ones offset size fits =
    let size_e : size % 64 ≡ size = omega arith in
    let offset_e : offset % 64 ≡ offset = omega arith in
    rw (size_e, offset_e) (omega (arith, ones-lt offset size fits))

to_u32-id : (n : ℕ) → n < 2 ^ 32 → to_u32 n ≡ n
to_u32-id n h = ground arith

masked_bit-mask_with :
    (old : Option HexNumber) (mask i : ℕ)
    → masked_bit (mask_with old mask) i ≡ some (test_bit mask i)
masked_bit-mask_with none mask i = refl
masked_bit-mask_with (some m) mask i = refl

-- The mask that is set for a bitfield within 32 bits has exactly the bits of the bitfield.
pub test_bit-set_bitmask :
    (basetype : TypeInfo) (nm : Option Text) (u o : ℕ) (old : Option HexNumber)
    (bit_offset bit_size i : ℕ)
    → bit_size + bit_offset ≤ 32
    → masked_bit (set_bitmask old (type_info nm u (bitfield basetype bit_offset bit_size) o)) i
      ≡ some (leb bit_offset i && ltb i (bit_size + bit_offset))
unfolding set_bitmask
test_bit-set_bitmask basetype nm u o old bit_offset bit_size i fits =
    masked_bit-mask_with old (to_u32 (wide_mask bit_offset bit_size)) i
    ∙ rw
        (
          wide_mask-ones bit_offset bit_size fits,
          to_u32-id (ones bit_offset bit_size) (ones-lt bit_offset bit_size fits),
        )
        (ap some (test_bit-ones bit_offset bit_size i))
