-- ===== src/Symbol/Digits.antt =====
-- The decimal text of a number is read back as that number.
use a2ltool.Prelude.{
  ℕ, zero, suc, ◌+◌, ◌-◌, ◌*◌, ◌/◌, ◌%◌, ◌^◌, ◌<◌, ◌≤◌, Text, codes, some, Bool, true, false, [],
  ◌∷◌, ◌++◌, ◌==◌, ltb, ◌≡◌, refl, ap, ◌∙◌, arith, Bool-cases, inl, inr, ltb→lt, decimal_loop,
  to_decimal, parse_digits, parse_usize, strip_last, ends_with, init, ok, ==_refl,
}
use a2ltool.Symbol.Names.{get_index}

parse_digit :
    (acc d : ℕ) (rest : Text)
    → d < 10
    → acc * 10 + d < 2 ^ 64
    → parse_digits acc ((48 + d) ∷ rest) ≡ parse_digits (acc * 10 + d) rest
unfolding parse_digits
parse_digit acc d rest small fits =
    let same : acc * 10 + (48 + d - 48) ≡ acc * 10 + d = omega arith in rw same (ground arith)

parse_digits-decimal_loop :
    (f n : ℕ) (rest : Text)
    → n < f
    → n < 2 ^ 64
    → parse_digits 0 (decimal_loop f n rest) ≡ parse_digits n rest
unfolding decimal_loop
parse_digits-decimal_loop zero n rest h fits = absurd (omega arith)
parse_digits-decimal_loop (suc f) n rest h fits = elim (Bool-cases (ltb n 10)) [
  | inl e ↦
      let last : 0 * 10 + n % 10 ≡ n = omega (arith, ltb→lt n 10 e) in
      rw e (
        parse_digit 0 (n % 10) rest (omega arith) (omega arith)
        ∙ ap (λ m. parse_digits m rest) last)
  | inr e ↦
      let shift : n / 10 * 10 + n % 10 ≡ n = omega arith in
      let big : 10 ≤ n = ground arith in
      rw e (
        parse_digits-decimal_loop f (n / 10) ((48 + n % 10) ∷ rest) (omega arith) (omega arith)
        ∙ parse_digit (n / 10) (n % 10) rest (omega arith) (omega arith)
        ∙ ap (λ m. parse_digits m rest) shift)
]

-- A text that begins with a digit.
abbrev BeginsWithDigit : Text → Type 0
BeginsWithDigit s = (c : ℕ) × (cs : Text) × (s ≡ c ∷ cs) × (48 ≤ c)

decimal_loop-BeginsWithDigit :
    (f n : ℕ) (rest : Text) → BeginsWithDigit rest → BeginsWithDigit (decimal_loop f n rest)
unfolding decimal_loop
decimal_loop-BeginsWithDigit zero n rest h = h
decimal_loop-BeginsWithDigit (suc f) n rest h = elim (Bool-cases (ltb n 10)) [
  | inl e ↦ rw e (48 + n % 10, rest, refl, omega arith)
  | inr e ↦ rw e (
      decimal_loop-BeginsWithDigit f (n / 10) ((48 + n % 10) ∷ rest)
        (48 + n % 10, rest, refl, omega arith))
]

to_decimal-BeginsWithDigit : (n : ℕ) → BeginsWithDigit (to_decimal n)
unfolding to_decimal decimal_loop
to_decimal-BeginsWithDigit n = elim (Bool-cases (ltb n 10)) [
  | inl e ↦ rw e (48 + n % 10, [], refl, omega arith)
  | inr e ↦ rw e (
      decimal_loop-BeginsWithDigit n (n / 10) ((48 + n % 10) ∷ [])
        (48 + n % 10, [], refl, omega arith))
]

parse_usize-digit : (c : ℕ) (cs : Text) → 48 ≤ c → parse_usize (c ∷ cs) ≡ parse_digits 0 (c ∷ cs)
unfolding parse_usize
parse_usize-digit c cs h = let other : (c == 43) ≡ false = ground arith in rw other

-- A u64 that is printed and parsed is itself.
pub parse_usize-to_decimal : (n : ℕ) → n < 2 ^ 64 → parse_usize (to_decimal n) ≡ some n
parse_usize-to_decimal n fits =
    let (c, cs, text, digit) = to_decimal-BeginsWithDigit n in
    let whole : parse_digits 0 (to_decimal n) ≡ some n =
      unfold to_decimal parse_digits in parse_digits-decimal_loop (suc n) n [] (omega arith) fits in
    rw text (parse_usize-digit c cs digit ∙ rw text at whole)

pub strip_last-append : (c : ℕ) (s : Text) → strip_last c (s ++ c ∷ []) ≡ some s
unfolding strip_last
strip_last-append c [] = rw (==_refl c)
strip_last-append c (x ∷ []) = ground (arith, ==_refl c)
strip_last-append c (x ∷ y ∷ r) = rw (strip_last-append c (y ∷ r))

init-append : (c : ℕ) (s : Text) → init (s ++ c ∷ []) ≡ s
unfolding init
init-append c [] = refl
init-append c (x ∷ []) = refl
init-append c (x ∷ y ∷ r) = ap (λ (t : Text). x ∷ t) (init-append c (y ∷ r))

ends_with-append : (c : ℕ) (s : Text) → ends_with c (s ++ c ∷ []) ≡ true
unfolding ends_with
ends_with-append c s = rw (strip_last-append c s)

get_index-underscores :
    (c : ℕ) (cs : Text) → get_index (b'_' ∷ (c ∷ cs) ++ b'_' ∷ []) ≡ ok (parse_usize (c ∷ cs))
unfolding get_index
get_index-underscores c cs = rw (ends_with-append b'_' (b'_' ∷ c ∷ cs), init-append b'_' (c ∷ cs))

get_index-brackets :
    (c : ℕ) (cs : Text) → get_index (b'[' ∷ (c ∷ cs) ++ b']' ∷ []) ≡ ok (parse_usize (c ∷ cs))
unfolding get_index
get_index-brackets c cs = rw (ends_with-append b']' (b'[' ∷ c ∷ cs), init-append b']' (c ∷ cs))

-- An index as a component of a name: `_i_` or `[i]`.
abbrev pub index_component : Bool → ℕ → Text
index_component true i = codes "[" ++ to_decimal i ++ codes "]"
index_component false i = codes "_" ++ to_decimal i ++ codes "_"

-- An array index that is written in either notation is read back, if it is a u64.
pub get_index-index_component :
    (new_arrays : Bool) (i : ℕ)
    → i < 2 ^ 64
    → get_index (index_component new_arrays i) ≡ ok (some i)
get_index-index_component true i fits =
    let (c, cs, text, digit) = to_decimal-BeginsWithDigit i in
    let whole : parse_usize (to_decimal i) ≡ some i = parse_usize-to_decimal i fits in
    rw text (get_index-brackets c cs ∙ ap ok (rw text at whole))
get_index-index_component false i fits =
    let (c, cs, text, digit) = to_decimal-BeginsWithDigit i in
    let whole : parse_usize (to_decimal i) ≡ some i = parse_usize-to_decimal i fits in
    rw text (get_index-underscores c cs ∙ ap ok (rw text at whole))
