-- ===== src/Update/RecordLayouts/Unique.antt =====
-- src/update/record_layout.rs: the name that `make_unique_reclayout_name` returns is new.
use a2ltool.Prelude.{
  ℕ, zero, suc, ◌+◌, ◌^◌, ◌≤◌, ◌<◌, Text, codes, true, false, List, [], ◌∷◌, ◌++◌, ok, length, drop,
  text_eq, text_eq_sound, to_decimal, ◌≡◌, ◌≢◌, refl, sym, ap, ◌∙◌, Bool-cases, inl, inr, if-true,
  if-false, arith, parse_usize,
}
use a2ltool.Symbol.Digits.{parse_usize-to_decimal}
use a2ltool.Update.RecordLayouts.Store.{map_remove}
use a2ltool.Update.RecordLayouts.Naming.{
  contains_key, candidate, unique_loop, base_name, make_unique_reclayout_name,
}

drop-append : (s t : Text) → drop (length s) (s ++ t) ≡ t
drop-append [] t = refl
drop-append (x ∷ s) t = drop-append s t

drop-length : (s : Text) → drop (length s) s ≡ []
drop-length [] = refl
drop-length (x ∷ s) = drop-length s

to_decimal_injective : (m n : ℕ) → m < 2 ^ 64 → n < 2 ^ 64 → to_decimal m ≡ to_decimal n → m ≡ n
to_decimal_injective m n hm hn h =
    let e = sym (parse_usize-to_decimal m hm) ∙ ap parse_usize h ∙ parse_usize-to_decimal n hn in cc

tail_of_dot : (s t : Text) → codes "." ++ s ≡ codes "." ++ t → s ≡ t
tail_of_dot s t h = ap (drop 1) h

drop-candidate :
    (basename : Text) (k : ℕ)
    → drop (length basename) (candidate basename (suc (suc k)))
      ≡ codes "." ++ to_decimal (suc (suc k))
drop-candidate basename k = drop-append basename (codes "." ++ to_decimal (suc (suc k)))

-- The names that the loop tries are all different.
candidates_differ :
    (basename : Text) (c k : ℕ)
    → 1 ≤ c
    → c < k
    → k < 2 ^ 64
    → candidate basename c ≢ candidate basename k
candidates_differ basename zero k h₁ h₂ h₃ e = absurd (omega arith)
candidates_differ basename (suc c) zero h₁ h₂ h₃ e = absurd (omega arith)
candidates_differ basename (suc c) (suc zero) h₁ h₂ h₃ e = absurd (omega arith)
candidates_differ basename (suc zero) (suc (suc k)) h₁ h₂ h₃ e =
    let nothing =
      sym (drop-length basename) ∙ ap (drop (length basename)) e ∙ drop-candidate basename k in
    cc
candidates_differ basename (suc (suc c)) (suc (suc k)) h₁ h₂ h₃ e =
    let tails =
      sym (drop-candidate basename c) ∙ ap (drop (length basename)) e ∙ drop-candidate basename k in
    let same =
      to_decimal_injective (suc (suc c)) (suc (suc k)) (omega arith) (omega arith)
        (tail_of_dot (to_decimal (suc (suc c))) (to_decimal (suc (suc k))) tails) in
    absurd (omega arith)

contains_key-map_remove :
    (entries : List (Text × ℕ)) (key x : Text)
    → key ≢ x
    → contains_key (map_remove entries key) x ≡ contains_key entries x
unfolding contains_key map_remove
contains_key-map_remove [] key x h = refl
contains_key-map_remove ((k, v) ∷ entries) key x h = elim (Bool-cases (text_eq k key)) [
  | inl gone ↦ elim (Bool-cases (text_eq k x)) [
    | inl there ↦ absurd (h (sym (text_eq_sound k key gone) ∙ text_eq_sound k x there))
    | inr other ↦ rw (gone, other) (contains_key-map_remove entries key x h)
  ]
  | inr stays ↦ rw stays (ground (arith, contains_key-map_remove entries key x h))
]

length-map_remove-le :
    (entries : List (Text × ℕ)) (key : Text) → length (map_remove entries key) ≤ length entries
unfolding map_remove
length-map_remove-le [] key = omega arith
length-map_remove-le ((k, v) ∷ entries) key = ground (arith, length-map_remove-le entries key)

length-map_remove-lt :
    (entries : List (Text × ℕ)) (key : Text)
    → contains_key entries key ≡ true
    → length (map_remove entries key) < length entries
unfolding map_remove contains_key
length-map_remove-lt [] key h = cc
length-map_remove-lt ((k, v) ∷ entries) key h =
    ground (arith, length-map_remove-le entries key, length-map_remove-lt entries key)

-- The loop asks for the names from its counter on only.
unique_loop-agree :
    (fuel : ℕ) (entries others : List (Text × ℕ)) (basename : Text) (c : ℕ)
    → ((k : ℕ)
        → c ≤ k
        → k < c + fuel
        → contains_key entries (candidate basename k) ≡ contains_key others (candidate basename k))
    → unique_loop fuel entries basename c ≡ unique_loop fuel others basename c
unfolding unique_loop
unique_loop-agree zero entries others basename c h = refl
unique_loop-agree (suc fuel) entries others basename c h =
    rw
      (
        h c (omega arith) (omega arith),
        unique_loop-agree fuel entries others basename (suc c)
            (λ k a b. h k (omega arith) (omega arith)),
      )
      refl

-- The loop returns one of the names that it tries, and one that is new.
unique_loop-returns :
    (fuel : ℕ) (entries : List (Text × ℕ)) (basename : Text) (c : ℕ)
    → 1 ≤ c
    → c + fuel < 2 ^ 64
    → length entries < fuel
    → (k : ℕ) × (c ≤ k)
      × (k < c + fuel)
      × (unique_loop fuel entries basename c ≡ ok (candidate basename k))
      × (contains_key entries (candidate basename k) ≡ false)
unfolding unique_loop
unique_loop-returns zero entries basename c h₁ h₂ h₃ = absurd (omega arith)
unique_loop-returns (suc fuel) entries basename c h₁ h₂ h₃ =
    elim (Bool-cases (contains_key entries (candidate basename c))) [
      | inl taken ↦
          let fewer = map_remove entries (candidate basename c) in
          let shorter = length-map_remove-lt entries (candidate basename c) taken in
          let (k, later, small, loop, new) =
            unique_loop-returns fuel fewer basename (suc c) (omega arith) (omega arith)
              (omega arith) in
          let agree = λ (j : ℕ) (a : suc c ≤ j) (b : j < suc c + fuel). sym (
            contains_key-map_remove entries (candidate basename c) (candidate basename j)
              (candidates_differ basename c j h₁ (omega arith) (omega arith))) in
          (
            k,
            omega arith,
            omega arith,
            if-true _ _ _ taken
                ∙ unique_loop-agree fuel entries fewer basename (suc c) agree
                ∙ loop,
            agree k later small ∙ new,
          )
      | inr free ↦ (c, omega arith, omega arith, if-false _ _ _ free, free)
    ]

-- With fewer than 2^31 layouts the loop ends, and the name that it returns is none of theirs.
pub make_unique_reclayout_name-returns :
    (initial_name : Text) (idxmap : List (Text × ℕ))
    → length idxmap < 2 ^ 31
    → (nm : Text) × (make_unique_reclayout_name initial_name idxmap ≡ ok nm)
      × (contains_key idxmap nm ≡ false)
unfolding make_unique_reclayout_name
make_unique_reclayout_name-returns initial_name idxmap few =
    elim (Bool-cases (contains_key idxmap initial_name)) [
      | inl taken ↦
          let (k, a, b, loop, new) =
            unique_loop-returns (suc (length idxmap)) idxmap (base_name initial_name) 1
              (omega arith) (omega arith) (omega arith) in
          (candidate (base_name initial_name) k, if-true _ _ _ taken ∙ loop, new)
      | inr free ↦ (initial_name, if-false _ _ _ free, free)
    ]
