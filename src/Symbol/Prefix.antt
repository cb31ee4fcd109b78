-- ===== src/Symbol/Prefix.antt =====
-- src/symbol.rs: the first component of a symbol name is a prefix of the name, so that
-- `components[0]` and `strip_prefix(components[0]).unwrap()` in `find_symbol` do not panic.
use mathlib.Core.List.{append_assoc, append-nil}
use a2ltool.Prelude.{
  ℕ, Text, some, Bool, true, false, List, [], ◌∷◌, ◌++◌, ◌==◌, if◌then◌else◌, ◌≡◌, refl, sym, ap,
  ◌∙◌, arith, Bool-cases, inl, inr, Option-cases, ==_refl, add_front, split_at_first, split_on,
  strip_prefix,
}
use a2ltool.Symbol.Names.{
  get_additional_spec, split_indices, split_all, split_symbol_components, strip_braces,
}

-- `s` begins with `p`.
abbrev pub BeginsWith : Text → Text → Type 0
BeginsWith s p = (rest : Text) × (s ≡ p ++ rest)

pub split_at_first-append :
    (c : ℕ) (s before after : Text)
    → split_at_first c s ≡ some (before, after)
    → s ≡ before ++ after
unfolding split_at_first
split_at_first-append c [] before after h = cc
split_at_first-append c (x ∷ xs) before after h = elim (Bool-cases (x == c)) [
  | inl e ↦ ground arith
  | inr e ↦ elim (Option-cases (split_at_first c xs)) [
    | inl e' ↦ ground arith
    | inr ((b, a), e') ↦ ground (arith, split_at_first-append c xs b a)
  ]
]

-- The pieces of a split are not empty, and the first is a prefix.
abbrev FirstIsPrefix : Text → List Text → Type 0
FirstIsPrefix s [] = ⊥
FirstIsPrefix s (p ∷ ps) = BeginsWith s p

FirstIsPrefix-add_front :
    (x : ℕ) (s : Text) (ps : List Text)
    → FirstIsPrefix s ps
    → FirstIsPrefix (x ∷ s) (add_front x ps)
FirstIsPrefix-add_front x s [] h = absurd h
FirstIsPrefix-add_front x s (p ∷ ps) (rest, e) = (rest, ap (λ t. x ∷ t) e)

FirstIsPrefix-if :
    (b : Bool) (s : Text) (m n : List Text)
    → FirstIsPrefix s m
    → FirstIsPrefix s n
    → FirstIsPrefix s (if b then m else n)
FirstIsPrefix-if true s m n hm hn = hm
FirstIsPrefix-if false s m n hm hn = hn

split_on-FirstIsPrefix : (c : ℕ) (s : Text) → FirstIsPrefix s (split_on c s)
unfolding split_on
split_on-FirstIsPrefix c [] = ([], refl)
split_on-FirstIsPrefix c (x ∷ xs) =
    FirstIsPrefix-if (x == c) (x ∷ xs) _ _ (x ∷ xs, refl)
      (FirstIsPrefix-add_front x xs _ (split_on-FirstIsPrefix c xs))

split_indices-FirstIsPrefix :
    (s component : Text) (more : List Text)
    → BeginsWith s component
    → FirstIsPrefix s (split_indices component ++ more)
unfolding split_indices
split_indices-FirstIsPrefix s component more (rest, e) =
    elim (Option-cases (split_at_first b'[' component)) [
      | inl p ↦ rw (p, split_indices) (rest, e)
      | inr ((nm, idx), p) ↦
          rw (p, split_indices)
            (
              idx ++ rest,
              e
                  ∙ ap (λ (t : Text). t ++ rest) (split_at_first-append b'[' component nm idx p)
                  ∙ append_assoc nm idx rest,
            )
    ]

split_all-FirstIsPrefix :
    (s : Text) (ps : List Text) → FirstIsPrefix s ps → FirstIsPrefix s (split_all ps)
unfolding split_all
split_all-FirstIsPrefix s [] h = absurd h
split_all-FirstIsPrefix s (p ∷ ps) h = split_indices-FirstIsPrefix s p (split_all ps) h

-- There is a first component, and it is a prefix of the name.
pub split_symbol_components-first :
    (varname : Text)
    → (first : Text) × (rest : List Text) × (split_symbol_components varname ≡ first ∷ rest)
      × BeginsWith varname first
unfolding split_symbol_components
split_symbol_components-first varname =
    taken varname (split_all (split_on b'.' varname)) refl
      (split_all-FirstIsPrefix varname _ (split_on-FirstIsPrefix b'.' varname))
  where
    taken :
        (s : Text) (ps : List Text)
        → split_all (split_on b'.' varname) ≡ ps
        → FirstIsPrefix s ps
        → (first : Text) × (rest : List Text) × (split_all (split_on b'.' varname) ≡ first ∷ rest)
          × BeginsWith s first
    taken s [] e h = absurd h
    taken s (p ∷ ps) e h = (p, ps, e, h)

BeginsWith-self : (s : Text) → BeginsWith s s
BeginsWith-self s = ([], sym (append-nil s))

-- The name without its additional specification is a prefix of it.
pub get_additional_spec-BeginsWith :
    (varname : Text) → BeginsWith varname (get_additional_spec varname).0
unfolding get_additional_spec
get_additional_spec-BeginsWith varname = elim (Option-cases (split_at_first b'{' varname)) [
  | inl e ↦ rw (e, get_additional_spec) (BeginsWith-self varname)
  | inr ((base, spec), e) ↦ elim (Option-cases (strip_braces spec)) [
    | inl e' ↦
        rw (e, get_additional_spec, e') (spec, split_at_first-append b'{' varname base spec e)
    | inr (s, e') ↦
        rw (e, get_additional_spec, e') (spec, split_at_first-append b'{' varname base spec e)
  ]
]

pub strip_prefix-append : (p rest : Text) → strip_prefix p (p ++ rest) ≡ some rest
unfolding strip_prefix
strip_prefix-append [] rest = refl
strip_prefix-append (x ∷ xs) rest = rw (==_refl x, strip_prefix-append xs rest)
