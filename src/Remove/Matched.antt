-- ===== src/Remove/Matched.antt =====
-- src/remove.rs: which objects stay and which names are removed.
use mathlib.Core.List.{append_assoc, append-nil}
use a2ltool.Prelude.{
  Text, Bool, true, false, ◌&&◌, ◌||◌, List, [], ◌∷◌, ◌++◌, if◌then◌else◌, ◌≡◌, refl, sym, ◌∙◌,
  Bool-cases, inl, inr, text_eq, arith,
}
use a2ltool.Update.Fields.{contains}
use a2ltool.Remove.{
  RegexCrate, Removal, remove_item, on_hit, match_loop, swap_loop, Swapped, push_unless,
}
use a2ltool.Remove.Unique.{IsUnique, insert_item-IsUnique, contains-insert_item}

on_hit-contains :
    (kind name : Text) (hit : Bool) (s : Removal) (x : Text)
    → contains (on_hit kind name hit s).removed_items x
      ≡ (contains s.removed_items x || (hit && text_eq name x))
unfolding on_hit remove_item
on_hit-contains kind name true s x = contains-insert_item s.removed_items name x
on_hit-contains kind name false s x = ground arith

on_hit-IsUnique :
    (kind name : Text) (hit : Bool) (s : Removal)
    → IsUnique s.removed_items
    → IsUnique (on_hit kind name hit s).removed_items
unfolding on_hit remove_item
on_hit-IsUnique kind name true s unique = insert_item-IsUnique s.removed_items name unique
on_hit-IsUnique kind name false s unique = unique

module _ {Regex : Type 0} (crate : RegexCrate Regex) where
  abbrev pub any_match : List Regex → Text → Bool
  any_match [] name = false
  any_match (regex ∷ regexes) name = crate.is_match regex name || any_match regexes name

  -- The objects that no expression matches.
  abbrev pub unmatched : {A : Type 0} → (A → Text) → List Regex → List A → List A
  unmatched name_of regexes [] = []
  unmatched name_of regexes (a ∷ rest) =
      if any_match regexes (name_of a)
      then unmatched name_of regexes rest
      else a ∷ unmatched name_of regexes rest

  -- `x` is the name of an object that some expression matches.
  abbrev pub is_matched : {A : Type 0} → (A → Text) → List Regex → List A → Text → Bool
  is_matched name_of regexes [] x = false
  is_matched name_of regexes (a ∷ rest) x =
      (any_match regexes (name_of a) && text_eq (name_of a) x) || is_matched name_of regexes rest x

  match_loop-removed :
      (kind name : Text) (regexes : List Regex) (removed : Bool) (s : Removal)
      → (match_loop crate kind name regexes removed s).0 ≡ (removed || any_match regexes name)
  unfolding match_loop
  match_loop-removed kind name [] removed s = ground arith
  match_loop-removed kind name (regex ∷ regexes) removed s =
      match_loop-removed kind name regexes _ _ ∙ ground arith

  match_loop-contains :
      (kind name : Text) (regexes : List Regex) (removed : Bool) (s : Removal) (x : Text)
      → contains (match_loop crate kind name regexes removed s).1.removed_items x
        ≡ (contains s.removed_items x || (any_match regexes name && text_eq name x))
  unfolding match_loop
  match_loop-contains kind name [] removed s x = ground arith
  match_loop-contains kind name (regex ∷ regexes) removed s x =
      match_loop-contains kind name regexes _ _ x
      ∙ ground (arith, on_hit-contains kind name (crate.is_match regex name) s x)

  match_loop-IsUnique :
      (kind name : Text) (regexes : List Regex) (removed : Bool) (s : Removal)
      → IsUnique s.removed_items
      → IsUnique (match_loop crate kind name regexes removed s).1.removed_items
  unfolding match_loop
  match_loop-IsUnique kind name [] removed s unique = unique
  match_loop-IsUnique kind name (regex ∷ regexes) removed s unique =
      match_loop-IsUnique kind name regexes _ _
        (on_hit-IsUnique kind name (crate.is_match regex name) s unique)

  -- What the loop over the objects of one kind leaves and adds.
  abbrev pub Swaps :
      {A : Type 0} → (A → Text) → List Regex → List A → List A → Removal → Swapped A → Type 0
  Swaps name_of regexes swapped kept s r =
      (r.0 ≡ kept ++ unmatched name_of regexes swapped)
      × ((x : Text)
          → contains r.1.removed_items x
            ≡ (contains s.removed_items x || is_matched name_of regexes swapped x))
      × (IsUnique s.removed_items → IsUnique r.1.removed_items)

  pushed :
      {A : Type 0} (name_of : A → Text) (regexes : List Regex) (a : A) (rest kept : List A)
      (removed : Bool)
      → removed ≡ any_match regexes (name_of a)
      → push_unless removed a kept ++ unmatched name_of regexes rest
        ≡ kept ++ unmatched name_of regexes (a ∷ rest)
  pushed name_of regexes a rest kept removed h = elim (Bool-cases (any_match regexes (name_of a))) [
    | inl hit ↦ rw (h, hit) refl
    | inr miss ↦ rw (h, miss) (append_assoc kept (a ∷ []) (unmatched name_of regexes rest))
  ]

  pub swap_loop-Swaps :
      {A : Type 0} (name_of : A → Text) (kind : Text) (regexes : List Regex) (swapped kept : List A)
      (s : Removal)
      → Swaps name_of regexes swapped kept s (swap_loop crate name_of kind regexes swapped kept s)
  unfolding swap_loop
  swap_loop-Swaps name_of kind regexes [] kept s =
      (sym (append-nil kept), λ x. ground arith, λ unique. unique)
  swap_loop-Swaps name_of kind regexes (a ∷ rest) kept s =
      let r = match_loop crate kind (name_of a) regexes false s in
      let (stay, names, unique) =
        swap_loop-Swaps name_of kind regexes rest (push_unless r.0 a kept) r.1 in
      (
        stay
            ∙ pushed name_of regexes a rest kept r.0
                (match_loop-removed kind (name_of a) regexes false s ∙ ground arith),
        λ x. names x ∙ ground (arith, match_loop-contains kind (name_of a) regexes false s x),
        λ before. unique (match_loop-IsUnique kind (name_of a) regexes false s before),
      )
