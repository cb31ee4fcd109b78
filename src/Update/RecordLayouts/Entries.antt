-- ===== src/Update/RecordLayouts/Entries.antt =====
-- src/update/record_layout.rs: the lists and the map that the update of a layout changes.
use a2ltool.Prelude.{
  ℕ, zero, suc, ◌+◌, ◌<◌, Text, Option, none, some, true, List, [], ◌∷◌, ◌++◌, ok, length,
  get_elem?, text_eq, text_eq_sound, ◌≡◌, ◌≢◌, refl, sym, ap, ◌∙◌, Bool-cases, inl, inr, arith,
}
use a2ltool.DebugInfo.UnitName.{map_get}
use a2ltool.A2l.{RecordLayout}
use a2ltool.Update.RecordLayouts.Store.{at, update_at, map_remove}
use a2ltool.Update.RecordLayouts.{find_content}
use a2ltool.Update.RecordLayouts.Equality.{compare_rl_content}
use a2ltool.Update.RecordLayouts.Naming.{contains_key}

module _ {A : Type 0} where
  pub at-get_elem? : (xs : List A) (i : ℕ) (x : A) → get_elem? xs i ≡ some x → at xs i ≡ ok x
  unfolding at
  at-get_elem? [] i x h = cc
  at-get_elem? (y ∷ xs) zero x h = cc
  at-get_elem? (y ∷ xs) (suc i) x h = at-get_elem? xs i x h

  pub at-bounded : (xs : List A) (i : ℕ) → i < length xs → (x : A) × (at xs i ≡ ok x)
  unfolding at
  at-bounded [] i h = absurd (omega arith)
  at-bounded (y ∷ xs) zero h = (y, refl)
  at-bounded (y ∷ xs) (suc i) h = at-bounded xs i (omega arith)

  pub get_elem?-bounded :
      (xs : List A) (i : ℕ) → i < length xs → (x : A) × (get_elem? xs i ≡ some x)
  get_elem?-bounded [] i h = absurd (omega arith)
  get_elem?-bounded (y ∷ xs) zero h = (y, refl)
  get_elem?-bounded (y ∷ xs) (suc i) h = get_elem?-bounded xs i (omega arith)

  pub get_elem?-lt : (xs : List A) (i : ℕ) (x : A) → get_elem? xs i ≡ some x → i < length xs
  get_elem?-lt [] i x h = cc
  get_elem?-lt (y ∷ xs) zero x h = omega arith
  get_elem?-lt (y ∷ xs) (suc i) x h = omega (arith, get_elem?-lt xs i x h)

  pub length-update_at : (f : A → A) (xs : List A) (i : ℕ) → length (update_at f xs i) ≡ length xs
  unfolding update_at
  length-update_at f [] i = refl
  length-update_at f (y ∷ xs) zero = refl
  length-update_at f (y ∷ xs) (suc i) = ap suc (length-update_at f xs i)

  pub get_elem?-update_at :
      (f : A → A) (xs : List A) (i : ℕ) (x : A)
      → get_elem? xs i ≡ some x
      → get_elem? (update_at f xs i) i ≡ some (f x)
  unfolding update_at
  get_elem?-update_at f [] i x h = cc
  get_elem?-update_at f (y ∷ xs) zero x h = cc
  get_elem?-update_at f (y ∷ xs) (suc i) x h = get_elem?-update_at f xs i x h

  pub get_elem?-update_at-other :
      (f : A → A) (xs : List A) (i j : ℕ) → i ≢ j → get_elem? (update_at f xs i) j ≡ get_elem? xs j
  unfolding update_at
  get_elem?-update_at-other f [] i j h = refl
  get_elem?-update_at-other f (y ∷ xs) zero zero h = absurd (h refl)
  get_elem?-update_at-other f (y ∷ xs) zero (suc j) h = refl
  get_elem?-update_at-other f (y ∷ xs) (suc i) zero h = refl
  get_elem?-update_at-other f (y ∷ xs) (suc i) (suc j) h =
      get_elem?-update_at-other f xs i j (λ e. h (ap suc e))

  pub get_elem?-append :
      (xs ys : List A) (i : ℕ) (x : A) → get_elem? xs i ≡ some x → get_elem? (xs ++ ys) i ≡ some x
  get_elem?-append [] ys i x h = cc
  get_elem?-append (y ∷ xs) ys zero x h = h
  get_elem?-append (y ∷ xs) ys (suc i) x h = get_elem?-append xs ys i x h

  pub get_elem?-length : (xs : List A) (x : A) → get_elem? (xs ++ x ∷ []) (length xs) ≡ some x
  get_elem?-length [] x = refl
  get_elem?-length (y ∷ xs) x = get_elem?-length xs x

pub map_get-map_remove :
    (entries : List (Text × ℕ)) (key x : Text)
    → key ≢ x
    → map_get (map_remove entries key) x ≡ map_get entries x
unfolding map_get map_remove
map_get-map_remove [] key x h = refl
map_get-map_remove ((k, v) ∷ entries) key x h = elim (Bool-cases (text_eq k key)) [
  | inl gone ↦ elim (Bool-cases (text_eq k x)) [
    | inl there ↦ absurd (h (sym (text_eq_sound k key gone) ∙ text_eq_sound k x there))
    | inr other ↦ rw (gone, other) (map_get-map_remove entries key x h)
  ]
  | inr stays ↦ rw stays (ground (arith, map_get-map_remove entries key x h))
]

pub map_get-map_remove-same :
    (entries : List (Text × ℕ)) (key : Text) → map_get (map_remove entries key) key ≡ none
unfolding map_get map_remove
map_get-map_remove-same [] key = refl
map_get-map_remove-same ((k, v) ∷ entries) key = ground (arith, map_get-map_remove-same entries key)

pub contains_key-map_get :
    (entries : List (Text × ℕ)) (key : Text) (v : ℕ)
    → map_get entries key ≡ some v
    → contains_key entries key ≡ true
unfolding map_get contains_key
contains_key-map_get [] key v h = cc
contains_key-map_get ((k, w) ∷ entries) key v h = ground (arith, contains_key-map_get entries key v)

-- What the search for a layout with the same content finds.
pub find_content_lem :
    (new : RecordLayout) (items : List RecordLayout) (i j : ℕ) (e : RecordLayout)
    → find_content new items i ≡ some (j, e)
    → (k : ℕ) × (j ≡ i + k) × (get_elem? items k ≡ some e) × (compare_rl_content new e ≡ true)
unfolding find_content
find_content_lem new [] i j e h = cc
find_content_lem new (item ∷ items) i j e h = elim (Bool-cases (compare_rl_content new item)) [
  | inl same ↦
      let found : ◌≡◌ {A = Option (ℕ × RecordLayout)} (some (i, item)) (some (j, e)) =
        rw same at h in
      let at_i : i ≡ j = cc in
      let item_e : item ≡ e = cc in (0, omega arith, ap some item_e, rw (← item_e) same)
  | inr differs ↦
      let (k, jk, got, content) = find_content_lem new items (suc i) j e (rw differs at h) in
      (suc k, omega arith, got, content)
]
