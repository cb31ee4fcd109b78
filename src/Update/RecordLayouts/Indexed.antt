-- ===== src/Update/RecordLayouts/Indexed.antt =====
-- src/update/record_layout.rs: the index and the counts stay in step with the layouts.
use a2ltool.Prelude.{
  ℕ, zero, suc, ◌==◌, Text, some, false, List, [], ◌∷◌, ◌++◌, length, get_elem?, text_eq,
  text_eq_refl, text_eq_sound, ◌≡◌, ◌≢◌, refl, sym, ap, ◌∙◌, Bool-cases, inl, inr, ◌⊎◌, arith,
  length-append,
}
use mathlib.Core.Path.{subst}
use a2ltool.DebugInfo.UnitName.{map_get}
use a2ltool.A2l.{RecordLayout}
use a2ltool.Update.RecordLayouts.Store.{Layouts, update_at, map_remove, decrease}
use a2ltool.Update.RecordLayouts.{overwrite_layout}
use a2ltool.Update.RecordLayouts.Naming.{contains_key}
use a2ltool.Update.RecordLayouts.Entries.{
  length-update_at, get_elem?-update_at, get_elem?-update_at-other, get_elem?-append,
  get_elem?-length, map_get-map_remove, map_get-map_remove-same, contains_key-map_get,
}

-- There is a count for each layout, and the index finds each layout by its name and no other name.
abbrev pub IsIndexed : Layouts → Type 0
IsIndexed s =
    (length s.reclayout_info.refcount ≡ length s.record_layout)
    × ((key : Text) (idx : ℕ)
        → map_get s.reclayout_info.idxmap key ≡ some idx
        → (rl : RecordLayout) × (get_elem? s.record_layout idx ≡ some rl) × (rl.name ≡ key))
    × ((idx : ℕ) (rl : RecordLayout)
        → get_elem? s.record_layout idx ≡ some rl
        → map_get s.reclayout_info.idxmap rl.name ≡ some idx)

-- The new name is the old one, or no layout has it.
abbrev pub IsFree : Layouts → RecordLayout → RecordLayout → Type 0
IsFree s old new = (old.name ≡ new.name) ⊎ (contains_key s.reclayout_info.idxmap new.name ≡ false)

pub map_get-first :
    (entries : List (Text × ℕ)) (key : Text) (v : ℕ) → map_get ((key, v) ∷ entries) key ≡ some v
unfolding map_get
map_get-first entries key v = rw (text_eq_refl key) refl

pub map_get-later :
    (entries : List (Text × ℕ)) (key x : Text) (v : ℕ)
    → text_eq key x ≡ false
    → map_get ((key, v) ∷ entries) x ≡ map_get entries x
unfolding map_get
map_get-later entries key x v h = rw h refl

some_injective : {A : Type 0} (a b : A) → some a ≡ some b → a ≡ b
some_injective a b h = cc

get_elem?-append-cases :
    {A : Type 0} (xs : List A) (y : A) (i : ℕ) (x : A)
    → get_elem? (xs ++ y ∷ []) i ≡ some x
    → (get_elem? xs i ≡ some x) ⊎ ((i ≡ length xs) × (x ≡ y))
get_elem?-append-cases [] y zero x h = inr (refl, sym (some_injective y x h))
get_elem?-append-cases [] y (suc i) x h = cc
get_elem?-append-cases (z ∷ xs) y zero x h = inl h
get_elem?-append-cases (z ∷ xs) y (suc i) x h = elim (get_elem?-append-cases xs y i x h) [
  | inl there ↦ inl there
  | inr (e, same) ↦ inr (ap suc e, same)
]

pub added-IsIndexed :
    (s : Layouts) (idx : ℕ) (added : RecordLayout)
    → IsIndexed s
    → contains_key s.reclayout_info.idxmap added.name ≡ false
    → IsIndexed (record {
      record_layout = s.record_layout ++ added ∷ [];
      reclayout_info = record {
        idxmap = (added.name, length s.record_layout) ∷ s.reclayout_info.idxmap;
        refcount = update_at decrease s.reclayout_info.refcount idx ++ 1 ∷ [];
      };
    })
added-IsIndexed s idx added (counted, indexed, unique) fresh = (
  omega (
    arith,
    length-append {0} (update_at decrease s.reclayout_info.refcount idx) (1 ∷ []),
    length-append {0} s.record_layout (added ∷ []),
    length-update_at decrease s.reclayout_info.refcount idx,
  ),
  λ key i h. elim (Bool-cases (text_eq added.name key)) [
    | inl same ↦
        let e = text_eq_sound added.name key same in
        let at_end : length s.record_layout ≡ i = some_injective _ _ (
          sym (map_get-first s.reclayout_info.idxmap added.name (length s.record_layout))
          ∙ ap (map_get ((added.name, length s.record_layout) ∷ s.reclayout_info.idxmap)) e
          ∙ h) in
        (
          added,
          subst (λ j. get_elem? (s.record_layout ++ added ∷ []) j ≡ some added) at_end
              (get_elem?-length s.record_layout added),
          e,
        )
    | inr other ↦
        let (rl, there, named) = indexed key i (
          sym (map_get-later s.reclayout_info.idxmap added.name key (length s.record_layout) other)
          ∙ h) in
        (rl, get_elem?-append s.record_layout (added ∷ []) i rl there, named)
  ],
  λ i rl h. elim (get_elem?-append-cases s.record_layout added i rl h) [
    | inl there ↦
        let found = unique i rl there in
        let known = contains_key-map_get s.reclayout_info.idxmap rl.name i found in
        elim (Bool-cases (text_eq added.name rl.name)) [
          | inl same ↦
              let e = text_eq_sound added.name rl.name same in
              let clash = sym fresh ∙ ap (contains_key s.reclayout_info.idxmap) e ∙ known in cc
          | inr other ↦
              map_get-later s.reclayout_info.idxmap added.name rl.name (length s.record_layout)
                other
              ∙ found
        ]
    | inr (at_end, same) ↦
        rw (same, at_end)
          (map_get-first s.reclayout_info.idxmap added.name (length s.record_layout))
  ],
)

-- The element that stands at `i` after the one at `idx` has been overwritten.
overwritten :
    (s : Layouts) (idx : ℕ) (old new : RecordLayout) (i : ℕ) (rl : RecordLayout)
    → get_elem? s.record_layout idx ≡ some old
    → get_elem? (update_at (λ _. new) s.record_layout idx) i ≡ some rl
    → ((idx ≡ i) × (rl ≡ new)) ⊎ ((idx ≢ i) × (get_elem? s.record_layout i ≡ some rl))
overwritten s idx old new i rl there h = elim (Bool-cases (idx == i)) [
  | inl here ↦
      let e : idx ≡ i = ground arith in
      let is_new : new ≡ rl = some_injective new rl (
        sym (get_elem?-update_at (λ _. new) s.record_layout idx old there)
        ∙ ap (get_elem? (update_at (λ _. new) s.record_layout idx)) e
        ∙ h) in
      inl (e, sym is_new)
  | inr other ↦
      let apart : idx ≢ i = λ e. ground arith in
      inr (apart, sym (get_elem?-update_at-other (λ _. new) s.record_layout idx i apart) ∙ h)
]

-- The layout at `idx` under a new content, by the name that it has.
same_name-IsIndexed :
    (s : Layouts) (idx : ℕ) (old new : RecordLayout)
    → IsIndexed s
    → get_elem? s.record_layout idx ≡ some old
    → old.name ≡ new.name
    → IsIndexed (record s { record_layout = update_at (λ _. new) s.record_layout idx })
same_name-IsIndexed s idx old new (counted, indexed, unique) there same = (
  counted ∙ sym (length-update_at (λ _. new) s.record_layout idx),
  λ key i h.
      let (rl, got, named) = indexed key i h in
      elim (Bool-cases (idx == i)) [
        | inl here ↦
            let e : idx ≡ i = ground arith in
            let is_old : old ≡ rl =
              some_injective old rl
                (sym there ∙ subst (λ j. get_elem? s.record_layout j ≡ some rl) (sym e) got) in
            (
              new,
              subst (λ j. get_elem? (update_at (λ _. new) s.record_layout idx) j ≡ some new) e
                  (get_elem?-update_at (λ _. new) s.record_layout idx old there),
              sym same ∙ ap (λ (r : RecordLayout). r.name) is_old ∙ named,
            )
        | inr other ↦ (
          rl,
          get_elem?-update_at-other (λ _. new) s.record_layout idx i (λ e. ground arith) ∙ got,
          named,
        )
      ],
  λ i rl h. elim (overwritten s idx old new i rl there h) [
    | inl (e, is_new) ↦
        rw (is_new, ← e)
          (subst (λ n. map_get s.reclayout_info.idxmap n ≡ some idx) same (unique idx old there))
    | inr (other, got) ↦ unique i rl got
  ],
)

renamed-IsIndexed :
    (s : Layouts) (idx : ℕ) (old new : RecordLayout)
    → IsIndexed s
    → get_elem? s.record_layout idx ≡ some old
    → old.name ≢ new.name
    → contains_key s.reclayout_info.idxmap new.name ≡ false
    → IsIndexed (record {
      record_layout = update_at (λ _. new) s.record_layout idx;
      reclayout_info = record s.reclayout_info {
        idxmap = (new.name, idx) ∷ map_remove s.reclayout_info.idxmap old.name;
      };
    })
renamed-IsIndexed s idx old new (counted, indexed, unique) there differs fresh =
    let entries = s.reclayout_info.idxmap in
    let others = map_remove entries old.name in
    (
      counted ∙ sym (length-update_at (λ _. new) s.record_layout idx),
      λ key i h. elim (Bool-cases (text_eq new.name key)) [
        | inl same ↦
            let e = text_eq_sound new.name key same in
            let at_idx : idx ≡ i = some_injective idx i (
              sym (map_get-first others new.name idx)
              ∙ ap (map_get ((new.name, idx) ∷ others)) e
              ∙ h) in
            (
              new,
              subst (λ j. get_elem? (update_at (λ _. new) s.record_layout idx) j ≡ some new) at_idx
                  (get_elem?-update_at (λ _. new) s.record_layout idx old there),
              e,
            )
        | inr other ↦
            let later = sym (map_get-later others new.name key idx other) ∙ h in
            let not_old : old.name ≢ key = λ e.
              (let gone =
                  sym (map_get-map_remove-same entries old.name) ∙ ap (map_get others) e ∙ later in
                cc) in
            let (rl, got, named) =
              indexed key i (sym (map_get-map_remove entries old.name key not_old) ∙ later) in
            let not_idx : idx ≢ i = λ e. not_old (
              ap (λ (r : RecordLayout). r.name)
                (some_injective old rl
                  (sym there ∙ subst (λ j. get_elem? s.record_layout j ≡ some rl) (sym e) got))
              ∙ named) in
            (rl, get_elem?-update_at-other (λ _. new) s.record_layout idx i not_idx ∙ got, named)
      ],
      λ i rl h. elim (overwritten s idx old new i rl there h) [
        | inl (e, is_new) ↦ rw (is_new, ← e) (map_get-first others new.name idx)
        | inr (other, got) ↦
            let found = unique i rl got in
            let not_old : old.name ≢ rl.name = λ e. other (
              some_injective idx i (sym (unique idx old there) ∙ ap (map_get entries) e ∙ found)) in
            let known = contains_key-map_get entries rl.name i found in
            elim (Bool-cases (text_eq new.name rl.name)) [
              | inl same ↦
                  let e = text_eq_sound new.name rl.name same in
                  let clash = sym fresh ∙ ap (contains_key entries) e ∙ known in cc
              | inr later ↦
                  map_get-later others new.name rl.name idx later
                  ∙ map_get-map_remove entries old.name rl.name not_old
                  ∙ found
            ]
      ],
    )

pub overwrite_layout-IsIndexed :
    (s : Layouts) (idx : ℕ) (old new : RecordLayout)
    → IsIndexed s
    → get_elem? s.record_layout idx ≡ some old
    → IsFree s old new
    → IsIndexed (overwrite_layout s idx old new).1
unfolding overwrite_layout
overwrite_layout-IsIndexed s idx old new well there free =
    elim (Bool-cases (text_eq old.name new.name)) [
      | inl same ↦
          rw same
            (same_name-IsIndexed s idx old new well there (text_eq_sound old.name new.name same))
      | inr differs ↦
          let apart : old.name ≢ new.name = λ e.
            (let clash = sym differs ∙ ap (text_eq old.name) (sym e) ∙ text_eq_refl old.name in
              cc) in
          elim free [
            | inl same ↦ absurd (apart same)
            | inr fresh ↦ rw differs (renamed-IsIndexed s idx old new well there apart fresh)
          ]
    ]
