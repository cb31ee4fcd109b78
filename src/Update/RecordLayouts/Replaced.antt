-- ===== src/Update/RecordLayouts/Replaced.antt =====
-- src/update/record_layout.rs: what `update_record_layout` returns and what it leaves unchanged.
use a2ltool.Prelude.{
  ℕ, ◌^◌, ◌<◌, ◌==◌, Text, Option, none, some, [], ◌∷◌, ◌++◌, ok, length, get_elem?, text_eq,
  text_eq_sound, ◌≡◌, refl, sym, ◌∙◌, Bool-cases, inl, inr, ◌⊎◌, arith,
}
use mathlib.Core.Path.{subst}
use a2ltool.DebugInfo.{TypeInfo}
use a2ltool.DebugInfo.UnitName.{map_get}
use a2ltool.TypeIter.{Run}
use a2ltool.DataTypes.{DataType}
use a2ltool.A2l.{RecordLayout}
use a2ltool.Update.RecordLayouts.Store.{Layouts, update_at, map_remove, decrease, increase}
use a2ltool.Update.RecordLayouts.Clone.{new_layout}
use a2ltool.Update.RecordLayouts.{
  find_content, use_existing, overwrite_layout, add_layout, replace_layout, store_layout,
  update_at_index, update_record_layout,
}
use a2ltool.Update.RecordLayouts.Equality.{layout_eq, layout_eq_sound, compare_rl_content_sound}
use a2ltool.Update.RecordLayouts.Indexed.{
  IsIndexed, IsFree, map_get-first, added-IsIndexed, overwrite_layout-IsIndexed,
}
use a2ltool.Update.RecordLayouts.Unique.{make_unique_reclayout_name-returns}
use a2ltool.Update.RecordLayouts.Entries.{
  at-get_elem?, at-bounded, get_elem?-bounded, get_elem?-lt, length-update_at, get_elem?-update_at,
  get_elem?-update_at-other, get_elem?-append, get_elem?-length, find_content_lem,
}
use a2ltool.Update.RecordLayouts.Resolved.{Resolves}

-- Every layout is unchanged but the one at `idx`, and that one too if it has another user.
abbrev pub IsKept : Layouts → Layouts → ℕ → Type 0
IsKept s s' idx =
    (j : ℕ) (rl : RecordLayout)
    → get_elem? s.record_layout j ≡ some rl
    → (get_elem? s'.record_layout j ≡ some rl)
      ⊎ ((j ≡ idx) × (get_elem? s.reclayout_info.refcount idx ≡ some 1))

-- The result is a name and the layouts after the update.
abbrev pub Stored : Run (Text × Layouts) → Layouts → ℕ → RecordLayout → RecordLayout → Type 0
Stored r s idx old new =
    (nm : Text) × (s' : Layouts) × (r ≡ ok (nm, s'))
    × Resolves s' nm new
    × IsKept s s' idx
    × (IsFree s old new → IsIndexed s')

use_existing-Stored :
    (s : Layouts) (idx existing_idx : ℕ) (old new existing : RecordLayout)
    → IsIndexed s
    → idx < length s.record_layout
    → get_elem? s.record_layout existing_idx ≡ some existing
    → new ≡ record existing { name = new.name }
    → Stored (use_existing s idx existing_idx existing) s idx old new
unfolding use_existing
use_existing-Stored s idx existing_idx old new existing (counted, indexed, unique) bound there
      same =
    let counts = s.reclayout_info.refcount in
    let less = update_at decrease counts idx in
    let (c, at_idx) = at-bounded counts idx (omega arith) in
    let (d, at_existing) = at-bounded less existing_idx (
      omega (
        arith,
        length-update_at decrease counts idx,
        get_elem?-lt s.record_layout existing_idx existing there,
      )) in
    (
      existing.name,
      record s {
        reclayout_info = record s.reclayout_info {
          refcount = update_at increase less existing_idx;
        };
      },
      rw (at_idx, at_existing) refl,
      (existing_idx, existing, unique existing_idx existing there, there, same),
      λ j rl h. inl h,
      λ free. (
        length-update_at increase less existing_idx
            ∙ length-update_at decrease counts idx
            ∙ counted,
        indexed,
        unique,
      ),
    )

overwrite_layout-Stored :
    (s : Layouts) (idx : ℕ) (old new : RecordLayout)
    → IsIndexed s
    → get_elem? s.record_layout idx ≡ some old
    → get_elem? s.reclayout_info.refcount idx ≡ some 1
    → Stored (ok (overwrite_layout s idx old new)) s idx old new
unfolding overwrite_layout
overwrite_layout-Stored s idx old new (counted, indexed, unique) there one = (
  new.name,
  (overwrite_layout s idx old new).1,
  refl,
  (
    idx,
    new,
    elim (Bool-cases (text_eq old.name new.name)) [
      | inl same ↦ rw same (
          subst (λ n. map_get s.reclayout_info.idxmap n ≡ some idx)
            (text_eq_sound old.name new.name same) (unique idx old there))
      | inr differs ↦
          rw differs (map_get-first (map_remove s.reclayout_info.idxmap old.name) new.name idx)
    ],
    get_elem?-update_at (λ _. new) s.record_layout idx old there,
    refl,
  ),
  λ j rl h. elim (Bool-cases (idx == j)) [
    | inl same ↦ inr (ground arith, one)
    | inr other ↦
        inl (get_elem?-update_at-other (λ _. new) s.record_layout idx j (λ e. ground arith) ∙ h)
  ],
  overwrite_layout-IsIndexed s idx old new (counted, indexed, unique) there,
)

add_layout-Stored :
    (s : Layouts) (idx : ℕ) (old new : RecordLayout)
    → IsIndexed s
    → length s.reclayout_info.idxmap < 2 ^ 31
    → Stored (add_layout s idx new) s idx old new
unfolding add_layout
add_layout-Stored s idx old new well few =
    let (nm, named, fresh) =
      make_unique_reclayout_name-returns new.name s.reclayout_info.idxmap few in
    let added : RecordLayout = record new { name = nm } in
    let info = record s.reclayout_info {
      idxmap = (nm, length s.record_layout) ∷ s.reclayout_info.idxmap;
      refcount = update_at decrease s.reclayout_info.refcount idx ++ 1 ∷ [];
    } in
    (
      nm,
      record { record_layout = s.record_layout ++ added ∷ []; reclayout_info = info },
      rw named refl,
      (
        length s.record_layout,
        added,
        map_get-first s.reclayout_info.idxmap nm (length s.record_layout),
        get_elem?-length s.record_layout added,
        refl,
      ),
      λ j rl h. inl (get_elem?-append s.record_layout (added ∷ []) j rl h),
      λ free. added-IsIndexed s idx added well fresh,
    )

replace_layout-Stored :
    (s : Layouts) (idx : ℕ) (old new : RecordLayout) (found : Option (ℕ × RecordLayout))
    → IsIndexed s
    → length s.reclayout_info.idxmap < 2 ^ 31
    → get_elem? s.record_layout idx ≡ some old
    → find_content new s.record_layout 0 ≡ found
    → Stored (replace_layout s idx old new found) s idx old new
unfolding replace_layout
replace_layout-Stored s idx old new (some (i, existing)) well few there e =
    let (k, ik, got, content) = find_content_lem new s.record_layout 0 i existing e in
    let at_i : k ≡ i = omega arith in
    use_existing-Stored s idx i old new existing well (get_elem?-lt s.record_layout idx old there)
      (subst (λ j. get_elem? s.record_layout j ≡ some existing) at_i got)
      (compare_rl_content_sound new existing content)
replace_layout-Stored s idx old new none well few there e =
    let counts = s.reclayout_info.refcount in
    let (c, counted) =
      get_elem?-bounded counts idx
        (omega (arith, well.0, get_elem?-lt s.record_layout idx old there)) in
    rw (at-get_elem? counts idx c counted) (elim (Bool-cases (c == 1)) [
      | inl one ↦
          let is_one : c ≡ 1 = ground arith in
          rw one (
            overwrite_layout-Stored s idx old new well there
              (subst (λ n. get_elem? counts idx ≡ some n) is_one counted))
      | inr more ↦ rw more (add_layout-Stored s idx old new well few)
    ])

store_layout-Stored :
    (s : Layouts) (idx : ℕ) (nm : Text) (old new : RecordLayout)
    → IsIndexed s
    → length s.reclayout_info.idxmap < 2 ^ 31
    → map_get s.reclayout_info.idxmap nm ≡ some idx
    → get_elem? s.record_layout idx ≡ some old
    → Stored (store_layout s idx nm old new) s idx old new
unfolding store_layout
store_layout-Stored s idx nm old new well few named there = elim (Bool-cases (layout_eq old new)) [
  | inl same ↦ rw same (
    nm,
    s,
    refl,
    (
      idx,
      old,
      named,
      there,
      sym (layout_eq_sound old new same) ∙ λ i. record old {
        name = (layout_eq_sound old new same i).name;
      },
    ),
    λ j rl h. inl h,
    λ free. well,
  )
  | inr differs ↦
      rw differs (
        replace_layout-Stored s idx old new (find_content new s.record_layout 0) well few there
          refl)
]

update_record_layout-Stored :
    (type_text : DataType → Text) (s : Layouts) (nm : Text) (t : TypeInfo) (idx : ℕ)
    (old new : RecordLayout)
    → IsIndexed s
    → length s.reclayout_info.idxmap < 2 ^ 31
    → map_get s.reclayout_info.idxmap nm ≡ some idx
    → get_elem? s.record_layout idx ≡ some old
    → new_layout type_text old t ≡ ok new
    → Stored (update_record_layout type_text s nm t) s idx old new
unfolding update_record_layout update_at_index
update_record_layout-Stored type_text s nm t idx old new well few named there cloned =
    rw (named, at-get_elem? s.record_layout idx old there, cloned)
      (store_layout-Stored s idx nm old new well few named there)

-- For well indexed layouts, fewer than 2^31 of them, and a layout `old` whose clone with the types
-- of the symbol is `new`: the update returns a name that the index finds, and the layout of that
-- name has the content of the clone. Each layout is unchanged, save the one of the given name,
-- which is changed only if it has a single user.
pub update_record_layout-Resolves :
    (type_text : DataType → Text) (s : Layouts) (nm : Text) (t : TypeInfo) (idx : ℕ)
    (old new : RecordLayout)
    → IsIndexed s
    → length s.reclayout_info.idxmap < 2 ^ 31
    → map_get s.reclayout_info.idxmap nm ≡ some idx
    → get_elem? s.record_layout idx ≡ some old
    → new_layout type_text old t ≡ ok new
    → (nm' : Text) × (s' : Layouts) × (update_record_layout type_text s nm t ≡ ok (nm', s'))
      × Resolves s' nm' new
      × IsKept s s' idx
update_record_layout-Resolves type_text s nm t idx old new well few named there cloned =
    let (nm', s', done, resolves, kept, indexed) =
      update_record_layout-Stored type_text s nm t idx old new well few named there cloned in
    (nm', s', done, resolves, kept)

-- The layouts stay well indexed, so that each is found by its own name alone and has a count, where
-- there are fewer than 2^31 of them and the clone has the old name or one that no layout has.
pub update_record_layout-IsIndexed :
    (type_text : DataType → Text) (s : Layouts) (nm : Text) (t : TypeInfo) (idx : ℕ)
    (old new : RecordLayout)
    → IsIndexed s
    → length s.reclayout_info.idxmap < 2 ^ 31
    → map_get s.reclayout_info.idxmap nm ≡ some idx
    → get_elem? s.record_layout idx ≡ some old
    → new_layout type_text old t ≡ ok new
    → IsFree s old new
    → (nm' : Text) × (s' : Layouts) × (update_record_layout type_text s nm t ≡ ok (nm', s'))
      × IsIndexed s'
update_record_layout-IsIndexed type_text s nm t idx old new well few named there cloned free =
    let (nm', s', done, resolves, kept, indexed) =
      update_record_layout-Stored type_text s nm t idx old new well few named there cloned in
    (nm', s', done, indexed free)
