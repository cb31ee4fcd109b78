-- ===== src/Update/Objects/Outcomes.antt =====
-- src/update/axis_pts.rs and characteristic.rs: their loop, where an update changes nothing but its
-- object.
use a2ltool.Prelude.{
  Text, Bool, true, false, List, [], ◌∷◌, ◌++◌, ok, ◌>>=◌, ◌≡◌, refl, ap, ◌∙◌, ◌⊎◌, inl, inr,
  Bool-cases, if-true, if-false,
}
use mathlib.Core.List.{append_assoc, append-nil}
use a2ltool.Update.Objects.{LoopState, Kind, push_back, update_loop}
use a2ltool.Update.Results.{UpdateResult, updated, symbol_not_found, invalid_data_type}

abbrev pub is_missing : UpdateResult → Bool
is_missing updated = false
is_missing (symbol_not_found b n l es) = true
is_missing (invalid_data_type b n l) = false

-- The objects before and after, the results, and the names that were removed. An object that is
-- found changes as `Changes` says, and one that is not has the result that `Misses` says.
pub data Outcomes {S O : Type 0} (kind : Kind S O) (preserve : Bool)
    (Changes : O → O → UpdateResult → Type 0) (Misses : O → UpdateResult → Type 0)
    : List O → List O → List UpdateResult → List Text → Type 0 where
  none_left : Outcomes kind preserve Changes Misses [] [] [] []
  found :
      (o o' : O) (r : UpdateResult) {os ks : List O} {rs : List UpdateResult} {gone : List Text}
      → is_missing r ≡ false
      → Changes o o' r
      → Outcomes kind preserve Changes Misses os ks rs gone
      → Outcomes kind preserve Changes Misses (o ∷ os) (o' ∷ ks) (r ∷ rs) gone
  preserved :
      (o : O) (r : UpdateResult) {os ks : List O} {rs : List UpdateResult} {gone : List Text}
      → is_missing r ≡ true
      → Misses o r
      → preserve ≡ true
      → Outcomes kind preserve Changes Misses os ks rs gone
      → Outcomes kind preserve Changes Misses (o ∷ os) (kind.zeroed o ∷ ks) (r ∷ rs) gone
  removed :
      (o : O) (r : UpdateResult) {os ks : List O} {rs : List UpdateResult} {gone : List Text}
      → is_missing r ≡ true
      → Misses o r
      → preserve ≡ false
      → Outcomes kind preserve Changes Misses os ks rs gone
      → Outcomes kind preserve Changes Misses (o ∷ os) ks (r ∷ rs) (kind.name_of o ∷ gone)

-- The update of one object returns, and changes at most this object.
abbrev pub SettlesOne :
    {S O : Type 0}
    → Kind S O
    → (O → O → UpdateResult → Type 0)
    → (O → UpdateResult → Type 0)
    → S
    → O
    → Type 0
SettlesOne {O = O} kind Changes Misses st o =
    (r : UpdateResult) × (o' : O) × (kind.update_one st o ≡ ok (r, o', st))
    × (((is_missing r ≡ false) × Changes o o' r) ⊎ ((is_missing r ≡ true) × (o' ≡ o) × Misses o r))

abbrev pub SettlesAll :
    {S O : Type 0}
    → Kind S O
    → (O → O → UpdateResult → Type 0)
    → (O → UpdateResult → Type 0)
    → S
    → List O
    → Type 0
SettlesAll kind Changes Misses st [] = Unit
SettlesAll kind Changes Misses st (o ∷ os) =
    SettlesOne kind Changes Misses st o × SettlesAll kind Changes Misses st os

-- The state with more at the end of its lists.
abbrev pub extended :
    {S O : Type 0} → LoopState S O → List O → List UpdateResult → List Text → LoopState S O
extended s ks rs gone = record {
  changed = s.changed;
  kept = s.kept ++ ks;
  removed_items = s.removed_items ++ gone;
  results = s.results ++ rs;
}

extended-extended :
    {S O : Type 0} (s : LoopState S O) (ks ks' : List O) (rs rs' : List UpdateResult)
    (gone gone' : List Text)
    → extended (extended s ks rs gone) ks' rs' gone'
      ≡ extended s (ks ++ ks') (rs ++ rs') (gone ++ gone')
extended-extended s ks ks' rs rs' gone gone' =
    rw
      (
        append_assoc s.kept ks ks',
        append_assoc s.results rs rs',
        append_assoc s.removed_items gone gone',
      )
      refl

module _ {S O : Type 0} (kind : Kind S O) (preserve : Bool) where
  push_back-found :
      (s : LoopState S O) (o : O) (r : UpdateResult)
      → is_missing r ≡ false
      → push_back kind preserve s (r, o, s.changed) ≡ extended s (o ∷ []) (r ∷ []) []
  unfolding push_back
  push_back-found s o updated h = rw (append-nil s.removed_items) refl
  push_back-found s o (symbol_not_found b n l es) h = cc
  push_back-found s o (invalid_data_type b n l) h = rw (append-nil s.removed_items) refl

  push_back-preserved :
      (s : LoopState S O) (o : O) (r : UpdateResult)
      → is_missing r ≡ true
      → preserve ≡ true
      → push_back kind preserve s (r, o, s.changed) ≡ extended s (kind.zeroed o ∷ []) (r ∷ []) []
  unfolding push_back
  push_back-preserved s o updated h keep = cc
  push_back-preserved s o (symbol_not_found b n l es) h keep =
      if-true _ _ _ keep ∙ rw (append-nil s.removed_items) refl
  push_back-preserved s o (invalid_data_type b n l) h keep = cc

  push_back-removed :
      (s : LoopState S O) (o : O) (r : UpdateResult)
      → is_missing r ≡ true
      → preserve ≡ false
      → push_back kind preserve s (r, o, s.changed) ≡ extended s [] (r ∷ []) (kind.name_of o ∷ [])
  unfolding push_back
  push_back-removed s o updated h drop = cc
  push_back-removed s o (symbol_not_found b n l es) h drop =
      if-false _ _ _ drop ∙ rw (append-nil s.kept) refl
  push_back-removed s o (invalid_data_type b n l) h drop = cc

  -- One step of the loop: what it pushes, and the rest of the loop.
  loop-step :
      (o : O) (os ks ks' : List O) (s : LoopState S O) (r : UpdateResult) (o' : O)
      (rs : List UpdateResult) (gone gone' : List Text)
      → kind.update_one s.changed o ≡ ok (r, o', s.changed)
      → push_back kind preserve s (r, o', s.changed) ≡ extended s ks (r ∷ []) gone
      → update_loop kind preserve os (extended s ks (r ∷ []) gone)
        ≡ ok (extended (extended s ks (r ∷ []) gone) ks' rs gone')
      → update_loop kind preserve (o ∷ os) s ≡ ok (extended s (ks ++ ks') (r ∷ rs) (gone ++ gone'))
  unfolding update_loop
  loop-step o os ks ks' s r o' rs gone gone' single push rest =
      ap (λ q. q >>= λ r. update_loop kind preserve os (push_back kind preserve s r)) single
      ∙ ap (update_loop kind preserve os) push
      ∙ rest
      ∙ ap ok (extended-extended s ks ks' (r ∷ []) rs gone gone')

  pub loop-Outcomes :
      (Changes : O → O → UpdateResult → Type 0) (Misses : O → UpdateResult → Type 0) (os : List O)
      (s : LoopState S O)
      → SettlesAll kind Changes Misses s.changed os
      → (ks : List O) × (rs : List UpdateResult) × (gone : List Text) × (update_loop kind preserve
            os s
          ≡ ok (extended s ks rs gone))
        × Outcomes kind preserve Changes Misses os ks rs gone
  unfolding update_loop
  loop-Outcomes Changes Misses [] s h = (
    [],
    [],
    [],
    ap ok (rw (append-nil s.kept, append-nil s.removed_items, append-nil s.results) refl),
    none_left,
  )
  loop-Outcomes Changes Misses (o ∷ os) s ((r, o', single, inl (there, change)), rest) =
      let (ks, rs, gone, loop, outcomes) =
        loop-Outcomes Changes Misses os (extended s (o' ∷ []) (r ∷ []) []) rest in
      (
        o' ∷ ks,
        r ∷ rs,
        gone,
        loop-step o os (o' ∷ []) ks s r o' rs [] gone single (push_back-found s o' r there) loop,
        found o o' r there change outcomes,
      )
  loop-Outcomes Changes Misses (o ∷ os) s ((r, o', single, inr (missing, same, failed)), rest) =
      let same_single = single ∙ ap (λ x. ok (r, x, s.changed)) same in
      elim (Bool-cases preserve) [
        | inl keep ↦
            let (ks, rs, gone, loop, outcomes) =
              loop-Outcomes Changes Misses os (extended s (kind.zeroed o ∷ []) (r ∷ []) []) rest in
            (
              kind.zeroed o ∷ ks,
              r ∷ rs,
              gone,
              loop-step o os (kind.zeroed o ∷ []) ks s r o rs [] gone same_single
                  (push_back-preserved s o r missing keep) loop,
              preserved o r missing failed keep outcomes,
            )
        | inr drop ↦
            let (ks, rs, gone, loop, outcomes) =
              loop-Outcomes Changes Misses os (extended s [] (r ∷ []) (kind.name_of o ∷ [])) rest in
            (
              ks,
              r ∷ rs,
              kind.name_of o ∷ gone,
              loop-step o os [] ks s r o rs (kind.name_of o ∷ []) gone same_single
                  (push_back-removed s o r missing drop) loop,
              removed o r missing failed drop outcomes,
            )
      ]
