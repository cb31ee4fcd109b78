-- ===== src/Update/Measurement/Kept.antt =====
-- src/update/measurement.rs: which MEASUREMENTs a module has after the update.
use mathlib.Core.List.{append_assoc, append-nil}
use mathlib.Core.Path.{subst}
use a2ltool.Prelude.{
  ℕ, Text, false, List, [], ◌∷◌, ◌++◌, ok, err, panic, out_of_fuel, >>=-eq-ok, Bool-cases, if-true,
  if-false, inl, inr, ◌≡◌, refl, sym, ap, ap₂, ◌∙◌, codes,
}
use a2ltool.TypeIter.{Run}
use a2ltool.Floats.{Floats}
use a2ltool.A2l.{Module, Measurement}
use a2ltool.Update.Info.{A2lUpdateInfo}
use a2ltool.Update.IfData.{A2lCrate}
use a2ltool.Update.Lookup.{Found}
use a2ltool.Update.Enums.{update_enum_compu_methods}
use a2ltool.Update.Results.{UpdateResult, updated, symbol_not_found, invalid_data_type}
use a2ltool.Update.Measurement.{ConvList}
use a2ltool.Update.Measurement.Cleanup.References.{
  ModuleCleaned, cleanup_removed_measurements-ModuleCleaned,
}
use a2ltool.Update.Measurement.Loop.{
  Single, LoopState, on_found, update_module_measurement, push_back, zeroed, start, keep_state,
  remove_state, update_loop, finish, update_all_module_measurements,
}
use a2ltool.Update.Measurement.Processed.{
  IsFound, OnlyTables, OnlyTables-trans, enums-OnlyTables, look_up, Processed, unaddressed, found,
  preserved, removed, done, Settled, as_virtual, as_found, as_missing, ok-injective,
  with_symbol-IsUpdated, with_symbol-OnlyTables,
}

module _ {F D : Type 0} ⦃fl : Floats F⦄ ⦃a2l : A2lCrate D⦄ where
  on_found-Settled :
      (fuel : ℕ) (info : A2lUpdateInfo) (md : Module F D) (list : ConvList) (m : Measurement F D)
      (f : Found) (r : Single F D)
      → m.var_virtual ≡ false
      → look_up fuel info m ≡ f
      → on_found info md list m f ≡ ok r
      → Settled fuel info md m r × OnlyTables md r.2
  unfolding on_found
  on_found-Settled fuel info md list m (ok s) r real e h = rw (← ok-injective _ _ h) (
    as_found s real e (with_symbol-IsUpdated info md list m s),
    with_symbol-OnlyTables info md list m s,
  )
  on_found-Settled fuel info md list m (err es) r real e h =
      rw (← ok-injective _ _ h) (as_missing es real e refl refl, refl)
  on_found-Settled fuel info md list m panic r real e h = cc
  on_found-Settled fuel info md list m out_of_fuel r real e h = cc

  single-Settled :
      (fuel : ℕ) (info : A2lUpdateInfo) (md : Module F D) (list : ConvList) (m : Measurement F D)
      (r : Single F D)
      → update_module_measurement fuel info md list m ≡ ok r
      → Settled fuel info md m r × OnlyTables md r.2
  unfolding update_module_measurement
  single-Settled fuel info md list m r h = elim (Bool-cases m.var_virtual) [
    | inl no_address ↦
        rw (← ok-injective _ _ (sym (if-true m.var_virtual _ _ no_address) ∙ h))
          (as_virtual no_address refl refl, refl)
    | inr real ↦
        on_found-Settled fuel info md list m (look_up fuel info m) r real refl
          (sym (if-false m.var_virtual _ _ real) ∙ h)
  ]

  -- The loop has appended to each of its lists.
  abbrev Appended :
      ℕ → A2lUpdateInfo → List (Measurement F D) → LoopState F D → LoopState F D → Type 0
  Appended fuel info ms s s' =
      (ms' : List (Measurement F D)) × (rs : List UpdateResult) × (gone : List Text) × (s'.kept
        ≡ s.kept ++ ms')
      × (s'.results ≡ s.results ++ rs)
      × (s'.removed_items ≡ s.removed_items ++ gone)
      × OnlyTables s.md s'.md
      × Processed fuel info ms ms' rs gone

  kept_step :
      (fuel : ℕ) (info : A2lUpdateInfo) (m k : Measurement F D) (ms : List (Measurement F D))
      (s s' : LoopState F D) (r : UpdateResult) (md : Module F D) (list : ConvList)
      → OnlyTables s.md md
      → ((ms' : List (Measurement F D)) (rs : List UpdateResult) (gone : List Text)
          → Processed fuel info ms ms' rs gone
          → Processed fuel info (m ∷ ms) (k ∷ ms') (r ∷ rs) gone)
      → Appended fuel info ms (keep_state s k md list r) s'
      → Appended fuel info (m ∷ ms) s s'
  kept_step fuel info m k ms s s' r md list only rule (ms', rs, gone, ek, er, eg, em, p) = (
    k ∷ ms',
    r ∷ rs,
    gone,
    ek ∙ append_assoc s.kept (k ∷ []) ms',
    er ∙ append_assoc s.results (r ∷ []) rs,
    eg,
    OnlyTables-trans s.md md s'.md only em,
    rule ms' rs gone p,
  )

  removed_step :
      (fuel : ℕ) (info : A2lUpdateInfo) (m : Measurement F D) (ms : List (Measurement F D))
      (s s' : LoopState F D) (r : UpdateResult) (md : Module F D) (list : ConvList)
      → OnlyTables s.md md
      → ((ms' : List (Measurement F D)) (rs : List UpdateResult) (gone : List Text)
          → Processed fuel info ms ms' rs gone
          → Processed fuel info (m ∷ ms) ms' (r ∷ rs) (m.name ∷ gone))
      → Appended fuel info ms (remove_state s m md list r) s'
      → Appended fuel info (m ∷ ms) s s'
  removed_step fuel info m ms s s' r md list only rule (ms', rs, gone, ek, er, eg, em, p) = (
    ms',
    r ∷ rs,
    m.name ∷ gone,
    ek,
    er ∙ append_assoc s.results (r ∷ []) rs,
    eg ∙ append_assoc s.removed_items (m.name ∷ []) gone,
    OnlyTables-trans s.md md s'.md only em,
    rule ms' rs gone p,
  )

  push_back-found :
      (info : A2lUpdateInfo) (s : LoopState F D) (r : UpdateResult) (m : Measurement F D)
      (md : Module F D) (list : ConvList)
      → IsFound r
      → push_back info s (r, m, md, list) ≡ keep_state s m md list r
  unfolding push_back
  push_back-found info s updated m md list h = refl
  push_back-found info s (symbol_not_found b n l es) m md list h = absurd h
  push_back-found info s (invalid_data_type b n l) m md list h = refl

  pushed_missing :
      (fuel : ℕ) (info : A2lUpdateInfo) (m : Measurement F D) (ms : List (Measurement F D))
      (s s' : LoopState F D) (es : List Text) (md : Module F D) (list : ConvList)
      → m.var_virtual ≡ false
      → look_up fuel info m ≡ err es
      → OnlyTables s.md md
      → Appended fuel info ms
          (push_back info s (symbol_not_found (codes "MEASUREMENT") m.name m.line es, m, md, list))
          s'
      → Appended fuel info (m ∷ ms) s s'
  unfolding push_back
  pushed_missing fuel info m ms s s' es md list real e only appended =
      let r = symbol_not_found (codes "MEASUREMENT") m.name m.line es in
      elim (Bool-cases info.preserve_unknown) [
        | inl keep ↦
            kept_step fuel info m (zeroed m) ms s s' r md list only
              (λ ks rs gone p. preserved m es real e keep p)
              (subst (λ (q : LoopState F D). Appended fuel info ms q s') (if-true _ _ _ keep)
                appended)
        | inr drop ↦
            removed_step fuel info m ms s s' r md list only
              (λ ks rs gone p. removed m es real e drop p)
              (subst (λ (q : LoopState F D). Appended fuel info ms q s') (if-false _ _ _ drop)
                appended)
      ]

  pushed :
      (fuel : ℕ) (info : A2lUpdateInfo) (m : Measurement F D) (ms : List (Measurement F D))
      (s s' : LoopState F D) (r : UpdateResult) (m' : Measurement F D) (md : Module F D)
      (list : ConvList)
      → Settled fuel info s.md m (r, m', md, list)
      → OnlyTables s.md md
      → Appended fuel info ms (push_back info s (r, m', md, list)) s'
      → Appended fuel info (m ∷ ms) s s'
  pushed fuel info m ms s s' r m' md list (as_virtual no_address result same) only appended =
      kept_step fuel info m m ms s s' updated md list only
        (λ ks rs gone p. unaddressed m no_address p)
        (subst (λ (q : LoopState F D). Appended fuel info ms q s')
          (ap₂ (λ x y. push_back info s (x, y, md, list)) result same
            ∙ push_back-found info s updated m md list tt)
          appended)
  pushed fuel info m ms s s' r m' md list (as_found sym_info real e is_updated) only appended =
      kept_step fuel info m m' ms s s' r md list only
        (λ ks rs gone p. found sym_info m m' r real e is_updated p)
        (subst (λ (q : LoopState F D). Appended fuel info ms q s')
          (push_back-found info s r m' md list is_updated.0) appended)
  pushed fuel info m ms s s' r m' md list (as_missing es real e result same) only appended =
      pushed_missing fuel info m ms s s' es md list real e only (
        subst (λ (q : LoopState F D). Appended fuel info ms q s')
          (ap₂ (λ x y. push_back info s (x, y, md, list)) result same) appended)

  only_start : (s s' : LoopState F D) → s' ≡ s → OnlyTables s.md s'.md
  only_start s s' e = subst (λ (q : LoopState F D). OnlyTables s.md q.md) (sym e) refl

  loop-Appended :
      (fuel : ℕ) (info : A2lUpdateInfo) (ms : List (Measurement F D)) (s s' : LoopState F D)
      → update_loop fuel info ms s ≡ ok s'
      → Appended fuel info ms s s'
  unfolding update_loop
  loop-Appended fuel info [] s s' h =
      let e : s' ≡ s = cc in
      (
        [],
        [],
        [],
        ap (λ (q : LoopState F D). q.kept) e ∙ sym (append-nil s.kept),
        ap (λ (q : LoopState F D). q.results) e ∙ sym (append-nil s.results),
        ap (λ (q : LoopState F D). q.removed_items) e ∙ sym (append-nil s.removed_items),
        only_start s s' e,
        done,
      )
  loop-Appended fuel info (m ∷ ms) s s' h =
      let (r, single, rest) =
        >>=-eq-ok (update_module_measurement fuel info s.md s.enum_convlist m)
          (λ r. update_loop fuel info ms (push_back info s r)) h in
      let (settled, only) = single-Settled fuel info s.md s.enum_convlist m r single in
      pushed fuel info m ms s s' r.0 r.1 r.2 r.3 settled only
        (loop-Appended fuel info ms (push_back info s r) s' rest)

  enums-measurement :
      (md : Module F D) (list : ConvList)
      → (update_enum_compu_methods md list).measurement ≡ md.measurement
  unfolding update_enum_compu_methods
  enums-measurement md [] = refl
  enums-measurement md (entry ∷ list) = refl

  finished :
      (a b : Module F D × List UpdateResult)
      → ◌≡◌ {A = Run (Module F D × List UpdateResult)} (ok a) (ok b)
      → a ≡ b
  finished a b h = cc

  -- The MEASUREMENTs, the results and the references after an update that returns.
  pub update_all_module_measurements-Processed :
      (fuel : ℕ) (info : A2lUpdateInfo) (md md' : Module F D) (results : List UpdateResult)
      → update_all_module_measurements fuel info md ≡ ok (md', results)
      → (gone : List Text) × (before : Module F D) × OnlyTables
          (record md { measurement = md'.measurement })
          before
        × Processed fuel info md.measurement md'.measurement results gone
        × ModuleCleaned gone before md'
  unfolding update_all_module_measurements finish
  update_all_module_measurements-Processed fuel info md md' results h =
      let (s, loop, fin) =
        >>=-eq-ok (update_loop fuel info md.measurement (start md)) (λ s. ok (finish s)) h in
      let (ms', rs, gone, ek, er, eg, em, p) =
        loop-Appended fuel info md.measurement (start md) s loop in
      let after_loop = record s.md { measurement = s.kept } in
      let before = update_enum_compu_methods after_loop s.enum_convlist in
      let e = finished (finish s) (md', results) fin in
      let cleaned = cleanup_removed_measurements-ModuleCleaned before s.removed_items in
      let measurements : md'.measurement ≡ s.kept =
        ap (λ (q : Module F D × List UpdateResult). q.0.measurement) (sym e)
        ∙ cleaned.6
        ∙ enums-measurement after_loop s.enum_convlist in
      let same_results : rs ≡ results =
        sym er ∙ ap (λ (q : Module F D × List UpdateResult). q.1) e in
      let only : OnlyTables (record md { measurement = s.kept }) after_loop =
        ap (λ (x : Module F D). record x { measurement = s.kept }) em in
      (
        gone,
        before,
        subst (λ l. OnlyTables (record md { measurement = l }) before) (sym measurements)
            (OnlyTables-trans (record md { measurement = s.kept }) after_loop before only
              (enums-OnlyTables after_loop s.enum_convlist)),
        subst (λ l. Processed fuel info md.measurement l results gone) (sym (measurements ∙ ek))
            (subst (λ l. Processed fuel info md.measurement ms' l gone) same_results p),
        subst (λ g. ModuleCleaned g before md') eg
            (subst (λ q. ModuleCleaned s.removed_items before q)
              (ap (λ (q : Module F D × List UpdateResult). q.0) e) cleaned),
      )
