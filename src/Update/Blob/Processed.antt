-- ===== src/Update/Blob/Processed.antt =====
-- src/update/blob.rs: which BLOBs and references a module has after the update.
use mathlib.Core.List.{append_assoc, append-nil}
use a2ltool.Prelude.{
  ℕ, Text, codes, Option, none, some, true, false, List, [], ◌∷◌, ◌++◌, ok, err, ◌>>=◌, if-true,
  if-false, inl, inr, ◌≡◌, refl, ap, ◌∙◌, Bool-cases,
}
use a2ltool.Symbol.Info.{SymbolInfo}
use a2ltool.A2l.{Module, Blob, Transformer}
use a2ltool.Update.Info.{A2lUpdateInfo}
use a2ltool.Update.IfData.{A2lCrate}
use a2ltool.Update.Lookup.{get_symbol_info, Found}
use a2ltool.Update.Results.{UpdateResult, updated, symbol_not_found, invalid_data_type}
use a2ltool.Update.Measurement.Cleanup.References.{
  All2, All2-map, ReferencesCleaned, contains-cleanup_item_list,
}
use a2ltool.Update.Measurement.Total.{Returns}
use a2ltool.Update.Blob.{
  LoopState, with_symbol, on_found, update_module_blob, zeroed, push_back, update_loop,
  update_all_module_blobs, cleanup_objects, cleanup_removed_blobs,
}
use a2ltool.Update.Blob.Updated.{IsFound, IsUpdated, with_symbol-IsUpdated}

objects_cleaned :
    (removed : List Text) (o : Option (List Text))
    → ReferencesCleaned removed o (cleanup_objects removed o)
objects_cleaned removed none x = refl
objects_cleaned removed (some l) x = contains-cleanup_item_list l removed x

abbrev pub TransformerCleaned : List Text → Transformer → Transformer → Type 0
TransformerCleaned removed t t' =
    ReferencesCleaned removed t.transformer_in_objects t'.transformer_in_objects
    × ReferencesCleaned removed t.transformer_out_objects t'.transformer_out_objects

module _ {D : Type 0} ⦃a2l : A2lCrate D⦄ where
  abbrev pub look_up : ℕ → A2lUpdateInfo → Blob D → Found
  look_up fuel info b = get_symbol_info fuel b.name b.symbol_link b.if_data info.debug_data

  abbrev pub AllReturn : ℕ → A2lUpdateInfo → List (Blob D) → Type 0
  AllReturn fuel info [] = Unit
  AllReturn fuel info (b ∷ bs) = Returns (look_up fuel info b) × AllReturn fuel info bs

  -- The BLOBs before and after, the results, and the names that were removed.
  pub data Processed (fuel : ℕ) (info : A2lUpdateInfo)
      : List (Blob D) → List (Blob D) → List UpdateResult → List Text → Type 0 where
    done : Processed fuel info [] [] [] []
    found :
        (s : SymbolInfo) (b b' : Blob D) (r : UpdateResult) {bs bs' : List (Blob D)}
        {rs : List UpdateResult} {gone : List Text}
        → look_up fuel info b ≡ ok s
        → IsUpdated info s b b' r
        → Processed fuel info bs bs' rs gone
        → Processed fuel info (b ∷ bs) (b' ∷ bs') (r ∷ rs) gone
    preserved :
        (b : Blob D) (es : List Text) {bs bs' : List (Blob D)} {rs : List UpdateResult}
        {gone : List Text}
        → look_up fuel info b ≡ err es
        → info.preserve_unknown ≡ true
        → Processed fuel info bs bs' rs gone
        → Processed fuel info
            (b ∷ bs)
            (zeroed b ∷ bs')
            (symbol_not_found (codes "BLOB") b.name b.line es ∷ rs)
            gone
    removed :
        (b : Blob D) (es : List Text) {bs bs' : List (Blob D)} {rs : List UpdateResult}
        {gone : List Text}
        → look_up fuel info b ≡ err es
        → info.preserve_unknown ≡ false
        → Processed fuel info bs bs' rs gone
        → Processed fuel info
            (b ∷ bs)
            bs'
            (symbol_not_found (codes "BLOB") b.name b.line es ∷ rs)
            (b.name ∷ gone)

  -- The state with more at the end of each of its lists.
  abbrev extended : LoopState D → List (Blob D) → List UpdateResult → List Text → LoopState D
  extended s bs rs gone = record {
    kept = s.kept ++ bs;
    removed_items = s.removed_items ++ gone;
    results = s.results ++ rs;
  }

  extended-extended :
      (s : LoopState D) (bs bs' : List (Blob D)) (rs rs' : List UpdateResult)
      (gone gone' : List Text)
      → extended (extended s bs rs gone) bs' rs' gone'
        ≡ extended s (bs ++ bs') (rs ++ rs') (gone ++ gone')
  extended-extended s bs bs' rs rs' gone gone' =
      rw
        (
          append_assoc s.kept bs bs',
          append_assoc s.results rs rs',
          append_assoc s.removed_items gone gone',
        )
        refl

  push_back-found :
      (info : A2lUpdateInfo) (s : LoopState D) (b : Blob D) (r : UpdateResult)
      → IsFound r
      → push_back info s (r, b) ≡ extended s (b ∷ []) (r ∷ []) []
  unfolding push_back
  push_back-found info s b updated h = rw (append-nil s.removed_items) refl
  push_back-found info s b (symbol_not_found k n l es) h = elim h [ ]
  push_back-found info s b (invalid_data_type k n l) h = rw (append-nil s.removed_items) refl

  push_back-preserved :
      (info : A2lUpdateInfo) (s : LoopState D) (b : Blob D) (k n : Text) (l : ℕ) (es : List Text)
      → info.preserve_unknown ≡ true
      → push_back info s (symbol_not_found k n l es, b)
        ≡ extended s (zeroed b ∷ []) (symbol_not_found k n l es ∷ []) []
  unfolding push_back
  push_back-preserved info s b k n l es h = if-true _ _ _ h ∙ rw (append-nil s.removed_items) refl

  push_back-removed :
      (info : A2lUpdateInfo) (s : LoopState D) (b : Blob D) (k n : Text) (l : ℕ) (es : List Text)
      → info.preserve_unknown ≡ false
      → push_back info s (symbol_not_found k n l es, b)
        ≡ extended s [] (symbol_not_found k n l es ∷ []) (b.name ∷ [])
  unfolding push_back
  push_back-removed info s b k n l es h = if-false _ _ _ h ∙ rw (append-nil s.kept) refl

  -- One step of the loop: what it pushes, and the rest of the loop.
  loop-step :
      (fuel : ℕ) (info : A2lUpdateInfo) (b : Blob D) (bs bs₁ bs' : List (Blob D)) (s : LoopState D)
      (r : UpdateResult × Blob D) (rs : List UpdateResult) (gone₁ gone : List Text)
      → update_module_blob fuel info b ≡ ok r
      → push_back info s r ≡ extended s bs₁ (r.0 ∷ []) gone₁
      → update_loop fuel info bs (extended s bs₁ (r.0 ∷ []) gone₁)
        ≡ ok (extended (extended s bs₁ (r.0 ∷ []) gone₁) bs' rs gone)
      → update_loop fuel info (b ∷ bs) s ≡ ok (extended s (bs₁ ++ bs') (r.0 ∷ rs) (gone₁ ++ gone))
  unfolding update_loop
  loop-step fuel info b bs bs₁ bs' s r rs gone₁ gone single push rest =
      ap (λ q. q >>= λ r. update_loop fuel info bs (push_back info s r)) single
      ∙ ap (update_loop fuel info bs) push
      ∙ rest
      ∙ ap ok (extended-extended s bs₁ bs' (r.0 ∷ []) rs gone₁ gone)

  single-step :
      (fuel : ℕ) (info : A2lUpdateInfo) (b : Blob D) (f : Found)
      → look_up fuel info b ≡ f
      → update_module_blob fuel info b ≡ on_found info b f
  unfolding update_module_blob
  single-step fuel info b f h = ap (on_found info b) h

  loop-Processed :
      (fuel : ℕ) (info : A2lUpdateInfo) (bs : List (Blob D)) (s : LoopState D)
      → AllReturn fuel info bs
      → (bs' : List (Blob D)) × (rs : List UpdateResult) × (gone : List Text) × (update_loop fuel
            info bs s
          ≡ ok (extended s bs' rs gone))
        × Processed fuel info bs bs' rs gone
  unfolding update_loop on_found
  loop-Processed fuel info [] s h = (
    [],
    [],
    [],
    ap ok (rw (append-nil s.kept, append-nil s.removed_items, append-nil s.results) refl),
    done,
  )
  loop-Processed fuel info (b ∷ bs) s (inl (sym_info, e), rest) =
      let r = with_symbol info b sym_info in
      let is_updated = with_symbol-IsUpdated info sym_info b in
      let (bs', rs, gone, loop, processed) =
        loop-Processed fuel info bs (extended s (r.1 ∷ []) (r.0 ∷ []) []) rest in
      (
        r.1 ∷ bs',
        r.0 ∷ rs,
        gone,
        loop-step fuel info b bs (r.1 ∷ []) bs' s r rs [] gone
            (single-step fuel info b (ok sym_info) e) (push_back-found info s r.1 r.0 is_updated.2)
            loop,
        found sym_info b r.1 r.0 e is_updated processed,
      )
  loop-Processed fuel info (b ∷ bs) s (inr (es, e), rest) =
      let r = symbol_not_found (codes "BLOB") b.name b.line es in
      elim (Bool-cases info.preserve_unknown) [
        | inl keep ↦
            let (bs', rs, gone, loop, processed) =
              loop-Processed fuel info bs (extended s (zeroed b ∷ []) (r ∷ []) []) rest in
            (
              zeroed b ∷ bs',
              r ∷ rs,
              gone,
              loop-step fuel info b bs (zeroed b ∷ []) bs' s (r, b) rs [] gone
                  (single-step fuel info b (err es) e) (push_back-preserved info s b _ _ _ es keep)
                  loop,
              preserved b es e keep processed,
            )
        | inr drop ↦
            let (bs', rs, gone, loop, processed) =
              loop-Processed fuel info bs (extended s [] (r ∷ []) (b.name ∷ [])) rest in
            (
              bs',
              r ∷ rs,
              b.name ∷ gone,
              loop-step fuel info b bs [] bs' s (r, b) rs (b.name ∷ []) gone
                  (single-step fuel info b (err es) e) (push_back-removed info s b _ _ _ es drop)
                  loop,
              removed b es e drop processed,
            )
      ]

  -- If the look-up of each BLOB returns a symbol or messages, the update of all BLOBs returns. Each
  -- BLOB is there, in order, if its symbol is found, with the symbol's address, its own name, and
  -- its size: that of the type in a full update, its own in another, where a strict update reports
  -- an invalid data type exactly if the two differ; each other one is zeroed if unknown objects are
  -- preserved, and is removed if not. There is one result for each, with the messages of the look-up
  -- that failed, and the TRANSFORMERs refer to what they did except the removed names.
  pub update_all_module_blobs-Processed :
      {F : Type 0} (fuel : ℕ) (info : A2lUpdateInfo) (md : Module F D)
      → AllReturn fuel info md.blob
      → (md' : Module F D) × (results : List UpdateResult) × (gone : List Text)
        × (update_all_module_blobs fuel info md ≡ ok (md', results))
        × Processed fuel info md.blob md'.blob results gone
        × All2 (TransformerCleaned gone) md.transformer md'.transformer
  unfolding update_all_module_blobs cleanup_removed_blobs
  update_all_module_blobs-Processed fuel info md h =
      let s : LoopState D = record { kept = []; removed_items = []; results = [] } in
      let (bs', rs, gone, loop, processed) = loop-Processed fuel info md.blob s h in
      (
        cleanup_removed_blobs (record md { blob = bs' }) gone,
        rs,
        gone,
        ap
            (λ q. q >>= λ s.
              ok (cleanup_removed_blobs (record md { blob = s.kept }) s.removed_items, s.results))
            loop,
        processed,
        All2-map (TransformerCleaned gone) _
            (λ t. (
              objects_cleaned gone t.transformer_in_objects,
              objects_cleaned gone t.transformer_out_objects,
            ))
            md.transformer,
      )
