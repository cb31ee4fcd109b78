-- ===== src/Update/Blob.antt =====
-- src/update/blob.rs: the update of the BLOBs of a module. `fuel` is that of
-- `find_symbol_by_offset`.
pub mod Updated
pub mod Processed
use a2ltool.Prelude.{
  ℕ, ◌%◌, ◌^◌, ◌==◌, Text, codes, Option, none, some, List, [], ◌∷◌, ◌++◌, map, ok, err, panic,
  out_of_fuel, ◌>>=◌, if◌then◌else◌,
}
use a2ltool.DebugInfo.{DebugData, TypeInfo, get_size}
use a2ltool.Symbol.Info.{SymbolInfo}
use a2ltool.TypeIter.{Run}
use a2ltool.A2l.{Module, Blob, Transformer}
use a2ltool.Update.Info.{A2lUpdateInfo}
use a2ltool.Update.Fields.{set_symbol_link, cleanup_item_list}
use a2ltool.Update.SymbolNames.{make_symbol_link_string}
use a2ltool.Update.IfData.{A2lCrate, update_ifdata_address, update_ifdata_type, zero_if_data}
use a2ltool.Update.Lookup.{get_symbol_info, Found}
use a2ltool.Update.Results.{UpdateResult, updated, symbol_not_found, invalid_data_type}

-- The result of one BLOB, and the BLOB.
abbrev pub Single : Type 0 → Type 0
Single D = UpdateResult × Blob D

-- `x as u32`
abbrev pub as_u32 : ℕ → ℕ
as_u32 x = x % 2 ^ 32

abbrev pub cleanup_objects : List Text → Option (List Text) → Option (List Text)
cleanup_objects removed_items none = none
cleanup_objects removed_items (some identifier_list) =
    some (cleanup_item_list identifier_list removed_items)

abbrev pub cleanup_transformer : List Text → Transformer → Transformer
cleanup_transformer removed_items transformer = record transformer {
  transformer_in_objects = cleanup_objects removed_items transformer.transformer_in_objects;
  transformer_out_objects = cleanup_objects removed_items transformer.transformer_out_objects;
}

unfoldable pub cleanup_removed_blobs : {F D : Type 0} → Module F D → List Text → Module F D
unfolding cleanup_item_list
cleanup_removed_blobs md removed_items = record md {
  transformer = map (λ (t : Transformer). cleanup_transformer removed_items t) md.transformer;
}

-- The state of the loop: the BLOBs that were pushed back, the names of those that were not, and the
-- results.
pub record LoopState (D : Type 0) : Type 0 where
  pub kept : List (Blob D)
  pub removed_items : List Text
  pub results : List UpdateResult

module _ {D : Type 0} ⦃a2l : A2lCrate D⦄ where
  unfoldable pub update_blob_address : Blob D → DebugData → SymbolInfo → Blob D
  unfolding make_symbol_link_string set_symbol_link
  update_blob_address blob debug_data sym_info = record blob {
    symbol_link = set_symbol_link blob.symbol_link (make_symbol_link_string sym_info debug_data);
    start_address = as_u32 sym_info.address;
  }

  -- The address, in the object and in its IF_DATA.
  unfoldable pub addressed : A2lUpdateInfo → SymbolInfo → Blob D → Blob D
  unfolding update_blob_address update_ifdata_address
  addressed info sym_info blob =
      let b = update_blob_address blob info.debug_data sym_info in
      record b { if_data = update_ifdata_address b.if_data sym_info.name sym_info.address }

  unfoldable pub fully_updated : SymbolInfo → Blob D → Blob D
  unfolding update_ifdata_type get_size
  fully_updated sym_info blob = record blob {
    if_data = update_ifdata_type blob.if_data sym_info.typeinfo;
    size = as_u32 (get_size sym_info.typeinfo);
  }

  -- The test of a strict update.
  unfoldable pub verified : SymbolInfo → Blob D → UpdateResult
  unfolding get_size
  verified sym_info blob =
      if blob.size == as_u32 (get_size sym_info.typeinfo)
      then updated
      else invalid_data_type (codes "BLOB") blob.name blob.line

  -- The symbol has been found.
  unfoldable pub with_symbol : A2lUpdateInfo → Blob D → SymbolInfo → Single D
  unfolding addressed fully_updated verified
  with_symbol info blob sym_info =
      let b = addressed info sym_info blob in
      if info.full_update
      then (updated, fully_updated sym_info b)
      else if info.strict_update
      then (verified sym_info b, b)
      else (updated, b)

  unfoldable pub on_found : A2lUpdateInfo → Blob D → Found → Run (Single D)
  unfolding with_symbol
  on_found info blob (ok sym_info) = ok (with_symbol info blob sym_info)
  on_found info blob (err errmsgs) =
      ok (symbol_not_found (codes "BLOB") blob.name blob.line errmsgs, blob)
  on_found info blob panic = panic
  on_found info blob out_of_fuel = out_of_fuel

  unfoldable pub update_module_blob : ℕ → A2lUpdateInfo → Blob D → Run (Single D)
  unfolding get_symbol_info on_found
  update_module_blob fuel info blob =
      on_found info blob
        (get_symbol_info fuel blob.name blob.symbol_link blob.if_data info.debug_data)

  unfoldable pub zeroed : Blob D → Blob D
  unfolding zero_if_data
  zeroed blob = record blob { start_address = 0; if_data = zero_if_data blob.if_data }

  -- The branches on the result.
  unfoldable pub push_back : A2lUpdateInfo → LoopState D → Single D → LoopState D
  unfolding zeroed
  push_back info s (symbol_not_found b n l es, blob) =
      if info.preserve_unknown
      then record {
        kept = s.kept ++ zeroed blob ∷ [];
        removed_items = s.removed_items;
        results = s.results ++ symbol_not_found b n l es ∷ [];
      }
      else record {
        kept = s.kept;
        removed_items = s.removed_items ++ blob.name ∷ [];
        results = s.results ++ symbol_not_found b n l es ∷ [];
      }
  push_back info s (r, blob) = record {
    kept = s.kept ++ blob ∷ [];
    removed_items = s.removed_items;
    results = s.results ++ r ∷ [];
  }

  unfoldable pub update_loop : ℕ → A2lUpdateInfo → List (Blob D) → LoopState D → Run (LoopState D)
  unfolding update_module_blob push_back
  update_loop fuel info [] s = ok s
  update_loop fuel info (blob ∷ blob_list) s = do
    r ← update_module_blob fuel info blob
    update_loop fuel info blob_list (push_back info s r)

  -- The BLOBs are pushed to the list of the module, which is empty before the loop.
  unfoldable pub update_all_module_blobs :
      {F : Type 0} → ℕ → A2lUpdateInfo → Module F D → Run (Module F D × List UpdateResult)
  unfolding update_loop cleanup_removed_blobs
  update_all_module_blobs fuel info md = do
    s ← update_loop fuel info md.blob (record { kept = []; removed_items = []; results = [] })
    ok (cleanup_removed_blobs (record md { blob = s.kept }) s.removed_items, s.results)
