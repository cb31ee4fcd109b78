-- ===== src/Update/Measurement/Loop.antt =====
-- src/update/measurement.rs: `update_module_measurement` and the loop over all MEASUREMENTs.
use a2ltool.Prelude.{
  ℕ, Text, codes, none, List, [], ◌∷◌, ◌++◌, ok, err, panic, out_of_fuel, ◌>>=◌, if◌then◌else◌,
}
use a2ltool.Symbol.Info.{SymbolInfo}
use a2ltool.TypeIter.{Run}
use a2ltool.Floats.{Floats}
use a2ltool.A2l.{Module, Measurement}
use a2ltool.Update.Info.{A2lUpdateInfo}
use a2ltool.Update.IfData.{A2lCrate, update_ifdata_address, update_ifdata_type, zero_if_data}
use a2ltool.Update.Lookup.{get_symbol_info, Found}
use a2ltool.Update.Enums.{update_enum_compu_methods}
use a2ltool.Update.Results.{UpdateResult, updated, symbol_not_found, invalid_data_type}
use a2ltool.Update.Measurement.{
  ConvList, update_measurement_address, update_measurement_datatype, verify_measurement_datatype,
}
use a2ltool.Update.Measurement.Cleanup.{cleanup_removed_measurements}

-- The result of one MEASUREMENT, and what has been changed.
abbrev pub Single : Type 0 → Type 0 → Type 0
Single F D = UpdateResult × Measurement F D × Module F D × ConvList

-- The state of the loop: the module, the MEASUREMENTs that were pushed back, the names of those
-- that were not, the types of the conversions and the results.
pub record LoopState (F D : Type 0) : Type 0 where
  pub md : Module F D
  pub kept : List (Measurement F D)
  pub removed_items : List Text
  pub enum_convlist : ConvList
  pub results : List UpdateResult

module _ {F D : Type 0} ⦃fl : Floats F⦄ ⦃a2l : A2lCrate D⦄ where
  -- The address, in the object and in its IF_DATA.
  unfoldable pub addressed : A2lUpdateInfo → SymbolInfo → Measurement F D → Measurement F D
  unfolding update_measurement_address update_ifdata_address
  addressed info sym_info measurement =
      let m = update_measurement_address measurement info sym_info in
      record m { if_data = update_ifdata_address m.if_data sym_info.name sym_info.address }

  unfoldable pub fully_updated :
      A2lUpdateInfo → Module F D → ConvList → SymbolInfo → Measurement F D → Single F D
  unfolding update_ifdata_type update_measurement_datatype
  fully_updated info md convlist sym_info measurement =
      let m = record measurement {
        if_data = update_ifdata_type measurement.if_data sym_info.typeinfo;
      } in
      let r = update_measurement_datatype info md m sym_info.typeinfo convlist in
      (updated, r.0, r.1, r.2)

  -- The symbol has been found.
  unfoldable pub with_symbol :
      A2lUpdateInfo → Module F D → ConvList → Measurement F D → SymbolInfo → Single F D
  unfolding addressed fully_updated verify_measurement_datatype
  with_symbol info md convlist measurement sym_info =
      let m = addressed info sym_info measurement in
      if info.full_update
      then fully_updated info md convlist sym_info m
      else if info.strict_update
      then (verify_measurement_datatype info md m sym_info.typeinfo, m, md, convlist)
      else (updated, m, md, convlist)

  unfoldable pub on_found :
      A2lUpdateInfo → Module F D → ConvList → Measurement F D → Found → Run (Single F D)
  unfolding with_symbol
  on_found info md convlist measurement (ok sym_info) =
      ok (with_symbol info md convlist measurement sym_info)
  on_found info md convlist measurement (err errmsgs) = ok (
    symbol_not_found (codes "MEASUREMENT") measurement.name measurement.line errmsgs,
    measurement,
    md,
    convlist,
  )
  on_found info md convlist measurement panic = panic
  on_found info md convlist measurement out_of_fuel = out_of_fuel

  -- A virtual MEASUREMENT has no address.
  unfoldable pub update_module_measurement :
      ℕ → A2lUpdateInfo → Module F D → ConvList → Measurement F D → Run (Single F D)
  unfolding get_symbol_info with_symbol on_found
  update_module_measurement fuel info md convlist measurement =
      if measurement.var_virtual
      then ok (updated, measurement, md, convlist)
      else on_found info md convlist measurement (
          get_symbol_info fuel measurement.name measurement.symbol_link measurement.if_data
            info.debug_data)

  abbrev pub zeroed : Measurement F D → Measurement F D
  zeroed measurement = record measurement {
    ecu_address = none;
    if_data = zero_if_data measurement.if_data;
  }

  abbrev pub keep_state :
      LoopState F D → Measurement F D → Module F D → ConvList → UpdateResult → LoopState F D
  keep_state s measurement md convlist r = record s {
    md = md;
    kept = s.kept ++ measurement ∷ [];
    enum_convlist = convlist;
    results = s.results ++ r ∷ [];
  }

  abbrev pub remove_state :
      LoopState F D → Measurement F D → Module F D → ConvList → UpdateResult → LoopState F D
  remove_state s measurement md convlist r = record s {
    md = md;
    removed_items = s.removed_items ++ measurement.name ∷ [];
    enum_convlist = convlist;
    results = s.results ++ r ∷ [];
  }

  -- The branches on the result.
  unfoldable pub push_back : A2lUpdateInfo → LoopState F D → Single F D → LoopState F D
  push_back info s (symbol_not_found b n l es, m, md, convlist) =
      if info.preserve_unknown
      then keep_state s (zeroed m) md convlist (symbol_not_found b n l es)
      else remove_state s m md convlist (symbol_not_found b n l es)
  push_back info s (updated, m, md, convlist) = keep_state s m md convlist updated
  push_back info s (invalid_data_type b n l, m, md, convlist) =
      keep_state s m md convlist (invalid_data_type b n l)

  unfoldable pub update_loop :
      ℕ → A2lUpdateInfo → List (Measurement F D) → LoopState F D → Run (LoopState F D)
  unfolding update_module_measurement push_back
  update_loop fuel info [] s = ok s
  update_loop fuel info (measurement ∷ rest) s = do
    r ← update_module_measurement fuel info s.md s.enum_convlist measurement
    update_loop fuel info rest (push_back info s r)

  -- What is done after the loop.
  unfoldable pub finish : LoopState F D → Module F D × List UpdateResult
  unfolding update_enum_compu_methods cleanup_removed_measurements
  finish s =
      let md = record s.md { measurement = s.kept } in
      (
        cleanup_removed_measurements (update_enum_compu_methods md s.enum_convlist) s.removed_items,
        s.results,
      )

  -- The list of MEASUREMENTs is swapped out of the module before the loop.
  abbrev pub start : Module F D → LoopState F D
  start md = record {
    md = record md { measurement = [] };
    kept = [];
    removed_items = [];
    enum_convlist = [];
    results = [];
  }

  unfoldable pub update_all_module_measurements :
      ℕ → A2lUpdateInfo → Module F D → Run (Module F D × List UpdateResult)
  unfolding update_loop finish
  update_all_module_measurements fuel info md = do
    s ← update_loop fuel info md.measurement (start md)
    ok (finish s)
