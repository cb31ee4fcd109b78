-- ===== src/Update/Instances.antt =====
-- src/update/instance.rs: the update of the INSTANCEs of a module. `fuel` is that of
-- `find_symbol_by_offset`. The hash map of the typedefs is a list with one entry for each name.
pub mod Referrers
use a2ltool.Prelude.{
  ℕ, ◌%◌, ◌^◌, ◌==◌, Text, codes, Option, none, some, Bool, true, false, ◌&&◌, ◌||◌, List, [], ◌∷◌,
  ◌++◌, ok, err, panic, out_of_fuel, ◌>>=◌, if◌then◌else◌, length, text_eq,
}
use a2ltool.DebugInfo.{DebugData, TypeInfo}
use a2ltool.Symbol.Info.{SymbolInfo}
use a2ltool.TypeIter.{Run}
use a2ltool.A2l.{Module, Instance, TypedefCharacteristic, TypedefAxis}
use a2ltool.Update.Info.{A2lUpdateInfo}
use a2ltool.Update.Fields.{set_symbol_link, set_matrix_dim, set_address_type, contains}
use a2ltool.Update.SymbolNames.{make_symbol_link_string}
use a2ltool.Update.IfData.{A2lCrate, update_ifdata_address, update_ifdata_type, zero_if_data}
use a2ltool.Update.Lookup.{get_symbol_info, Found}
use a2ltool.Update.Results.{UpdateResult, updated, symbol_not_found, invalid_data_type}
use a2ltool.Update.RecordLayouts.Build.{names_of}
use a2ltool.Update.Measurement.{without_pointer, without_array}
use a2ltool.Update.Measurement.Equality.{addr_type_eq, dims_eq}
use a2ltool.Update.Measurement.Cleanup.{cleanup_removed_measurements}
use a2ltool.Update.Blob.{cleanup_removed_blobs}
use a2ltool.Update.AxisPoints.Cleanup.{cleanup_removed_axis_pts}
use a2ltool.Update.Characteristics.Cleanup.{cleanup_removed_characteristics}

pub data TypedefReferrer : Type 0 where
  instance_at : ℕ → TypedefReferrer
  structure_component : Text → Text → TypedefReferrer

abbrev pub Referrer : Type 0
Referrer = Option TypeInfo × TypedefReferrer

abbrev pub TypedefsRefInfo : Type 0
TypedefsRefInfo = List (Text × List Referrer)

-- `entry(..).or_default().push(..)`
unfoldable pub push_entry : TypedefsRefInfo → Text → Referrer → TypedefsRefInfo
push_entry [] key referrer = (key, referrer ∷ []) ∷ []
push_entry ((k, referrers) ∷ entries) key referrer =
    let rest = push_entry entries key referrer in
    if text_eq k key then (k, referrers ++ referrer ∷ []) ∷ entries else (k, referrers) ∷ rest

-- The names of the typedefs; each is a set, as a list.
pub record TypedefNames : Type 0 where
  pub axis : List Text
  pub blob : List Text
  pub characteristic : List Text
  pub measurement : List Text
  pub structure : List Text

unfoldable pub typedef_names : {F D : Type 0} → Module F D → TypedefNames
typedef_names md = record {
  axis = names_of (λ (a : TypedefAxis). a.name) md.typedef_axis;
  blob = md.typedef_blob;
  characteristic = names_of (λ (c : TypedefCharacteristic). c.name) md.typedef_characteristic;
  measurement = md.typedef_measurement;
  structure = md.typedef_structure;
}

unfoldable pub typedef_contains : TypedefNames → Text → Bool
unfolding contains
typedef_contains nameset nm =
    contains nameset.structure nm
    || contains nameset.measurement nm
    || contains nameset.characteristic nm
    || contains nameset.blob nm
    || contains nameset.axis nm

-- The result, the type for the typedef, and the INSTANCE.
abbrev pub Single : Type 0 → Type 0
Single D = UpdateResult × Option TypeInfo × Instance D

pub record LoopState (D : Type 0) : Type 0 where
  pub kept : List (Instance D)
  pub removed_items : List Text
  pub typedef_types : TypedefsRefInfo
  pub results : List UpdateResult

module _ {D : Type 0} ⦃a2l : A2lCrate D⦄ where
  unfoldable pub update_instance_address : Instance D → DebugData → SymbolInfo → Instance D
  unfolding make_symbol_link_string set_symbol_link
  update_instance_address inst debug_data sym_info = record inst {
    symbol_link = set_symbol_link inst.symbol_link (make_symbol_link_string sym_info debug_data);
    address_hex = if inst.start_address == 0 then true else inst.address_hex;
    start_address = sym_info.address % 2 ^ 32;
  }

  unfoldable pub update_instance_datatype : A2lUpdateInfo → Instance D → TypeInfo → Instance D
  unfolding set_address_type set_matrix_dim update_ifdata_type without_pointer without_array
  update_instance_datatype info inst typeinfo =
      let target = without_pointer typeinfo info.debug_data.types in
      record inst {
        address_type = set_address_type inst.address_type typeinfo;
        matrix_dim = set_matrix_dim inst.matrix_dim target true;
        if_data = update_ifdata_type inst.if_data (without_array target);
      }

  -- The address, in the object and in its IF_DATA.
  unfoldable pub addressed : A2lUpdateInfo → SymbolInfo → Instance D → Instance D
  unfolding update_instance_address update_ifdata_address
  addressed info sym_info inst =
      let i = update_instance_address inst info.debug_data sym_info in
      record i { if_data = update_ifdata_address i.if_data sym_info.name sym_info.address }

  unfoldable pub if_data_list_eq : List D → List D → Bool
  if_data_list_eq [] [] = true
  if_data_list_eq (x ∷ xs) (y ∷ ys) = a2l.if_data_eq x y && if_data_list_eq xs ys
  if_data_list_eq _ _ = false

  -- The comparison with a copy whose data type has been updated; the other fields are the same.
  unfoldable pub has_datatype : Instance D → Instance D → Bool
  unfolding addr_type_eq dims_eq if_data_list_eq
  has_datatype inst copy =
      addr_type_eq inst.address_type copy.address_type
      && (dims_eq inst.matrix_dim copy.matrix_dim && if_data_list_eq inst.if_data copy.if_data)

  -- An INSTANCE of a typedef that is not there keeps its data type.
  unfoldable pub retyped : A2lUpdateInfo → TypedefNames → SymbolInfo → Instance D → Instance D
  unfolding update_instance_datatype typedef_contains
  retyped info nameset sym_info inst =
      if typedef_contains nameset inst.type_ref
      then update_instance_datatype info inst sym_info.typeinfo
      else inst

  -- The symbol has been found.
  unfoldable pub with_symbol : A2lUpdateInfo → TypedefNames → Instance D → SymbolInfo → Single D
  unfolding addressed retyped has_datatype without_pointer without_array
  with_symbol info nameset inst sym_info =
      let i = addressed info sym_info inst in
      let basetype = without_array (without_pointer sym_info.typeinfo info.debug_data.types) in
      if info.full_update
      then (updated, some basetype, retyped info nameset sym_info i)
      else if info.strict_update
      then (
        if has_datatype i (retyped info nameset sym_info i)
            then updated
            else invalid_data_type (codes "INSTANCE") i.name i.line,
        some basetype,
        i,
      )
      else (updated, some basetype, i)

  unfoldable pub on_found : A2lUpdateInfo → TypedefNames → Instance D → Found → Run (Single D)
  unfolding with_symbol
  on_found info nameset inst (ok sym_info) = ok (with_symbol info nameset inst sym_info)
  on_found info nameset inst (err errmsgs) =
      ok (symbol_not_found (codes "INSTANCE") inst.name inst.line errmsgs, none, inst)
  on_found info nameset inst panic = panic
  on_found info nameset inst out_of_fuel = out_of_fuel

  unfoldable pub update_module_instance :
      ℕ → A2lUpdateInfo → TypedefNames → Instance D → Run (Single D)
  unfolding get_symbol_info on_found
  update_module_instance fuel info nameset inst =
      on_found info nameset inst
        (get_symbol_info fuel inst.name inst.symbol_link inst.if_data info.debug_data)

  abbrev pub zeroed : Instance D → Instance D
  zeroed inst = record inst { start_address = 0; if_data = zero_if_data inst.if_data }

  -- An INSTANCE that is pushed back is a user of its typedef.
  unfoldable pub keep_instance :
      LoopState D → UpdateResult → Option TypeInfo → Instance D → LoopState D
  unfolding push_entry
  keep_instance s r opt_typeinfo inst = record {
    kept = s.kept ++ inst ∷ [];
    removed_items = s.removed_items;
    typedef_types =
        push_entry s.typedef_types inst.type_ref (opt_typeinfo, instance_at (length s.kept));
    results = s.results ++ r ∷ [];
  }

  unfoldable pub remove_instance : LoopState D → UpdateResult → Instance D → LoopState D
  remove_instance s r inst = record s {
    removed_items = s.removed_items ++ inst.name ∷ [];
    results = s.results ++ r ∷ [];
  }

  -- The branches on the result.
  unfoldable pub push_back : A2lUpdateInfo → LoopState D → Single D → LoopState D
  unfolding keep_instance remove_instance
  push_back info s (symbol_not_found b n l es, opt_typeinfo, inst) =
      if info.preserve_unknown
      then keep_instance s (symbol_not_found b n l es) opt_typeinfo (zeroed inst)
      else remove_instance s (symbol_not_found b n l es) inst
  push_back info s (updated, opt_typeinfo, inst) = keep_instance s updated opt_typeinfo inst
  push_back info s (invalid_data_type b n l, opt_typeinfo, inst) =
      keep_instance s (invalid_data_type b n l) opt_typeinfo inst

  unfoldable pub update_loop :
      ℕ → A2lUpdateInfo → TypedefNames → List (Instance D) → LoopState D → Run (LoopState D)
  unfolding update_module_instance push_back
  update_loop fuel info nameset [] s = ok s
  update_loop fuel info nameset (inst ∷ instance_list) s = do
    r ← update_module_instance fuel info nameset inst
    update_loop fuel info nameset instance_list (push_back info s r)

  abbrev pub start : LoopState D
  start = record { kept = []; removed_items = []; typedef_types = []; results = [] }

unfoldable pub cleanup_removed_instances : {F D : Type 0} → Module F D → List Text → Module F D
unfolding cleanup_removed_axis_pts cleanup_removed_blobs cleanup_removed_characteristics
    cleanup_removed_measurements
cleanup_removed_instances md removed_items =
    cleanup_removed_measurements
      (cleanup_removed_characteristics
        (cleanup_removed_blobs (cleanup_removed_axis_pts md removed_items) removed_items)
        removed_items)
      removed_items

module _ {F D : Type 0} ⦃a2l : A2lCrate D⦄ where
  -- The module, the results, and the users of each typedef.
  unfoldable pub update_all_module_instances :
      ℕ
      → A2lUpdateInfo
      → TypedefNames
      → Module F D
      → Run (Module F D × List UpdateResult × TypedefsRefInfo)
  unfolding update_loop cleanup_removed_instances
  update_all_module_instances fuel info nameset md = do
    s ← update_loop fuel info nameset md.instances start
    ok (
      cleanup_removed_instances (record md { instances = s.kept }) s.removed_items,
      s.results,
      s.typedef_types,
    )
