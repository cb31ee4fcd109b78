-- ===== src/Update/Measurement/Processed.antt =====
-- src/update/measurement.rs: what the update makes of one MEASUREMENT, and of a list of them.
use mathlib.Core.Path.{subst}
use a2ltool.Prelude.{
  ℕ, Text, Bool, true, false, List, [], ◌∷◌, ◌++◌, ok, err, Bool-cases, if-true, if-false, inl, inr,
  ◌≡◌, refl, sym, ap, ◌∙◌, Option, none, some, ℤ, ◌&&◌, not, ◌%◌, ◌^◌, codes,
}
use a2ltool.DebugInfo.{TypeInfo, datatype}
use a2ltool.Symbol.Info.{SymbolInfo}
use a2ltool.TypeIter.{Run}
use a2ltool.Floats.{Floats}
use a2ltool.A2l.{Module, Measurement, HexNumber}
use a2ltool.Update.Info.{A2lUpdateInfo}
use a2ltool.Update.IfData.{update_ifdata_type, A2lCrate}
use a2ltool.Update.Lookup.{Found, get_symbol_info}
use a2ltool.Update.Enums.{
  update_enum_compu_methods, create_vtab, cond_create_enum_conversion, has_vtab, has_vtab_range,
  has_name, new_compu_method, update_tables,
}
use a2ltool.Update.Results.{UpdateResult, updated, symbol_not_found, invalid_data_type}
use a2ltool.Update.Measurement.{
  ConvList, update_measurement_datatype, verify_measurement_datatype, has_type_fields,
  set_type_fields, update_measurement_address, without_array, without_pointer, enum_of, enum_branch,
}
use a2ltool.Update.Measurement.Loop.{Single, with_symbol, addressed, fully_updated, zeroed}
use a2ltool.Update.Fields.{set_measurement_ecu_address}

abbrev pub IsFound : UpdateResult → Type 0
IsFound updated = Unit
IsFound (symbol_not_found b n l es) = ⊥
IsFound (invalid_data_type b n l) = Unit

-- The value of an address that is there.
abbrev pub address_of : Option HexNumber → Option ℕ
address_of none = none
address_of (some ecu_address) = some ecu_address.value

ecu_address-value :
    (new_hex : Bool) (o : Option HexNumber) (address : ℕ)
    → address_of (set_measurement_ecu_address new_hex o address) ≡ some (address % 2 ^ 32)
unfolding set_measurement_ecu_address
ecu_address-value new_hex none address = refl
ecu_address-value new_hex (some h) address = refl

module _ {F D : Type 0} where
  -- The modules differ in nothing but the COMPU_METHODs and their tables.
  abbrev pub OnlyTables : Module F D → Module F D → Type 0
  OnlyTables a b = b ≡ record a {
    compu_method = b.compu_method;
    compu_vtab = b.compu_vtab;
    compu_vtab_range = b.compu_vtab_range;
  }

  pub OnlyTables-trans : (a b c : Module F D) → OnlyTables a b → OnlyTables b c → OnlyTables a c
  OnlyTables-trans a b c h k =
      k
      ∙ ap
          (λ (x : Module F D). record x {
            compu_method = c.compu_method;
            compu_vtab = c.compu_vtab;
            compu_vtab_range = c.compu_vtab_range;
          })
          h

module _ {F D : Type 0} ⦃fl : Floats F⦄ where
  create_vtab-OnlyTables :
      (md : Module F D) (nm : Text) (es : List (Text × ℤ)) → OnlyTables md (create_vtab md nm es)
  unfolding create_vtab
  create_vtab-OnlyTables md nm es =
      elim (Bool-cases
        (not (has_vtab nm md.compu_vtab) && not (has_vtab_range nm md.compu_vtab_range))) [
          | inl new ↦ rw new refl
          | inr there ↦ rw there refl
        ]

  cond_create-OnlyTables :
      (md : Module F D) (nm : Text) (es : List (Text × ℤ))
      → OnlyTables md (cond_create_enum_conversion md nm es)
  unfolding cond_create_enum_conversion
  cond_create-OnlyTables md nm es = elim (Bool-cases (has_name nm md.compu_method)) [
    | inl there ↦ rw there refl
    | inr missing ↦
        let made : Module F D = record md {
          compu_method = md.compu_method ++ new_compu_method nm ∷ [];
        } in
        rw missing (
          OnlyTables-trans md made (create_vtab made nm es) refl
            (create_vtab-OnlyTables made nm es))
  ]

  pub enums-OnlyTables :
      (md : Module F D) (list : ConvList) → OnlyTables md (update_enum_compu_methods md list)
  unfolding update_enum_compu_methods update_tables
  enums-OnlyTables md [] = refl
  enums-OnlyTables md (entry ∷ list) = refl

module _ {F D : Type 0} ⦃fl : Floats F⦄ ⦃a2l : A2lCrate D⦄ where
  abbrev pub look_up : ℕ → A2lUpdateInfo → Measurement F D → Found
  look_up fuel info m = get_symbol_info fuel m.name m.symbol_link m.if_data info.debug_data

  -- A MEASUREMENT with a symbol has its address under the old name. If the update is not full,
  -- nothing else but the symbol link and the IF_DATA changes; the result is Updated, or, in a
  -- strict update that is not full, what the check returns.
  abbrev pub IsUpdated :
      A2lUpdateInfo → SymbolInfo → Measurement F D → Measurement F D → UpdateResult → Type 0
  IsUpdated info s m m' r =
      IsFound r
      × (m'.name ≡ m.name)
      × (address_of m'.ecu_address ≡ some (s.address % 2 ^ 32))
      × (info.full_update ≡ true → r ≡ updated)
      × (info.strict_update ≡ false → r ≡ updated)
      × (info.full_update ≡ false
          → m' ≡ record m {
            ecu_address = m'.ecu_address;
            symbol_link = m'.symbol_link;
            if_data = m'.if_data;
          })

  -- The MEASUREMENTs before and after, the results, and the names that were removed.
  pub data Processed (fuel : ℕ) (info : A2lUpdateInfo)
      : List (Measurement F D)
        → List (Measurement F D)
        → List UpdateResult
        → List Text
        → Type 0 where
    done : Processed fuel info [] [] [] []
    unaddressed :
        (m : Measurement F D) {ms ms' : List (Measurement F D)} {rs : List UpdateResult}
        {gone : List Text}
        → m.var_virtual ≡ true
        → Processed fuel info ms ms' rs gone
        → Processed fuel info (m ∷ ms) (m ∷ ms') (updated ∷ rs) gone
    found :
        (s : SymbolInfo) (m m' : Measurement F D) (r : UpdateResult)
        {ms ms' : List (Measurement F D)} {rs : List UpdateResult} {gone : List Text}
        → m.var_virtual ≡ false
        → look_up fuel info m ≡ ok s
        → IsUpdated info s m m' r
        → Processed fuel info ms ms' rs gone
        → Processed fuel info (m ∷ ms) (m' ∷ ms') (r ∷ rs) gone
    preserved :
        (m : Measurement F D) (es : List Text) {ms ms' : List (Measurement F D)}
        {rs : List UpdateResult} {gone : List Text}
        → m.var_virtual ≡ false
        → look_up fuel info m ≡ err es
        → info.preserve_unknown ≡ true
        → Processed fuel info ms ms' rs gone
        → Processed fuel info
            (m ∷ ms)
            (zeroed m ∷ ms')
            (symbol_not_found (codes "MEASUREMENT") m.name m.line es ∷ rs)
            gone
    removed :
        (m : Measurement F D) (es : List Text) {ms ms' : List (Measurement F D)}
        {rs : List UpdateResult} {gone : List Text}
        → m.var_virtual ≡ false
        → look_up fuel info m ≡ err es
        → info.preserve_unknown ≡ false
        → Processed fuel info ms ms' rs gone
        → Processed fuel info
            (m ∷ ms)
            ms'
            (symbol_not_found (codes "MEASUREMENT") m.name m.line es ∷ rs)
            (m.name ∷ gone)

  pub ok-injective : (a b : Single F D) → ◌≡◌ {A = Run (Single F D)} (ok a) (ok b) → a ≡ b
  ok-injective a b h = cc

  -- What a single update returns of a MEASUREMENT.
  pub data Settled (fuel : ℕ) (info : A2lUpdateInfo) (md : Module F D) (m : Measurement F D)
      (r : Single F D) : Type 0 where
    as_virtual : m.var_virtual ≡ true → r.0 ≡ updated → r.1 ≡ m → Settled fuel info md m r
    as_found :
        (s : SymbolInfo)
        → m.var_virtual ≡ false
        → look_up fuel info m ≡ ok s
        → IsUpdated info s m r.1 r.0
        → Settled fuel info md m r
    as_missing :
        (es : List Text)
        → m.var_virtual ≡ false
        → look_up fuel info m ≡ err es
        → r.0 ≡ symbol_not_found (codes "MEASUREMENT") m.name m.line es
        → r.1 ≡ m
        → Settled fuel info md m r

  fully_updated-IsUpdated :
      (info : A2lUpdateInfo) (md : Module F D) (list : ConvList) (m : Measurement F D)
      (s : SymbolInfo)
      → info.full_update ≡ true
      → let r = fully_updated info md list s (addressed info s m) in IsUpdated info s m r.1 r.0
  unfolding fully_updated update_measurement_datatype set_type_fields addressed
      update_measurement_address
  fully_updated-IsUpdated info md list m s full = (
    tt,
    refl,
    ecu_address-value a2l.new_address_hex m.ecu_address s.address,
    λ e. refl,
    λ e. refl,
    λ partial. (let clash = sym full ∙ partial in cc),
  )

  addressed-IsUpdated :
      (info : A2lUpdateInfo) (m : Measurement F D) (s : SymbolInfo) (r : UpdateResult)
      → IsFound r
      → (info.full_update ≡ true → r ≡ updated)
      → (info.strict_update ≡ false → r ≡ updated)
      → IsUpdated info s m (addressed info s m) r
  unfolding addressed update_measurement_address
  addressed-IsUpdated info m s r there full lax = (
    there,
    refl,
    ecu_address-value a2l.new_address_hex m.ecu_address s.address,
    full,
    lax,
    λ e. refl,
  )

  verified-IsFound :
      (info : A2lUpdateInfo) (md : Module F D) (m : Measurement F D) (t : TypeInfo)
      → IsFound (verify_measurement_datatype info md m t)
  unfolding verify_measurement_datatype
  verified-IsFound info md m t = elim (Bool-cases (has_type_fields info md m t)) [
    | inl fits ↦ rw fits tt
    | inr differs ↦ rw differs tt
  ]

  pub with_symbol-IsUpdated :
      (info : A2lUpdateInfo) (md : Module F D) (list : ConvList) (m : Measurement F D)
      (s : SymbolInfo)
      → let r = with_symbol info md list m s in IsUpdated info s m r.1 r.0
  unfolding with_symbol
  with_symbol-IsUpdated info md list m s = elim (Bool-cases info.full_update) [
    | inl full ↦
        subst (λ (r : Single F D). IsUpdated info s m r.1 r.0) (sym (if-true _ _ _ full))
          (fully_updated-IsUpdated info md list m s full)
    | inr partial ↦ elim (Bool-cases info.strict_update) [
      | inl strict ↦
          subst (λ (r : Single F D). IsUpdated info s m r.1 r.0)
            (sym (if-false _ _ _ partial ∙ if-true _ _ _ strict))
            (addressed-IsUpdated info m s _
              (verified-IsFound info md (addressed info s m) s.typeinfo)
              (λ full. (let clash = sym partial ∙ full in cc))
              (λ lax. (let clash = sym strict ∙ lax in cc)))
      | inr loose ↦
          subst (λ (r : Single F D). IsUpdated info s m r.1 r.0)
            (sym (if-false _ _ _ partial ∙ if-false _ _ _ loose))
            (addressed-IsUpdated info m s updated tt (λ e. refl) (λ e. refl))
    ]
  ]

  datatype-OnlyTables :
      (info : A2lUpdateInfo) (md : Module F D) (list : ConvList) (m : Measurement F D)
      (t : TypeInfo)
      → OnlyTables md (update_measurement_datatype info md m t list).1
  unfolding update_measurement_datatype
  datatype-OnlyTables info md list m t =
      let inner = without_array (without_pointer t info.debug_data.types) in
      branch-OnlyTables m inner md list (enum_of (datatype inner))
    where
      branch-OnlyTables :
          (m : Measurement F D) (inner : TypeInfo) (md : Module F D) (list : ConvList)
          (o : Option (List (Text × ℤ)))
          → OnlyTables md (enum_branch m inner md list o).1
      branch-OnlyTables m inner md list none = refl
      branch-OnlyTables m inner md list (some es) = cond_create-OnlyTables md _ es

  pub with_symbol-OnlyTables :
      (info : A2lUpdateInfo) (md : Module F D) (list : ConvList) (m : Measurement F D)
      (s : SymbolInfo)
      → OnlyTables md (with_symbol info md list m s).2
  unfolding with_symbol fully_updated
  with_symbol-OnlyTables info md list m s = elim (Bool-cases info.full_update) [
    | inl full ↦
        let a = addressed info s m in
        let typed = record a { if_data = update_ifdata_type a.if_data s.typeinfo } in
        rw full (datatype-OnlyTables info md list typed s.typeinfo)
    | inr partial ↦ elim (Bool-cases info.strict_update) [
      | inl strict ↦ rw (partial, strict) refl
      | inr loose ↦ rw (partial, loose) refl
    ]
  ]
