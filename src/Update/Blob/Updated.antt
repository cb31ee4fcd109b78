-- ===== src/Update/Blob/Updated.antt =====
-- src/update/blob.rs: what the update of a BLOB with its symbol leaves.
use a2ltool.Prelude.{
  ◌==◌, codes, true, false, Bool-cases, if-true, if-false, inl, inr, ◌⊎◌, ◌≡◌, refl,
}
use a2ltool.DebugInfo.{get_size}
use a2ltool.Symbol.Info.{SymbolInfo}
use a2ltool.A2l.{Blob}
use a2ltool.Update.Info.{A2lUpdateInfo}
use a2ltool.Update.IfData.{A2lCrate}
use a2ltool.Update.Results.{UpdateResult, updated, symbol_not_found, invalid_data_type}
use a2ltool.Update.Blob.{
  as_u32, addressed, fully_updated, verified, with_symbol, update_blob_address,
}

abbrev pub IsFound : UpdateResult → Type 0
IsFound updated = Unit
IsFound (symbol_not_found b n l es) = ⊥
IsFound (invalid_data_type b n l) = Unit

module _ {D : Type 0} ⦃a2l : A2lCrate D⦄ where
  -- A BLOB after the update with its symbol. In a full update it gets the size of the type; in
  -- another the size stays, and in a strict one the result is `updated` exactly if it fits.
  abbrev pub IsUpdated : A2lUpdateInfo → SymbolInfo → Blob D → Blob D → UpdateResult → Type 0
  IsUpdated info sym_info b b' r =
      (b'.name ≡ b.name)
      × (b'.start_address ≡ as_u32 sym_info.address)
      × IsFound r
      × (info.full_update ≡ true → (b'.size ≡ as_u32 (get_size sym_info.typeinfo)) × (r ≡ updated))
      × (info.full_update ≡ false → b'.size ≡ b.size)
      × (info.full_update ≡ false
          → info.strict_update ≡ true
          → ((b.size == as_u32 (get_size sym_info.typeinfo)) ≡ true) × (r ≡ updated)
            ⊎ ((b.size == as_u32 (get_size sym_info.typeinfo)) ≡ false)
              × (r ≡ invalid_data_type (codes "BLOB") b.name b.line))

  verified-strict :
      (info : A2lUpdateInfo) (s : SymbolInfo) (b : Blob D)
      → ((b.size == as_u32 (get_size s.typeinfo)) ≡ true)
          × (verified s (addressed info s b) ≡ updated)
        ⊎ ((b.size == as_u32 (get_size s.typeinfo)) ≡ false)
          × (verified s (addressed info s b) ≡ invalid_data_type (codes "BLOB") b.name b.line)
  unfolding verified addressed update_blob_address
  verified-strict info s b = elim (Bool-cases (b.size == as_u32 (get_size s.typeinfo))) [
    | inl fits ↦ inl (fits, if-true _ _ _ fits)
    | inr differs ↦ inr (differs, if-false _ _ _ differs)
  ]

  verified-IsFound : (s : SymbolInfo) (b : Blob D) → IsFound (verified s b)
  unfolding verified
  verified-IsFound s b = elim (Bool-cases (b.size == as_u32 (get_size s.typeinfo))) [
    | inl fits ↦ rw fits tt
    | inr differs ↦ rw differs tt
  ]

  pub with_symbol-IsUpdated :
      (info : A2lUpdateInfo) (s : SymbolInfo) (b : Blob D)
      → let r = with_symbol info b s in IsUpdated info s b r.1 r.0
  unfolding with_symbol addressed fully_updated update_blob_address
  with_symbol-IsUpdated info s b = elim (Bool-cases info.full_update) [
    | inl full ↦ rw full (refl, refl, tt, λ h. (refl, refl), λ h. cc, λ h. cc)
    | inr part ↦ elim (Bool-cases info.strict_update) [
      | inl strict ↦
          rw (part, strict)
            (
              refl,
              refl,
              verified-IsFound s (addressed info s b),
              λ h. cc,
              λ h. refl,
              λ h k. verified-strict info s b,
            )
      | inr loose ↦ rw (part, loose) (refl, refl, tt, λ h. cc, λ h. refl, λ h k. cc)
    ]
  ]
