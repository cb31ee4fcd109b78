-- ===== src/Update/Characteristics/Readdressed.antt =====
-- src/update/characteristic.rs: the update of all CHARACTERISTICs without their data types.
use a2ltool.Prelude.{ℕ, ◌%◌, ◌^◌, Text, codes, err, true, false, List, [], ◌∷◌, ok, ◌≡◌, ◌⊎◌}
use a2ltool.Symbol.Info.{SymbolInfo}
use a2ltool.Floats.{Floats}
use a2ltool.A2l.{Characteristic}
use a2ltool.Update.Info.{A2lUpdateInfo}
use a2ltool.Update.IfData.{A2lCrate}
use a2ltool.Update.Lookup.{get_symbol_info, Found}
use a2ltool.Update.Results.{UpdateResult, updated, symbol_not_found}
use a2ltool.Update.Measurement.Total.{Returns}
use a2ltool.Update.Objects.Outcomes.{Outcomes}

module _ {F D : Type 0} ⦃fl : Floats F⦄ ⦃a2l : A2lCrate D⦄ where
  abbrev pub look_up : ℕ → A2lUpdateInfo → Characteristic F D → Found
  look_up fuel info c = get_symbol_info fuel c.name c.symbol_link c.if_data info.debug_data

  -- A VIRTUAL_CHARACTERISTIC is as it was. In another one whose look-up has found a symbol, the
  -- address is the symbol's, and nothing else but the symbol link and the IF_DATA differs.
  abbrev pub IsReaddressed :
      ℕ → A2lUpdateInfo → Characteristic F D → Characteristic F D → UpdateResult → Type 0
  IsReaddressed fuel info c c' r =
      ((c.virtual_characteristic ≡ true) × (c' ≡ c) × (r ≡ updated))
      ⊎ ((c.virtual_characteristic ≡ false)
          × (s : SymbolInfo) × (look_up fuel info c ≡ ok s)
          × (info.strict_update ≡ false → r ≡ updated)
          × (c'.address ≡ s.address % 2 ^ 32)
          × (c' ≡ record c {
            address = c'.address;
            address_hex = c'.address_hex;
            symbol_link = c'.symbol_link;
            if_data = c'.if_data;
          }))

  -- The look-up has failed, and the result has its messages.
  abbrev pub HasNoSymbol : ℕ → A2lUpdateInfo → Characteristic F D → UpdateResult → Type 0
  HasNoSymbol fuel info c r =
      (c.virtual_characteristic ≡ false)
      × (es : List Text) × (look_up fuel info c ≡ err es)
      × (r ≡ symbol_not_found (codes "CHARACTERISTIC") c.name c.line es)

  abbrev pub AllReturn : ℕ → A2lUpdateInfo → List (Characteristic F D) → Type 0
  AllReturn fuel info [] = Unit
  AllReturn fuel info (c ∷ cs) =
      ((c.virtual_characteristic ≡ true) ⊎ Returns (look_up fuel info c)) × AllReturn fuel info cs
