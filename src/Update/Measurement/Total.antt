-- ===== src/Update/Measurement/Total.antt =====
-- src/update/measurement.rs: the update of all MEASUREMENTs returns.
use a2ltool.Prelude.{ℕ, Text, true, List, [], ◌∷◌, ok, err, ◌⊎◌, ◌≡◌}
use a2ltool.Symbol.Info.{SymbolInfo}
use a2ltool.Floats.{Floats}
use a2ltool.A2l.{Measurement}
use a2ltool.Update.Info.{A2lUpdateInfo}
use a2ltool.Update.IfData.{A2lCrate}
use a2ltool.Update.Lookup.{Found, get_symbol_info}
use a2ltool.Update.Measurement.Processed.{Processed}

-- A look-up finds a symbol or returns messages: it neither panics nor runs out of fuel.
abbrev pub Returns : Found → Type 0
Returns f = ((s : SymbolInfo) × (f ≡ ok s)) ⊎ ((es : List Text) × (f ≡ err es))

module _ {F D : Type 0} ⦃fl : Floats F⦄ ⦃a2l : A2lCrate D⦄ where
  abbrev pub AllReturn : ℕ → A2lUpdateInfo → List (Measurement F D) → Type 0
  AllReturn fuel info [] = Unit
  AllReturn fuel info (m ∷ ms) =
      ((m.var_virtual ≡ true)
        ⊎ Returns (get_symbol_info fuel m.name m.symbol_link m.if_data info.debug_data))
      × AllReturn fuel info ms
