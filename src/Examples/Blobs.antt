-- ===== src/Examples/Blobs.antt =====
-- src/update/blob.rs: the update of two BLOBs; one has a symbol, and the other has none.
use a2ltool.Prelude.{
  Text, codes, none, some, List, [], ◌∷◌, ok, inl, inr, ◌≡◌, refl, text_eq, ends_with, init,
  parse_usize,
}
use a2ltool.DebugInfo.{members_get, get_reference}
use a2ltool.Symbol.Info.{error_message, no_symbol}
use a2ltool.Symbol.Names.{get_index}
use a2ltool.Symbol.Lookup.{find_symbol}
use a2ltool.A2l.{Blob, Module}
use a2ltool.Update.Lookup.{get_symbol_info}
use a2ltool.Update.Results.{UpdateResult}
use a2ltool.Update.Measurement.Cleanup.References.{All2}
use a2ltool.Update.Blob.{update_all_module_blobs}
use a2ltool.Update.Blob.Processed.{
  AllReturn, Processed, TransformerCleaned, update_all_module_blobs-Processed,
}
use a2ltool.UpdateSamples.{Coarse, Block, plain_crate, sample_module, full_info}
use a2ltool.Examples.Updates.{last_symbol}

abbrev area : Text → Blob Block
area nm = record {
  name = nm;
  line = 3;
  start_address = 5;
  size = 16;
  symbol_link = none;
  if_data = [];
}

abbrev blob_module : Module Coarse Block
blob_module = record sample_module {
  blob = area (codes "my_struct.last") ∷ area (codes "lost") ∷ [];
  transformer =
      record { transformer_in_objects = some (codes "lost" ∷ []); transformer_out_objects = none }
      ∷ [];
}

blobs-AllReturn : AllReturn 9 full_info blob_module.blob
unfolding get_symbol_info find_symbol text_eq members_get get_reference get_index ends_with init
    parse_usize error_message
blobs-AllReturn =
    (inl (last_symbol, refl), (inr (error_message (no_symbol (codes "lost")) ∷ [], refl), tt))

update_all_module_blobs-Processed_example :
    (md' : Module Coarse Block) × (results : List UpdateResult) × (gone : List Text)
    × (update_all_module_blobs 9 full_info blob_module ≡ ok (md', results))
    × Processed 9 full_info blob_module.blob md'.blob results gone
    × All2 (TransformerCleaned gone) blob_module.transformer md'.transformer
update_all_module_blobs-Processed_example =
    update_all_module_blobs-Processed 9 full_info blob_module blobs-AllReturn
