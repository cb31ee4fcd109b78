-- ===== src/Examples/Instances.antt =====
-- src/update/instance.rs: the update of two INSTANCEs; one has a symbol, and the other has none.
use a2ltool.Prelude.{
  Text, codes, none, false, List, [], ◌∷◌, ok, inl, inr, ◌≡◌, refl, text_eq, ends_with, init,
  parse_usize,
}
use a2ltool.DebugInfo.{members_get, get_reference}
use a2ltool.Symbol.Info.{error_message, no_symbol}
use a2ltool.Symbol.Names.{get_index}
use a2ltool.Symbol.Lookup.{find_symbol}
use a2ltool.A2l.{Instance, Module}
use a2ltool.Update.Lookup.{get_symbol_info}
use a2ltool.Update.Results.{UpdateResult}
use a2ltool.Update.Instances.{TypedefsRefInfo, typedef_names, update_all_module_instances}
use a2ltool.Update.Instances.Referrers.{
  AllReturn, AreReferrers, update_all_module_instances-AreReferrers,
}
use a2ltool.UpdateSamples.{Coarse, Block, plain_crate, sample_module, full_info}
use a2ltool.Examples.Updates.{last_symbol}

abbrev instance_of : Text → Instance Block
instance_of nm = record {
  name = nm;
  line = 4;
  type_ref = codes "td";
  start_address = 0;
  address_hex = false;
  address_type = none;
  matrix_dim = none;
  symbol_link = none;
  if_data = [];
}

abbrev instance_module : Module Coarse Block
instance_module = record sample_module {
  instances = instance_of (codes "my_struct.last") ∷ instance_of (codes "lost") ∷ [];
  typedef_structure = codes "td" ∷ [];
}

instances-AllReturn : AllReturn 9 full_info instance_module.instances
unfolding get_symbol_info find_symbol text_eq members_get get_reference get_index ends_with init
    parse_usize error_message
instances-AllReturn =
    (inl (last_symbol, refl), (inr (error_message (no_symbol (codes "lost")) ∷ [], refl), tt))

update_all_module_instances-AreReferrers_example :
    (md' : Module Coarse Block) × (results : List UpdateResult) × (typedef_types : TypedefsRefInfo)
    × (update_all_module_instances 9 full_info (typedef_names instance_module) instance_module
        ≡ ok (md', results, typedef_types))
    × AreReferrers typedef_types md'.instances
update_all_module_instances-AreReferrers_example =
    update_all_module_instances-AreReferrers 9 full_info (typedef_names instance_module)
      instance_module instances-AllReturn
