-- ===== src/Plugins/Tests.antt =====
-- A registry of one plugin, and a second one that is registered.
use sleuthgraph_api.Base.{◌≡◌, refl, true, false, [], ◌∷◌}
use sleuthgraph_api.Errors.{ok}
use sleuthgraph_api.Entities.{EntityType}
use sleuthgraph_api.Plugins.Base.{Plugin}
use sleuthgraph_api.Plugins.Registry.{contains, register}
use sleuthgraph_api.Base.{String}

abbrev named : String → Plugin
named name = record {
  name = name;
  version = "1";
  full_name = "p@1";
  entity_types_accepted = EntityType.domain ∷ [];
  requires_credentials = false;
  dispatch_async = false;
  premium = false;
  query = λ e key. ok (record { entities = []; relationships = []; evidence = [] });
}

two_registered : register (named "dns" ∷ []) (named "whois") ≡ ok (named "dns" ∷ named "whois" ∷ [])
unfolding register
two_registered = refl

dns_contained : contains "dns" (named "dns" ∷ []) ≡ true
unfolding contains
dns_contained = refl
