-- ===== src/Plugins/Registry.antt =====
-- plugins/registry.py: the dict of plugins by name, in insertion order.
pub mod Lookup
use sleuthgraph_api.Base.{String, Bool, List, [], ◌∷◌, ◌++◌, any, str_eq, if◌then◌else◌}
use sleuthgraph_api.Errors.{
  Result, ok, err, plugin_not_found, empty_plugin_name, duplicate_plugin_name, ◌>>=◌,
}
use sleuthgraph_api.Plugins.Base.{Plugin}

-- `name in registry`
unfoldable pub contains : String → List Plugin → Bool
contains name = any (λ p. str_eq p.name name)

-- `PluginRegistry.register`
unfoldable pub register : List Plugin → Plugin → Result (List Plugin)
unfolding contains
register plugins p =
    if str_eq p.name ""
    then err empty_plugin_name
    else if contains p.name plugins
    then err duplicate_plugin_name
    else ok (plugins ++ p ∷ [])

-- `PluginRegistry(plugins)`
pub build : List Plugin → List Plugin → Result (List Plugin)
unfolding register
build registry [] = ok registry
build registry (p ∷ ps) = do next ← register registry p; build next ps

-- `PluginRegistry.get`
unfoldable pub get : String → List Plugin → Result Plugin
get name [] = err plugin_not_found
get name (p ∷ ps) = let rest = get name ps in if str_eq p.name name then ok p else rest
