-- ===== src/Plugins/Checks.antt =====
-- plugins/runner.py: what the runner asks before it starts, and how it names a failure.
use sleuthgraph_api.Base.{String, Bool, true, false, List, [], ◌∷◌, if◌then◌else◌, str_eq, any}
use sleuthgraph_api.Errors.{
  require, ◌>>=◌, ◌>>◌, Error, Result, ok, plugin_execution, plugin_type, credential_missing,
  schema_invalid, attrs_too_deep, attrs_bad_key, attrs_too_large, invalid_map_key,
  invalid_entity_type, invalid_rel_type, endpoint_not_in_case, http_timeout, http_status,
  http_transport, http_error, empty_plugin_name, duplicate_plugin_name,
}
use sleuthgraph_api.Model.{Entity}
use sleuthgraph_api.Entities.{EntityType, type_value}
use sleuthgraph_api.Licensing.{EditionProvider, assert_plugin_allowed}
use sleuthgraph_api.Plugins.Registry
use sleuthgraph_api.Plugins.Base.{Plugin}

-- `isinstance(e, ValueError)`
abbrev pub is_value_error : Error → Bool
is_value_error attrs_too_deep = true
is_value_error attrs_bad_key = true
is_value_error attrs_too_large = true
is_value_error invalid_map_key = true
is_value_error invalid_entity_type = true
is_value_error invalid_rel_type = true
is_value_error endpoint_not_in_case = true
is_value_error schema_invalid = true
is_value_error empty_plugin_name = true
is_value_error duplicate_plugin_name = true
is_value_error e = false

-- `isinstance(e, PluginExecutionError)`
abbrev pub is_plugin_error : Error → Bool
is_plugin_error plugin_execution = true
is_plugin_error plugin_type = true
is_plugin_error credential_missing = true
is_plugin_error e = false

-- the label of `_classify_error`, by the order of the taxonomy; the exception's name is left off
unfoldable pub classify_error : Error → String
classify_error http_timeout = "upstream_timeout"
classify_error http_status = "upstream_http_error"
classify_error http_transport = "upstream_network_error"
classify_error http_error = "upstream_network_error"
classify_error credential_missing = "credentials_missing"
classify_error e =
    if is_value_error e
    then "validation_error"
    else if is_plugin_error e
    then "plugin_internal"
    else "unknown"

-- `EntityType(input_entity.type)`
abbrev pub all_entity_types : List EntityType
all_entity_types =
    EntityType.person ∷ EntityType.organization ∷ EntityType.domain ∷ EntityType.ip_address
    ∷ EntityType.email ∷ EntityType.phone ∷ EntityType.url ∷ EntityType.crypto_address ∷ []

-- `input_type in plugin.entity_types_accepted`, where the types are known by their values
unfoldable pub is_type_in : String → List EntityType → Bool
unfolding type_value
is_type_in value = any (λ t. str_eq (type_value t) value)

-- the checks of `run` before its `try`
unfoldable pub check_run : EditionProvider → List Plugin → String → Entity → Result Plugin
unfolding is_type_in
check_run provider registry plugin_name input_entity = do
  plugin ← Registry.get plugin_name registry
  assert_plugin_allowed provider plugin.premium
  require (is_type_in input_entity.type all_entity_types) plugin_type
  require (is_type_in input_entity.type plugin.entity_types_accepted) plugin_type
  ok plugin
