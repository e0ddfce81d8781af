-- ===== src/Licensing.antt =====
-- src/sleuthgraph/licensing.py: the edition gate. The module's `_provider` is an argument here.
use sleuthgraph_api.Base.{String, Bool, false, ◌&&◌, not}
use sleuthgraph_api.Errors.{Result, feature_unavailable, require}

-- `EditionProvider`
pub record EditionProvider : Type 0 where
  pub enterprise : Bool
  pub feature : String → Bool

-- `_CommunityEditionProvider`
abbrev pub community : EditionProvider
community = record { enterprise = false; feature = λ slug. false }

unfoldable pub enterprise_enabled : EditionProvider → Bool
enterprise_enabled provider = provider.enterprise

unfoldable pub feature_enabled : EditionProvider → String → Bool
feature_enabled provider slug = provider.feature slug

unfoldable pub require_feature : EditionProvider → String → Result (Unit {0})
unfolding feature_enabled
require_feature provider slug = require (feature_enabled provider slug) feature_unavailable

unfoldable pub assert_plugin_allowed : EditionProvider → Bool → Result (Unit {0})
unfolding enterprise_enabled
assert_plugin_allowed provider premium =
    require (not (premium && not (enterprise_enabled provider))) feature_unavailable
