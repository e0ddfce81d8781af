-- ===== src/Builtin/Shipped.antt =====
-- plugins/__init__.py: the list PLUGINS, from which plugins/deps.py builds the registry.
use sleuthgraph_api.Base.{List, [], ◌∷◌}
use sleuthgraph_api.Plugins.Base.{Plugin}
use sleuthgraph_api.Builtin.Web.{Web}
use sleuthgraph_api.Builtin.CrtSh
use sleuthgraph_api.Builtin.DnsWhois
use sleuthgraph_api.Builtin.Wayback
use sleuthgraph_api.Builtin.OpenCorporates
use sleuthgraph_api.Builtin.GithubPublic
use sleuthgraph_api.Builtin.Searches.{opensanctions, aleph_occrp}
use sleuthgraph_api.Builtin.Urlhaus
use sleuthgraph_api.Builtin.VirusTotal
use sleuthgraph_api.Builtin.Shodan
use sleuthgraph_api.Builtin.Hibp

-- `PLUGINS`
unfoldable pub plugins : Web → List Plugin
plugins web =
    CrtSh.plugin web
    ∷ DnsWhois.plugin web
    ∷ Wayback.plugin web
    ∷ OpenCorporates.plugin web
    ∷ GithubPublic.plugin web
    ∷ opensanctions web
    ∷ aleph_occrp web
    ∷ Urlhaus.plugin web
    ∷ VirusTotal.plugin web
    ∷ Shodan.plugin web
    ∷ Hibp.plugin web
    ∷ []
