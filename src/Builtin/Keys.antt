-- ===== src/Builtin/Keys.antt =====
-- plugins/builtin/shodan.py: the API key stands in the request only.
use sleuthgraph_api.Base.{ℕ, ◌≡◌, true, ◌&&◌, some, leb, length, if◌then◌else◌}
use sleuthgraph_api.Base.Text.{Text, codes}
use sleuthgraph_api.Errors.{ok, ◌>>=◌}
use sleuthgraph_api.Graph.Json.{end}
use sleuthgraph_api.Model.{Entity}
use sleuthgraph_api.Builtin.Web.{is_retried, Web, fetch, body_of, with_raw, parsed_or}
use sleuthgraph_api.Builtin.Patterns.{ip_input_re}
use sleuthgraph_api.Builtin.Proposing.{nothing}
use sleuthgraph_api.Builtin.Shodan.{dict_or_empty}
use sleuthgraph_api.Builtin.Shodan

-- Two API keys with which Shodan gives the same answers at every attempt give the same result,
-- evidence included: what the plugin returns does not show the key.
pub shodan_key_hidden :
    (web : Web) (input : Entity) (key other : Text)
    → ((n : ℕ)
        → web.exchange (Shodan.host_request web (web.strip (codes input.label)) key) n
          ≡ web.exchange (Shodan.host_request web (web.strip (codes input.label)) other) n)
    → Shodan.query web input (some key) ≡ Shodan.query web input (some other)
unfolding Shodan.query Shodan.query_with fetch
shodan_key_hidden web input key other h = λ i.
    let ip = web.strip (codes input.label) in
    if leb 1 (length ip) && ip_input_re ip
    then ((web.retrying is_retried true λ n. do
      raw ← body_of web (h n i)
      with_raw raw (parsed_or end dict_or_empty (web.loads raw)))
        >>= Shodan.report web ip)
    else ok nothing
