-- ===== src/Builtin/Shodan.antt =====
-- plugins/builtin/shodan.py: host names of an IP address. The API key stands in the request's URL,
-- and the evidence keeps a redacted one.
use sleuthgraph_api.Base.{
  ℕ, suc, Bool, true, false, ◌&&◌, ◌||◌, Option, none, some, List, [], ◌∷◌, ◌++◌, leb, length, take,
  if◌then◌else◌,
}
use sleuthgraph_api.Base.Text.{Text, codes}
use sleuthgraph_api.Errors.{Result, ok, err, other_exception, ◌>>=◌}
use sleuthgraph_api.Graph.Json.{Json, Fields, null, str, number, boolean, arr, obj, end}
use sleuthgraph_api.Model.{Entity}
use sleuthgraph_api.Entities.{EntityType}
use sleuthgraph_api.Relationships.{RelationshipType}
use sleuthgraph_api.Plugins.Base.{QueryResult, Plugin}
use sleuthgraph_api.Builtin.Web.{Web, Request, fetch}
use sleuthgraph_api.Builtin.Values.{get_or, list_or_empty, iterate, items_of, dict, member, rstrip}
use sleuthgraph_api.Builtin.Patterns.{domain_re, ip_input_re}
use sleuthgraph_api.Builtin.Proposing.{
  to_input, Link, entity_proposal, evidence_proposal, linked, nothing, get_request, asked,
}

abbrev pub max_entities : ℕ
max_entities = 50

-- `data if isinstance(data, dict) else {}`
abbrev pub dict_or_empty : Json → Fields
dict_or_empty (obj fs) = fs
dict_or_empty value = end

-- What the two loops have found.
pub record Hosts : Type 0 where
  pub links : List Link
  pub count : ℕ
  pub seen : List Text
  pub truncated : Bool

abbrev pub push_link : Link → Hosts → Hosts
push_link link hosts = record hosts { links = link ∷ hosts.links }

module _ (web : Web) where
  -- a host name that passes the loop's checks, but the last
  unfoldable pub clean_name : Json → Option Text
  unfolding domain_re
  clean_name (str t) =
      let name = web.lower (rstrip b'.' (web.strip t)) in
      if leb 1 (length name) && domain_re name then some name else none
  clean_name value = none

  -- the proposals for one host name
  unfoldable pub host_link : ℕ → ℕ → Text → Result Link
  unfolding entity_proposal
  host_link confidence count name = do
    let ref : Text = codes "host-" ++ web.str_nat count
    entity ←
        entity_proposal ref EntityType.domain name
          (dict ((codes "discovered_via", str (codes "shodan")) ∷ [])) confidence
    ok (record {
      entity = entity;
      relationship = to_input ref RelationshipType.resolves_to end confidence;
    })

  -- a host name that was not seen before
  abbrev fresh : List Text → Option Text → Option Text
  fresh seen none = none
  fresh seen (some name) = if member name seen then none else some name

  -- one round of the loop after the check of the cap; `rest` is the loop over what is left
  unfoldable pub host_step :
      ℕ → ℕ → List Text → Option Text → (ℕ → List Text → Result Hosts) → Result Hosts
  unfolding host_link
  host_step confidence count seen none rest = rest count seen
  host_step confidence count seen (some name) rest = do
    link ← host_link confidence count name
    more ← rest (suc count) (name ∷ seen)
    ok (push_link link more)

  -- the loop over `hostnames`, and that over `domains`
  unfoldable pub scan_hosts : ℕ → List Json → ℕ → List Text → Result Hosts
  unfolding clean_name host_step
  scan_hosts confidence [] count seen =
      ok (record { links = []; count = count; seen = seen; truncated = false })
  scan_hosts confidence (value ∷ values) count seen =
      if leb max_entities count
      then ok (record { links = []; count = count; seen = seen; truncated = true })
      else host_step confidence count seen (fresh seen (clean_name value))
          (scan_hosts confidence values)

  abbrev host_url : Text → Text → Text
  host_url ip key = codes "https://api.shodan.io/shodan/host/" ++ ip ++ codes "?key=" ++ key

  abbrev pub host_request : Text → Text → Request
  host_request ip key = get_request (host_url ip key) []

  -- the summary of one service
  unfoldable pub summaries : List Json → List Json
  unfolding get_or
  summaries [] = []
  summaries (obj fs ∷ services) =
      obj (
        dict (
          (codes "port", get_or (codes "port") null fs)
          ∷ (codes "transport", get_or (codes "transport") (str (codes "tcp")) fs)
          ∷ (codes "product", get_or (codes "product") (str []) fs)
          ∷ []))
      ∷ summaries services
  summaries (service ∷ services) = summaries services

  -- what `query` makes of the response
  unfoldable pub report : Text → List ℕ × Fields → Result QueryResult
  unfolding scan_hosts summaries evidence_proposal linked get_or list_or_empty iterate
  report ip fetched = do
    let data_of : Text → Json = λ key. get_or key (arr (items_of [])) fetched.1
    hosts ← scan_hosts 80 (list_or_empty (data_of (codes "hostnames"))) 0 []
    more ← scan_hosts 70 (list_or_empty (data_of (codes "domains"))) hosts.count hosts.seen
    services ← iterate (data_of (codes "data"))
    evidence ← evidence_proposal (codes "Shodan host lookup for " ++ ip) fetched.0 (
        asked web (codes "GET") (host_url ip (codes "REDACTED")) (
          (codes "entity_count", number (web.str_nat more.count))
          ∷ (codes "truncated", boolean (hosts.truncated || more.truncated))
          ∷ (codes "max_entities", number (web.str_nat max_entities))
          ∷ (codes "open_ports", arr (items_of (list_or_empty (data_of (codes "ports")))))
          ∷ (codes "vulns", arr (items_of (list_or_empty (data_of (codes "vulns")))))
          ∷ (codes "services_summary", arr (items_of (take 20 (summaries services))))
          ∷ []))
    ok (linked (hosts.links ++ more.links) evidence)

  -- `query` with the API key
  unfoldable pub query_with : Entity → Text → Result QueryResult
  unfolding fetch report ip_input_re
  query_with input key =
      let ip = web.strip (codes input.label) in
      if leb 1 (length ip) && ip_input_re ip
      then fetch web end dict_or_empty (host_request ip key) >>= report ip
      else ok nothing

  -- `query`; without credentials the subscript raises a TypeError
  unfoldable pub query : Entity → Option Text → Result QueryResult
  unfolding query_with
  query input none = err other_exception
  query input (some key) = query_with input key

-- the class's attributes
unfoldable pub plugin : Web → Plugin
unfolding query
plugin web = record {
  name = "shodan";
  version = "0.1.0";
  full_name = "shodan@0.1.0";
  entity_types_accepted = EntityType.ip_address ∷ [];
  requires_credentials = true;
  dispatch_async = false;
  premium = false;
  query = query web;
}
