-- ===== src/Builtin/VirusTotal.antt =====
-- plugins/builtin/virustotal.py: the addresses and subdomains of a domain, the names on an address's
-- certificate, and the analysis of a URL.
pub mod Judges
unfoldable pub use Judges.*
use sleuthgraph_api.Base.{
  ℕ, suc, String, Bool, true, false, ◌&&◌, ◌||◌, not, Option, none, some, List, [], ◌∷◌, ◌++◌, leb,
  length, take, if◌then◌else◌,
}
use sleuthgraph_api.Base.Text.{Text, codes, text_eq}
use sleuthgraph_api.Errors.{
  Result, ok, err, other_exception, invalid_entity_type, require, ◌>>=◌, ◌>>◌,
}
use sleuthgraph_api.Graph.Json.{Json, Fields, str, number, boolean, arr, obj, end, nil}
use sleuthgraph_api.Model.{Entity}
use sleuthgraph_api.Entities.{EntityType, type_value}
use sleuthgraph_api.Base.{str_eq}
use sleuthgraph_api.Relationships.{RelationshipType}
use sleuthgraph_api.Plugins.Base.{QueryResult, Plugin}
use sleuthgraph_api.Plugins.Checks.{is_type_in, all_entity_types}
use sleuthgraph_api.Builtin.Web.{Web, fetch}
use sleuthgraph_api.Builtin.Values.{get_attr, as_text, iterate, dict, rstrip, ends_with}
use sleuthgraph_api.Builtin.Patterns.{domain_re, ip_input_re, ipv4_re, ipv6_re}
use sleuthgraph_api.Builtin.Proposing.{
  Link, entity_proposal, evidence_proposal, linked, only_evidence, nothing, get_request, asked,
}
use sleuthgraph_api.Builtin.Shodan.{dict_or_empty}

module _ (web : Web) where
  -- `data.get("data", {}).get("attributes", {}).get(key, default)`
  unfoldable pub attribute : Text → Json → Fields → Result Json
  unfolding get_attr
  attribute key default fetched = do
    data_of ← get_attr (codes "data") (obj end) (obj fetched)
    attributes ← get_attr (codes "attributes") (obj end) data_of
    get_attr key default attributes

  -- `_fetch`
  unfoldable pub fetch_with : Text → Text → Result (List ℕ × Fields)
  unfolding fetch
  fetch_with key url = fetch web end dict_or_empty (get_request url ((codes "x-apikey", key) ∷ []))

  abbrev spec : Text → ℕ → Bool → Fields
  spec url count truncated = asked web (codes "GET") url (
      (codes "entity_count", number (web.str_nat count))
      ∷ (codes "truncated", boolean truncated)
      ∷ (codes "max_entities", number (web.str_nat max_entities))
      ∷ [])

  abbrev base_url : Text
  base_url = codes "https://www.virustotal.com/api/v3"

  -- `_query_domain` after its check
  unfoldable pub lookup_domain : Text → Text → Result QueryResult
  unfolding fetch_with attribute iterate scan_values judge_address judge_subdomain evidence_proposal
      linked
  lookup_domain domain key = do
    let url : Text = base_url ++ codes "/domains/" ++ domain
    fetched ← fetch_with key url
    records ← attribute (codes "last_dns_records") (arr nil) fetched.1
    values ← iterate records
    addresses ← scan_values (judge_address web) values 0
    subdomains ← scan_values (judge_subdomain web domain) values addresses.count
    evidence ←
        evidence_proposal (codes "VirusTotal domain lookup for " ++ domain) fetched.0
          (spec url subdomains.count (addresses.truncated || subdomains.truncated))
    ok (linked (addresses.links ++ subdomains.links) evidence)

  -- `_query_domain`
  unfoldable pub query_domain : Text → Text → Result QueryResult
  unfolding lookup_domain domain_re
  query_domain label key =
      let domain = rstrip b'.' (web.lower label) in
      if domain_re domain then lookup_domain domain key else ok nothing

  -- `cert.get("extensions", {}).get("subject_alternative_name", []) if isinstance(cert, dict) else []`
  unfoldable pub alt_names : Json → Result Json
  unfolding get_attr
  alt_names (obj cert) = do
    extensions ← get_attr (codes "extensions") (obj end) (obj cert)
    get_attr (codes "subject_alternative_name") (arr nil) extensions
  alt_names cert = ok (arr nil)

  -- `_query_ip`
  unfoldable pub lookup_ip : Text → Text → Result QueryResult
  unfolding fetch_with attribute alt_names iterate scan_values judge_alt_name evidence_proposal
      linked
  lookup_ip ip key = do
    let url : Text = base_url ++ codes "/ip_addresses/" ++ ip
    fetched ← fetch_with key url
    cert ← attribute (codes "last_https_certificate") (obj end) fetched.1
    names ← alt_names cert
    values ← iterate names
    found ← scan_values (judge_alt_name web) values 0
    evidence ←
        evidence_proposal (codes "VirusTotal IP lookup for " ++ ip) fetched.0
          (spec url found.count found.truncated)
    ok (linked found.links evidence)

  unfoldable pub query_ip : Text → Text → Result QueryResult
  unfolding lookup_ip ip_input_re
  query_ip ip key = if ip_input_re ip then lookup_ip ip key else ok nothing

  -- `_url_id`; `str.encode` refuses a lone surrogate, which a label cannot hold
  abbrev url_id : Text → Text
  url_id url = rstrip b'=' (web.urlsafe_b64encode url)

  -- `_query_url`
  unfoldable pub query_url : Text → Text → Result QueryResult
  unfolding fetch_with evidence_proposal
  query_url label key = do
    let url : Text = base_url ++ codes "/urls/" ++ url_id label
    fetched ← fetch_with key url
    evidence ←
        evidence_proposal (codes "VirusTotal URL analysis for " ++ take 120 label) fetched.0
          (spec url 0 false)
    ok (only_evidence evidence)

  abbrev by_type : String → Text → Text → Result QueryResult
  unfolding type_value query_domain query_ip query_url
  by_type type label key =
      if str_eq type (type_value EntityType.domain)
      then query_domain label key
      else if str_eq type (type_value EntityType.ip_address)
      then query_ip label key
      else if str_eq type (type_value EntityType.url)
      then query_url label key
      else ok nothing

  -- `query`; without credentials the subscript raises a TypeError
  unfoldable pub query : Entity → Option Text → Result QueryResult
  unfolding type_value query_domain query_ip query_url is_type_in
  query input none = err other_exception
  query input (some key) = do
    require (is_type_in input.type all_entity_types) invalid_entity_type
    let label : Text = web.strip (codes input.label)
    if leb 1 (length label) then by_type input.type label key else ok nothing

-- the class's attributes
unfoldable pub plugin : Web → Plugin
unfolding query
plugin web = record {
  name = "virustotal";
  version = "0.1.0";
  full_name = "virustotal@0.1.0";
  entity_types_accepted = EntityType.domain ∷ EntityType.ip_address ∷ EntityType.url ∷ [];
  requires_credentials = true;
  dispatch_async = false;
  premium = false;
  query = query web;
}
