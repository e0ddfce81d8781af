-- ===== src/Builtin/DnsWhois.antt =====
-- plugins/builtin/dns_whois.py: the DNS records of a domain, and its RDAP record as evidence.
use sleuthgraph_api.Base.{
  ℕ, suc, Bool, true, false, ◌&&◌, Option, List, [], ◌∷◌, ◌++◌, ◌==◌, leb, length, if◌then◌else◌,
}
use sleuthgraph_api.Base.Text.{Text, codes}
use sleuthgraph_api.Errors.{Result, ok, err, ◌>>=◌}
use sleuthgraph_api.Graph.Json.{Json, str, number, obj}
use sleuthgraph_api.Model.{Entity}
use sleuthgraph_api.Entities.{EntityType}
use sleuthgraph_api.Relationships.{RelationshipType}
use sleuthgraph_api.Plugins.Base.{QueryResult, Plugin}
use sleuthgraph_api.Builtin.Web.{
  is_retried, Web, Exchange, failed, answered, checked_body, parsed_or, with_raw,
  max_response_bytes,
}
use sleuthgraph_api.Builtin.Values.{dict, rstrip}
use sleuthgraph_api.Builtin.Patterns.{domain_re}
use sleuthgraph_api.Builtin.Proposing.{
  to_input, Link, entity_proposal, evidence_proposal, linked, nothing, get_request, asked, bytes_or,
}

-- `except Exception:` with the value that is gone on with
unfoldable pub tolerated : {A : Type 0} → A → Result A → A
tolerated default (ok a) = a
tolerated default (err e) = default

abbrev is_dict : Json → Bool
is_dict (obj fs) = true
is_dict value = false

-- One attempt of `_fetch_rdap`
unfoldable pub attempt : Web → Exchange → Result (List ℕ × Bool)
unfolding checked_body parsed_or with_raw
attempt web (failed e) = err e
attempt web (answered status chunks broken) = if status == 404 then ok ([], false) else (do
  raw ← checked_body web status chunks broken
  with_raw raw (parsed_or false is_dict (web.loads raw)))

module _ (web : Web) where
  -- `text.strip().rstrip(".")`
  abbrev host_text : Text → Text
  host_text t = rstrip b'.' (web.strip t)

  -- the loop of `_try_resolve` over the answers
  unfoldable pub answer_texts : List Text → List Text
  answer_texts [] = []
  answer_texts (a ∷ answers) =
      let rest = answer_texts answers in
      if leb 1 (length (host_text a)) then host_text a ∷ rest else rest

  -- `_try_resolve`
  unfoldable pub try_resolve : Text → Text → List Text
  unfolding answer_texts tolerated
  try_resolve domain rdtype = answer_texts (tolerated [] (web.resolve domain rdtype))

  -- the loop of `_try_resolve_mx` over the answers
  unfoldable pub answer_hosts : List (ℕ × Text) → List (ℕ × Text)
  answer_hosts [] = []
  answer_hosts ((preference, a) ∷ answers) =
      let rest = answer_hosts answers in
      if leb 1 (length (host_text a)) then (preference, host_text a) ∷ rest else rest

  -- `_try_resolve_mx`
  unfoldable pub try_resolve_mx : Text → List (ℕ × Text)
  unfolding answer_hosts tolerated
  try_resolve_mx domain = answer_hosts (tolerated [] (web.resolve_mx domain))

  -- the proposals for one record
  unfoldable pub record_link :
      Text → EntityType → Text → RelationshipType → List (Text × Json) → ℕ → Result Link
  unfolding entity_proposal
  record_link ref type label rel_type about confidence = do
    entity ←
        entity_proposal ref type label
          (dict ((codes "discovered_via", str (codes "dns_whois")) ∷ about)) confidence
    ok (record { entity = entity; relationship = to_input ref rel_type (dict about) confidence })

  -- the loops over `a_records` and `aaaa_records`
  unfoldable pub address_links : Text → Text → ℕ → List Text → Result (List Link)
  unfolding record_link
  address_links prefix rdtype i [] = ok []
  address_links prefix rdtype i (ip ∷ ips) = do
    link ←
        record_link (prefix ++ web.str_nat i) EntityType.ip_address ip RelationshipType.resolves_to
          ((codes "rdtype", str rdtype) ∷ []) 95
    rest ← address_links prefix rdtype (suc i) ips
    ok (link ∷ rest)

  -- the loop over `ns_records`
  unfoldable pub server_links : ℕ → List Text → Result (List Link)
  unfolding record_link
  server_links i [] = ok []
  server_links i (ns ∷ servers) = do
    link ←
        record_link (codes "ns-" ++ web.str_nat i) EntityType.domain ns
          RelationshipType.associated_with ((codes "role", str (codes "nameserver")) ∷ []) 90
    rest ← server_links (suc i) servers
    ok (link ∷ rest)

  -- the loop over `mx_records`
  unfoldable pub mail_links : ℕ → List (ℕ × Text) → Result (List Link)
  unfolding record_link
  mail_links i [] = ok []
  mail_links i ((preference, host) ∷ hosts) = do
    link ←
        record_link (codes "mx-" ++ web.str_nat i) EntityType.domain host
          RelationshipType.associated_with
          ((codes "role", str (codes "mx"))
            ∷ (codes "preference", number (web.str_nat preference))
            ∷ [])
          90
    rest ← mail_links (suc i) hosts
    ok (link ∷ rest)

  abbrev rdap_url : Text → Text
  rdap_url domain = codes "https://rdap.org/domain/" ++ web.quote domain

  -- `_fetch_rdap`, any failure of which is tolerated
  unfoldable pub rdap : Text → List ℕ × Bool
  unfolding attempt tolerated
  rdap domain =
      tolerated ([], false)
        (web.retrying is_retried true λ n. attempt web (
          web.exchange
            (get_request (rdap_url domain) ((codes "Accept", codes "application/rdap+json") ∷ []))
            n))

  abbrev count : {A : Type 0} → List A → Json
  count xs = number (web.str_nat (length xs))

  -- `query` after its checks
  unfoldable pub lookup : Text → Result QueryResult
  unfolding try_resolve try_resolve_mx address_links server_links mail_links rdap evidence_proposal
      linked
  lookup domain = do
    let a_records : List Text = try_resolve domain (codes "A")
    let aaaa_records : List Text = try_resolve domain (codes "AAAA")
    let ns_records : List Text = try_resolve domain (codes "NS")
    let mx_records : List (ℕ × Text) = try_resolve_mx domain
    a ← address_links (codes "ip-a-") (codes "A") 0 a_records
    aaaa ← address_links (codes "ip-aaaa-") (codes "AAAA") 0 aaaa_records
    ns ← server_links 0 ns_records
    mx ← mail_links 0 mx_records
    evidence ←
        evidence_proposal (codes "DNS + RDAP lookup for " ++ domain)
          (bytes_or (codes "{}") (rdap domain).0)
          (asked web (codes "GET") (rdap_url domain) (
            (
              codes "dns_record_counts",
              obj (
                  dict (
                    (codes "a", count a_records)
                    ∷ (codes "aaaa", count aaaa_records)
                    ∷ (codes "ns", count ns_records)
                    ∷ (codes "mx", count mx_records)
                    ∷ [])),
            )
            ∷ (
              codes "rdap_status",
              str (if (rdap domain).1 then codes "ok" else codes "unavailable"),
            )
            ∷ (codes "max_response_bytes", number (web.str_nat max_response_bytes))
            ∷ []))
    ok (linked (a ++ aaaa ++ ns ++ mx) evidence)

  -- `query`
  unfoldable pub query : Entity → Option Text → Result QueryResult
  unfolding lookup domain_re
  query input key =
      let domain = rstrip b'.' (web.lower (web.strip (codes input.label))) in
      if leb 1 (length domain) && domain_re domain then lookup domain else ok nothing

-- the class's attributes
unfoldable pub plugin : Web → Plugin
unfolding query
plugin web = record {
  name = "dns_whois";
  version = "0.1.0";
  full_name = "dns_whois@0.1.0";
  entity_types_accepted = EntityType.domain ∷ [];
  requires_credentials = false;
  dispatch_async = false;
  premium = false;
  query = query web;
}
