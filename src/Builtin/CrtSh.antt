-- ===== src/Builtin/CrtSh.antt =====
-- plugins/builtin/crtsh.py: subdomains from the certificate transparency logs.
use sleuthgraph_api.Base.{
  ℕ, zero, suc, Bool, true, false, ◌&&◌, not, Option, List, [], ◌∷◌, ◌++◌, ◌==◌, leb, length,
  if◌then◌else◌,
}
use sleuthgraph_api.Base.Text.{Text, codes, starts_with, text_eq}
use sleuthgraph_api.Errors.{Result, ok, err, http_transport, ◌>>=◌}
use sleuthgraph_api.Graph.Json.{Json, str, number, boolean, end}
use sleuthgraph_api.Model.{Entity}
use sleuthgraph_api.Entities.{EntityType}
use sleuthgraph_api.Relationships.{RelationshipType}
use sleuthgraph_api.Plugins.Base.{QueryResult, Plugin, EntityProposal, RelationshipProposal}
use sleuthgraph_api.Builtin.Web.{
  is_retried, Web, Exchange, failed, answered, checked_body, parsed_or, with_raw,
}
use sleuthgraph_api.Builtin.Values.{get_attr, list_or_empty, dict, member, ends_with, sorted}
use sleuthgraph_api.Builtin.Patterns.{name_re}
use sleuthgraph_api.Builtin.Proposing.{
  to_input, entity_proposal, evidence_proposal, proposed, nothing, get_request, asked,
}

abbrev pub max_subdomains : ℕ
max_subdomains = 1000

-- What `_extract_subdomains` has so far: the set, in the order of its first insertions.
pub record Subdomains : Type 0 where
  pub names : List Text
  pub truncated : Bool

-- `result.add(name)`
abbrev pub add_name : Text → List Text → List Text
add_name name names = if member name names then names else names ++ name ∷ []

module _ (web : Web) (domain : Text) where
  -- the `continue`s of the inner loop
  unfoldable pub is_subdomain : Text → Bool
  unfolding name_re
  is_subdomain name =
      leb 1 (length name)
      && not (starts_with name (codes "*"))
      && not (text_eq name domain)
      && ends_with name (b'.' ∷ domain)
      && name_re name

  -- the inner loop, over `name_value.splitlines()`
  unfoldable pub scan_lines : List Text → List Text → Subdomains
  unfolding is_subdomain
  scan_lines [] found = record { names = found; truncated = false }
  scan_lines (line ∷ lines) found =
      let name = web.lower (web.strip line) in
      let rest = scan_lines lines (if is_subdomain name then add_name name found else found) in
      if is_subdomain name && leb max_subdomains (length found)
      then (record { names = found; truncated = true })
      else rest

  unfoldable pub scan_value : Json → List Text → Subdomains
  unfolding scan_lines
  scan_value (str value) found = scan_lines (web.splitlines value) found
  scan_value value found = record { names = found; truncated = false }

  -- `_extract_subdomains`, from the entries that are left
  unfoldable pub extract_subdomains : List Json → List Text → Result Subdomains
  unfolding scan_value get_attr
  extract_subdomains [] found = ok (record { names = found; truncated = false })
  extract_subdomains (entry ∷ entries) found = do
    value ← get_attr (codes "name_value") (str []) entry
    let scanned : Subdomains = scan_value value found
    let rest : Result Subdomains = extract_subdomains entries scanned.names
    if scanned.truncated then ok scanned else rest

-- One attempt of `_fetch`: a 429 is raised as a TransportError.
unfoldable pub attempt : Web → Exchange → Result (List ℕ × List Json)
unfolding checked_body parsed_or with_raw list_or_empty
attempt web (failed e) = err e
attempt web (answered status chunks broken) = if status == 429 then err http_transport else (do
  raw ← checked_body web status chunks broken
  with_raw raw (parsed_or [] list_or_empty (web.loads raw)))

-- the comprehension over `enumerate(sorted(subdomains))`
unfoldable pub propose_entities : Web → ℕ → List Text → Result (List EntityProposal)
unfolding entity_proposal
propose_entities web i [] = ok []
propose_entities web i (name ∷ names) = do
  entity ←
      entity_proposal (codes "sub-" ++ web.str_nat i) EntityType.domain name
        (dict ((codes "discovered_via", str (codes "crt.sh")) ∷ [])) 80
  rest ← propose_entities web (suc i) names
  ok (entity ∷ rest)

-- the comprehension over `range(len(entities))`, from `i` on
unfoldable pub propose_relationships : Web → ℕ → ℕ → List RelationshipProposal
propose_relationships web i zero = []
propose_relationships web i (suc n) =
    to_input (codes "sub-" ++ web.str_nat i) RelationshipType.subdomain_of end 90
    ∷ propose_relationships web (suc i) n

abbrev pub search_url : Web → Text → Text
search_url web domain =
    codes "https://crt.sh/?"
    ++ web.urlencode ((codes "q", domain) ∷ (codes "output", codes "json") ∷ [])

-- `query` after its first check
unfoldable pub lookup : Web → Text → Result QueryResult
unfolding attempt extract_subdomains propose_entities propose_relationships evidence_proposal
lookup web domain = do
  fetched ←
      web.retrying is_retried true
        λ n. attempt web (web.exchange (get_request (search_url web domain) []) n)
  found ← extract_subdomains web domain fetched.1 []
  entities ← propose_entities web 0 (sorted found.names)
  evidence ← evidence_proposal (codes "crt.sh subdomain lookup for " ++ domain) fetched.0 (
      asked web (codes "GET") (search_url web domain) (
        (codes "subdomain_count", number (web.str_nat (length entities)))
        ∷ (codes "truncated", boolean found.truncated)
        ∷ (codes "max_subdomains", number (web.str_nat max_subdomains))
        ∷ []))
  ok (proposed entities (propose_relationships web 0 (length entities)) evidence)

-- `query`
unfoldable pub query : Web → Entity → Option Text → Result QueryResult
unfolding lookup
query web input key =
    let domain = web.lower (web.strip (codes input.label)) in
    if leb 1 (length domain) then lookup web domain else ok nothing

-- the class's attributes
unfoldable pub plugin : Web → Plugin
unfolding query
plugin web = record {
  name = "crtsh";
  version = "0.1.0";
  full_name = "crtsh@0.1.0";
  entity_types_accepted = EntityType.domain ∷ [];
  requires_credentials = false;
  dispatch_async = false;
  premium = false;
  query = query web;
}
