-- ===== src/Builtin/OpenCorporates.antt =====
-- plugins/builtin/opencorporates.py: companies by name, proposed without relationships.
use sleuthgraph_api.Base.{
  ℕ, suc, false, Option, none, some, List, [], ◌∷◌, ◌++◌, leb, ltb, length, take, if◌then◌else◌,
}
use sleuthgraph_api.Base.Text.{Text, codes}
use sleuthgraph_api.Errors.{Result, ok, ◌>>=◌}
use sleuthgraph_api.Graph.Json.{Json, Fields, null, str, number, boolean, obj, end, field}
use sleuthgraph_api.Model.{Entity}
use sleuthgraph_api.Entities.{EntityType}
use sleuthgraph_api.Plugins.Base.{EntityProposal, QueryResult, Plugin}
use sleuthgraph_api.Builtin.Web.{Web, fetch, rescued}
use sleuthgraph_api.Builtin.Values.{get_or, list_or_empty, dict}
use sleuthgraph_api.Builtin.Proposing.{
  entity_proposal, evidence_proposal, nothing, get_request, asked, bytes_or,
}

abbrev pub max_matches : ℕ
max_matches = 50

abbrev push_company : Json → List Fields → List Fields
push_company (obj company) rest = company ∷ rest
push_company value rest = rest

-- the loop over the wrappers
unfoldable pub unwrapped : List Json → List Fields
unfolding get_or
unwrapped [] = []
unwrapped (obj wrapper ∷ wrappers) =
    push_company (get_or (codes "company") null wrapper) (unwrapped wrappers)
unwrapped (wrapper ∷ wrappers) = unwrapped wrappers

abbrev companies_in : Json → List Fields
unfolding unwrapped get_or list_or_empty
companies_in (obj results) = unwrapped (list_or_empty (get_or (codes "companies") null results))
companies_in results = []

-- what `_fetch` makes of the parsed response
unfoldable pub companies_of : Json → List Fields
unfolding get_or unwrapped list_or_empty
companies_of (obj parsed) = companies_in (get_or (codes "results") null parsed)
companies_of parsed = []

-- `{k: v for k, v in attrs.items() if v is not None}`
unfoldable pub without_null : Fields → Fields
without_null end = end
without_null (field k null fs) = without_null fs
without_null (field k v fs) = field k v (without_null fs)

module _ (web : Web) where
  unfoldable pub company_attrs : Fields → Fields
  unfolding without_null get_or
  company_attrs company = without_null (
      dict (
        (codes "discovered_via", str (codes "opencorporates"))
        ∷ (codes "jurisdiction", get_or (codes "jurisdiction_code") null company)
        ∷ (codes "company_number", get_or (codes "company_number") null company)
        ∷ (codes "status", get_or (codes "current_status") null company)
        ∷ (codes "opencorporates_url", get_or (codes "opencorporates_url") null company)
        ∷ []))

  -- `company.get("name")`, stripped, where it is text and not blank
  abbrev name_of : Fields → Option Text
  unfolding get_or
  name_of company = elim (get_or (codes "name") null company) [
    | str t ↦ if leb 1 (length (web.strip t)) then some (web.strip t) else none
    | _ ↦ none
  ]

  -- the loop over the companies
  unfoldable pub propose : ℕ → List Fields → Result (List EntityProposal)
  unfolding company_attrs entity_proposal get_or
  propose i [] = ok []
  propose i (company ∷ companies) = elim (name_of company) [
    | none ↦ propose (suc i) companies
    | some name ↦ (do
      entity ←
          entity_proposal (codes "co-" ++ web.str_nat i) EntityType.organization name
            (company_attrs company) 60
      rest ← propose (suc i) companies
      ok (entity ∷ rest))
  ]

  -- `query` after its first check
  unfoldable pub lookup : Text → Result QueryResult
  unfolding fetch rescued companies_of propose evidence_proposal
  lookup term = do
    let url : Text =
        codes "https://api.opencorporates.com/v0.4/companies/search?"
        ++ web.urlencode ((codes "q", term) ∷ (codes "format", codes "json") ∷ [])
    fetched ← rescued ([], []) (fetch web [] companies_of (get_request url []))
    entities ← propose 0 (take max_matches fetched.0.1)
    evidence ←
        evidence_proposal (codes "OpenCorporates search for " ++ term)
          (bytes_or (codes "{}") fetched.0.0)
          (asked web (codes "GET") url (
            (codes "match_count", number (web.str_nat (length entities)))
            ∷ (codes "truncated", boolean (ltb max_matches (length fetched.0.1)))
            ∷ (codes "max_matches", number (web.str_nat max_matches))
            ∷ (codes "fetch_status", str (if fetched.1 then codes "error" else codes "ok"))
            ∷ []))
    ok (record { entities = entities; relationships = []; evidence = evidence ∷ [] })

  -- `query`
  unfoldable pub query : Entity → Option Text → Result QueryResult
  unfolding lookup
  query input key =
      let term = web.strip (codes input.label) in
      if leb 1 (length term) then lookup term else ok nothing

-- the class's attributes
unfoldable pub plugin : Web → Plugin
unfolding query
plugin web = record {
  name = "opencorporates";
  version = "0.1.0";
  full_name = "opencorporates@0.1.0";
  entity_types_accepted = EntityType.person ∷ EntityType.organization ∷ [];
  requires_credentials = false;
  dispatch_async = false;
  premium = false;
  query = query web;
}
