-- ===== src/Builtin/Hibp.antt =====
-- plugins/builtin/hibp.py: the breaches of an email address, as evidence only.
use sleuthgraph_api.Base.{
  ℕ, true, false, ◌&&◌, Option, none, some, List, [], ◌∷◌, ◌++◌, ◌==◌, leb, length, if◌then◌else◌,
  map,
}
use sleuthgraph_api.Base.Text.{Text, codes}
use sleuthgraph_api.Errors.{Result, ok, err, other_exception, ◌>>=◌}
use sleuthgraph_api.Graph.Json.{Json, str, number, obj, arr, nil}
use sleuthgraph_api.Model.{Entity}
use sleuthgraph_api.Entities.{EntityType}
use sleuthgraph_api.Plugins.Base.{QueryResult, Plugin}
use sleuthgraph_api.Builtin.Web.{
  is_retried, Web, Request, Exchange, failed, answered, checked_body, parsed_or, with_raw,
}
use sleuthgraph_api.Builtin.Values.{get_or, list_or_empty, iterate, items_of, member}
use sleuthgraph_api.Builtin.Patterns.{email_re}
use sleuthgraph_api.Builtin.Proposing.{
  evidence_proposal, only_evidence, nothing, get_request, asked,
}

-- One attempt of `_fetch`: a 404 is no breach.
unfoldable pub attempt : Web → Exchange → Result (Option (List ℕ × List Json))
unfolding checked_body parsed_or with_raw list_or_empty
attempt web (failed e) = err e
attempt web (answered status chunks broken) = if status == 404 then ok none else (do
  raw ← checked_body web status chunks broken
  fetched ← with_raw raw (parsed_or [] list_or_empty (web.loads raw))
  ok (some fetched))

-- `[b.get("Name", "") for b in breaches if isinstance(b, dict)]`
unfoldable pub breach_names : List Json → List Json
unfolding get_or
breach_names [] = []
breach_names (obj b ∷ breaches) = get_or (codes "Name") (str []) b ∷ breach_names breaches
breach_names (b ∷ breaches) = breach_names breaches

-- `dc for dc in … if isinstance(dc, str)`
abbrev pub texts_in : List Json → List Text
texts_in [] = []
texts_in (str t ∷ values) = t ∷ texts_in values
texts_in (value ∷ values) = texts_in values

-- `data_classes`
unfoldable pub data_classes : List Json → Result (List Text)
unfolding get_or iterate
data_classes [] = ok []
data_classes (obj b ∷ breaches) = do
  values ← iterate (get_or (codes "DataClasses") (arr nil) b)
  rest ← data_classes breaches
  ok (texts_in values ++ rest)
data_classes (b ∷ breaches) = data_classes breaches

-- the loop that leaves out what was seen
unfoldable pub unique : List Text → List Text → List Text
unique seen [] = []
unique seen (t ∷ ts) = elim (member t seen) [
  | true ↦ unique seen ts
  | false ↦ t ∷ unique (t ∷ seen) ts
]

module _ (web : Web) where
  -- what `query` makes of the breaches
  unfoldable pub report : Text → Text → Option (List ℕ × List Json) → Result QueryResult
  unfolding breach_names data_classes unique evidence_proposal
  report email url none = ok nothing
  report email url (some (raw, breaches)) = do
    classes ← data_classes breaches
    evidence ← evidence_proposal (codes "HIBP breach lookup for " ++ email) raw (
        asked web (codes "GET") url (
          (codes "breach_count", number (web.str_nat (length breaches)))
          ∷ (codes "breach_names", arr (items_of (breach_names breaches)))
          ∷ (codes "data_classes", arr (items_of (map (λ t. str t) (unique [] classes))))
          ∷ []))
    ok (only_evidence evidence)

  abbrev breach_url : Text → Text
  breach_url email =
      codes "https://haveibeenpwned.com/api/v3/breachedaccount/"
      ++ web.quote email
      ++ codes "?truncateResponse=false"

  abbrev pub breach_request : Text → Text → Request
  breach_request email key = get_request (breach_url email) ((codes "hibp-api-key", key) ∷ [])

  -- `query` after its checks
  unfoldable pub lookup : Text → Text → Result QueryResult
  unfolding attempt report
  lookup email key = do
    result ←
        web.retrying is_retried true λ n. attempt web (web.exchange (breach_request email key) n)
    report email (breach_url email) result

  -- `query`; without credentials the subscript raises a TypeError
  unfoldable pub query : Entity → Option Text → Result QueryResult
  unfolding lookup email_re
  query input none = err other_exception
  query input (some key) =
      let email = web.strip (codes input.label) in
      if leb 1 (length email) && email_re email then lookup email key else ok nothing

-- the class's attributes
unfoldable pub plugin : Web → Plugin
unfolding query
plugin web = record {
  name = "hibp";
  version = "0.1.0";
  full_name = "hibp@0.1.0";
  entity_types_accepted = EntityType.email ∷ [];
  requires_credentials = true;
  dispatch_async = false;
  premium = false;
  query = query web;
}
