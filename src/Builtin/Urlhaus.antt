-- ===== src/Builtin/Urlhaus.antt =====
-- plugins/builtin/urlhaus.py: whether a URL or a host is known for malware, as evidence only.
use sleuthgraph_api.Base.{
  ℕ, Bool, true, false, ◌&&◌, ◌||◌, Option, none, some, List, [], ◌∷◌, ◌++◌, leb, ltb, length,
  if◌then◌else◌, str_eq,
}
use sleuthgraph_api.Base.Text.{Text, codes, text_eq}
use sleuthgraph_api.Errors.{Result, ok, err, http_error, http_status, ◌>>=◌}
use sleuthgraph_api.Graph.Json.{Json, null, str, boolean, obj, arr, cons}
use sleuthgraph_api.Model.{Entity}
use sleuthgraph_api.Entities.{EntityType, type_value}
use sleuthgraph_api.Plugins.Base.{QueryResult, Plugin}
use sleuthgraph_api.Builtin.Web.{
  is_retried, Web, Request, Exchange, failed, answered, parsed_or, with_raw, max_response_bytes,
}
use sleuthgraph_api.Builtin.Values.{get_or}
use sleuthgraph_api.Builtin.Proposing.{evidence_proposal, only_evidence, nothing, asked, bytes_or}

abbrev pub joined : List (List ℕ) → List ℕ
joined [] = []
joined (chunk ∷ chunks) = chunk ++ joined chunks

-- One attempt of `_fetch`: `client.post` has read the whole body before its size is looked at.
unfoldable pub attempt : Web → Exchange → Result (List ℕ × Json)
unfolding parsed_or with_raw
attempt web (failed e) = err e
attempt web (answered status chunks (some e)) = err e
attempt web (answered status chunks none) =
    if web.is_success status
    then (if ltb max_response_bytes (length (joined chunks))
        then err http_error
        else with_raw (joined chunks) (parsed_or null (λ value. value) (web.loads (joined chunks))))
    else err http_status

-- `isinstance(x, dict)`, and `isinstance(x, list) and len(x) > 0`
abbrev is_dict : Json → Bool
is_dict (obj fs) = true
is_dict value = false

abbrev is_full_list : Json → Bool
is_full_list (arr (cons x xs)) = true
is_full_list value = false

module _ (web : Web) where
  -- `str(value)`
  abbrev python_str : Json → Text
  python_str (str t) = t
  python_str value = web.str_of value

  -- `query_status` and `malicious` of a parsed response
  unfoldable pub verdict : Json → Text × Bool
  unfolding get_or
  verdict (obj fs) =
      let status = python_str (get_or (codes "query_status") (str []) fs) in
      (
        status,
        text_eq status (codes "ok")
            && (is_dict (get_or (codes "url_info") null fs)
                || is_full_list (get_or (codes "urls") null fs)),
      )
  verdict parsed = ([], false)

  abbrev post_request : Text → Text → Text → Request
  post_request endpoint name label = record {
    method = codes "POST";
    url = endpoint;
    headers = (codes "User-Agent", codes "sleuthgraph/0.1") ∷ [];
    form = (name, label) ∷ [];
  }

  -- `query` after its first check, by the endpoint and the form's field
  unfoldable pub lookup : Text → Text → Text → Result QueryResult
  unfolding attempt verdict evidence_proposal
  lookup endpoint name label = do
    fetched ←
        web.retrying is_retried true
          λ n. attempt web (web.exchange (post_request endpoint name label) n)
    evidence ←
        evidence_proposal (codes "URLhaus lookup for " ++ label) (bytes_or (codes "{}") fetched.0) (
          asked web (codes "POST") endpoint (
            (codes "query_status", str (verdict fetched.1).0)
            ∷ (codes "malicious", boolean (verdict fetched.1).1)
            ∷ (codes "fetch_status", str (codes "ok"))
            ∷ []))
    ok (only_evidence evidence)

  -- `query`
  unfoldable pub query : Entity → Option Text → Result QueryResult
  unfolding lookup type_value
  query input key =
      let label = web.strip (codes input.label) in
      if leb 1 (length label)
      then (if str_eq input.type (type_value EntityType.url)
          then lookup (codes "https://urlhaus-api.abuse.ch/v1/url/") (codes "url") label
          else lookup (codes "https://urlhaus-api.abuse.ch/v1/host/") (codes "host") label)
      else ok nothing

-- the class's attributes
unfoldable pub plugin : Web → Plugin
unfolding query
plugin web = record {
  name = "urlhaus";
  version = "0.1.0";
  full_name = "urlhaus@0.1.0";
  entity_types_accepted = EntityType.url ∷ EntityType.domain ∷ [];
  requires_credentials = false;
  dispatch_async = false;
  premium = false;
  query = query web;
}
