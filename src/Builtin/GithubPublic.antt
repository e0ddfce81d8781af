-- ===== src/Builtin/GithubPublic.antt =====
-- plugins/builtin/github_public.py: the public profiles of a user name or an email address.
use sleuthgraph_api.Base.{
  ℕ, suc, Bool, true, false, Option, none, some, List, [], ◌∷◌, ◌++◌, ◌==◌, leb, length,
  if◌then◌else◌, str_eq,
}
use sleuthgraph_api.Base.Text.{Text, codes}
use sleuthgraph_api.Errors.{Result, ok, err, http_status, ◌>>=◌}
use sleuthgraph_api.Graph.Json.{Json, Fields, null, str, number, obj}
use sleuthgraph_api.Model.{Entity}
use sleuthgraph_api.Entities.{EntityType, type_value}
use sleuthgraph_api.Relationships.{RelationshipType}
use sleuthgraph_api.Plugins.Base.{QueryResult, Plugin}
use sleuthgraph_api.Builtin.Web.{
  is_retried, Web, Exchange, failed, answered, checked_body, read_body, parsed_or, with_raw,
  is_http_error,
}
use sleuthgraph_api.Builtin.Values.{get_or, list_or_empty, dict}
use sleuthgraph_api.Builtin.Proposing.{
  to_input, Link, entity_proposal, evidence_proposal, linked, nothing, get_request, asked, bytes_or,
}

-- What `query` goes on with after the fetch. `None` and the parsed `null` are one value.
pub record Profile : Type 0 where
  pub raw : List ℕ
  pub parsed : Json
  pub fetch_status : Text

abbrev profile_of : List ℕ × Json → Profile
profile_of fetched = record { raw = fetched.0; parsed = fetched.1; fetch_status = codes "ok" }

-- One attempt of `_fetch`, and the caller's reading of its status: a 404 is drained.
unfoldable pub attempt : Web → Exchange → Result Profile
unfolding checked_body read_body parsed_or with_raw
attempt web (failed e) = err e
attempt web (answered status chunks broken) =
    if status == 404
    then (do
      raw ← read_body 0 chunks broken
      ok (record { raw = raw; parsed = null; fetch_status = codes "not_found" }))
    else (do
      raw ← checked_body web status chunks broken
      fetched ← with_raw raw (parsed_or null (λ value. value) (web.loads raw))
      ok (profile_of fetched))

-- the two `except` clauses around the fetch
unfoldable pub handled : Result Profile → Result Profile
handled (ok profile) = ok profile
handled (err http_status) = err http_status
handled (err e) =
    if is_http_error e
    then ok (record { raw = []; parsed = null; fetch_status = codes "error" })
    else err e

-- A login that is text and not empty.
abbrev pub login_of : Fields → Option Text
unfolding get_or
login_of fs = elim (get_or (codes "login") null fs) [ str (c ∷ cs) ↦ some (c ∷ cs) | _ ↦ none ]

module _ (web : Web) where
  -- the proposals for one profile
  unfoldable pub profile_link : ℕ → Text → List (Text × Json) → ℕ → Result Link
  unfolding entity_proposal
  profile_link i login about confidence = do
    let ref : Text = codes "gh-" ++ web.str_nat i
    entity ←
        entity_proposal ref EntityType.person login
          (dict (
            (codes "discovered_via", str (codes "github_public"))
            ∷ (codes "github_login", str login)
            ∷ about))
          confidence
    ok (record {
      entity = entity;
      relationship =
          to_input ref RelationshipType.associated_with
            (dict ((codes "source", str (codes "github_public")) ∷ [])) confidence;
    })

  abbrev copied : Text → Text → Fields → Text × Json
  unfolding get_or
  copied name key fs = (name, get_or key null fs)

  -- what is proposed for an item of a search
  unfoldable pub found_links : ℕ → Json → Result (List Link)
  unfolding profile_link get_or
  found_links i (obj fs) = elim (login_of fs) [
    | none ↦ ok []
    | some login ↦ (do
      link ←
          profile_link i login
            (copied (codes "github_id") (codes "id") fs
              ∷ copied (codes "github_url") (codes "html_url") fs
              ∷ [])
            70
      ok (link ∷ []))
  ]
  found_links i item = ok []

  -- the loop over the items of a search
  unfoldable pub search_links : ℕ → List Json → Result (List Link)
  unfolding found_links
  search_links i [] = ok []
  search_links i (item ∷ items) = do
    found ← found_links i item
    rest ← search_links (suc i) items
    ok (found ++ rest)

  -- what is proposed for a user
  unfoldable pub user_links : Json → Result (List Link)
  unfolding profile_link get_or
  user_links (obj fs) = elim (login_of fs) [
    | none ↦ ok []
    | some login ↦ (do
      link ←
          profile_link 0 login
            (copied (codes "github_id") (codes "id") fs
              ∷ copied (codes "bio") (codes "bio") fs
              ∷ copied (codes "company") (codes "company") fs
              ∷ copied (codes "location") (codes "location") fs
              ∷ copied (codes "github_url") (codes "html_url") fs
              ∷ copied (codes "created_at") (codes "created_at") fs
              ∷ [])
            90
      ok (link ∷ []))
  ]
  user_links parsed = ok []

  -- the proposals; without a parsed value there are none
  unfoldable pub propose : Bool → Json → Result (List Link)
  unfolding search_links user_links get_or list_or_empty
  propose true (obj fs) = search_links 0 (list_or_empty (get_or (codes "items") null fs))
  propose true parsed = ok []
  propose false parsed = user_links parsed

  abbrev profile_url : Bool → Text → Text
  profile_url true term =
      codes "https://api.github.com/search/users?"
      ++ web.urlencode ((codes "q", term ++ codes " in:email") ∷ [])
  profile_url false term = codes "https://api.github.com/users/" ++ web.quote term

  -- `query` after its first check
  unfoldable pub lookup : Text → Bool → Result QueryResult
  unfolding attempt handled propose evidence_proposal linked
  lookup term is_email = do
    let url : Text = profile_url is_email term
    profile ← handled (
        web.retrying is_retried false λ n. attempt web (
          web.exchange
            (get_request url ((codes "Accept", codes "application/vnd.github+json") ∷ [])) n))
    links ← propose is_email profile.parsed
    evidence ←
        evidence_proposal (codes "GitHub public lookup for " ++ term)
          (bytes_or (codes "{}") profile.raw)
          (asked web (codes "GET") url (
            (codes "match_count", number (web.str_nat (length links)))
            ∷ (codes "fetch_status", str profile.fetch_status)
            ∷ []))
    ok (linked links evidence)

  -- `query`
  unfoldable pub query : Entity → Option Text → Result QueryResult
  unfolding lookup type_value
  query input key =
      let term = web.strip (codes input.label) in
      if leb 1 (length term)
      then lookup term (str_eq input.type (type_value EntityType.email))
      else ok nothing

-- the class's attributes
unfoldable pub plugin : Web → Plugin
unfolding query
plugin web = record {
  name = "github_public";
  version = "0.1.0";
  full_name = "github_public@0.1.0";
  entity_types_accepted = EntityType.person ∷ EntityType.email ∷ [];
  requires_credentials = false;
  dispatch_async = false;
  premium = false;
  query = query web;
}
