-- ===== src/Builtin/Searches.antt =====
-- plugins/builtin/opensanctions.py and aleph_occrp.py: searches that leave evidence only.
use sleuthgraph_api.Base.{
  ℕ, String, false, Option, List, [], ◌∷◌, ◌++◌, leb, ltb, length, if◌then◌else◌,
}
use sleuthgraph_api.Base.Text.{Text, codes}
use sleuthgraph_api.Errors.{Result, ok, ◌>>=◌}
use sleuthgraph_api.Graph.Json.{Json, null, str, number, boolean, obj}
use sleuthgraph_api.Model.{Entity}
use sleuthgraph_api.Entities.{EntityType}
use sleuthgraph_api.Plugins.Base.{QueryResult, Plugin}
use sleuthgraph_api.Builtin.Web.{Web, fetch}
use sleuthgraph_api.Builtin.Values.{get_or, list_or_empty}
use sleuthgraph_api.Builtin.Proposing.{
  evidence_proposal, only_evidence, nothing, get_request, asked, bytes_or,
}

-- `hit_count` of a parsed response
unfoldable pub hit_count : Json → ℕ
unfolding get_or list_or_empty
hit_count (obj fs) = length (list_or_empty (get_or (codes "results") null fs))
hit_count value = 0

module _ (web : Web) where
  abbrev evidence_spec : Text → ℕ → List (Text × Json)
  evidence_spec url hits =
      (codes "hit_count", number (web.str_nat hits))
      ∷ (codes "matched", boolean (ltb 0 hits))
      ∷ (codes "fetch_status", str (codes "ok"))
      ∷ []

  -- `query` of both after the first check, by the base URL, the limit and the words of the evidence
  unfoldable pub search : Text → Text → Text → Text → Result QueryResult
  unfolding fetch hit_count evidence_proposal
  search base limit words term = do
    let url : Text =
        base ++ codes "?" ++ web.urlencode ((codes "q", term) ∷ (codes "limit", limit) ∷ [])
    fetched ← fetch web 0 hit_count (get_request url [])
    evidence ←
        evidence_proposal (words ++ term) (bytes_or (codes "{}") fetched.0)
          (asked web (codes "GET") url (evidence_spec url fetched.1))
    ok (only_evidence evidence)

  unfoldable pub query : Text → Text → Text → Entity → Option Text → Result QueryResult
  unfolding search
  query base limit words input key =
      let term = web.strip (codes input.label) in
      if leb 1 (length term) then search base limit words term else ok nothing

abbrev searcher : String → String → (Entity → Option Text → Result QueryResult) → Plugin
searcher name full_name query = record {
  name = name;
  version = "0.1.0";
  full_name = full_name;
  entity_types_accepted = EntityType.person ∷ EntityType.organization ∷ [];
  requires_credentials = false;
  dispatch_async = false;
  premium = false;
  query = query;
}

unfoldable pub opensanctions : Web → Plugin
unfolding query
opensanctions web = searcher "opensanctions" "opensanctions@0.1.0" (
    query web (codes "https://api.opensanctions.org/search/default") (codes "10")
      (codes "OpenSanctions search for "))

unfoldable pub aleph_occrp : Web → Plugin
unfolding query
aleph_occrp web = searcher "aleph_occrp" "aleph_occrp@0.1.0" (
    query web (codes "https://aleph.occrp.org/api/2/entities") (codes "20")
      (codes "Aleph (OCCRP) search for "))
