-- ===== src/Builtin/Wayback.antt =====
-- plugins/builtin/wayback_cdx.py: the archived URLs of a domain or a URL.
use sleuthgraph_api.Base.{
  ℕ, suc, ◌+◌, Bool, true, false, Option, none, some, List, [], ◌∷◌, ◌++◌, leb, ltb, length, take,
  if◌then◌else◌, str_eq,
}
use sleuthgraph_api.Base.Text.{Text, codes, text_eq}
use sleuthgraph_api.Errors.{Result, ok, ◌>>=◌}
use sleuthgraph_api.Graph.Json.{Json, str, number, boolean, arr, cons}
use sleuthgraph_api.Model.{Entity}
use sleuthgraph_api.Entities.{EntityType, type_value}
use sleuthgraph_api.Relationships.{RelationshipType}
use sleuthgraph_api.Plugins.Base.{QueryResult, Plugin}
use sleuthgraph_api.Builtin.Web.{Web, fetch, rescued}
use sleuthgraph_api.Builtin.Values.{list_of, dict}
use sleuthgraph_api.Builtin.Proposing.{
  to_input, Link, entity_proposal, evidence_proposal, linked, nothing, get_request, asked, bytes_or,
}

abbrev pub max_snapshots : ℕ
max_snapshots = 500

abbrev pub max_url_len : ℕ
max_url_len = 500

pub record Snapshot : Type 0 where
  pub original : Text
  pub first_seen : Json
  pub last_seen : Json
  pub status_code : Json

-- `[row for row in parsed[1:] if isinstance(row, list)]`
unfoldable pub row_lists : List Json → List (List Json)
row_lists [] = []
row_lists (arr cells ∷ rows) = list_of cells ∷ row_lists rows
row_lists (row ∷ rows) = row_lists rows

-- the rows of a parsed response
unfoldable pub parsed_rows : Json → List (List Json)
unfolding row_lists
parsed_rows (arr (cons header rows)) = row_lists (list_of rows)
parsed_rows value = []

abbrev pub find_snapshot : Text → List Snapshot → Option Snapshot
find_snapshot url [] = none
find_snapshot url (s ∷ ss) =
    let rest = find_snapshot url ss in if text_eq s.original url then some s else rest

-- The dict with the entry of a URL changed.
abbrev pub set_snapshot : Snapshot → List Snapshot → List Snapshot
set_snapshot new [] = []
set_snapshot new (s ∷ ss) =
    (if text_eq s.original new.original then new else s) ∷ set_snapshot new ss

module _ (web : Web) where
  -- the two comparisons with the entry that is there
  unfoldable pub widened : Json → Snapshot → Result Snapshot
  widened timestamp s = do
    earlier ← web.less timestamp s.first_seen
    let first : Snapshot = if earlier then (record s { first_seen = timestamp }) else s
    later ← web.less s.last_seen timestamp
    ok (if later then (record first { last_seen = timestamp }) else first)

  abbrev merge_into : Json → Text → Json → List Snapshot → Option Snapshot → Result (List Snapshot)
  unfolding widened
  merge_into timestamp original status by_url none = ok (
      by_url
      ++ (record {
        original = original;
        first_seen = timestamp;
        last_seen = timestamp;
        status_code = status;
      })
        ∷ [])
  merge_into timestamp original status by_url (some s) = do
    new ← widened timestamp s
    ok (set_snapshot new by_url)

  -- one round of the loop over the rows
  unfoldable pub add_row : List Json → List Snapshot → Result (List Snapshot)
  unfolding widened
  add_row (timestamp ∷ str (c ∷ cs) ∷ status ∷ cells) by_url =
      merge_into timestamp (c ∷ cs) status by_url (find_snapshot (c ∷ cs) by_url)
  add_row row by_url = ok by_url

  unfoldable pub add_rows : List (List Json) → List Snapshot → Result (List Snapshot)
  unfolding add_row
  add_rows [] by_url = ok by_url
  add_rows (row ∷ rows) by_url = do next ← add_row row by_url; add_rows rows next

  -- `_extract_snapshots`
  unfoldable pub extract_snapshots : List (List Json) → Result (List Snapshot)
  unfolding add_rows
  extract_snapshots rows = add_rows rows [] >>= web.sorted_by (λ s. s.first_seen)

  -- the proposals for one snapshot
  unfoldable pub snapshot_link : ℕ → Snapshot → Result Link
  unfolding entity_proposal
  snapshot_link i s = do
    let ref : Text = codes "snap-" ++ web.str_nat i
    entity ←
        entity_proposal ref EntityType.url s.original
          (dict (
            (codes "discovered_via", str (codes "wayback_cdx"))
            ∷ (codes "first_seen", s.first_seen)
            ∷ (codes "last_seen", s.last_seen)
            ∷ (codes "status_code", s.status_code)
            ∷ []))
          80
    ok (record {
      entity = entity;
      relationship =
          to_input ref RelationshipType.associated_with
            (dict ((codes "role", str (codes "archived")) ∷ [])) 80;
    })

  -- the loop over the snapshots: what it appends, and `skipped_too_long`
  unfoldable pub propose : ℕ → List Snapshot → Result (List Link × ℕ)
  unfolding snapshot_link
  propose i [] = ok ([], 0)
  propose i (s ∷ ss) =
      let others = propose (suc i) ss in
      if ltb max_url_len (length s.original)
      then (do rest ← others; ok (rest.0, suc rest.1))
      else (do link ← snapshot_link i s; rest ← others; ok (link ∷ rest.0, rest.1))

  abbrev cdx_url : Text → Text
  cdx_url target =
      codes "http://web.archive.org/cdx/search/cdx?"
      ++ web.urlencode (
          (codes "url", target)
          ∷ (codes "output", codes "json")
          ∷ (codes "limit", web.str_nat (max_snapshots + 1))
          ∷ (codes "fl", codes "timestamp,original,statuscode")
          ∷ (codes "collapse", codes "urlkey")
          ∷ [])

  -- `query` after its first check
  unfoldable pub lookup : Text → Bool → Result QueryResult
  unfolding fetch rescued parsed_rows extract_snapshots propose evidence_proposal linked
  lookup label is_domain = do
    let url : Text = cdx_url (if is_domain then label ++ codes "/*" else label)
    fetched ← rescued ([], []) (fetch web [] parsed_rows (get_request url []))
    snapshots ← extract_snapshots fetched.0.1
    proposed ← propose 0 (take max_snapshots snapshots)
    evidence ←
        evidence_proposal (codes "wayback CDX lookup for " ++ label)
          (bytes_or (codes "[]") fetched.0.0)
          (asked web (codes "GET") url (
            (codes "snapshot_count", number (web.str_nat (length proposed.0)))
            ∷ (codes "truncated", boolean (ltb max_snapshots (length snapshots)))
            ∷ (codes "skipped_too_long", number (web.str_nat proposed.1))
            ∷ (codes "max_snapshots", number (web.str_nat max_snapshots))
            ∷ (codes "max_url_length", number (web.str_nat max_url_len))
            ∷ (codes "fetch_status", str (if fetched.1 then codes "error" else codes "ok"))
            ∷ []))
    ok (linked proposed.0 evidence)

  -- `query`
  unfoldable pub query : Entity → Option Text → Result QueryResult
  unfolding lookup type_value
  query input key =
      let label = web.strip (codes input.label) in
      if leb 1 (length label)
      then lookup label (str_eq input.type (type_value EntityType.domain))
      else ok nothing

-- the class's attributes
unfoldable pub plugin : Web → Plugin
unfolding query
plugin web = record {
  name = "wayback_cdx";
  version = "0.1.0";
  full_name = "wayback_cdx@0.1.0";
  entity_types_accepted = EntityType.domain ∷ EntityType.url ∷ [];
  requires_credentials = false;
  dispatch_async = true;
  premium = false;
  query = query web;
}
