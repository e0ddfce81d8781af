-- ===== src/GraphDump.antt =====
-- graph/router.py: the dump of a case's graph, cut at ten thousand of each.
mod Tests
use sleuthgraph_api.Base.{
  ℕ, zero, suc, ◌+◌, ◌≤◌, ◌≡◌, refl, sym, ap, ◌∙◌, String, Bool, true, false, ◌||◌, Option, none,
  some, List, [], ◌∷◌, arith, map, take, drop, length, ltb, Bool-cases, inl, inr, ◌⊎◌,
  if◌then◌else◌,
}
use native.Mathlib.Numerals.{add-one}
use sleuthgraph_api.Errors.{Result, ok, err}
use sleuthgraph_api.Graph.Json.{Fields}
use sleuthgraph_api.Graph.Age.{or_empty}
use sleuthgraph_api.Model.{Session, Entity, Relationship}
use sleuthgraph_api.Sql.{select, page, order_desc}
use sleuthgraph_api.Action.{Action, pure, in_session, ◌>>=◌, ◌>>◌}
use sleuthgraph_api.Cases.{verify_case_ownership}
use sleuthgraph_api.Entities
use sleuthgraph_api.Relationships

pub record GraphVertex : Type 0 where
  pub id : ℕ
  pub type : String
  pub label : String
  pub confidence : ℕ
  pub attrs : Fields

pub record GraphEdge : Type 0 where
  pub id : ℕ
  pub source : ℕ
  pub target : ℕ
  pub rel_type : String
  pub confidence : ℕ
  pub source_plugin : Option String
  pub attrs : Fields

pub record GraphDump : Type 0 where
  pub vertices : List GraphVertex
  pub edges : List GraphEdge
  pub truncated : Bool

abbrev pub vertex_of_row : Entity → GraphVertex
vertex_of_row e = record {
  id = e.id;
  type = e.type;
  label = e.label;
  confidence = e.confidence;
  attrs = or_empty e.attrs;
}

abbrev pub edge_of_row : Relationship → GraphEdge
edge_of_row r = record {
  id = r.id;
  source = r.src_entity_id;
  target = r.dst_entity_id;
  rel_type = r.rel_type;
  confidence = r.confidence;
  source_plugin = r.source_plugin;
  attrs = r.attrs;
}

-- what the handler makes of the rows that it fetched, by its limit
unfoldable pub dump_of : ℕ → List Entity → List Relationship → GraphDump
dump_of limit entities rels = record {
  vertices = map vertex_of_row (take limit entities);
  edges = map edge_of_row (take limit rels);
  truncated = ltb limit (length entities) || ltb limit (length rels);
}

abbrev pub graph_limit : ℕ
graph_limit = 10000

-- GET /cases/{case_id}/graph
unfoldable pub get_graph : ℕ → ℕ → Action GraphDump
unfolding dump_of
get_graph user case_id = in_session (do
  verify_case_ownership case_id user
  entities ← Entities.list_for_case case_id none (graph_limit + 1) 0
  rels ← Relationships.list_for_case case_id none none none (graph_limit + 1) 0
  pure (dump_of graph_limit entities rels))

-- The rows of a case, all of them, in the order of the listing.
abbrev pub all_entities : ℕ → Session → List Entity
all_entities case_id s =
    order_desc (λ e. e.created_at) (select (Entities.entity_listed case_id none) s.live.entities)

module _ {A B : Type 0} (f : A → B) where
  length-map-take : (n : ℕ) (xs : List A) → length (map f (take n xs)) ≤ n
  length-map-take zero xs = omega arith
  length-map-take (suc n) [] = omega arith
  length-map-take (suc n) (x ∷ xs) = omega (arith, length-map-take n xs)

  -- Where one row more than the limit was asked for and no more than the limit came, all came.
  take_all :
      (n : ℕ) (xs : List A)
      → ltb n (length (take (suc n) xs)) ≡ false
      → take n (take (suc n) xs) ≡ xs
  take_all zero [] h = refl
  take_all zero (x ∷ xs) h = absurd (ground arith)
  take_all (suc n) [] h = refl
  take_all (suc n) (x ∷ xs) h = ap (λ r. x ∷ r) (take_all n xs (ground arith))

abbrev pub all_relationships : ℕ → Session → List Relationship
all_relationships case_id s =
    order_desc (λ r. r.created_at)
      (select (Relationships.rel_listed case_id none none none) s.live.relationships)

-- A dump within the limit that is marked as cut, or else is the whole of the rows.
abbrev pub Faithful : ℕ → List Entity → List Relationship → GraphDump → Type 0
Faithful limit entities rels d =
    (length d.vertices ≤ limit)
    × (length d.edges ≤ limit)
    × ((d.truncated ≡ true)
        ⊎ ((d.truncated ≡ false)
            × (d.vertices ≡ map vertex_of_row entities)
            × (d.edges ≡ map edge_of_row rels)))

dump_of-Faithful :
    (limit : ℕ) (entities : List Entity) (rels : List Relationship)
    → Faithful limit entities rels
        (dump_of limit (take (suc limit) entities) (take (suc limit) rels))
unfolding dump_of
dump_of-Faithful limit entities rels = (
  length-map-take vertex_of_row limit (take (suc limit) entities),
  length-map-take edge_of_row limit (take (suc limit) rels),
  elim (Bool-cases (ltb limit (length (take (suc limit) entities)))) [
    | inl e ↦ inl (rw e refl)
    | inr e ↦ elim (Bool-cases (ltb limit (length (take (suc limit) rels)))) [
      | inl k ↦ inl (rw e (rw k refl))
      | inr k ↦ inr (
        rw e (rw k refl),
        ap (map vertex_of_row) (take_all vertex_of_row limit entities e),
        ap (map edge_of_row) (take_all edge_of_row limit rels k),
      )
    ]
  ],
)

graph_returned :
    (user case_id : ℕ) (s : Session)
    → verify_case_ownership case_id user s ≡ (ok tt, s)
    → (get_graph user case_id s).0
      ≡ ok (
          dump_of graph_limit
            (take (graph_limit + 1) (all_entities case_id s))
            (take (graph_limit + 1) (all_relationships case_id s)))
unfolding get_graph Entities.list_for_case Relationships.list_for_case
graph_returned user case_id s h = ground arith

-- The owner of a case gets a dump with at most ten thousand vertices and as many edges; it is marked as
-- cut, or it has every live entity and every live relationship of the case, in the order of the listings.
pub get_graph-Faithful :
    (user case_id : ℕ) (s : Session)
    → verify_case_ownership case_id user s ≡ (ok tt, s)
    → (d : GraphDump) × ((get_graph user case_id s).0 ≡ ok d)
      × Faithful graph_limit (all_entities case_id s) (all_relationships case_id s) d
get_graph-Faithful user case_id s h = (
  _,
  graph_returned user case_id s h,
  dump_of-Faithful graph_limit (all_entities case_id s) (all_relationships case_id s),
)
