-- ===== src/Entities/Vertex.antt =====
-- The last statement about the vertex of a row.
use sleuthgraph_api.Base.{
  ℕ, ◌≡◌, ◌≢◌, sym, false, Option, none, some, List, [], ◌∷◌, ◌++◌, arith, All, opt_is,
  if◌then◌else◌,
}
use mathlib.Core.Path.{subst}
use sleuthgraph_api.Base.Text.{Text}
use sleuthgraph_api.Errors.{ok}
use sleuthgraph_api.Model.{
  World, Db, Entity, Cypher, merge_vertex, detach_delete_vertex, merge_edge, delete_edge_by_id,
}
use sleuthgraph_api.Graph.Encode.{encode_props}
use sleuthgraph_api.Graph.Age.{vertex_props}

-- The vertex that a statement is about.
abbrev pub vertex_of : Cypher → Option ℕ
vertex_of (merge_vertex label id props) = some id
vertex_of (detach_delete_vertex id) = some id
vertex_of (merge_edge t src dst id props) = none
vertex_of (delete_edge_by_id id) = none

-- The last statement about a vertex, in the order of execution.
abbrev pub last_vertex : ℕ → List Cypher → Option Cypher
last_vertex id [] = none
last_vertex id (c ∷ cs) =
    let here : Option Cypher = if opt_is (vertex_of c) id then some c else none in
    elim (last_vertex id cs) [ some x ↦ some x | none ↦ here ]

pub last_vertex-append :
    (id : ℕ) (g : List Cypher) (c : Cypher)
    → last_vertex id (g ++ c ∷ []) ≡ (if opt_is (vertex_of c) id then some c else last_vertex id g)
last_vertex-append id [] c = ground arith
last_vertex-append id (d ∷ g) c = ground (arith, last_vertex-append id g c)

module _ (w : World) where
  abbrev pub MirroredAt : List Cypher → Entity → Option ℕ → Type 0
  MirroredAt g e none =
      (p : Text) × (encode_props w.str_list (vertex_props w e) ≡ ok p)
      × (last_vertex e.id g ≡ some (merge_vertex e.type e.id p))
  MirroredAt g e (some t) = last_vertex e.id g ≡ some (detach_delete_vertex e.id)

  -- A live row's vertex was last written with the row's present properties, and a deleted row's
  -- vertex was last deleted.
  abbrev pub Mirrored : List Cypher → Entity → Type 0
  Mirrored g e = MirroredAt g e e.deleted_at

  -- Every entity row is mirrored.
  abbrev pub InStep : Db → Type 0
  InStep db = All (Mirrored db.graph) db.entities

  pub Mirrored-other_at :
      (g : List Cypher) (c : Cypher) (e : Entity) (d : Option ℕ)
      → opt_is (vertex_of c) e.id ≡ false
      → MirroredAt g e d
      → MirroredAt (g ++ c ∷ []) e d
  Mirrored-other_at g c e none h (p, enc, l) = (p, enc, ground (arith, last_vertex-append e.id g c))
  Mirrored-other_at g c e (some t) h l = ground (arith, last_vertex-append e.id g c)

  -- A statement about another vertex leaves a row mirrored.
  pub Mirrored-other :
      (g : List Cypher) (c : Cypher) (e : Entity)
      → opt_is (vertex_of c) e.id ≡ false
      → Mirrored g e
      → Mirrored (g ++ c ∷ []) e
  Mirrored-other g c e h m = Mirrored-other_at g c e e.deleted_at h m

  pub Mirrored-upsert :
      (g : List Cypher) (e : Entity) (p : Text)
      → e.deleted_at ≡ none
      → encode_props w.str_list (vertex_props w e) ≡ ok p
      → Mirrored (g ++ merge_vertex e.type e.id p ∷ []) e
  Mirrored-upsert g e p d enc =
      subst (MirroredAt (g ++ merge_vertex e.type e.id p ∷ []) e) (sym d)
        (p, enc, ground (arith, last_vertex-append e.id g (merge_vertex e.type e.id p)))

  pub Mirrored-All :
      (g : List Cypher) (c : Cypher) (es : List Entity)
      → All (λ e. opt_is (vertex_of c) e.id ≡ false) es
      → All (Mirrored g) es
      → All (Mirrored (g ++ c ∷ [])) es
  Mirrored-All g c [] h m = tt
  Mirrored-All g c (e ∷ es) h m = (Mirrored-other g c e h.0 m.0, Mirrored-All g c es h.1 m.1)

  pub fresh_vertex :
      (k : ℕ) (es : List Entity)
      → All (λ e. e.id ≢ k) es
      → All (λ e. opt_is (some k) e.id ≡ false) es
  fresh_vertex k [] h = tt
  fresh_vertex k (e ∷ es) h = (ground (arith, h.0), fresh_vertex k es h.1)
