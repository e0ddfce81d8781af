-- ===== src/Relationships/Outcomes.antt =====
-- The outcomes of each relationship write: one row and one statement together, or neither.
use sleuthgraph_api.Base.{
  ℕ, ◌+◌, ◌≡◌, refl, Bool, true, Option, none, some, List, [], ◌∷◌, ◌++◌, inl, inr, ◌⊎◌, arith,
  ◌==◌,
}
use sleuthgraph_api.Base.Text.{Text}
use sleuthgraph_api.Errors.{Error, Result, ok, err}
use sleuthgraph_api.Model.{Session, World, Relationship, Cypher, merge_edge, delete_edge_by_id}
use sleuthgraph_api.Sql.{update_where}
use sleuthgraph_api.Graph.Encode.{encode_props}
use sleuthgraph_api.Graph.Age.{edge_props, upsert_edge, delete_edge}
use sleuthgraph_api.Graph.Age.Effects.{
  executed, saved, undone, upsert_edge_cases, delete_edge_cases, Attempt-Upsert, attempt_delete,
}
use sleuthgraph_api.Relationships.{
  RelationshipCreate, rel_value, set_relationships, insert_rel, delete_found,
}

-- The row that `create` inserts.
abbrev pub new_rel : World → ℕ → Option ℕ → RelationshipCreate → Session → Relationship
new_rel w case_id created_by body s = record {
  id = w.uuid4 s.ticks;
  case_id = case_id;
  src_entity_id = body.src_entity_id;
  dst_entity_id = body.dst_entity_id;
  rel_type = rel_value body.rel_type;
  confidence = body.confidence;
  source_plugin = body.source_plugin;
  attrs = body.attrs;
  created_by = created_by;
  created_at = w.now (s.ticks + 1);
  deleted_at = none;
}

abbrev pub with_relationships : List Relationship → ℕ → Session → Session
with_relationships rows n s = record s { ticks = n; live = set_relationships rows s.live }

-- A call returned `a` and wrote the rows and the statement `stmt p`, or raised and undid all.
abbrev pub Written {ℓ} :
    {A : Type ℓ}
    → A
    → List Relationship
    → (Text → Cypher)
    → Result Text
    → Bool
    → Session
    → Result A × Session
    → Type ℓ
Written a rows stmt props b s r =
    ((p : Text) × (props ≡ ok p)
      × ((n : ℕ) × (r ≡ (ok a, saved b (executed (stmt p) n (with_relationships rows n s))))))
    ⊎ ((e : Error) × (n : ℕ) × (r ≡ (err e, undone n s)))

module _ (w : World) where
  pub insert_rel_cases :
      (case_id : ℕ) (created_by : Option ℕ) (body : RelationshipCreate) (b : Bool) (s : Session)
      → let r : Relationship = new_rel w case_id created_by body s in
        Written r
          (s.live.relationships ++ r ∷ [])
          (merge_edge r.rel_type r.src_entity_id r.dst_entity_id r.id)
          (encode_props w.str_list (edge_props w r))
          b
          s
          (insert_rel w case_id created_by body b s)
  unfolding insert_rel
  insert_rel_cases case_id created_by body b s =
      let r : Relationship = new_rel w case_id created_by body s in
      let t : Session = with_relationships (s.live.relationships ++ r ∷ []) (s.ticks + 1 + 1) s in
      elim (Attempt-Upsert (merge_edge r.rel_type r.src_entity_id r.dst_entity_id r.id)
        (encode_props w.str_list (edge_props w r)) (upsert_edge w r) b t
        (upsert_edge_cases w r t)) [
          | inl (p, enc, (n, done)) ↦ inl (p, enc, (n, ground arith))
          | inr (x, n, failed) ↦ inr (x, n, ground arith)
        ]

  pub delete_found_cases :
      (r : Relationship) (s : Session)
      → Written true
          (update_where
            (λ x. x.id == r.id)
            (λ x. record x { deleted_at = some (w.now s.ticks) })
            s.live.relationships)
          (λ p. delete_edge_by_id r.id)
          (ok [])
          true
          s
          (delete_found w (some r) s)
  unfolding delete_found
  delete_found_cases r s =
      let t : Session =
        with_relationships
          (update_where (λ x. x.id == r.id) (λ x. record x { deleted_at = some (w.now s.ticks) })
            s.live.relationships)
          (s.ticks + 1) s in
      elim (attempt_delete (delete_edge_by_id r.id) (delete_edge w r.id) t
        (delete_edge_cases w r.id t)) [
          | inl (n, done) ↦ inl ([], refl, (n, ground arith))
          | inr (x, n, failed) ↦ inr (x, n, ground arith)
        ]
