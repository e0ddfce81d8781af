-- ===== src/Entities/Outcomes.antt =====
-- The outcomes of each entity write: one row and one statement together, or neither.
use sleuthgraph_api.Base.{
  ℕ, ◌+◌, ◌≡◌, refl, Bool, true, ◌||◌, Option, none, some, List, [], ◌∷◌, ◌++◌, inl, inr, ◌⊎◌,
  arith, Bool-cases, ◌==◌, ltb,
}
use sleuthgraph_api.Base.Text.{Text}
use sleuthgraph_api.Errors.{Error, Result, ok, err, integrity_error}
use sleuthgraph_api.Model.{Session, World, Entity, Cypher, merge_vertex, detach_delete_vertex}
use sleuthgraph_api.Action.{is_null}
use sleuthgraph_api.Sql.{update_where}
use sleuthgraph_api.Graph.Encode.{encode_props}
use sleuthgraph_api.Graph.Age.{vertex_props, upsert_vertex, delete_vertex}
use sleuthgraph_api.Graph.Age.Effects.{
  executed, saved, undone, upsert_vertex_cases, delete_vertex_cases, Attempt-Upsert, attempt_delete,
}
use sleuthgraph_api.Entities.{
  EntityCreate, EntityUpdate, apply_entity_update, type_value, set_entities, create, update_found,
  delete_found, raise_confidence,
}

-- The row that `create` inserts.
abbrev pub new_entity : World → ℕ → Option ℕ → EntityCreate → Session → Entity
new_entity w case_id created_by body s = record {
  id = w.uuid4 s.ticks;
  case_id = case_id;
  type = type_value body.type;
  label = body.label;
  attrs = some body.attrs;
  confidence = body.confidence;
  created_by = created_by;
  created_at = w.now (s.ticks + 1);
  deleted_at = none;
}

abbrev pub with_entities : List Entity → ℕ → Session → Session
with_entities rows n s = record s { ticks = n; live = set_entities rows s.live }

-- A call returned `a` and wrote the rows and the statement `stmt p`, or raised and undid all.
abbrev pub Written {ℓ} :
    {A : Type ℓ}
    → A
    → List Entity
    → (Text → Cypher)
    → Result Text
    → Bool
    → Session
    → Result A × Session
    → Type ℓ
Written a rows stmt props b s r =
    ((p : Text) × (props ≡ ok p)
      × ((n : ℕ) × (r ≡ (ok a, saved b (executed (stmt p) n (with_entities rows n s))))))
    ⊎ ((e : Error) × (n : ℕ) × (r ≡ (err e, undone n s)))

module _ (w : World) where
  pub create_cases :
      (case_id : ℕ) (created_by : Option ℕ) (body : EntityCreate) (b : Bool) (s : Session)
      → let e : Entity = new_entity w case_id created_by body s in
        Written e
          (s.live.entities ++ e ∷ [])
          (merge_vertex e.type e.id)
          (encode_props w.str_list (vertex_props w e))
          b
          s
          (create w case_id created_by body b s)
  unfolding create
  create_cases case_id created_by body b s =
      let e : Entity = new_entity w case_id created_by body s in
      let t : Session = with_entities (s.live.entities ++ e ∷ []) (s.ticks + 1 + 1) s in
      elim (Attempt-Upsert (merge_vertex e.type e.id) (encode_props w.str_list (vertex_props w e))
        (upsert_vertex w e) b t (upsert_vertex_cases w e t)) [
          | inl (p, enc, (n, done)) ↦ inl (p, enc, (n, ground arith))
          | inr (x, n, failed) ↦ inr (x, n, ground arith)
        ]

  -- `update` of a row that was found.
  pub update_found_cases :
      (body : EntityUpdate) (e : Entity) (s : Session)
      → let f : Entity = apply_entity_update body e in
        Written
          (some f)
          (update_where (λ x. x.id == e.id) (apply_entity_update body) s.live.entities)
          (merge_vertex f.type f.id)
          (encode_props w.str_list (vertex_props w f))
          true
          s
          (update_found w body (some e) s)
  unfolding update_found
  update_found_cases body e s =
      let f : Entity = apply_entity_update body e in
      let t : Session =
        with_entities (update_where (λ x. x.id == e.id) (apply_entity_update body) s.live.entities)
          s.ticks s in
      elim (Bool-cases (is_null body.label || is_null body.confidence)) [
        | inl refused ↦ inr (integrity_error, s.ticks, ground arith)
        | inr fine ↦
            elim (Attempt-Upsert (merge_vertex f.type f.id)
              (encode_props w.str_list (vertex_props w f)) (upsert_vertex w f) true t
              (upsert_vertex_cases w f t)) [
                | inl (p, enc, (n, done)) ↦ inl (p, enc, (n, ground arith))
                | inr (x, n, failed) ↦ inr (x, n, ground arith)
              ]
      ]

  -- `soft_delete` of a row that was found; the statement carries no properties.
  pub delete_found_cases :
      (e : Entity) (s : Session)
      → Written true
          (update_where
            (λ x. x.id == e.id)
            (λ x. record x { deleted_at = some (w.now s.ticks) })
            s.live.entities)
          (λ p. detach_delete_vertex e.id)
          (ok [])
          true
          s
          (delete_found w (some e) s)
  unfolding delete_found
  delete_found_cases e s =
      let t : Session =
        with_entities
          (update_where (λ x. x.id == e.id) (λ x. record x { deleted_at = some (w.now s.ticks) })
            s.live.entities)
          (s.ticks + 1) s in
      elim (attempt_delete (detach_delete_vertex e.id) (delete_vertex w e.id) t
        (delete_vertex_cases w e.id t)) [
          | inl (n, done) ↦ inl ([], refl, (n, ground arith))
          | inr (x, n, failed) ↦ inr (x, n, ground arith)
        ]

  -- `get_or_create` of a row that was found with less confidence than proposed.
  pub raise_confidence_cases :
      (k : ℕ) (e : Entity) (b : Bool) (s : Session)
      → ltb e.confidence k ≡ true
      → let f : Entity = record e { confidence = k } in
        Written f
          (update_where (λ x. x.id == e.id) (λ x. record x { confidence = k }) s.live.entities)
          (merge_vertex f.type f.id)
          (encode_props w.str_list (vertex_props w f))
          b
          s
          (raise_confidence w k e b s)
  unfolding raise_confidence
  raise_confidence_cases k e b s lower =
      let f : Entity = record e { confidence = k } in
      let t : Session =
        with_entities
          (update_where (λ x. x.id == e.id) (λ x. record x { confidence = k }) s.live.entities)
          s.ticks s in
      elim (Attempt-Upsert (merge_vertex f.type f.id) (encode_props w.str_list (vertex_props w f))
        (upsert_vertex w f) b t (upsert_vertex_cases w f t)) [
          | inl (p, enc, (n, done)) ↦ inl (p, enc, (n, ground arith))
          | inr (x, n, failed) ↦ inr (x, n, ground arith)
        ]
