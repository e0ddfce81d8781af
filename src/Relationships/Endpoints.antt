-- ===== src/Relationships/Endpoints.antt =====
-- The endpoints of a relationship when it is created, its deduplication, and what the deletion of
-- an entity leaves behind.
use sleuthgraph_api.Base.{
  ℕ, ◌≡◌, refl, sym, ◌∙◌, Bool, true, false, ◌&&◌, ◌||◌, Option, none, some, List, [], ◌∷◌, inl,
  inr, ◌⊎◌, arith, Bool-cases, keep, any, ◌==◌, is_none,
}
use sleuthgraph_api.Errors.{ok, err, endpoint_not_in_case}
use sleuthgraph_api.Model.{Session, World, Entity}
use sleuthgraph_api.Sql.{select, scalar_one_or_none, update_where}
use sleuthgraph_api.Sql.Rows.{lookup-cases, scalar-select}
use sleuthgraph_api.Sql.Keys.{keep-update_out}
use sleuthgraph_api.Entities
use sleuthgraph_api.Entities.Outcomes
use sleuthgraph_api.Relationships.{RelationshipCreate, is_endpoint, both_in, insert_rel, create}

-- The entity is a live row of the case.
abbrev pub is_live : ℕ → ℕ → List Entity → Bool
is_live case_id id = any (λ e. e.id == id && e.case_id == case_id && is_none e.deleted_at)

endpoints_iff :
    (case_id src dst k : ℕ) (es : List Entity)
    → (k == src || k == dst) ≡ true
    → any (λ e. e.id == k) (keep (is_endpoint case_id src dst) es) ≡ is_live case_id k es
endpoints_iff case_id src dst k [] h = refl
endpoints_iff case_id src dst k (e ∷ es) h = ground (arith, endpoints_iff case_id src dst k es h)

both_iff :
    (case_id src dst : ℕ) (es : List Entity)
    → both_in src dst (keep (is_endpoint case_id src dst) es)
      ≡ (is_live case_id src es && is_live case_id dst es)
both_iff case_id src dst es = ground (
  arith,
  endpoints_iff case_id src dst src es (ground arith),
  endpoints_iff case_id src dst dst es (ground arith),
)

module _ (w : World) where
  -- A relationship is created only between live entities of its case; otherwise the call raises
  -- EndpointNotInCaseError and writes nothing.
  pub create-endpoints :
      (case_id : ℕ) (created_by : Option ℕ) (body : RelationshipCreate) (b : Bool) (s : Session)
      → let live : Bool =
          is_live case_id body.src_entity_id s.live.entities
          && is_live case_id body.dst_entity_id s.live.entities in
        ((live ≡ true)
          × (create w case_id created_by body b s ≡ insert_rel w case_id created_by body b s))
        ⊎ ((live ≡ false) × (create w case_id created_by body b s ≡ (err endpoint_not_in_case, s)))
  unfolding create
  create-endpoints case_id created_by body b s =
      let same = both_iff case_id body.src_entity_id body.dst_entity_id s.live.entities in
      elim (Bool-cases (
        both_in body.src_entity_id body.dst_entity_id
          (select (is_endpoint case_id body.src_entity_id body.dst_entity_id) s.live.entities))) [
            | inl e ↦ inl (sym same ∙ e, ground (arith, e))
            | inr e ↦ inr (sym same ∙ e, ground (arith, e))
          ]

  -- After an entity was deleted, it is not found in its case, and every relationship row is still
  -- there and as live as before: those that end in the entity too.
  pub soft_delete-relationships :
      (entity_id case_id : ℕ) (s : Session)
      → (Entities.soft_delete w entity_id case_id s).0 ≡ ok true
      → ((Entities.get entity_id case_id (Entities.soft_delete w entity_id case_id s).1).0
          ≡ ok none)
        × ((Entities.soft_delete w entity_id case_id s).1.committed.relationships
            ≡ s.live.relationships)
  unfolding Entities.soft_delete Entities.get
  soft_delete-relationships entity_id case_id s h =
      elim (lookup-cases
        (scalar_one_or_none (select (Entities.entity_visible entity_id case_id) s.live.entities))) [
          | inl e ↦ absurd (ground (arith, h))
          | inr (inl (c, e)) ↦
              let same : c.id ≡ entity_id =
                scalar-select (λ x. x.id ≡ entity_id) (Entities.entity_visible entity_id case_id)
                  s.live.entities c (λ x t. ground arith) e in
              let gone : keep (Entities.entity_visible entity_id case_id) (
                    update_where (λ x. x.id == c.id)
                      (λ x. record x { deleted_at = some (w.now s.ticks) }) s.live.entities)
                  ≡ [] =
                keep-update_out (Entities.entity_visible entity_id case_id) (λ x. x.id == c.id)
                  (λ x. record x { deleted_at = some (w.now s.ticks) }) s.live.entities
                  (λ x. ground arith) (λ x t. ground arith) in
              elim (Outcomes.delete_found_cases w c s) [
                | inl (p, enc, (n, done)) ↦ (ground (arith, gone), ground arith)
                | inr (x, n, failed) ↦ absurd (ground (arith, h))
              ]
          | inr (inr (x, e)) ↦ absurd (ground (arith, h))
        ]
