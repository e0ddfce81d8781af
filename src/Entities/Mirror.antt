-- ===== src/Entities/Mirror.antt =====
-- The graph mirror of the entities: for each row, the last statement about its vertex.
use sleuthgraph_api.Base.{
  ℕ, ◌≡◌, ◌≢◌, refl, sym, Bool, true, false, Option, none, some, List, [], ◌∷◌, ◌++◌, inl, inr,
  arith, Bool-cases, All, All-append, ◌==◌, ltb,
}
use mathlib.Core.Path.{subst}
use sleuthgraph_api.Base.Text.{Text}
use sleuthgraph_api.Errors.{Result, ok}
use sleuthgraph_api.Model.{Session, World, Entity, Cypher, merge_vertex, detach_delete_vertex}
use sleuthgraph_api.Sql.{select, scalar_one_or_none, update_where}
use sleuthgraph_api.Sql.Rows.{lookup-cases, scalar-select}
use sleuthgraph_api.Sql.Keys.{
  UniqueKeys, UniqueKeys-append, UniqueKeys-update_where, found_same, All-update_where,
}
use sleuthgraph_api.Graph.Encode.{encode_props}
use sleuthgraph_api.Graph.Age.{vertex_props}
use sleuthgraph_api.Entities.Outcomes.{
  Written, new_entity, create_cases, update_found_cases, delete_found_cases, raise_confidence_cases,
}
use sleuthgraph_api.Entities.{
  EntityCreate, EntityUpdate, entity_visible, entity_same, apply_entity_update, type_value, create,
  update, update_found, soft_delete, delete_found, get_or_create, raise_confidence,
}
use sleuthgraph_api.Entities.Vertex.{
  InStep, Mirrored, Mirrored-All, Mirrored-other, Mirrored-upsert, fresh_vertex, last_vertex-append,
  vertex_of,
}

module _ (w : World) where
  -- The entity rows of a session have unique keys and are in step, in the transaction and in what
  -- is committed.
  pub record IsMirrored (s : Session) : Type 0 where
    pub unique_live : UniqueKeys (λ e. e.id) s.live.entities
    pub unique_committed : UniqueKeys (λ e. e.id) s.committed.entities
    pub live_in_step : InStep w s.live
    pub committed_in_step : InStep w s.committed

  module _ {A : Type 0} where
    Written-IsMirrored :
        (a : A) (rows : List Entity) (stmt : Text → Cypher) (props : Result Text) (b : Bool)
        (s : Session) (r : Result A × Session)
        → Written a rows stmt props b s r
        → IsMirrored s
        → UniqueKeys (λ e. e.id) rows
        → ((p : Text) → props ≡ ok p → All (Mirrored w (s.live.graph ++ stmt p ∷ [])) rows)
        → IsMirrored r.1
    Written-IsMirrored a rows stmt props true s r (inl (p, enc, (n, e))) m u f =
        subst (λ x. IsMirrored x.1) (sym e)
          (record {
            unique_live = u;
            unique_committed = u;
            live_in_step = f p enc;
            committed_in_step = f p enc;
          })
    Written-IsMirrored a rows stmt props false s r (inl (p, enc, (n, e))) m u f =
        subst (λ x. IsMirrored x.1) (sym e)
          (record {
            unique_live = u;
            unique_committed = m.unique_committed;
            live_in_step = f p enc;
            committed_in_step = m.committed_in_step;
          })
    Written-IsMirrored a rows stmt props b s r (inr (x, n, e)) m u f =
        subst (λ x. IsMirrored x.1) (sym e)
          (record {
            unique_live = m.unique_committed;
            unique_committed = m.unique_committed;
            live_in_step = m.committed_in_step;
            committed_in_step = m.committed_in_step;
          })

  -- `EntityRepository.create`, committing or not, with a UUID that no row has.
  pub create-IsMirrored :
      (case_id : ℕ) (created_by : Option ℕ) (body : EntityCreate) (b : Bool) (s : Session)
      → All (λ e. e.id ≢ w.uuid4 s.ticks) s.live.entities
      → IsMirrored s
      → IsMirrored (create w case_id created_by body b s).1
  create-IsMirrored case_id created_by body b s fresh m =
      let e : Entity = new_entity w case_id created_by body s in
      Written-IsMirrored e _ _ _ b s _ (create_cases w case_id created_by body b s) m
        (UniqueKeys-append (λ e. e.id) s.live.entities e m.unique_live fresh)
        (λ p enc.
          All-append (Mirrored w (s.live.graph ++ merge_vertex e.type e.id p ∷ [])) s.live.entities
            (e ∷ [])
            (Mirrored-All w s.live.graph (merge_vertex e.type e.id p) s.live.entities
              (fresh_vertex w e.id s.live.entities fresh) m.live_in_step)
            (Mirrored-upsert w s.live.graph e p refl enc, tt))

  -- An update of the one row `c` that leaves its key alone, with a statement about its vertex.
  rows-Mirrored :
      (f : Entity → Entity) (c : Entity) (stmt : Cypher) (g : List Cypher) (es : List Entity)
      → vertex_of stmt ≡ some c.id
      → All (Mirrored w g) es
      → All (λ x. (x.id == c.id) ≡ true → x ≡ c) es
      → Mirrored w (g ++ stmt ∷ []) (f c)
      → All (Mirrored w (g ++ stmt ∷ [])) (update_where (λ x. x.id == c.id) f es)
  rows-Mirrored f c stmt g es v m same here =
      All-update_where (Mirrored w g) (Mirrored w (g ++ stmt ∷ [])) (λ x. x.id == c.id) f c es m
        (λ x mx ne. Mirrored-other w g stmt x (rw v (ground arith)) mx) same here

  -- A write of the one row `c` with a statement about its vertex.
  row_IsMirrored :
      {A : Type 0} (a : A) (f : Entity → Entity) (c : Entity) (stmt : Text → Cypher)
      (props : Result Text) (b : Bool) (s : Session) (r : Result A × Session)
      → Written a (update_where (λ x. x.id == c.id) f s.live.entities) stmt props b s r
      → IsMirrored s
      → ((x : Entity) → (f x).id ≡ x.id)
      → ((p : Text) → vertex_of (stmt p) ≡ some c.id)
      → All (λ x. (x.id == c.id) ≡ true → x ≡ c) s.live.entities
      → ((p : Text) → props ≡ ok p → Mirrored w (s.live.graph ++ stmt p ∷ []) (f c))
      → IsMirrored r.1
  row_IsMirrored a f c stmt props b s r wr m key v same here =
      Written-IsMirrored a _ stmt props b s r wr m
        (UniqueKeys-update_where (λ e. e.id) (λ x. x.id == c.id) f s.live.entities key
          m.unique_live)
        (λ p enc.
          rows-Mirrored f c (stmt p) s.live.graph s.live.entities (v p) m.live_in_step same
            (here p enc))

  visible_row :
      (entity_id case_id : ℕ) (es : List Entity) (c : Entity)
      → UniqueKeys (λ e. e.id) es
      → scalar_one_or_none (select (entity_visible entity_id case_id) es) ≡ ok (some c)
      → All (λ x. (x.id == c.id) ≡ true → x ≡ c) es
  visible_row entity_id case_id es c u e =
      found_same (λ x. x.id) (entity_visible entity_id case_id) es c u e

  live_row :
      (entity_id case_id : ℕ) (es : List Entity) (c : Entity)
      → scalar_one_or_none (select (entity_visible entity_id case_id) es) ≡ ok (some c)
      → c.deleted_at ≡ none
  live_row entity_id case_id es c e =
      scalar-select (λ x. x.deleted_at ≡ none) (entity_visible entity_id case_id) es c
        (λ x t. ground arith) e

  pub update-IsMirrored :
      (entity_id case_id : ℕ) (body : EntityUpdate) (s : Session)
      → IsMirrored s
      → IsMirrored (update w entity_id case_id body s).1
  unfolding update
  update-IsMirrored entity_id case_id body s m =
      elim (lookup-cases
        (scalar_one_or_none (select (entity_visible entity_id case_id) s.live.entities))) [
          | inl e ↦ subst IsMirrored (ground arith) m
          | inr (inl (c, e)) ↦
              let f : Entity = apply_entity_update body c in
              let found : IsMirrored (update_found w body (some c) s).1 =
                row_IsMirrored (some f) (apply_entity_update body) c (merge_vertex f.type f.id)
                  (encode_props w.str_list (vertex_props w f)) true s
                  (update_found w body (some c) s) (update_found_cases w body c s) m (λ x. refl)
                  (λ p. refl) (visible_row entity_id case_id s.live.entities c m.unique_live e)
                  (λ p enc.
                    Mirrored-upsert w s.live.graph f p
                      (live_row entity_id case_id s.live.entities c e) enc) in
              subst IsMirrored (ground arith) found
          | inr (inr (x, e)) ↦ subst IsMirrored (ground arith) m
        ]

  pub soft_delete-IsMirrored :
      (entity_id case_id : ℕ) (s : Session)
      → IsMirrored s
      → IsMirrored (soft_delete w entity_id case_id s).1
  unfolding soft_delete
  soft_delete-IsMirrored entity_id case_id s m =
      elim (lookup-cases
        (scalar_one_or_none (select (entity_visible entity_id case_id) s.live.entities))) [
          | inl e ↦ subst IsMirrored (ground arith) m
          | inr (inl (c, e)) ↦
              let found : IsMirrored (delete_found w (some c) s).1 =
                row_IsMirrored true (λ x. record x { deleted_at = some (w.now s.ticks) }) c
                  (λ p. detach_delete_vertex c.id) (ok []) true s (delete_found w (some c) s)
                  (delete_found_cases w c s) m (λ x. refl) (λ p. refl)
                  (visible_row entity_id case_id s.live.entities c m.unique_live e)
                  (λ p enc.
                    ground
                      (arith, last_vertex-append c.id s.live.graph (detach_delete_vertex c.id))) in
              subst IsMirrored (ground arith) found
          | inr (inr (x, e)) ↦ subst IsMirrored (ground arith) m
        ]

  raised_IsMirrored :
      (k : ℕ) (b : Bool) (c : Entity) (s : Session)
      → IsMirrored s
      → c.deleted_at ≡ none
      → All (λ x. (x.id == c.id) ≡ true → x ≡ c) s.live.entities
      → IsMirrored (raise_confidence w k c b s).1
  unfolding raise_confidence
  raised_IsMirrored k b c s m live same = elim (Bool-cases (ltb c.confidence k)) [
    | inl lower ↦
        let f : Entity = record c { confidence = k } in
        row_IsMirrored f (λ x. record x { confidence = k }) c (merge_vertex f.type f.id)
          (encode_props w.str_list (vertex_props w f)) b s (raise_confidence w k c b s)
          (raise_confidence_cases w k c b s lower) m (λ x. refl) (λ p. refl) same
          (λ p enc. Mirrored-upsert w s.live.graph f p live enc)
    | inr high ↦ subst IsMirrored (ground arith) m
  ]

  pub get_or_create-IsMirrored :
      (case_id : ℕ) (created_by : Option ℕ) (body : EntityCreate) (b : Bool) (s : Session)
      → All (λ e. e.id ≢ w.uuid4 s.ticks) s.live.entities
      → IsMirrored s
      → IsMirrored (get_or_create w case_id created_by body b s).1
  unfolding get_or_create
  get_or_create-IsMirrored case_id created_by body b s fresh m =
      let same : Entity → Bool = entity_same case_id (type_value body.type) body.label in
      elim (lookup-cases (scalar_one_or_none (select same s.live.entities))) [
        | inl e ↦
            subst IsMirrored (ground arith) (create-IsMirrored case_id created_by body b s fresh m)
        | inr (inl (c, e)) ↦ subst IsMirrored (ground arith) (
            raised_IsMirrored body.confidence b c s m
              (scalar-select (λ x. x.deleted_at ≡ none) same s.live.entities c (λ x t. ground arith)
                e)
              (found_same (λ x. x.id) same s.live.entities c m.unique_live e))
        | inr (inr (x, e)) ↦ subst IsMirrored (ground arith) m
      ]

  -- One call of the repository, whose UUID, where it draws one, is new.
  pub data Step (s : Session) : Session → Type 0 where
    create_step :
        (case_id : ℕ) (created_by : Option ℕ) (body : EntityCreate) (b : Bool)
        → All (λ e. e.id ≢ w.uuid4 s.ticks) s.live.entities
        → Step s (create w case_id created_by body b s).1
    update_step :
        (entity_id case_id : ℕ) (body : EntityUpdate) → Step s (update w entity_id case_id body s).1
    soft_delete_step : (entity_id case_id : ℕ) → Step s (soft_delete w entity_id case_id s).1
    get_or_create_step :
        (case_id : ℕ) (created_by : Option ℕ) (body : EntityCreate) (b : Bool)
        → All (λ e. e.id ≢ w.uuid4 s.ticks) s.live.entities
        → Step s (get_or_create w case_id created_by body b s).1

  pub data Reach (s : Session) : Session → Type 0 where
    here : Reach s s
    next : {t u : Session} → Reach s t → Step t u → Reach s u

  Step-IsMirrored : {s t : Session} → Step s t → IsMirrored s → IsMirrored t
  Step-IsMirrored {s} (create_step case_id created_by body b f) m =
      create-IsMirrored case_id created_by body b s f m
  Step-IsMirrored {s} (update_step entity_id case_id body) m =
      update-IsMirrored entity_id case_id body s m
  Step-IsMirrored {s} (soft_delete_step entity_id case_id) m =
      soft_delete-IsMirrored entity_id case_id s m
  Step-IsMirrored {s} (get_or_create_step case_id created_by body b f) m =
      get_or_create-IsMirrored case_id created_by body b s f m

  -- However the repository's calls follow one another, and whichever of them raise or leave the
  -- commit to their caller, each with a UUID that is new: if the entity rows were in step with the
  -- graph, they still are, both inside the transaction and in what is committed.
  pub Reach-IsMirrored : (s t : Session) → IsMirrored s → Reach s t → IsMirrored t
  Reach-IsMirrored s t m here = m
  Reach-IsMirrored s t m (next r st) = Step-IsMirrored st (Reach-IsMirrored s _ m r)
