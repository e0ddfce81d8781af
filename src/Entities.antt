-- ===== src/Entities.antt =====
-- src/sleuthgraph/entities: the entity repository, which mirrors each write to the graph, and the
-- handlers of its router.
pub mod Domain
pub mod Outcomes
pub mod Vertex
pub mod Mirror
pub mod Dedup
mod Tests
use sleuthgraph_api.Base.{
  ℕ, ◌+◌, ◌≡◌, String, Bool, true, false, ◌&&◌, ◌||◌, not, Option, none, some, List, [], ◌∷◌, ◌++◌,
  ◌==◌, if◌then◌else◌, str_eq, opt_is, is_none, leb, ltb, map,
}
use sleuthgraph_api.Errors.{Error, Result, ok, err, response_invalid, http_exception}
use sleuthgraph_api.Graph.Json.{Fields}
use sleuthgraph_api.Model.{Session, World, Db, Entity}
use sleuthgraph_api.Sql.{select, scalar_one_or_none, update_where, page, order_desc}
use sleuthgraph_api.Action.{
  Action, pure, raise, lift, gets, draw, or_raise, modify, commit, commit_if, raise_if, refuse_null,
  in_session, or_rollback, Patch, patched, patched_null, is_null, guard_page, ◌>>=◌, ◌>>◌,
}
use sleuthgraph_api.Graph.Age.{upsert_vertex, delete_vertex}
use sleuthgraph_api.Cases.{verify_case_ownership}
use Domain.{is_idn_domain}

-- entities/types.py
pub data EntityType : Type 0 where
  person organization domain ip_address email phone url crypto_address : EntityType

-- the enum's values
unfoldable pub type_value : EntityType → String
type_value EntityType.person = "PERSON"
type_value EntityType.organization = "ORGANIZATION"
type_value EntityType.domain = "DOMAIN"
type_value EntityType.ip_address = "IP_ADDRESS"
type_value EntityType.email = "EMAIL"
type_value EntityType.phone = "PHONE"
type_value EntityType.url = "URL"
type_value EntityType.crypto_address = "CRYPTO_ADDRESS"

-- A validated `EntityCreate`.
pub record EntityCreate : Type 0 where
  pub type : EntityType
  pub label : String
  pub attrs : Fields
  pub confidence : ℕ

-- The set fields of an `EntityUpdate`.
pub record EntityUpdate : Type 0 where
  pub label : Patch String
  pub attrs : Patch Fields
  pub confidence : Patch ℕ

pub record EntityRead : Type 0 where
  pub id : ℕ
  pub case_id : ℕ
  pub type : String
  pub label : String
  pub attrs : Fields
  pub confidence : ℕ
  pub created_by : Option ℕ
  pub created_at : ℕ
  pub is_idn : Bool

-- the WHERE of `EntityRepository.get`
abbrev pub entity_visible : ℕ → ℕ → Entity → Bool
entity_visible entity_id case_id e =
    e.id == entity_id && e.case_id == case_id && is_none e.deleted_at

abbrev pub entity_listed : ℕ → Option String → Entity → Bool
entity_listed case_id none e = e.case_id == case_id && is_none e.deleted_at
entity_listed case_id (some type) e =
    e.case_id == case_id && is_none e.deleted_at && (str_eq type "" || str_eq e.type type)

-- the WHERE of `get_or_create`
abbrev pub entity_same : ℕ → String → String → Entity → Bool
entity_same case_id type label e =
    e.case_id == case_id && str_eq e.type type && str_eq e.label label && is_none e.deleted_at

abbrev pub set_entities : List Entity → Db → Db
set_entities rows db = record db { entities = rows }

abbrev pub update_entity_row : ℕ → (Entity → Entity) → Action (Unit {0})
update_entity_row id f = modify λ db. set_entities (update_where (λ e. e.id == id) f db.entities) db

abbrev pub apply_entity_update : EntityUpdate → Entity → Entity
apply_entity_update body e = record e {
  label = patched body.label e.label;
  attrs = patched_null body.attrs e.attrs;
  confidence = patched body.confidence e.confidence;
}

abbrev read_attrs : Option Fields → Result Fields
read_attrs none = err response_invalid
read_attrs (some fs) = ok fs

-- `EntityRead.model_validate(entity)`, with its computed field `is_idn`
pub entity_read : Entity → Result EntityRead
entity_read e = elim (read_attrs e.attrs) [
  | ok attrs ↦ ok (record {
    id = e.id;
    case_id = e.case_id;
    type = e.type;
    label = e.label;
    attrs = attrs;
    confidence = e.confidence;
    created_by = e.created_by;
    created_at = e.created_at;
    is_idn = if str_eq e.type "DOMAIN" then is_idn_domain e.label else false;
  })
  | err x ↦ err x
]

pub read_entities : List Entity → Result (List EntityRead)
unfolding entity_read
read_entities [] = ok []
read_entities (e ∷ es) = elim (entity_read e) [
  | ok x ↦ (elim (read_entities es) [ ok xs ↦ ok (x ∷ xs) | err k ↦ err k ])
  | err k ↦ err k
]

-- `EntityRepository.get`
unfoldable pub get : ℕ → ℕ → Action (Option Entity)
get entity_id case_id s =
    (scalar_one_or_none (select (entity_visible entity_id case_id) s.live.entities), s)

-- `EntityRepository.list_for_case`
unfoldable pub list_for_case : ℕ → Option String → ℕ → ℕ → Action (List Entity)
list_for_case case_id type limit offset = gets λ s.
    page limit offset
      (order_desc (λ e. e.created_at) (select (entity_listed case_id type) s.live.entities))

module _ (w : World) where
  -- `EntityRepository.create`
  unfoldable pub create : ℕ → Option ℕ → EntityCreate → Bool → Action Entity
  unfolding type_value
  create case_id created_by body do_commit = do
    id ← draw w.uuid4
    now ← draw w.now
    let entity : Entity = record {
      id = id;
      case_id = case_id;
      type = type_value body.type;
      label = body.label;
      attrs = some body.attrs;
      confidence = body.confidence;
      created_by = created_by;
      created_at = now;
      deleted_at = none;
    }
    modify (λ db. set_entities (db.entities ++ entity ∷ []) db)
    or_rollback (do upsert_vertex w entity; commit_if do_commit)
    pure entity

  pub update_found : EntityUpdate → Option Entity → Action (Option Entity)
  update_found body none = pure none
  update_found body (some entity) = do
    refuse_null (is_null body.label || is_null body.confidence)
    update_entity_row entity.id (apply_entity_update body)
    or_rollback (do upsert_vertex w (apply_entity_update body entity); commit)
    pure (some (apply_entity_update body entity))

  -- `EntityRepository.update`
  unfoldable pub update : ℕ → ℕ → EntityUpdate → Action (Option Entity)
  unfolding get update_found
  update entity_id case_id body = do entity ← get entity_id case_id; update_found body entity

  pub delete_found : Option Entity → Action Bool
  delete_found none = pure false
  delete_found (some entity) = do
    now ← draw w.now
    update_entity_row entity.id (λ e. record e { deleted_at = some now })
    or_rollback (do delete_vertex w entity.id; commit)
    pure true

  -- `EntityRepository.soft_delete`
  unfoldable pub soft_delete : ℕ → ℕ → Action Bool
  unfolding get delete_found
  soft_delete entity_id case_id = do entity ← get entity_id case_id; delete_found entity

  -- `if data.confidence > existing.confidence: …`
  unfoldable pub raise_confidence : ℕ → Entity → Bool → Action Entity
  raise_confidence confidence existing do_commit =
      if ltb existing.confidence confidence
      then (do
        let raised : Entity = record existing { confidence = confidence }
        update_entity_row existing.id (λ e. record e { confidence = confidence })
        or_rollback (do upsert_vertex w raised; commit_if do_commit)
        pure raised)
      else pure existing

  unfoldable pub create_or_raise :
      ℕ → Option ℕ → EntityCreate → Bool → Option Entity → Action (Entity × Bool)
  unfolding create raise_confidence
  create_or_raise case_id created_by body do_commit none = do
    entity ← create case_id created_by body do_commit
    pure (entity, true)
  create_or_raise case_id created_by body do_commit (some existing) = do
    entity ← raise_confidence body.confidence existing do_commit
    pure (entity, false)

  -- `EntityRepository.get_or_create`
  unfoldable pub get_or_create : ℕ → Option ℕ → EntityCreate → Bool → Action (Entity × Bool)
  unfolding create_or_raise type_value
  get_or_create case_id created_by body do_commit = do
    rows ←
        gets (λ s. select (entity_same case_id (type_value body.type) body.label) s.live.entities)
    existing ← lift (scalar_one_or_none rows)
    create_or_raise case_id created_by body do_commit existing

  -- POST /cases/{case_id}/entities
  unfoldable pub create_entity : ℕ → ℕ → EntityCreate → Action EntityRead
  unfolding create entity_read
  create_entity user case_id body = in_session (do
    verify_case_ownership case_id user
    entity ← create case_id (some user) body true
    lift (entity_read entity))

  -- PATCH /cases/{case_id}/entities/{entity_id}
  unfoldable pub update_entity : ℕ → ℕ → ℕ → EntityUpdate → Action EntityRead
  unfolding update entity_read
  update_entity user case_id entity_id body = in_session (do
    verify_case_ownership case_id user
    found ← update entity_id case_id body
    entity ← or_raise found (http_exception 404)
    lift (entity_read entity))

  -- DELETE /cases/{case_id}/entities/{entity_id}
  unfoldable pub delete_entity : ℕ → ℕ → ℕ → Action (Unit {0})
  unfolding soft_delete
  delete_entity user case_id entity_id = in_session (do
    verify_case_ownership case_id user
    done ← soft_delete entity_id case_id
    raise_if (not done) (http_exception 404))

-- GET /cases/{case_id}/entities
unfoldable pub list_entities : ℕ → ℕ → Option String → ℕ → ℕ → Action (List EntityRead)
unfolding list_for_case read_entities
list_entities user case_id type limit offset = in_session (do
  guard_page limit
  verify_case_ownership case_id user
  items ← list_for_case case_id type limit offset
  lift (read_entities items))

-- GET /cases/{case_id}/entities/{entity_id}
unfoldable pub get_entity : ℕ → ℕ → ℕ → Action EntityRead
unfolding get entity_read
get_entity user case_id entity_id = in_session (do
  verify_case_ownership case_id user
  found ← get entity_id case_id
  entity ← or_raise found (http_exception 404)
  lift (entity_read entity))
