-- ===== src/Relationships.antt =====
-- src/sleuthgraph/relationships: the relationship repository and the handlers of its router.
pub mod Outcomes
pub mod Endpoints
pub mod Dedup
mod Tests
use sleuthgraph_api.Base.{
  ℕ, ◌+◌, ◌≡◌, String, Bool, true, false, ◌&&◌, ◌||◌, not, Option, none, some, List, [], ◌∷◌, ◌++◌,
  ◌==◌, if◌then◌else◌, str_eq, is_none, any, map,
}
use sleuthgraph_api.Errors.{Error, Result, ok, err, endpoint_not_in_case, http_exception}
use sleuthgraph_api.Graph.Json.{Fields}
use sleuthgraph_api.Model.{Session, World, Db, Entity, Relationship}
use sleuthgraph_api.Sql.{select, scalar_one_or_none, update_where, page, order_desc}
use sleuthgraph_api.Action.{
  Action, pure, raise, lift, gets, draw, or_raise, modify, commit, commit_if, raise_if, in_session,
  or_rollback, guard_page, ◌>>=◌, ◌>>◌,
}
use sleuthgraph_api.Graph.Age.{upsert_edge, delete_edge}
use sleuthgraph_api.Cases.{verify_case_ownership}

-- relationships/types.py
pub data RelationshipType : Type 0 where
  owns employed_by registered_by hosted_on resolves_to associated_with : RelationshipType
  communicated_with mentions subdomain_of : RelationshipType

-- the enum's values
unfoldable pub rel_value : RelationshipType → String
rel_value RelationshipType.owns = "OWNS"
rel_value RelationshipType.employed_by = "EMPLOYED_BY"
rel_value RelationshipType.registered_by = "REGISTERED_BY"
rel_value RelationshipType.hosted_on = "HOSTED_ON"
rel_value RelationshipType.resolves_to = "RESOLVES_TO"
rel_value RelationshipType.associated_with = "ASSOCIATED_WITH"
rel_value RelationshipType.communicated_with = "COMMUNICATED_WITH"
rel_value RelationshipType.mentions = "MENTIONS"
rel_value RelationshipType.subdomain_of = "SUBDOMAIN_OF"

-- A validated `RelationshipCreate`.
pub record RelationshipCreate : Type 0 where
  pub src_entity_id : ℕ
  pub dst_entity_id : ℕ
  pub rel_type : RelationshipType
  pub confidence : ℕ
  pub source_plugin : Option String
  pub attrs : Fields

-- the WHERE of `RelationshipRepository.get`
abbrev pub rel_visible : ℕ → ℕ → Relationship → Bool
rel_visible rel_id case_id r = r.id == rel_id && r.case_id == case_id && is_none r.deleted_at

-- the WHERE of `create_if_not_exists`
abbrev pub rel_same : ℕ → RelationshipCreate → Relationship → Bool
rel_same case_id body r =
    r.case_id == case_id
    && r.src_entity_id == body.src_entity_id
    && r.dst_entity_id == body.dst_entity_id
    && str_eq r.rel_type (rel_value body.rel_type)
    && is_none r.deleted_at

-- `if rel_type: …`, `if src: …`, `if dst: …`; no UUID is false.
abbrev pub filter_type : Option String → Relationship → Bool
filter_type none r = true
filter_type (some t) r = str_eq t "" || str_eq r.rel_type t

abbrev pub filter_id : Option ℕ → ℕ → Bool
filter_id none id = true
filter_id (some k) id = id == k

abbrev pub rel_listed : ℕ → Option String → Option ℕ → Option ℕ → Relationship → Bool
rel_listed case_id rel_type src dst r =
    r.case_id == case_id
    && is_none r.deleted_at
    && filter_type rel_type r
    && filter_id src r.src_entity_id
    && filter_id dst r.dst_entity_id

-- the WHERE of `_assert_endpoints_in_case`
abbrev pub is_endpoint : ℕ → ℕ → ℕ → Entity → Bool
is_endpoint case_id src_id dst_id e =
    e.case_id == case_id && (e.id == src_id || e.id == dst_id) && is_none e.deleted_at

-- `expected - set(rows)` is empty
abbrev pub both_in : ℕ → ℕ → List Entity → Bool
both_in src_id dst_id rows = any (λ e. e.id == src_id) rows && any (λ e. e.id == dst_id) rows

abbrev pub set_relationships : List Relationship → Db → Db
set_relationships rows db = record db { relationships = rows }

abbrev pub update_rel_row : ℕ → (Relationship → Relationship) → Action (Unit {0})
update_rel_row id f =
    modify λ db. set_relationships (update_where (λ r. r.id == id) f db.relationships) db

-- `_assert_endpoints_in_case`
unfoldable pub assert_endpoints_in_case : ℕ → ℕ → ℕ → Action (Unit {0})
assert_endpoints_in_case case_id src_id dst_id = do
  rows ← gets (λ s. select (is_endpoint case_id src_id dst_id) s.live.entities)
  raise_if (not (both_in src_id dst_id rows)) endpoint_not_in_case

-- `RelationshipRepository.get`
unfoldable pub get : ℕ → ℕ → Action (Option Relationship)
get rel_id case_id s =
    (scalar_one_or_none (select (rel_visible rel_id case_id) s.live.relationships), s)

-- `RelationshipRepository.list_for_case`
unfoldable pub list_for_case :
    ℕ → Option String → Option ℕ → Option ℕ → ℕ → ℕ → Action (List Relationship)
list_for_case case_id rel_type src dst limit offset = gets λ s. page limit offset (
    order_desc (λ r. r.created_at)
      (select (rel_listed case_id rel_type src dst) s.live.relationships))

module _ (w : World) where
  -- the part of `create` after the check
  pub insert_rel : ℕ → Option ℕ → RelationshipCreate → Bool → Action Relationship
  unfolding rel_value
  insert_rel case_id created_by body do_commit = do
    id ← draw w.uuid4
    now ← draw w.now
    let rel : Relationship = record {
      id = id;
      case_id = case_id;
      src_entity_id = body.src_entity_id;
      dst_entity_id = body.dst_entity_id;
      rel_type = rel_value body.rel_type;
      confidence = body.confidence;
      source_plugin = body.source_plugin;
      attrs = body.attrs;
      created_by = created_by;
      created_at = now;
      deleted_at = none;
    }
    modify (λ db. set_relationships (db.relationships ++ rel ∷ []) db)
    or_rollback (do upsert_edge w rel; commit_if do_commit)
    pure rel

  -- `RelationshipRepository.create`
  unfoldable pub create : ℕ → Option ℕ → RelationshipCreate → Bool → Action Relationship
  unfolding assert_endpoints_in_case insert_rel
  create case_id created_by body do_commit = do
    assert_endpoints_in_case case_id body.src_entity_id body.dst_entity_id
    insert_rel case_id created_by body do_commit

  unfoldable pub create_unless :
      ℕ → Option ℕ → RelationshipCreate → Bool → Option Relationship → Action (Relationship × Bool)
  unfolding create
  create_unless case_id created_by body do_commit (some existing) = pure (existing, false)
  create_unless case_id created_by body do_commit none = do
    rel ← create case_id created_by body do_commit
    pure (rel, true)

  -- `RelationshipRepository.create_if_not_exists`
  unfoldable pub create_if_not_exists :
      ℕ → Option ℕ → RelationshipCreate → Bool → Action (Relationship × Bool)
  unfolding create_unless rel_value
  create_if_not_exists case_id created_by body do_commit = do
    rows ← gets (λ s. select (rel_same case_id body) s.live.relationships)
    existing ← lift (scalar_one_or_none rows)
    create_unless case_id created_by body do_commit existing

  pub delete_found : Option Relationship → Action Bool
  delete_found none = pure false
  delete_found (some rel) = do
    now ← draw w.now
    update_rel_row rel.id (λ r. record r { deleted_at = some now })
    or_rollback (do delete_edge w rel.id; commit)
    pure true

  -- `RelationshipRepository.soft_delete`
  unfoldable pub soft_delete : ℕ → ℕ → Action Bool
  unfolding get delete_found
  soft_delete rel_id case_id = do rel ← get rel_id case_id; delete_found rel

  -- `except EndpointNotInCaseError: raise HTTPException(400)`
  abbrev endpoint_error : Result Relationship → Result Relationship
  endpoint_error (ok r) = ok r
  endpoint_error (err endpoint_not_in_case) = err (http_exception 400)
  endpoint_error (err e) = err e

  -- POST /cases/{case_id}/relationships
  unfoldable pub create_relationship : ℕ → ℕ → RelationshipCreate → Action Relationship
  unfolding create
  create_relationship user case_id body = in_session (do
    verify_case_ownership case_id user
    λ s. let (r, t) = create case_id (some user) body true s in (endpoint_error r, t))

  -- DELETE /cases/{case_id}/relationships/{rel_id}
  unfoldable pub delete_relationship : ℕ → ℕ → ℕ → Action (Unit {0})
  unfolding soft_delete
  delete_relationship user case_id rel_id = in_session (do
    verify_case_ownership case_id user
    done ← soft_delete rel_id case_id
    raise_if (not done) (http_exception 404))

-- GET /cases/{case_id}/relationships
unfoldable pub list_relationships :
    ℕ → ℕ → Option String → Option ℕ → Option ℕ → ℕ → ℕ → Action (List Relationship)
unfolding list_for_case
list_relationships user case_id rel_type src dst limit offset = in_session (do
  guard_page limit
  verify_case_ownership case_id user
  list_for_case case_id rel_type src dst limit offset)

-- GET /cases/{case_id}/relationships/{rel_id}
unfoldable pub get_relationship : ℕ → ℕ → ℕ → Action Relationship
unfolding get
get_relationship user case_id rel_id = in_session (do
  verify_case_ownership case_id user
  found ← get rel_id case_id
  or_raise found (http_exception 404))
