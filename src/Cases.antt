-- ===== src/Cases.antt =====
-- src/sleuthgraph/cases: the case repository and the handlers of its router.
pub mod Ownership
mod Tests
use sleuthgraph_api.Base.{
  ℕ, ◌≡◌, String, Bool, true, false, ◌&&◌, ◌||◌, not, Option, none, some, List, [], ◌∷◌, ◌++◌, ◌==◌,
  if◌then◌else◌, str_eq, opt_is, is_none, leb, map,
}
use sleuthgraph_api.Errors.{Error, Result, ok, err, response_invalid, http_exception}
use sleuthgraph_api.Model.{Session, World, Db, Case}
use sleuthgraph_api.Sql.{select, scalar_one_or_none, update_where, page, order_desc}
use sleuthgraph_api.Action.{
  Action, pure, raise, lift, gets, draw, or_raise, modify, commit, raise_if, refuse_null,
  in_session, Patch, patched, patched_null, is_null, guard_page, ◌>>=◌, ◌>>◌,
}

pub record CaseCreate : Type 0 where
  pub name : String
  pub tags : List String

-- The fields of `CaseUpdate.model_dump(exclude_unset=True)`.
pub record CaseUpdate : Type 0 where
  pub name : Patch String
  pub status : Patch String
  pub tags : Patch (List String)

-- `CaseRead` takes the row as it is, but wants a list for `tags`.
pub record CaseRead : Type 0 where
  pub id : ℕ
  pub owner_id : Option ℕ
  pub name : String
  pub status : String
  pub tags : List String
  pub created_at : ℕ

-- the WHERE of `CaseRepository.get`
abbrev pub case_visible : ℕ → ℕ → Case → Bool
case_visible case_id owner_id c =
    c.id == case_id && opt_is c.owner_id owner_id && is_none c.deleted_at

-- `if status: q = q.where(…)`; an empty string is no filter.
abbrev pub case_listed : ℕ → Option String → Case → Bool
case_listed owner_id none c = opt_is c.owner_id owner_id && is_none c.deleted_at
case_listed owner_id (some status) c =
    opt_is c.owner_id owner_id
    && is_none c.deleted_at
    && (str_eq status "" || str_eq c.status status)

abbrev pub set_cases : List Case → Db → Db
set_cases rows db = record db { cases = rows }

-- `Model.query … WHERE id = row.id`, as the unit of work writes a changed row
abbrev pub update_case_row : ℕ → (Case → Case) → Action (Unit {0})
update_case_row id f = modify λ db. set_cases (update_where (λ c. c.id == id) f db.cases) db

abbrev pub apply_case_update : CaseUpdate → Case → Case
apply_case_update body c = record c {
  name = patched body.name c.name;
  status = patched body.status c.status;
  tags = patched_null body.tags c.tags;
}

abbrev pub read_tags : Option (List String) → Result (List String)
read_tags none = err response_invalid
read_tags (some tags) = ok tags

-- `CaseRead.model_validate(case)`
pub case_read : Case → Result CaseRead
case_read c = elim (read_tags c.tags) [
  | ok tags ↦ ok (record {
    id = c.id;
    owner_id = c.owner_id;
    name = c.name;
    status = c.status;
    tags = tags;
    created_at = c.created_at;
  })
  | err e ↦ err e
]

pub read_all : List Case → Result (List CaseRead)
unfolding case_read
read_all [] = ok []
read_all (c ∷ cs) = elim (case_read c) [
  | ok x ↦ (elim (read_all cs) [ ok xs ↦ ok (x ∷ xs) | err e ↦ err e ])
  | err e ↦ err e
]

-- `CaseRepository.get`
unfoldable pub get : ℕ → ℕ → Action (Option Case)
get case_id owner_id s =
    (scalar_one_or_none (select (case_visible case_id owner_id) s.live.cases), s)

-- `CaseRepository.list_for_owner`
pub list_for_owner : ℕ → Option String → ℕ → ℕ → Action (List Case)
unfolding order_desc
list_for_owner owner_id status limit offset = gets λ s.
    page limit offset
      (order_desc (λ c. c.created_at) (select (case_listed owner_id status) s.live.cases))

pub update_found : CaseUpdate → Option Case → Action (Option Case)
update_found body none = pure none
update_found body (some case) = do
  refuse_null (is_null body.name || is_null body.status)
  update_case_row case.id (apply_case_update body)
  commit
  pure (some (apply_case_update body case))

-- `CaseRepository.update`
pub update : ℕ → ℕ → CaseUpdate → Action (Option Case)
unfolding get update_found
update case_id owner_id body = do case ← get case_id owner_id; update_found body case

module _ (w : World) where
  -- `CaseRepository.create`
  pub create : ℕ → CaseCreate → Action Case
  create owner_id body = do
    id ← draw w.uuid4
    now ← draw w.now
    let case : Case = record {
      id = id;
      owner_id = some owner_id;
      name = body.name;
      status = "active";
      tags = some body.tags;
      created_at = now;
      deleted_at = none;
    }
    modify (λ db. set_cases (db.cases ++ case ∷ []) db)
    commit
    pure case

  pub delete_found : Option Case → Action Bool
  delete_found none = pure false
  delete_found (some case) = do
    now ← draw w.now
    update_case_row case.id (λ c. record c { deleted_at = some now })
    commit
    pure true

  -- `CaseRepository.soft_delete`
  pub soft_delete : ℕ → ℕ → Action Bool
  unfolding get delete_found
  soft_delete case_id owner_id = do case ← get case_id owner_id; delete_found case

  -- POST /cases
  pub create_case : ℕ → CaseCreate → Action CaseRead
  unfolding create case_read
  create_case user body = in_session (do case ← create user body; lift (case_read case))

  -- DELETE /cases/{case_id}
  pub delete_case : ℕ → ℕ → Action (Unit {0})
  unfolding soft_delete
  delete_case user case_id =
      in_session (do done ← soft_delete case_id user; raise_if (not done) (http_exception 404))

-- GET /cases
pub list_cases : ℕ → Option String → ℕ → ℕ → Action (List CaseRead)
unfolding list_for_owner read_all
list_cases user status limit offset =
    in_session
      (do guard_page limit; items ← list_for_owner user status limit offset; lift (read_all items))

-- GET /cases/{case_id}
pub get_case : ℕ → ℕ → Action CaseRead
unfolding get case_read
get_case user case_id =
    in_session (do
      found ← get case_id user
      case ← or_raise found (http_exception 404)
      lift (case_read case))

-- PATCH /cases/{case_id}
pub update_case : ℕ → ℕ → CaseUpdate → Action CaseRead
unfolding update case_read
update_case user case_id body = in_session (do
  found ← update case_id user body
  case ← or_raise found (http_exception 404)
  lift (case_read case))

-- `_verify_case_ownership` of the entity, relationship, evidence and plugin routers
unfoldable pub verify_case_ownership : ℕ → ℕ → Action (Unit {0})
unfolding get
verify_case_ownership case_id user = do
  found ← get case_id user
  raise_if (is_none found) (http_exception 404)
