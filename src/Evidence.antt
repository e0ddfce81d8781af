-- ===== src/Evidence.antt =====
-- src/sleuthgraph/evidence: the object storage facade, the append-only repository, the integrity
-- sweep, and the handlers of the router.
pub mod Export
pub mod Store
pub mod Recorded
pub mod Custody
pub mod Upload
mod Tests
use sleuthgraph_api.Base.{
  ℕ, suc, ◌+◌, ◌≡◌, String, Bool, true, false, ◌&&◌, not, Option, none, some, List, [], ◌∷◌, ◌++◌,
  ◌==◌, if◌then◌else◌, str_eq, opt_is, is_none, ltb, length, take, map,
}
use sleuthgraph_api.Base.Text.{Text, codes, text_eq}
use sleuthgraph_api.Errors.{Error, Result, ok, err, storage_failed, http_exception}
use sleuthgraph_api.Graph.Json.{Fields}
use sleuthgraph_api.Model.{
  Session, World, Db, Evidence, BlobPut, Head, content_length, not_found, head_refused,
}
use sleuthgraph_api.Sql.{select, scalar_one_or_none, page, order_desc, order_asc}
use sleuthgraph_api.Action.{
  Action, pure, raise, lift, gets, draw, or_raise, modify, commit, commit_if, raise_if, in_session,
  or_rollback, guard_page, ◌>>=◌, ◌>>◌,
}
use sleuthgraph_api.Cases.{verify_case_ownership}

-- A validated `EvidenceCreate`.
pub record EvidenceCreate : Type 0 where
  pub entity_id : Option ℕ
  pub source_plugin : String
  pub query : String
  pub reproducibility_spec : Fields

-- `HashMismatch`
pub record HashMismatch : Type 0 where
  pub ev_id : ℕ
  pub case_id : ℕ
  pub expected : Text
  pub actual : Text

-- What POST …/verify returns.
pub record VerifyReply : Type 0 where
  pub verified : Bool
  pub expected : Text
  pub actual : Text

-- `f"case/{case_id}/ev/{sha256_hex}"`
unfoldable pub build_key : Text → Text → Text
build_key case_id sha256_hex = codes "case/" ++ (case_id ++ (codes "/ev/" ++ sha256_hex))

-- `content_type or "application/octet-stream"`
abbrev pub content_type_or_default : Option String → String
content_type_or_default none = "application/octet-stream"
content_type_or_default (some t) = if str_eq t "" then "application/octet-stream" else t

abbrev pub ev_visible : ℕ → ℕ → Evidence → Bool
ev_visible ev_id case_id ev = ev.id == ev_id && ev.case_id == case_id

abbrev filter_entity : Option ℕ → Option ℕ → Bool
filter_entity none e = true
filter_entity (some k) e = opt_is e k

abbrev filter_plugin : Option String → String → Bool
filter_plugin none p = true
filter_plugin (some q) p = str_eq p q

abbrev pub ev_listed : ℕ → Option ℕ → Option String → Evidence → Bool
ev_listed case_id entity_id source_plugin ev =
    ev.case_id == case_id
    && filter_entity entity_id ev.entity_id
    && filter_plugin source_plugin ev.source_plugin

-- `EvidenceRepository.get`
unfoldable pub get : ℕ → ℕ → Action (Option Evidence)
get ev_id case_id s = (scalar_one_or_none (select (ev_visible ev_id case_id) s.live.evidence), s)

-- `EvidenceRepository.list_for_case`: the page and the count of all rows that pass.
unfoldable pub list_for_case : ℕ → Option ℕ → Option String → ℕ → ℕ → Action (List Evidence × ℕ)
list_for_case case_id entity_id source_plugin limit offset = gets λ s.
    let rows = select (ev_listed case_id entity_id source_plugin) s.live.evidence in
    (page limit offset (order_desc (λ ev. ev.timestamp) rows), length rows)

module _ (w : World) where
  put_object : BlobPut → Action (Unit {0})
  put_object p s =
      if w.put_accepts s.blobs p
      then (ok tt, record s { blobs = s.blobs ++ p ∷ [] })
      else (err storage_failed, s)

  put_after_head : BlobPut → Head → Action (Unit {0})
  unfolding put_object
  put_after_head p (content_length n) = if n == length p.body then pure tt else put_object p
  put_after_head p not_found = put_object p
  put_after_head p head_refused = raise storage_failed

  -- `EvidenceStorage.put`: an object of the same size counts as present.
  unfoldable pub put : Text → List ℕ → String → Action (Unit {0})
  unfolding put_after_head
  put key body content_type s =
      put_after_head (record { key = key; body = body; content_type = content_type })
        (w.head_object s.blobs key) s

  -- `EvidenceStorage.get`
  pub get_blob : Text → Action (List ℕ)
  get_blob key s = elim (w.get_object s.blobs key) [
    | some b ↦ (ok b, s)
    | none ↦ (err storage_failed, s)
  ]

  -- `EvidenceRepository.create`
  unfoldable pub create :
      ℕ → Option ℕ → EvidenceCreate → List ℕ → Option String → Bool → Action Evidence
  create case_id created_by meta payload content_type do_commit = do
    id ← draw w.uuid4
    now ← draw w.now
    let response_hash : Text = w.sha256_hex payload
    let evidence : Evidence = record {
      id = id;
      case_id = case_id;
      entity_id = meta.entity_id;
      source_plugin = meta.source_plugin;
      query = meta.query;
      response_hash = response_hash;
      response_uri = build_key (w.str_uuid case_id) response_hash;
      response_bytes = length payload;
      response_content_type = some (content_type_or_default content_type);
      timestamp = now;
      reproducibility_spec = meta.reproducibility_spec;
      created_by = created_by;
    }
    modify (λ db. record db { evidence = db.evidence ++ evidence ∷ [] })
    or_rollback (do
      put evidence.response_uri payload (content_type_or_default content_type)
      commit_if do_commit)
    pure evidence

  -- `verify_single`
  unfoldable pub verify_single : Evidence → Action (Option HashMismatch)
  unfolding get_blob
  verify_single ev = do
    blob ← get_blob ev.response_uri
    let actual : Text = w.sha256_hex blob
    pure (
        if text_eq actual ev.response_hash
        then none
        else some (record {
          ev_id = ev.id;
          case_id = ev.case_id;
          expected = ev.response_hash;
          actual = actual;
        }))

  abbrev add_mismatch : Option HashMismatch → List HashMismatch → List HashMismatch
  add_mismatch none ms = ms
  add_mismatch (some m) ms = m ∷ ms

  -- the loop of `sweep_all`
  pub sweep : List Evidence → Action (List HashMismatch)
  sweep [] = pure []
  sweep (ev ∷ evs) = do
    mismatch ← verify_single ev
    rest ← sweep evs
    pure (add_mismatch mismatch rest)

  -- `sweep_all`
  unfoldable pub sweep_all : Action (List HashMismatch)
  unfolding sweep
  sweep_all s = sweep (order_asc (λ ev. ev.timestamp) s.live.evidence) s

  -- POST /cases/{case_id}/evidence. `metadata` is what the JSON form field parses to, `file` the
  -- bytes of the uploaded part, and `max_bytes` the configured cap.
  unfoldable pub create_evidence :
      ℕ → ℕ → ℕ → Option EvidenceCreate → List ℕ → Option String → Action Evidence
  create_evidence max_bytes user case_id metadata file content_type = in_session (do
    verify_case_ownership case_id user
    meta ← or_raise metadata (http_exception 422)
    let payload : List ℕ = take (max_bytes + 1) file
    raise_if (ltb max_bytes (length payload)) (http_exception 413)
    create case_id (some user) meta payload content_type true)

  -- POST /cases/{case_id}/evidence/{ev_id}/verify
  unfoldable pub verify_evidence_hash : ℕ → ℕ → ℕ → Action VerifyReply
  unfolding get get_blob
  verify_evidence_hash user case_id ev_id = in_session (do
    verify_case_ownership case_id user
    found ← get ev_id case_id
    ev ← or_raise found (http_exception 404)
    blob ← get_blob ev.response_uri
    let actual : Text = w.sha256_hex blob
    pure (record {
      verified = text_eq actual ev.response_hash;
      expected = ev.response_hash;
      actual = actual;
    }))

-- GET /cases/{case_id}/evidence
unfoldable pub list_evidence : ℕ → ℕ → Option ℕ → Option String → ℕ → ℕ → Action (List Evidence × ℕ)
unfolding list_for_case
list_evidence user case_id entity_id source_plugin limit offset = in_session (do
  guard_page limit
  verify_case_ownership case_id user
  list_for_case case_id entity_id source_plugin limit offset)

-- GET /cases/{case_id}/evidence/{ev_id}
unfoldable pub get_evidence : ℕ → ℕ → ℕ → Action Evidence
unfolding get
get_evidence user case_id ev_id = in_session (do
  verify_case_ownership case_id user
  found ← get ev_id case_id
  or_raise found (http_exception 404))

-- GET /cases/{case_id}/evidence/{ev_id}/blob: a redirect to the URL that the store presigns for the
-- configured time
unfoldable pub get_evidence_blob : (Text → ℕ → Result Text) → ℕ → ℕ → ℕ → ℕ → Action Text
unfolding get
get_evidence_blob presign_get ttl user case_id ev_id = in_session (do
  verify_case_ownership case_id user
  found ← get ev_id case_id
  ev ← or_raise found (http_exception 404)
  lift (presign_get ev.response_uri ttl))
