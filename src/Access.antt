-- ===== src/Access.antt =====
-- The ownership check that the handlers under /cases/{case_id} begin with.
mod Tests
use sleuthgraph_api.Base.{
  ℕ, ◌≡◌, refl, String, Bool, true, false, Option, none, some, List, [], ◌∷◌, is_none, arith, leb,
  ◌&&◌,
}
use sleuthgraph_api.Errors.{Error, Result, ok, err, http_exception}
use sleuthgraph_api.Model.{Session, World, Db, Case, Evidence}
use sleuthgraph_api.Action.{Action, in_session, ◌>>◌}
use sleuthgraph_api.Cases.{get, verify_case_ownership}
use sleuthgraph_api.Entities.{
  EntityCreate, EntityUpdate, create_entity, update_entity, delete_entity, get_entity,
  list_entities,
}
use sleuthgraph_api.Relationships.{
  RelationshipCreate, create_relationship, delete_relationship, get_relationship,
  list_relationships,
}
use sleuthgraph_api.Evidence.{
  EvidenceCreate, create_evidence, verify_evidence_hash, get_evidence, list_evidence,
  get_evidence_blob,
}
use sleuthgraph_api.Base.Text.{Text}
use sleuthgraph_api.Licensing.{EditionProvider}
use sleuthgraph_api.Plugins.Base.{Plugin}
use sleuthgraph_api.Plugins.Dispatch.{run_plugin, get_run, list_runs}

-- The answer is 404, and nothing is written: not to the database and not to the object store.
abbrev pub Refused : {A : Type 0} → Action A → Session → Type 0
Refused m s = m s ≡ (err (http_exception 404), record s { live = s.committed })

not_found_verify :
    (user case_id : ℕ) (s : Session)
    → get case_id user s ≡ (ok none, s)
    → verify_case_ownership case_id user s ≡ (err (http_exception 404), s)
unfolding verify_case_ownership
not_found_verify user case_id s h = ground arith

-- What a request uploads, and the limit on it.
pub record Upload : Type 0 where
  pub max_bytes : ℕ
  pub metadata : Option EvidenceCreate
  pub file : List ℕ
  pub content_type : Option String

-- What a request lists: its filters and its page.
pub record Listing : Type 0 where
  pub first_filter : Option String
  pub second_filter : Option String
  pub source : Option ℕ
  pub target : Option ℕ
  pub limit : ℕ
  pub offset : ℕ

-- The limit is one that the handlers take.
abbrev pub IsPage : Listing → Type 0
IsPage l = (leb 1 l.limit && leb l.limit 200) ≡ true

module _ (w : World) (user case_id : ℕ) (s : Session) where
  abbrev pub EntitiesRefused : ℕ → EntityCreate → EntityUpdate → Listing → Type 0
  EntitiesRefused id body patch l =
      Refused (create_entity w user case_id body) s
      × Refused (get_entity user case_id id) s
      × Refused (update_entity w user case_id id patch) s
      × Refused (delete_entity w user case_id id) s
      × Refused (list_entities user case_id l.first_filter l.limit l.offset) s

  abbrev pub RelationshipsRefused : ℕ → RelationshipCreate → Listing → Type 0
  RelationshipsRefused id body l =
      Refused (create_relationship w user case_id body) s
      × Refused (get_relationship user case_id id) s
      × Refused (delete_relationship w user case_id id) s
      × Refused (list_relationships user case_id l.first_filter l.source l.target l.limit l.offset)
          s

  abbrev pub EvidenceRefused : ℕ → Upload → Listing → (Text → ℕ → Result Text) → ℕ → Type 0
  EvidenceRefused id u l presign_get ttl =
      Refused (create_evidence w u.max_bytes user case_id u.metadata u.file u.content_type) s
      × Refused (get_evidence user case_id id) s
      × Refused (verify_evidence_hash w user case_id id) s
      × Refused (list_evidence user case_id l.source l.first_filter l.limit l.offset) s
      × Refused (get_evidence_blob presign_get ttl user case_id id) s

  abbrev pub RunsRefused :
      ℕ → (ℕ → Bool) → EditionProvider → List Plugin → String → Listing → Type 0
  RunsRefused id enqueue_accepts provider registry plugin l =
      Refused (run_plugin w enqueue_accepts provider registry user case_id plugin id) s
      × Refused (get_run user case_id id) s
      × Refused (list_runs user case_id l.first_filter l.second_filter l.limit l.offset) s

  entity_handlers_Refused :
      (id : ℕ) (body : EntityCreate) (patch : EntityUpdate) (l : Listing)
      → IsPage l
      → get case_id user s ≡ (ok none, s)
      → EntitiesRefused id body patch l
  unfolding create_entity get_entity update_entity delete_entity list_entities
  entity_handlers_Refused id body patch l page h =
      let v = not_found_verify user case_id s h in
      (ground arith, ground arith, ground arith, ground arith, ground arith)

  relationship_handlers_Refused :
      (id : ℕ) (body : RelationshipCreate) (l : Listing)
      → IsPage l
      → get case_id user s ≡ (ok none, s)
      → RelationshipsRefused id body l
  unfolding create_relationship get_relationship delete_relationship list_relationships
  relationship_handlers_Refused id body l page h =
      let v = not_found_verify user case_id s h in
      (ground arith, ground arith, ground arith, ground arith)

  evidence_handlers_Refused :
      (id : ℕ) (upload : Upload) (l : Listing) (presign_get : Text → ℕ → Result Text) (ttl : ℕ)
      → IsPage l
      → get case_id user s ≡ (ok none, s)
      → EvidenceRefused id upload l presign_get ttl
  unfolding create_evidence get_evidence verify_evidence_hash list_evidence get_evidence_blob
  evidence_handlers_Refused id upload l presign_get ttl page h =
      let v = not_found_verify user case_id s h in
      (ground arith, ground arith, ground arith, ground arith, ground arith)

  run_handlers_Refused :
      (id : ℕ) (enqueue_accepts : ℕ → Bool) (provider : EditionProvider) (registry : List Plugin)
      (plugin : String) (l : Listing)
      → IsPage l
      → get case_id user s ≡ (ok none, s)
      → RunsRefused id enqueue_accepts provider registry plugin l
  unfolding run_plugin get_run list_runs
  run_handlers_Refused id enqueue_accepts provider registry plugin l page h =
      let v = not_found_verify user case_id s h in (ground arith, ground arith, ground arith)

  -- A user who has no such live case reaches nothing of it: the handlers that create, read, list,
  -- update and delete its entities and its relationships, that create, read, list, download and verify
  -- its evidence, and that start, read and list the runs on it answer 404 and write nothing, whatever the
  -- ids, the bodies, the upload, the plugin, the edition, the queue and the filters, for a limit from 1
  -- to 200.
  pub case_handlers_Refused :
      (id : ℕ) (body : EntityCreate) (patch : EntityUpdate) (rel : RelationshipCreate)
      (upload : Upload) (presign_get : Text → ℕ → Result Text) (ttl : ℕ)
      (enqueue_accepts : ℕ → Bool) (provider : EditionProvider) (registry : List Plugin)
      (plugin : String) (l : Listing)
      → IsPage l
      → get case_id user s ≡ (ok none, s)
      → EntitiesRefused id body patch l
        × RelationshipsRefused id rel l
        × EvidenceRefused id upload l presign_get ttl
        × RunsRefused id enqueue_accepts provider registry plugin l
  case_handlers_Refused id body patch rel upload presign_get ttl enqueue_accepts provider registry
        plugin l page h =
      (
        entity_handlers_Refused id body patch l page h,
        relationship_handlers_Refused id rel l page h,
        evidence_handlers_Refused id upload l presign_get ttl page h,
        run_handlers_Refused id enqueue_accepts provider registry plugin l page h,
      )
