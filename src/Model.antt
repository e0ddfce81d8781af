-- ===== src/Model.antt =====
-- The ORM rows (models.py of each package), the database they stand in, and a unit of work over it.
-- A UUID is a natural number and so is a time; a confidence is a float that the code only copies
-- and compares, so a natural number stands for it. `updated_at` columns, which the code never
-- reads, are left out. The graph is the list of the Cypher statements that it has executed.
use sleuthgraph_api.Base.{ℕ, String, Bool, List, Option}
use sleuthgraph_api.Base.Text.{Text}
use sleuthgraph_api.Graph.Json.{Items, Fields}

pub record Case : Type 0 where
  pub id : ℕ
  pub owner_id : Option ℕ
  pub name : String
  pub status : String
  pub tags : Option (List String)
  pub created_at : ℕ
  pub deleted_at : Option ℕ

pub record Entity : Type 0 where
  pub id : ℕ
  pub case_id : ℕ
  pub type : String
  pub label : String
  pub attrs : Option Fields
  pub confidence : ℕ
  pub created_by : Option ℕ
  pub created_at : ℕ
  pub deleted_at : Option ℕ

pub record Relationship : Type 0 where
  pub id : ℕ
  pub case_id : ℕ
  pub src_entity_id : ℕ
  pub dst_entity_id : ℕ
  pub rel_type : String
  pub confidence : ℕ
  pub source_plugin : Option String
  pub attrs : Fields
  pub created_by : Option ℕ
  pub created_at : ℕ
  pub deleted_at : Option ℕ

pub record Evidence : Type 0 where
  pub id : ℕ
  pub case_id : ℕ
  pub entity_id : Option ℕ
  pub source_plugin : String
  pub query : String
  pub response_hash : Text
  pub response_uri : Text
  pub response_bytes : ℕ
  pub response_content_type : Option String
  pub timestamp : ℕ
  pub reproducibility_spec : Fields
  pub created_by : Option ℕ

-- The values that the code writes to `PluginRun.status`.
pub data RunStatus : Type 0 where
  queued running succeeded failed : RunStatus

pub record PluginRun : Type 0 where
  pub id : ℕ
  pub case_id : ℕ
  pub input_entity_id : Option ℕ
  pub plugin_name : String
  pub plugin_version : String
  pub started_at : ℕ
  pub finished_at : Option ℕ
  pub status : RunStatus
  pub error_message : Option String
  pub entities_created_count : ℕ
  pub relationships_created_count : ℕ
  pub evidence_count : ℕ
  pub created_by : Option ℕ

pub record Credential : Type 0 where
  pub id : ℕ
  pub user_id : ℕ
  pub plugin_name : String
  pub encrypted_key : Text
  pub created_at : ℕ

-- A Cypher statement, by the pieces that the f-strings of entities/age.py and relationships/age.py
-- put together.
pub data Cypher : Type 0 where
  merge_vertex : (label : String) (id : ℕ) (props : Text) → Cypher
  detach_delete_vertex : (id : ℕ) → Cypher
  merge_edge : (rel_type : String) (src dst id : ℕ) (props : Text) → Cypher
  delete_edge_by_id : (id : ℕ) → Cypher

pub record Db : Type 0 where
  pub cases : List Case
  pub entities : List Entity
  pub relationships : List Relationship
  pub evidence : List Evidence
  pub runs : List PluginRun
  pub credentials : List Credential
  pub graph : List Cypher

-- A PUT to the object store.
pub record BlobPut : Type 0 where
  pub key : Text
  pub body : List ℕ
  pub content_type : String

-- What HEAD answers: the object's ContentLength, a not-found code, or another failure.
pub data Head : Type 0 where
  content_length : ℕ → Head
  not_found : Head
  head_refused : Head

-- What the database holds inside the transaction and what is committed, the PUTs that the object
-- store has taken, and the number of draws so far from the clock and the random source.
pub record Session : Type 0 where
  pub live : Db
  pub committed : Db
  pub blobs : List BlobPut
  pub ticks : ℕ

-- What the program takes from outside: random UUIDs and tags, the clock, how Python prints a UUID,
-- a float and a list, whether the database takes a commit, by the draws before it and what it would
-- commit, whether AGE executes a statement after those before it, the object store's
-- answers after the PUTs before, SHA-256, the size of printed JSON, and Fernet.
pub record World : Type 0 where
  pub uuid4 : ℕ → ℕ
  pub now : ℕ → ℕ
  pub token_hex : ℕ → Text
  pub str_uuid : ℕ → Text
  pub str_float : ℕ → Text
  pub str_list : Items → Text
  pub commit_accepts : ℕ → Db → Bool
  pub age_accepts : List Cypher → Text → Bool
  pub head_object : List BlobPut → Text → Head
  pub put_accepts : List BlobPut → BlobPut → Bool
  pub get_object : List BlobPut → Text → Option (List ℕ)
  pub sha256_hex : List ℕ → Text
  pub json_size : Fields → ℕ
  pub fernet_encrypt : ℕ → Text → Text
  pub fernet_decrypt : Text → Option Text
