-- ===== src/Fixtures.antt =====
-- A concrete world and a small database, on which the tests run.
use sleuthgraph_api.Base.{
  ℕ, ◌+◌, ◌≡◌, refl, true, Option, none, some, List, [], ◌∷◌, ◌++◌, if◌then◌else◌, arith, length,
}
use sleuthgraph_api.Base.Text.{Text, text_eq, codes}
use sleuthgraph_api.Graph.Json.{end}
use sleuthgraph_api.Model.{
  Session, World, Db, Case, Entity, PluginRun, queued, BlobPut, Head, content_length, not_found,
}
use sleuthgraph_api.Evidence.Store.{StoreLaws}

-- The last PUT under a key.
abbrev pub newest : List BlobPut → Text → Option (List ℕ)
newest [] key = none
newest (p ∷ puts) key = elim (newest puts key) [
  | some body ↦ some body
  | none ↦ (if text_eq p.key key then some p.body else none)
]

abbrev pub head_of : Option (List ℕ) → Head
head_of none = not_found
head_of (some body) = content_length (length body)

-- sixty-three characters
abbrev padding : Text
padding = codes "000000000000000000000000000000000000000000000000000000000000000"

abbrev pub digest : List ℕ → Text
digest [] = b'0' ∷ padding
digest (b ∷ bytes) = b ∷ padding

abbrev pub world : World
world = record {
  uuid4 = λ n. n + 100;
  now = λ n. n + 900000000;
  token_hex = λ n. (b'a' + n) ∷ [];
  str_uuid = λ n. n ∷ [];
  str_float = λ n. n ∷ [];
  str_list = λ xs. [];
  commit_accepts = λ n db. true;
  age_accepts = λ graph sql. true;
  head_object = λ puts key. head_of (newest puts key);
  put_accepts = λ puts p. true;
  get_object = newest;
  sha256_hex = digest;
  json_size = λ fs. 2;
  fernet_encrypt = λ n key. n ∷ key;
  fernet_decrypt = λ token. elim token [ [] ↦ none | c ∷ cs ↦ some cs ];
}

newest-append :
    (puts : List BlobPut) (p : BlobPut) (key : Text)
    → newest (puts ++ p ∷ []) key ≡ (if text_eq p.key key then some p.body else newest puts key)
newest-append [] p key = refl
newest-append (q ∷ puts) p key = ground (arith, newest-append puts p key)

head_newest :
    (found : Option (List ℕ)) (n : ℕ)
    → head_of found ≡ content_length n
    → (body : List ℕ) × (found ≡ some body) × (length body ≡ n)
head_newest none n h = absurd (cc)
head_newest (some body) n h = (body, refl, ground arith)

digest-length : (body : List ℕ) → length (digest body) ≡ 64
digest-length [] = refl
digest-length (b ∷ bytes) = refl

pub world_laws : StoreLaws world
world_laws = record {
  get_after_put = newest-append;
  head_is_length = λ puts key n. head_newest (newest puts key) n;
  digest_length = digest-length;
}

-- One case of user 1 and one of user 2.
abbrev pub case_one : Case
case_one = record {
  id = 10;
  owner_id = some 1;
  name = "one";
  status = "active";
  tags = some [];
  created_at = 5;
  deleted_at = none;
}

abbrev pub case_two : Case
case_two = record {
  id = 20;
  owner_id = some 2;
  name = "two";
  status = "active";
  tags = some ("x" ∷ []);
  created_at = 6;
  deleted_at = none;
}

abbrev pub host : Entity
host = record {
  id = 30;
  case_id = 10;
  type = "DOMAIN";
  label = "example.org";
  attrs = some end;
  confidence = 1;
  created_by = some 1;
  created_at = 7;
  deleted_at = none;
}

abbrev pub owner : Entity
owner = record host { id = 31; type = "PERSON"; label = "Ada" }

abbrev pub waiting : PluginRun
waiting = record {
  id = 50;
  case_id = 10;
  input_entity_id = some 30;
  plugin_name = "dns";
  plugin_version = "1";
  started_at = 8;
  finished_at = none;
  status = queued;
  error_message = none;
  entities_created_count = 0;
  relationships_created_count = 0;
  evidence_count = 0;
  created_by = none;
}

abbrev pub empty_db : Db
empty_db = record {
  cases = [];
  entities = [];
  relationships = [];
  evidence = [];
  runs = [];
  credentials = [];
  graph = [];
}

abbrev pub db : Db
db = record empty_db {
  cases = case_one ∷ case_two ∷ [];
  entities = host ∷ owner ∷ [];
  runs = waiting ∷ [];
}

abbrev pub fresh : Db → Session
fresh d = record { live = d; committed = d; blobs = []; ticks = 0 }

abbrev pub session : Session
session = fresh db
