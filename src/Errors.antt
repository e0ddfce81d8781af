-- ===== src/Errors.antt =====
-- The exceptions that the modelled code raises, as values, and the result of code that may raise.
-- An HTTPException carries its status code.
pub mod Every
use sleuthgraph_api.Base.{ℕ, ◌≡◌, refl, Bool, true, false}

pub data Error : Type 0 where
  -- ValueError, by what it is raised for
  attrs_too_deep attrs_bad_key attrs_too_large invalid_map_key : Error
  invalid_entity_type invalid_rel_type endpoint_not_in_case schema_invalid : Error
  -- SQLAlchemy's MultipleResultsFound
  multiple_results : Error
  -- a NULL in a column declared NOT NULL, and a row that its read schema refuses
  integrity_error response_invalid : Error
  -- a refused Cypher statement, and `run_cypher`'s own RuntimeError
  cypher_failed no_safe_tag : Error
  -- a failed S3 request
  storage_failed : Error
  -- the exceptions of sleuthgraph.plugins and sleuthgraph.licensing
  plugin_not_found feature_unavailable plugin_execution plugin_type credential_missing : Error
  -- the registry's ValueErrors
  empty_plugin_name duplicate_plugin_name : Error
  -- the exceptions of httpx that a plugin's query raises (`http_error` is `HTTPError` itself), and
  -- any other
  http_timeout http_status http_transport http_error other_exception : Error
  -- the exceptions of sleuthgraph.auth
  account_not_linked account_conflict id_token_invalid state_invalid : Error
  -- httpx_oauth's HTTPXOAuthError, and a KeyError
  oauth_error key_error : Error
  -- the exceptions of fastapi-users
  user_not_exists user_inactive user_already_verified user_already_exists : Error
  invalid_password invalid_reset_token : Error
  http_exception : ℕ → Error

pub data Result {ℓ} (A : Type ℓ) : Type ℓ where
  ok : A → Result A
  err : Error → Result A

infixl 5 ◌>>=◌ ◌>>◌
abbrev pub ◌>>=◌ {ℓ κ} : {A : Type ℓ} {B : Type κ} → Result A → (A → Result B) → Result B
ok a >>= f = f a
err e >>= f = err e

abbrev pub ◌>>◌ {ℓ κ} : {A : Type ℓ} {B : Type κ} → Result A → Result B → Result B
m >> k = m >>= λ _. k

-- `if not test: raise e`
abbrev pub require : Bool → Error → Result (Unit {0})
require true e = ok tt
require false e = err e

abbrev pub is_ok {ℓ} : {A : Type ℓ} → Result A → Bool
is_ok (ok _) = true
is_ok (err _) = false

-- A chain that returns is one whose first part returns.
pub returned :
    {A B : Type 0} (m : Result A) (f : A → Result B) (b : B)
    → ((m >>= f) ≡ ok b)
    → (a : A) × (m ≡ ok a) × (f a ≡ ok b)
returned (ok a) f b h = (a, refl, h)
returned (err e) f b h = cc
