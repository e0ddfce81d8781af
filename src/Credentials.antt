-- ===== src/Credentials.antt =====
-- src/sleuthgraph/credentials: the vault of encrypted API keys, and the handlers of its router.
pub mod Vault
mod Tests
use sleuthgraph_api.Base.{
  ℕ, String, Bool, ◌&&◌, not, Option, none, some, List, [], ◌∷◌, ◌++◌, ◌==◌, str_eq, ltb, map,
  length,
}
use sleuthgraph_api.Base.Text.{Text}
use sleuthgraph_api.Errors.{ok, other_exception, http_exception}
use sleuthgraph_api.Model.{World, Db, Credential}
use sleuthgraph_api.Sql.{select, scalar_one_or_none, update_where, order_desc}
use sleuthgraph_api.Action.{
  Action, pure, lift, gets, draw, or_raise, modify, raise_if, in_session, ◌>>=◌, ◌>>◌,
}

-- `CredentialRead`: the plugin's name and the time, never the key.
pub record CredentialRead : Type 0 where
  pub plugin_name : String
  pub created_at : ℕ

abbrev pub cred_of : ℕ → String → Credential → Bool
cred_of user_id plugin_name c = c.user_id == user_id && str_eq c.plugin_name plugin_name

abbrev set_credentials : List Credential → Db → Db
set_credentials rows db = record db { credentials = rows }

module _ (w : World) where
  upsert : ℕ → String → Text → Option Credential → Action Credential
  upsert user_id plugin_name ciphertext (some existing) = do
    modify (λ db.
        set_credentials
          (update_where (λ c. c.id == existing.id) (λ c. record c { encrypted_key = ciphertext })
            db.credentials)
          db)
    pure (record existing { encrypted_key = ciphertext })
  upsert user_id plugin_name ciphertext none = do
    id ← draw w.uuid4
    now ← draw w.now
    let cred : Credential = record {
      id = id;
      user_id = user_id;
      plugin_name = plugin_name;
      encrypted_key = ciphertext;
      created_at = now;
    }
    modify (λ db. set_credentials (db.credentials ++ cred ∷ []) db)
    pure cred

  -- `store_credential`
  unfoldable pub store_credential : ℕ → String → Text → Action Credential
  unfolding upsert
  store_credential user_id plugin_name api_key = do
    ciphertext ← draw (λ n. w.fernet_encrypt n api_key)
    rows ← gets (λ s. select (cred_of user_id plugin_name) s.live.credentials)
    existing ← lift (scalar_one_or_none rows)
    upsert user_id plugin_name ciphertext existing

  unfoldable pub decrypt_found : Option Credential → Action (Option Text)
  decrypt_found none = pure none
  decrypt_found (some cred) = do
    key ← or_raise (w.fernet_decrypt cred.encrypted_key) other_exception
    pure (some key)

  -- `get_credential`
  unfoldable pub get_credential : ℕ → String → Action (Option Text)
  unfolding decrypt_found
  get_credential user_id plugin_name = do
    rows ← gets (λ s. select (cred_of user_id plugin_name) s.live.credentials)
    cred ← lift (scalar_one_or_none rows)
    decrypt_found cred

  -- POST /credentials/{plugin_name}
  pub store_key : ℕ → String → Text → Action CredentialRead
  unfolding store_credential
  store_key user plugin_name api_key = in_session (do
    cred ← store_credential user plugin_name api_key
    pure (record { plugin_name = cred.plugin_name; created_at = cred.created_at }))

-- `list_credentials`
unfoldable pub list_credentials : ℕ → Action (List CredentialRead)
list_credentials user_id = gets λ s.
    map (λ (c : Credential). record { plugin_name = c.plugin_name; created_at = c.created_at })
      (order_desc (λ c. c.created_at) (select (λ c. c.user_id == user_id) s.live.credentials))

-- `delete_credential`
unfoldable pub delete_credential : ℕ → String → Action Bool
delete_credential user_id plugin_name s =
    let doomed = select (cred_of user_id plugin_name) s.live.credentials in
    let rest = select (λ c. not (cred_of user_id plugin_name c)) s.live.credentials in
    (ok (ltb 0 (length doomed)), record s { live = set_credentials rest s.live })

-- GET /credentials
pub list_keys : ℕ → Action (List CredentialRead)
unfolding list_credentials
list_keys user = in_session (list_credentials user)

-- DELETE /credentials/{plugin_name}
pub remove_key : ℕ → String → Action (Unit {0})
unfolding delete_credential
remove_key user plugin_name =
    in_session
      (do deleted ← delete_credential user plugin_name; raise_if (not deleted) (http_exception 404))
