-- ===== src/Auth/Oidc/Callback.antt =====
-- auth/oidc.py and auth/oidc_client.py: the handler of the provider's redirect. The OAuth client is an
-- argument, with the session token that the database strategy draws.
use sleuthgraph_api.Base.{
  ℕ, Bool, true, false, ◌&&◌, not, Option, none, some, List, [], ◌∷◌, ◌++◌, if◌then◌else◌,
}
use sleuthgraph_api.Base.Text.{Text, codes}
use sleuthgraph_api.Errors.{
  Error, Result, ok, err, other_exception, http_exception, state_invalid, id_token_invalid,
  oauth_error, key_error, account_not_linked, account_conflict, require, ◌>>=◌, ◌>>◌,
}
use sleuthgraph_api.Graph.Json.{Json, Fields, null, str}
use sleuthgraph_api.Builtin.Web.{is_http_error}
use sleuthgraph_api.Builtin.Values.{find_field, get_or}
use sleuthgraph_api.Auth.Provision.{User, is_empty, find_by_sub, resolve_oidc_user}
use sleuthgraph_api.Auth.Oidc.State.{Signer, OidcState, decode_state}
use sleuthgraph_api.Auth.Oidc.IdToken.{Verifier, truthy, validate_id_token}

-- config.py: the settings that the sign-in reads
pub record Settings : Type 0 where
  pub oidc_issuer : Option Text
  pub oidc_client_id : Option Text
  pub oidc_client_secret : Option Text
  pub oidc_redirect_url : Option Text
  pub auth_allow_signup : Bool

-- The provider's answers to the OAuth client, and what PostgreSQL, Python and the random source give.
pub record Site : Type 0 where
  pub settings : Settings
  pub signer : Signer
  pub verifier : Verifier
  pub get_access_token : Text → Text → Json → Result Fields
  pub get_id_email : Json → Result Json
  pub sql_lower : Text → Text
  pub py_lower : Text → Text
  pub uuid4 : ℕ
  pub random_hash : Text
  pub session_token : Text

-- The tables of users and of session tokens.
pub record AuthTables : Type 0 where
  pub users : List User
  pub tokens : List (Text × ℕ)

-- A redirect with a session cookie.
pub record SignInReply : Type 0 where
  pub location : Json
  pub cookie : Text

-- Whom the provider vouches for.
pub record Identity : Type 0 where
  pub state : OidcState
  pub id_token : Json
  pub claims : Fields
  pub email : Json

-- `bool(setting)`
abbrev pub is_given : Option Text → Bool
is_given none = false
is_given (some t) = not (is_empty t)

-- `is_oidc_configured`
unfoldable pub is_oidc_configured : Settings → Bool
is_oidc_configured s =
    is_given s.oidc_issuer && is_given s.oidc_client_id && is_given s.oidc_client_secret

-- `assert setting is not None`
abbrev pub asserted : Option Text → Result Text
asserted none = err other_exception
asserted (some t) = ok t

-- `except …: raise HTTPException(status)`
abbrev pub as_status {ℓ} : {A : Type ℓ} → (Error → Bool) → ℕ → Result A → Result A
as_status caught status (ok a) = ok a
as_status caught status (err e) = if caught e then err (http_exception status) else err e

abbrev pub is_state_error : Error → Bool
is_state_error state_invalid = true
is_state_error e = false

abbrev pub is_id_token_error : Error → Bool
is_id_token_error id_token_invalid = true
is_id_token_error e = false

abbrev is_oauth_error : Error → Bool
is_oauth_error oauth_error = true
is_oauth_error e = is_http_error e

abbrev pub is_exchange_error : Error → Bool
is_exchange_error key_error = true
is_exchange_error e = is_oauth_error e

-- the status of a refused account
abbrev pub account_status : Error → Error
account_status account_not_linked = http_exception 403
account_status account_conflict = http_exception 409
account_status e = e

module _ (site : Site) where
  -- `token["access_token"]`
  abbrev access_token : Fields → Result Json
  unfolding find_field
  access_token token = elim (find_field (codes "access_token") token) [
    | none ↦ err key_error
    | some v ↦ ok v
  ]

  -- the email, from the userinfo endpoint where the claims have none
  unfoldable pub email_of : Fields → Fields → Result Json
  unfolding find_field get_or truthy
  email_of token claims =
      if truthy (get_or (codes "email") null claims)
      then ok (get_or (codes "email") null claims)
      else (do access ← access_token token; as_status is_oauth_error 400 (site.get_id_email access))

  -- the handler up to the email, at a time
  unfoldable pub identify : ℕ → Text → Text → Result Identity
  unfolding decode_state validate_id_token get_or truthy email_of
  identify now code state = do
    payload ← as_status is_state_error 400 (decode_state site.signer now state)
    redirect ← asserted site.settings.oidc_redirect_url
    token ←
        as_status is_exchange_error 400 (site.get_access_token code redirect payload.code_verifier)
    let id_token : Json = get_or (codes "id_token") null token
    require (truthy id_token) (http_exception 400)
    issuer ← asserted site.settings.oidc_issuer
    client_id ← asserted site.settings.oidc_client_id
    claims ←
        as_status is_id_token_error 400
          (validate_id_token site.verifier id_token issuer client_id payload.oidc_nonce)
    require (truthy (get_or (codes "sub") null claims)) (http_exception 400)
    email ← email_of token claims
    require (truthy email) (http_exception 400)
    ok (record { state = payload; id_token = id_token; claims = claims; email = email })

  -- a subject that is known signs in without a look at the email
  abbrev pub known_sub : List User → Result (Option User) → Result User × List User
  known_sub users (ok (some u)) = (ok u, users)
  known_sub users (ok none) = (err other_exception, users)
  known_sub users (err e) = (err e, users)

  -- the call of `resolve_oidc_user`; a subject that is no text does not reach a row, and an email that
  -- is no text has no `lower`
  unfoldable pub resolve : Json → Json → Bool → List User → Result User × List User
  unfolding resolve_oidc_user
  resolve (str sub) (str email) email_verified users =
      resolve_oidc_user site.sql_lower site.py_lower site.uuid4 site.random_hash sub email
        email_verified site.settings.auth_allow_signup users
  resolve (str sub) email email_verified users = known_sub users (find_by_sub sub users)
  resolve sub email email_verified users = (err other_exception, users)

  -- the session of a resolved user
  abbrev pub issue : Json → Result User × List User → AuthTables → Result SignInReply × AuthTables
  issue next (err e, users) tables = (err (account_status e), record tables { users = users })
  issue next (ok u, users) tables = (
    ok (record { location = next; cookie = site.session_token }),
    record { users = users; tokens = tables.tokens ++ (site.session_token, u.id) ∷ [] },
  )

  -- the rest of the handler
  unfoldable pub sign_in : Result Identity → AuthTables → Result SignInReply × AuthTables
  unfolding resolve get_or truthy
  sign_in (err e) tables = (err e, tables)
  sign_in (ok who) tables =
      issue who.state.next_path
        (resolve (get_or (codes "sub") null who.claims) who.email
          (truthy (get_or (codes "email_verified") null who.claims)) tables.users)
        tables

  -- `oidc_callback` after the limit on its address
  unfoldable pub oidc_callback : ℕ → Text → Text → AuthTables → Result SignInReply × AuthTables
  unfolding is_oidc_configured identify sign_in
  oidc_callback now code state tables =
      if is_oidc_configured site.settings
      then sign_in (identify now code state) tables
      else (err (http_exception 404), tables)
