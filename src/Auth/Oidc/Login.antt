-- ===== src/Auth/Oidc/Login.antt =====
-- auth/oidc.py: the start of a sign-in, and what the front end asks about the sign-in.
use sleuthgraph_api.Base.{ℕ, Bool, true, false, Option, none, some, List, [], ◌∷◌, if◌then◌else◌}
use sleuthgraph_api.Base.Text.{Text, codes}
use sleuthgraph_api.Errors.{Result, http_exception, require, ◌>>=◌, ◌>>◌}
use sleuthgraph_api.Graph.Json.{Json, Fields, null, boolean, str}
use sleuthgraph_api.Builtin.Values.{dict, rstrip}
use sleuthgraph_api.Auth.Oidc.State.{Signer, encode_state}
use sleuthgraph_api.Auth.Oidc.Callback.{Settings, is_oidc_configured, asserted}

-- What is sent to `get_authorization_url`.
pub record Authorization : Type 0 where
  pub redirect_uri : Text
  pub state : Text
  pub scope : List Text
  pub code_challenge : Text
  pub nonce : Text

-- `token_urlsafe` of 64 and of 24 bytes, and the hash of the former with its encoding.
pub record Draws : Type 0 where
  pub verifier : Text
  pub oidc_nonce : Text
  pub csrf : Text
  pub sha256_b64 : Text → Text

-- `_pkce_pair`
unfoldable pub pkce_pair : Draws → Text × Text
pkce_pair draws = (draws.verifier, rstrip b'=' (draws.sha256_b64 draws.verifier))

abbrev text_or_null : Option Text → Json
text_or_null none = null
text_or_null (some t) = str t

-- `oidc_status`
unfoldable pub oidc_status : Settings → Fields
unfolding is_oidc_configured
oidc_status s =
    if is_oidc_configured s
    then dict ((codes "enabled", boolean true) ∷ (codes "issuer", text_or_null s.oidc_issuer) ∷ [])
    else dict ((codes "enabled", boolean false) ∷ [])

-- `auth_config`, with the flags for reset and verification
unfoldable pub auth_config : Settings → Bool → Bool → Fields
unfolding is_oidc_configured
auth_config s allow_reset allow_verify = dict (
    (codes "signup_enabled", boolean s.auth_allow_signup)
    ∷ (codes "password_reset_enabled", boolean allow_reset)
    ∷ (codes "email_verify_enabled", boolean allow_verify)
    ∷ (codes "oidc_enabled", boolean (is_oidc_configured s))
    ∷ [])

-- `oidc_login`, at a time: the URL that the client makes of the authorization
unfoldable pub oidc_login :
    (Authorization → Result Text) → Signer → Settings → List Text → Draws → ℕ → Text → Result Text
unfolding is_oidc_configured pkce_pair encode_state
oidc_login get_authorization_url signer s scopes draws now next = do
  require (is_oidc_configured s) (http_exception 404)
  state ← encode_state signer now draws.csrf (pkce_pair draws).0 next draws.oidc_nonce
  redirect ← asserted s.oidc_redirect_url
  get_authorization_url (record {
    redirect_uri = redirect;
    state = state;
    scope = scopes;
    code_challenge = (pkce_pair draws).1;
    nonce = draws.oidc_nonce;
  })
