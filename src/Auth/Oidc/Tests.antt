-- ===== src/Auth/Oidc/Tests.antt =====
-- A sign-in of one identity, with a provider whose tokens are the payloads themselves.
use sleuthgraph_api.Base.{
  ◌≡◌, refl, true, none, some, [], ◌∷◌, if◌then◌else◌, ltb, leb, ◌&&◌, ℕ, Option,
}
use sleuthgraph_api.Base.Text.{Text, codes, starts_with, text_eq}
use sleuthgraph_api.Errors.{ok, err, http_exception, ◌>>=◌}
use sleuthgraph_api.Errors.Every.{Every}
use sleuthgraph_api.Graph.Json.{Json, Fields, null, number, str, arr}
use sleuthgraph_api.Builtin.Values.{get_or, dict, items_of}
use sleuthgraph_api.Auth.Oidc.State.{
  Signer, ReadsBack, sanitize_next, encode_state, decode_state, read_at, encode_state-decode_state,
}
use sleuthgraph_api.Auth.Oidc.IdToken.{Verifier, allowed_algs}
use sleuthgraph_api.Auth.Oidc.Callback.{Site, AuthTables, oidc_callback}
use sleuthgraph_api.Auth.Oidc.SignedIn.{SignedIn, oidc_callback-SignedIn}

abbrev text_in : Json → Text
text_in (str t) = t
text_in value = []

abbrev number_in : Json → Text
number_in (number t) = t
number_in value = []

-- A token is the two times and the path; the rest of the payload is that of one sign-in.
abbrev token_of : Text → Text → Text → Text
token_of (iat ∷ []) (exp ∷ []) path = iat ∷ exp ∷ path
token_of iat exp path = []

abbrev payload_of : ℕ → Text → Option Fields
payload_of later (iat ∷ exp ∷ path) =
    if leb iat later && ltb later exp
    then some (
        dict (
          (codes "csrf", str (codes "c"))
          ∷ (codes "oidc_nonce", str (codes "o"))
          ∷ (codes "cv", str (codes "v"))
          ∷ (codes "n", str path)
          ∷ (codes "iat", number (iat ∷ []))
          ∷ (codes "exp", number (exp ∷ []))
          ∷ []))
    else none
payload_of later token = none

abbrev signer : Signer
signer = record {
  urlparse = λ t. ok (if starts_with t (codes "//") then ([], t) else ([], []));
  jwt_encode = λ payload.
      token_of (number_in (get_or (codes "iat") null payload))
        (number_in (get_or (codes "exp") null payload)) (text_in (get_or (codes "n") null payload));
  jwt_decode = payload_of;
  str_nat = λ n. n ∷ [];
}

reads_back : ReadsBack signer (codes "c") (codes "v") (codes "o")
unfolding get_or
reads_back next iat exp later = refl

-- The token of that sign-in at time 7.
abbrev state_token : Text
state_token = 7 ∷ 307 ∷ codes "/cases"

next_kept : sanitize_next signer (codes "/cases") ≡ ok (codes "/cases")
unfolding sanitize_next
next_kept = refl

next_replaced :
    (sanitize_next signer (codes "//evil.example") ≡ ok (codes "/"))
    × (sanitize_next signer (codes "cases") ≡ ok (codes "/"))
unfolding sanitize_next
next_replaced = (refl, refl)

-- A backslash after the first slash is kept, where the parser finds no netloc.
backslash_kept : sanitize_next signer (codes "/\\evil.example") ≡ ok (codes "/\\evil.example")
unfolding sanitize_next
backslash_kept = refl

encode_state-decode_state_example :
    Every
      (λ next.
        (starts_with next (codes "/") ≡ true)
        × ((encode_state signer 7 (codes "c") (codes "v") (codes "/cases") (codes "o")
              >>= decode_state signer 400)
            ≡ read_at signer 7 400 (codes "c") (codes "v") next (codes "o")))
      (sanitize_next signer (codes "/cases"))
encode_state-decode_state_example =
    encode_state-decode_state signer 7 400 (codes "c") (codes "v") (codes "/cases") (codes "o")
      reads_back

-- A provider that vouches for the subject "s" with the nonce of the state.
abbrev verifier : Verifier
verifier = record {
  discovery = λ issuer. ok (
      dict (
        (codes "jwks_uri", str (codes "https://i/keys"))
        ∷ (
          codes "id_token_signing_alg_values_supported",
          arr (items_of (str (codes "none") ∷ str (codes "ES256") ∷ [])),
        )
        ∷ []));
  key_found = λ issuer token. true;
  decode_id_token = λ token algorithms client_id issuer. some (
      dict (
        (codes "sub", str (codes "s"))
        ∷ (codes "nonce", str (codes "o"))
        ∷ (codes "email", str (codes "a@b.c"))
        ∷ (codes "email_verified", str (codes "false"))
        ∷ []));
  lower = λ t. t;
  equal = λ a b. text_eq (text_in a) (text_in b);
}

real_algorithms : allowed_algs verifier (codes "https://i") ≡ ok (codes "ES256" ∷ [])
unfolding allowed_algs
real_algorithms = refl

abbrev site : Site
site = record {
  settings = record {
    oidc_issuer = some (codes "https://i");
    oidc_client_id = some (codes "id");
    oidc_client_secret = some (codes "secret");
    oidc_redirect_url = some (codes "https://app/callback");
    auth_allow_signup = true;
  };
  signer = signer;
  verifier = verifier;
  get_access_token = λ code redirect cv. ok (dict ((codes "id_token", str (codes "t")) ∷ []));
  get_id_email = λ token. err (http_exception 500);
  sql_lower = λ t. t;
  py_lower = λ t. t;
  uuid4 = 5;
  random_hash = [];
  session_token = codes "session";
}

abbrev tables : AuthTables
tables = record { users = []; tokens = [] }

-- The text "false" counts as a verified email.
unverified_text_provisioned :
    (oidc_callback site 8 (codes "code") state_token tables).1.tokens ≡ (codes "session", 5) ∷ []
unfolding oidc_callback
unverified_text_provisioned = refl

late_state_refused :
    (oidc_callback site 307 (codes "code") state_token tables).0 ≡ err (http_exception 400)
unfolding oidc_callback
late_state_refused = refl

oidc_callback-SignedIn_example :
    SignedIn site 8 state_token tables (oidc_callback site 8 (codes "code") state_token tables)
oidc_callback-SignedIn_example =
    oidc_callback-SignedIn site 8 (codes "code") state_token tables refl
