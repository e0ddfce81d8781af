-- ===== src/Auth/Oidc/State.antt =====
-- auth/oidc_state.py: the signed state of a sign-in. PyJWT and urlparse are arguments.
use sleuthgraph_api.Base.{
  ℕ, ◌+◌, ◌≡◌, refl, true, ◌||◌, not, Option, none, some, [], ◌∷◌, if◌then◌else◌, ltb, leb, ◌&&◌,
  Bool-cases, inl, inr,
}
use sleuthgraph_api.Base.Text.{Text, codes, starts_with}
use sleuthgraph_api.Errors.{Result, ok, err, state_invalid, key_error, ◌>>=◌}
use sleuthgraph_api.Graph.Json.{Json, Fields, str, number}
use sleuthgraph_api.Builtin.Values.{find_field, dict}
use sleuthgraph_api.Errors.Every.{Every, Every-bind, Every-weaken, Every-both, Every-self}
use sleuthgraph_api.Auth.Provision.{is_empty}

abbrev pub state_ttl_seconds : ℕ
state_ttl_seconds = 300

-- `OidcState`; a value is of the type that the payload has
pub record OidcState : Type 0 where
  pub csrf : Json
  pub oidc_nonce : Json
  pub code_verifier : Json
  pub next_path : Json

-- `urlparse` gives the scheme and the netloc, or raises ValueError; `jwt_decode` is at a time, with the
-- key and the algorithm of the state, and has no value where it raises an InvalidTokenError.
pub record Signer : Type 0 where
  pub urlparse : Text → Result (Text × Text)
  pub jwt_encode : Fields → Text
  pub jwt_decode : ℕ → Text → Option Fields
  pub str_nat : ℕ → Text

module _ (signer : Signer) where
  abbrev kept : Text → Text × Text → Text
  kept next (scheme, netloc) =
      if not (is_empty scheme) || not (is_empty netloc)
      then codes "/"
      else if not (starts_with next (codes "/"))
      then codes "/"
      else next

  -- `_sanitize_next`; an absent path is the empty one
  unfoldable pub sanitize_next : Text → Result Text
  sanitize_next [] = ok (codes "/")
  sanitize_next (c ∷ cs) = do parsed ← signer.urlparse (c ∷ cs); ok (kept (c ∷ cs) parsed)

  -- the payload
  abbrev pub state_payload : ℕ → Text → Text → Text → Text → Fields
  state_payload now csrf code_verifier next oidc_nonce = dict (
      (codes "csrf", str csrf)
      ∷ (codes "oidc_nonce", str oidc_nonce)
      ∷ (codes "cv", str code_verifier)
      ∷ (codes "n", str next)
      ∷ (codes "iat", number (signer.str_nat now))
      ∷ (codes "exp", number (signer.str_nat (now + state_ttl_seconds)))
      ∷ [])

  -- `encode_state`, at a time and with the random `csrf`
  unfoldable pub encode_state : ℕ → Text → Text → Text → Text → Result Text
  unfolding sanitize_next
  encode_state now csrf code_verifier next_path oidc_nonce = do
    next ← sanitize_next next_path
    ok (signer.jwt_encode (state_payload now csrf code_verifier next oidc_nonce))

  -- `payload[key]`
  abbrev item : Text → Fields → Result Json
  unfolding find_field
  item key payload = elim (find_field key payload) [ none ↦ err key_error | some v ↦ ok v ]

  abbrev read_items : Fields → Result OidcState
  unfolding find_field
  read_items payload = do
    csrf ← item (codes "csrf") payload
    oidc_nonce ← item (codes "oidc_nonce") payload
    code_verifier ← item (codes "cv") payload
    next_path ← item (codes "n") payload
    ok (record {
      csrf = csrf;
      oidc_nonce = oidc_nonce;
      code_verifier = code_verifier;
      next_path = next_path;
    })

  -- `except KeyError`, which is all that the reading raises
  abbrev or_state_error : Result OidcState → Result OidcState
  or_state_error (ok state) = ok state
  or_state_error (err e) = err state_invalid

  -- the `OidcState` of a payload
  unfoldable pub state_of : Option Fields → Result OidcState
  unfolding find_field
  state_of none = err state_invalid
  state_of (some payload) = or_state_error (read_items payload)

  -- `decode_state`
  unfoldable pub decode_state : ℕ → Text → Result OidcState
  unfolding state_of
  decode_state now token = state_of (signer.jwt_decode now token)

  -- A payload of a sign-in with any issue and expiry times.
  abbrev pub timed_payload : Text → Text → Text → Text → ℕ → ℕ → Fields
  timed_payload csrf code_verifier oidc_nonce next iat exp = dict (
      (codes "csrf", str csrf)
      ∷ (codes "oidc_nonce", str oidc_nonce)
      ∷ (codes "cv", str code_verifier)
      ∷ (codes "n", str next)
      ∷ (codes "iat", number (signer.str_nat iat))
      ∷ (codes "exp", number (signer.str_nat exp))
      ∷ [])

  -- PyJWT's documented behaviour: a token that was signed with the key is read back from its `iat` on
  -- until its `exp`, whichever they are.
  abbrev pub ReadsBack : Text → Text → Text → Type 0
  ReadsBack csrf code_verifier oidc_nonce =
      (next : Text) (iat exp later : ℕ)
      → signer.jwt_decode later
          (signer.jwt_encode (timed_payload csrf code_verifier oidc_nonce next iat exp))
        ≡ (if leb iat later && ltb later exp
            then some (timed_payload csrf code_verifier oidc_nonce next iat exp)
            else none)

  -- What a state token reads as at a time.
  abbrev pub read_at : ℕ → ℕ → Text → Text → Text → Text → Result OidcState
  read_at now later csrf code_verifier next oidc_nonce =
      if leb now later && ltb later (now + 300)
      then ok (record {
        csrf = str csrf;
        oidc_nonce = str oidc_nonce;
        code_verifier = str code_verifier;
        next_path = str next;
      })
      else err state_invalid

  kept-slash :
      (next : Text) (parsed : Text × Text) → starts_with (kept next parsed) (codes "/") ≡ true
  kept-slash next (scheme, netloc) =
      elim (Bool-cases (not (is_empty scheme) || not (is_empty netloc))) [
        | inl absolute ↦ rw absolute refl
        | inr relative ↦ elim (Bool-cases (starts_with next (codes "/"))) [
          | inl slash ↦ rw (relative, slash) slash
          | inr other ↦ rw (relative, other) refl
        ]
      ]

  -- A sanitized path starts with a slash.
  pub sanitize_next-slash :
      (next_path : Text)
      → Every (λ next. starts_with next (codes "/") ≡ true) (sanitize_next next_path)
  unfolding sanitize_next
  sanitize_next-slash [] = record { holds = refl }
  sanitize_next-slash (c ∷ cs) =
      Every-bind (λ next. starts_with next (codes "/") ≡ true) (signer.urlparse (c ∷ cs)) _
        λ parsed. record { holds = kept-slash (c ∷ cs) parsed }

  payload-read_at :
      (now later : ℕ) (csrf code_verifier next oidc_nonce : Text)
      → ReadsBack csrf code_verifier oidc_nonce
      → decode_state later
          (signer.jwt_encode (state_payload now csrf code_verifier next oidc_nonce))
        ≡ read_at now later csrf code_verifier next oidc_nonce
  unfolding decode_state find_field
  payload-read_at now later csrf code_verifier next oidc_nonce reads =
      rw (reads next now (now + 300) later)
        (elim (Bool-cases (leb now later && ltb later (now + 300))) [
          | inl live ↦ rw live refl
          | inr expired ↦ rw expired refl
        ])

  -- Where PyJWT reads back what it signed from its iat until its exp, a path is sanitized or the call
  -- raises: and with a sanitized path the token that encode_state returns decodes, from its time on and
  -- for less than 300 seconds, to the csrf, the nonce, the verifier and the path, and before and after
  -- that decode_state raises; the path starts with a slash.
  pub encode_state-decode_state :
      (now later : ℕ) (csrf code_verifier next_path oidc_nonce : Text)
      → ReadsBack csrf code_verifier oidc_nonce
      → Every
          (λ next.
            (starts_with next (codes "/") ≡ true)
            × ((encode_state now csrf code_verifier next_path oidc_nonce >>= decode_state later)
                ≡ read_at now later csrf code_verifier next oidc_nonce))
          (sanitize_next next_path)
  unfolding encode_state
  encode_state-decode_state now later csrf code_verifier next_path oidc_nonce reads =
      Every-weaken
        (λ next. (starts_with next (codes "/") ≡ true) × (sanitize_next next_path ≡ ok next)) _
        (sanitize_next next_path)
        (λ next h.
          (h.0, rw (h.1) (payload-read_at now later csrf code_verifier next oidc_nonce reads)))
        (Every-both (λ next. starts_with next (codes "/") ≡ true)
          (λ next. sanitize_next next_path ≡ ok next) (sanitize_next next_path)
          (sanitize_next-slash next_path) (Every-self (sanitize_next next_path)))
