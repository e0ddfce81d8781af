-- ===== src/Auth/Oidc/IdToken.antt =====
-- auth/oidc_id_token.py: the validation of an id token. The discovery document, the lookup of the
-- signing key and `jwt.decode` are arguments; the caches of the first two are left out.
use sleuthgraph_api.Base.{
  ◌≡◌, refl, Bool, true, false, ◌||◌, not, Option, none, some, List, [], ◌∷◌, if◌then◌else◌, All,
  Bool-cases, inl, inr,
}
use sleuthgraph_api.Base.Text.{Text, codes, text_eq}
use sleuthgraph_api.Errors.{Result, ok, err, id_token_invalid, require, ◌>>=◌, ◌>>◌}
use sleuthgraph_api.Errors.Every.{Every, Every-bind, Every-chain, Every-require}
use sleuthgraph_api.Graph.Json.{
  Json, Fields, null, boolean, number, str, arr, obj, nil, cons, end, field,
}
use sleuthgraph_api.Builtin.Values.{get_or, iterate, as_text}

-- `bool(value)`
unfoldable pub truthy : Json → Bool
truthy null = false
truthy (boolean b) = b
truthy (number t) =
    not (text_eq t (codes "0") || text_eq t (codes "0.0") || text_eq t (codes "-0.0"))
truthy (str []) = false
truthy (str (c ∷ cs)) = true
truthy (arr nil) = false
truthy (arr (cons x xs)) = true
truthy (obj end) = false
truthy (obj (field k v fs)) = true

-- `decode_id_token token algorithms client_id issuer`: the payload, or no value where PyJWT raises an
-- InvalidTokenError. `equal` is Python's `==` on parsed JSON.
pub record Verifier : Type 0 where
  pub discovery : Text → Result Fields
  pub key_found : Text → Json → Bool
  pub decode_id_token : Json → List Text → Text → Text → Option Fields
  pub lower : Text → Text
  pub equal : Json → Json → Bool

module _ (verifier : Verifier) where
  -- the comprehension that leaves out what is empty and "none"
  unfoldable pub real_algs : List Json → Result (List Text)
  unfolding truthy as_text
  real_algs [] = ok []
  real_algs (a ∷ rest_algs) =
      let rest = real_algs rest_algs in
      if truthy a
      then (do
        t ← as_text a
        others ← rest
        ok (if text_eq (verifier.lower t) (codes "none") then others else t ∷ others))
      else rest

  abbrev or_default_alg : List Text → List Text
  or_default_alg [] = codes "RS256" ∷ []
  or_default_alg (a ∷ rest_algs) = a ∷ rest_algs

  -- `… or ["RS256"]` on the document's value
  abbrev listed : Json → Result (List Json)
  unfolding iterate truthy
  listed algs = if truthy algs then iterate algs else ok (str (codes "RS256") ∷ [])

  abbrev algs_of : Result Fields → Result (List Text)
  unfolding get_or real_algs iterate truthy
  algs_of (err e) = ok (codes "RS256" ∷ [])
  algs_of (ok doc) = do
    algs ← listed (get_or (codes "id_token_signing_alg_values_supported") null doc)
    real ← real_algs algs
    ok (or_default_alg real)

  -- `_allowed_algs`
  unfoldable pub allowed_algs : Text → Result (List Text)
  unfolding get_or real_algs iterate truthy
  allowed_algs issuer = algs_of (verifier.discovery issuer)

  -- `_jwks_client_for`, of which the address of the keys is left
  unfoldable pub jwks_uri : Text → Result Json
  unfolding get_or truthy
  jwks_uri issuer = do
    doc ← verifier.discovery issuer
    let uri : Json = get_or (codes "jwks_uri") null doc
    require (truthy uri) id_token_invalid
    ok uri

  abbrev or_invalid : Option Fields → Result Fields
  or_invalid none = err id_token_invalid
  or_invalid (some payload) = ok payload

  -- `validate_id_token`, whose IdTokenErrors are one here
  unfoldable pub validate_id_token : Json → Text → Text → Json → Result Fields
  unfolding allowed_algs jwks_uri get_or truthy
  validate_id_token id_token issuer client_id nonce = do
    uri ← jwks_uri issuer
    require (verifier.key_found issuer id_token) id_token_invalid
    algorithms ← allowed_algs issuer
    payload ← or_invalid (verifier.decode_id_token id_token algorithms client_id issuer)
    let token_nonce : Json = get_or (codes "nonce") null payload
    require (truthy token_nonce) id_token_invalid
    require (verifier.equal token_nonce nonce) id_token_invalid
    ok payload

  -- The algorithm is not "none" in any spelling.
  abbrev pub IsReal : Text → Type 0
  IsReal a = text_eq (verifier.lower a) (codes "none") ≡ false

  real_algs-IsReal : (algs : List Json) → Every (All IsReal) (real_algs algs)
  unfolding real_algs
  real_algs-IsReal [] = record { holds = tt }
  real_algs-IsReal (a ∷ rest_algs) = elim (Bool-cases (truthy a)) [
    | inr empty ↦ rw empty (real_algs-IsReal rest_algs)
    | inl kept ↦ rw kept (
        Every-bind (All IsReal) (as_text a) _ λ t.
          Every-chain (All IsReal) (All IsReal) (real_algs rest_algs) _ (real_algs-IsReal rest_algs)
            λ others real. elim (Bool-cases (text_eq (verifier.lower t) (codes "none"))) [
              | inl unsigned ↦ rw unsigned (record { holds = real })
              | inr signed ↦ rw signed (record { holds = (signed, real) })
            ])
  ]

  or_default_alg-IsReal :
      (algs : List Text)
      → IsReal (codes "RS256")
      → All IsReal algs
      → All IsReal (or_default_alg algs)
  or_default_alg-IsReal [] h real = (h, tt)
  or_default_alg-IsReal (a ∷ rest_algs) h real = real

  algs_of-IsReal : (doc : Result Fields) → IsReal (codes "RS256") → Every (All IsReal) (algs_of doc)
  unfolding algs_of
  algs_of-IsReal (err e) h = record { holds = (h, tt) }
  algs_of-IsReal (ok doc) h =
      let algs = get_or (codes "id_token_signing_alg_values_supported") null doc in
      Every-bind (All IsReal) (listed algs) _ λ values.
        Every-chain (All IsReal) (All IsReal) (real_algs values) _ (real_algs-IsReal values)
          λ real h'. record { holds = or_default_alg-IsReal real h h' }

  allowed_algs-IsReal :
      (issuer : Text) → IsReal (codes "RS256") → Every (All IsReal) (allowed_algs issuer)
  unfolding allowed_algs algs_of
  allowed_algs-IsReal issuer h = algs_of-IsReal (verifier.discovery issuer) h

  or_invalid-some : (payload : Option Fields) → Every (λ p. payload ≡ some p) (or_invalid payload)
  or_invalid-some none = record { holds = tt }
  or_invalid-some (some p) = record { holds = refl }

  -- What a validated payload satisfies.
  abbrev pub Validated : Json → Text → Text → Json → Fields → Type 0
  Validated id_token issuer client_id nonce payload =
      (algorithms : List Text) × All IsReal algorithms
      × (verifier.decode_id_token id_token algorithms client_id issuer ≡ some payload)
      × (truthy (get_or (codes "nonce") null payload) ≡ true)
      × (verifier.equal (get_or (codes "nonce") null payload) nonce ≡ true)

  pub validate_id_token-Validated :
      (id_token : Json) (issuer client_id : Text) (nonce : Json)
      → IsReal (codes "RS256")
      → Every
          (Validated id_token issuer client_id nonce)
          (validate_id_token id_token issuer client_id nonce)
  unfolding validate_id_token
  validate_id_token-Validated id_token issuer client_id nonce h =
      let P : Fields → Type 0 = Validated id_token issuer client_id nonce in
      Every-bind P (jwks_uri issuer) _ λ uri.
        Every-bind P (require (verifier.key_found issuer id_token) id_token_invalid) _ λ found.
          Every-chain P (All IsReal) (allowed_algs issuer) _ (allowed_algs-IsReal issuer h)
            λ algorithms real.
              Every-chain P
                (λ p. verifier.decode_id_token id_token algorithms client_id issuer ≡ some p)
                (or_invalid (verifier.decode_id_token id_token algorithms client_id issuer)) _
                (or_invalid-some (verifier.decode_id_token id_token algorithms client_id issuer))
                λ payload decoded.
                  let token_nonce = get_or (codes "nonce") null payload in
                  Every-chain P (λ u. truthy token_nonce ≡ true)
                    (require (truthy token_nonce) id_token_invalid) _
                    (Every-require (truthy token_nonce) id_token_invalid)
                    λ u present.
                      Every-chain P (λ u. verifier.equal token_nonce nonce ≡ true)
                        (require (verifier.equal token_nonce nonce) id_token_invalid) _
                        (Every-require (verifier.equal token_nonce nonce) id_token_invalid)
                        λ u same. record { holds = (algorithms, real, decoded, present, same) }
