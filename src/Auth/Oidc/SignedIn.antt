-- ===== src/Auth/Oidc/SignedIn.antt =====
-- Whom the callback signs in.
use sleuthgraph_api.Base.{
  ℕ, ◌≡◌, refl, Bool, Option, none, some, List, [], ◌∷◌, ◌++◌, inl, inr, Bool-cases,
}
use sleuthgraph_api.Base.Text.{Text, codes}
use sleuthgraph_api.Errors.{Error, Result, ok, err, http_exception, require}
use sleuthgraph_api.Errors.Every.{Every, Every-bind, Every-chain, Every-self}
use sleuthgraph_api.Graph.Json.{Json, null, boolean, number, str, arr, obj}
use sleuthgraph_api.Sql.Rows.{scalar-select}
use sleuthgraph_api.Builtin.Values.{get_or}
use sleuthgraph_api.Auth.Provision.{
  User, has_sub, has_sub_eq, find_by_sub, Bound, resolve_oidc_user-Bound,
}
use sleuthgraph_api.Auth.Provision.Table.{IsRow, HasRow, found-IsRow, resolve_oidc_user-HasRow}
use sleuthgraph_api.Auth.Oidc.State.{decode_state}
use sleuthgraph_api.Auth.Oidc.IdToken.{
  IsReal, Validated, truthy, validate_id_token, validate_id_token-Validated,
}
use sleuthgraph_api.Auth.Oidc.Callback.{
  Site, Identity, AuthTables, SignInReply, asserted, as_status, email_of, identify, known_sub,
  resolve, sign_in, issue, is_id_token_error, is_oidc_configured, oidc_callback,
}

asserted-some : (o : Option Text) → Every (λ t. o ≡ some t) (asserted o)
asserted-some none = record { holds = tt }
asserted-some (some t) = record { holds = refl }

as_status-Every :
    {A : Type 0} (P : A → Type 0) (caught : Error → Bool) (status : ℕ) (m : Result A)
    → Every P m
    → Every P (as_status caught status m)
as_status-Every P caught status (ok a) h = h
as_status-Every P caught status (err e) h = elim (Bool-cases (caught e)) [
  | inl mine ↦ rw mine (record { holds = tt })
  | inr other ↦ rw other (record { holds = tt })
]

module _ (site : Site) where
  -- The identity comes from the state and from claims that were validated against the configured
  -- issuer and client and against the state's nonce.
  abbrev pub Identified : ℕ → Text → Identity → Type 0
  Identified now state who =
      (issuer : Text) × (client_id : Text) × (decode_state site.signer now state ≡ ok who.state)
      × (site.settings.oidc_issuer ≡ some issuer)
      × (site.settings.oidc_client_id ≡ some client_id)
      × Validated site.verifier who.id_token issuer client_id who.state.oidc_nonce who.claims

  identify-Identified :
      (now : ℕ) (code state : Text)
      → IsReal site.verifier (codes "RS256")
      → Every (Identified now state) (identify site now code state)
  unfolding identify
  identify-Identified now code state h =
      let P : Identity → Type 0 = Identified now state in
      Every-chain P (λ payload. decode_state site.signer now state ≡ ok payload)
        (as_status _ 400 (decode_state site.signer now state)) _
        (as_status-Every _ _ 400 (decode_state site.signer now state)
          (Every-self (decode_state site.signer now state)))
        λ payload decoded. Every-bind P (asserted site.settings.oidc_redirect_url) _ λ redirect.
          Every-bind P (as_status _ 400 (site.get_access_token code redirect payload.code_verifier))
            _
            λ token.
              Every-bind P
                (require (truthy (get_or (codes "id_token") null token)) (http_exception 400)) _
                λ u.
                  Every-chain P (λ t. site.settings.oidc_issuer ≡ some t)
                    (asserted site.settings.oidc_issuer) _ (asserted-some site.settings.oidc_issuer)
                    λ issuer given.
                      Every-chain P (λ t. site.settings.oidc_client_id ≡ some t)
                        (asserted site.settings.oidc_client_id) _
                        (asserted-some site.settings.oidc_client_id)
                        λ client_id named.
                          Every-chain P
                            (Validated site.verifier (get_or (codes "id_token") null token) issuer
                              client_id payload.oidc_nonce)
                            (as_status is_id_token_error 400 (
                              validate_id_token site.verifier (get_or (codes "id_token") null token)
                                issuer client_id payload.oidc_nonce))
                            _
                            (as_status-Every _ is_id_token_error 400 _ (
                              validate_id_token-Validated site.verifier
                                (get_or (codes "id_token") null token) issuer client_id
                                payload.oidc_nonce h))
                            λ claims valid.
                              Every-bind P
                                (require (truthy (get_or (codes "sub") null claims))
                                  (http_exception 400))
                                _
                                λ v. Every-bind P (email_of site token claims) _ λ email.
                                  Every-bind P (require (truthy email) (http_exception 400)) _ λ t.
                                    record {
                                      holds = (issuer, client_id, decoded, given, named, valid);
                                    }

  -- The user has a row, which carries the subject, or nothing has changed.
  abbrev CarriesSub : Json → List User → Result User × List User → Type 0
  CarriesSub sub users (ok u, after) =
      (t : Text) × (sub ≡ str t) × (u.oidc_sub ≡ some t) × IsRow u after
  CarriesSub sub users (err e, after) = after ≡ users

  known_sub-CarriesSub :
      (sub : Text) (users : List User) (found : Result (Option User))
      → find_by_sub sub users ≡ found
      → CarriesSub (str sub) users (known_sub site users found)
  known_sub-CarriesSub sub users (ok (some u)) h = (
    sub,
    refl,
    scalar-select (λ x. x.oidc_sub ≡ some sub) (λ x. has_sub sub x.oidc_sub) users u
        (λ x t.
          has_sub_eq site.sql_lower site.py_lower site.uuid4 site.random_hash sub x.oidc_sub t)
        h,
    found-IsRow (λ x. has_sub sub x.oidc_sub) users u h,
  )
  known_sub-CarriesSub sub users (ok none) h = refl
  known_sub-CarriesSub sub users (err e) h = refl

  Bound-CarriesSub :
      (sub : Text) (v : Bool) (users : List User) (r : Result User × List User)
      → Bound site.sql_lower site.py_lower site.uuid4 site.random_hash sub v users r
      → HasRow r
      → CarriesSub (str sub) users r
  Bound-CarriesSub sub v users (ok u, after) h row = (sub, refl, h.0, row)
  Bound-CarriesSub sub v users (err e, after) h row = h

  resolve-CarriesSub :
      (sub email : Json) (v : Bool) (users : List User)
      → CarriesSub sub users (resolve site sub email v users)
  unfolding resolve
  resolve-CarriesSub (str sub) (str email) v users =
      Bound-CarriesSub sub v users _
        (resolve_oidc_user-Bound site.sql_lower site.py_lower site.uuid4 site.random_hash sub email
          v site.settings.auth_allow_signup users)
        (resolve_oidc_user-HasRow site.sql_lower site.py_lower site.uuid4 site.random_hash sub email
          v site.settings.auth_allow_signup users)
  resolve-CarriesSub (str sub) null v users = known_sub-CarriesSub sub users _ refl
  resolve-CarriesSub (str sub) (boolean b) v users = known_sub-CarriesSub sub users _ refl
  resolve-CarriesSub (str sub) (number n) v users = known_sub-CarriesSub sub users _ refl
  resolve-CarriesSub (str sub) (arr xs) v users = known_sub-CarriesSub sub users _ refl
  resolve-CarriesSub (str sub) (obj fs) v users = known_sub-CarriesSub sub users _ refl
  resolve-CarriesSub null email v users = refl
  resolve-CarriesSub (boolean b) email v users = refl
  resolve-CarriesSub (number n) email v users = refl
  resolve-CarriesSub (arr xs) email v users = refl
  resolve-CarriesSub (obj fs) email v users = refl

  -- A reply comes with one new session, of a user in the table who carries the subject of validated claims, and
  -- goes to the path of the state; an exception changes neither table.
  abbrev pub SignedIn : ℕ → Text → AuthTables → Result SignInReply × AuthTables → Type 0
  SignedIn now state tables (ok reply, after) =
      (who : Identity) × (sub : Text) × (u : User) × Identified now state who
      × (get_or (codes "sub") null who.claims ≡ str sub)
      × IsRow u after.users
      × (u.oidc_sub ≡ some sub)
      × (after.tokens ≡ tables.tokens ++ (reply.cookie, u.id) ∷ [])
      × (reply.location ≡ who.state.next_path)
  SignedIn now state tables (err e, after) = after ≡ tables

  issue-SignedIn :
      (now : ℕ) (state : Text) (tables : AuthTables) (who : Identity) (r : Result User × List User)
      → Identified now state who
      → CarriesSub (get_or (codes "sub") null who.claims) tables.users r
      → SignedIn now state tables (issue site who.state.next_path r tables)
  issue-SignedIn now state tables who (ok u, users) h (sub, same, carries, row) =
      (who, sub, u, h, same, row, carries, refl, refl)
  issue-SignedIn now state tables who (err e, users) h same = rw same refl

  sign_in-SignedIn :
      (now : ℕ) (state : Text) (tables : AuthTables) (who : Result Identity)
      → Every (Identified now state) who
      → SignedIn now state tables (sign_in site who tables)
  unfolding sign_in
  sign_in-SignedIn now state tables (err e) h = refl
  sign_in-SignedIn now state tables (ok who) h =
      issue-SignedIn now state tables who _ h.holds
        (resolve-CarriesSub (get_or (codes "sub") null who.claims) who.email _ tables.users)

  -- Where lower-casing "RS256" does not give "none": a call of the callback that raises changes neither
  -- the users nor the sessions. One that returns adds one session, for a user with a row in the table,
  -- which carries the subject of the id token's claims; these were decoded for the configured issuer and client with
  -- algorithms of which none is "none", and their nonce is that of the state that was signed at login;
  -- and the redirect goes to the state's path.
  pub oidc_callback-SignedIn :
      (now : ℕ) (code state : Text) (tables : AuthTables)
      → IsReal site.verifier (codes "RS256")
      → SignedIn now state tables (oidc_callback site now code state tables)
  unfolding oidc_callback
  oidc_callback-SignedIn now code state tables h =
      elim (Bool-cases (is_oidc_configured site.settings)) [
        | inl yes_configured ↦ rw yes_configured (
            sign_in-SignedIn now state tables (identify site now code state)
              (identify-Identified now code state h))
        | inr off ↦ rw off refl
      ]
