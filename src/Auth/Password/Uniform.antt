-- ===== src/Auth/Password/Uniform.antt =====
-- What an answer tells of the user that a request names.
use sleuthgraph_api.Base.{◌≡◌, refl, ◌⊎◌, inl, inr, Bool, true, false, if◌then◌else◌}
use sleuthgraph_api.Base.Text.{Text}
use sleuthgraph_api.Errors.{
  Result, ok, err, http_exception, user_not_exists, user_inactive, user_already_verified, ◌>>=◌,
}
use sleuthgraph_api.Auth.Provision.{User}
use sleuthgraph_api.Auth.Password.{
  Manager, send_reset, forgot_password, request_verify_token, is_unverifiable, caught_as,
}

-- What fastapi-users documents of the calls, where the database answers and the mails are sent: the
-- lookup raises UserNotExists only, forgot_password UserInactive only, and request_verify UserInactive and
-- UserAlreadyVerified only.
pub record Quiet (manager : Manager) : Type 0 where
  pub looked_up :
      (email : Text)
      → ((user : User) × (manager.get_by_email email ≡ ok user))
        ⊎ (manager.get_by_email email ≡ err user_not_exists)
  pub forgotten :
      (user : User)
      → (manager.forgot_password user ≡ ok tt) ⊎ (manager.forgot_password user ≡ err user_inactive)
  pub requested :
      (user : User)
      → (manager.request_verify user ≡ ok tt)
        ⊎ (manager.request_verify user ≡ err user_inactive)
        ⊎ (manager.request_verify user ≡ err user_already_verified)

-- What both handlers answer to everybody: 202, or 429 beyond the limit.
abbrev pub uniform : Bool → Result (Unit {0})
uniform within = if within then ok tt else err (http_exception 429)

forgot_password-uniform :
    (manager : Manager) (email : Text)
    → Quiet manager
    → send_reset manager (manager.get_by_email email) ≡ ok tt
forgot_password-uniform manager email quiet = elim (quiet.looked_up email) [
  | inl (user, known) ↦ elim (quiet.forgotten user) [
    | inl sent ↦ rw (known, sent) refl
    | inr inactive ↦ rw (known, inactive) refl
  ]
  | inr unknown ↦ rw unknown refl
]

request_verify-uniform :
    (manager : Manager) (email : Text)
    → Quiet manager
    → caught_as is_unverifiable (ok tt) (manager.get_by_email email >>= manager.request_verify)
      ≡ ok tt
request_verify-uniform manager email quiet = elim (quiet.looked_up email) [
  | inl (user, known) ↦ elim (quiet.requested user) [
    | inl sent ↦ rw (known, sent) refl
    | inr (inl inactive) ↦ rw (known, inactive) refl
    | inr (inr verified) ↦ rw (known, verified) refl
  ]
  | inr unknown ↦ rw unknown refl
]

-- Where the calls of the user manager raise only UserNotExists, UserInactive and UserAlreadyVerified, each
-- as fastapi-users documents, forgot_password and request_verify_token answer the same to everybody, whether
-- the address has a user or not: nothing within the limit, and 429 beyond it.
pub answers_uniform :
    (manager : Manager) (within : Bool) (email : Text)
    → Quiet manager
    → (forgot_password manager within email ≡ uniform within)
      × (request_verify_token manager within email ≡ uniform within)
unfolding forgot_password request_verify_token
answers_uniform manager false email quiet = (refl, refl)
answers_uniform manager true email quiet =
    (forgot_password-uniform manager email quiet, request_verify-uniform manager email quiet)
