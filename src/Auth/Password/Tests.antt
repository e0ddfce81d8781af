-- ===== src/Auth/Password/Tests.antt =====
-- A user manager that knows nobody, a range API that lists one hash, and the storage of the limits.
use sleuthgraph_api.Base.{
  inl, inr, ◌≤◌, ◌≡◌, ◌↔◌, refl, true, false, none, [], ◌∷◌, ◌++◌, length, take, drop,
}
use sleuthgraph_api.Base.Text.{codes}
use sleuthgraph_api.Errors.{
  ok, err, http_exception, http_timeout, invalid_password, user_not_exists, user_inactive,
}
use sleuthgraph_api.Auth.RateLimit.{LimitSettings, redis_storage, memory_storage, build_storage}
use sleuthgraph_api.Auth.Password.{
  Pwned, Manager, is_password_pwned, validate_password, login, forgot_password,
  request_verify_token, register, reset_password,
}
use sleuthgraph_api.Auth.Password.Policy.{Unlisted, validate_password_iff}
use sleuthgraph_api.Auth.Password.Uniform.{Quiet, uniform, answers_uniform}

abbrev pwned : Pwned
pwned = record {
  sha1_upper = λ t. codes "ABCDE" ++ t;
  get_range = λ prefix. ok (codes "password1234:9");
  splitlines = λ t. t ∷ [];
  strip = λ t. t;
}

listed_password : is_password_pwned pwned (codes "password1234") ≡ ok true
unfolding is_password_pwned
listed_password = refl

other_password : validate_password pwned (codes "password12345") ≡ ok tt
unfolding validate_password
other_password = refl

short_password : validate_password pwned (codes "password") ≡ err invalid_password
unfolding validate_password
short_password = refl

unreached_api :
    validate_password
      (record pwned { get_range = λ prefix. err http_timeout })
      (codes "password1234")
    ≡ ok tt
unfolding validate_password
unreached_api = refl

validate_password_iff_example : (validate_password pwned (codes "password12345") ≡ ok tt) ↔ (
    (12 ≤ length (codes "password12345"))
    × Unlisted pwned
        (drop 5 (pwned.sha1_upper (codes "password12345")))
        (pwned.get_range (take 5 (pwned.sha1_upper (codes "password12345")))))
validate_password_iff_example = validate_password_iff pwned (codes "password12345")

abbrev manager : Manager
manager = record {
  authenticate = λ username password. ok none;
  get_by_email = λ email. err user_not_exists;
  forgot_password = λ user. err user_inactive;
  request_verify = λ user. ok tt;
  reset_password = λ token password. err user_inactive;
  create = λ email password. err invalid_password;
  backend_login = λ user. ok tt;
  on_after_login = λ user. ok tt;
}

manager-Quiet : Quiet manager
manager-Quiet = record {
  looked_up = λ email. inr refl;
  forgotten = λ user. inr refl;
  requested = λ user. inl refl;
}

answers_uniform_example :
    (forgot_password manager true (codes "a@b.c") ≡ uniform true)
    × (request_verify_token manager true (codes "a@b.c") ≡ uniform true)
answers_uniform_example = answers_uniform manager true (codes "a@b.c") manager-Quiet

refused :
    (login manager true [] [] ≡ err (http_exception 400))
    × (login manager false [] [] ≡ err (http_exception 429))
    × (reset_password manager true [] [] ≡ err (http_exception 400))
    × (register manager [] [] ≡ err (http_exception 400))
unfolding login reset_password register
refused = (refl, refl, refl, refl)

abbrev limits : LimitSettings
limits = record {
  auth_rate_limit_storage = [];
  redis_url = codes "redis://r";
  auth_forgot_password_email_rate = [];
  auth_login_username_rate = [];
  auth_verify_email_rate = [];
  auth_reset_password_token_rate = [];
}

storages :
    (build_storage limits ≡ redis_storage (codes "redis://r"))
    × (build_storage (record limits { auth_rate_limit_storage = codes "memory://" })
        ≡ memory_storage)
unfolding build_storage
storages = (refl, refl)
