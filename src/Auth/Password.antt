-- ===== src/Auth/Password.antt =====
-- auth/manager.py and the handlers login.py, forgot_password.py, verify.py, reset_password.py and
-- register.py. The user manager of fastapi-users is an argument, and so is each limit's answer.
pub mod Uniform
pub mod Policy
mod Tests
use sleuthgraph_api.Base.{
  ℕ, Bool, true, false, ◌&&◌, ◌||◌, not, Option, none, some, List, [], ◌∷◌, ◌==◌, ltb, length, take,
  drop, if◌then◌else◌,
}
use sleuthgraph_api.Base.Text.{Text, text_eq}
use sleuthgraph_api.Errors.{
  Error, Result, ok, err, http_exception, user_not_exists, user_inactive, user_already_verified,
  user_already_exists, invalid_password, invalid_reset_token, require, ◌>>=◌, ◌>>◌,
}
use sleuthgraph_api.Builtin.Web.{is_http_error}
use sleuthgraph_api.Auth.Provision.{User}

abbrev pub min_password_length : ℕ
min_password_length = 12

-- `hexdigest().upper()` of SHA-1, the text that the range API answers, and Python's text functions.
pub record Pwned : Type 0 where
  pub sha1_upper : Text → Text
  pub get_range : Text → Result Text
  pub splitlines : Text → List Text
  pub strip : Text → Text

-- `line.partition(":")[0]`
abbrev pub before_colon : Text → Text
before_colon [] = []
before_colon (c ∷ cs) = let rest = before_colon cs in if c == b':' then [] else c ∷ rest

-- the loop over the lines
unfoldable pub has_suffix : Pwned → Text → List Text → Bool
has_suffix pwned suffix [] = false
has_suffix pwned suffix (line ∷ lines) =
    let rest = has_suffix pwned suffix lines in
    if text_eq (pwned.strip (before_colon line)) suffix then true else rest

abbrev pub listed_in : Pwned → Text → Result Text → Result Bool
listed_in pwned suffix (ok text) = ok (has_suffix pwned suffix (pwned.splitlines text))
listed_in pwned suffix (err e) = if is_http_error e then ok false else err e

-- `_is_password_pwned`
unfoldable pub is_password_pwned : Pwned → Text → Result Bool
unfolding has_suffix
is_password_pwned pwned password =
    let sha1 = pwned.sha1_upper password in
    listed_in pwned (drop 5 sha1) (pwned.get_range (take 5 sha1))

-- `UserManager.validate_password`
unfoldable pub validate_password : Pwned → Text → Result (Unit {0})
unfolding is_password_pwned
validate_password pwned password = do
  require (not (ltb (length password) min_password_length)) invalid_password
  found ← is_password_pwned pwned password
  require (not found) invalid_password

-- What the handlers call. A call that sends a mail and stores a token has no value that is read.
pub record Manager : Type 0 where
  pub authenticate : Text → Text → Result (Option User)
  pub get_by_email : Text → Result User
  pub forgot_password : User → Result (Unit {0})
  pub request_verify : User → Result (Unit {0})
  pub reset_password : Text → Text → Result (Unit {0})
  pub create : Text → Text → Result User
  pub backend_login : User → Result (Unit {0})
  pub on_after_login : User → Result (Unit {0})

-- `user is None or not user.is_active`
abbrev active : Option User → Result User
active none = err (http_exception 400)
active (some u) = if u.is_active then ok u else err (http_exception 400)

-- `except (…): …`, by which exceptions are caught and what is gone on with
abbrev pub caught_as {ℓ} : {A : Type ℓ} → (Error → Bool) → Result A → Result A → Result A
caught_as test other (ok a) = ok a
caught_as test other (err e) = if test e then other else err e

abbrev pub is_not_exists : Error → Bool
is_not_exists user_not_exists = true
is_not_exists e = false

abbrev pub is_inactive : Error → Bool
is_inactive user_inactive = true
is_inactive e = false

abbrev pub is_verified_already : Error → Bool
is_verified_already user_already_verified = true
is_verified_already e = false

abbrev pub is_unverifiable : Error → Bool
is_unverifiable e = is_not_exists e || is_inactive e || is_verified_already e

abbrev is_refused_reset : Error → Bool
is_refused_reset invalid_reset_token = true
is_refused_reset user_not_exists = true
is_refused_reset user_inactive = true
is_refused_reset invalid_password = true
is_refused_reset e = false

abbrev is_refused_register : Error → Bool
is_refused_register user_already_exists = true
is_refused_register invalid_password = true
is_refused_register e = false

module _ (manager : Manager) where
  -- `login` after the limit on its address
  unfoldable pub login : Bool → Text → Text → Result (Unit {0})
  login within username password = do
    require within (http_exception 429)
    found ← manager.authenticate username password
    user ← active found
    manager.backend_login user
    manager.on_after_login user

  -- the part of `forgot_password` for a user that was looked up
  abbrev pub send_reset : Result User → Result (Unit {0})
  send_reset (err e) = if is_not_exists e then ok tt else err e
  send_reset (ok user) = caught_as is_inactive (ok tt) (manager.forgot_password user)

  -- `forgot_password` after the limit on its address
  unfoldable pub forgot_password : Bool → Text → Result (Unit {0})
  forgot_password within email = do
    require within (http_exception 429)
    send_reset (manager.get_by_email email)

  -- `request_verify_token` after the limit on its address
  unfoldable pub request_verify_token : Bool → Text → Result (Unit {0})
  request_verify_token within email = do
    require within (http_exception 429)
    caught_as is_unverifiable (ok tt)
        (do user ← manager.get_by_email email; manager.request_verify user)

  -- `reset_password` after the limit on its address
  unfoldable pub reset_password : Bool → Text → Text → Result (Unit {0})
  reset_password within token password = do
    require within (http_exception 429)
    caught_as is_refused_reset (err (http_exception 400)) (manager.reset_password token password)

  -- `register` after the limit on its address
  unfoldable pub register : Text → Text → Result User
  register email password =
      caught_as is_refused_register (err (http_exception 400)) (manager.create email password)
