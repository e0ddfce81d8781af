-- ===== src/Auth/Bootstrap.antt =====
-- auth/bootstrap.py: the administrator that the environment names, created when the service starts.
-- The users are those that are committed: the user database of fastapi-users commits what it creates.
use sleuthgraph_api.Base.{
  ◌≡◌, refl, Bool, true, false, ◌&&◌, Option, none, some, List, [], ◌∷◌, ◌++◌, any, keep, ap, ◌∙◌,
  if◌then◌else◌, arith, Bool-cases, inl, inr,
}
use sleuthgraph_api.Base.Text.{Text, text_eq, text_eq_refl}
use sleuthgraph_api.Errors.{Result, ok, err, user_already_exists}
use sleuthgraph_api.Sql.Single.{keep-append}
use sleuthgraph_api.Sql.{select, scalar_one_or_none}
use sleuthgraph_api.Auth.Provision.{User}
use sleuthgraph_api.Auth.Oidc.Callback.{is_given}

any_last :
    {A : Type 0} (p : A → Bool) (xs : List A) (x : A) → p x ≡ true → any p (xs ++ x ∷ []) ≡ true
any_last p [] x h = ground (arith, h)
any_last p (y ∷ ys) x h = ground (arith, any_last p ys x h)

-- `EmailStr` of UserCreate, which normalises an address or raises, and `UserManager.create` with an
-- address and a password, for a superuser that is active and verified.
module _ (email_str : Text → Result Text)
    (create : Text → Text → List User → Result User × List User) where
  abbrev made : Result User × List User → Result (Unit {0}) × List User
  made (ok user, users) = (ok tt, users)
  made (err e, users) = (err e, users)

  abbrev create_admin : Text → List User → Result Text → Result (Unit {0}) × List User
  create_admin password users (ok email) = made (create email password users)
  create_admin password users (err e) = (err e, users)

  -- after the SELECT
  abbrev unless_existing :
      Text → Text → List User → Result (Option User) → Result (Unit {0}) × List User
  unless_existing email password users (err e) = (err e, users)
  unless_existing email password users (ok (some user)) = (ok tt, users)
  unless_existing email password users (ok none) = create_admin password users (email_str email)

  -- `bootstrap_admin`, with both settings
  abbrev given_admin : Text → Text → List User → Result (Unit {0}) × List User
  given_admin email password users =
      unless_existing email password users
        (scalar_one_or_none (select (λ user. text_eq user.email email) users))

  unfoldable pub bootstrap_admin :
      Option Text → Option Text → List User → Result (Unit {0}) × List User
  bootstrap_admin none password users = (ok tt, users)
  bootstrap_admin (some email) none users = (ok tt, users)
  bootstrap_admin (some email) (some password) users =
      if is_given (some email) && is_given (some password)
      then given_admin email password users
      else (ok tt, users)

  -- Where `create` refuses an address that a user has, and appended a user with the normalised
  -- address to a table without the given one: a second bootstrap with the same settings changes
  -- nothing, and returns when normalising left the address as it was, and otherwise raises
  -- UserAlreadyExists.
  pub bootstrap_admin_again :
      (email password normal : Text) (user : User) (users : List User)
      → is_given (some email) ≡ true
      → is_given (some password) ≡ true
      → select (λ u. text_eq u.email email) users ≡ []
      → email_str email ≡ ok normal
      → create normal password users ≡ (ok user, users ++ user ∷ [])
      → user.email ≡ normal
      → ((us : List User)
          → any (λ u. text_eq u.email normal) us ≡ true
          → create normal password us ≡ (err user_already_exists, us))
      → bootstrap_admin
          (some email)
          (some password)
          (bootstrap_admin (some email) (some password) users).1
        ≡ (if text_eq normal email then ok tt else err user_already_exists, users ++ user ∷ [])
  unfolding bootstrap_admin
  bootstrap_admin_again email password normal user users ge gp none_yet norm made_it same refuses =
      let rows : keep (λ u. text_eq u.email email) (users ++ user ∷ [])
          ≡ keep (λ u. text_eq u.email email) (user ∷ []) =
        keep-append (λ u. text_eq u.email email) users (user ∷ [])
        ∙ ap (λ l. l ++ keep (λ u. text_eq u.email email) (user ∷ [])) none_yet in
      let refused : create normal password (users ++ user ∷ [])
          ≡ (err user_already_exists, users ++ user ∷ []) =
        refuses (users ++ user ∷ [])
          (any_last (λ u. text_eq u.email normal) users user (rw same (text_eq_refl normal))) in
      elim (Bool-cases (text_eq normal email)) [
        | inl kept ↦
            let found : text_eq user.email email ≡ true = rw same kept in
            rw (ge, gp, none_yet, norm, made_it, rows, found, kept) refl
        | inr changed ↦
            let differs : text_eq user.email email ≡ false = rw same changed in
            rw (ge, gp, none_yet, norm, made_it, rows, differs, norm, refused, changed) refl
      ]
