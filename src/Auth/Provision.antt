-- ===== src/Auth/Provision.antt =====
-- auth/oidc_provision.py: the user row of an OIDC identity.
pub mod Table
use sleuthgraph_api.Base.{
  ℕ, ◌≡◌, refl, Bool, true, false, Option, none, some, List, [], ◌∷◌, ◌++◌, inl, inr, ◌⊎◌, arith,
  Bool-cases, ◌==◌, if◌then◌else◌,
}
use sleuthgraph_api.Base.Text.{Text, text_eq, text_eq_iff}
use sleuthgraph_api.Errors.{Result, ok, err, account_not_linked, account_conflict}
use sleuthgraph_api.Sql.{select, scalar_one_or_none, update_where}
use sleuthgraph_api.Sql.Rows.{scalar-select}

-- auth/models.py; the columns that the code here reads or writes
pub record User : Type 0 where
  pub id : ℕ
  pub email : Text
  pub hashed_password : Text
  pub is_active : Bool
  pub is_superuser : Bool
  pub is_verified : Bool
  pub oidc_sub : Option Text

abbrev pub has_sub : Text → Option Text → Bool
has_sub sub none = false
has_sub sub (some s) = text_eq s sub

abbrev pub is_empty : Text → Bool
is_empty [] = true
is_empty (c ∷ cs) = false

-- `_find_by_sub`
abbrev pub find_by_sub : Text → List User → Result (Option User)
find_by_sub sub users = scalar_one_or_none (select (λ u. has_sub sub u.oidc_sub) users)

-- PostgreSQL's lower, Python's lower, a new UUID, and the hash of a random password.
module _ (sql_lower py_lower : Text → Text) (uuid4 : ℕ) (random_hash : Text) where
  -- `_find_by_email_ci`
  abbrev pub find_by_email_ci : Text → List User → Result (Option User)
  find_by_email_ci email users =
      scalar_one_or_none (select (λ u. text_eq (sql_lower u.email) (py_lower email)) users)

  abbrev pub linked : Text → User → User
  linked sub u = record u { oidc_sub = some sub; is_verified = true; hashed_password = random_hash }

  abbrev pub provisioned : Text → Text → User
  provisioned sub email = record {
    id = uuid4;
    email = email;
    hashed_password = random_hash;
    is_active = true;
    is_superuser = false;
    is_verified = true;
    oidc_sub = some sub;
  }

  -- the row has the email; what its own `oidc_sub` is decides
  pub link : Text → Bool → List User → User → Option Text → Result User × List User
  link sub email_verified users u none =
      if email_verified
      then (ok (linked sub u), update_where (λ x. x.id == u.id) (linked sub) users)
      else (err account_not_linked, users)
  link sub email_verified users u (some s) =
      if text_eq s sub then (ok u, users) else (err account_conflict, users)

  pub provision : Text → Text → Bool → Bool → List User → Result User × List User
  provision sub email email_verified allow_signup users =
      if allow_signup
      then (if email_verified
          then (ok (provisioned sub email), users ++ provisioned sub email ∷ [])
          else (err account_not_linked, users))
      else (err account_not_linked, users)

  pub by_email :
      Text → Text → Bool → Bool → List User → Result (Option User) → Result User × List User
  unfolding link provision
  by_email sub email email_verified allow_signup users (err e) = (err e, users)
  by_email sub email email_verified allow_signup users (ok (some u)) =
      link sub email_verified users u u.oidc_sub
  by_email sub email email_verified allow_signup users (ok none) =
      provision sub email email_verified allow_signup users

  pub by_sub :
      Text → Text → Bool → Bool → List User → Result (Option User) → Result User × List User
  unfolding by_email
  by_sub sub email email_verified allow_signup users (err e) = (err e, users)
  by_sub sub email email_verified allow_signup users (ok (some u)) = (ok u, users)
  by_sub sub email email_verified allow_signup users (ok none) =
      by_email sub email email_verified allow_signup users (find_by_email_ci email users)

  -- `resolve_oidc_user`, over the committed table of users
  unfoldable pub resolve_oidc_user : Text → Text → Bool → Bool → List User → Result User × List User
  unfolding by_sub
  resolve_oidc_user sub email email_verified allow_signup users =
      if is_empty sub
      then (err account_not_linked, users)
      else if is_empty email
      then (err account_not_linked, users)
      else by_sub sub email email_verified allow_signup users (find_by_sub sub users)

  -- A user that is returned is bound to the subject, a change of the table wants a verified email,
  -- and a call that raises changes nothing.
  abbrev pub Bound : Text → Bool → List User → Result User × List User → Type 0
  Bound sub email_verified users (ok u, after) =
      (u.oidc_sub ≡ some sub) × ((after ≡ users) ⊎ (email_verified ≡ true))
  Bound sub email_verified users (err e, after) = after ≡ users

  link-Bound :
      (sub : Text) (v : Bool) (users : List User) (u : User) (o : Option Text)
      → u.oidc_sub ≡ o
      → Bound sub v users (link sub v users u o)
  unfolding link
  link-Bound sub true users u none h = (refl, inr refl)
  link-Bound sub false users u none h = refl
  link-Bound sub v users u (some s) h = elim (Bool-cases (text_eq s sub)) [
    | inl e ↦ rw e (let same : s ≡ sub = (text_eq_iff s sub).0 e in ground arith, inl refl)
    | inr e ↦ rw e refl
  ]

  provision-Bound :
      (sub email : Text) (v allow : Bool) (users : List User)
      → Bound sub v users (provision sub email v allow users)
  unfolding provision
  provision-Bound sub email true true users = (refl, inr refl)
  provision-Bound sub email false true users = refl
  provision-Bound sub email v false users = refl

  by_email-Bound :
      (sub email : Text) (v allow : Bool) (users : List User) (found : Result (Option User))
      → Bound sub v users (by_email sub email v allow users found)
  unfolding by_email
  by_email-Bound sub email v allow users (err e) = refl
  by_email-Bound sub email v allow users (ok (some u)) = link-Bound sub v users u u.oidc_sub refl
  by_email-Bound sub email v allow users (ok none) = provision-Bound sub email v allow users

  pub has_sub_eq : (sub : Text) (o : Option Text) → has_sub sub o ≡ true → o ≡ some sub
  has_sub_eq sub none h = absurd (cc)
  has_sub_eq sub (some s) h = let same : s ≡ sub = (text_eq_iff s sub).0 h in ground arith

  by_sub-Bound :
      (sub email : Text) (v allow : Bool) (users : List User) (found : Result (Option User))
      → find_by_sub sub users ≡ found
      → Bound sub v users (by_sub sub email v allow users found)
  unfolding by_sub
  by_sub-Bound sub email v allow users (err e) h = refl
  by_sub-Bound sub email v allow users (ok (some u)) h = (
    scalar-select (λ x. x.oidc_sub ≡ some sub) (λ x. has_sub sub x.oidc_sub) users u
        (λ x t. has_sub_eq sub x.oidc_sub t) h,
    inl refl,
  )
  by_sub-Bound sub email v allow users (ok none) h =
      by_email-Bound sub email v allow users (find_by_email_ci email users)

  -- Whatever the table holds, a user that `resolve_oidc_user` returns carries the subject, the table
  -- changes only for a verified email, and a call that raises leaves the table as it was.
  pub resolve_oidc_user-Bound :
      (sub email : Text) (email_verified allow_signup : Bool) (users : List User)
      → Bound sub email_verified users
          (resolve_oidc_user sub email email_verified allow_signup users)
  unfolding resolve_oidc_user
  resolve_oidc_user-Bound [] email v allow users = refl
  resolve_oidc_user-Bound (c ∷ cs) [] v allow users = refl
  resolve_oidc_user-Bound (c ∷ cs) (d ∷ ds) v allow users =
      by_sub-Bound (c ∷ cs) (d ∷ ds) v allow users (find_by_sub (c ∷ cs) users) refl
