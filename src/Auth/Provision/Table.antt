-- ===== src/Auth/Provision/Table.antt =====
-- auth/oidc_provision.py: the user that is returned has a row in the table.
use sleuthgraph_api.Base.{
  ◌≡◌, refl, Bool, true, false, Option, none, some, List, [], ◌∷◌, ◌++◌, ◌⊎◌, inl, inr, keep, ◌==◌,
  ==_refl, Bool-cases, ℕ,
}
use sleuthgraph_api.Base.Text.{Text, text_eq}
use sleuthgraph_api.Errors.{Result, ok, err}
use sleuthgraph_api.Sql.{select, scalar_one_or_none, update_where}
use sleuthgraph_api.Sql.Single.{scalar_single}
use sleuthgraph_api.Auth.Provision.{
  User, find_by_sub, find_by_email_ci, linked, link, provision, by_email, by_sub, resolve_oidc_user,
}

-- The user is a row of the table.
abbrev pub IsRow : User → List User → Type 0
IsRow u [] = ⊥
IsRow u (x ∷ xs) = (x ≡ u) ⊎ IsRow u xs

kept-IsRow :
    (p : User → Bool) (users : List User) (u : User) → keep p users ≡ u ∷ [] → IsRow u users
kept-IsRow p [] u h = absurd (cc)
kept-IsRow p (x ∷ xs) u h = elim (Bool-cases (p x)) [
  | inl yes_kept ↦
      inl (let e : ◌≡◌ {A = List User} (x ∷ keep p xs) (u ∷ []) = (rw yes_kept at h) in cc)
  | inr dropped ↦ inr (kept-IsRow p xs u (rw dropped at h))
]

-- A row that a query finds alone.
pub found-IsRow :
    (p : User → Bool) (users : List User) (u : User)
    → scalar_one_or_none (select p users) ≡ ok (some u)
    → IsRow u users
found-IsRow p users u h = kept-IsRow p users u (scalar_single (keep p users) u h)

appended-IsRow : (users : List User) (u : User) → IsRow u (users ++ u ∷ [])
appended-IsRow [] u = inl refl
appended-IsRow (x ∷ xs) u = inr (appended-IsRow xs u)

updated-IsRow :
    (f : User → User) (users : List User) (u : User)
    → IsRow u users
    → IsRow (f u) (update_where (λ x. x.id == u.id) f users)
updated-IsRow f [] u h = absurd h
updated-IsRow f (x ∷ xs) u (inl same) = rw same (rw (==_refl u.id) (inl refl))
updated-IsRow f (x ∷ xs) u (inr later) = inr (updated-IsRow f xs u later)

-- What a resolution returns has a row in the table that it leaves.
abbrev pub HasRow : Result User × List User → Type 0
HasRow (ok u, after) = IsRow u after
HasRow (err e, after) = Unit {0}

module _ (sql_lower py_lower : Text → Text) (uuid4 : ℕ) (random_hash : Text) where
  link-HasRow :
      (sub : Text) (v : Bool) (users : List User) (u : User) (o : Option Text)
      → IsRow u users
      → HasRow (link sql_lower py_lower uuid4 random_hash sub v users u o)
  unfolding link
  link-HasRow sub true users u none h =
      updated-IsRow (linked sql_lower py_lower uuid4 random_hash sub) users u h
  link-HasRow sub false users u none h = tt
  link-HasRow sub v users u (some s) h = elim (Bool-cases (text_eq s sub)) [
    | inl same ↦ rw same h
    | inr other ↦ rw other tt
  ]

  provision-HasRow :
      (sub email : Text) (v allow : Bool) (users : List User)
      → HasRow (provision sql_lower py_lower uuid4 random_hash sub email v allow users)
  unfolding provision
  provision-HasRow sub email true true users = appended-IsRow users _
  provision-HasRow sub email false true users = tt
  provision-HasRow sub email v false users = tt

  by_email-HasRow :
      (sub email : Text) (v allow : Bool) (users : List User) (found : Result (Option User))
      → find_by_email_ci sql_lower py_lower uuid4 random_hash email users ≡ found
      → HasRow (by_email sql_lower py_lower uuid4 random_hash sub email v allow users found)
  unfolding by_email
  by_email-HasRow sub email v allow users (err e) h = tt
  by_email-HasRow sub email v allow users (ok (some u)) h =
      link-HasRow sub v users u u.oidc_sub (found-IsRow _ users u h)
  by_email-HasRow sub email v allow users (ok none) h = provision-HasRow sub email v allow users

  by_sub-HasRow :
      (sub email : Text) (v allow : Bool) (users : List User) (found : Result (Option User))
      → find_by_sub sub users ≡ found
      → HasRow (by_sub sql_lower py_lower uuid4 random_hash sub email v allow users found)
  unfolding by_sub
  by_sub-HasRow sub email v allow users (err e) h = tt
  by_sub-HasRow sub email v allow users (ok (some u)) h = found-IsRow _ users u h
  by_sub-HasRow sub email v allow users (ok none) h =
      by_email-HasRow sub email v allow users
        (find_by_email_ci sql_lower py_lower uuid4 random_hash email users) refl

  pub resolve_oidc_user-HasRow :
      (sub email : Text) (v allow : Bool) (users : List User)
      → HasRow (resolve_oidc_user sql_lower py_lower uuid4 random_hash sub email v allow users)
  unfolding resolve_oidc_user
  resolve_oidc_user-HasRow [] email v allow users = tt
  resolve_oidc_user-HasRow (c ∷ cs) [] v allow users = tt
  resolve_oidc_user-HasRow (c ∷ cs) (d ∷ ds) v allow users =
      by_sub-HasRow (c ∷ cs) (d ∷ ds) v allow users (find_by_sub (c ∷ cs) users) refl
