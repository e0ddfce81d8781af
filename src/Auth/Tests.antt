-- ===== src/Auth/Tests.antt =====
-- An identity with an unverified email, and a forwarded request.
use sleuthgraph_api.Base.{◌≡◌, refl, Bool, true, false, none, some, [], ◌∷◌, ◌++◌}
use sleuthgraph_api.Base.Text.{Text, codes}
use sleuthgraph_api.Base.{any, map, leb, ◌&&◌, ◌+◌, List, if◌then◌else◌}
use sleuthgraph_api.Base.Text.{text_eq}
use sleuthgraph_api.Errors.{Result, ok, err, user_already_exists}
use sleuthgraph_api.Auth.Bootstrap.{bootstrap_admin, bootstrap_admin_again}
use sleuthgraph_api.Auth.Provision.{User, Bound, resolve_oidc_user, resolve_oidc_user-Bound}
use sleuthgraph_api.Auth.ClientIp.{valid_ip, get_client_ip, get_client_ip-appended}

abbrev local : User
local = record {
  id = 1;
  email = codes "a@b.c";
  hashed_password = codes "h";
  is_active = true;
  is_superuser = false;
  is_verified = false;
  oidc_sub = none;
}

abbrev same_text : Text → Text
same_text t = t

abbrev any_text : Text → Bool
any_text t = true

resolve_oidc_user-Bound_example :
    Bound same_text same_text 2 [] (codes "s") false (local ∷ []) (
      resolve_oidc_user same_text same_text 2 []
        (codes "s")
        (codes "a@b.c")
        false
        true
        (local ∷ []))
resolve_oidc_user-Bound_example =
    resolve_oidc_user-Bound same_text same_text 2 [] (codes "s") (codes "a@b.c") false true
      (local ∷ [])

appended_valid : valid_ip same_text any_text (some (codes "9.9.9.9")) ≡ some (codes "9.9.9.9")
unfolding valid_ip
appended_valid = refl

get_client_ip-appended_example :
    get_client_ip same_text any_text true none (some (codes "1.1.1.1" ++ codes ",9.9.9.9")) none
    ≡ codes "9.9.9.9"
get_client_ip-appended_example =
    get_client_ip-appended same_text any_text (codes "1.1.1.1") (codes "9.9.9.9") (codes "9.9.9.9")
      none (refl, (refl, (refl, (refl, (refl, (refl, (refl, tt))))))) appended_valid

-- A user manager that lower-cases addresses and refuses one that is taken.
abbrev lowered : Text → Result Text
lowered t = ok (map (λ c. if leb 65 c && leb c 90 then c + 32 else c) t)

abbrev admin : Text → Text → User
admin email password = record {
  id = 7;
  email = email;
  hashed_password = password;
  is_active = true;
  is_superuser = true;
  is_verified = true;
  oidc_sub = none;
}

abbrev created : Text → Text → List User → Result User × List User
created email password users =
    if any (λ u. text_eq u.email email) users
    then (err user_already_exists, users)
    else (ok (admin email password), users ++ admin email password ∷ [])

bootstrap_admin_again_example :
    bootstrap_admin lowered created
      (some (codes "Root@B.c"))
      (some (codes "pw"))
      (bootstrap_admin lowered created (some (codes "Root@B.c")) (some (codes "pw")) (local ∷ [])).1
    ≡ (err user_already_exists, local ∷ admin (codes "root@b.c") (codes "pw") ∷ [])
bootstrap_admin_again_example =
    bootstrap_admin_again lowered created (codes "Root@B.c") (codes "pw") (codes "root@b.c")
      (admin (codes "root@b.c") (codes "pw")) (local ∷ []) refl refl refl refl refl refl
      (λ us h. rw h refl)
