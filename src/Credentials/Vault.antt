-- ===== src/Credentials/Vault.antt =====
-- A key that was stored, and a key that was deleted.
use sleuthgraph_api.Base.{
  ℕ, ◌≡◌, refl, ap, ◌∙◌, String, Bool, true, Option, none, some, List, [], ◌∷◌, ◌++◌, arith, keep,
  not, str_eq, str_eq_iff, ◌+◌, ◌==◌,
}
use sleuthgraph_api.Base.Text.{Text}
use sleuthgraph_api.Errors.{ok}
use sleuthgraph_api.Model.{Session, World, Credential}
use sleuthgraph_api.Sql.{select, scalar_one_or_none, update_where}
use sleuthgraph_api.Credentials.{
  cred_of, upsert, decrypt_found, store_credential, get_credential, delete_credential,
}

keep-update_same :
    (p q : Credential → Bool) (f : Credential → Credential) (rows : List Credential)
    → ((c : Credential) → p (f c) ≡ p c)
    → keep p (update_where q f rows) ≡ update_where q f (keep p rows)
keep-update_same p q f [] h = refl
keep-update_same p q f (c ∷ rows) h = ground (arith, h c, keep-update_same p q f rows h)

keep-append :
    (p : Credential → Bool) (rows : List Credential) (c : Credential)
    → p c ≡ true
    → keep p (rows ++ c ∷ []) ≡ keep p rows ++ c ∷ []
keep-append p [] c h = ground arith
keep-append p (x ∷ rows) c h = ground (arith, keep-append p rows c h)

keep-keep-not :
    (p : Credential → Bool) (rows : List Credential) → keep p (keep (λ c. not (p c)) rows) ≡ []
keep-keep-not p [] = refl
keep-keep-not p (x ∷ rows) = ground (arith, keep-keep-not p rows)

single_row :
    (rows : List Credential) (c : Credential)
    → scalar_one_or_none rows ≡ ok (some c)
    → rows ≡ c ∷ []
single_row [] c h = absurd (cc)
single_row (x ∷ []) c h = ground arith
single_row (x ∷ y ∷ r) c h = absurd (cc)

no_row : (rows : List Credential) → scalar_one_or_none rows ≡ ok none → rows ≡ []
no_row [] h = refl
no_row (x ∷ []) h = absurd (cc)
no_row (x ∷ y ∷ r) h = absurd (cc)

module _ (w : World) where
  -- After the deletion of a key, a read of the same user and plugin finds none, however many there were.
  delete_credential-get_credential :
      (user : ℕ) (plugin : String) (s : Session)
      → (get_credential w user plugin (delete_credential user plugin s).1).0 ≡ ok none
  unfolding get_credential delete_credential decrypt_found
  delete_credential-get_credential user plugin s =
      ground (arith, keep-keep-not (cred_of user plugin) s.live.credentials)

  upserted :
      (user : ℕ) (plugin : String) (token : Text) (found : Option Credential) (s : Session)
      → scalar_one_or_none (select (cred_of user plugin) s.live.credentials) ≡ ok found
      → (c : Credential) × (t : Session) × (upsert w user plugin token found s ≡ (ok c, t))
        × (c.encrypted_key ≡ token)
        × (scalar_one_or_none (select (cred_of user plugin) t.live.credentials) ≡ ok (some c))
  unfolding upsert
  upserted user plugin token none s h =
      let cred : Credential = record {
        id = w.uuid4 s.ticks;
        user_id = user;
        plugin_name = plugin;
        encrypted_key = token;
        created_at = w.now (s.ticks + 1);
      } in
      let same : str_eq plugin plugin ≡ true = (str_eq_iff plugin plugin).1 refl in
      let own : cred_of user plugin cred ≡ true = ground arith in
      let rows : keep (cred_of user plugin) (s.live.credentials ++ cred ∷ []) ≡ cred ∷ [] =
        ground (arith, keep-append (cred_of user plugin) s.live.credentials cred own, no_row _ h) in
      (cred, _, refl, refl, ap scalar_one_or_none rows)
  upserted user plugin token (some c) s h =
      let f : Credential → Credential = λ x. record x { encrypted_key = token } in
      let found : keep (cred_of user plugin) s.live.credentials ≡ c ∷ [] = single_row _ c h in
      let rows : keep (cred_of user plugin) (update_where (λ x. x.id == c.id) f s.live.credentials)
          ≡ f c ∷ [] =
        keep-update_same (cred_of user plugin) (λ x. x.id == c.id) f s.live.credentials (λ x. refl)
        ∙ ap (update_where (λ x. x.id == c.id) f) found
        ∙ ground arith in
      (f c, _, refl, refl, ap scalar_one_or_none rows)

  get_stored :
      (user : ℕ) (plugin : String) (key : Text) (c : Credential) (t : Session)
      → w.fernet_decrypt c.encrypted_key ≡ some key
      → scalar_one_or_none (select (cred_of user plugin) t.live.credentials) ≡ ok (some c)
      → (get_credential w user plugin t).0 ≡ ok (some key)
  unfolding get_credential decrypt_found
  get_stored user plugin key c t h e = ground arith

  -- Where Fernet opens what it sealed and the vault holds at most one key of the user for the plugin,
  -- storing a key returns, and a read of the same user and plugin then gives the key that was stored,
  -- whether it replaced an older one or not.
  pub store_credential-get_credential :
      (user : ℕ) (plugin : String) (key : Text) (found : Option Credential) (s : Session)
      → ((n : ℕ) (k : Text) → w.fernet_decrypt (w.fernet_encrypt n k) ≡ some k)
      → scalar_one_or_none (select (cred_of user plugin) s.live.credentials) ≡ ok found
      → (c : Credential) × ((store_credential w user plugin key s).0 ≡ ok c)
        × ((get_credential w user plugin (store_credential w user plugin key s).1).0
            ≡ ok (some key))
  unfolding store_credential
  store_credential-get_credential user plugin key found s opens h =
      let token : Text = w.fernet_encrypt s.ticks key in
      let drawn : Session = record s { ticks = s.ticks + 1 } in
      let (c, t, done, sealed, stored) = upserted user plugin token found drawn h in
      let all : store_credential w user plugin key s ≡ (ok c, t) = ground arith in
      (
        c,
        ap (λ r. r.0) all,
        ap (λ r. (get_credential w user plugin r.1).0) all
            ∙ get_stored user plugin key c t (ap w.fernet_decrypt sealed ∙ opens s.ticks key)
                stored,
      )
