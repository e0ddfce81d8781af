-- ===== src/Credentials/Tests.antt =====
-- A key that is stored, read and deleted.
use sleuthgraph_api.Base.{ℕ, ◌≡◌, refl, none, some}
use sleuthgraph_api.Base.Text.{Text, codes}
use sleuthgraph_api.Errors.{ok}
use sleuthgraph_api.Model.{Credential}
use sleuthgraph_api.Credentials.{store_credential, get_credential}
use sleuthgraph_api.Credentials.Vault.{store_credential-get_credential}
use sleuthgraph_api.Fixtures.{world, session}

opens : (n : ℕ) (k : Text) → world.fernet_decrypt (world.fernet_encrypt n k) ≡ some k
opens n k = refl

store_credential-get_credential_example :
    (c : Credential) × ((store_credential world 1 "dns" (codes "key") session).0 ≡ ok c)
    × ((get_credential world 1 "dns" (store_credential world 1 "dns" (codes "key") session).1).0
        ≡ ok (some (codes "key")))
store_credential-get_credential_example =
    store_credential-get_credential world 1 "dns" (codes "key") none session opens refl
