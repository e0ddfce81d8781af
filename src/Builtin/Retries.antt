-- ===== src/Builtin/Retries.antt =====
-- What tenacity's `retry` does with the exceptions of a plugin's `_fetch`.
use sleuthgraph_api.Base.{ℕ, ◌≡◌, refl, Bool, true, false, Option, List}
use sleuthgraph_api.Base.Text.{Text}
use sleuthgraph_api.Errors.{Error, Result, err, http_status}
use sleuthgraph_api.Graph.Json.{Json}
use sleuthgraph_api.Builtin.Web.{Web, is_retried, answered, checked_body}
use sleuthgraph_api.Builtin.Hibp

-- tenacity's documented behaviour, whatever `retry=` it is given: the first attempt's exception is raised
-- where it is not one of those that are retried.
abbrev pub Reraises : Web → Type 1
Reraises web =
    (A : Type 0) (retried : Error → Bool) (delay : Bool) (body : ℕ → Result A) (e : Error)
    → body 1 ≡ err e
    → retried e ≡ false
    → web.retrying {A = A} retried delay body ≡ err e

-- A 429 of Have I Been Pwned at the first attempt is raised as an HTTPStatusError whatever later
-- attempts would be answered, where httpx takes a 429 for no success and tenacity raises the first
-- attempt's exception where its `retry=` does not name it.
pub lookup_rate_limited :
    (web : Web) (email key : Text) (chunks : List (List ℕ)) (broken : Option Error)
    → Reraises web
    → web.is_success 429 ≡ false
    → web.exchange (Hibp.breach_request web email key) 1 ≡ answered 429 chunks broken
    → Hibp.lookup web email key ≡ err http_status
unfolding Hibp.lookup Hibp.attempt checked_body
lookup_rate_limited web email key chunks broken reraises limited answer =
    rw
      (reraises (Option (List ℕ × List Json)) is_retried true
        (λ n. Hibp.attempt web (web.exchange (Hibp.breach_request web email key) n)) http_status
        (rw (answer, limited) refl) refl)
      refl
