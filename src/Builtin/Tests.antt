-- ===== src/Builtin/Tests.antt =====
-- A network that gives every request one answer, and the plugins' results on it.
use sleuthgraph_api.Base.{
  ℕ, ◌+◌, ◌≡◌, refl, String, Bool, true, false, none, some, List, [], ◌∷◌, leb, ltb, ◌&&◌, All, map,
}
use sleuthgraph_api.Base.Text.{codes}
use sleuthgraph_api.Errors.{Error, Result, ok, err, http_status, http_transport}
use sleuthgraph_api.Graph.Json.{Json, null, str, arr, obj}
use sleuthgraph_api.Model.{Entity}
use sleuthgraph_api.Plugins.Base.{QueryResult}
use sleuthgraph_api.Plugins.Runner.{execute_plugin}
use sleuthgraph_api.Builtin.Web.{Web, Exchange, answered, loaded}
use sleuthgraph_api.Builtin.Values.{items_of, dict}
use sleuthgraph_api.Errors.Every.{Every}
use sleuthgraph_api.Builtin.Resolved.{AllResolve, plugins-AllResolve}
use sleuthgraph_api.Builtin.Shipped.{plugins}
use sleuthgraph_api.Builtin.Found.{extract_subdomains-Meant, Meant, all_names}
use sleuthgraph_api.Builtin.Caps.Full.{FullOrFits, query-FullOrFits}
use sleuthgraph_api.Builtin.Caps.Limits.{WithinLimits, query-WithinLimits}
use sleuthgraph_api.Builtin.Keys.{shodan_key_hidden}
use sleuthgraph_api.Builtin.Retries.{lookup_rate_limited}
use sleuthgraph_api.Builtin.CrtSh
use sleuthgraph_api.Builtin.Hibp
use sleuthgraph_api.Builtin.Shodan
use sleuthgraph_api.Builtin.VirusTotal
use sleuthgraph_api.Builtin.Wayback
use sleuthgraph_api.Builtin.Patterns.{domain_re, ip_input_re, email_re}
use sleuthgraph_api.Fixtures.{world, session, waiting, host}

-- Up to three attempts, of which those that may be retried are.
abbrev next_or : {A : Type 0} → Bool → Error → Result A → Result A
next_or true e next = next
next_or false e next = err e

abbrev again : {A : Type 0} → (Error → Bool) → Result A → Result A → Result A
again retried (ok a) next = ok a
again retried (err e) next = next_or (retried e) e next

abbrev three : (A : Type 0) → (Error → Bool) → Bool → (ℕ → Result A) → Result A
three A retried delay body = again retried (body 1) (again retried (body 2) (body 3))

abbrev web_of : Exchange → Json → Web
web_of answer value = record {
  exchange = λ request n. answer;
  retrying = λ {A} test delay body. three A test delay body;
  is_success = λ status. leb 200 status && ltb status 300;
  loads = λ raw. loaded value;
  resolve = λ domain rdtype. ok (codes "10.0.0.1." ∷ []);
  resolve_mx = λ domain. err http_transport;
  strip = λ t. t;
  lower = λ t. t;
  splitlines = λ t. t ∷ [];
  is_decimal = λ c. leb b'0' c && leb c b'9';
  quote = λ t. t;
  urlencode = λ fields. [];
  urlsafe_b64encode = λ t. t;
  str_nat = λ n. (b'0' + n) ∷ [];
  str_of = λ value. [];
  less = λ a b. ok false;
  sorted_by = λ {A} key xs. ok xs;
  isoformat = [];
}

-- What crt.sh answers about example.org: a subdomain, a wildcard and a foreign name.
abbrev entry : String → Json
entry name = obj (dict ((codes "name_value", str (codes name)) ∷ []))

abbrev crtsh_json : Json
crtsh_json = arr (
    items_of (
      entry "www.example.org"
      ∷ entry "*.example.org"
      ∷ entry "www.example.com"
      ∷ entry "www.example.org"
      ∷ []))

abbrev ok_answer : Exchange
ok_answer = answered 200 (codes "[]" ∷ []) none

abbrev crtsh_web : Web
crtsh_web = web_of ok_answer crtsh_json

-- The labels of the proposed entities.
abbrev labels : Result QueryResult → List String
labels (ok r) = map (λ e. e.label) r.entities
labels (err e) = []

crtsh_labels : labels (CrtSh.query crtsh_web host none) ≡ "www.example.org" ∷ []
unfolding CrtSh.query
crtsh_labels = refl

-- A 429 is retried, and raised at the end.
crtsh_limited : CrtSh.query (web_of (answered 429 [] none) null) host none ≡ err http_transport
unfolding CrtSh.query
crtsh_limited = refl

domain_matches : domain_re (codes "www.example.org") ≡ true
unfolding domain_re
domain_matches = refl

domain_refused :
    (domain_re (codes "-a.org") ≡ false)
    × (domain_re (codes "localhost") ≡ false)
    × (domain_re (codes "a.org/x") ≡ false)
unfolding domain_re
domain_refused = (refl, refl, refl)

ip_refused : ip_input_re (codes "1.2.3.4?key=x") ≡ false
unfolding ip_input_re
ip_refused = refl

email_cases : (email_re (codes "a+b@x.org") ≡ true) × (email_re (codes "a@x/y") ≡ false)
unfolding email_re
email_cases = (refl, refl)

plugins-AllResolve_example :
    All (λ p. Every (AllResolve world 10 none host session) (p.query host none)) (plugins crtsh_web)
plugins-AllResolve_example = plugins-AllResolve crtsh_web world 10 none host none session

query-FullOrFits_example :
    Every
      (FullOrFits
        (execute_plugin world (CrtSh.plugin crtsh_web) waiting 10 host none none session).0)
      (CrtSh.query crtsh_web host none)
query-FullOrFits_example = query-FullOrFits crtsh_web world waiting 10 host none none session

-- An address, and what Shodan answers about it.
abbrev address : Entity
address = record host { type = "IP_ADDRESS"; label = "10.0.0.1" }

abbrev shodan_web : Web
shodan_web = web_of ok_answer (
    obj (
      dict (
        (codes "hostnames", arr (items_of (str (codes "a.example.org.") ∷ [])))
        ∷ (
          codes "domains",
          arr (items_of (str (codes "a.example.org") ∷ str (codes "b.example.org") ∷ [])),
        )
        ∷ [])))

shodan_labels :
    labels (Shodan.query shodan_web address (some (codes "k")))
    ≡ "a.example.org" ∷ "b.example.org" ∷ []
unfolding Shodan.query
shodan_labels = refl

query-WithinLimits_example :
    Every (WithinLimits 50) (Shodan.query shodan_web address (some (codes "k")))
    × Every (WithinLimits 50) (VirusTotal.query shodan_web address (some (codes "k")))
    × Every (WithinLimits 500) (Wayback.query shodan_web address (some (codes "k")))
query-WithinLimits_example = query-WithinLimits shodan_web address (some (codes "k"))

shodan_key_hidden_example :
    Shodan.query shodan_web address (some (codes "k"))
    ≡ Shodan.query shodan_web address (some (codes "l"))
shodan_key_hidden_example = shodan_key_hidden shodan_web address (codes "k") (codes "l") (λ n. refl)

abbrev limited_web : Web
limited_web = web_of (answered 429 [] none) null

reraised :
    (A : Type 0) (retried : Error → Bool) (delay : Bool) (body : ℕ → Result A) (e : Error)
    → body 1 ≡ err e
    → retried e ≡ false
    → three A retried delay body ≡ err e
reraised A retried delay body e h k = rw h (rw k refl)

lookup_rate_limited_example :
    Hibp.lookup limited_web (codes "a@x.org") (codes "k") ≡ err http_status
lookup_rate_limited_example =
    lookup_rate_limited limited_web (codes "a@x.org") (codes "k") [] none reraised refl refl

abbrev crtsh_entries : List Json
crtsh_entries = entry "www.example.org" ∷ entry "*.example.org" ∷ entry "www.example.org" ∷ []

extract_subdomains-Meant_example :
    Every
      (Meant crtsh_web
        (codes "example.org")
        (codes "www.example.org")
        []
        (all_names crtsh_web (codes "example.org") crtsh_entries))
      (CrtSh.extract_subdomains crtsh_web (codes "example.org") crtsh_entries [])
extract_subdomains-Meant_example =
    extract_subdomains-Meant crtsh_web (codes "example.org") (codes "www.example.org") crtsh_entries
