-- ===== src/Builtin/Web.antt =====
-- What the built-in plugins reach out to and the parts of their `_fetch` that agree. httpx, tenacity,
-- dnspython and Python's own text functions are parameters.
use sleuthgraph_api.Base.{
  ℕ, ◌+◌, ◌≤◌, ◌≡◌, Bool, true, false, Option, none, some, List, [], ◌∷◌, ◌++◌, if◌then◌else◌, ltb,
  length, arith, length-append, refl,
}
use sleuthgraph_api.Base.Text.{Text}
use sleuthgraph_api.Errors.{
  Error, Result, ok, err, http_error, http_status, http_timeout, http_transport, ◌>>=◌,
}
use sleuthgraph_api.Graph.Json.{Json}

-- One HTTP request of a plugin. `form` is the body of a POST.
pub record Request : Type 0 where
  pub method : Text
  pub url : Text
  pub headers : List (Text × Text)
  pub form : List (Text × Text)

-- What one attempt meets: it raises before a response, or a response starts, with its status, its
-- Retry-After header, the chunks of its body, and the exception that breaks the body off.
pub data Exchange : Type 0 where
  failed : Error → Exchange
  answered : ℕ → List (List ℕ) → Option Error → Exchange

-- `json.loads(raw)`: a value, a JSONDecodeError, or another exception (bytes that are no text).
pub data Loads : Type 0 where
  loaded : Json → Loads
  not_json : Loads
  broken_text : Error → Loads

-- `retrying` is tenacity's `retry`, which runs the numbered attempts: it takes the test of the exceptions
-- that are retried, and whether the 30 seconds' limit is set.
pub record Web : Type 1 where
  pub exchange : Request → ℕ → Exchange
  pub retrying : {A : Type 0} → (Error → Bool) → Bool → (ℕ → Result A) → Result A
  pub is_success : ℕ → Bool
  pub loads : List ℕ → Loads
  pub resolve : Text → Text → Result (List Text)
  pub resolve_mx : Text → Result (List (ℕ × Text))
  pub strip : Text → Text
  pub lower : Text → Text
  pub splitlines : Text → List Text
  pub is_decimal : ℕ → Bool
  pub quote : Text → Text
  pub urlencode : List (Text × Text) → Text
  pub urlsafe_b64encode : Text → Text
  pub str_nat : ℕ → Text
  pub str_of : Json → Text
  pub less : Json → Json → Result Bool
  pub sorted_by : {A : Type 0} → (A → Json) → List A → Result (List A)
  pub isoformat : Text

-- `retry_if_exception_type((httpx.TransportError, httpx.TimeoutException))`, of every `_fetch`
abbrev pub is_retried : Error → Bool
is_retried http_timeout = true
is_retried http_transport = true
is_retried e = false

-- `isinstance(e, httpx.HTTPError)`
abbrev pub is_http_error : Error → Bool
is_http_error http_timeout = true
is_http_error http_status = true
is_http_error http_transport = true
is_http_error http_error = true
is_http_error e = false

-- `except httpx.HTTPError:` with what stands for the fetched value then; the flag is the handler's
unfoldable pub rescued : {A : Type 0} → A → Result A → Result (A × Bool)
rescued default (ok a) = ok (a, false)
rescued default (err e) = if is_http_error e then ok (default, true) else err e

-- `MAX_RESPONSE_BYTES` of every module
abbrev pub max_response_bytes : ℕ
max_response_bytes = 10485760

-- the loop over `resp.aiter_bytes()`, and `b"".join(chunks)`
unfoldable pub read_body : ℕ → List (List ℕ) → Option Error → Result (List ℕ)
read_body total [] none = ok []
read_body total [] (some e) = err e
read_body total (chunk ∷ chunks) broken =
    let rest = read_body (total + length chunk) chunks broken in
    if ltb max_response_bytes (total + length chunk)
    then err http_error
    else (do tail ← rest; ok (chunk ++ tail))

-- `try: json.loads(raw) except json.JSONDecodeError: …`, and what is made of the value
unfoldable pub parsed_or : {A : Type 0} → A → (Json → A) → Loads → Result A
parsed_or default read (loaded value) = ok (read value)
parsed_or default read not_json = ok default
parsed_or default read (broken_text e) = err e

-- A read that is returned with its bytes.
unfoldable pub with_raw : {A : Type 0} → List ℕ → Result A → Result (List ℕ × A)
with_raw raw (ok value) = ok (raw, value)
with_raw raw (err e) = err e

module _ (web : Web) where
  -- `resp.raise_for_status()` and the body
  unfoldable pub checked_body : ℕ → List (List ℕ) → Option Error → Result (List ℕ)
  unfolding read_body
  checked_body status chunks broken =
      if web.is_success status then read_body 0 chunks broken else err http_status

  unfoldable pub body_of : Exchange → Result (List ℕ)
  unfolding checked_body
  body_of (failed e) = err e
  body_of (answered status chunks broken) = checked_body status chunks broken

  -- the `_fetch` of crtsh, shodan, virustotal, wayback_cdx, opencorporates, opensanctions and aleph,
  -- by what they make of the JSON
  unfoldable pub fetch : {A : Type 0} → A → (Json → A) → Request → Result (List ℕ × A)
  unfolding body_of parsed_or with_raw
  fetch default read request = web.retrying is_retried true λ n. do
    raw ← body_of (web.exchange request n)
    with_raw raw (parsed_or default read (web.loads raw))

chunk_read :
    (over : Bool) (m : Result (List ℕ)) (chunk raw : List ℕ)
    → (if over then err http_error else (do tail ← m; ok (chunk ++ tail))) ≡ ok raw
    → (over ≡ false) × (tail : List ℕ) × (m ≡ ok tail) × (raw ≡ chunk ++ tail)
chunk_read true m chunk raw e = cc
chunk_read false (ok tail) chunk raw e = (refl, tail, refl, cc)
chunk_read false (err x) chunk raw e = cc

-- A body that is read has at most the bytes that were left of the limit.
pub read_body_le :
    (total : ℕ) (chunks : List (List ℕ)) (broken : Option Error) (raw : List ℕ)
    → total ≤ max_response_bytes
    → read_body total chunks broken ≡ ok raw
    → total + length raw ≤ max_response_bytes
unfolding read_body
read_body_le total [] none [] h e = omega arith
read_body_le total [] none (b ∷ bs) h e = cc
read_body_le total [] (some x) raw h e = cc
read_body_le total (chunk ∷ chunks) broken raw h e =
    let (fits, tail, read, joined) =
      chunk_read (ltb max_response_bytes (total + length chunk))
        (read_body (total + length chunk) chunks broken) chunk raw e in
    let bound : total + length chunk ≤ max_response_bytes = ground (arith, fits) in
    rw joined (
      rw (length-append chunk tail)
        (omega (arith, read_body_le (total + length chunk) chunks broken tail bound read)))
