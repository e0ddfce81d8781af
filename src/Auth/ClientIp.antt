-- ===== src/Auth/ClientIp.antt =====
-- auth/rate_limit.py: the address that a request is counted under. How Python strips a text and
-- whether `ipaddress` parses it are arguments.
use sleuthgraph_api.Base.{
  ◌≡◌, refl, ap, ◌∙◌, Bool, true, false, Option, none, some, List, [], ◌∷◌, ◌++◌, inl, inr, arith,
  Bool-cases, ◌==◌, if◌then◌else◌,
}
use sleuthgraph_api.Base.Text.{Text, codes}
use sleuthgraph_api.Entities.Domain.{split}
use sleuthgraph_api.Auth.Provision.{is_empty}

module _ (strip : Text → Text) (parses : Text → Bool) where
  -- `_valid_ip`
  unfoldable pub valid_ip : Option Text → Option Text
  valid_ip none = none
  valid_ip (some value) =
      if is_empty value
      then none
      else if is_empty (strip value)
      then none
      else if parses (strip value)
      then some (strip value)
      else none

  -- the loop over `reversed(xff.split(","))`
  pub last_valid : List Text → Option Text
  unfolding valid_ip
  last_valid [] = none
  last_valid (raw ∷ raws) = elim (last_valid raws) [
    | some ip ↦ some ip
    | none ↦ valid_ip (some raw)
  ]

  -- `if xff:`
  pub forwarded : Option Text → Option Text
  unfolding last_valid
  forwarded none = none
  forwarded (some xff) = if is_empty xff then none else last_valid (split b',' xff)

  -- `request.client.host`
  abbrev pub peer : Option Text → Text
  peer none = codes "unknown"
  peer (some host) = host

  abbrev first_of : Option Text → Option Text → Text → Text
  first_of (some a) b c = a
  first_of none (some b) c = b
  first_of none none c = c

  -- `get_client_ip`, by the setting, the two headers and the peer
  pub get_client_ip : Bool → Option Text → Option Text → Option Text → Text
  unfolding forwarded
  get_client_ip false cf xff client = peer client
  get_client_ip true cf xff client = first_of (valid_ip cf) (forwarded xff) (peer client)

  last_valid-append :
      (xs : List Text) (raw ip : Text)
      → valid_ip (some raw) ≡ some ip
      → last_valid (xs ++ raw ∷ []) ≡ some ip
  unfolding last_valid
  last_valid-append [] raw ip h = h
  last_valid-append (x ∷ xs) raw ip h = ground (arith, last_valid-append xs raw ip h)

-- The text has no comma.
abbrev pub NoComma : Text → Type 0
NoComma [] = Unit
NoComma (c ∷ cs) = ((c == b',') ≡ false) × NoComma cs

split-NoComma : (cs : Text) → NoComma cs → split b',' cs ≡ cs ∷ []
split-NoComma [] h = refl
split-NoComma (c ∷ cs) h = ground (arith, h.0, split-NoComma cs h.1)

split_after :
    (before cs : Text)
    → NoComma cs
    → (x : Text) × (xs : List Text) × (split b',' (before ++ b',' ∷ cs) ≡ x ∷ (xs ++ cs ∷ []))
split_after [] cs h = ([], [], ground (arith, split-NoComma cs h))
split_after (b ∷ before) cs h =
    let (x, xs, e) = split_after before cs h in
    elim (Bool-cases (b == b',')) [
      | inl t ↦ ([], x ∷ xs, ground arith)
      | inr t ↦ (b ∷ x, xs, ground arith)
    ]

module _ (strip : Text → Text) (parses : Text → Bool) where
  forwarded-append :
      (before raw ip : Text)
      → NoComma raw
      → valid_ip strip parses (some raw) ≡ some ip
      → forwarded strip parses (some (before ++ b',' ∷ raw)) ≡ some ip
  unfolding forwarded
  forwarded-append [] raw ip n h =
      let (x, xs, e) = split_after [] raw n in
      ap (last_valid strip parses) e ∙ last_valid-append strip parses (x ∷ xs) raw ip h
  forwarded-append (b ∷ before) raw ip n h =
      let (x, xs, e) = split_after (b ∷ before) raw n in
      ap (last_valid strip parses) e ∙ last_valid-append strip parses (x ∷ xs) raw ip h

  -- Behind a trusted edge and without a CF-Connecting-IP header, the address is the one that the
  -- nearest proxy appended after the last comma of X-Forwarded-For, where it parses: whatever stands
  -- before that comma, which is what the client may have sent itself, and whoever the peer is.
  pub get_client_ip-appended :
      (before raw ip : Text) (client : Option Text)
      → NoComma raw
      → valid_ip strip parses (some raw) ≡ some ip
      → get_client_ip strip parses true none (some (before ++ b',' ∷ raw)) client ≡ ip
  unfolding get_client_ip valid_ip
  get_client_ip-appended before raw ip client n h = rw (forwarded-append before raw ip n h) refl
