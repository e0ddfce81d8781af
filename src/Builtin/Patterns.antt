-- ===== src/Builtin/Patterns.antt =====
-- The regular expressions of the built-in plugins, as `re.match` reads them.
use sleuthgraph_api.Base.{
  ℕ, Bool, true, false, ◌&&◌, ◌||◌, not, List, [], ◌∷◌, ◌==◌, if◌then◌else◌, leb, length, all,
}
use sleuthgraph_api.Base.Text.{Text}
use sleuthgraph_api.Entities.Domain.{split}

abbrev is_letter : ℕ → Bool
is_letter c = (leb b'A' c && leb c b'Z') || (leb b'a' c && leb c b'z')

abbrev is_digit : ℕ → Bool
is_digit c = leb b'0' c && leb c b'9'

-- `[A-Za-z0-9-]`
abbrev pub is_ldh : ℕ → Bool
is_ldh c = is_letter c || is_digit c || c == b'-'

-- The text that `^…$` has to match: `$` also holds before a newline that ends the text.
abbrev pub before_end : Text → Text
before_end [] = []
before_end (c ∷ cs) =
    let rest = before_end cs in elim cs [ [] ↦ if c == 10 then [] else c ∷ [] | d ∷ ds ↦ c ∷ rest ]

-- `^[…]+$`
abbrev one_or_more : (ℕ → Bool) → Text → Bool
one_or_more test [] = false
one_or_more test (c ∷ cs) = all test (c ∷ cs)

-- `(?<!-)`
abbrev last_is_hyphen : Text → Bool
last_is_hyphen [] = false
last_is_hyphen (c ∷ []) = c == b'-'
last_is_hyphen (c ∷ d ∷ cs) = last_is_hyphen (d ∷ cs)

-- `(?!-)[A-Za-z0-9-]{1,63}(?<!-)`
abbrev pub is_label : Text → Bool
is_label [] = false
is_label (c ∷ cs) =
    not (c == b'-')
    && all is_ldh (c ∷ cs)
    && leb (length (c ∷ cs)) 63
    && not (last_is_hyphen (c ∷ cs))

abbrev two_labels : List Text → Bool
two_labels [] = false
two_labels (l ∷ []) = false
two_labels (l ∷ m ∷ ls) = all is_label (l ∷ m ∷ ls)

-- `_DOMAIN_RE` on the text before its end
abbrev pub is_domain_text : Text → Bool
is_domain_text t = leb (length t) 253 && two_labels (split b'.' t)

-- `_DOMAIN_RE.match(s)`
unfoldable pub domain_re : Text → Bool
domain_re s = is_domain_text (before_end s)

abbrev is_hex : ℕ → Bool
is_hex c = is_digit c || (leb b'a' c && leb c b'f') || (leb b'A' c && leb c b'F')

-- `_IP_INPUT_RE.match(s)`, for `^[0-9a-fA-F.:]+$`
unfoldable pub ip_input_re : Text → Bool
ip_input_re s = one_or_more (λ c. is_hex c || c == b'.' || c == b':') (before_end s)

-- `_IPV6_RE.match(s)`, for `^[0-9a-fA-F:]+$`
unfoldable pub ipv6_re : Text → Bool
ipv6_re s = one_or_more (λ c. is_hex c || c == b':') (before_end s)

-- `\d{1,3}`, where a decimal digit may be one of any script
abbrev octet : (ℕ → Bool) → Text → Bool
octet is_decimal part = one_or_more is_decimal part && leb (length part) 3

abbrev four_octets : (ℕ → Bool) → List Text → Bool
four_octets is_decimal (a ∷ b ∷ c ∷ d ∷ []) = all (octet is_decimal) (a ∷ b ∷ c ∷ d ∷ [])
four_octets is_decimal parts = false

-- `_IPV4_RE.match(s)`
unfoldable pub ipv4_re : (ℕ → Bool) → Text → Bool
ipv4_re is_decimal s = four_octets is_decimal (split b'.' (before_end s))

-- `^[a-z0-9._-]+$`
unfoldable pub name_re : Text → Bool
name_re s =
    one_or_more
      (λ c. (leb b'a' c && leb c b'z') || is_digit c || c == b'.' || c == b'_' || c == b'-')
      (before_end s)

-- `[A-Za-z]{2,}$`
abbrev top_level : Text → Bool
top_level [] = false
top_level (c ∷ []) = false
top_level (c ∷ d ∷ cs) = all is_letter (c ∷ d ∷ cs)

-- `[A-Za-z0-9.\-]+\.[A-Za-z]{2,}$`, where the flag tells that a character stands before
email_domain : Bool → Text → Bool
email_domain seen [] = false
email_domain seen (c ∷ cs) =
    (seen && c == b'.' && top_level cs) || ((is_ldh c || c == b'.') && email_domain true cs)

abbrev is_local : ℕ → Bool
is_local c =
    is_letter c || is_digit c || c == b'.' || c == b'_' || c == b'%' || c == b'+' || c == b'-'

abbrev two_parts : List Text → Bool
unfolding email_domain
two_parts (user ∷ host ∷ []) = one_or_more is_local user && email_domain false host
two_parts parts = false

-- `_EMAIL_RE.match(s)`
unfoldable pub email_re : Text → Bool
unfolding email_domain
email_re s = two_parts (split b'@' (before_end s))
