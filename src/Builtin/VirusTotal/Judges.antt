-- ===== src/Builtin/VirusTotal/Judges.antt =====
-- plugins/builtin/virustotal.py: the loops over a response, and what each makes of a value.
use sleuthgraph_api.Base.{
  ℕ, suc, Bool, true, false, ◌&&◌, ◌||◌, not, Option, none, some, List, [], ◌∷◌, ◌++◌, leb, length,
  if◌then◌else◌,
}
use sleuthgraph_api.Base.Text.{Text, codes, text_eq}
use sleuthgraph_api.Errors.{Result, ok, err, ◌>>=◌}
use sleuthgraph_api.Graph.Json.{Json, Fields, str, end}
use sleuthgraph_api.Entities.{EntityType}
use sleuthgraph_api.Relationships.{RelationshipType}
use sleuthgraph_api.Builtin.Web.{Web}
use sleuthgraph_api.Builtin.Values.{get_attr, as_text, dict, rstrip, ends_with}
use sleuthgraph_api.Builtin.Patterns.{domain_re, ipv4_re, ipv6_re}
use sleuthgraph_api.Builtin.Proposing.{to_input, from_input, Link, entity_proposal}

abbrev pub max_entities : ℕ
max_entities = 50

-- What a loop appends, `entity_count` after it, and whether it broke off.
pub record Scan : Type 0 where
  pub links : List Link
  pub count : ℕ
  pub truncated : Bool

abbrev pub push_link : Link → Scan → Scan
push_link link scan = record scan { links = link ∷ scan.links }

-- A value that a loop looks at: skipped, or proposed.
abbrev pub Verdict : Type 0
Verdict = Result (Option (ℕ → Result Link))

-- One round of a loop after the check of the cap; `rest` is the loop over what is left.
unfoldable pub scan_step : Verdict → ℕ → (ℕ → Result Scan) → Result Scan
scan_step (err e) count rest = err e
scan_step (ok none) count rest = rest count
scan_step (ok (some make)) count rest = do
  link ← make count
  more ← rest (suc count)
  ok (push_link link more)

-- The three loops over a response's values: each value is judged in turn, up to the cap.
unfoldable pub scan_values : (Json → Verdict) → List Json → ℕ → Result Scan
unfolding scan_step
scan_values judge [] count = ok (record { links = []; count = count; truncated = false })
scan_values judge (value ∷ values) count =
    if leb max_entities count
    then ok (record { links = []; count = count; truncated = true })
    else scan_step (judge value) count (scan_values judge values)

module _ (web : Web) where
  -- `_is_ip`
  unfoldable pub is_ip : Text → Bool
  unfolding ipv4_re ipv6_re
  is_ip value = ipv4_re web.is_decimal value || ipv6_re value

  -- the `type` of a record, where it is one of the given texts
  abbrev is_str : Text → Json → Bool
  is_str t (str u) = text_eq u t
  is_str t value = false

  abbrev named : Text → ℕ → Text
  named prefix count = prefix ++ web.str_nat count

  abbrev via : List (Text × Json) → Fields
  via rest = dict ((codes "discovered_via", str (codes "virustotal")) ∷ rest)

  unfoldable pub address_link : Json → Text → ℕ → Result Link
  unfolding entity_proposal
  address_link rtype value count = do
    let ref : Text = named (codes "ip-") count
    entity ← entity_proposal ref EntityType.ip_address value (via ((codes "rdtype", rtype) ∷ [])) 85
    ok (record {
      entity = entity;
      relationship = from_input ref RelationshipType.resolves_to end 85;
    })

  -- the body of the loop for resolved addresses
  unfoldable pub judge_address : Json → Verdict
  unfolding get_attr as_text is_ip address_link
  judge_address rec = do
    rtype ← get_attr (codes "type") (str []) rec
    raw ← get_attr (codes "value") (str []) rec
    text ← as_text raw
    let value : Text = web.strip text
    ok (
        if (is_str (codes "A") rtype || is_str (codes "AAAA") rtype)
          && leb 1 (length value)
          && is_ip value
        then some (address_link rtype value)
        else none)

  unfoldable pub domain_link : Text → RelationshipType → ℕ → Text → ℕ → Result Link
  unfolding entity_proposal
  domain_link prefix rel_type confidence value count = do
    let ref : Text = named prefix count
    entity ← entity_proposal ref EntityType.domain value (via []) confidence
    ok (record { entity = entity; relationship = to_input ref rel_type end confidence })

  -- the body of the loop for subdomains
  unfoldable pub judge_subdomain : Text → Json → Verdict
  unfolding get_attr as_text domain_re domain_link
  judge_subdomain domain rec = do
    rtype ← get_attr (codes "type") (str []) rec
    raw ← get_attr (codes "value") (str []) rec
    text ← as_text raw
    let value : Text = web.lower (rstrip b'.' (web.strip text))
    ok (
        if is_str (codes "CNAME") rtype
          && leb 1 (length value)
          && domain_re value
          && not (text_eq value domain)
          && ends_with value (b'.' ∷ domain)
        then some (domain_link (codes "sub-") RelationshipType.subdomain_of 80 value)
        else none)

  -- the body of the loop over a certificate's alternative names
  unfoldable pub judge_alt_name : Json → Verdict
  unfolding as_text domain_re domain_link
  judge_alt_name name = do
    text ← as_text name
    let value : Text = web.lower (rstrip b'.' (web.strip text))
    ok (
        if leb 1 (length value) && domain_re value
        then some (domain_link (codes "domain-") RelationshipType.resolves_to 70 value)
        else none)
