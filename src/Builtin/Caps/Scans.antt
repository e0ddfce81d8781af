-- ===== src/Builtin/Caps/Scans.antt =====
-- The lengths that the plugins' loops leave.
use sleuthgraph_api.Base.{
  ℕ, zero, suc, ◌≤◌, ◌≡◌, refl, List, [], ◌∷◌, leb, length, length-append, arith, Bool-cases, inl,
  inr,
}
use sleuthgraph_api.Base.Text.{Text}
use sleuthgraph_api.Graph.Json.{Json, null, boolean, number, str, arr, obj}
use sleuthgraph_api.Builtin.Web.{Web}
use sleuthgraph_api.Builtin.Values.{member, sorted, insert_text, text_lt}
use sleuthgraph_api.Errors.Every.{Every, Every-if, Every-bind, Every-chain, Every-ok}
use sleuthgraph_api.Builtin.CrtSh.{
  Subdomains, add_name, max_subdomains, is_subdomain, scan_lines, scan_value, extract_subdomains,
  propose_entities, propose_relationships,
}

add_name_le : (name : Text) (names : List Text) → length (add_name name names) ≤ suc (length names)
add_name_le name names = elim (Bool-cases (member name names)) [
  | inl h ↦ rw h (omega arith)
  | inr h ↦ rw h (rw (length-append names (name ∷ [])) (omega arith))
]

-- The cap holds whatever the lines are.
pub scan_lines_le :
    (web : Web) (domain : Text) (lines found : List Text)
    → length found ≤ max_subdomains
    → length (scan_lines web domain lines found).names ≤ max_subdomains
unfolding scan_lines
scan_lines_le web domain [] found h = h
scan_lines_le web domain (line ∷ lines) found h =
    let name = web.lower (web.strip line) in
    elim (Bool-cases (is_subdomain web domain name)) [
      | inr other ↦ rw other (scan_lines_le web domain lines found h)
      | inl wanted ↦ elim (Bool-cases (leb max_subdomains (length found))) [
        | inl full ↦ rw (wanted, full) h
        | inr room ↦
            rw (wanted, room)
              (scan_lines_le web domain lines (add_name name found)
                (ground (arith, room, add_name_le name found)))
      ]
    ]

abbrev Within : Subdomains → Type 0
Within found = length found.names ≤ max_subdomains

scan_value_le :
    (web : Web) (domain : Text) (value : Json) (found : List Text)
    → length found ≤ max_subdomains
    → Within (scan_value web domain value found)
unfolding scan_value
scan_value_le web domain (str value) found h =
    scan_lines_le web domain (web.splitlines value) found h
scan_value_le web domain null found h = h
scan_value_le web domain (boolean b) found h = h
scan_value_le web domain (number n) found h = h
scan_value_le web domain (arr xs) found h = h
scan_value_le web domain (obj fs) found h = h

pub extract_subdomains_le :
    (web : Web) (domain : Text) (entries : List Json) (found : List Text)
    → length found ≤ max_subdomains
    → Every Within (extract_subdomains web domain entries found)
unfolding extract_subdomains
extract_subdomains_le web domain [] found h = record { holds = h }
extract_subdomains_le web domain (entry ∷ entries) found h =
    search (Every-bind, Every-if, Every-ok, scan_value_le, extract_subdomains_le web domain entries)

insert_text_len : (t : Text) (ts : List Text) → length (insert_text t ts) ≡ suc (length ts)
insert_text_len t [] = refl
insert_text_len t (u ∷ us) = elim (Bool-cases (text_lt t u)) [
  | inl h ↦ rw h refl
  | inr h ↦ rw h (omega (arith, insert_text_len t us))
]

-- Sorting keeps the length.
pub length-sorted : (ts : List Text) → length (sorted ts) ≡ length ts
length-sorted [] = refl
length-sorted (t ∷ ts) = rw (insert_text_len t (sorted ts)) (omega (arith, length-sorted ts))

-- One entity is proposed for each name.
pub propose_len :
    (web : Web) (i : ℕ) (names : List Text)
    → Every (λ entities. length entities ≡ length names) (propose_entities web i names)
unfolding propose_entities
propose_len web i [] = record { holds = refl }
propose_len web i (name ∷ names) =
    Every-bind (λ links. length links ≡ suc (length names)) _ _
      λ entity.
        Every-chain (λ links. length links ≡ suc (length names))
          (λ links. length links ≡ length names) (propose_entities web (suc i) names) _
          (propose_len web (suc i) names) λ links h. record { holds = omega (arith, h) }

-- One relationship for each number.
pub propose_relationships_len : (web : Web) (i n : ℕ) → length (propose_relationships web i n) ≡ n
unfolding propose_relationships
propose_relationships_len web i zero = refl
propose_relationships_len web i (suc n) = omega (arith, propose_relationships_len web (suc i) n)
