-- ===== src/Builtin/Endpoints.antt =====
-- What the built-in plugins' relationships point at, and how the runner resolves it.
use sleuthgraph_api.Base.{
  ◌≡◌, refl, Bool, true, false, List, [], ◌∷◌, any, map, All, All-weaken, str_eq, str_eq_iff, arith,
}
use sleuthgraph_api.Plugins.Base.{
  EntityProposal, RelationshipProposal, EvidenceProposal, QueryResult, Endpoint, input_endpoint,
  ref_endpoint, bad_endpoint,
}
use sleuthgraph_api.Base.{ℕ, String, Option, none, some}
use sleuthgraph_api.Base.Text.{Text}
use sleuthgraph_api.Base.Strings.{to_string}
use sleuthgraph_api.Errors.{ok, ◌>>=◌}
use sleuthgraph_api.Errors.Every.{Every, Every-bind, Every-chain}
use sleuthgraph_api.Graph.Json.{Fields}
use sleuthgraph_api.Entities.{EntityType}
use sleuthgraph_api.Relationships.{RelationshipType}
use sleuthgraph_api.Builtin.Proposing.{
  Link, linked, ref_to, to_input, from_input, entity_proposal, check_text, string_within,
}

-- The endpoint is the input or the ref of one of the proposed entities.
unfoldable pub is_known : List EntityProposal → Endpoint → Bool
is_known proposals input_endpoint = true
is_known proposals (ref_endpoint key) = any (λ p. str_eq p.ref key) proposals
is_known proposals bad_endpoint = false

abbrev pub Known : List EntityProposal → RelationshipProposal → Type 0
Known proposals rp = (is_known proposals rp.src ≡ true) × (is_known proposals rp.dst ≡ true)

-- Every relationship of the result joins the input and proposed entities.
abbrev pub IsClosed : QueryResult → Type 0
IsClosed r = All (Known r.entities) r.relationships

-- The endpoint is the input or the ref of the entity.
unfoldable pub is_named : EntityProposal → Endpoint → Bool
is_named entity input_endpoint = true
is_named entity (ref_endpoint key) = str_eq entity.ref key
is_named entity bad_endpoint = false

-- The relationship joins the input and the entity that it is appended with.
abbrev pub Named : Link → Type 0
Named l =
    (is_named l.entity l.relationship.src ≡ true) × (is_named l.entity l.relationship.dst ≡ true)

-- An entity of the list is named.
named-known :
    (entity : EntityProposal) (rest : List EntityProposal) (endpoint : Endpoint)
    → is_named entity endpoint ≡ true
    → is_known (entity ∷ rest) endpoint ≡ true
unfolding is_named is_known
named-known entity rest input_endpoint h = refl
named-known entity rest (ref_endpoint key) h = ground (arith, h)
named-known entity rest bad_endpoint h = cc

-- More entities leave an endpoint known.
known-more :
    (entity : EntityProposal) (rest : List EntityProposal) (endpoint : Endpoint)
    → is_known rest endpoint ≡ true
    → is_known (entity ∷ rest) endpoint ≡ true
unfolding is_known
known-more entity rest input_endpoint h = refl
known-more entity rest (ref_endpoint key) h = ground (arith, h)
known-more entity rest bad_endpoint h = h

pub Known-more :
    (entity : EntityProposal) (rest : List EntityProposal) (rp : RelationshipProposal)
    → Known rest rp
    → Known (entity ∷ rest) rp
Known-more entity rest rp h =
    (known-more entity rest rp.src (h.0), known-more entity rest rp.dst (h.1))

pub Known-named :
    (entity : EntityProposal) (rest : List EntityProposal) (rp : RelationshipProposal)
    → is_named entity rp.src ≡ true
    → is_named entity rp.dst ≡ true
    → Known (entity ∷ rest) rp
Known-named entity rest rp s d =
    (named-known entity rest rp.src s, named-known entity rest rp.dst d)

-- A result of links that each name their own entity joins the input and its own entities.
pub linked-IsClosed :
    (links : List Link) (evidence : EvidenceProposal)
    → All Named links
    → IsClosed (linked links evidence)
unfolding linked
linked-IsClosed [] evidence h = tt
linked-IsClosed (l ∷ ls) evidence h = (
  Known-named l.entity (map (λ l. l.entity) ls) l.relationship h.0.0 h.0.1,
  All-weaken (Known (map (λ l. l.entity) ls)) (Known (l.entity ∷ map (λ l. l.entity) ls))
      (map (λ l. l.relationship) ls) (Known-more l.entity (map (λ l. l.entity) ls))
      (linked-IsClosed ls evidence h.1),
)

ref_read :
    (within : Bool) (read : Option String)
    → Every
        (λ key.
          ◌≡◌ {A = Endpoint}
            (elim read [ some k ↦ ref_endpoint k | none ↦ bad_endpoint ])
            (ref_endpoint key))
        (string_within within read)
ref_read true (some s) = record { holds = refl }
ref_read true none = record { holds = tt }
ref_read false read = record { holds = tt }

-- An entity that is constructed has the ref that it was given.
pub entity_proposal-ref :
    (ref : Text) (type : EntityType) (label : Text) (attrs : Fields) (confidence : ℕ)
    → Every (λ e. is_named e (ref_to ref) ≡ true) (entity_proposal ref type label attrs confidence)
unfolding entity_proposal is_named
entity_proposal-ref ref type label attrs confidence =
    Every-chain (λ e. is_named e (ref_to ref) ≡ true) (λ key. ref_to ref ≡ ref_endpoint key)
      (check_text 64 ref) _ (ref_read _ (to_string ref))
      λ key same.
        Every-bind (λ e. is_named e (ref_to ref) ≡ true) (check_text 512 label) _
          λ text. record { holds = rw same ((str_eq_iff key key).1 refl) }

module _ (ref : Text) (type : EntityType) (label : Text) (attrs : Fields) (confidence : ℕ)
    (rel_type : RelationshipType) (rel_attrs : Fields) (rel_confidence : ℕ) where
  -- What a loop appends with an entity names it.
  pub to_input-Named : Every Named (
      entity_proposal ref type label attrs confidence >>= λ e.
      ok (record { entity = e; relationship = to_input ref rel_type rel_attrs rel_confidence }))
  unfolding is_named
  to_input-Named =
      Every-chain Named (λ e. is_named e (ref_to ref) ≡ true)
        (entity_proposal ref type label attrs confidence) _
        (entity_proposal-ref ref type label attrs confidence)
        λ e named. record { holds = (named, refl) }

  pub from_input-Named : Every Named (
      entity_proposal ref type label attrs confidence >>= λ e.
      ok (record { entity = e; relationship = from_input ref rel_type rel_attrs rel_confidence }))
  unfolding is_named
  from_input-Named =
      Every-chain Named (λ e. is_named e (ref_to ref) ≡ true)
        (entity_proposal ref type label attrs confidence) _
        (entity_proposal-ref ref type label attrs confidence)
        λ e named. record { holds = (refl, named) }
