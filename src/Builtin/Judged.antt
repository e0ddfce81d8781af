-- ===== src/Builtin/Judged.antt =====
-- The judges of VirusTotal and the loop over them append relationships that name their entity.
use sleuthgraph_api.Base.{
  ℕ, suc, Bool, true, false, Option, none, some, List, [], ◌∷◌, if◌then◌else◌, leb, Bool-cases, inl,
  inr,
}
use sleuthgraph_api.Base.Text.{Text}
use sleuthgraph_api.Errors.{Result, ok, err}
use sleuthgraph_api.Errors.Every.{Every, Every-bind, Every-chain}
use sleuthgraph_api.Graph.Json.{Json}
use sleuthgraph_api.Relationships.{RelationshipType}
use sleuthgraph_api.Builtin.Web.{Web}
use sleuthgraph_api.Builtin.Proposing.{Link}
use sleuthgraph_api.Builtin.Endpoints.{Named, to_input-Named, from_input-Named}
use sleuthgraph_api.Builtin.VirusTotal.Judges
use sleuthgraph_api.Builtin.VirusTotal.Judges.{Scan, Verdict}
use sleuthgraph_api.Builtin.Named.{AllNamed}

-- The links that a judge makes name their entity.
abbrev pub MakesNamed : Option (ℕ → Result Link) → Type 0
MakesNamed none = Unit {0}
MakesNamed (some make) = (n : ℕ) → Every Named (make n)

module _ (web : Web) where
  abbrev pub ScanNamed : Scan → Type 0
  ScanNamed scan = AllNamed scan.links

  -- A judge proposes links that name their entity.
  abbrev pub Names : Verdict → Type 0
  Names verdict = Every MakesNamed verdict

  scan_step-Named :
      (verdict : Verdict) (count : ℕ) (rest : ℕ → Result Scan)
      → Names verdict
      → ((n : ℕ) → Every ScanNamed (rest n))
      → Every ScanNamed (Judges.scan_step verdict count rest)
  unfolding Judges.scan_step
  scan_step-Named (err e) count rest h k = record { holds = tt }
  scan_step-Named (ok none) count rest h k = k count
  scan_step-Named (ok (some make)) count rest h k =
      Every-chain ScanNamed Named (make count) _ (h.holds count) λ link named.
        Every-chain ScanNamed ScanNamed (rest (suc count)) _ (k (suc count))
          λ more m. record { holds = (named, m) }

  pub scan_values-Named :
      (judge : Json → Verdict) (values : List Json) (count : ℕ)
      → ((value : Json) → Names (judge value))
      → Every ScanNamed (Judges.scan_values judge values count)
  unfolding Judges.scan_values
  scan_values-Named judge [] count h = record { holds = tt }
  scan_values-Named judge (value ∷ values) count h =
      elim (Bool-cases (leb Judges.max_entities count)) [
        | inl full ↦ rw full (record { holds = tt })
        | inr room ↦ rw room (
            scan_step-Named (judge value) count _ (h value) λ n. scan_values-Named judge values n h)
      ]

  -- What a judge returns, by its test.
  some_if :
      (test : Bool) (make : ℕ → Result Link)
      → ((n : ℕ) → Every Named (make n))
      → Names (ok (if test then some make else none))
  some_if true make h = record { holds = h }
  some_if false make h = record { holds = tt }

  address_link-Named :
      (rtype : Json) (value : Text) (count : ℕ)
      → Every Named (Judges.address_link web rtype value count)
  unfolding Judges.address_link
  address_link-Named rtype value count = search from_input-Named

  domain_link-Named :
      (prefix : Text) (rel_type : RelationshipType) (confidence : ℕ) (value : Text) (count : ℕ)
      → Every Named (Judges.domain_link web prefix rel_type confidence value count)
  unfolding Judges.domain_link
  domain_link-Named prefix rel_type confidence value count = search to_input-Named

  pub judge_address-Names : (value : Json) → Names (Judges.judge_address web value)
  unfolding Judges.judge_address
  judge_address-Names value = search (Every-bind, some_if, address_link-Named) depth 10

  pub judge_subdomain-Names :
      (domain : Text) (value : Json) → Names (Judges.judge_subdomain web domain value)
  unfolding Judges.judge_subdomain
  judge_subdomain-Names domain value = search (Every-bind, some_if, domain_link-Named) depth 10

  pub judge_alt_name-Names : (value : Json) → Names (Judges.judge_alt_name web value)
  unfolding Judges.judge_alt_name
  judge_alt_name-Names value = search (Every-bind, some_if, domain_link-Named) depth 10
