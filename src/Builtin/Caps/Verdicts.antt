-- ===== src/Builtin/Caps/Verdicts.antt =====
-- The cap of virustotal.
use sleuthgraph_api.Base.{
  ℕ, suc, ◌+◌, ◌≤◌, ◌<◌, ◌≡◌, inl, inr, Option, none, some, List, [], ◌∷◌, ◌++◌, leb, length,
  length-append, arith, Bool-cases,
}
use sleuthgraph_api.Base.Text.{Text}
use sleuthgraph_api.Errors.{Result, ok, err, ◌>>=◌}
use sleuthgraph_api.Graph.Json.{Json}
use sleuthgraph_api.Model.{Entity}
use sleuthgraph_api.Plugins.Base.{QueryResult, EvidenceProposal}
use sleuthgraph_api.Builtin.Web.{Web}
use sleuthgraph_api.Builtin.Proposing.{linked}
use sleuthgraph_api.Errors.Every.{Every, Every-ok, Every-if, Every-bind, Every-chain}
use sleuthgraph_api.Builtin.VirusTotal
use sleuthgraph_api.Builtin.VirusTotal.{Scan, Verdict}
use sleuthgraph_api.Builtin.Caps.{
  zero_le, nothing-Paired, only_evidence-Paired, Paired, linked-Paired,
}

-- The loop has counted its links, and stopped at the cap.
abbrev pub ScanCounted : ℕ → Scan → Type 0
ScanCounted count scan =
    (length scan.links + count ≡ scan.count) × (scan.count ≤ VirusTotal.max_entities)

scan_step-Counted :
    (verdict : Verdict) (count : ℕ) (rest : ℕ → Result Scan)
    → count < VirusTotal.max_entities
    → ((n : ℕ) → n ≤ VirusTotal.max_entities → Every (ScanCounted n) (rest n))
    → Every (ScanCounted count) (VirusTotal.scan_step verdict count rest)
unfolding VirusTotal.scan_step
scan_step-Counted (err e) count rest h ih = record { holds = tt }
scan_step-Counted (ok none) count rest h ih = ih count (omega arith)
scan_step-Counted (ok (some make)) count rest h ih =
    Every-bind (ScanCounted count) (make count) _ λ link.
      Every-chain (ScanCounted count) (ScanCounted (suc count)) (rest (suc count)) _
        (ih (suc count) (omega arith)) λ more c. Every-ok (ScanCounted count) _ (omega arith, c.1)

scan_values-Counted :
    (judge : Json → Verdict) (values : List Json) (count : ℕ)
    → count ≤ VirusTotal.max_entities
    → Every (ScanCounted count) (VirusTotal.scan_values judge values count)
unfolding VirusTotal.scan_values
scan_values-Counted judge [] count h = record { holds = (omega arith, h) }
scan_values-Counted judge (value ∷ values) count h =
    elim (Bool-cases (leb VirusTotal.max_entities count)) [
      | inl full ↦ rw full (record { holds = (omega arith, h) })
      | inr room ↦ rw room (
          scan_step-Counted (judge value) count _ (ground (arith, room))
            (scan_values-Counted judge values))
    ]

module _ (web : Web) where
  virustotal_bind :
      (judge : Json → Verdict) (values : List Json) (count : ℕ) (f : Scan → Result QueryResult)
      → count ≤ 50
      → ((scan : Scan) → ScanCounted count scan → Every (Paired 50) (f scan))
      → Every (Paired 50) (VirusTotal.scan_values judge values count >>= f)
  virustotal_bind judge values count f h k =
      Every-chain (Paired 50) _ (VirusTotal.scan_values judge values count) f
        (scan_values-Counted judge values count h) k

  domain_end :
      (scan more : Scan) (evidence : EvidenceProposal)
      → ScanCounted 0 scan
      → ScanCounted scan.count more
      → Every (Paired 50) (ok (linked (scan.links ++ more.links) evidence))
  domain_end scan more evidence h k = Every-ok (Paired 50) _ (
      linked-Paired 50 (scan.links ++ more.links) evidence
        (omega (arith, h.0, h.1, k.0, k.1, length-append scan.links more.links)))

  ip_end :
      (scan : Scan) (evidence : EvidenceProposal)
      → ScanCounted 0 scan
      → Every (Paired 50) (ok (linked scan.links evidence))
  ip_end scan evidence h =
      Every-ok (Paired 50) _ (linked-Paired 50 scan.links evidence (omega (arith, h.0, h.1)))

  scan_count_le : (count : ℕ) (scan : Scan) → ScanCounted count scan → scan.count ≤ 50
  scan_count_le count scan h = h.1

  ruleset virustotal = (
    virustotal_bind, domain_end, ip_end, scan_count_le, zero_le, only_evidence-Paired, Every-if,
    Every-bind, Every-ok, nothing-Paired,
  )

  domain-Paired : (label key : Text) → Every (Paired 50) (VirusTotal.query_domain web label key)
  unfolding VirusTotal.query_domain VirusTotal.lookup_domain
  domain-Paired label key = search virustotal depth 20 fits 3000

  ip-Paired : (label key : Text) → Every (Paired 50) (VirusTotal.query_ip web label key)
  unfolding VirusTotal.query_ip VirusTotal.lookup_ip
  ip-Paired label key = search virustotal depth 20 fits 3000

  url-Paired : (label key : Text) → Every (Paired 50) (VirusTotal.query_url web label key)
  unfolding VirusTotal.query_url
  url-Paired label key = search virustotal depth 20 fits 3000

  pub virustotal-Paired :
      (input : Entity) (key : Option Text) → Every (Paired 50) (VirusTotal.query web input key)
  unfolding VirusTotal.query
  virustotal-Paired input none = record { holds = tt }
  virustotal-Paired input (some key) =
      search (domain-Paired, ip-Paired, url-Paired, virustotal) depth 20 fits 3000
