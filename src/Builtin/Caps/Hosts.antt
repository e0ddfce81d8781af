-- ===== src/Builtin/Caps/Hosts.antt =====
-- The cap of shodan.
use sleuthgraph_api.Base.{
  ℕ, suc, ◌+◌, ◌≤◌, ◌<◌, ◌≡◌, inl, inr, Option, none, some, List, [], ◌∷◌, ◌++◌, leb, length,
  length-append, arith, Bool-cases,
}
use sleuthgraph_api.Base.Text.{Text}
use sleuthgraph_api.Errors.{Result, ok, ◌>>=◌}
use sleuthgraph_api.Graph.Json.{Json}
use sleuthgraph_api.Model.{Entity}
use sleuthgraph_api.Plugins.Base.{QueryResult, EvidenceProposal}
use sleuthgraph_api.Builtin.Web.{Web}
use sleuthgraph_api.Builtin.Proposing.{linked}
use sleuthgraph_api.Errors.Every.{Every, Every-ok, Every-if, Every-bind, Every-chain}
use sleuthgraph_api.Builtin.Shodan
use sleuthgraph_api.Builtin.Shodan.{Hosts}
use sleuthgraph_api.Builtin.Caps.{zero_le, nothing-Paired, Paired, linked-Paired}

-- The loop has counted its links, and stopped at the cap.
abbrev pub Counted : ℕ → Hosts → Type 0
Counted count hosts =
    (length hosts.links + count ≡ hosts.count) × (hosts.count ≤ Shodan.max_entities)

module _ (web : Web) (confidence : ℕ) where
  host_step-Counted :
      (count : ℕ) (seen : List Text) (name : Option Text) (rest : ℕ → List Text → Result Hosts)
      → count < Shodan.max_entities
      → ((n : ℕ) (known : List Text) → n ≤ Shodan.max_entities → Every (Counted n) (rest n known))
      → Every (Counted count) (Shodan.host_step web confidence count seen name rest)
  unfolding Shodan.host_step
  host_step-Counted count seen none rest h ih = ih count seen (omega arith)
  host_step-Counted count seen (some name) rest h ih = Every-bind (Counted count) _ _ λ link.
      Every-chain (Counted count) (Counted (suc count)) (rest (suc count) (name ∷ seen)) _
        (ih (suc count) (name ∷ seen) (omega arith))
        λ more c. Every-ok (Counted count) _ (omega arith, c.1)

  scan_hosts-Counted :
      (values : List Json) (count : ℕ) (seen : List Text)
      → count ≤ Shodan.max_entities
      → Every (Counted count) (Shodan.scan_hosts web confidence values count seen)
  unfolding Shodan.scan_hosts
  scan_hosts-Counted [] count seen h = record { holds = (omega arith, h) }
  scan_hosts-Counted (value ∷ values) count seen h =
      elim (Bool-cases (leb Shodan.max_entities count)) [
        | inl full ↦ rw full (record { holds = (omega arith, h) })
        | inr room ↦
            rw room
              (host_step-Counted count seen _ _ (ground (arith, room)) (scan_hosts-Counted values))
      ]

module _ (web : Web) where
  shodan_bind :
      (confidence : ℕ) (values : List Json) (count : ℕ) (seen : List Text)
      (f : Hosts → Result QueryResult)
      → count ≤ 50
      → ((hosts : Hosts) → Counted count hosts → Every (Paired 50) (f hosts))
      → Every (Paired 50) (Shodan.scan_hosts web confidence values count seen >>= f)
  shodan_bind confidence values count seen f h k =
      Every-chain (Paired 50) _ (Shodan.scan_hosts web confidence values count seen) f
        (scan_hosts-Counted web confidence values count seen h) k

  shodan_end :
      (hosts more : Hosts) (evidence : EvidenceProposal)
      → Counted 0 hosts
      → Counted hosts.count more
      → Every (Paired 50) (ok (linked (hosts.links ++ more.links) evidence))
  shodan_end hosts more evidence h k = Every-ok (Paired 50) _ (
      linked-Paired 50 (hosts.links ++ more.links) evidence
        (omega (arith, h.0, h.1, k.0, k.1, length-append hosts.links more.links)))

  count_le : (count : ℕ) (hosts : Hosts) → Counted count hosts → hosts.count ≤ 50
  count_le count hosts h = h.1

  pub shodan-Paired :
      (input : Entity) (key : Option Text) → Every (Paired 50) (Shodan.query web input key)
  unfolding Shodan.query Shodan.query_with Shodan.report
  shodan-Paired input none = record { holds = tt }
  shodan-Paired input (some key) =
      search
        (shodan_bind, shodan_end, count_le, zero_le, Every-if, Every-bind, Every-ok, nothing-Paired)
        depth 20 fits 3000
