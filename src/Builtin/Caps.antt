-- ===== src/Builtin/Caps.antt =====
-- How many proposals the built-in plugins return, against their caps and the runner's.
pub mod Scans
pub mod Full
pub mod Hosts
pub mod Verdicts
pub mod Snapshots
pub mod Limits
use sleuthgraph_api.Base.{
  ℕ, ◌+◌, ◌≤◌, ◌≡◌, ◌⊎◌, inl, inr, List, [], ◌∷◌, length, length-map, map, arith,
}
use sleuthgraph_api.Plugins.Base.{QueryResult, EvidenceProposal}
use sleuthgraph_api.Errors.{ok}
use sleuthgraph_api.Errors.Every.{Every}
use sleuthgraph_api.Builtin.Proposing.{nothing, only_evidence, Link, linked}

-- The number that the runner compares with MAX_PROPOSALS_PER_RUN.
abbrev pub size : QueryResult → ℕ
size r = length r.entities + length r.relationships + length r.evidence

-- At most `n` entities, with a relationship each and one piece of evidence, or nothing.
abbrev pub Paired : ℕ → QueryResult → Type 0
Paired n r =
    (length r.entities ≤ n) × ((size r ≡ length r.entities + length r.entities + 1) ⊎ (size r ≡ 0))

pub linked-Paired :
    (n : ℕ) (links : List Link) (evidence : EvidenceProposal)
    → length links ≤ n
    → Paired n (linked links evidence)
unfolding linked
linked-Paired n links evidence h =
    let ents = length-map (λ l. l.entity) links in
    let rels = length-map (λ l. l.relationship) links in
    (omega (arith, ents, h), inl (omega (arith, ents, rels)))

pub nothing-Paired : (n : ℕ) → Paired n nothing
nothing-Paired n = (omega arith, inr (omega arith))

pub only_evidence-Paired :
    (n : ℕ) (evidence : EvidenceProposal) → Every (Paired n) (ok (only_evidence evidence))
only_evidence-Paired n evidence = record { holds = (omega arith, inl (omega arith)) }

pub zero_le : 0 ≤ 50
zero_le = omega arith
