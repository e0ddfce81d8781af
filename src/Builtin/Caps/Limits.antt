-- ===== src/Builtin/Caps/Limits.antt =====
-- The caps of shodan, virustotal and wayback_cdx against the runner's MAX_PROPOSALS_PER_RUN.
use sleuthgraph_api.Base.{ℕ, ◌≤◌, inl, inr, Option, length, arith}
use sleuthgraph_api.Base.Text.{Text}
use sleuthgraph_api.Errors.{Result}
use sleuthgraph_api.Model.{Entity}
use sleuthgraph_api.Plugins.Base.{QueryResult}
use sleuthgraph_api.Plugins.Runner.{max_proposals}
use sleuthgraph_api.Builtin.Web.{Web}
use sleuthgraph_api.Errors.Every.{Every, Every-weaken}
use sleuthgraph_api.Builtin.Shodan
use sleuthgraph_api.Builtin.VirusTotal
use sleuthgraph_api.Builtin.Wayback
use sleuthgraph_api.Builtin.Caps.{size, Paired}
use sleuthgraph_api.Builtin.Caps.Hosts.{shodan-Paired}
use sleuthgraph_api.Builtin.Caps.Verdicts.{virustotal-Paired}
use sleuthgraph_api.Builtin.Caps.Snapshots.{wayback-Paired}

-- The cap on the entities holds, and the runner's on all proposals.
abbrev pub WithinLimits : ℕ → QueryResult → Type 0
WithinLimits cap r = (length r.entities ≤ cap) × (size r ≤ max_proposals)

Paired-WithinLimits : (cap : ℕ) (r : QueryResult) → cap ≤ 500 → Paired cap r → WithinLimits cap r
Paired-WithinLimits cap r h (le, inl pairs) = (le, omega (arith, le, pairs))
Paired-WithinLimits cap r h (le, inr empty) = (le, omega (arith, empty))

-- Whatever they are answered: the shodan and the virustotal plugin raise or return at most 50
-- entities and the wayback_cdx plugin at most 500, and no such result has more proposals than the
-- runner accepts in a run.
pub query-WithinLimits :
    (web : Web) (input : Entity) (key : Option Text)
    → Every (WithinLimits 50) (Shodan.query web input key)
      × Every (WithinLimits 50) (VirusTotal.query web input key)
      × Every (WithinLimits 500) (Wayback.query web input key)
query-WithinLimits web input key =
    let weaken : (cap : ℕ)
        → cap ≤ 500
        → (m : Result QueryResult) → Every (Paired cap) m
        → Every (WithinLimits cap) m =
      λ cap h m.
        Every-weaken (Paired cap) (WithinLimits cap) m (λ r. Paired-WithinLimits cap r h) in
    (
      weaken 50 (omega arith) (Shodan.query web input key) (shodan-Paired web input key),
      weaken 50 (omega arith) (VirusTotal.query web input key) (virustotal-Paired web input key),
      weaken 500 (omega arith) (Wayback.query web input key) (wayback-Paired web input key),
    )
