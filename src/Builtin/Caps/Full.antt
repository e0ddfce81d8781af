-- ===== src/Builtin/Caps/Full.antt =====
-- crt.sh's own cap against the runner's MAX_PROPOSALS_PER_RUN.
use sleuthgraph_api.Base.{
  ℕ, ◌≤◌, ◌<◌, ◌≡◌, ◌⊎◌, inl, inr, refl, Option, List, [], leb, lt→ltb, length, arith, Bool-cases,
}
use sleuthgraph_api.Base.Text.{Text}
use sleuthgraph_api.Errors.{Result, ok, err, plugin_execution, ◌>>=◌}
use sleuthgraph_api.Model.{World, Session, Entity, PluginRun}
use sleuthgraph_api.Graph.Json.{Json}
use sleuthgraph_api.Plugins.Base.{Plugin, QueryResult, EvidenceProposal, EntityProposal}
use sleuthgraph_api.Plugins.Runner.{execute_plugin, max_proposals, RunResult}
use sleuthgraph_api.Builtin.Web.{Web}
use sleuthgraph_api.Builtin.Values.{sorted}
use sleuthgraph_api.Builtin.Proposing.{proposed}
use sleuthgraph_api.Errors.Every.{
  Every, Every-ok, Every-if, Every-bind, Every-chain, Every-weaken, Every-self, Every-both,
}
use sleuthgraph_api.Builtin.CrtSh
use sleuthgraph_api.Builtin.CrtSh.{max_subdomains, Subdomains}
use sleuthgraph_api.Builtin.Caps.{nothing-Paired, size, Paired}
use sleuthgraph_api.Builtin.Caps.Scans.{
  extract_subdomains_le, propose_len, propose_relationships_len, length-sorted,
}

module _ (web : Web) where
  extract_bind :
      (domain : Text) (entries : List Json) (f : Subdomains → Result QueryResult)
      → ((found : Subdomains)
          → length found.names ≤ max_subdomains
          → Every (Paired max_subdomains) (f found))
      → Every (Paired max_subdomains) (CrtSh.extract_subdomains web domain entries [] >>= f)
  extract_bind domain entries f h =
      Every-chain (Paired max_subdomains) _ (CrtSh.extract_subdomains web domain entries []) f
        (extract_subdomains_le web domain entries [] (omega arith)) h

  propose_bind :
      (names : List Text) (f : List EntityProposal → Result QueryResult)
      → ((links : List EntityProposal)
          → length links ≡ length names
          → Every (Paired max_subdomains) (f links))
      → Every (Paired max_subdomains) (CrtSh.propose_entities web 0 names >>= f)
  propose_bind names f h =
      Every-chain (Paired max_subdomains) _ (CrtSh.propose_entities web 0 names) f
        (propose_len web 0 names) h

  finish :
      (names : List Text) (links : List EntityProposal) (evidence : EvidenceProposal)
      → length names ≤ max_subdomains
      → length links ≡ length (sorted names)
      → Every
          (Paired max_subdomains)
          (ok (proposed links (CrtSh.propose_relationships web 0 (length links)) evidence))
  finish names links evidence h e =
      let rels = propose_relationships_len web 0 (length links) in
      Every-ok (Paired max_subdomains) _
        (omega (arith, h, e, length-sorted names), inl (omega (arith, rels)))

  pub query-Paired :
      (input : Entity) (key : Option Text)
      → Every (Paired max_subdomains) (CrtSh.query web input key)
  unfolding CrtSh.query CrtSh.lookup
  query-Paired input key =
      search (extract_bind, propose_bind, finish, Every-if, Every-bind, Every-ok, nothing-Paired)
        depth 20 fits 2000

refused :
    (w : World) (run : PluginRun) (case_id : ℕ) (input : Entity) (created_by : Option ℕ)
    (key : Option Text) (s : Session) (p : Plugin) (r : QueryResult)
    → p.query input key ≡ ok r
    → max_proposals < size r
    → (execute_plugin w p run case_id input created_by key s).0 ≡ err plugin_execution
unfolding execute_plugin
refused w run case_id input created_by key s p r e h = rw (e, lt→ltb max_proposals (size r) h) refl

-- What the runner does with the result, by its number of entities.
abbrev pub FullOrFits : Result RunResult → QueryResult → Type 0
FullOrFits executed r =
    ((length r.entities ≡ max_subdomains) × (executed ≡ err plugin_execution))
    ⊎ ((length r.entities < max_subdomains) × (size r ≤ max_proposals))

-- A call of the crt.sh plugin raises, or returns a result of one of two kinds: with 1,000 entities,
-- the cap of its own, and then the runner refuses the result for its number of proposals; or with
-- fewer, and then the number of proposals is within the runner's limit.
pub query-FullOrFits :
    (web : Web) (w : World) (run : PluginRun) (case_id : ℕ) (input : Entity) (created_by : Option ℕ)
    (key : Option Text) (s : Session)
    → Every
        (FullOrFits (execute_plugin w (CrtSh.plugin web) run case_id input created_by key s).0)
        (CrtSh.query web input key)
unfolding CrtSh.plugin
query-FullOrFits web w run case_id input created_by key s =
    Every-weaken (λ r. Paired max_subdomains r × (CrtSh.query web input key ≡ ok r)) _
      (CrtSh.query web input key)
      (λ r h. elim (h.0.1) [
        | inr none_found ↦ inr (omega (arith, h.0.0), omega arith)
        | inl pairs ↦ elim (Bool-cases (leb max_subdomains (length r.entities))) [
          | inl full ↦ inl (
            ground (arith, full, h.0.0),
            refused w run case_id input created_by key s (CrtSh.plugin web) r h.1
                (ground (arith, full, h.0.0, pairs)),
          )
          | inr fits ↦ inr (ground (arith, fits), ground (arith, fits, pairs))
        ]
      ])
      (Every-both (Paired max_subdomains) (λ r. CrtSh.query web input key ≡ ok r)
        (CrtSh.query web input key) (query-Paired web input key)
        (Every-self (CrtSh.query web input key)))
