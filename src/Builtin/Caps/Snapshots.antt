-- ===== src/Builtin/Caps/Snapshots.antt =====
-- The cap of wayback_cdx.
use sleuthgraph_api.Base.{
  ℕ, suc, ◌≤◌, inl, inr, Option, List, [], ◌∷◌, ltb, length, length-take-le, take, arith,
  Bool-cases,
}
use sleuthgraph_api.Base.Text.{Text}
use sleuthgraph_api.Errors.{Result, ok, ◌>>=◌}
use sleuthgraph_api.Model.{Entity}
use sleuthgraph_api.Plugins.Base.{QueryResult, EvidenceProposal}
use sleuthgraph_api.Builtin.Web.{Web}
use sleuthgraph_api.Builtin.Proposing.{Link, linked}
use sleuthgraph_api.Errors.Every.{Every, Every-ok, Every-if, Every-bind, Every-chain}
use sleuthgraph_api.Builtin.Wayback
use sleuthgraph_api.Builtin.Wayback.{Snapshot}
use sleuthgraph_api.Builtin.Caps.{nothing-Paired, Paired, linked-Paired}

module _ (web : Web) where
  propose_le :
      (i : ℕ) (snapshots : List Snapshot)
      → Every (λ proposed. length proposed.0 ≤ length snapshots) (Wayback.propose web i snapshots)
  unfolding Wayback.propose
  propose_le i [] = record { holds = omega arith }
  propose_le i (s ∷ ss) =
      let P : List Link × ℕ → Type 0 = λ proposed. length proposed.0 ≤ suc (length ss) in
      let Q : List Link × ℕ → Type 0 = λ proposed. length proposed.0 ≤ length ss in
      elim (Bool-cases (ltb Wayback.max_url_len (length s.original))) [
        | inl long ↦ rw long (
            Every-chain P Q (Wayback.propose web (suc i) ss) _ (propose_le (suc i) ss)
              λ rest h. record { holds = omega (arith, h) })
        | inr fits ↦ rw fits (
            Every-bind P _ _ λ link.
              Every-chain P Q (Wayback.propose web (suc i) ss) _ (propose_le (suc i) ss)
                λ rest h. record { holds = omega (arith, h) })
      ]

  wayback_bind :
      (snapshots : List Snapshot) (f : List Link × ℕ → Result QueryResult)
      → ((proposed : List Link × ℕ) → length proposed.0 ≤ 500 → Every (Paired 500) (f proposed))
      → Every (Paired 500) (Wayback.propose web 0 (take 500 snapshots) >>= f)
  wayback_bind snapshots f h =
      Every-chain (Paired 500) (λ proposed. length proposed.0 ≤ length (take 500 snapshots))
        (Wayback.propose web 0 (take 500 snapshots)) f (propose_le 0 (take 500 snapshots))
        λ proposed le. h proposed (omega (arith, le, length-take-le 500 snapshots))

  wayback_end :
      (proposed : List Link × ℕ) (evidence : EvidenceProposal)
      → length proposed.0 ≤ 500
      → Every (Paired 500) (ok (linked proposed.0 evidence))
  wayback_end proposed evidence h =
      Every-ok (Paired 500) _ (linked-Paired 500 proposed.0 evidence h)

  pub wayback-Paired :
      (input : Entity) (key : Option Text) → Every (Paired 500) (Wayback.query web input key)
  unfolding Wayback.query Wayback.lookup
  wayback-Paired input key =
      search (wayback_bind, wayback_end, Every-if, Every-bind, Every-ok, nothing-Paired) depth 20
        fits 3000
