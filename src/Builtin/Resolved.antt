-- ===== src/Builtin/Resolved.antt =====
-- How the runner's `_resolve_ref` meets the relationships of the built-in plugins.
use sleuthgraph_api.Base.{
  ℕ, ◌≡◌, refl, String, Bool, true, false, Option, is_some, List, [], ◌∷◌, All, All-weaken, any,
  str_eq, arith, Bool-cases, inl, inr, ◌⊎◌,
}
use sleuthgraph_api.Base.Text.{Text}
use sleuthgraph_api.Errors.{Result, ok, err, is_ok}
use sleuthgraph_api.Model.{Session, World, Entity}
use sleuthgraph_api.Action.{Action, lift, pure, ◌>>=◌}
use sleuthgraph_api.Graph.Attrs.{validate_attrs}
use sleuthgraph_api.Graph.Json.{Fields}
use sleuthgraph_api.Entities.{EntityCreate}
use sleuthgraph_api.Entities
use sleuthgraph_api.Plugins.Base.{
  EntityProposal, RelationshipProposal, QueryResult, Endpoint, input_endpoint, ref_endpoint,
  bad_endpoint,
}
use sleuthgraph_api.Plugins.Proposals.{Refs, find_ref, resolve_ref, persist_entities, push_if}
use sleuthgraph_api.Builtin.Web.{Web}
use sleuthgraph_api.Errors.Every.{Every, Every-weaken, Every-always, Every-All, Every-both}
use sleuthgraph_api.Builtin.Endpoints.{is_known, Known, IsClosed}
use sleuthgraph_api.Builtin.Closed.{plugins-IsClosed}
use sleuthgraph_api.Builtin.Shipped.{plugins}

module _ {A B : Type 0} (P : B → Type 0) where
  -- A property of the value of every outcome of a chain of actions that returns.
  outcome_bind :
      (m : Result A × Session) (f : A → Action B)
      → ((a : A) (t : Session) → Every P (f a t).0)
      → Every P (◌>>=◌ {0, 0} (λ s. m) f m.1).0
  outcome_bind (ok a, t) f h = h a t
  outcome_bind (err e, t) f h = record { holds = tt }

  -- With a property of the first action's value.
  outcome_chain :
      (Q : A → Type 0) (m : Result A × Session) (f : A → Action B)
      → Every Q m.0
      → ((a : A) (t : Session) → Q a → Every P (f a t).0)
      → Every P (◌>>=◌ {0, 0} (λ s. m) f m.1).0
  outcome_chain Q (ok a, t) f q h = h a t q.holds
  outcome_chain Q (err e, t) f q h = record { holds = tt }

abbrev HasKey : String → Refs → Type 0
HasKey key refs = is_some (find_ref key refs) ≡ true

push-HasKey :
    (key name : String) (e : Entity) (refs : Refs)
    → (str_eq name key ≡ true) ⊎ HasKey key refs
    → HasKey key ((name, e) ∷ refs)
unfolding find_ref
push-HasKey key name e refs (inl h) = ground (arith, h)
push-HasKey key name e refs (inr h) = ground (arith, h)

-- The key is that of a proposal that is left, or is known already.
abbrev WillHave : String → List EntityProposal → Refs → Type 0
WillHave key eps refs = (any (λ p. str_eq p.ref key) eps ≡ true) ⊎ HasKey key refs

step-WillHave :
    (key : String) (ep : EntityProposal) (eps : List EntityProposal) (refs : Refs) (e : Entity)
    → WillHave key (ep ∷ eps) refs
    → WillHave key eps ((ep.ref, e) ∷ refs)
step-WillHave key ep eps refs e (inr h) = inr (push-HasKey key ep.ref e refs (inr h))
step-WillHave key ep eps refs e (inl h) = elim (Bool-cases (str_eq ep.ref key)) [
  | inl first ↦ inr (push-HasKey key ep.ref e refs (inl first))
  | inr other ↦ inl (ground (arith, h, other))
]

module _ (w : World) (case_id : ℕ) (created_by : Option ℕ) where
  persist_entities-HasKey :
      (key : String) (eps : List EntityProposal) (refs : Refs) (s : Session)
      → WillHave key eps refs
      → Every (λ found. HasKey key found.0) (persist_entities w case_id created_by eps refs s).0
  unfolding persist_entities
  persist_entities-HasKey key [] refs s (inl h) = cc
  persist_entities-HasKey key [] refs s (inr h) = record { holds = h }
  persist_entities-HasKey key (ep ∷ eps) refs s h =
      let P : Refs × List Entity → Type 0 = λ found. HasKey key found.0 in
      let pushed : Entity × Bool → Refs × List Entity → Action (Refs × List Entity) =
        λ made rest. pure (rest.0, push_if made.1 made.0 rest.1) in
      let others : Entity × Bool → Action (Refs × List Entity) = λ made.
        persist_entities w case_id created_by eps ((ep.ref, made.0) ∷ refs) >>= pushed made in
      let body : Fields → EntityCreate = λ attrs. (record {
        type = ep.type;
        label = ep.label;
        attrs = attrs;
        confidence = ep.confidence;
      }) in
      outcome_bind P (lift (validate_attrs w.json_size ep.attrs) s)
        (λ attrs. Entities.get_or_create w case_id created_by (body attrs) false >>= others)
        λ attrs t.
          outcome_bind P (Entities.get_or_create w case_id created_by (body attrs) false t) others
            λ made u.
              outcome_chain P P
                (persist_entities w case_id created_by eps ((ep.ref, made.0) ∷ refs) u)
                (pushed made)
                (persist_entities-HasKey key eps ((ep.ref, made.0) ∷ refs) u
                  (step-WillHave key ep eps refs made.0 h))
                λ rest v known. record { holds = known }

-- The endpoint resolves to an entity.
abbrev pub Resolves : Entity → Refs → RelationshipProposal → Type 0
Resolves input refs rp =
    (is_ok (resolve_ref rp.src input refs) ≡ true) × (is_ok (resolve_ref rp.dst input refs) ≡ true)

module _ (w : World) (case_id : ℕ) (created_by : Option ℕ) (input : Entity) (s : Session) where
  endpoint-Resolves :
      (eps : List EntityProposal) (endpoint : Endpoint)
      → is_known eps endpoint ≡ true
      → Every
          (λ found. is_ok (resolve_ref endpoint input found.0) ≡ true)
          (persist_entities w case_id created_by eps [] s).0
  unfolding resolve_ref is_known
  endpoint-Resolves eps input_endpoint h =
      Every-always _ (persist_entities w case_id created_by eps [] s).0 λ found. refl
  endpoint-Resolves eps (ref_endpoint key) h =
      Every-weaken (λ found. HasKey key found.0) _
        (persist_entities w case_id created_by eps [] s).0 (λ found known. ground (arith, known))
        (persist_entities-HasKey w case_id created_by key eps [] s (inl h))
  endpoint-Resolves eps bad_endpoint h = cc

  -- Once the entities of a result are persisted, its endpoints resolve.
  abbrev pub AllResolve : QueryResult → Type 0
  AllResolve r =
      Every (λ found. All (Resolves input found.0) r.relationships)
        (persist_entities w case_id created_by r.entities [] s).0

  closed-AllResolve : (r : QueryResult) → IsClosed r → AllResolve r
  closed-AllResolve r h =
      let m : Result (Refs × List Entity) =
        (persist_entities w case_id created_by r.entities [] s).0 in
      Every-All (λ rp found. Resolves input found.0 rp) m r.relationships
        (All-weaken (Known r.entities) (λ rp. Every (λ found. Resolves input found.0 rp) m)
          r.relationships
          (λ rp k.
            Every-both (λ found. is_ok (resolve_ref rp.src input found.0) ≡ true)
              (λ found. is_ok (resolve_ref rp.dst input found.0) ≡ true) m
              (endpoint-Resolves r.entities rp.src k.0) (endpoint-Resolves r.entities rp.dst k.1))
          h)

-- Each built-in plugin, whatever it is answered, raises or returns a result for which this holds:
-- when the runner's loop over the proposed entities returns, `_resolve_ref` returns an entity for
-- both endpoints of every proposed relationship.
pub plugins-AllResolve :
    (web : Web) (w : World) (case_id : ℕ) (created_by : Option ℕ) (input : Entity)
    (key : Option Text) (s : Session)
    → All (λ p. Every (AllResolve w case_id created_by input s) (p.query input key)) (plugins web)
plugins-AllResolve web w case_id created_by input key s =
    All-weaken (λ p. Every IsClosed (p.query input key))
      (λ p. Every (AllResolve w case_id created_by input s) (p.query input key)) (plugins web)
      (λ p h.
        Every-weaken IsClosed (AllResolve w case_id created_by input s) (p.query input key)
          (closed-AllResolve w case_id created_by input s) h)
      (plugins-IsClosed web input key)
