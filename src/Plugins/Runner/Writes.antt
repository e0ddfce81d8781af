-- ===== src/Plugins/Runner/Writes.antt =====
-- What a run writes besides its row keeps a property of the rows of plugin runs.
use sleuthgraph_api.Base.{
  ℕ, ◌+◌, sym, String, Bool, false, Option, none, some, List, [], ◌∷◌, inl, inr, Bool-cases, ltb,
  if◌then◌else◌, ◌||◌, not, length,
}
use mathlib.Core.Path.{subst}
use sleuthgraph_api.Base.Text.{Text, codes}
use sleuthgraph_api.Errors.{Result, schema_invalid}
use sleuthgraph_api.Model.{Credential, Session, World, Entity, Relationship, PluginRun, Cypher}
use sleuthgraph_api.Graph.Age.Effects.{executed}
use sleuthgraph_api.Graph.Attrs.{validate_attrs}
use sleuthgraph_api.Entities.{EntityCreate}
use sleuthgraph_api.Entities
use sleuthgraph_api.Entities.Outcomes
use sleuthgraph_api.Relationships.{RelationshipCreate}
use sleuthgraph_api.Relationships
use sleuthgraph_api.Relationships.Outcomes as RelOutcomes
use sleuthgraph_api.Evidence.{EvidenceCreate}
use sleuthgraph_api.Evidence
use sleuthgraph_api.Evidence.Recorded.{create_cases, with_evidence}
use sleuthgraph_api.Credentials.{get_credential, decrypt_found}
use sleuthgraph_api.Plugins.Base.{
  Plugin, QueryResult, EntityProposal, RelationshipProposal, EvidenceProposal,
}
use sleuthgraph_api.Plugins.Proposals.{
  Refs, resolve_ref, push_if, persist, persist_entities, persist_relationships, persist_evidence,
  source_plugin_match,
}
use sleuthgraph_api.Plugins.Runner.{resolve_credentials}
use sleuthgraph_api.Plugins.Runner.Keeping.{
  Both, Keeps, Keeps-bind, Keeps-pure, Keeps-lift, Keeps-gets, Keeps-raise_if, Keeps-or_raise,
  Keeps-try_commit, saved_Both,
}

module _ (P : List PluginRun → Type 0) where
  module _ {A : Type 0} (a : A) (stmt : Text → Cypher) (props : Result Text) (c : Bool) where
    entities_Both :
        (rows : List Entity) (s : Session) (r : Result A × Session)
        → Outcomes.Written a rows stmt props c s r
        → Both P s
        → Both P r.1
    entities_Both rows s r (inl (p, enc, (n, e))) b =
        subst (λ x. Both P x.1) (sym e)
          (saved_Both P c (executed (stmt p) n (Outcomes.with_entities rows n s)) b.0 b.1)
    entities_Both rows s r (inr (x, n, e)) b = subst (λ y. Both P y.1) (sym e) (b.1, b.1)

    relationships_Both :
        (rows : List Relationship) (s : Session) (r : Result A × Session)
        → RelOutcomes.Written a rows stmt props c s r
        → Both P s
        → Both P r.1
    relationships_Both rows s r (inl (p, enc, (n, e))) b =
        subst (λ x. Both P x.1) (sym e)
          (saved_Both P c (executed (stmt p) n (RelOutcomes.with_relationships rows n s)) b.0 b.1)
    relationships_Both rows s r (inr (x, n, e)) b = subst (λ y. Both P y.1) (sym e) (b.1, b.1)

  module _ (w : World) (case_id : ℕ) (created_by : Option ℕ) where
    entity_Keeps :
        (body : EntityCreate) (c : Bool) → Keeps P (Entities.create w case_id created_by body c)
    entity_Keeps body c = record {
      kept = λ s b.
          entities_Both _ _ _ c _ s _ (Outcomes.create_cases w case_id created_by body c s) b;
    }

    raised_Both :
        (k : ℕ) (e : Entity) (c : Bool) (s : Session)
        → Both P s
        → Both P (Entities.raise_confidence w k e c s).1
    unfolding Entities.raise_confidence
    raised_Both k e c s b = elim (Bool-cases (ltb e.confidence k)) [
      | inl lower ↦ entities_Both _ _ _ c _ s _ (Outcomes.raise_confidence_cases w k e c s lower) b
      | inr high ↦ rw high b
    ]

    raised_Keeps : (k : ℕ) (e : Entity) (c : Bool) → Keeps P (Entities.raise_confidence w k e c)
    raised_Keeps k e c = record { kept = raised_Both k e c }

    create_or_raise-Keeps :
        (body : EntityCreate) (c : Bool) (found : Option Entity)
        → Keeps P (Entities.create_or_raise w case_id created_by body c found)
    unfolding Entities.create_or_raise
    create_or_raise-Keeps body c none = search (Keeps-bind, Keeps-pure, entity_Keeps)
    create_or_raise-Keeps body c (some e) = search (Keeps-bind, Keeps-pure, raised_Keeps)

    get_or_create-Keeps :
        (body : EntityCreate) (c : Bool)
        → Keeps P (Entities.get_or_create w case_id created_by body c)
    unfolding Entities.get_or_create
    get_or_create-Keeps body c = search (Keeps-bind, Keeps-gets, Keeps-lift, create_or_raise-Keeps)

    insert_rel-Keeps :
        (body : RelationshipCreate) (c : Bool)
        → Keeps P (Relationships.insert_rel w case_id created_by body c)
    insert_rel-Keeps body c = record {
      kept = λ s b.
          relationships_Both _ _ _ c _ s _
            (RelOutcomes.insert_rel_cases w case_id created_by body c s) b;
    }

    relationship_Keeps :
        (body : RelationshipCreate) (c : Bool)
        → Keeps P (Relationships.create w case_id created_by body c)
    unfolding Relationships.create Relationships.assert_endpoints_in_case
    relationship_Keeps body c = search (Keeps-bind, Keeps-gets, Keeps-raise_if, insert_rel-Keeps)

    create_unless-Keeps :
        (body : RelationshipCreate) (c : Bool) (found : Option Relationship)
        → Keeps P (Relationships.create_unless w case_id created_by body c found)
    unfolding Relationships.create_unless
    create_unless-Keeps body c none = search (Keeps-bind, Keeps-pure, relationship_Keeps)
    create_unless-Keeps body c (some r) = search Keeps-pure

    create_if_not_exists-Keeps :
        (body : RelationshipCreate) (c : Bool)
        → Keeps P (Relationships.create_if_not_exists w case_id created_by body c)
    unfolding Relationships.create_if_not_exists
    create_if_not_exists-Keeps body c =
        search (Keeps-bind, Keeps-gets, Keeps-lift, create_unless-Keeps)

    evidence_Keeps :
        (meta : EvidenceCreate) (payload : List ℕ) (content_type : Option String) (c : Bool)
        → Keeps P (Evidence.create w case_id created_by meta payload content_type c)
    evidence_Keeps meta payload content_type c = record {
      kept = λ s b. elim (create_cases w case_id created_by meta payload content_type c s) [
        | inl e ↦
            subst (λ x. Both P x.1) (sym e)
              (saved_Both P c (with_evidence _ (s.ticks + 1 + 1) s) b.0 b.1)
        | inr (inl (h, e)) ↦
            subst (λ x. Both P x.1) (sym e)
              (saved_Both P c (with_evidence _ (s.ticks + 1 + 1) s) b.0 b.1)
        | inr (inr e) ↦ subst (λ x. Both P x.1) (sym e) (b.1, b.1)
      ];
    }

    persist_entities-Keeps :
        (eps : List EntityProposal) (refs : Refs)
        → Keeps P (persist_entities w case_id created_by eps refs)
    unfolding persist_entities
    persist_entities-Keeps [] refs = search Keeps-pure
    persist_entities-Keeps (ep ∷ eps) refs =
        search (Keeps-bind, Keeps-lift, Keeps-pure, get_or_create-Keeps, persist_entities-Keeps eps)

    module _ (input : Entity) (name : String) where
      persist_relationships-Keeps :
          (refs : Refs) (rps : List RelationshipProposal)
          → Keeps P (persist_relationships w case_id created_by input name refs rps)
      unfolding persist_relationships
      persist_relationships-Keeps refs [] = search Keeps-pure
      persist_relationships-Keeps refs (rp ∷ rps) =
          Keeps-bind P _ _ (Keeps-lift P (resolve_ref rp.src input refs)) λ src.
            Keeps-bind P _ _ (Keeps-lift P (resolve_ref rp.dst input refs)) λ dst.
              Keeps-bind P _ _ (Keeps-raise_if P (ltb 128 (length (codes name))) schema_invalid)
                λ u. Keeps-bind P _ _ (Keeps-lift P (validate_attrs w.json_size rp.attrs)) λ attrs.
                  Keeps-bind P _ _
                    (create_if_not_exists-Keeps
                      (record {
                        src_entity_id = src.id;
                        dst_entity_id = dst.id;
                        rel_type = rp.rel_type;
                        confidence = rp.confidence;
                        source_plugin = some name;
                        attrs = attrs;
                      })
                      false)
                    λ made.
                      Keeps-bind P _ _ (persist_relationships-Keeps refs rps)
                        λ rest. Keeps-pure P (push_if made.1 made.0 rest)

      persist_evidence-Keeps :
          (evps : List EvidenceProposal)
          → Keeps P (persist_evidence w case_id created_by input name evps)
      unfolding persist_evidence
      persist_evidence-Keeps [] = search Keeps-pure
      persist_evidence-Keeps (evp ∷ evps) =
          Keeps-bind P _ _
            (Keeps-raise_if P
              (ltb 96 (length (codes name)) || not (source_plugin_match (codes name)))
              schema_invalid)
            λ u.
              Keeps-bind P _ _ (Keeps-lift P (validate_attrs w.json_size evp.reproducibility_spec))
                λ spec.
                  Keeps-bind P _ _
                    (evidence_Keeps
                      (record {
                        entity_id = if evp.link_to_input then some input.id else none;
                        source_plugin = name;
                        query = evp.query;
                        reproducibility_spec = spec;
                      })
                      evp.payload evp.content_type false)
                    λ ev.
                      Keeps-bind P _ _ (persist_evidence-Keeps evps)
                        λ rest. Keeps-pure P (ev ∷ rest)

      pub persist-Keeps :
          (result : QueryResult) → Keeps P (persist w case_id input created_by name result)
      unfolding persist
      persist-Keeps result =
          search
            (
              Keeps-bind, Keeps-pure, Keeps-try_commit, persist_entities-Keeps,
              persist_relationships-Keeps, persist_evidence-Keeps,
            )
            depth 16

  module _ (w : World) where
    decrypt_found-Keeps : (found : Option Credential) → Keeps P (decrypt_found w found)
    unfolding decrypt_found
    decrypt_found-Keeps none = search Keeps-pure
    decrypt_found-Keeps (some cred) = search (Keeps-bind, Keeps-or_raise, Keeps-pure)

    credential_Keeps : (user : ℕ) (name : String) → Keeps P (get_credential w user name)
    unfolding get_credential
    credential_Keeps user name = search (Keeps-bind, Keeps-gets, Keeps-lift, decrypt_found-Keeps)

    pub resolve_credentials-Keeps :
        (plugin : Plugin) (user : Option ℕ) → Keeps P (resolve_credentials w plugin user)
    unfolding resolve_credentials
    resolve_credentials-Keeps plugin none = search Keeps-pure
    resolve_credentials-Keeps plugin (some user) = elim (Bool-cases plugin.requires_credentials) [
      | inl needed ↦ rw needed (search (Keeps-bind, Keeps-raise_if, Keeps-pure, credential_Keeps))
      | inr free ↦ rw free (search Keeps-pure)
    ]
