-- ===== src/Entities/Dedup.antt =====
-- entities/repository.py: deduplication on (case_id, type, label).
use sleuthgraph_api.Base.{
  ℕ, ◌≡◌, refl, sym, ap, ◌∙◌, String, Bool, true, false, Option, none, some, List, [], ◌∷◌, ◌++◌,
  inl, inr, arith, Bool-cases, keep, ◌==◌, ltb, str_eq, str_eq_iff,
}
use sleuthgraph_api.Errors.{Result, ok, err}
use sleuthgraph_api.Model.{Session, World, Entity}
use mathlib.Core.Path.{subst}
use sleuthgraph_api.Base.Text.{Text}
use sleuthgraph_api.Model.{Cypher}
use sleuthgraph_api.Graph.Age.Effects.{executed, saved, undone, live-saved}
use sleuthgraph_api.Sql.{select, scalar_one_or_none, update_where}
use sleuthgraph_api.Sql.Rows.{lookup-cases}
use sleuthgraph_api.Sql.Single.{scalar_single, scalar_empty, keep-append, keep_single}
use sleuthgraph_api.Entities.Outcomes.{
  Written, with_entities, new_entity, create_cases, raise_confidence_cases,
}
use sleuthgraph_api.Entities.{
  EntityCreate, entity_same, type_value, create, get_or_create, raise_confidence,
}

-- The rows that `get_or_create` takes for the proposed entity.
abbrev pub twins : ℕ → EntityCreate → Session → List Entity
twins case_id body s =
    select (entity_same case_id (type_value body.type) body.label) s.live.entities

str_eq_refl : (t : String) → str_eq t t ≡ true
str_eq_refl t = (str_eq_iff t t).1 refl

-- A write that returned gave its value and its rows.
Written-ok :
    {A : Type 0} (a : A) (rows : List Entity) (stmt : Text → Cypher) (props : Result Text)
    (b : Bool) (s t : Session) (r : Result A × Session) (e : A)
    → Written a rows stmt props b s r
    → r ≡ (ok e, t)
    → (e ≡ a) × (t.live.entities ≡ rows)
Written-ok {A} a rows stmt props b s t r e (inl (p, enc, (n, done))) h =
    let u : Session = executed (stmt p) n (with_entities rows n s) in
    let same : ◌≡◌ {A = Result A × Session} (ok e, t) (ok a, saved b u) = sym h ∙ done in
    (
      cc,
      ap (λ (x : Result A × Session). x.1.live.entities) same
          ∙ ap (λ db. db.entities) (live-saved b u),
    )
Written-ok {A} a rows stmt props b s t r e (inr (x, n, failed)) h =
    absurd
      (let c : ◌≡◌ {A = Result A × Session} (ok e, t) (err x, undone n s) = sym h ∙ failed in cc)

module _ (w : World) where
  new_same :
      (case_id : ℕ) (created_by : Option ℕ) (body : EntityCreate) (s : Session)
      → entity_same case_id
          (type_value body.type)
          body.label
          (new_entity w case_id created_by body s)
        ≡ true
  new_same case_id created_by body s =
      ground (arith, str_eq_refl (type_value body.type), str_eq_refl body.label)

  created_twins :
      (case_id : ℕ) (created_by : Option ℕ) (body : EntityCreate) (b : Bool) (s t : Session)
      (e : Entity)
      → create w case_id created_by body b s ≡ (ok e, t)
      → twins case_id body t ≡ twins case_id body s ++ e ∷ []
  created_twins case_id created_by body b s t e h =
      let new : Entity = new_entity w case_id created_by body s in
      let (row, rows) =
        Written-ok new (s.live.entities ++ new ∷ []) _ _ b s t _ e
          (create_cases w case_id created_by body b s) h in
      let same : Entity → Bool = entity_same case_id (type_value body.type) body.label in
      let passes : same e ≡ true = ap same row ∙ new_same case_id created_by body s in
      ap (keep same) (rows ∙ ap (λ x. s.live.entities ++ x ∷ []) (sym row))
      ∙ keep-append same s.live.entities (e ∷ [])
      ∙ ap (λ r. keep same s.live.entities ++ r) (ground (arith, passes))

  -- The row that a call returned, as the next call finds it.
  raised_twins :
      (k : ℕ) (same : Entity → Bool) (c e : Entity) (b : Bool) (s t : Session)
      → ((x : Entity) → same (record x { confidence = k }) ≡ same x)
      → keep same s.live.entities ≡ c ∷ []
      → raise_confidence w k c b s ≡ (ok e, t)
      → (keep same t.live.entities ≡ e ∷ []) × (e.id ≡ c.id) × (ltb e.confidence k ≡ false)
  unfolding raise_confidence
  raised_twins k same c e b s t inv one h = elim (Bool-cases (ltb c.confidence k)) [
    | inl lower ↦
        let f : Entity = record c { confidence = k } in
        let (row, rows) =
          Written-ok f
            (update_where (λ x. x.id == c.id) (λ x. record x { confidence = k }) s.live.entities) _
            _ b s t _ e (raise_confidence_cases w k c b s lower) h in
        (
          ap (keep same) rows
              ∙ keep_single same (λ x. x.id == c.id) (λ x. record x { confidence = k }) c
                  s.live.entities inv one (ground arith)
              ∙ ap (λ x. x ∷ []) (sym row),
          ap (λ x. x.id) row,
          ground (arith, ap (λ (x : Entity). x.confidence) row),
        )
    | inr high ↦
        let same_r : ◌≡◌ {A = Result Entity × Session} (ok c, s) (ok e, t) = ground arith in
        let row : c ≡ e = cc in
        let state : s ≡ t = ap (λ (x : Result Entity × Session). x.1) same_r in
        (
          subst (λ x. keep same x.live.entities ≡ e ∷ []) state (one ∙ ap (λ x. x ∷ []) row),
          ap (λ x. x.id) (sym row),
          ground (arith, ap (λ (x : Entity). x.confidence) row),
        )
  ]

  found_again :
      (case_id : ℕ) (created_by : Option ℕ) (body : EntityCreate) (b : Bool) (t : Session)
      (e : Entity)
      → twins case_id body t ≡ e ∷ []
      → ltb e.confidence body.confidence ≡ false
      → get_or_create w case_id created_by body b t ≡ (ok (e, false), t)
  unfolding get_or_create
  found_again case_id created_by body b t e one high = ground (arith, one, high)

  made_row :
      (case_id : ℕ) (created_by : Option ℕ) (body : EntityCreate) (b : Bool) (s t : Session)
      (e : Entity) (was_created : Bool)
      → scalar_one_or_none (twins case_id body s) ≡ ok none
      → get_or_create w case_id created_by body b s ≡ (ok (e, was_created), t)
      → create w case_id created_by body b s ≡ (ok e, t)
  unfolding get_or_create
  made_row case_id created_by body b s t e was_created x h =
      elim (create_cases w case_id created_by body b s) [
        | inl (p, enc, (n, done)) ↦ ground arith
        | inr (k, n, failed) ↦ ground arith
      ]

  raised_row :
      (case_id : ℕ) (created_by : Option ℕ) (body : EntityCreate) (b : Bool) (s t : Session)
      (d e : Entity) (was_created : Bool)
      → scalar_one_or_none (twins case_id body s) ≡ ok (some d)
      → get_or_create w case_id created_by body b s ≡ (ok (e, was_created), t)
      → raise_confidence w body.confidence d b s ≡ (ok e, t)
  unfolding get_or_create
  raised_row case_id created_by body b s t d e was_created x h = ground arith

  -- After a `get_or_create` that returned, the same call returns the same row, says that it was not
  -- created, and writes nothing.
  pub get_or_create_again :
      (case_id : ℕ) (created_by again : Option ℕ) (body : EntityCreate) (b c : Bool) (s t : Session)
      (e : Entity) (was_created : Bool)
      → get_or_create w case_id created_by body b s ≡ (ok (e, was_created), t)
      → get_or_create w case_id again body c t ≡ (ok (e, false), t)
  unfolding get_or_create
  get_or_create_again case_id created_by again body b c s t e was_created h =
      elim (lookup-cases (scalar_one_or_none (twins case_id body s))) [
        | inl x ↦
            let made : create w case_id created_by body b s ≡ (ok e, t) =
              made_row case_id created_by body b s t e was_created x h in
            let new : Entity = new_entity w case_id created_by body s in
            let (row, rows) =
              Written-ok new (s.live.entities ++ new ∷ []) _ _ b s t _ e
                (create_cases w case_id created_by body b s) made in
            found_again case_id again body c t e
              (created_twins case_id created_by body b s t e made
                ∙ ap (λ r. r ++ e ∷ []) (scalar_empty (twins case_id body s) x))
              (ground (arith, ap (λ (y : Entity). y.confidence) row))
        | inr (inl (d, x)) ↦
            let raised : raise_confidence w body.confidence d b s ≡ (ok e, t) =
              raised_row case_id created_by body b s t d e was_created x h in
            let (one, id, high) =
              raised_twins body.confidence (entity_same case_id (type_value body.type) body.label) d
                e b s t (λ y. refl) (scalar_single (twins case_id body s) d x) raised in
            found_again case_id again body c t e one high
        | inr (inr (k, x)) ↦ absurd (ground (arith, h))
      ]
