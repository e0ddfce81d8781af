-- ===== src/Relationships/Dedup.antt =====
-- Deduplication on (case_id, src, dst, rel_type), and the immutability of a relationship.
use sleuthgraph_api.Base.{
  ℕ, ◌≡◌, refl, sym, ap, ◌∙◌, Bool, true, false, Option, List, [], ◌∷◌, ◌++◌, inl, inr, arith, keep,
  ◌==◌, ◌&&◌, is_none, str_eq, str_eq_iff,
}
use sleuthgraph_api.Base.Text.{Text}
use sleuthgraph_api.Errors.{Result, ok, err}
use sleuthgraph_api.Model.{Session, World, Relationship, Cypher}
use sleuthgraph_api.Action.{Action, pure, ◌>>=◌}
use sleuthgraph_api.Sql.{select, scalar_one_or_none}
use sleuthgraph_api.Sql.Rows.{lookup-cases}
use sleuthgraph_api.Sql.Single.{scalar_single, scalar_empty, keep-append}
use sleuthgraph_api.Graph.Age.Effects.{executed, saved, undone, live-saved}
use sleuthgraph_api.Relationships.{
  RelationshipType, RelationshipCreate, rel_value, rel_same, insert_rel, create,
  create_if_not_exists,
}
use sleuthgraph_api.Relationships.Outcomes.{Written, new_rel, with_relationships, insert_rel_cases}
use sleuthgraph_api.Relationships.Endpoints.{create-endpoints}

abbrev pub twins : ℕ → RelationshipCreate → Session → List Relationship
twins case_id body s = select (rel_same case_id body) s.live.relationships

Written-ok :
    {A : Type 0} (a : A) (rows : List Relationship) (stmt : Text → Cypher) (props : Result Text)
    (b : Bool) (s t : Session) (r : Result A × Session) (e : A)
    → Written a rows stmt props b s r
    → r ≡ (ok e, t)
    → (e ≡ a) × (t.live.relationships ≡ rows)
Written-ok {A} a rows stmt props b s t r e (inl (p, enc, (n, done))) h =
    let u : Session = executed (stmt p) n (with_relationships rows n s) in
    let same : ◌≡◌ {A = Result A × Session} (ok e, t) (ok a, saved b u) = sym h ∙ done in
    (
      cc,
      ap (λ (x : Result A × Session). x.1.live.relationships) same
          ∙ ap (λ db. db.relationships) (live-saved b u),
    )
Written-ok {A} a rows stmt props b s t r e (inr (x, n, failed)) h =
    absurd
      (let c : ◌≡◌ {A = Result A × Session} (ok e, t) (err x, undone n s) = sym h ∙ failed in cc)

pair_inv :
    {A : Type 0} (m : Action A) (s t : Session) (a : A) (flag : Bool)
    → ◌>>=◌ {B = A × Bool} m (λ x. pure (x, true)) s ≡ (ok (a, flag), t)
    → m s ≡ (ok a, t)
pair_inv m s t a flag h = ground arith

-- `rel_same` by the key of the body.
abbrev rel_key : ℕ → ℕ → ℕ → RelationshipType → Relationship → Bool
rel_key case_id src dst type r =
    r.case_id == case_id
    && r.src_entity_id == src
    && r.dst_entity_id == dst
    && str_eq r.rel_type (rel_value type)
    && is_none r.deleted_at

module _ (w : World) where
  inserted_twins :
      (case_id : ℕ) (created_by : Option ℕ) (body : RelationshipCreate) (b : Bool) (s t : Session)
      (r : Relationship)
      → insert_rel w case_id created_by body b s ≡ (ok r, t)
      → twins case_id body t ≡ twins case_id body s ++ r ∷ []
  inserted_twins case_id created_by body b s t r h =
      let new : Relationship = new_rel w case_id created_by body s in
      let (row, rows) =
        Written-ok new (s.live.relationships ++ new ∷ []) _ _ b s t _ r
          (insert_rel_cases w case_id created_by body b s) h in
      let same : Relationship → Bool = rel_same case_id body in
      let passes : same r ≡ true =
        ap same row
        ∙ ground (arith, (str_eq_iff (rel_value body.rel_type) (rel_value body.rel_type)).1 refl) in
      ap (keep same) (rows ∙ ap (λ x. s.live.relationships ++ x ∷ []) (sym row))
      ∙ keep-append same s.live.relationships (r ∷ [])
      ∙ ap (λ x. keep same s.live.relationships ++ x) (ground (arith, passes))

  -- A create that returned is the insertion of its row.
  created_insert :
      (case_id : ℕ) (created_by : Option ℕ) (body : RelationshipCreate) (b : Bool) (s t : Session)
      (r : Relationship)
      → create w case_id created_by body b s ≡ (ok r, t)
      → insert_rel w case_id created_by body b s ≡ (ok r, t)
  created_insert case_id created_by body b s t r h =
      elim (create-endpoints w case_id created_by body b s) [
        | inl (live, e) ↦ sym e ∙ h
        | inr (dead, e) ↦ absurd (cc)
      ]

  -- After a `create_if_not_exists` that returned, a call with the same case, endpoints and type
  -- returns the same row unchanged, whatever else it proposes, says that it was not created, and
  -- writes nothing.
  pub create_if_not_exists_again :
      (case_id : ℕ) (created_by again : Option ℕ) (body other : RelationshipCreate) (b c : Bool)
      (s t : Session) (r : Relationship) (was_created : Bool)
      → other.src_entity_id ≡ body.src_entity_id
      → other.dst_entity_id ≡ body.dst_entity_id
      → other.rel_type ≡ body.rel_type
      → create_if_not_exists w case_id created_by body b s ≡ (ok (r, was_created), t)
      → create_if_not_exists w case_id again other c t ≡ (ok (r, false), t)
  unfolding create_if_not_exists
  create_if_not_exists_again case_id created_by again body other b c s t r was_created es ed et h =
      let same : twins case_id other t ≡ twins case_id body t =
        ap
          (λ (x : ℕ × ℕ × RelationshipType).
            keep (λ (y : Relationship). rel_key case_id x.0 x.1 x.2 y) t.live.relationships)
          (λ i. (es i, ed i, et i)) in
      elim (lookup-cases (scalar_one_or_none (twins case_id body s))) [
        | inl x ↦
            let made : create w case_id created_by body b s ≡ (ok r, t) =
              pair_inv (create w case_id created_by body b) s t r was_created (ground arith) in
            let one : twins case_id other t ≡ r ∷ [] =
              same
              ∙ inserted_twins case_id created_by body b s t r
                  (created_insert case_id created_by body b s t r made)
              ∙ ap (λ y. y ++ r ∷ []) (scalar_empty (twins case_id body s) x) in
            ground (arith, one)
        | inr (inl (d, x)) ↦
            let stay : ◌≡◌ {A = Result (Relationship × Bool) × Session} (ok (d, false), s)
                (ok (r, was_created), t) =
              ground arith in
            let row : d ≡ r = cc in
            let one : twins case_id other t ≡ r ∷ [] =
              same
              ∙ ap (λ (y : Result (Relationship × Bool) × Session). twins case_id body y.1)
                  (sym stay)
              ∙ scalar_single (twins case_id body s) d x
              ∙ ap (λ y. y ∷ []) row in
            ground (arith, one)
        | inr (inr (k, x)) ↦ absurd (ground (arith, h))
      ]
