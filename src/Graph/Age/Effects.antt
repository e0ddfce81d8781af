-- ===== src/Graph/Age/Effects.antt =====
-- The outcomes of the graph calls: a statement is appended to the graph, or the call raises and
-- leaves the database as it was.
use sleuthgraph_api.Base.{
  ℕ, ◌+◌, ◌≡◌, refl, String, Bool, true, false, Option, none, some, [], ◌∷◌, ◌++◌, ◌⊎◌,
}
use sleuthgraph_api.Base.{inl, inr, arith, Bool-cases}
use sleuthgraph_api.Base.Text.{Text}
use sleuthgraph_api.Errors.{
  Error, Result, ok, err, cypher_failed, no_safe_tag, invalid_entity_type, invalid_rel_type,
}
use sleuthgraph_api.Model.{
  Session, World, Entity, Relationship, Cypher, merge_vertex, merge_edge, delete_edge_by_id,
}
use sleuthgraph_api.Model.{detach_delete_vertex}
use sleuthgraph_api.Action.{Action, or_rollback, commit, commit_if, ◌>>◌}
use sleuthgraph_api.Graph.Encode.{encode_props}
use sleuthgraph_api.Graph.Age.{
  render, pick_delimiter, cypher_sql, execute_sql, send, run_cypher, vertex_props, upsert_vertex,
  edge_props, upsert_edge, is_member, entity_types, rel_types, delete_vertex, delete_edge,
}

-- The session after a statement was executed, at a later draw.
abbrev pub executed : Cypher → ℕ → Session → Session
executed c n s = record s { ticks = n; live = record s.live { graph = s.live.graph ++ c ∷ [] } }

abbrev pub at_draw : ℕ → Session → Session
at_draw n s = record s { ticks = n }

Result-cases {ℓ} :
    {A : Type ℓ} (r : Result A) → ((a : A) × (r ≡ ok a)) ⊎ ((e : Error) × (r ≡ err e))
Result-cases (ok a) = inl (a, refl)
Result-cases (err e) = inr (e, refl)

-- A call executes the statement `c`, or raises without touching the database.
abbrev pub Outcome : Cypher → Session → Result (Unit {0}) × Session → Type 0
Outcome c s r =
    ((n : ℕ) × (r ≡ (ok tt, executed c n s))) ⊎ ((e : Error) × (n : ℕ) × (r ≡ (err e, at_draw n s)))

-- An upsert sends the statement with the row's encoded properties, or raises.
abbrev pub Upsert : (Text → Cypher) → Result Text → Session → Result (Unit {0}) × Session → Type 0
Upsert stmt props s r =
    ((p : Text) × (props ≡ ok p) × ((n : ℕ) × (r ≡ (ok tt, executed (stmt p) n s))))
    ⊎ ((e : Error) × (n : ℕ) × (r ≡ (err e, at_draw n s)))

module _ (w : World) where
  send_cases :
      (c : Cypher) (col : String) (d : Option (Text × ℕ)) (s : Session)
      → Outcome c s (send w c col d s)
  unfolding send execute_sql
  send_cases c col none s = inr (no_safe_tag, s.ticks + 4, refl)
  send_cases c col (some (delim, n)) s =
      elim (Bool-cases (w.age_accepts s.live.graph (cypher_sql w delim (render w c) col))) [
        | inl e ↦ inl (n, ground arith)
        | inr e ↦ inr (cypher_failed, n, ground arith)
      ]

  pub run_cypher_cases :
      (c : Cypher) (col : String) (s : Session) → Outcome c s (run_cypher w c col s)
  unfolding run_cypher
  run_cypher_cases c col s = send_cases c col (pick_delimiter w 4 s.ticks (render w c)) s

  pub delete_vertex_cases :
      (id : ℕ) (s : Session) → Outcome (detach_delete_vertex id) s (delete_vertex w id s)
  unfolding delete_vertex
  delete_vertex_cases id s = run_cypher_cases (detach_delete_vertex id) "v" s

  pub delete_edge_cases :
      (id : ℕ) (s : Session) → Outcome (delete_edge_by_id id) s (delete_edge w id s)
  unfolding delete_edge
  delete_edge_cases id s = run_cypher_cases (delete_edge_by_id id) "r" s

  pub upsert_vertex_cases :
      (e : Entity) (s : Session)
      → Upsert
          (merge_vertex e.type e.id)
          (encode_props w.str_list (vertex_props w e))
          s
          (upsert_vertex w e s)
  unfolding upsert_vertex
  upsert_vertex_cases e s = elim (Bool-cases (is_member e.type entity_types)) [
    | inr bad ↦ inr (invalid_entity_type, s.ticks, ground arith)
    | inl good ↦ elim (Result-cases (encode_props w.str_list (vertex_props w e))) [
      | inr (x, bad) ↦ inr (x, s.ticks, ground arith)
      | inl (p, enc) ↦ elim (run_cypher_cases (merge_vertex e.type e.id p) "v" s) [
        | inl (n, done) ↦ inl (p, enc, (n, ground arith))
        | inr (x, n, failed) ↦ inr (x, n, ground arith)
      ]
    ]
  ]

  pub upsert_edge_cases :
      (r : Relationship) (s : Session)
      → Upsert
          (merge_edge r.rel_type r.src_entity_id r.dst_entity_id r.id)
          (encode_props w.str_list (edge_props w r))
          s
          (upsert_edge w r s)
  unfolding upsert_edge
  upsert_edge_cases r s = elim (Bool-cases (is_member r.rel_type rel_types)) [
    | inr bad ↦ inr (invalid_rel_type, s.ticks, ground arith)
    | inl good ↦ elim (Result-cases (encode_props w.str_list (edge_props w r))) [
      | inr (x, bad) ↦ inr (x, s.ticks, ground arith)
      | inl (p, enc) ↦
          elim (run_cypher_cases (merge_edge r.rel_type r.src_entity_id r.dst_entity_id r.id p) "r"
            s) [
              | inl (n, done) ↦ inl (p, enc, (n, ground arith))
              | inr (x, n, failed) ↦ inr (x, n, ground arith)
            ]
    ]
  ]

-- `try: <graph call>; if commit: await session.commit()`, `except Exception: rollback; raise`.
abbrev pub saved : Bool → Session → Session
saved true s = record s { committed = s.live }
saved false s = s

abbrev pub undone : ℕ → Session → Session
undone n s = record s { ticks = n; live = s.committed }

abbrev pub Attempt :
    (Text → Cypher) → Result Text → Bool → Session → Result (Unit {0}) × Session → Type 0
Attempt stmt props b s r =
    ((p : Text) × (props ≡ ok p) × ((n : ℕ) × (r ≡ (ok tt, saved b (executed (stmt p) n s)))))
    ⊎ ((e : Error) × (n : ℕ) × (r ≡ (err e, undone n s)))

pub Attempt-Upsert :
    (stmt : Text → Cypher) (props : Result Text) (m : Action (Unit {0})) (b : Bool) (s : Session)
    → Upsert stmt props s (m s)
    → Attempt stmt props b s (or_rollback (m >> commit_if b) s)
Attempt-Upsert stmt props m true s (inl (p, enc, (n, e))) = inl (p, enc, (n, ground arith))
Attempt-Upsert stmt props m false s (inl (p, enc, (n, e))) = inl (p, enc, (n, ground arith))
Attempt-Upsert stmt props m b s (inr (x, n, e)) = inr (x, n, ground arith)

pub attempt_delete :
    (c : Cypher) (m : Action (Unit {0})) (s : Session)
    → Outcome c s (m s)
    → ((n : ℕ) × (or_rollback (m >> commit) s ≡ (ok tt, saved true (executed c n s))))
      ⊎ ((e : Error) × (n : ℕ) × (or_rollback (m >> commit) s ≡ (err e, undone n s)))
attempt_delete c m s (inl (n, e)) = inl (n, ground arith)
attempt_delete c m s (inr (x, n, e)) = inr (x, n, ground arith)

pub live-saved : (b : Bool) (s : Session) → (saved b s).live ≡ s.live
live-saved true s = refl
live-saved false s = refl
