-- ===== src/Evidence/Custody.antt =====
-- Chain of custody: what `create` records can be verified against the store, and stays so.
use sleuthgraph_api.Base.{
  ℕ, ◌+◌, ◌≡◌, refl, sym, ◌∙◌, Bool, true, false, Option, none, some, List, [], ◌∷◌, ◌++◌, inl, inr,
  arith, Bool-cases, length, All, All-append, String,
}
use mathlib.Core.Path.{subst}
use sleuthgraph_api.Base.Text.{text_eq, text_eq_iff}
use sleuthgraph_api.Errors.{ok}
use sleuthgraph_api.Model.{Session, World, Evidence, BlobPut}
use sleuthgraph_api.Sql.{order_asc}
use sleuthgraph_api.Sql.Rows.{All-order_asc}
use sleuthgraph_api.Graph.Age.Effects.{saved}
use sleuthgraph_api.Evidence.{
  EvidenceCreate, build_key, content_type_or_default, create, verify_single, sweep, sweep_all,
}
use sleuthgraph_api.Evidence.Recorded.{new_evidence, with_evidence, create_cases, blobs_saved}
use sleuthgraph_api.Evidence.Store.{StoreLaws, IsKeyOf, Addressed, Addressed-put, key_hash}

-- The object under the row's URI has the row's hash.
abbrev pub Backed : World → List BlobPut → Evidence → Type 0
Backed w puts ev =
    (body : List ℕ) × (w.get_object puts ev.response_uri ≡ some body)
    × (w.sha256_hex body ≡ ev.response_hash)

-- Every evidence row is backed, in the transaction and in what is committed, and every object of
-- the store stands under a key of its content.
pub record InCustody (w : World) (s : Session) : Type 0 where
  pub addressed : Addressed w s.blobs
  pub live_backed : All (Backed w s.blobs) s.live.evidence
  pub committed_backed : All (Backed w s.blobs) s.committed.evidence

module _ (w : World) (laws : StoreLaws w) where
  -- A PUT under a key of its content leaves every backed row backed.
  Backed-put :
      (puts : List BlobPut) (c : ℕ) (payload : List ℕ) (content_type : String) (ev : Evidence)
      → Addressed w puts
      → Backed w puts ev
      → Backed w
          (puts
            ++ (record {
              key = build_key (w.str_uuid c) (w.sha256_hex payload);
              body = payload;
              content_type = content_type;
            })
              ∷ [])
          ev
  Backed-put puts c payload content_type ev adr (body, e, h) =
      let p : BlobPut = record {
        key = build_key (w.str_uuid c) (w.sha256_hex payload);
        body = payload;
        content_type = content_type;
      } in
      elim (Bool-cases (text_eq p.key ev.response_uri)) [
        | inl t ↦
            let same : p.key ≡ ev.response_uri = (text_eq_iff p.key ev.response_uri).0 t in
            let mine : IsKeyOf w p.key body =
              subst (λ k. IsKeyOf w k body) (sym same) (adr ev.response_uri body e) in
            (
              payload,
              ground (arith, laws.get_after_put puts p ev.response_uri),
              key_hash w laws c payload body mine ∙ h,
            )
        | inr t ↦ (body, ground (arith, laws.get_after_put puts p ev.response_uri), h)
      ]

  All-Backed_put :
      (puts : List BlobPut) (c : ℕ) (payload : List ℕ) (content_type : String) (evs : List Evidence)
      → Addressed w puts
      → All (Backed w puts) evs
      → All
          (Backed w (
            puts
            ++ (record {
              key = build_key (w.str_uuid c) (w.sha256_hex payload);
              body = payload;
              content_type = content_type;
            })
              ∷ []))
          evs
  All-Backed_put puts c payload content_type [] adr h = tt
  All-Backed_put puts c payload content_type (ev ∷ evs) adr h = (
    Backed-put puts c payload content_type ev adr h.0,
    All-Backed_put puts c payload content_type evs adr h.1,
  )

  saved_custody :
      (b : Bool) (s : Session) (rows : List Evidence) (blobs : List BlobPut)
      → Addressed w blobs
      → All (Backed w blobs) rows
      → All (Backed w blobs) s.committed.evidence
      → InCustody w (record (saved b (with_evidence rows (s.ticks + 1 + 1) s)) { blobs = blobs })
  saved_custody true s rows blobs adr live committed = record {
    addressed = adr;
    live_backed = live;
    committed_backed = live;
  }
  saved_custody false s rows blobs adr live committed = record {
    addressed = adr;
    live_backed = live;
    committed_backed = committed;
  }

  -- Under the store's laws, a session in custody is in custody after `EvidenceRepository.create`,
  -- committing or not, and whether it returns or raises.
  pub create-InCustody :
      (case_id : ℕ) (created_by : Option ℕ) (meta : EvidenceCreate) (payload : List ℕ)
      (content_type : Option String) (b : Bool) (s : Session)
      → InCustody w s
      → InCustody w (create w case_id created_by meta payload content_type b s).1
  create-InCustody case_id created_by meta payload content_type b s k =
      let ev : Evidence = new_evidence w case_id created_by meta payload content_type s in
      let ct : String = content_type_or_default content_type in
      let p : BlobPut = record { key = ev.response_uri; body = payload; content_type = ct } in
      elim (create_cases w case_id created_by meta payload content_type b s) [
        | inl e ↦
            subst (λ r. InCustody w r.1) (sym e)
              (saved_custody b s (s.live.evidence ++ ev ∷ []) (s.blobs ++ p ∷ [])
                (Addressed-put w laws s.blobs p k.addressed (case_id, refl))
                (All-append (Backed w (s.blobs ++ p ∷ [])) s.live.evidence (ev ∷ [])
                  (All-Backed_put s.blobs case_id payload ct s.live.evidence k.addressed
                    k.live_backed)
                  (
                    (
                      payload,
                      ground (
                        arith,
                        laws.get_after_put s.blobs p ev.response_uri,
                        (text_eq_iff ev.response_uri ev.response_uri).1 refl,
                      ),
                      refl,
                    ),
                    tt,
                  ))
                (All-Backed_put s.blobs case_id payload ct s.committed.evidence k.addressed
                  k.committed_backed))
        | inr (inl (h, e)) ↦
            let (body, there, size) =
              laws.head_is_length s.blobs ev.response_uri (length payload) h in
            let backed : Backed w s.blobs ev = (
              body,
              there,
              sym (key_hash w laws case_id payload body (k.addressed ev.response_uri body there)),
            ) in
            subst (λ r. InCustody w r.1) (sym e)
              (subst (InCustody w) (blobs_saved b s (s.live.evidence ++ ev ∷ [])) (
                saved_custody b s (s.live.evidence ++ ev ∷ []) s.blobs k.addressed
                  (All-append (Backed w s.blobs) s.live.evidence (ev ∷ []) k.live_backed
                    (backed, tt))
                  k.committed_backed))
        | inr (inr e) ↦
            subst (λ r. InCustody w r.1) (sym e)
              (record {
                addressed = k.addressed;
                live_backed = k.committed_backed;
                committed_backed = k.committed_backed;
              })
      ]

  verify-Backed :
      (ev : Evidence) (s : Session) → Backed w s.blobs ev → verify_single w ev s ≡ (ok none, s)
  unfolding verify_single
  verify-Backed ev s (body, there, same) =
      ground (arith, (text_eq_iff (w.sha256_hex body) ev.response_hash).1 same)

  sweep-Backed :
      (evs : List Evidence) (s : Session) → All (Backed w s.blobs) evs → sweep w evs s ≡ (ok [], s)
  unfolding sweep
  sweep-Backed [] s h = refl
  sweep-Backed (ev ∷ evs) s h = ground (arith, verify-Backed ev s h.0, sweep-Backed evs s h.1)

  -- A request to record evidence: its case, author, metadata, payload and content type, and
  -- whether it commits.
  pub record Upload : Type 0 where
    pub case_id : ℕ
    pub created_by : Option ℕ
    pub meta : EvidenceCreate
    pub payload : List ℕ
    pub content_type : Option String
    pub do_commit : Bool

  -- The session after a list of calls of `create`, whichever of them raise.
  pub record_all : List Upload → Session → Session
  record_all [] s = s
  record_all (u ∷ us) s =
      record_all us
        (create w u.case_id u.created_by u.meta u.payload u.content_type u.do_commit s).1

  -- Under the store's laws and from a session in custody, whatever evidence is recorded, and whichever uploads fail or find
  -- an object of their size in place, the integrity sweep over all rows reports no mismatch and
  -- raises nothing.
  pub sweep_all-healthy :
      (us : List Upload) (s : Session)
      → InCustody w s
      → sweep_all w (record_all us s) ≡ (ok [], record_all us s)
  unfolding sweep_all record_all
  sweep_all-healthy [] s k =
      sweep-Backed (order_asc (λ ev. ev.timestamp) s.live.evidence) s
        (All-order_asc (Backed w s.blobs) (λ ev. ev.timestamp) s.live.evidence k.live_backed)
  sweep_all-healthy (u ∷ us) s k =
      sweep_all-healthy us _
        (create-InCustody u.case_id u.created_by u.meta u.payload u.content_type u.do_commit s k)
