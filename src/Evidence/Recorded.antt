-- ===== src/Evidence/Recorded.antt =====
-- The outcomes of `EvidenceRepository.create`.
use sleuthgraph_api.Base.{
  ℕ, ◌+◌, ◌≡◌, refl, Bool, true, false, Option, some, List, [], ◌∷◌, ◌++◌, inl, inr, ◌⊎◌, arith,
  length, String,
}
use sleuthgraph_api.Errors.{Result, ok, err, storage_failed}
use sleuthgraph_api.Model.{Session, World, Evidence, content_length}
use sleuthgraph_api.Graph.Age.Effects.{saved, undone}
use sleuthgraph_api.Evidence.{EvidenceCreate, build_key, content_type_or_default, create}
use sleuthgraph_api.Evidence.Store.{put_cases}

-- The row that `create` inserts.
abbrev pub new_evidence :
    World → ℕ → Option ℕ → EvidenceCreate → List ℕ → Option String → Session → Evidence
new_evidence w case_id created_by meta payload content_type s = record {
  id = w.uuid4 s.ticks;
  case_id = case_id;
  entity_id = meta.entity_id;
  source_plugin = meta.source_plugin;
  query = meta.query;
  response_hash = w.sha256_hex payload;
  response_uri = build_key (w.str_uuid case_id) (w.sha256_hex payload);
  response_bytes = length payload;
  response_content_type = some (content_type_or_default content_type);
  timestamp = w.now (s.ticks + 1);
  reproducibility_spec = meta.reproducibility_spec;
  created_by = created_by;
}

abbrev pub with_evidence : List Evidence → ℕ → Session → Session
with_evidence rows n s = record s { ticks = n; live = record s.live { evidence = rows } }

-- `create` appended its row after the store took, or already held, an object for it; or it raised,
-- undid the row and sent nothing.
abbrev pub Recorded :
    World → Evidence → List ℕ → String → Bool → Session → Result Evidence × Session → Type 0
Recorded w ev payload content_type b s r =
    (r ≡ (
      ok ev,
      record (saved b (with_evidence (s.live.evidence ++ ev ∷ []) (s.ticks + 1 + 1) s)) {
        blobs =
            s.blobs
            ++ (record { key = ev.response_uri; body = payload; content_type = content_type }) ∷ [];
      },
    ))
    ⊎ ((w.head_object s.blobs ev.response_uri ≡ content_length (length payload))
        × (r ≡ (ok ev, saved b (with_evidence (s.live.evidence ++ ev ∷ []) (s.ticks + 1 + 1) s))))
    ⊎ (r ≡ (err storage_failed, undone (s.ticks + 1 + 1) s))

module _ (w : World) where
  pub create_cases :
      (case_id : ℕ) (created_by : Option ℕ) (meta : EvidenceCreate) (payload : List ℕ)
      (content_type : Option String) (b : Bool) (s : Session)
      → Recorded w
          (new_evidence w case_id created_by meta payload content_type s)
          payload
          (content_type_or_default content_type)
          b
          s
          (create w case_id created_by meta payload content_type b s)
  unfolding create
  create_cases case_id created_by meta payload content_type b s =
      let ev : Evidence = new_evidence w case_id created_by meta payload content_type s in
      let t : Session = with_evidence (s.live.evidence ++ ev ∷ []) (s.ticks + 1 + 1) s in
      elim (put_cases w ev.response_uri payload (content_type_or_default content_type) t) [
        | inl e ↦ inl (ground arith)
        | inr (inl (h, e)) ↦ inr (inl (h, ground arith))
        | inr (inr e) ↦ inr (inr (ground arith))
      ]

pub blobs_saved :
    (b : Bool) (s : Session) (rows : List Evidence)
    → ◌≡◌ {A = Session}
        (record (saved b (with_evidence rows (s.ticks + 1 + 1) s)) { blobs = s.blobs })
        (saved b (with_evidence rows (s.ticks + 1 + 1) s))
blobs_saved true s rows = refl
blobs_saved false s rows = refl
