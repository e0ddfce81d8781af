-- ===== src/Evidence/Upload.antt =====
-- The upload handler's size guard.
use sleuthgraph_api.Base.{ℕ, ◌≡◌, ◌⊎◌, ◌++◌, List, [], ◌∷◌, length, String}
use sleuthgraph_api.Errors.{Result, ok, err, storage_failed}
use sleuthgraph_api.Model.{Session, World, Evidence, content_length}

-- What an upload within the cap leaves: a row with the hash and the size of the file is returned and
-- committed, and the file is put under its key, or an object of its size was there; or the store failed,
-- and neither a row nor an object is added.
abbrev pub Stored : World → List ℕ → Session → Result Evidence × Session → Type 0
Stored w file s r =
    ((ev : Evidence) × (r.0 ≡ ok ev)
      × (ev.response_hash ≡ w.sha256_hex file)
      × (ev.response_bytes ≡ length file)
      × (r.1.committed.evidence ≡ s.live.evidence ++ ev ∷ [])
      × (((content_type : String) × (r.1.blobs
              ≡ s.blobs
                ++ (record { key = ev.response_uri; body = file; content_type = content_type })
                  ∷ []))
          ⊎ ((r.1.blobs ≡ s.blobs)
              × (w.head_object s.blobs ev.response_uri ≡ content_length (length file)))))
    ⊎ ((r.0 ≡ err storage_failed)
        × (r.1.committed.evidence ≡ s.committed.evidence)
        × (r.1.blobs ≡ s.blobs))
