-- ===== src/Evidence/Store.antt =====
-- The object store behind its documented laws, and the keys that carry a content hash.
use sleuthgraph_api.Base.{
  ℕ, ◌≡◌, refl, sym, ap, ◌∙◌, some, List, [], ◌∷◌, ◌++◌, inl, inr, ◌⊎◌, arith, Bool-cases, length,
  length-append, ◌==◌, if◌then◌else◌, String,
}
use sleuthgraph_api.Base.Text.{Text, codes, text_eq, text_eq_iff}
use mathlib.Core.List.{append_assoc}
use mathlib.Core.Path.{subst, subst₂}
use sleuthgraph_api.Errors.{Result, ok, err, storage_failed}
use sleuthgraph_api.Model.{Session, World, BlobPut, Head, content_length, not_found, head_refused}
use sleuthgraph_api.Evidence.{build_key, put, put_after_head, put_object}

-- What the S3 documentation promises of GET and HEAD after a list of PUTs, and that the printed
-- SHA-256 has 64 characters.
pub record StoreLaws (w : World) : Type 0 where
  pub get_after_put :
      (puts : List BlobPut) (p : BlobPut) (key : Text)
      → w.get_object (puts ++ p ∷ []) key
        ≡ (if text_eq p.key key then some p.body else w.get_object puts key)
  pub head_is_length :
      (puts : List BlobPut) (key : Text) (n : ℕ)
      → w.head_object puts key ≡ content_length n
      → (body : List ℕ) × (w.get_object puts key ≡ some body) × (length body ≡ n)
  pub digest_length : (body : List ℕ) → length (w.sha256_hex body) ≡ 64

-- Texts that end in parts of one length end alike.
suffix_eq : (xs ys a b : Text) → length a ≡ length b → xs ++ a ≡ ys ++ b → a ≡ b
suffix_eq [] [] a b l e = e
suffix_eq [] (y ∷ ys) a b l e = absurd (omega (arith, ap length e, length-append ys b))
suffix_eq (x ∷ xs) [] a b l e = absurd (omega (arith, ap length e, length-append xs a))
suffix_eq (x ∷ xs) (y ∷ ys) a b l e = suffix_eq xs ys a b l (cc)

-- The evidence key of a body: the content is addressed by its hash.
abbrev pub IsKeyOf : World → Text → List ℕ → Type 0
IsKeyOf w key body = (case_id : ℕ) × (key ≡ build_key (w.str_uuid case_id) (w.sha256_hex body))

-- Every stored object stands under a key of its own content.
abbrev pub Addressed : World → List BlobPut → Type 0
Addressed w puts =
    (key : Text) (body : List ℕ) → w.get_object puts key ≡ some body → IsKeyOf w key body

module _ (w : World) (laws : StoreLaws w) where
  -- One key has one hash, whatever the case it was built for.
  pub key_hash :
      (c : ℕ) (body other : List ℕ)
      → IsKeyOf w (build_key (w.str_uuid c) (w.sha256_hex body)) other
      → w.sha256_hex body ≡ w.sha256_hex other
  unfolding build_key
  key_hash c body other (d, e) =
      suffix_eq (codes "case/" ++ (w.str_uuid c ++ codes "/ev/"))
        (codes "case/" ++ (w.str_uuid d ++ codes "/ev/")) (w.sha256_hex body) (w.sha256_hex other)
        (laws.digest_length body ∙ sym (laws.digest_length other)) (simp append_assoc e)

  pub Addressed-put :
      (puts : List BlobPut) (p : BlobPut)
      → Addressed w puts
      → IsKeyOf w p.key p.body
      → Addressed w (puts ++ p ∷ [])
  Addressed-put puts p h k key body e = elim (Bool-cases (text_eq p.key key)) [
    | inl t ↦
        let same_key : p.key ≡ key = (text_eq_iff p.key key).0 t in
        let same_body : p.body ≡ body = ground (arith, laws.get_after_put puts p key) in
        subst₂ (IsKeyOf w) same_key same_body k
    | inr t ↦ h key body (ground (arith, laws.get_after_put puts p key))
  ]

-- The outcomes of `put`: the object was sent, a present one of its size was taken for it, or the
-- call raised and sent nothing.
abbrev pub PutOutcome :
    World → Text → List ℕ → String → Session → Result (Unit {0}) × Session → Type 0
PutOutcome w key body content_type s r =
    (r ≡ (
      ok tt,
      record s {
        blobs = s.blobs ++ (record { key = key; body = body; content_type = content_type }) ∷ [];
      },
    ))
    ⊎ ((w.head_object s.blobs key ≡ content_length (length body)) × (r ≡ (ok tt, s)))
    ⊎ (r ≡ (err storage_failed, s))

module _ (w : World) where
  object_cases :
      (p : BlobPut) (s : Session) → PutOutcome w p.key p.body p.content_type s (put_object w p s)
  unfolding put_object
  object_cases p s = elim (Bool-cases (w.put_accepts s.blobs p)) [
    | inl e ↦ inl (ground arith)
    | inr e ↦ inr (inr (ground arith))
  ]

  after_head_cases :
      (p : BlobPut) (h : Head) (s : Session)
      → w.head_object s.blobs p.key ≡ h
      → PutOutcome w p.key p.body p.content_type s (put_after_head w p h s)
  unfolding put_after_head
  after_head_cases p (content_length n) s e = elim (Bool-cases (n == length p.body)) [
    | inl t ↦
        let same : n ≡ length p.body = ground arith in
        inr (inl (e ∙ ap content_length same, ground arith))
    | inr t ↦ subst (PutOutcome w p.key p.body p.content_type s) (ground arith) (object_cases p s)
  ]
  after_head_cases p not_found s e = object_cases p s
  after_head_cases p head_refused s e = inr (inr refl)

  pub put_cases :
      (key : Text) (body : List ℕ) (content_type : String) (s : Session)
      → PutOutcome w key body content_type s (put w key body content_type s)
  unfolding put
  put_cases key body content_type s =
      after_head_cases (record { key = key; body = body; content_type = content_type })
        (w.head_object s.blobs key) s refl
