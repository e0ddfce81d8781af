-- ===== src/Sql/Single.antt =====
-- Lookups that find one row: what they say of the selection, and how it follows an update.
use sleuthgraph_api.Base.{◌≡◌, refl, Bool, true, none, some, List, [], ◌∷◌, ◌++◌, keep, arith}
use sleuthgraph_api.Errors.{ok, err, multiple_results}
use sleuthgraph_api.Sql.{scalar_one_or_none, update_where}

module _ {ℓ} {A : Type ℓ} where
  pub scalar_single : (xs : List A) (c : A) → scalar_one_or_none xs ≡ ok (some c) → xs ≡ c ∷ []
  scalar_single [] c h = absurd (cc)
  scalar_single (x ∷ []) c h = cc
  scalar_single (x ∷ y ∷ r) c h = absurd (cc)

  pub scalar_empty : (xs : List A) → scalar_one_or_none xs ≡ ok none → xs ≡ []
  scalar_empty [] h = refl
  scalar_empty (x ∷ []) h = absurd (cc)
  scalar_empty (x ∷ y ∷ r) h = absurd (cc)

  -- Two rows at the end are too many.
  pub scalar_two :
      (xs : List A) (a b : A) → scalar_one_or_none (xs ++ a ∷ b ∷ []) ≡ err multiple_results
  scalar_two [] a b = refl
  scalar_two (x ∷ []) a b = refl
  scalar_two (x ∷ y ∷ r) a b = refl

  pub keep-append : (p : A → Bool) (xs ys : List A) → keep p (xs ++ ys) ≡ keep p xs ++ keep p ys
  keep-append p [] ys = refl
  keep-append p (x ∷ xs) ys = ground (arith, keep-append p xs ys)

  keep_none :
      (p q : A → Bool) (f : A → A) (xs : List A)
      → ((x : A) → p (f x) ≡ p x)
      → keep p xs ≡ []
      → keep p (update_where q f xs) ≡ []
  keep_none p q f [] h e = refl
  keep_none p q f (x ∷ xs) h e = ground (arith, h x, keep_none p q f xs h)

  -- The one row that passes a test, updated in a way that keeps the test's answer.
  pub keep_single :
      (p q : A → Bool) (f : A → A) (c : A) (xs : List A)
      → ((x : A) → p (f x) ≡ p x)
      → keep p xs ≡ c ∷ []
      → q c ≡ true
      → keep p (update_where q f xs) ≡ f c ∷ []
  keep_single p q f c [] h e t = absurd (cc)
  keep_single p q f c (x ∷ xs) h e t =
      ground (arith, h x, keep_none p q f xs h, keep_single p q f c xs h)
