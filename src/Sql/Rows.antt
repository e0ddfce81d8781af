-- ===== src/Sql/Rows.antt =====
-- What the SQL pieces return: rows that pass the test, at most as many as the limit.
use sleuthgraph_api.Base.{ℕ, ◌≡◌, refl, Bool, true, Option, none, some}
use sleuthgraph_api.Base.{List, [], ◌∷◌, All, All-take, All-drop, arith, Bool-cases}
use sleuthgraph_api.Base.{inl, inr, leb}
use mathlib.Core.Path.{subst}
use sleuthgraph_api.Base.{map, ◌⊎◌}
use sleuthgraph_api.Errors.{Error, Result, ok, err}
use sleuthgraph_api.Sql.{select, scalar_one_or_none, page, insert_desc, order_desc}
use sleuthgraph_api.Sql.{insert_asc, order_asc}

module _ {ℓ κ} {A : Type ℓ} (P : A → Type κ) where
  pub All-insert_desc :
      (key : A → ℕ) (x : A) (xs : List A) → P x → All P xs → All P (insert_desc key x xs)
  unfolding insert_desc
  All-insert_desc key x [] p h = (p, tt)
  All-insert_desc key x (y ∷ ys) p h = elim (Bool-cases (leb (key y) (key x))) [
    | inl e ↦ rw e (p, h)
    | inr e ↦ rw e (h.0, All-insert_desc key x ys p h.1)
  ]

  pub All-order_desc : (key : A → ℕ) (xs : List A) → All P xs → All P (order_desc key xs)
  unfolding order_desc
  All-order_desc key [] h = tt
  All-order_desc key (x ∷ xs) h =
      All-insert_desc key x (order_desc key xs) h.0 (All-order_desc key xs h.1)

  pub All-page : (limit offset : ℕ) (xs : List A) → All P xs → All P (page limit offset xs)
  All-page limit offset xs h = All-take P limit _ (All-drop P offset xs h)

  pub All-select : (p : A → Bool) (xs : List A) → ((x : A) → p x ≡ true → P x) → All P (select p xs)
  All-select p [] h = tt
  All-select p (x ∷ xs) h = elim (Bool-cases (p x)) [
    | inl e ↦ rw e (h x e, All-select p xs h)
    | inr e ↦ rw e (All-select p xs h)
  ]

  -- What holds of every row holds of the one that `scalar_one_or_none` hands out.
  pub scalar-All : (xs : List A) (x : A) → All P xs → scalar_one_or_none xs ≡ ok (some x) → P x
  scalar-All [] x h e = absurd (cc)
  scalar-All (y ∷ []) x h e = subst P (cc) h.0
  scalar-All (y ∷ z ∷ r) x h e = absurd (cc)

  pub scalar-select :
      (p : A → Bool) (xs : List A) (x : A)
      → ((y : A) → p y ≡ true → P y)
      → scalar_one_or_none (select p xs) ≡ ok (some x)
      → P x
  scalar-select p xs x f e = scalar-All (select p xs) x (All-select p xs f) e

module _ {ℓ} {A : Type ℓ} where
  -- The three outcomes of a lookup.
  pub lookup-cases :
      (r : Result (Option A))
      → (r ≡ ok none) ⊎ ((x : A) × (r ≡ ok (some x))) ⊎ ((e : Error) × (r ≡ err e))
  lookup-cases (ok none) = inl refl
  lookup-cases (ok (some x)) = inr (inl (x, refl))
  lookup-cases (err e) = inr (inr (e, refl))

  pub scalar-map :
      (f : A → A) (xs : List A) (x : A)
      → scalar_one_or_none xs ≡ ok (some x)
      → scalar_one_or_none (map f xs) ≡ ok (some (f x))
  scalar-map f [] x h = absurd (cc)
  scalar-map f (y ∷ []) x h = ground arith
  scalar-map f (y ∷ z ∷ r) x h = absurd (cc)

module _ {ℓ κ} {A : Type ℓ} (P : A → Type κ) where
  All-insert_asc :
      (key : A → ℕ) (x : A) (xs : List A) → P x → All P xs → All P (insert_asc key x xs)
  unfolding insert_asc
  All-insert_asc key x [] p h = (p, tt)
  All-insert_asc key x (y ∷ ys) p h = elim (Bool-cases (leb (key x) (key y))) [
    | inl e ↦ rw e (p, h)
    | inr e ↦ rw e (h.0, All-insert_asc key x ys p h.1)
  ]

  pub All-order_asc : (key : A → ℕ) (xs : List A) → All P xs → All P (order_asc key xs)
  unfolding order_asc
  All-order_asc key [] h = tt
  All-order_asc key (x ∷ xs) h =
      All-insert_asc key x (order_asc key xs) h.0 (All-order_asc key xs h.1)
