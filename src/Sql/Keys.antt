-- ===== src/Sql/Keys.antt =====
-- Updates by primary key: which rows they reach, and which they leave as they were.
use sleuthgraph_api.Base.{ℕ, ◌≡◌, ◌≢◌, refl, Bool, true, false, ◌&&◌, some, List, [], ◌∷◌}
use sleuthgraph_api.Base.{
  keep, All, arith, Bool-cases, inl, inr, ◌⊎◌, ◌==◌, map, ◌++◌, ap, sym, ◌∙◌,
}
use mathlib.Core.Path.{subst}
use sleuthgraph_api.Errors.{ok}
use sleuthgraph_api.Sql.{scalar_one_or_none, update_where}
use sleuthgraph_api.Sql.Rows.{scalar-All, scalar-select}

module _ {ℓ κ} {A : Type ℓ} (P : A → Type κ) where
  pub All-keep : (p : A → Bool) (xs : List A) → All P xs → All P (keep p xs)
  All-keep p [] h = tt
  All-keep p (x ∷ xs) h = elim (Bool-cases (p x)) [
    | inl e ↦ rw e (h.0, All-keep p xs h.1)
    | inr e ↦ rw e (All-keep p xs h.1)
  ]

module _ {ℓ} {A : Type ℓ} where
  -- A conjunction of tests selects in two steps.
  pub keep-and :
      (r p q : A → Bool) (xs : List A)
      → ((x : A) → r x ≡ (p x && q x))
      → keep r xs ≡ keep p (keep q xs)
  keep-and r p q [] h = refl
  keep-and r p q (x ∷ xs) h = ground (arith, h x, keep-and r p q xs h)

  -- An update that keeps a test's answer, and reaches all rows that pass it, maps the selection.
  pub keep-update_where :
      (p q : A → Bool) (f : A → A) (xs : List A)
      → ((x : A) → p (f x) ≡ p x)
      → ((x : A) → p x ≡ true → q x ≡ true)
      → keep p (update_where q f xs) ≡ map f (keep p xs)
  keep-update_where p q f [] h k = refl
  keep-update_where p q f (x ∷ xs) h k = ground (arith, h x, k x, keep-update_where p q f xs h k)

  -- An update after which no row that it reached passes the test leaves only rows out of its reach.
  pub keep-update_out :
      (p q : A → Bool) (f : A → A) (xs : List A)
      → ((x : A) → p (f x) ≡ false)
      → ((x : A) → p x ≡ true → q x ≡ true)
      → keep p (update_where q f xs) ≡ []
  keep-update_out p q f [] h k = refl
  keep-update_out p q f (x ∷ xs) h k = ground (arith, h x, k x, keep-update_out p q f xs h k)

module _ {A : Type 0} where
  -- Row by row, `ys` is `xs` but at rows that pass the test.
  abbrev pub SameOutside : (A → Bool) → List A → List A → Type 0
  SameOutside p [] [] = Unit
  SameOutside p [] (y ∷ ys) = ⊥
  SameOutside p (x ∷ xs) [] = ⊥
  SameOutside p (x ∷ xs) (y ∷ ys) = ((p x ≡ true) ⊎ (y ≡ x)) × SameOutside p xs ys

  pub SameOutside-refl : (p : A → Bool) (xs : List A) → SameOutside p xs xs
  SameOutside-refl p [] = tt
  SameOutside-refl p (x ∷ xs) = (inr refl, SameOutside-refl p xs)

  pub update_where-SameOutside :
      (p q : A → Bool) (f : A → A) (xs : List A)
      → All (λ x. q x ≡ true → p x ≡ true) xs
      → SameOutside p xs (update_where q f xs)
  update_where-SameOutside p q f [] h = tt
  update_where-SameOutside p q f (x ∷ xs) h = (
    elim (Bool-cases (q x)) [ inl t ↦ inl (h.0 t) | inr t ↦ inr (rw t refl) ],
    update_where-SameOutside p q f xs h.1,
  )

module _ {ℓ} {A : Type ℓ} (key : A → ℕ) where
  -- The primary key: no two rows share it.
  abbrev pub UniqueKeys : List A → Type 0
  UniqueKeys [] = Unit
  UniqueKeys (x ∷ xs) = All (λ y. key y ≢ key x) xs × UniqueKeys xs

  others :
      (own : A → Bool) (k : ℕ) (x : A) (xs : List A)
      → All (λ y. key y ≢ key x) xs
      → key x ≡ k
      → All (λ y. (key y == k) ≡ true → own y ≡ true) xs
  others own k x [] h e = tt
  others own k x (y ∷ ys) h e = (λ t. absurd (h.0 (ground arith)), others own k x ys h.1 e)

  -- If the row of a key was found among the rows that pass `own`, every row of that key passes it.
  pub found_own :
      (own : A → Bool) (k : ℕ) (xs : List A) (c : A)
      → UniqueKeys xs
      → scalar_one_or_none (keep (λ x. key x == k && own x) xs) ≡ ok (some c)
      → All (λ x. (key x == k) ≡ true → own x ≡ true) xs
  found_own own k [] c u h = tt
  found_own own k (x ∷ xs) c u h = elim (Bool-cases (key x == k && own x)) [
    | inl e ↦ (λ t. ground arith, others own k x xs u.0 (ground arith))
    | inr e ↦
        let found : scalar_one_or_none (keep (λ y. key y == k && own y) xs) ≡ ok (some c) =
          (rw e at h) in
        let apart : key c ≢ key x =
          scalar-All (λ y. key y ≢ key x) _ c (All-keep _ (λ y. key y == k && own y) xs u.0)
            found in
        let here : (key c == k) ≡ true =
          scalar-select (λ y. (key y == k) ≡ true) (λ y. key y == k && own y) xs c
            (λ y t. ground arith) found in
        (λ t. absurd (apart (ground (arith, here, t))), found_own own k xs c u.1 found)
  ]

module _ {A : Type 0} where
  scalar_head : (x c : A) (r : List A) → scalar_one_or_none (x ∷ r) ≡ ok (some c) → x ≡ c
  scalar_head x c [] e = cc
  scalar_head x c (y ∷ r) e = absurd (cc)

module _ {A : Type 0} (key : A → ℕ) where
  others_same :
      (c x : A) (xs : List A)
      → All (λ y. key y ≢ key x) xs
      → x ≡ c
      → All (λ y. (key y == key c) ≡ true → y ≡ c) xs
  others_same c x [] h e = tt
  others_same c x (y ∷ ys) h e =
      (λ t. absurd (h.0 (ground (arith, ap key e))), others_same c x ys h.1 e)

  -- A row that a lookup found is the only row of its key.
  pub found_same :
      (p : A → Bool) (xs : List A) (c : A)
      → UniqueKeys key xs
      → scalar_one_or_none (keep p xs) ≡ ok (some c)
      → All (λ x. (key x == key c) ≡ true → x ≡ c) xs
  found_same p [] c u h = tt
  found_same p (x ∷ xs) c u h = elim (Bool-cases (p x)) [
    | inl e ↦
        let here : x ≡ c = scalar_head x c (keep p xs) (rw e at h) in
        (λ t. here, others_same c x xs u.0 here)
    | inr e ↦
        let found : scalar_one_or_none (keep p xs) ≡ ok (some c) = (rw e at h) in
        let apart : key c ≢ key x =
          scalar-All (λ y. key y ≢ key x) _ c (All-keep _ p xs u.0) found in
        (λ t. absurd (apart (ground (arith, t))), found_same p xs c u.1 found)
  ]

module _ {κ} {A : Type 0} (P Q : A → Type κ) where
  -- After an update of the one row `c`, a property holds of every row.
  pub All-update_where :
      (q : A → Bool) (f : A → A) (c : A) (xs : List A)
      → All P xs
      → ((x : A) → P x → q x ≡ false → Q x)
      → All (λ x. q x ≡ true → x ≡ c) xs
      → Q (f c)
      → All Q (update_where q f xs)
  All-update_where q f c [] h k u g = tt
  All-update_where q f c (x ∷ xs) h k u g = elim (Bool-cases (q x)) [
    | inl e ↦ rw e (subst (λ y. Q (f y)) (sym (u.0 e)) g, All-update_where q f c xs h.1 k u.1 g)
    | inr e ↦ rw e (k x h.0 e, All-update_where q f c xs h.1 k u.1 g)
  ]

module _ {A : Type 0} (key : A → ℕ) where
  apart_append :
      (k : ℕ) (xs : List A) (x : A)
      → All (λ y. key y ≢ k) xs
      → key x ≢ k
      → All (λ y. key y ≢ k) (xs ++ x ∷ [])
  apart_append k [] x h e = (e, tt)
  apart_append k (y ∷ ys) x h e = (h.0, apart_append k ys x h.1 e)

  -- A new row with a key that no row has keeps the keys unique.
  pub UniqueKeys-append :
      (xs : List A) (x : A)
      → UniqueKeys key xs
      → All (λ y. key y ≢ key x) xs
      → UniqueKeys key (xs ++ x ∷ [])
  UniqueKeys-append [] x u f = (tt, tt)
  UniqueKeys-append (y ∷ ys) x u f =
      (apart_append (key y) ys x u.0 (λ e. f.0 (sym e)), UniqueKeys-append ys x u.1 f.1)

  apart_update :
      (k : ℕ) (q : A → Bool) (f : A → A) (xs : List A)
      → ((x : A) → key (f x) ≡ key x)
      → All (λ y. key y ≢ k) xs
      → All (λ y. key y ≢ k) (update_where q f xs)
  apart_update k q f [] e h = tt
  apart_update k q f (x ∷ xs) e h = elim (Bool-cases (q x)) [
    | inl t ↦ rw t ((λ c. h.0 (sym (e x) ∙ c)), apart_update k q f xs e h.1)
    | inr t ↦ rw t (h.0, apart_update k q f xs e h.1)
  ]

  -- An update that leaves the key alone keeps the keys unique.
  pub UniqueKeys-update_where :
      (q : A → Bool) (f : A → A) (xs : List A)
      → ((x : A) → key (f x) ≡ key x)
      → UniqueKeys key xs
      → UniqueKeys key (update_where q f xs)
  UniqueKeys-update_where q f [] e u = tt
  UniqueKeys-update_where q f (x ∷ xs) e u = elim (Bool-cases (q x)) [
    | inl t ↦
        rw t (rw (e x) (apart_update (key x) q f xs e u.0), UniqueKeys-update_where q f xs e u.1)
    | inr t ↦ rw t (apart_update (key x) q f xs e u.0, UniqueKeys-update_where q f xs e u.1)
  ]
