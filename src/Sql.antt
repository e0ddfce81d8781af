-- ===== src/Sql.antt =====
-- The pieces of SQL that the repositories' statements are made of, over a table in insertion order.
pub mod Rows
pub mod Keys
pub mod Single
use sleuthgraph_api.Base.{ℕ, zero, suc, ◌≡◌, Bool, true, false, Option, none, some, List, [], ◌∷◌}
use sleuthgraph_api.Base.{keep, take, drop, leb, if◌then◌else◌, ◌++◌}
use sleuthgraph_api.Errors.{Result, ok, err, multiple_results}

module _ {ℓ} {A : Type ℓ} where
  -- `SELECT … WHERE p`
  abbrev pub select : (A → Bool) → List A → List A
  select p rows = keep p rows

  -- `.scalar_one_or_none()`
  abbrev pub scalar_one_or_none : List A → Result (Option A)
  scalar_one_or_none [] = ok none
  scalar_one_or_none (x ∷ []) = ok (some x)
  scalar_one_or_none (x ∷ y ∷ r) = err multiple_results

  -- `UPDATE … SET f WHERE p`
  abbrev pub update_where : (A → Bool) → (A → A) → List A → List A
  update_where p f [] = []
  update_where p f (x ∷ xs) = (if p x then f x else x) ∷ update_where p f xs

  -- `LIMIT n OFFSET m`
  abbrev pub page : ℕ → ℕ → List A → List A
  page limit offset rows = take limit (drop offset rows)

  pub insert_desc : (A → ℕ) → A → List A → List A
  insert_desc key x [] = x ∷ []
  insert_desc key x (y ∷ ys) =
      let rest = y ∷ insert_desc key x ys in if leb (key y) (key x) then x ∷ y ∷ ys else rest

  -- `ORDER BY key DESC`
  unfoldable pub order_desc : (A → ℕ) → List A → List A
  unfolding insert_desc
  order_desc key [] = []
  order_desc key (x ∷ xs) = insert_desc key x (order_desc key xs)

  pub insert_asc : (A → ℕ) → A → List A → List A
  insert_asc key x [] = x ∷ []
  insert_asc key x (y ∷ ys) =
      let rest = y ∷ insert_asc key x ys in if leb (key x) (key y) then x ∷ y ∷ ys else rest

  -- `ORDER BY key ASC`
  unfoldable pub order_asc : (A → ℕ) → List A → List A
  unfolding insert_asc
  order_asc key [] = []
  order_asc key (x ∷ xs) = insert_asc key x (order_asc key xs)
