-- ===== src/Cases/Ownership.antt =====
-- What one user's requests can learn of the cases of others, and what they can change.
use sleuthgraph_api.Base.{
  ℕ, ◌≡◌, ◌≤◌, refl, sym, ap, ◌∙◌, String, Bool, true, ◌&&◌, ◌||◌, Option, none, some, List, [],
  keep, All, length, length-take-le, opt_is, is_none, ◌==◌, arith, inl, inr, str_eq, Bool-cases,
}
use mathlib.Core.Path.{subst, fun_ext}
use sleuthgraph_api.Errors.{ok, err, http_exception}
use sleuthgraph_api.Model.{World, Session, Case}
use sleuthgraph_api.Action.{is_null}
use sleuthgraph_api.Sql.{select, scalar_one_or_none, update_where, page, order_desc}
use sleuthgraph_api.Sql.Rows.{All-select, All-order_desc, All-page, lookup-cases, scalar-select}
use sleuthgraph_api.Sql.Keys.{
  keep-and, keep-update_out, SameOutside, SameOutside-refl, update_where-SameOutside, UniqueKeys,
  found_own,
}
use sleuthgraph_api.Cases.{
  CaseUpdate, case_visible, case_listed, apply_case_update, list_for_owner, update_case,
  delete_case, get_case, list_cases,
}

-- The live cases of a user.
abbrev pub mine : ℕ → Case → Bool
mine user c = opt_is c.owner_id user && is_none c.deleted_at

visible_mine :
    (user case_id : ℕ) (c : Case) → case_visible case_id user c ≡ ((c.id == case_id) && mine user c)
visible_mine user case_id c = ground arith

listed_mine :
    (user : ℕ) (status : String) (c : Case)
    → case_listed user (some status) c
      ≡ ((str_eq status "" || str_eq c.status status) && mine user c)
listed_mine user status c = ground arith

select_visible :
    (user case_id : ℕ) (xs : List Case)
    → keep (case_visible case_id user) xs ≡ keep (λ c. c.id == case_id) (keep (mine user) xs)
select_visible user case_id xs = keep-and _ _ (mine user) xs (visible_mine user case_id)

get_case-noninterference :
    (user case_id : ℕ) (s t : Session)
    → keep (mine user) s.live.cases ≡ keep (mine user) t.live.cases
    → (get_case user case_id s).0 ≡ (get_case user case_id t).0
unfolding get_case
get_case-noninterference user case_id s t h =
    let e : keep (case_visible case_id user) s.live.cases
        ≡ keep (case_visible case_id user) t.live.cases =
      select_visible user case_id s.live.cases
      ∙ ap (keep (λ c. c.id == case_id)) h
      ∙ sym (select_visible user case_id t.live.cases) in
    ground (arith, e)

listed-mine :
    (user : ℕ) (status : Option String) (c : Case)
    → case_listed user status c ≡ true
    → mine user c ≡ true
listed-mine user none c h = ground arith
listed-mine user (some status) c h = ground arith

list_cases-noninterference :
    (user : ℕ) (status : Option String) (limit offset : ℕ) (s t : Session)
    → keep (mine user) s.live.cases ≡ keep (mine user) t.live.cases
    → (list_cases user status limit offset s).0 ≡ (list_cases user status limit offset t).0
unfolding list_cases
list_cases-noninterference user none limit offset s t h = ground (arith, h)
list_cases-noninterference user (some status) limit offset s t h =
    let e : keep (case_listed user (some status)) s.live.cases
        ≡ keep (case_listed user (some status)) t.live.cases =
      keep-and _ _ (mine user) s.live.cases (listed_mine user status)
      ∙ ap (keep _) h
      ∙ sym (keep-and _ _ (mine user) t.live.cases (listed_mine user status)) in
    ground (arith, e)

-- What a user reads by GET /cases/{case_id} and by GET /cases, on every page and under every filter,
-- depends on the user's own live cases alone.
pub case_reads-noninterference :
    (user case_id : ℕ) (status : Option String) (limit offset : ℕ) (s t : Session)
    → keep (mine user) s.live.cases ≡ keep (mine user) t.live.cases
    → ((get_case user case_id s).0 ≡ (get_case user case_id t).0)
      × ((list_cases user status limit offset s).0 ≡ (list_cases user status limit offset t).0)
case_reads-noninterference user case_id status limit offset s t h = (
  get_case-noninterference user case_id s t h,
  list_cases-noninterference user status limit offset s t h,
)

-- `list_for_owner` returns, and its rows are live cases of the owner, at most as many as the limit.
pub list_for_owner-mine :
    (user : ℕ) (status : Option String) (limit offset : ℕ) (s : Session)
    → (rows : List Case) × ((list_for_owner user status limit offset s).0 ≡ ok rows)
      × All (λ c. mine user c ≡ true) rows
      × (length rows ≤ limit)
unfolding list_for_owner
list_for_owner-mine user status limit offset s = (
  page limit offset
      (order_desc (λ c. c.created_at) (select (case_listed user status) s.live.cases)),
  refl,
  All-page _ limit offset _ (
      All-order_desc _ _ _
        (All-select _ (case_listed user status) s.live.cases (listed-mine user status))),
  length-take-le limit _,
)

-- The rows that a lookup by key and owner found are the user's, whenever the key is unique.
found_mine :
    (user case_id : ℕ) (xs : List Case) (c : Case)
    → UniqueKeys (λ x. x.id) xs
    → scalar_one_or_none (select (case_visible case_id user) xs) ≡ ok (some c)
    → All (λ x. (x.id == c.id) ≡ true → mine user x ≡ true) xs
found_mine user case_id xs c u e =
    let same : c.id ≡ case_id =
      scalar-select (λ x. x.id ≡ case_id) _ xs c (λ x t. ground arith) e in
    let found : scalar_one_or_none (keep (λ x. x.id == case_id && mine user x) xs) ≡ ok (some c) =
      (let r : keep (case_visible case_id user) xs ≡ keep (λ x. x.id == case_id && mine user x) xs =
          ap (λ p. keep p xs) (fun_ext (visible_mine user case_id)) in
        rw r at e) in
    rw same (found_own (λ x. x.id) (mine user) case_id xs c u found)

update_case-others :
    (user case_id : ℕ) (body : CaseUpdate) (s : Session)
    → UniqueKeys (λ c. c.id) s.live.cases
    → s.committed ≡ s.live
    → SameOutside (mine user) s.live.cases (update_case user case_id body s).1.committed.cases
unfolding update_case
update_case-others user case_id body s u h =
    elim (lookup-cases (scalar_one_or_none (select (case_visible case_id user) s.live.cases))) [
      | inl e ↦
          subst (SameOutside (mine user) s.live.cases) (ground arith)
            (SameOutside-refl (mine user) s.live.cases)
      | inr (inl (c, e)) ↦ elim (Bool-cases (is_null body.name || is_null body.status)) [
        | inl n ↦
            subst (SameOutside (mine user) s.live.cases) (ground arith)
              (SameOutside-refl (mine user) s.live.cases)
        | inr n ↦ subst (SameOutside (mine user) s.live.cases) (ground arith) (
            update_where-SameOutside (mine user) (λ x. x.id == c.id) (apply_case_update body)
              s.live.cases (found_mine user case_id s.live.cases c u e))
      ]
      | inr (inr (x, e)) ↦
          subst (SameOutside (mine user) s.live.cases) (ground arith)
            (SameOutside-refl (mine user) s.live.cases)
    ]

delete_case-others :
    (w : World) (user case_id : ℕ) (s : Session)
    → UniqueKeys (λ c. c.id) s.live.cases
    → s.committed ≡ s.live
    → SameOutside (mine user) s.live.cases (delete_case w user case_id s).1.committed.cases
unfolding delete_case
delete_case-others w user case_id s u h =
    elim (lookup-cases (scalar_one_or_none (select (case_visible case_id user) s.live.cases))) [
      | inl e ↦
          subst (SameOutside (mine user) s.live.cases) (ground arith)
            (SameOutside-refl (mine user) s.live.cases)
      | inr (inl (c, e)) ↦ subst (SameOutside (mine user) s.live.cases) (ground arith) (
          update_where-SameOutside (mine user) (λ x. x.id == c.id)
            (λ x. record x { deleted_at = some (w.now s.ticks) }) s.live.cases
            (found_mine user case_id s.live.cases c u e))
      | inr (inr (x, e)) ↦
          subst (SameOutside (mine user) s.live.cases) (ground arith)
            (SameOutside-refl (mine user) s.live.cases)
    ]

-- After a DELETE of a case that succeeded, a GET of that case answers 404 to every user.
pub delete_case-get_case :
    (w : World) (user other case_id : ℕ) (s : Session)
    → (delete_case w user case_id s).0 ≡ ok tt
    → (get_case other case_id (delete_case w user case_id s).1).0 ≡ err (http_exception 404)
unfolding delete_case get_case
delete_case-get_case w user other case_id s h =
    elim (lookup-cases (scalar_one_or_none (select (case_visible case_id user) s.live.cases))) [
      | inl e ↦ absurd (ground (arith, h))
      | inr (inl (c, e)) ↦
          let same : c.id ≡ case_id =
            scalar-select (λ x. x.id ≡ case_id) _ s.live.cases c (λ x t. ground arith) e in
          let gone : keep (case_visible case_id other) (
                update_where (λ x. x.id == c.id)
                  (λ x. record x { deleted_at = some (w.now s.ticks) }) s.live.cases)
              ≡ [] =
            keep-update_out (case_visible case_id other) (λ x. x.id == c.id)
              (λ x. record x { deleted_at = some (w.now s.ticks) }) s.live.cases (λ x. ground arith)
              (λ x t. ground arith) in
          ground (arith, gone)
      | inr (inr (x, e)) ↦ absurd (ground (arith, h))
    ]

-- Where case ids are unique and nothing is uncommitted, a PATCH and a DELETE of a case, whatever they
-- answer, leave every committed row but the live cases of their user as it was.
pub case_writes-others :
    (w : World) (user case_id : ℕ) (body : CaseUpdate) (s : Session)
    → UniqueKeys (λ c. c.id) s.live.cases
    → s.committed ≡ s.live
    → SameOutside (mine user) s.live.cases (update_case user case_id body s).1.committed.cases
      × SameOutside (mine user) s.live.cases (delete_case w user case_id s).1.committed.cases
case_writes-others w user case_id body s u h =
    (update_case-others user case_id body s u h, delete_case-others w user case_id s u h)
