-- ===== src/Cases/Tests.antt =====
-- The case properties on a small database.
use sleuthgraph_api.Base.{◌≡◌, refl, some, [], ◌∷◌, arith}
use sleuthgraph_api.Errors.{ok, err, http_exception}
use sleuthgraph_api.Model.{Session, Case}
use sleuthgraph_api.Action.{unset, null_value, set_value}
use sleuthgraph_api.Sql.Keys.{UniqueKeys, SameOutside}
use sleuthgraph_api.Fixtures.{world, session, fresh, empty_db, case_one, case_two}
use sleuthgraph_api.Cases.{CaseUpdate, get_case, list_cases, update_case, delete_case}
use sleuthgraph_api.Cases.Ownership.{
  mine, case_reads-noninterference, case_writes-others, delete_case-get_case,
}

-- The database of user 1 alone.
abbrev alone : Session
alone = fresh (record empty_db { cases = case_one ∷ [] })

case_reads-noninterference_example :
    ((get_case 1 10 session).0 ≡ (get_case 1 10 alone).0)
    × ((list_cases 1 (some "active") 50 0 session).0 ≡ (list_cases 1 (some "active") 50 0 alone).0)
case_reads-noninterference_example =
    case_reads-noninterference 1 10 (some "active") 50 0 session alone refl

abbrev rename : CaseUpdate
rename = record { name = set_value "new"; status = unset; tags = unset }

abbrev clear_tags : CaseUpdate
clear_tags = record { name = unset; status = unset; tags = null_value }

unique : UniqueKeys (λ (c : Case). c.id) (case_one ∷ case_two ∷ [])
unique = (((λ e. omega (arith, e)), tt), (tt, tt))

case_writes-others_example :
    SameOutside (mine 1) session.live.cases (update_case 1 10 rename session).1.committed.cases
    × SameOutside (mine 1) session.live.cases (delete_case world 1 10 session).1.committed.cases
case_writes-others_example = case_writes-others world 1 10 rename session unique refl

deleted : (delete_case world 1 10 session).0 ≡ ok tt
unfolding delete_case
deleted = refl

delete_case-get_case_example :
    (get_case 1 10 (delete_case world 1 10 session).1).0 ≡ err (http_exception 404)
delete_case-get_case_example = delete_case-get_case world 1 1 10 session deleted
