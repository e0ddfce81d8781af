-- ===== src/Evidence/Tests.antt =====
-- The evidence properties on a small store.
use sleuthgraph_api.Base.{ℕ, ◌≡◌, refl, true, false, none, some, List, [], ◌∷◌, All}
use sleuthgraph_api.Base.Text.{Text, codes}
use sleuthgraph_api.Errors.{ok}
use sleuthgraph_api.Graph.Json.{Fields, end}
use sleuthgraph_api.Model.{Evidence}
use sleuthgraph_api.Fixtures.{world, world_laws, session}
use sleuthgraph_api.Evidence.{EvidenceCreate, create, sweep_all}
use sleuthgraph_api.Evidence.Custody.{
  InCustody, Upload, record_all, create-InCustody, sweep_all-healthy,
}
use sleuthgraph_api.Evidence.Export.{starts_formula, csv_row, csv_row_plain}

abbrev meta : EvidenceCreate
meta = record {
  entity_id = none;
  source_plugin = "manual";
  query = "=1+1";
  reproducibility_spec = end;
}

empty_InCustody : InCustody world session
empty_InCustody = record {
  addressed = λ key body e. absurd (cc);
  live_backed = tt;
  committed_backed = tt;
}

create-InCustody_example :
    InCustody world (create world 10 none meta (1 ∷ 2 ∷ []) none true session).1
create-InCustody_example =
    create-InCustody world world_laws 10 none meta (1 ∷ 2 ∷ []) none true session empty_InCustody

abbrev upload : List ℕ → Upload world world_laws
upload payload = record {
  case_id = 10;
  created_by = none;
  meta = meta;
  payload = payload;
  content_type = none;
  do_commit = true;
}

abbrev uploads : List (Upload world world_laws)
uploads = upload (1 ∷ []) ∷ upload (2 ∷ 3 ∷ []) ∷ upload (1 ∷ []) ∷ []

sweep_all-healthy_example :
    sweep_all world (record_all world world_laws uploads session)
    ≡ (ok [], record_all world world_laws uploads session)
sweep_all-healthy_example = sweep_all-healthy world world_laws uploads session empty_InCustody

abbrev as_u : ℕ → Text
as_u n = b'u' ∷ []

abbrev as_json : Fields → Text
as_json fs = codes "{}"

abbrev row : Evidence
row = record {
  id = 60;
  case_id = 10;
  entity_id = some 30;
  source_plugin = "manual";
  query = "=1+1";
  response_hash = codes "00";
  response_uri = codes "k";
  response_bytes = 2;
  response_content_type = none;
  timestamp = 3;
  reproducibility_spec = end;
  created_by = none;
}

u_plain : (n : ℕ) → starts_formula (as_u n) ≡ false
unfolding starts_formula
u_plain n = refl

hash_plain : starts_formula row.response_hash ≡ false
unfolding starts_formula
hash_plain = refl

csv_row_plain_example :
    All (λ cell. starts_formula cell ≡ false) (csv_row as_u as_u as_u as_json row)
csv_row_plain_example = csv_row_plain as_u as_u as_u as_json row u_plain u_plain u_plain hash_plain
