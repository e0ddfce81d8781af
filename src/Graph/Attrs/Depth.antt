-- ===== src/Graph/Attrs/Depth.antt =====
-- The validator decides an independent description: every key matches, and the nesting is bounded.
use sleuthgraph_api.Base.{ℕ, suc, ◌≤◌, ◌≡◌, refl, true, arith}
use sleuthgraph_api.Base.{◌↔◌}
use sleuthgraph_api.Errors.{ok}
use sleuthgraph_api.Graph.Json.{
  Json, Items, Fields, null, boolean, number, str, arr, obj, nil, cons,
}
use sleuthgraph_api.Graph.Json.{end, field}
use sleuthgraph_api.Graph.Attrs.{key_re_match, walk, walk_items, walk_fields, validate_attrs}
use sleuthgraph_api.Graph.Attrs.{max_depth, max_bytes}

-- The value lies within `room` further levels of nesting, and every key below matches.
abbrev mutual
  pub Fits : ℕ → Json → Type 0
  Fits d null = d ≤ max_depth
  Fits d (boolean b) = d ≤ max_depth
  Fits d (number t) = d ≤ max_depth
  Fits d (str t) = d ≤ max_depth
  Fits d (arr xs) = (d ≤ max_depth) × FitItems (suc d) xs
  Fits d (obj fs) = (d ≤ max_depth) × FitFields (suc d) fs

  pub FitItems : ℕ → Items → Type 0
  FitItems d nil = Unit
  FitItems d (cons x xs) = Fits d x × FitItems d xs

  pub FitFields : ℕ → Fields → Type 0
  FitFields d end = Unit
  FitFields d (field k v fs) = (key_re_match k ≡ true) × Fits d v × FitFields d fs

mutual
  unfolding walk walk_items walk_fields

  walk_sound : (d : ℕ) (j : Json) → walk d j ≡ ok tt → Fits d j
  walk_sound d null h = ground arith
  walk_sound d (boolean b) h = ground arith
  walk_sound d (number t) h = ground arith
  walk_sound d (str t) h = ground arith
  walk_sound d (arr xs) h = ground (arith, items_sound (suc d) xs)
  walk_sound d (obj fs) h = ground (arith, fields_sound (suc d) fs)

  items_sound : (d : ℕ) (xs : Items) → walk_items d xs ≡ ok tt → FitItems d xs
  items_sound d nil h = tt
  items_sound d (cons x xs) h = ground (arith, walk_sound d x, items_sound d xs)

  fields_sound : (d : ℕ) (fs : Fields) → walk_fields d fs ≡ ok tt → FitFields d fs
  fields_sound d end h = tt
  fields_sound d (field k v fs) h = ground (arith, walk_sound d v, fields_sound d fs)

mutual
  unfolding walk walk_items walk_fields

  walk_complete : (d : ℕ) (j : Json) → Fits d j → walk d j ≡ ok tt
  walk_complete d null h = ground arith
  walk_complete d (boolean b) h = ground arith
  walk_complete d (number t) h = ground arith
  walk_complete d (str t) h = ground arith
  walk_complete d (arr xs) h = ground (arith, items_complete (suc d) xs)
  walk_complete d (obj fs) h = ground (arith, fields_complete (suc d) fs)

  items_complete : (d : ℕ) (xs : Items) → FitItems d xs → walk_items d xs ≡ ok tt
  items_complete d nil h = refl
  items_complete d (cons x xs) h = ground (arith, walk_complete d x, items_complete d xs)

  fields_complete : (d : ℕ) (fs : Fields) → FitFields d fs → walk_fields d fs ≡ ok tt
  fields_complete d end h = refl
  fields_complete d (field k v fs) h = ground (arith, walk_complete d v, fields_complete d fs)

-- `validate_attrs` returns the dict unchanged exactly when every key at every level matches the key
-- expression, no value lies more than four levels below the dict, and the printed JSON has at most
-- 65,536 bytes.
pub validate_attrs_iff :
    (json_size : Fields → ℕ) (fs : Fields)
    → (validate_attrs json_size fs ≡ ok fs) ↔ (FitFields 1 fs × (json_size fs ≤ max_bytes))
unfolding validate_attrs
validate_attrs_iff json_size fs =
    (λ h. ground (arith, walk_sound 0 (obj fs)), λ h. ground (arith, walk_complete 0 (obj fs)))

pub validated_fits :
    (json_size : Fields → ℕ) (fs gs : Fields) → validate_attrs json_size fs ≡ ok gs → FitFields 1 fs
unfolding validate_attrs
validated_fits json_size fs gs h = ground (arith, walk_sound 0 (obj fs))
