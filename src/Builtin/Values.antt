-- ===== src/Builtin/Values.antt =====
-- Python's operations on the values that json.loads returns. An operation that a value's type lacks
-- raises AttributeError or TypeError.
use sleuthgraph_api.Base.{
  ℕ, Bool, true, false, Option, none, some, List, [], ◌∷◌, ◌==◌, if◌then◌else◌, ltb, any,
}
use sleuthgraph_api.Base.Text.{Text, text_eq}
use sleuthgraph_api.Errors.{Result, ok, err, other_exception}
use sleuthgraph_api.Graph.Json.{Json, Items, Fields, str, arr, obj, nil, cons, end, field}

-- `d.get(key)` on a dict, whose keys differ
unfoldable pub find_field : Text → Fields → Option Json
find_field key end = none
find_field key (field k v fs) =
    let rest = find_field key fs in if text_eq k key then some v else rest

abbrev pub or_default : Json → Option Json → Json
or_default default none = default
or_default default (some v) = v

-- `d.get(key, default)`
unfoldable pub get_or : Text → Json → Fields → Json
unfolding find_field
get_or key default fs = or_default default (find_field key fs)

-- `x.get(key, default)` on any value
unfoldable pub get_attr : Text → Json → Json → Result Json
unfolding get_or
get_attr key default (obj fs) = ok (get_or key default fs)
get_attr key default value = err other_exception

-- `x.strip` and `x.startswith`, which text has
unfoldable pub as_text : Json → Result Text
as_text (str t) = ok t
as_text value = err other_exception

abbrev pub list_of : Items → List Json
list_of nil = []
list_of (cons x xs) = x ∷ list_of xs

-- `x if isinstance(x, list) else []`
unfoldable pub list_or_empty : Json → List Json
list_or_empty (arr xs) = list_of xs
list_or_empty value = []

abbrev keys_of : Fields → List Json
keys_of end = []
keys_of (field k v fs) = str k ∷ keys_of fs

abbrev letters_of : Text → List Json
letters_of [] = []
letters_of (c ∷ cs) = str (c ∷ []) ∷ letters_of cs

-- `iter(x)`
unfoldable pub iterate : Json → Result (List Json)
iterate (arr xs) = ok (list_of xs)
iterate (obj fs) = ok (keys_of fs)
iterate (str t) = ok (letters_of t)
iterate value = err other_exception

abbrev pub items_of : List Json → Items
items_of [] = nil
items_of (x ∷ xs) = cons x (items_of xs)

-- A dict display.
abbrev pub dict : List (Text × Json) → Fields
dict [] = end
dict ((k, v) ∷ fs) = field k v (dict fs)

abbrev pub member : Text → List Text → Bool
member t = any (text_eq t)

-- `s.endswith(t)`
abbrev pub ends_with : Text → Text → Bool
ends_with [] t = text_eq [] t
ends_with (c ∷ cs) t = let rest = ends_with cs t in if text_eq (c ∷ cs) t then true else rest

abbrev strip_end : ℕ → ℕ → Text → Text
strip_end sep c [] = if c == sep then [] else c ∷ []
strip_end sep c (d ∷ cs) = c ∷ d ∷ cs

-- `s.rstrip(sep)` for a one-character `sep`
abbrev pub rstrip : ℕ → Text → Text
rstrip sep [] = []
rstrip sep (c ∷ cs) = strip_end sep c (rstrip sep cs)

-- `s < t`
abbrev pub text_lt : Text → Text → Bool
text_lt s [] = false
text_lt [] (d ∷ t) = true
text_lt (c ∷ s) (d ∷ t) =
    let rest = text_lt s t in if ltb c d then true else if c == d then rest else false

abbrev pub insert_text : Text → List Text → List Text
insert_text t [] = t ∷ []
insert_text t (u ∷ us) = let rest = insert_text t us in if text_lt t u then t ∷ u ∷ us else u ∷ rest

-- `sorted(texts)`
abbrev pub sorted : List Text → List Text
sorted [] = []
sorted (t ∷ ts) = insert_text t (sorted ts)
