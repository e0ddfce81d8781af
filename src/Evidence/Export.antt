-- ===== src/Evidence/Export.antt =====
-- src/sleuthgraph/evidence/export.py: the cells of the CSV ledger.
use sleuthgraph_api.Base.{
  ℕ, ◌≡◌, refl, String, Bool, false, ◌||◌, Option, none, some, List, [], ◌∷◌, ◌==◌, if◌then◌else◌,
  arith,
}
use sleuthgraph_api.Base.{All}
use sleuthgraph_api.Base.Text.{Text, codes}
use sleuthgraph_api.Graph.Json.{Fields}
use sleuthgraph_api.Model.{Evidence}

-- `s.startswith(("=", "+", "-", "@"))`
unfoldable pub starts_formula : Text → Bool
starts_formula [] = false
starts_formula (c ∷ cs) = c == b'=' || c == b'+' || c == b'-' || c == b'@'

abbrev pub text_or_empty : Option Text → Text
text_or_empty none = []
text_or_empty (some t) = t

-- `_csv_safe(value)`
pub csv_safe : Option Text → Text
unfolding starts_formula
csv_safe value = let s = text_or_empty value in if starts_formula s then 39 ∷ s else s

abbrev opt_codes : Option String → Text
opt_codes none = []
opt_codes (some s) = codes s

abbrev opt_id : (ℕ → Text) → Option ℕ → Text
opt_id f none = []
opt_id f (some n) = f n

-- How Python prints a UUID, a timestamp, a number and the canonical JSON of a specification.
module _ (str_uuid isoformat str_nat : ℕ → Text) (dumps : Fields → Text) where
  -- one row of the ledger
  pub csv_row : Evidence → List Text
  unfolding csv_safe
  csv_row e =
      str_uuid e.id
      ∷ isoformat e.timestamp
      ∷ csv_safe (some (codes e.source_plugin))
      ∷ csv_safe (some (codes e.query))
      ∷ e.response_hash
      ∷ str_nat e.response_bytes
      ∷ csv_safe (some (opt_codes e.response_content_type))
      ∷ opt_id str_uuid e.entity_id
      ∷ csv_safe (some (dumps e.reproducibility_spec))
      ∷ []

  opt_id_plain :
      ((n : ℕ) → starts_formula (str_uuid n) ≡ false)
      → (o : Option ℕ) → starts_formula (opt_id str_uuid o) ≡ false
  unfolding starts_formula
  opt_id_plain h none = refl
  opt_id_plain h (some n) = h n

  csv_safe_plain : (v : Option Text) → starts_formula (csv_safe v) ≡ false
  unfolding csv_safe
  csv_safe_plain v = ground arith

  -- No cell of an exported row starts with a character that a spreadsheet takes for a formula,
  -- given that no printed UUID, timestamp, byte count or hash of the row does.
  pub csv_row_plain :
      (e : Evidence)
      → ((n : ℕ) → starts_formula (str_uuid n) ≡ false)
      → ((n : ℕ) → starts_formula (isoformat n) ≡ false)
      → ((n : ℕ) → starts_formula (str_nat n) ≡ false)
      → starts_formula e.response_hash ≡ false
      → All (λ cell. starts_formula cell ≡ false) (csv_row e)
  unfolding csv_row
  csv_row_plain e hu ht hn hh = (
    hu e.id,
    (
      ht e.timestamp,
      (
        csv_safe_plain (some (codes e.source_plugin)),
        (
          csv_safe_plain (some (codes e.query)),
          (
            hh,
            (
              hn e.response_bytes,
              (
                csv_safe_plain (some (opt_codes e.response_content_type)),
                (
                  opt_id_plain hu e.entity_id,
                  (csv_safe_plain (some (dumps e.reproducibility_spec)), tt),
                ),
              ),
            ),
          ),
        ),
      ),
    ),
  )
