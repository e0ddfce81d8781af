-- ===== src/Builtin/Found.antt =====
-- What crt.sh's _extract_subdomains finds, against the set it means.
use sleuthgraph_api.Base.{
  ◌≤◌, ◌≡◌, ◌⊎◌, inl, inr, refl, Bool, true, false, ◌&&◌, ◌||◌, List, [], ◌∷◌, ◌++◌, map, leb,
  length, arith, Bool-cases, if◌then◌else◌, sym, ◌∙◌,
}
use sleuthgraph_api.Base.Text.{Text, codes, text_eq, text_eq_iff}
use sleuthgraph_api.Errors.{Result, ok, err, ◌>>=◌}
use sleuthgraph_api.Errors.Every.{Every, Every-weaken}
use sleuthgraph_api.Graph.Json.{Json, null, boolean, number, str, arr, obj}
use sleuthgraph_api.Builtin.Web.{Web}
use sleuthgraph_api.Builtin.Values.{get_attr, member}
use sleuthgraph_api.Builtin.CrtSh.{
  Subdomains, add_name, max_subdomains, is_subdomain, scan_lines, scan_value, extract_subdomains,
}

member-append :
    (name : Text) (xs ys : List Text) → member name (xs ++ ys) ≡ member name xs || member name ys
member-append name [] ys = refl
member-append name (x ∷ xs) ys = elim (Bool-cases (text_eq name x)) [
  | inl same ↦ rw same refl
  | inr other ↦ rw other (member-append name xs ys)
]

-- A set of names is not changed by what it has.
member_same :
    (name new : Text) (names : List Text)
    → text_eq name new ≡ true
    → member new names ≡ true
    → member name names ≡ true
member_same name new names same has = rw ((text_eq_iff name new).0 same) has

member-add_name :
    (name new : Text) (names : List Text)
    → member name (add_name new names) ≡ member name names || text_eq name new
member-add_name name new names = elim (Bool-cases (member new names)) [
  | inl has ↦ elim (Bool-cases (text_eq name new)) [
    | inl same ↦ rw (has, same, member_same name new names same has) refl
    | inr other ↦ rw (has, other) (ground arith)
  ]
  | inr lacks ↦ rw lacks (rw (member-append name names (new ∷ [])) (ground arith))
]

add_false : (a c : Bool) → ((a || false) || c) ≡ (a || c)
add_false true c = refl
add_false false c = refl

add_arms : (a i x y : Bool) → ((a || (i && x)) || (i && y)) ≡ (a || (i && (x || y)))
add_arms true i x y = refl
add_arms false true x y = refl
add_arms false false x y = refl

-- A branch may use the test.
Every-branch :
    {A : Type 0} (P : A → Type 0) (b : Bool) (x y : Result A)
    → (b ≡ true → Every P x)
    → (b ≡ false → Every P y)
    → Every P (if b then x else y)
Every-branch P true x y hx hy = hx refl
Every-branch P false x y hx hy = hy refl

module _ (web : Web) (domain : Text) where
  -- The names of an entry, cleaned and not yet tested.
  abbrev cleaned : List Text → List Text
  cleaned lines = map (λ line. web.lower (web.strip line)) lines

  abbrev value_names : Json → List Text
  value_names (str value) = cleaned (web.splitlines value)
  value_names value = []

  abbrev read_names : Result Json → List Text
  read_names (ok value) = value_names value
  read_names (err e) = []

  abbrev pub all_names : List Json → List Text
  all_names [] = []
  all_names (entry ∷ entries) =
      read_names (get_attr (codes "name_value") (str []) entry) ++ all_names entries

  -- Cut at the cap, or with what was found before and the offered names that are subdomains.
  abbrev pub Meant : Text → List Text → List Text → Subdomains → Type 0
  Meant name found offered r =
      ((r.truncated ≡ true) × (max_subdomains ≤ length r.names))
      ⊎ ((r.truncated ≡ false)
          × (member name r.names
              ≡ (member name found || (is_subdomain web domain name && member name offered))))

  wanted_name :
      (name new : Text) (found offered : List Text) (r : Subdomains)
      → is_subdomain web domain new ≡ true
      → Meant name (add_name new found) offered r
      → Meant name found (new ∷ offered) r
  wanted_name name new found offered r wanted (inl cut) = inl cut
  wanted_name name new found offered r wanted (inr (whole, e)) =
      elim (Bool-cases (text_eq name new)) [
        | inl same ↦
            let this : is_subdomain web domain name ≡ true =
              rw ((text_eq_iff name new).0 same) wanted in
            inr (whole, rw (e, member-add_name name new found, same, this) (ground arith))
        | inr other ↦
            inr (
              whole,
              rw (e, member-add_name name new found, other) (add_false (member name found) _),
            )
      ]

  other_name :
      (name new : Text) (found offered : List Text) (r : Subdomains)
      → is_subdomain web domain new ≡ false
      → Meant name found offered r
      → Meant name found (new ∷ offered) r
  other_name name new found offered r unwanted (inl cut) = inl cut
  other_name name new found offered r unwanted (inr (whole, e)) =
      elim (Bool-cases (text_eq name new)) [
        | inl same ↦
            let this : is_subdomain web domain name ≡ false =
              rw ((text_eq_iff name new).0 same) unwanted in
            inr (whole, rw (e, this) refl)
        | inr other ↦ inr (whole, rw (e, other) refl)
      ]

  scan_lines-Meant :
      (name : Text) (lines found : List Text)
      → Meant name found (cleaned lines) (scan_lines web domain lines found)
  unfolding scan_lines
  scan_lines-Meant name [] found = inr (refl, ground arith)
  scan_lines-Meant name (line ∷ lines) found =
      let new = web.lower (web.strip line) in
      elim (Bool-cases (is_subdomain web domain new)) [
        | inr other ↦
            other_name name new found (cleaned lines) _ other
              (rw other (scan_lines-Meant name lines found))
        | inl wanted ↦ elim (Bool-cases (leb max_subdomains (length found))) [
          | inl full ↦ rw (wanted, full) (inl (refl, ground (arith, full)))
          | inr room ↦
              rw (wanted, room)
                (wanted_name name new found (cleaned lines) _ wanted
                  (scan_lines-Meant name lines (add_name new found)))
        ]
      ]

  scan_value-Meant :
      (name : Text) (value : Json) (found : List Text)
      → Meant name found (value_names value) (scan_value web domain value found)
  unfolding scan_value
  scan_value-Meant name (str value) found = scan_lines-Meant name (web.splitlines value) found
  scan_value-Meant name null found = inr (refl, ground arith)
  scan_value-Meant name (boolean b) found = inr (refl, ground arith)
  scan_value-Meant name (number n) found = inr (refl, ground arith)
  scan_value-Meant name (arr xs) found = inr (refl, ground arith)
  scan_value-Meant name (obj fs) found = inr (refl, ground arith)

  -- One value after another.
  both_offered :
      (name : Text) (found xs ys : List Text) (first r : Subdomains)
      → first.truncated ≡ false
      → Meant name found xs first
      → Meant name first.names ys r
      → Meant name found (xs ++ ys) r
  both_offered name found xs ys first r h (inl cut) k =
      absurd (let c : true ≡ false = sym cut.0 ∙ h in (cc))
  both_offered name found xs ys first r h (inr whole) (inl cut) = inl cut
  both_offered name found xs ys first r h (inr whole) (inr more) = inr (
    more.0,
    rw (more.1, whole.1, member-append name xs ys)
        (add_arms (member name found) (is_subdomain web domain name) (member name xs)
          (member name ys)),
  )

  stopped :
      (name : Text) (found xs ys : List Text) (first : Subdomains)
      → first.truncated ≡ true
      → Meant name found xs first
      → Meant name found (xs ++ ys) first
  stopped name found xs ys first h (inl cut) = inl cut
  stopped name found xs ys first h (inr whole) =
      absurd (let c : true ≡ false = sym h ∙ whole.0 in (cc))

  -- An entry, with the entries that follow it.
  after_value :
      (name : Text) (found : List Text) (entries : List Json) (m : Result Json)
      → ((known : List Text)
          → Every
              (Meant name known (all_names entries))
              (extract_subdomains web domain entries known))
      → Every (Meant name found (read_names m ++ all_names entries)) (
          m >>= λ value.
          let scanned : Subdomains = scan_value web domain value found in
          let rest : Result Subdomains = extract_subdomains web domain entries scanned.names in
          if scanned.truncated then ok scanned else rest)
  after_value name found entries (err e) more = record { holds = tt }
  after_value name found entries (ok value) more =
      let scanned = scan_value web domain value found in
      let now = scan_value-Meant name value found in
      Every-branch (Meant name found (value_names value ++ all_names entries)) scanned.truncated _ _
        (λ cut. record {
          holds = stopped name found (value_names value) (all_names entries) scanned cut now;
        })
        (λ whole.
          Every-weaken (Meant name scanned.names (all_names entries)) _ _
            (λ r.
              both_offered name found (value_names value) (all_names entries) scanned r whole now)
            (more scanned.names))

  -- From what was found before.
  extract_from :
      (name : Text) (entries : List Json) (found : List Text)
      → Every (Meant name found (all_names entries)) (extract_subdomains web domain entries found)
  unfolding extract_subdomains
  extract_from name [] found = record { holds = inr (refl, ground arith) }
  extract_from name (entry ∷ entries) found =
      after_value name found entries (get_attr (codes "name_value") (str []) entry)
        (extract_from name entries)

  -- _extract_subdomains raises, or is cut with at least 1,000 names, or is not cut: and then a name
  -- is found exactly when it passes the tests of the inner loop and is a line, stripped and in lower
  -- case, of an entry's name_value.
  pub extract_subdomains-Meant :
      (name : Text) (entries : List Json)
      → Every (Meant name [] (all_names entries)) (extract_subdomains web domain entries [])
  extract_subdomains-Meant name entries = extract_from name entries []
