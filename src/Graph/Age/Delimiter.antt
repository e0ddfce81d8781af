-- ===== src/Graph/Age/Delimiter.antt =====
-- graph/age.py: the dollar-quoted constant that carries a statement, as PostgreSQL reads it.
use sleuthgraph_api.Base.{
  ℕ, zero, suc, ◌+◌, ◌≡◌, refl, sym, String, true, false, Option, none, some, [], ◌∷◌, ◌==◌, All,
  All-append, ap, ◌⊎◌, if◌then◌else◌, length, drop, arith,
}
use sleuthgraph_api.Base.{◌++◌, Bool-cases, inl, inr}
use mathlib.Core.List.{append_assoc}
use mathlib.Core.Path.{subst}
use sleuthgraph_api.Base.Text.{Text, codes, has_text, starts_with}
use sleuthgraph_api.Errors.{Result, err, no_safe_tag}
use sleuthgraph_api.Model.{World, Session, Cypher}
use sleuthgraph_api.Graph.Age.{
  pick_delimiter, delimiter, render, cypher_sql, execute_sql, send, run_cypher,
}

-- A delimiter that `run_cypher` picks does not occur in the statement that it quotes.
pick_delimiter_fresh :
    (w : World) (attempts n : ℕ) (cypher delim : Text) (m : ℕ)
    → pick_delimiter w attempts n cypher ≡ some (delim, m)
    → (has_text delim cypher ≡ false) × (k : ℕ) × (delim ≡ delimiter (codes "sg_" ++ w.token_hex k))
unfolding pick_delimiter
pick_delimiter_fresh w zero n cypher delim m h = absurd (cc)
pick_delimiter_fresh w (suc a) n cypher delim m h =
    elim (Bool-cases (has_text (delimiter (codes "sg_" ++ w.token_hex n)) cypher)) [
      | inl e ↦ pick_delimiter_fresh w a (n + 1) cypher delim m (rw e at h)
      | inr e ↦
          let p : delimiter (codes "sg_" ++ w.token_hex n) ≡ delim =
            (let q : some (delimiter (codes "sg_" ++ w.token_hex n), n + 1) ≡ some (delim, m) =
                (rw e at h) in
              cc) in
          (rw p at e, n, sym p)
    ]

-- What PostgreSQL takes for the constant after its opening delimiter: the text before the next
-- occurrence of the delimiter, and the text after that.
abbrev pub read_constant : Text → Text → Option (Text × Text)
read_constant delim [] = none
read_constant delim (c ∷ cs) =
    let rest = read_constant delim cs in
    if starts_with (c ∷ cs) delim
    then some ([], drop (length delim) (c ∷ cs))
    else (elim rest [ none ↦ none | some (body, after) ↦ some (c ∷ body, after) ])

-- No space in the text.
abbrev pub Spaceless : Text → Type 0
Spaceless = All (λ c. (c == b' ') ≡ false)

-- A spaceless text that starts before a space ends before it.
starts-before :
    (delim cs rest : Text)
    → Spaceless delim
    → starts_with (cs ++ b' ' ∷ rest) delim ≡ starts_with cs delim
starts-before [] cs rest h = refl
starts-before (d ∷ ds) [] rest h = ground (arith, h.0)
starts-before (d ∷ ds) (c ∷ cs) rest h = ground (arith, starts-before ds cs rest h.1)

starts_self : (delim tail : Text) → starts_with (delim ++ tail) delim ≡ true
starts_self [] tail = refl
starts_self (d ∷ ds) tail = ground (arith, starts_self ds tail)

drop_self : (delim tail : Text) → drop (length delim) (delim ++ tail) ≡ tail
drop_self [] tail = refl
drop_self (d ∷ ds) tail = ground (arith, drop_self ds tail)

module _ (d : ℕ) (ds tail : Text) (h : Spaceless (d ∷ ds)) where
  read-closing : read_constant (d ∷ ds) ((d ∷ ds) ++ tail) ≡ some ([], tail)
  read-closing = rw (starts_self (d ∷ ds) tail) (ground (arith, drop_self (d ∷ ds) tail))

  -- A constant without the delimiter in it, and with a space before the closing one, is read whole.
  read-quoted_constant :
      (cs : Text)
      → has_text (d ∷ ds) cs ≡ false
      → read_constant (d ∷ ds) (cs ++ b' ' ∷ ((d ∷ ds) ++ tail)) ≡ some (cs ++ b' ' ∷ [], tail)
  read-quoted_constant [] free =
      rw (starts-before (d ∷ ds) [] ((d ∷ ds) ++ tail) h) (rw read-closing refl)
  read-quoted_constant (c ∷ cs) free =
      let here : starts_with (c ∷ cs) (d ∷ ds) ≡ false = ground (arith, free) in
      let later : has_text (d ∷ ds) cs ≡ false = ground (arith, free) in
      rw (starts-before (d ∷ ds) (c ∷ cs) ((d ∷ ds) ++ tail) h, here)
        (rw (read-quoted_constant cs later) refl)

-- The text of the statement after the opening delimiter.
abbrev after_opening : Text → Text → String → Text
after_opening delim cypher col =
    b' ' ∷ (cypher ++ b' ' ∷ (delim ++ (codes ") AS (" ++ (codes col ++ codes " agtype);"))))

sql_shape :
    (w : World) (delim cypher : Text) (col : String)
    → cypher_sql w delim cypher col
      ≡ codes "SELECT * FROM cypher('sleuthgraph', " ++ (delim ++ after_opening delim cypher col)
unfolding cypher_sql
sql_shape w delim cypher col = simp append_assoc

-- What `run_cypher` does: it gives up for want of a tag, or it sends a text in which PostgreSQL reads
-- the statement between spaces as the constant after the function's first argument.
abbrev pub SendsQuoted : World → Cypher → String → Session → Result (Unit {0}) × Session → Type 0
SendsQuoted w statement col s r =
    (r ≡ (err no_safe_tag, record s { ticks = s.ticks + 4 }))
    ⊎ ((delim : Text) × (after : Text) × (n : ℕ) × (r
          ≡ execute_sql w statement
              (codes "SELECT * FROM cypher('sleuthgraph', " ++ (delim ++ after))
              (record s { ticks = n }))
        × (read_constant delim after
            ≡ some (
              b' ' ∷ (render w statement ++ b' ' ∷ []),
              codes ") AS (" ++ (codes col ++ codes " agtype);"),
            )))

module _ (w : World) (hex : (n : ℕ) → Spaceless (w.token_hex n)) where
  read-statement :
      (k : ℕ) (cypher : Text) (col : String)
      → (let delim : Text = delimiter (codes "sg_" ++ w.token_hex k) in
          has_text delim cypher ≡ false
          → read_constant delim (after_opening delim cypher col)
            ≡ some
                (b' ' ∷ (cypher ++ b' ' ∷ []), codes ") AS (" ++ (codes col ++ codes " agtype);")))
  read-statement k cypher col free =
      let name : Text = codes "sg_" ++ (w.token_hex k ++ codes "$") in
      let spaceless : Spaceless (b'$' ∷ name) = (
        refl,
        (
          refl,
          (
            refl,
            (
              refl,
              All-append (λ c. (c == b' ') ≡ false) (w.token_hex k) (codes "$") (hex k) (refl, tt),
            ),
          ),
        ),
      ) in
      read-quoted_constant b'$' name (codes ") AS (" ++ (codes col ++ codes " agtype);")) spaceless
        (b' ' ∷ cypher) (ground (arith, free))

  send-SendsQuoted :
      (statement : Cypher) (col : String) (s : Session) (picked : Option (Text × ℕ))
      → pick_delimiter w 4 s.ticks (render w statement) ≡ picked
      → SendsQuoted w statement col s (send w statement col picked s)
  unfolding send
  send-SendsQuoted statement col s none h = inl refl
  send-SendsQuoted statement col s (some (delim, n)) h =
      let (free, k, named) = pick_delimiter_fresh w 4 s.ticks (render w statement) delim n h in
      inr (
        delim,
        after_opening delim (render w statement) col,
        n,
        ap (λ sql. execute_sql w statement sql (record s { ticks = n }))
            (sql_shape w delim (render w statement) col),
        subst
            (λ d.
              has_text d (render w statement) ≡ false
              → read_constant d (after_opening d (render w statement) col)
                ≡ some (
                  b' ' ∷ (render w statement ++ b' ' ∷ []),
                  codes ") AS (" ++ (codes col ++ codes " agtype);"),
                ))
            (sym named) (read-statement k (render w statement) col) free,
      )

  -- Where the random tags have no space, run_cypher raises for want of a tag, or executes an SQL text
  -- in which a reader of dollar-quoted constants reads, after the opening delimiter, the statement
  -- between two spaces, and goes on with the end of the query.
  pub run_cypher-SendsQuoted :
      (statement : Cypher) (col : String) (s : Session)
      → SendsQuoted w statement col s (run_cypher w statement col s)
  unfolding run_cypher
  run_cypher-SendsQuoted statement col s =
      send-SendsQuoted statement col s (pick_delimiter w 4 s.ticks (render w statement)) refl
