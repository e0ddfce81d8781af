-- ===== src/Plugins/Runner/Keeping.antt =====
-- Actions that keep a property of the rows of plugin runs.
use sleuthgraph_api.Base.{ℕ, Bool, true, false, Option, none, some, List, inl, inr, Bool-cases}
use sleuthgraph_api.Errors.{Error, Result, ok, err}
use sleuthgraph_api.Model.{Session, Db, PluginRun}
use sleuthgraph_api.Action.{
  Action, pure, lift, gets, draw, raise_if, try_commit, swallowed, or_raise, ◌>>=◌,
}
use sleuthgraph_api.Graph.Age.Effects.{saved}

module _ (P : List PluginRun → Type 0) where
  abbrev pub Both : Session → Type 0
  Both s = P s.live.runs × P s.committed.runs

  -- The action keeps the property, in the transaction and in what is committed.
  pub record Keeps {A : Type 0} (m : Action A) : Type 0 where
    pub kept : (s : Session) → Both s → Both (m s).1

  pub outcome_Both :
      {A B : Type 0} (r : Result A × Session) (f : A → Action B)
      → ((a : A) → Keeps (f a))
      → Both r.1
      → Both (◌>>=◌ {0, 0} (λ s. r) f r.1).1
  outcome_Both (ok a, t) f h b = (h a).kept t b
  outcome_Both (err e, t) f h b = b

  pub Keeps-bind :
      {A B : Type 0} (m : Action A) (f : A → Action B)
      → Keeps m
      → ((a : A) → Keeps (f a))
      → Keeps (m >>= f)
  Keeps-bind m f h k = record { kept = λ s b. outcome_Both (m s) f k (h.kept s b) }

  pub Keeps-pure : {A : Type 0} (a : A) → Keeps (pure a)
  Keeps-pure a = record { kept = λ s b. b }

  pub Keeps-lift : {A : Type 0} (r : Result A) → Keeps (lift r)
  Keeps-lift r = record { kept = λ s b. b }

  pub Keeps-gets : {A : Type 0} (f : Session → A) → Keeps (gets f)
  Keeps-gets f = record { kept = λ s b. b }

  pub Keeps-draw : {A : Type 0} (f : ℕ → A) → Keeps (draw f)
  Keeps-draw f = record { kept = λ s b. b }

  pub Keeps-raise_if : (test : Bool) (e : Error) → Keeps (raise_if test e)
  Keeps-raise_if true e = record { kept = λ s b. b }
  Keeps-raise_if false e = record { kept = λ s b. b }

  pub Keeps-or_raise : {A : Type 0} (o : Option A) (e : Error) → Keeps (or_raise o e)
  Keeps-or_raise none e = record { kept = λ s b. b }
  Keeps-or_raise (some a) e = record { kept = λ s b. b }

  pub try_commit_Both :
      (accepts : ℕ → Db → Bool) (s : Session) → Both s → Both (try_commit accepts s).1
  try_commit_Both accepts s b = elim (Bool-cases (accepts s.ticks s.live)) [
    | inl taken ↦ rw taken (b.0, b.0)
    | inr refused ↦ rw refused (b.1, b.1)
  ]

  pub Keeps-try_commit : (accepts : ℕ → Db → Bool) → Keeps (try_commit accepts)
  Keeps-try_commit accepts = record { kept = try_commit_Both accepts }

  pub Keeps-swallowed : (m : Action (Unit {0})) → Keeps m → Keeps (swallowed m)
  Keeps-swallowed m h = record { kept = λ s b. h.kept s b }

  pub saved_Both : (c : Bool) (s : Session) → P s.live.runs → P s.committed.runs → Both (saved c s)
  saved_Both true s l k = (l, l)
  saved_Both false s l k = (l, k)
