-- ===== src/Action.antt =====
-- A coroutine over the session: it returns or raises, and what it wrote stays written either way.
use sleuthgraph_api.Base.{ℕ, ◌+◌, Bool, true, false, Option, none, some}
use sleuthgraph_api.Base.{not, leb, ◌&&◌, if◌then◌else◌}
use sleuthgraph_api.Errors.{
  Error, Result, ok, err, integrity_error, http_exception, other_exception,
}
use sleuthgraph_api.Model.{Session, Db}

abbrev pub Action {ℓ} : Type ℓ → Type ℓ
Action A = Session → Result A × Session

module _ {ℓ} {A : Type ℓ} where
  abbrev pub pure : A → Action A
  pure a s = (ok a, s)

  abbrev pub raise : Error → Action A
  raise e s = (err e, s)

  abbrev pub lift : Result A → Action A
  lift r s = (r, s)

  abbrev pub gets : (Session → A) → Action A
  gets f s = (ok (f s), s)

  -- One reading of the clock or of the random source.
  abbrev pub draw : (ℕ → A) → Action A
  draw f s = (ok (f s.ticks), record s { ticks = s.ticks + 1 })

  -- `except Exception: await session.rollback(); raise`
  abbrev pub or_rollback : Action A → Action A
  or_rollback m s =
      let (r, t) = m s in
      elim r [ ok a ↦ (ok a, t) | err e ↦ (err e, record t { live = t.committed }) ]

  abbrev pub or_raise : Option A → Error → Action A
  or_raise none e s = (err e, s)
  or_raise (some a) e s = (ok a, s)

infixl 5 ◌>>=◌ ◌>>◌
abbrev pub ◌>>=◌ {ℓ κ} : {A : Type ℓ} {B : Type κ} → Action A → (A → Action B) → Action B
◌>>=◌ m f s = let (r, t) = m s in elim r [ ok a ↦ f a t | err e ↦ (err e, t) ]

abbrev pub ◌>>◌ {ℓ κ} : {A : Type ℓ} {B : Type κ} → Action A → Action B → Action B
m >> k = m >>= λ _. k

abbrev pub modify : (Db → Db) → Action (Unit {0})
modify f s = (ok tt, record s { live = f s.live })

abbrev pub commit : Action (Unit {0})
commit s = (ok tt, record s { committed = s.live })

abbrev pub rollback : Action (Unit {0})
rollback s = (ok tt, record s { live = s.committed })

-- A commit that the database may refuse: then the transaction is gone, and the call raises.
abbrev pub try_commit : (ℕ → Db → Bool) → Action (Unit {0})
try_commit accepts s =
    if accepts s.ticks s.live
    then (ok tt, record s { committed = s.live })
    else (err other_exception, record s { live = s.committed })

-- `try: … except Exception: log.exception(…)`
abbrev pub swallowed : Action (Unit {0}) → Action (Unit {0})
swallowed m s = let (r, t) = m s in (ok tt, t)

-- `if commit: await session.commit()`
abbrev pub commit_if : Bool → Action (Unit {0})
commit_if true = commit
commit_if false = pure tt

-- `if test: raise e`
abbrev pub raise_if : Bool → Error → Action (Unit {0})
raise_if true e s = (err e, s)
raise_if false e s = (ok tt, s)

-- A flush that writes NULL to a column declared NOT NULL raises, and undoes the transaction.
abbrev pub refuse_null : Bool → Action (Unit {0})
refuse_null true s = (err integrity_error, record s { live = s.committed })
refuse_null false s = (ok tt, s)

-- The dependency `get_session`: a handler that returns is committed, one that raises rolled back.
abbrev pub in_session {ℓ} : {A : Type ℓ} → Action A → Action A
in_session m s =
    let (r, t) = m s in
    elim r [
      | ok a ↦ (ok a, record t { committed = t.live })
      | err e ↦ (err e, record t { live = t.committed })
    ]

-- A field of an update schema: left unset, set to null, or set to a value.
pub data Patch {ℓ} (A : Type ℓ) : Type ℓ where
  unset : Patch A
  null_value : Patch A
  set_value : A → Patch A

abbrev pub patched {ℓ} : {A : Type ℓ} → Patch A → A → A
patched unset old = old
patched null_value old = old
patched (set_value a) old = a

abbrev pub patched_null {ℓ} : {A : Type ℓ} → Patch A → Option A → Option A
patched_null unset old = old
patched_null null_value old = none
patched_null (set_value a) old = some a

abbrev pub is_null {ℓ} : {A : Type ℓ} → Patch A → Bool
is_null unset = false
is_null null_value = true
is_null (set_value a) = false

-- `Query(default=50, ge=1, le=200)`
abbrev pub guard_page : ℕ → Action (Unit {0})
guard_page limit = raise_if (not (leb 1 limit && leb limit 200)) (http_exception 422)
