-- ===== src/Errors/Every.antt =====
-- What holds of every result that code returns, carried along its chains and tests.
use sleuthgraph_api.Base.{◌≡◌, refl, Bool, true, false, List, All, All-weaken, if◌then◌else◌}
use sleuthgraph_api.Errors.{Error, Result, ok, err, require, ◌>>=◌}

module _ {A : Type 0} (P : A → Type 0) where
  abbrev pub Holds : Result A → Type 0
  Holds (ok a) = P a
  Holds (err e) = Unit {0}

  -- The result is returned and has the property, or an exception is raised.
  pub record Every (r : Result A) : Type 0 where
    pub holds : Holds r

  pub Every-ok : (a : A) → P a → Every (ok a)
  Every-ok a h = record { holds = h }

  pub Every-if : (b : Bool) (x y : Result A) → Every x → Every y → Every (if b then x else y)
  Every-if true x y hx hy = hx
  Every-if false x y hx hy = hy

  pub Every-bind :
      {B : Type 0} (m : Result B) (f : B → Result A) → ((b : B) → Every (f b)) → Every (m >>= f)
  Every-bind (ok b) f h = h b
  Every-bind (err e) f h = record { holds = tt }

-- With a property of what the first part of the chain returns.
pub Every-chain :
    {A B : Type 0} (P : A → Type 0) (Q : B → Type 0) (m : Result B) (f : B → Result A)
    → Every Q m
    → ((b : B) → Q b → Every P (f b))
    → Every P (m >>= f)
Every-chain P Q (ok b) f q h = h b q.holds
Every-chain P Q (err e) f q h = record { holds = tt }

pub Every-weaken :
    {A : Type 0} (P Q : A → Type 0) (m : Result A) → ((a : A) → P a → Q a) → Every P m → Every Q m
Every-weaken P Q (ok a) f h = record { holds = f a h.holds }
Every-weaken P Q (err e) f h = record { holds = tt }

pub Every-always : {A : Type 0} (P : A → Type 0) (m : Result A) → ((a : A) → P a) → Every P m
Every-always P (ok a) h = record { holds = h a }
Every-always P (err e) h = record { holds = tt }

pub Every-All :
    {A B : Type 0} (P : B → A → Type 0) (m : Result A) (bs : List B)
    → All (λ b. Every (P b) m) bs
    → Every (λ a. All (λ b. P b a) bs) m
Every-All P (ok a) bs h = record {
  holds = All-weaken (λ b. Every (P b) (ok a)) (λ b. P b a) bs (λ b e. e.holds) h;
}
Every-All P (err e) bs h = record { holds = tt }

pub Every-both :
    {A : Type 0} (P Q : A → Type 0) (m : Result A)
    → Every P m
    → Every Q m
    → Every (λ a. P a × Q a) m
Every-both P Q (ok a) p q = record { holds = (p.holds, q.holds) }
Every-both P Q (err e) p q = record { holds = tt }

-- The value is the one that is returned.
pub Every-self : {A : Type 0} (m : Result A) → Every (λ a. m ≡ ok a) m
Every-self (ok a) = record { holds = refl }
Every-self (err e) = record { holds = tt }

-- What a passed check says.
pub Every-require : (b : Bool) (e : Error) → Every (λ u. b ≡ true) (require b e)
Every-require true e = record { holds = refl }
Every-require false e = record { holds = tt }
