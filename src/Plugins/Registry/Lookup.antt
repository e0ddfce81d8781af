-- ===== src/Plugins/Registry/Lookup.antt =====
-- What the registry finds after a registration.
use sleuthgraph_api.Base.{
  ◌≡◌, refl, String, true, false, List, [], ◌∷◌, ◌++◌, inl, inr, arith, Bool-cases, str_eq,
  str_eq_iff,
}
use sleuthgraph_api.Errors.{ok}
use sleuthgraph_api.Plugins.Base.{Plugin}
use sleuthgraph_api.Plugins.Registry.{contains, register, get}

get-append_old :
    (name : String) (ps : List Plugin) (p : Plugin)
    → contains name ps ≡ true
    → get name (ps ++ p ∷ []) ≡ get name ps
unfolding contains get
get-append_old name [] p h = absurd (cc)
get-append_old name (q ∷ ps) p h = elim (Bool-cases (str_eq q.name name)) [
  | inl e ↦ rw e refl
  | inr e ↦ ground (arith, get-append_old name ps p)
]

get-append_new :
    (name : String) (ps : List Plugin) (p : Plugin)
    → contains name ps ≡ false
    → get name (ps ++ p ∷ []) ≡ get name (p ∷ [])
unfolding contains get
get-append_new name [] p h = refl
get-append_new name (q ∷ ps) p h = elim (Bool-cases (str_eq q.name name)) [
  | inl e ↦ absurd (ground arith)
  | inr e ↦ ground (arith, get-append_new name ps p)
]

-- After a registration that is not refused, the plugin's name gives the plugin, and a name that
-- was registered before gives what it gave before.
pub register-get :
    (ps rs : List Plugin) (p : Plugin) (name : String)
    → register ps p ≡ ok rs
    → contains name ps ≡ true
    → (get p.name rs ≡ ok p) × (get name rs ≡ get name ps)
unfolding register get
register-get ps rs p name h c = elim (Bool-cases (str_eq p.name "")) [
  | inl e ↦ absurd (ground arith)
  | inr e ↦ elim (Bool-cases (contains p.name ps)) [
    | inl k ↦ absurd (ground arith)
    | inr k ↦
        let same : str_eq p.name p.name ≡ true = (str_eq_iff p.name p.name).1 refl in
        let all : rs ≡ ps ++ p ∷ [] = ground arith in
        (ground (arith, get-append_new p.name ps p k), ground (arith, get-append_old name ps p c))
  ]
]
