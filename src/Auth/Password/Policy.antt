-- ===== src/Auth/Password/Policy.antt =====
-- Which passwords are taken.
use sleuthgraph_api.Base.{
  ◌≤◌, ◌≡◌, ◌↔◌, refl, Bool, true, false, not, ltb, length, All, take, drop, List, [], ◌∷◌,
  Bool-cases, inl, inr, arith,
}
use sleuthgraph_api.Base.Text.{Text, text_eq}
use sleuthgraph_api.Errors.{Result, ok, err, invalid_password, require, ◌>>◌, ◌>>=◌}
use sleuthgraph_api.Builtin.Web.{is_http_error}
use sleuthgraph_api.Auth.Password.{
  Pwned, before_colon, has_suffix, listed_in, is_password_pwned, validate_password,
}

-- No line of the answer names the hash's rest, or the API is not reached.
abbrev pub Unlisted : Pwned → Text → Result Text → Type 0
Unlisted pwned suffix (ok text) =
    All (λ line. text_eq (pwned.strip (before_colon line)) suffix ≡ false) (pwned.splitlines text)
Unlisted pwned suffix (err e) = is_http_error e ≡ true

has_suffix-All :
    (pwned : Pwned) (suffix : Text) (lines : List Text)
    → (has_suffix pwned suffix lines ≡ false)
      ↔ All (λ line. text_eq (pwned.strip (before_colon line)) suffix ≡ false) lines
unfolding has_suffix
has_suffix-All pwned suffix [] = (λ h. tt, λ h. refl)
has_suffix-All pwned suffix (line ∷ lines) =
    let ih = has_suffix-All pwned suffix lines in
    elim (Bool-cases (text_eq (pwned.strip (before_colon line)) suffix)) [
      | inl listed ↦
          (λ h. absurd (ground (arith, h, listed)), λ h. absurd (ground (arith, h.0, listed)))
      | inr other ↦
          (λ h. (other, ih.0 (ground (arith, h, other))), λ h. ground (arith, other, ih.1 h.1))
    ]

ok-inj : (b : Bool) → ok b ≡ ok false → b ≡ false
ok-inj false h = refl
ok-inj true h = cc

listed_in-Unlisted :
    (pwned : Pwned) (suffix : Text) (answer : Result Text)
    → (listed_in pwned suffix answer ≡ ok false) ↔ Unlisted pwned suffix answer
listed_in-Unlisted pwned suffix (ok text) =
    let h = has_suffix-All pwned suffix (pwned.splitlines text) in
    (λ e. h.0 (ok-inj (has_suffix pwned suffix (pwned.splitlines text)) e), λ l. rw (h.1 l) refl)
listed_in-Unlisted pwned suffix (err e) = elim (Bool-cases (is_http_error e)) [
  | inl reached ↦ rw reached (λ h. refl, λ h. refl)
  | inr other ↦ rw other (λ h. absurd (cc), λ h. absurd (cc))
]

-- Both checks pass exactly when the test holds and the lookup says no.
checks_iff :
    (long : Bool) (m : Result Bool)
    → ((do require long invalid_password; found ← m; require (not found) invalid_password) ≡ ok tt)
      ↔ ((long ≡ true) × (m ≡ ok false))
checks_iff true (ok false) = (λ h. (refl, refl), λ h. refl)
checks_iff true (ok true) = (λ h. absurd (cc), λ h. absurd (cc))
checks_iff true (err e) = (λ h. absurd (cc), λ h. absurd (cc))
checks_iff false m = (λ h. absurd (cc), λ h. absurd (cc))

-- The check accepts a password exactly when it has at least twelve characters and the range API, asked
-- for the first five characters of its hash, answers no line whose part before the colon is the rest
-- of the hash, or fails with an HTTPError.
pub validate_password_iff :
    (pwned : Pwned) (password : Text)
    → (validate_password pwned password ≡ ok tt) ↔ (
        (12 ≤ length password)
        × Unlisted pwned
            (drop 5 (pwned.sha1_upper password))
            (pwned.get_range (take 5 (pwned.sha1_upper password))))
unfolding validate_password is_password_pwned
validate_password_iff pwned password =
    let sha1 = pwned.sha1_upper password in
    let checks =
      checks_iff (not (ltb (length password) 12))
        (listed_in pwned (drop 5 sha1) (pwned.get_range (take 5 sha1))) in
    let listed = listed_in-Unlisted pwned (drop 5 sha1) (pwned.get_range (take 5 sha1)) in
    (
      λ h. (ground (arith, (checks.0 h).0), listed.0 (checks.0 h).1),
      λ h. checks.1 (ground (arith, h.0), listed.1 h.1),
    )
