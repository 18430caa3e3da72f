-- ===== src/Exec.antt =====
-- Handlers as actions on a state: what was written before an error stays written, so the state
-- comes back beside the error too.
use go_fintech_microservices.Prelude.{
  ◌≡◌, refl, ◌⊎◌, inl, inr, Bool, true, false, Option, none, some,
}
use go_fintech_microservices.Errors.{GoError}

-- A Go result with an error: the value, or a non-nil error.
pub data Result {ℓ} (A : Type ℓ) : Type ℓ where
  ok : A → Result A
  err : GoError → Result A

pub Result-cases {ℓ} :
    {A : Type ℓ} (r : Result A) → ((a : A) × (r ≡ ok a)) ⊎ ((e : GoError) × (r ≡ err e))
Result-cases (ok a) = inl (a, refl)
Result-cases (err e) = inr (e, refl)

pub ok-inj {ℓ} : {A : Type ℓ} {a b : A} → ok a ≡ ok b → a ≡ b
ok-inj e = cc

abbrev pub Exec {ℓ} : Type ℓ → Type ℓ → Type ℓ
Exec S A = S → Result A × S

module _ {ℓ} {S A : Type ℓ} where
  abbrev pub pure : A → Exec S A
  pure a s = (ok a, s)

  abbrev pub raise : GoError → Exec S A
  raise e s = (err e, s)

  abbrev pub or_raise : GoError → Option A → Exec S A
  or_raise e none s = (err e, s)
  or_raise e (some a) s = (ok a, s)

  abbrev pub lift : Result A → Exec S A
  lift r s = (r, s)

module _ {ℓ} {S A B : Type ℓ} where
  abbrev pub continue : Result A → (A → Exec S B) → Exec S B
  continue (ok a) f s = f a s
  continue (err e) f s = (err e, s)

  infixl 10 ◌>>=◌ ◌>>◌
  abbrev pub ◌>>=◌ : Exec S A → (A → Exec S B) → Exec S B
  ◌>>=◌ m f s = let (r, s') = m s in continue r f s'

  abbrev pub ◌>>◌ : Exec S A → Exec S B → Exec S B
  m >> n = m >>= λ _. n

  -- A call whose error the caller looks at, and does not pass on.
  abbrev pub attempt : Exec S A → (Result A → Exec S B) → Exec S B
  attempt m f s = let (r, s') = m s in f r s'

  continue-eq-ok :
      (r : Result A) (f : A → Exec S B) (s' : S) {b : B} {s'' : S}
      → continue r f s' ≡ (ok b, s'')
      → (a : A) × (r ≡ ok a) × (f a s' ≡ (ok b, s''))
  continue-eq-ok (ok a) f s' h = (a, refl, h)
  continue-eq-ok (err e) f s' h = cc

  -- Inversion of a chain that returned a value.
  pub >>=-eq-ok :
      (m : Exec S A) (f : A → Exec S B) (s : S) {b : B} {s'' : S}
      → (m >>= f) s ≡ (ok b, s'')
      → (a : A) × (s' : S) × (m s ≡ (ok a, s')) × (f a s' ≡ (ok b, s''))
  >>=-eq-ok m f s h =
      let (a, e, k) = continue-eq-ok (m s).0 f (m s).1 h in (a, (m s).1, (λ i. (e i, (m s).1)), k)

-- `if c { return err }`
abbrev pub raise_if {ℓ} : {S : Type ℓ} → Bool → GoError → Exec S (Unit {ℓ})
raise_if true e s = (err e, s)
raise_if false e s = (ok tt, s)
