-- ===== src/Db/Laws.antt =====
-- A program logic for handlers over a database: what the tables are after a call, by how it ended.
use go_fintech_microservices.Prelude.{
  ◌≡◌, refl, Bool, true, false, Option, none, some, if◌then◌else◌,
}
use mathlib.Core.Path.{subst}
use go_fintech_microservices.Errors.{GoError}
use go_fintech_microservices.Exec.{
  Result, ok, ok-inj, err, Exec, pure, raise, or_raise, lift, continue, raise_if, ◌>>=◌, attempt,
}
use go_fintech_microservices.Db.{Db}

abbrev pub Ends : {T A : Type 0} → (A → T → Type 0) → (T → Type 0) → Result A × Db T → Type 0
Ends Q E (ok a, db) = Q a db.tables
Ends Q E (err e, db) = E db.tables

-- From tables with `P` the call ends with a value and `Q`, or with an error and `E`, whatever the
-- outcomes of its statements.
pub record Triple {T A : Type 0} (P : T → Type 0) (m : Exec (Db T) A) (Q : A → T → Type 0)
    (E : T → Type 0) : Type 0 where
  pub at : (db : Db T) → P db.tables → Ends Q E (m db)

module _ {T A : Type 0} {P : T → Type 0} {Q : A → T → Type 0} {E : T → Type 0} where
  pub Triple-pure : (a : A) → ((t : T) → P t → Q a t) → Triple P (pure a) Q E
  Triple-pure a h = record { at = λ db p. h db.tables p }

  pub Triple-raise : (e : GoError) → ((t : T) → P t → E t) → Triple P (raise e) Q E
  Triple-raise e h = record { at = λ db p. h db.tables p }

  pub Triple-lift :
      (r : Result A)
      → ((a : A) (t : T) → r ≡ ok a → P t → Q a t)
      → ((t : T) → P t → E t)
      → Triple P (lift r) Q E
  Triple-lift (ok a) h k = record { at = λ db p. h a db.tables refl p }
  Triple-lift (err e) h k = record { at = λ db p. k db.tables p }

  pub Triple-or_raise :
      (e : GoError) (o : Option A)
      → ((a : A) (t : T) → o ≡ some a → P t → Q a t)
      → ((t : T) → P t → E t)
      → Triple P (or_raise e o) Q E
  Triple-or_raise e none h k = record { at = λ db p. k db.tables p }
  Triple-or_raise e (some a) h k = record { at = λ db p. h a db.tables refl p }

  pub Triple-if :
      (b : Bool) (m n : Exec (Db T) A)
      → (b ≡ true → Triple P m Q E)
      → (b ≡ false → Triple P n Q E)
      → Triple P (if b then m else n) Q E
  Triple-if true m n hm hn = hm refl
  Triple-if false m n hm hn = hn refl

  -- A fact about the starting tables that does not change.
  pub Triple-given :
      {F : Type 0} (m : Exec (Db T) A) → ((t : T) → P t → F) → (F → Triple P m Q E) → Triple P m Q E
  Triple-given m f h = record { at = λ db p. (h (f db.tables p)).at db p }

-- What holds however a call ended.
pub Ends-either :
    {T A : Type 0} (P : T → Type 0) (end : Result A × Db T)
    → Ends (λ _ t. P t) P end
    → P end.1.tables
Ends-either P (ok a, db) p = p
Ends-either P (err e, db) p = p

-- A weaker precondition and stronger postconditions.
module _ {T A : Type 0} {Q Q' : A → T → Type 0} {E E' : T → Type 0} where
  Ends-weaken :
      (r : Result A) (db : Db T)
      → ((a : A) (t : T) → Q a t → Q' a t)
      → ((t : T) → E t → E' t)
      → Ends Q E (r, db)
      → Ends Q' E' (r, db)
  Ends-weaken (ok a) db hq he h = hq a db.tables h
  Ends-weaken (err e) db hq he h = he db.tables h

  pub Triple-weaken :
      {P P' : T → Type 0} (m : Exec (Db T) A)
      → ((t : T) → P' t → P t)
      → ((a : A) (t : T) → Q a t → Q' a t)
      → ((t : T) → E t → E' t)
      → Triple P m Q E
      → Triple P' m Q' E'
  Triple-weaken m hp hq he h = record {
    at = λ db p. Ends-weaken (m db).0 (m db).1 hq he (h.at db (hp db.tables p));
  }

module _ {T A B : Type 0} {R : A → T → Type 0} {Q : B → T → Type 0} {E : T → Type 0} where
  bind-Ends :
      (r : Result A) (db : Db T) (f : A → Exec (Db T) B)
      → ((a : A) → Triple (R a) (f a) Q E)
      → Ends R E (r, db)
      → Ends Q E (continue r f db)
  bind-Ends (ok a) db f h p = (h a).at db p
  bind-Ends (err e) db f h p = p

  pub Triple-bind :
      {P : T → Type 0} (m : Exec (Db T) A) (f : A → Exec (Db T) B)
      → Triple P m R E
      → ((a : A) → Triple (R a) (f a) Q E)
      → Triple P (m >>= f) Q E
  Triple-bind m f hm hf = record { at = λ db p. bind-Ends (m db).0 (m db).1 f hf (hm.at db p) }

  attempt-Ends :
      {E' : T → Type 0} (r : Result A) (db : Db T) (f : Result A → Exec (Db T) B)
      → ((a : A) → Triple (R a) (f (ok a)) Q E)
      → ((e : GoError) → Triple E' (f (err e)) Q E)
      → Ends R E' (r, db)
      → Ends Q E (f r db)
  attempt-Ends (ok a) db f h k p = (h a).at db p
  attempt-Ends (err e) db f h k p = (k e).at db p

  pub Triple-attempt :
      {P E' : T → Type 0} (m : Exec (Db T) A) (f : Result A → Exec (Db T) B)
      → Triple P m R E'
      → ((a : A) → Triple (R a) (f (ok a)) Q E)
      → ((e : GoError) → Triple E' (f (err e)) Q E)
      → Triple P (attempt m f) Q E
  Triple-attempt m f hm hf he = record {
    at = λ db p. attempt-Ends (m db).0 (m db).1 f hf he (hm.at db p);
  }

module _ {T : Type 0} {P : T → Type 0} where
  pub Triple-raise_if :
      (b : Bool) (e : GoError) → Triple P (raise_if b e) (λ _ t. (b ≡ false) × P t) P
  Triple-raise_if true e = record { at = λ db p. p }
  Triple-raise_if false e = record { at = λ db p. (refl, p) }

-- A call about which nothing is said.
pub Triple-any :
    {T A : Type 0} (m : Exec (Db T) A) → Triple (λ _. Unit {0}) m (λ _ _. Unit {0}) (λ _. Unit {0})
Triple-any m = record { at = λ db p. ends (m db) }
  where
    ends : {T A : Type 0} (end : Result A × Db T) → Ends (λ _ _. Unit {0}) (λ _. Unit {0}) end
    ends (ok a, db) = tt
    ends (err e, db) = tt

-- What holds where the call returned the value.
pub Ends-ok :
    {T A : Type 0} (Q : A → T → Type 0) (E : T → Type 0) (end : Result A × Db T) (a : A)
    → Ends Q E end
    → end.0 ≡ ok a
    → Q a end.1.tables
Ends-ok Q E (ok b, db) a q h = subst (λ x. Q x db.tables) (ok-inj h) q
Ends-ok Q E (err e, db) a q h = cc
