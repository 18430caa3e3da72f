-- ===== src/Db/Smooth.antt =====
-- Calls while no statement fails: the value that a call returns and the tables that it leaves.
use go_fintech_microservices.Prelude.{
  ◌≡◌, refl, ap, ◌∙◌, List, [], ◌∷◌, Bool, true, false, if◌then◌else◌, Option, none, some, String,
}
use go_fintech_microservices.Errors.{GoError}
use go_fintech_microservices.Exec.{
  Result, ok, err, Exec, pure, or_raise, lift, continue, attempt, raise_if, ◌>>=◌,
}
use mathlib.Core.Path.{subst}
use go_fintech_microservices.Db.Laws.{Ends, Triple}
use go_fintech_microservices.Db.{
  Db, settle_query, settle_write, next_outcome, later_outcomes, select, write, rows_err, scan_rows,
  finish, end_transaction, transaction, settle_commit, select_rows,
}

module _ {T : Type 0} where
  abbrev pub smooth : T → Db T
  smooth t = record { tables = t; faults = [] }

  -- From the tables the call ends with the result and leaves further tables.
  pub record Runs {A : Type 0} (m : Exec (Db T) A) (t : T) (r : Result A) (t' : T) : Type 0 where
    pub runs : m (smooth t) ≡ (r, smooth t')

  module _ {A : Type 0} where
    pub Runs-select :
        (message : String) (f : T → A) (t : T) → Runs (select message f) t (ok (f t)) t
    unfolding select settle_query
    Runs-select message f t = record { runs = refl }

    pub Runs-or_raise :
        (e : GoError) (o : Option A) (a : A) (t : T) → o ≡ some a → Runs (or_raise e o) t (ok a) t
    Runs-or_raise e o a t h = record { runs = ap (λ x. or_raise e x (smooth t)) h }

    pub Runs-or_raise-none :
        (e : GoError) (o : Option A) (t : T) → o ≡ none → Runs (or_raise e o) t (err e) t
    Runs-or_raise-none e o t h = record { runs = ap (λ x. or_raise e x (smooth t)) h }

    pub Runs-pure : (a : A) (t : T) → Runs (pure a) t (ok a) t
    Runs-pure a t = record { runs = refl }

    pub Runs-lift : (r r' : Result A) (t : T) → r ≡ r' → Runs (lift r) t r' t
    Runs-lift r r' t h = record { runs = ap (λ x. (x, smooth t)) h }

  pub Runs-write :
      (message : String) (f : T → Option T) (t t' : T)
      → f t ≡ some t'
      → Runs (write message f) t (ok tt) t'
  unfolding write settle_write
  Runs-write message f t t' h = record {
    runs =
        ap
          (λ o.
            let (r, u) = settle_write message t o (next_outcome []) in
            (r, record { tables = u; faults = later_outcomes [] }))
          h;
  }

  pub Runs-raise_if : (b : Bool) (e : GoError) (t : T) → b ≡ false → Runs (raise_if b e) t (ok tt) t
  Runs-raise_if b e t h = record { runs = ap (λ x. raise_if x e (smooth t)) h }

  module _ {A B : Type 0} where
    pub Runs-bind :
        (m : Exec (Db T) A) (f : A → Exec (Db T) B) (a : A) (r : Result B) (t t' t'' : T)
        → Runs m t (ok a) t'
        → Runs (f a) t' r t''
        → Runs (m >>= f) t r t''
    Runs-bind m f a r t t' t'' h k = record {
      runs = ap (λ (x : Result A × Db T). continue x.0 f x.1) h.runs ∙ k.runs;
    }

    pub Runs-attempt :
        (m : Exec (Db T) A) (f : Result A → Exec (Db T) B) (a : Result A) (r : Result B)
        (t t' t'' : T)
        → Runs m t a t'
        → Runs (f a) t' r t''
        → Runs (attempt m f) t r t''
    Runs-attempt m f a r t t' t'' h k = record {
      runs = ap (λ (x : Result A × Db T). f x.0 x.1) h.runs ∙ k.runs;
    }

  module _ {A : Type 0} where
    Runs-scan_rows :
        (scan : String) (last : GoError) (xs : List A) (t : T)
        → Runs (scan_rows scan last xs) t (ok xs) t
    unfolding scan_rows rows_err select settle_query
    Runs-scan_rows scan last [] t = record { runs = refl }
    Runs-scan_rows scan last (x ∷ xs) t =
        Runs-bind _ _ x _ t t t (Runs-select scan (λ t. x) t)
          (Runs-bind _ _ xs _ t t t (Runs-scan_rows scan last xs t) (Runs-pure _ t))

    pub Runs-select_rows :
        (message scan : String) (last : GoError) (f : T → List A) (t : T)
        → Runs (select_rows message scan last f) t (ok (f t)) t
    unfolding select_rows
    Runs-select_rows message scan last f t =
        Runs-bind _ _ (f t) _ t t t (Runs-select message f t) (Runs-scan_rows scan last (f t) t)

module _ {T : Type 0} where
  pub Runs-transaction :
      (begin commit : String) (body : Exec (Db T) (Unit {0})) (t t' : T)
      → Runs body t (ok tt) t'
      → Runs (transaction begin commit body) t (ok tt) t'
  unfolding transaction end_transaction finish settle_commit select settle_query
  Runs-transaction begin commit body t t' h = record {
    runs = ap (λ (x : Result (Unit {0}) × Db T). finish commit t x.0 x.1) h.runs;
  }

module _ {T A : Type 0} where
  pub Runs-either :
      (b : Bool) (m n : Exec (Db T) A) (r : Result A) (t : T)
      → ((t' : T) × Runs m t r t')
      → ((t' : T) × Runs n t r t')
      → (t' : T) × Runs (if b then m else n) t r t'
  Runs-either true m n r t h k = h
  Runs-either false m n r t h k = k

  -- What holds of a call whatever the outcomes of its statements holds of this one.
  pub Runs-Triple :
      {P : T → Type 0} {Q : A → T → Type 0} {E : T → Type 0} (m : Exec (Db T) A) (t t' : T) (a : A)
      → Triple P m Q E
      → P t
      → Runs m t (ok a) t'
      → Q a t'
  Runs-Triple {Q} {E} m t t' a h p k = subst (Ends Q E) k.runs (h.at (smooth t) p)

module _ {T A B : Type 0} where
  pub Runs-bind_err :
      (m : Exec (Db T) A) (f : A → Exec (Db T) B) (e : GoError) (t t' : T)
      → Runs m t (err e) t'
      → Runs (m >>= f) t (err e) t'
  Runs-bind_err m f e t t' h = record {
    runs = ap (λ (x : Result A × Db T). continue x.0 f x.1) h.runs;
  }
