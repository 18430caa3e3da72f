-- ===== src/Db/Statements.antt =====
-- The rules of the program logic for the statements that a repository sends.
use go_fintech_microservices.Prelude.{◌≡◌, refl, ◌∙◌, List, [], ◌∷◌, String, Option, none, some}
use go_fintech_microservices.Errors.{GoError}
use go_fintech_microservices.Exec.{Result, ok, err, Exec, pure}
use go_fintech_microservices.Db.{
  Outcome, done, refused, lost, Db, next_outcome, later_outcomes, settle_query, settle_last,
  settle_write, settle_commit, finish, end_transaction, select, rows_err, scan_rows, select_rows,
  write, transaction,
}
use go_fintech_microservices.Db.Laws.{
  Ends, Triple, Triple-pure, Triple-given, Triple-weaken, Triple-bind,
}

module _ {T A : Type 0} (Q : A → T → Type 0) (E : T → Type 0) where
  settle_query-Ends :
      (message : String) (a : A) (o : Outcome) (db : Db T)
      → Q a db.tables
      → E db.tables
      → Ends Q E (settle_query message a o, db)
  unfolding settle_query
  settle_query-Ends message a done db q e = q
  settle_query-Ends message a refused db q e = e
  settle_query-Ends message a lost db q e = e

module _ {T A : Type 0} {Q : A → T → Type 0} {E : T → Type 0} where
  pub Triple-select :
      {P : T → Type 0} (message : String) (f : T → A)
      → ((t : T) → P t → Q (f t) t)
      → ((t : T) → P t → E t)
      → Triple P (select message f) Q E
  unfolding select
  Triple-select message f h k = record {
    at = λ db p.
        settle_query-Ends Q E message (f db.tables) (next_outcome db.faults)
          (record db { faults = later_outcomes db.faults }) (h db.tables p) (k db.tables p);
  }

module _ {T : Type 0} (Q : Unit {0} → T → Type 0) (E : T → Type 0) where
  settle_write-Ends :
      (message : String) (t : T) (o : Option T) (outcome : Outcome) (db : Db T)
      → ((t' : T) → o ≡ some t' → Q tt t')
      → ((t' : T) → o ≡ some t' → E t')
      → E t
      → let (r, t') = settle_write message t o outcome in Ends Q E (r, record db { tables = t' })
  unfolding settle_write
  settle_write-Ends message t none outcome db q e k = k
  settle_write-Ends message t (some t') done db q e k = q t' refl
  settle_write-Ends message t (some t') refused db q e k = k
  settle_write-Ends message t (some t') lost db q e k = e t' refl

  settle_last-Ends :
      (last : GoError) (o : Outcome) (db : Db T)
      → Q tt db.tables
      → E db.tables
      → Ends Q E (settle_last last o, db)
  unfolding settle_last
  settle_last-Ends last done db q e = q
  settle_last-Ends last refused db q e = e
  settle_last-Ends last lost db q e = e

  settle_commit-Ends :
      (commit : String) (before after : T) (o : Outcome) (rest : List Outcome)
      → Q tt after
      → E after
      → E before
      → let (r, t) = settle_commit commit before after o in
        Ends Q E (r, record { tables = t; faults = rest })
  unfolding settle_commit
  settle_commit-Ends commit before after done rest q e b = q
  settle_commit-Ends commit before after refused rest q e b = b
  settle_commit-Ends commit before after lost rest q e b = e

module _ {T : Type 0} {Q : Unit {0} → T → Type 0} {E : T → Type 0} where
  pub Triple-write :
      {P : T → Type 0} (message : String) (f : T → Option T)
      → ((t t' : T) → P t → f t ≡ some t' → Q tt t')
      → ((t t' : T) → P t → f t ≡ some t' → E t')
      → ((t : T) → P t → E t)
      → Triple P (write message f) Q E
  unfolding write
  Triple-write message f q e k = record {
    at = λ db p.
        settle_write-Ends Q E message db.tables (f db.tables) (next_outcome db.faults)
          (record db { faults = later_outcomes db.faults }) (λ t'. q db.tables t' p)
          (λ t'. e db.tables t' p) (k db.tables p);
  }

  Triple-rows_err :
      {P : T → Type 0} (last : GoError)
      → ((t : T) → P t → Q tt t)
      → ((t : T) → P t → E t)
      → Triple P (rows_err last) Q E
  unfolding rows_err
  Triple-rows_err last h k = record {
    at = λ db p.
        settle_last-Ends Q E last (next_outcome db.faults)
          (record db { faults = later_outcomes db.faults }) (h db.tables p) (k db.tables p);
  }

module _ {T A : Type 0} {P E : T → Type 0} (scan : String) (last : GoError) where
  -- A scan yields all the rows, or fails; the tables stay as they are.
  Triple-scan_rows :
      (xs : List A)
      → ((t : T) → P t → E t)
      → Triple P (scan_rows scan last xs) (λ ys t. (ys ≡ xs) × P t) E
  unfolding scan_rows
  Triple-scan_rows [] k =
      Triple-bind (rows_err last) (λ _. pure [])
        (Triple-rows_err {Q = λ _ t. P t} last (λ t p. p) k)
        (λ _. Triple-pure [] (λ t p. (refl, p)))
  Triple-scan_rows (x ∷ xs) k =
      Triple-bind (select scan (λ t. x)) _
        (Triple-select {Q = λ a t. (a ≡ x) × P t} scan (λ t. x) (λ t p. (refl, p)) k)
        (λ a.
          Triple-given _ (λ t p. p.0)
            (λ (e : a ≡ x).
              Triple-bind (scan_rows scan last xs) _
                (Triple-weaken _ (λ t p. p.1) (λ ys t q. q) (λ t q. q) (Triple-scan_rows xs k))
                (λ rest. Triple-pure (a ∷ rest) (λ t q. (let f : rest ≡ xs = q.0 in cc, q.1)))))

module _ {T A : Type 0} {P E : T → Type 0} where
  -- A query of many rows yields what it selects from the tables, which stay as they are.
  pub Triple-select_rows :
      (message scan : String) (last : GoError) (f : T → List A)
      → ((t : T) → P t → E t)
      → Triple P (select_rows message scan last f) (λ ys t. (ys ≡ f t) × P t) E
  unfolding select_rows
  Triple-select_rows message scan last f k =
      Triple-bind (select message f) _
        (Triple-select {Q = λ xs t. (xs ≡ f t) × P t} message f (λ t p. (refl, p)) k)
        (λ xs.
          Triple-weaken _ (λ t p. p) (λ ys t q. (q.0 ∙ q.1.0, q.1.1)) (λ t q. q)
            (Triple-scan_rows scan last xs (λ t p. k t p.1)))

module _ {T : Type 0} (Q : Unit {0} → T → Type 0) (E : T → Type 0) where
  -- What holds after the body also holds after a commit whose reply is lost.
  finish-Ends :
      (commit : String) (before : T) (r : Result (Unit {0})) (db : Db T)
      → Ends (λ _ t. Q tt t × E t) (λ _. Unit) (r, db)
      → E before
      → Ends Q E (finish commit before r db)
  unfolding finish
  finish-Ends commit before (err e) db h b = b
  finish-Ends commit before (ok _) db h b =
      settle_commit-Ends Q E commit before db.tables (next_outcome db.faults)
        (later_outcomes db.faults) h.0 h.1 b

module _ {T : Type 0} {Q : Unit {0} → T → Type 0} {P E : T → Type 0} where
  -- A transaction leaves what its body left on success, or the tables as they were.
  pub Triple-transaction :
      (begin commit : String) (body : Exec (Db T) (Unit {0}))
      → Triple P body (λ _ t. Q tt t × E t) (λ _. Unit)
      → ((t : T) → P t → E t)
      → Triple P (transaction begin commit body) Q E
  unfolding transaction end_transaction
  Triple-transaction begin commit body h k =
      Triple-bind (select begin (λ t. tt)) (λ _. end_transaction commit body)
        (Triple-select {Q = λ _ t. P t} begin (λ t. tt) (λ t p. p) k)
        (λ _. record {
          at = λ db p.
              finish-Ends Q E commit db.tables (body db).0 (body db).1 (h.at db p) (k db.tables p);
        })
