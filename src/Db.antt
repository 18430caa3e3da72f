-- ===== src/Db.antt =====
-- A service's PostgreSQL database as its repositories see it. Each statement that a repository
-- sends takes the next outcome of a schedule; the database decides the schedule.
pub mod Laws
pub mod Statements
pub mod Smooth
pub mod Order
use go_fintech_microservices.Prelude.{List, [], ◌∷◌, String, Option, none, some}
use go_fintech_microservices.Errors.{GoError, foreign, unknown, internal, wrap}
use go_fintech_microservices.Exec.{Result, ok, err, Exec, pure, ◌>>=◌, ◌>>◌}

-- A statement runs and the caller learns it; it does not run; it runs and its reply is lost.
-- The two last give the caller the driver's error.
pub data Outcome : Type 0 where
  done refused lost : Outcome

-- The tables, and the outcomes of the statements to come; past the end of the schedule all is done.
pub record Db (T : Type 0) : Type 0 where
  pub tables : T
  pub faults : List Outcome

abbrev next_outcome : List Outcome → Outcome
next_outcome [] = done
next_outcome (o ∷ rest) = o

abbrev later_outcomes : List Outcome → List Outcome
later_outcomes [] = []
later_outcomes (o ∷ rest) = rest

abbrev pub driver_error : GoError
driver_error = foreign unknown

settle_query : {A : Type 0} → String → A → Outcome → Result A
settle_query message a done = ok a
settle_query message a refused = err (wrap internal message driver_error)
settle_query message a lost = err (wrap internal message driver_error)

settle_last : GoError → Outcome → Result (Unit {0})
settle_last last done = ok tt
settle_last last refused = err last
settle_last last lost = err last

module _ {T A : Type 0} where
  -- A `SELECT` of one value, its scan included; any error is wrapped with the message.
  unfoldable pub select : String → (T → A) → Exec (Db T) A
  unfolding settle_query
  select message f db = (
    settle_query message (f db.tables) (next_outcome db.faults),
    record db { faults = later_outcomes db.faults },
  )

module _ {T : Type 0} where
  -- `rows.Err` after the last row.
  unfoldable pub rows_err : GoError → Exec (Db T) (Unit {0})
  unfolding settle_last
  rows_err last db =
      (settle_last last (next_outcome db.faults), record db { faults = later_outcomes db.faults })

module _ {T : Type 0} where
  -- What a write leaves: `none` is a broken constraint, for which the statement does nothing.
  settle_write : String → T → Option T → Outcome → Result (Unit {0}) × T
  settle_write message t none o = (err (wrap internal message driver_error), t)
  settle_write message t (some t') done = (ok tt, t')
  settle_write message t (some t') refused = (err (wrap internal message driver_error), t)
  settle_write message t (some t') lost = (err (wrap internal message driver_error), t')

  -- An `INSERT`, `UPDATE` or `DELETE`.
  unfoldable pub write : String → (T → Option T) → Exec (Db T) (Unit {0})
  unfolding settle_write
  write message f db =
      let (r, t) = settle_write message db.tables (f db.tables) (next_outcome db.faults) in
      (r, record { tables = t; faults = later_outcomes db.faults })

module _ {T A : Type 0} where
  -- The rows that `rows.Next` yields, each with its `Scan`, and `rows.Err` after the last.
  unfoldable pub scan_rows : String → GoError → List A → Exec (Db T) (List A)
  unfolding select rows_err
  scan_rows scan last [] = do rows_err last; pure []
  scan_rows scan last (x ∷ xs) = do
    a ← select scan (λ t. x)
    rest ← scan_rows scan last xs
    pure (a ∷ rest)

  -- A `SELECT` of many rows: the messages of the query's and of a scan's error, and the error that
  -- `rows.Err` brings.
  unfoldable pub select_rows : String → String → GoError → (T → List A) → Exec (Db T) (List A)
  unfolding select scan_rows
  select_rows message scan last f = do rows ← select message f; scan_rows scan last rows

module _ {T : Type 0} where
  -- After the body: `COMMIT`, or, where the body failed, the deferred `ROLLBACK`.
  settle_commit : String → T → T → Outcome → Result (Unit {0}) × T
  settle_commit commit before after done = (ok tt, after)
  settle_commit commit before after refused = (err (wrap internal commit driver_error), before)
  settle_commit commit before after lost = (err (wrap internal commit driver_error), after)

  finish : String → T → Result (Unit {0}) → Exec (Db T) (Unit {0})
  unfolding settle_commit
  finish commit before (err e) db = (err e, record db { tables = before })
  finish commit before (ok _) db =
      let (r, t) = settle_commit commit before db.tables (next_outcome db.faults) in
      (r, record { tables = t; faults = later_outcomes db.faults })

  end_transaction : String → Exec (Db T) (Unit {0}) → Exec (Db T) (Unit {0})
  unfolding finish
  end_transaction commit body db = let (r, db') = body db in finish commit db.tables r db'

  -- `BeginTxx`, a body, and its end. Nothing else runs in between.
  unfoldable pub transaction : String → String → Exec (Db T) (Unit {0}) → Exec (Db T) (Unit {0})
  unfolding select end_transaction
  transaction begin commit body = do select begin (λ t. tt); end_transaction commit body
