-- ===== src/Transaction/Store.antt =====
-- services/transaction/internal/adapters/outbound/postgres/repos.go, and the tables of
-- services/transaction/migrations/000001_create_tables.up.sql.
pub mod Publishing
use go_fintech_microservices.Prelude.{
  arith, ◌≡◌, inl, inr, Bool-cases, ℕ, Bool, true, false, not, ◌&&◌, ◌||◌, List, [], ◌∷◌, ◌++◌,
  Option, none, some, String, Uuid, Instant, leb, ◌==◌, str_eq, any, filter, take, map,
  if◌then◌else◌,
}
use go_fintech_microservices.Errors.{not_found, new_error}
use go_fintech_microservices.Exec.{Exec, or_raise, ◌>>=◌}
use go_fintech_microservices.Db.{Db, driver_error, select, select_rows, write}
use go_fintech_microservices.Db.Order.{order_by}
use go_fintech_microservices.Transaction.Domain.{Transaction, OutboxEvent}

pub record TransactionTables (Bytes : Type 0) : Type 0 where
  pub transactions : List Transaction
  pub outbox : List (OutboxEvent Bytes)

abbrev pub TransactionDb : Type 0 → Type 0
TransactionDb Bytes = Db (TransactionTables Bytes)

-- The first row that passes a test.
abbrev pub find : (Transaction → Bool) → List Transaction → Option Transaction
find p [] = none
find p (row ∷ rows) = if p row then some row else find p rows

abbrev pub has_id : Uuid → Transaction → Bool
has_id id row = row.id == id

abbrev pub has_key : String → Transaction → Bool
has_key key row = str_eq row.idempotency_key key

-- The primary key, and the unique index on the keys that are not empty.
abbrev pub clashes : Transaction → Transaction → Bool
clashes tx row =
    has_id tx.id row || not (str_eq tx.idempotency_key "") && has_key tx.idempotency_key row

-- `UPDATE transactions SET status, failure_reason, updated_at WHERE id`
abbrev pub update_row : Transaction → Transaction → Transaction
update_row tx row =
    if row.id == tx.id
    then record row {
      status = tx.status;
      failure_reason = tx.failure_reason;
      updated_at = tx.updated_at;
    }
    else row

module _ {Bytes : Type 0} where
  unfoldable pub insert : Transaction → TransactionTables Bytes → Option (TransactionTables Bytes)
  insert tx t =
      if any (clashes tx) t.transactions
      then none
      else some (record t { transactions = t.transactions ++ tx ∷ [] })

  unfoldable pub save : Transaction → Exec (TransactionDb Bytes) (Unit {0})
  unfolding write insert
  save tx = write "save transaction" (insert tx)

  unfoldable pub update : Transaction → Exec (TransactionDb Bytes) (Unit {0})
  unfolding write
  update tx =
      write "update transaction"
        (λ t. some (record t { transactions = map (update_row tx) t.transactions }))

  unfoldable pub find_by_id : Uuid → Exec (TransactionDb Bytes) Transaction
  unfolding select
  find_by_id id = do
    found ← select "find transaction" (λ t. find (has_id id) t.transactions)
    or_raise (new_error not_found "transaction not found") found

  unfoldable pub find_by_idempotency_key : String → Exec (TransactionDb Bytes) Transaction
  unfolding select
  find_by_idempotency_key key = do
    found ← select "find transaction by idempotency key" (λ t. find (has_key key) t.transactions)
    or_raise (new_error not_found "transaction not found") found

  unfoldable pub insert_event :
      OutboxEvent Bytes → TransactionTables Bytes → Option (TransactionTables Bytes)
  insert_event e t =
      if any (λ row. row.id == e.id) t.outbox
      then none
      else some (record t { outbox = t.outbox ++ record e { published_at = none } ∷ [] })

  unfoldable pub save_event : OutboxEvent Bytes → Exec (TransactionDb Bytes) (Unit {0})
  unfolding write insert_event
  save_event e = write "save outbox event" (insert_event e)

  abbrev is_unpublished : OutboxEvent Bytes → Bool
  is_unpublished e = elim e.published_at [ none ↦ true | some _ ↦ false ]

  unfoldable pub fetch_unpublished : ℕ → Exec (TransactionDb Bytes) (List (OutboxEvent Bytes))
  unfolding select_rows order_by
  fetch_unpublished limit =
      select_rows "fetch outbox events" "scan outbox event" driver_error
        (λ t. take limit (order_by (λ e. e.created_at) (filter is_unpublished t.outbox)))

  abbrev publish_row : Uuid → Instant → OutboxEvent Bytes → OutboxEvent Bytes
  publish_row id now row = if row.id == id then record row { published_at = some now } else row

  unfoldable pub mark_published : Uuid → Instant → Exec (TransactionDb Bytes) (Unit {0})
  unfolding write
  mark_published id now =
      write "mark outbox event published"
        (λ t. some (record t { outbox = map (publish_row id now) t.outbox }))

  abbrev pub saved : Transaction → TransactionTables Bytes → TransactionTables Bytes
  saved tx t = record t { transactions = t.transactions ++ tx ∷ [] }

  abbrev pub announced : OutboxEvent Bytes → TransactionTables Bytes → TransactionTables Bytes
  announced e t = record t { outbox = t.outbox ++ record e { published_at = none } ∷ [] }

  pub insert-eq :
      (tx : Transaction) (t t' : TransactionTables Bytes)
      → insert tx t ≡ some t'
      → (any (clashes tx) t.transactions ≡ false) × (t' ≡ saved tx t)
  unfolding insert
  insert-eq tx t t' h = elim (Bool-cases (any (clashes tx) t.transactions)) [
    | inl e ↦ ground arith
    | inr e ↦ (e, ground arith)
  ]

  pub insert_event-eq :
      (e : OutboxEvent Bytes) (t t' : TransactionTables Bytes)
      → insert_event e t ≡ some t'
      → t' ≡ announced e t
  unfolding insert_event
  insert_event-eq e t t' h = ground arith
