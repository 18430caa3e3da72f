-- ===== src/Query/Store.antt =====
-- services/query/internal/adapters/outbound/postgres/repos.go, and the tables of
-- services/query/migrations/000001_create_tables.up.sql.
pub mod Rows
use go_fintech_microservices.Prelude.{
  ℕ, Bool, List, [], ◌∷◌, ◌++◌, Option, none, some, String, Uuid, leb, ◌==◌, any, filter, take,
  drop, if◌then◌else◌,
}
use go_fintech_microservices.Prelude.Int.{ℤ, pos, negsuc}
use go_fintech_microservices.Errors.{not_found, internal, new_error, wrap}
use go_fintech_microservices.Exec.{Exec, or_raise, ◌>>=◌}
use go_fintech_microservices.Db.{Db, driver_error, select, select_rows, scan_rows, write}
use go_fintech_microservices.Query.Domain.{BalanceProjection, StatementEntry, UserStats}

pub record QueryTables : Type 0 where
  pub balances : List BalanceProjection
  pub entries : List StatementEntry
  pub stats : List UserStats
  pub processed : List Uuid

abbrev pub QueryDb : Type 0
QueryDb = Db QueryTables

module _ {A : Type 0} (key : A → Uuid) where
  -- The row that has the key.
  abbrev pub row_at : Uuid → List A → Option A
  row_at k [] = none
  row_at k (row ∷ rows) = if key row == k then some row else row_at k rows

  -- `INSERT … ON CONFLICT (key) DO UPDATE`; `merge` updates the row that is there.
  unfoldable pub upsert : (A → A) → A → List A → List A
  upsert merge new [] = new ∷ []
  upsert merge new (row ∷ rows) =
      if key row == key new then merge row ∷ rows else row ∷ upsert merge new rows

  -- `INSERT … ON CONFLICT DO NOTHING`
  unfoldable pub insert_new : A → List A → List A
  insert_new new rows = if any (λ row. key row == key new) rows then rows else rows ++ new ∷ []

abbrev pub wallet_of : BalanceProjection → Uuid
wallet_of p = p.wallet_id

abbrev pub event_of : StatementEntry → Uuid
event_of e = e.event_id

abbrev pub user_of : UserStats → Uuid
user_of s = s.user_id

-- The owner and the currency of a row stay.
abbrev pub merge_balance : BalanceProjection → BalanceProjection → BalanceProjection
merge_balance new row = record row {
  balance_cents = new.balance_cents;
  version = new.version;
  updated_at = new.updated_at;
}

unfoldable pub put_balance : BalanceProjection → QueryTables → QueryTables
unfolding upsert
put_balance p t = record t { balances = upsert wallet_of (merge_balance p) p t.balances }

pub put_stats : UserStats → QueryTables → QueryTables
unfolding upsert
put_stats s t = record t { stats = upsert user_of (λ row. s) s t.stats }

unfoldable pub add_entry : StatementEntry → QueryTables → QueryTables
unfolding insert_new
add_entry e t = record t { entries = insert_new event_of e t.entries }

-- `SELECT EXISTS(SELECT 1 FROM query_processed_events WHERE event_id=$1)`
abbrev pub is_recorded : Uuid → QueryTables → Bool
is_recorded id t = any (λ done. done == id) t.processed

unfoldable pub record_event : Uuid → QueryTables → QueryTables
unfolding insert_new
record_event id t = record t { processed = insert_new (λ done. done) id t.processed }

unfoldable pub upsert_balance : BalanceProjection → Exec QueryDb (Unit {0})
unfolding write put_balance
upsert_balance p = write "upsert balance" (λ t. some (put_balance p t))

unfoldable pub find_balance : Uuid → Exec QueryDb BalanceProjection
unfolding select
find_balance wallet_id = do
  found ← select "find balance" (λ t. row_at wallet_of wallet_id t.balances)
  or_raise (new_error not_found "balance not found") found

-- The `FindByUserID` of the balances.
unfoldable pub find_balances_of : Uuid → Exec QueryDb (List BalanceProjection)
unfolding select_rows
find_balances_of user_id =
    select_rows "find balances by user" "scan balance" driver_error
      (λ t. filter (λ p. p.user_id == user_id) t.balances)

unfoldable pub append_statement : StatementEntry → Exec QueryDb (Unit {0})
unfolding write add_entry
append_statement e = write "append statement" (λ t. some (add_entry e t))

insert_by_time : StatementEntry → List StatementEntry → List StatementEntry
insert_by_time e [] = e ∷ []
insert_by_time e (row ∷ rows) =
    let rest = insert_by_time e rows in
    if leb row.occurred_at e.occurred_at then e ∷ row ∷ rows else row ∷ rest

-- `ORDER BY occurred_at DESC`
pub order_by_time : List StatementEntry → List StatementEntry
unfolding insert_by_time
order_by_time [] = []
order_by_time (e ∷ es) = insert_by_time e (order_by_time es)

-- `LIMIT $2 OFFSET $3`, which must not be negative.
pub page : ℤ → ℤ → List StatementEntry → Option (List StatementEntry)
page (pos limit) (pos offset) es = some (take limit (drop offset es))
page (pos limit) (negsuc n) es = none
page (negsuc n) offset es = none

abbrev pub of_wallet : Uuid → StatementEntry → Bool
of_wallet wallet_id e = e.wallet_id == wallet_id

unfoldable pub find_statement : Uuid → ℤ → ℤ → Exec QueryDb (List StatementEntry)
unfolding select scan_rows order_by_time page
find_statement wallet_id limit offset = do
  found ←
      select "find statement"
        (λ t. page limit offset (order_by_time (filter (of_wallet wallet_id) t.entries)))
  rows ← or_raise (wrap internal "find statement" driver_error) found
  scan_rows "scan statement" driver_error rows

unfoldable pub upsert_stats : UserStats → Exec QueryDb (Unit {0})
unfolding write put_stats
upsert_stats s = write "upsert stats" (λ t. some (put_stats s t))

unfoldable pub find_stats : Uuid → Exec QueryDb UserStats
unfolding select
find_stats user_id = do
  found ← select "find stats" (λ t. row_at user_of user_id t.stats)
  or_raise (new_error not_found "stats not found") found

unfoldable pub is_processed : Uuid → Exec QueryDb Bool
unfolding select
is_processed id = select "check processed" (is_recorded id)

unfoldable pub mark_processed : Uuid → Exec QueryDb (Unit {0})
unfolding write record_event
mark_processed id = write "mark processed" (λ t. some (record_event id t))
