-- ===== src/Query/Service.antt =====
-- services/query/internal/application/query_service.go.
pub mod Handling
pub mod Ledger
use go_fintech_microservices.Prelude.{
  List, Option, none, some, String, Uuid, Instant, str_eq, if◌then◌else◌,
}
use go_fintech_microservices.Prelude.Int.{ℤ, pos}
use go_fintech_microservices.Prelude.Int64.{add64, sub64}
use go_fintech_microservices.Errors.{foreign, unknown}
use go_fintech_microservices.Exec.{Result, ok, err, Exec, pure, or_raise, attempt, ◌>>=◌, ◌>>◌}
use go_fintech_microservices.Kafka.{Record, event_type_of, event_id_of}
use go_fintech_microservices.Query.Domain.{BalanceProjection, StatementEntry, UserStats, new_stats}
use go_fintech_microservices.Query.Store.{
  QueryDb, upsert_balance, find_balance, append_statement, find_statement, upsert_stats, find_stats,
  is_processed, mark_processed,
}

pub record WalletCreated : Type 0 where
  pub wallet_id : Uuid
  pub user_id : Uuid
  pub currency : String

-- The payload of `FundsDeposited` and of `FundsWithdrawn`.
pub record FundsMoved : Type 0 where
  pub wallet_id : Uuid
  pub amount_cents : ℤ
  pub description : String
  pub version : ℤ
  pub event_id : Uuid
  pub occurred_at : Instant

pub record TransactionCompleted : Type 0 where
  pub user_id : Uuid
  pub amount_cents : ℤ

-- encoding/json at the payloads, and the texts of github.com/google/uuid.
pub record QueryCodec (Bytes : Type 0) : Type 0 where
  pub parse_uuid : String → Option Uuid
  pub unmarshal_created : Bytes → Option WalletCreated
  pub unmarshal_moved : Bytes → Option FundsMoved
  pub unmarshal_completed : Bytes → Option TransactionCompleted

unfoldable pub get_balance : Uuid → Exec QueryDb BalanceProjection
unfolding find_balance
get_balance wallet_id = find_balance wallet_id

unfoldable pub get_statement : Uuid → ℤ → ℤ → Exec QueryDb (List StatementEntry)
unfolding find_statement
get_statement wallet_id limit offset = find_statement wallet_id limit offset

unfoldable pub get_stats : Uuid → Exec QueryDb UserStats
unfolding find_stats
get_stats user_id = find_stats user_id

-- A created wallet's projection, with the zero version.
abbrev pub opened : Instant → WalletCreated → BalanceProjection
opened now p = record {
  wallet_id = p.wallet_id;
  user_id = p.user_id;
  currency = p.currency;
  balance_cents = pos 0;
  version = pos 0;
  updated_at = now;
}

-- The projection with a new balance.
abbrev pub moved : Instant → (ℤ → ℤ → ℤ) → FundsMoved → BalanceProjection → BalanceProjection
moved now change p proj = record proj {
  balance_cents = change proj.balance_cents p.amount_cents;
  version = p.version;
  updated_at = now;
}

abbrev pub entry_of : String → FundsMoved → StatementEntry
entry_of type p = record {
  event_id = p.event_id;
  wallet_id = p.wallet_id;
  type = type;
  amount_cents = p.amount_cents;
  description = p.description;
  occurred_at = p.occurred_at;
}

abbrev pub counted : Instant → TransactionCompleted → UserStats → UserStats
counted now p stats = record stats {
  total_transactions = add64 stats.total_transactions (pos 1);
  total_deposit_cents = add64 stats.total_deposit_cents p.amount_cents;
  updated_at = now;
}

-- No statistics, or an error of the database: new ones.
abbrev pub stats_or_new : Uuid → Result UserStats → UserStats
stats_or_new user_id (ok stats) = stats
stats_or_new user_id (err e) = new_stats user_id

-- What the handlers of the two movements have in common.
pub move_funds : Instant → String → (ℤ → ℤ → ℤ) → FundsMoved → Exec QueryDb (Unit {0})
unfolding find_balance upsert_balance append_statement
move_funds now type change p = do
  proj ← find_balance p.wallet_id
  upsert_balance (moved now change p proj)
  append_statement (entry_of type p)

pub count_completed : Instant → TransactionCompleted → Exec QueryDb (Unit {0})
unfolding find_stats upsert_stats
count_completed now p =
    attempt (find_stats p.user_id) (λ r. upsert_stats (counted now p (stats_or_new p.user_id r)))

module _ {Bytes : Type 0} (codec : QueryCodec Bytes) where
  handle_wallet_created : Instant → Bytes → Exec QueryDb (Unit {0})
  unfolding upsert_balance
  handle_wallet_created now bytes = do
    p ← or_raise (foreign unknown) (codec.unmarshal_created bytes)
    upsert_balance (opened now p)

  handle_funds_deposited : Instant → Bytes → Exec QueryDb (Unit {0})
  unfolding move_funds add64
  handle_funds_deposited now bytes = do
    p ← or_raise (foreign unknown) (codec.unmarshal_moved bytes)
    move_funds now "DEPOSIT" add64 p

  handle_funds_withdrawn : Instant → Bytes → Exec QueryDb (Unit {0})
  unfolding move_funds sub64
  handle_funds_withdrawn now bytes = do
    p ← or_raise (foreign unknown) (codec.unmarshal_moved bytes)
    move_funds now "WITHDRAWAL" sub64 p

  handle_transaction_completed : Instant → Bytes → Exec QueryDb (Unit {0})
  unfolding count_completed
  handle_transaction_completed now bytes = do
    p ← or_raise (foreign unknown) (codec.unmarshal_completed bytes)
    count_completed now p

  -- The `switch` on the type of the event; the last branch returns before the event is marked.
  pub dispatch : Instant → Record Bytes → Uuid → Exec QueryDb (Unit {0})
  unfolding handle_wallet_created handle_funds_deposited handle_funds_withdrawn
      handle_transaction_completed mark_processed
  dispatch now r id =
      if str_eq (event_type_of r) "WalletCreated"
      then (do handle_wallet_created now r.value; mark_processed id)
      else if str_eq (event_type_of r) "FundsDeposited"
      then (do handle_funds_deposited now r.value; mark_processed id)
      else if str_eq (event_type_of r) "FundsWithdrawn"
      then (do handle_funds_withdrawn now r.value; mark_processed id)
      else if str_eq (event_type_of r) "TransactionCompleted"
      then (do handle_transaction_completed now r.value; mark_processed id)
      else pure tt

  pub handle_unseen : Instant → Record Bytes → Uuid → Exec QueryDb (Unit {0})
  unfolding is_processed dispatch
  handle_unseen now r id = do
    already ← is_processed id
    if already then pure tt else dispatch now r id

  unfoldable pub handle_event : Instant → Record Bytes → Exec QueryDb (Unit {0})
  unfolding handle_unseen
  handle_event now r = elim (codec.parse_uuid (event_id_of r)) [
    | none ↦ pure tt
    | some id ↦ handle_unseen now r id
  ]
