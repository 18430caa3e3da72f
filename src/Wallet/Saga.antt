-- ===== src/Wallet/Saga.antt =====
-- services/wallet/internal/adapters/inbound/kafka/saga_handler.go: the wallet's part in a transfer.
pub mod Effects
pub mod Handling
pub mod Redelivery
use go_fintech_microservices.Prelude.{
  Bool, List, Option, none, some, String, Uuid, Fresh, str_eq, if◌then◌else◌,
}
use go_fintech_microservices.Prelude.Int.{ℤ}
use go_fintech_microservices.Errors.{GoError, foreign, unknown}
use go_fintech_microservices.Exec.{Exec, pure, or_raise, ◌>>=◌, ◌>>◌}
use go_fintech_microservices.Kafka.{Record, event_type_of, event_id_of}
use go_fintech_microservices.Wallet.Domain.{EventCodec}
use go_fintech_microservices.Wallet.Store.{
  WalletTables, WalletDb, WalletOutboxEvent, OutboxEventType,
}
use go_fintech_microservices.Wallet.Outbox
use go_fintech_microservices.Wallet.Service.{reserve_for_transaction, credit_for_transaction}

abbrev pub topic_wallet_events : String
topic_wallet_events = "wallet-events"

-- `transactionInitiatedPayload`, and `transactionCompletedPayload` of the same fields.
pub record TransferPayload : Type 0 where
  pub transaction_id : Uuid
  pub source_wallet_id : Uuid
  pub destination_wallet_id : Uuid
  pub amount_cents : ℤ

-- `OutboxFundsReservedPayload`, and `OutboxFundsDepositedPayload` of the same fields.
pub record OutboxPayload : Type 0 where
  pub wallet_id : Uuid
  pub transaction_id : Uuid
  pub amount_cents : ℤ

-- encoding/json at these payloads, and the texts of github.com/google/uuid.
pub record SagaCodec (Bytes : Type 0) : Type 0 where
  pub parse_uuid : String → Option Uuid
  pub show_uuid : Uuid → String
  pub unmarshal_transfer : Bytes → Option TransferPayload
  pub marshal_outbox : OutboxPayload → Bytes

-- The values of `uuid.New` and `time.Now` in one call of the handler: for the wallet's event, and
-- for the outbox row.
pub record Supply : Type 0 where
  pub event : Fresh
  pub outbox : Fresh

module _ {Bytes : Type 0} (codec : EventCodec Bytes) (saga : SagaCodec Bytes) where
  -- `json.Unmarshal` with its error passed on.
  parse_transfer : Bytes → Exec (WalletDb Bytes) TransferPayload
  parse_transfer bytes = or_raise (foreign unknown) (saga.unmarshal_transfer bytes)

  pub outbox_row : Fresh → OutboxEventType → Uuid → TransferPayload → WalletOutboxEvent Bytes
  outbox_row fresh type wallet_id p = record {
    id = fresh.id;
    topic = topic_wallet_events;
    key = saga.show_uuid wallet_id;
    payload = saga.marshal_outbox (record {
      wallet_id = wallet_id;
      transaction_id = p.transaction_id;
      amount_cents = p.amount_cents;
    });
    event_type = type;
    published_at = none;
    created_at = fresh.now;
  }

  handle_transaction_initiated : Supply → Bytes → Exec (WalletDb Bytes) (Unit {0})
  unfolding parse_transfer outbox_row reserve_for_transaction Outbox.save
  handle_transaction_initiated supply bytes = do
    p ← parse_transfer bytes
    reserve_for_transaction codec supply.event p.source_wallet_id p.amount_cents p.transaction_id
    Outbox.save (outbox_row supply.outbox OutboxEventType.funds_reserved p.source_wallet_id p)

  handle_transaction_completed : Supply → Bytes → Exec (WalletDb Bytes) (Unit {0})
  unfolding parse_transfer outbox_row credit_for_transaction Outbox.save
  handle_transaction_completed supply bytes = do
    p ← parse_transfer bytes
    credit_for_transaction codec supply.event p.destination_wallet_id p.amount_cents
        p.transaction_id
    Outbox.save (outbox_row supply.outbox OutboxEventType.funds_deposited p.destination_wallet_id p)

  -- The `switch` on the type of the event; the last branch returns before the event is marked.
  dispatch : Supply → Record Bytes → Uuid → Exec (WalletDb Bytes) (Unit {0})
  unfolding handle_transaction_initiated handle_transaction_completed Outbox.mark_processed
  dispatch supply r event_id =
      if str_eq (event_type_of r) "TransactionInitiated"
      then (do handle_transaction_initiated supply r.value; Outbox.mark_processed event_id)
      else if str_eq (event_type_of r) "TransactionCompleted"
      then (do handle_transaction_completed supply r.value; Outbox.mark_processed event_id)
      else pure tt

  handle_event : Supply → Record Bytes → Uuid → Exec (WalletDb Bytes) (Unit {0})
  unfolding Outbox.is_processed dispatch
  handle_event supply r event_id = do
    already ← Outbox.is_processed event_id
    if already then pure tt else dispatch supply r event_id

  -- A record with an invalid identifier is logged and skipped.
  unfoldable pub handle : Supply → Record Bytes → Exec (WalletDb Bytes) (Unit {0})
  unfolding handle_event
  handle supply r = elim (saga.parse_uuid (event_id_of r)) [
    | none ↦ pure tt
    | some event_id ↦ handle_event supply r event_id
  ]
