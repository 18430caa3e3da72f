-- ===== src/Transaction/Service.antt =====
-- services/transaction/internal/application/transaction_service.go, and the decisions of
-- services/transaction/internal/adapters/outbound/grpc/fraud_client.go.
pub mod Requests
pub mod Starting
pub mod Deciding
pub mod Calls
pub mod Smooth
pub mod Completing
use go_fintech_microservices.Prelude.{
  Bool, true, false, not, Option, none, some, String, Uuid, nil_uuid, Instant, Fresh, str_eq,
  if◌then◌else◌,
}
use go_fintech_microservices.Prelude.Int.{ℤ}
use go_fintech_microservices.Errors.{
  GoError, foreign, unknown, internal, permission_denied, conflict, wrap, new_error,
}
use go_fintech_microservices.Exec.{
  Result, ok, err, Exec, pure, raise, or_raise, lift, raise_if, attempt, ◌>>=◌, ◌>>◌,
}
use go_fintech_microservices.Transaction.Domain
use go_fintech_microservices.Transaction.Domain.{
  Transaction, Status, pending, completed, failed, compensated, other, OutboxEvent, EventType,
}
use go_fintech_microservices.Transaction.Store.{
  TransactionDb, save, update, find_by_id, find_by_idempotency_key, save_event,
}

abbrev pub topic_transactions : String
topic_transactions = "transactions"

-- `FraudChecker.Evaluate`: what the remote service answers for a transaction, a user, a wallet and
-- an amount.
abbrev pub FraudChecker : Type 0
FraudChecker = Uuid → Uuid → Uuid → ℤ → Result String

-- encoding/json at the payloads, and the texts of github.com/google/uuid. One `Marshal` has its
-- error looked at.
pub record TransactionCodec (Bytes : Type 0) : Type 0 where
  pub show_uuid : Uuid → String
  pub marshal_initiated : Domain.TransactionInitiatedPayload → Option Bytes
  pub marshal_completed : Domain.TransactionCompletedPayload → Bytes
  pub marshal_failed : Domain.TransactionFailedPayload → Bytes

pub record InitiateResult : Type 0 where
  pub transaction_id : Uuid
  pub status : Status
  pub created_at : Instant

pub record TransferRequest : Type 0 where
  pub source_wallet_id : Uuid
  pub dest_wallet_id : Uuid
  pub amount_cents : ℤ
  pub description : String
  pub idempotency_key : String

-- The values of `uuid.New` and `time.Now` in one call: for the transaction, and for the outbox row.
pub record Supply : Type 0 where
  pub transaction : Fresh
  pub outbox : Fresh

abbrev pub is_pending : Status → Bool
is_pending pending = true
is_pending completed = false
is_pending failed = false
is_pending compensated = false
is_pending (other s) = false

abbrev pub result_of : Transaction → InitiateResult
result_of tx = record { transaction_id = tx.id; status = tx.status; created_at = tx.created_at }

module _ {Bytes : Type 0} (codec : TransactionCodec Bytes) where
  pub outbox_event : Fresh → Transaction → EventType → Bytes → OutboxEvent Bytes
  outbox_event fresh tx type payload = record {
    id = fresh.id;
    topic = topic_transactions;
    key = codec.show_uuid tx.source_wallet_id;
    payload = payload;
    event_type = type;
    published_at = none;
    created_at = fresh.now;
  }

  decided : Result String → Exec (TransactionDb Bytes) (Unit {0})
  decided (err e) = raise (wrap internal "fraud check" e)
  decided (ok decision) =
      raise_if (str_eq decision "REJECTED")
        (new_error permission_denied "transaction rejected by fraud check")

  -- `if s.fraud != nil { … }`
  fraud_check : Option FraudChecker → Transaction → Exec (TransactionDb Bytes) (Unit {0})
  unfolding decided
  fraud_check none tx = pure tt
  fraud_check (some evaluate) tx =
      decided (evaluate tx.id nil_uuid tx.source_wallet_id tx.amount_cents)

  -- What follows the lookup of the idempotency key.
  start_transfer :
      Option FraudChecker → Supply → TransferRequest → Exec (TransactionDb Bytes) InitiateResult
  unfolding fraud_check outbox_event save save_event
  start_transfer fraud supply q = do
    tx ← lift (
        Domain.new_transaction supply.transaction q.source_wallet_id q.dest_wallet_id q.amount_cents
          q.description q.idempotency_key)
    fraud_check fraud tx
    payload ← or_raise (wrap internal "marshal payload" (foreign unknown)) (
        codec.marshal_initiated (record {
          transaction_id = tx.id;
          source_wallet_id = tx.source_wallet_id;
          destination_wallet_id = tx.destination_wallet_id;
          amount_cents = tx.amount_cents;
          description = tx.description;
        }))
    save tx
    save_event (outbox_event supply.outbox tx EventType.transaction_initiated payload)
    pure (result_of tx)

  -- A transaction that has the key is the answer; where none is found, also for an error of the
  -- database, the transfer starts.
  existing_or_start :
      Option FraudChecker
      → Supply
      → TransferRequest
      → Result Transaction
      → Exec (TransactionDb Bytes) InitiateResult
  unfolding start_transfer
  existing_or_start fraud supply q (ok existing) = pure (result_of existing)
  existing_or_start fraud supply q (err e) = start_transfer fraud supply q

  unfoldable pub initiate_transfer :
      Option FraudChecker → Supply → TransferRequest → Exec (TransactionDb Bytes) InitiateResult
  unfolding existing_or_start find_by_idempotency_key
  initiate_transfer fraud supply q =
      if str_eq q.idempotency_key ""
      then start_transfer fraud supply q
      else attempt (find_by_idempotency_key q.idempotency_key) (existing_or_start fraud supply q)

  unfoldable pub complete_transaction :
      Instant → Fresh → Uuid → Exec (TransactionDb Bytes) (Unit {0})
  unfolding find_by_id update save_event outbox_event Domain.complete
  complete_transaction now fresh id = do
    tx ← find_by_id id
    raise_if (not (is_pending tx.status)) (new_error conflict "transaction not in pending state")
    update (Domain.complete now tx)
    save_event (
        outbox_event fresh tx EventType.transaction_completed (
          codec.marshal_completed (record {
            transaction_id = tx.id;
            source_wallet_id = tx.source_wallet_id;
            destination_wallet_id = tx.destination_wallet_id;
            amount_cents = tx.amount_cents;
          })))

  unfoldable pub fail_transaction :
      Instant → Fresh → Uuid → String → Exec (TransactionDb Bytes) (Unit {0})
  unfolding find_by_id update save_event outbox_event Domain.fail
  fail_transaction now fresh id reason = do
    tx ← find_by_id id
    raise_if (not (is_pending tx.status)) (new_error conflict "transaction not in pending state")
    update (Domain.fail now reason tx)
    save_event (
        outbox_event fresh tx EventType.transaction_failed (
          codec.marshal_failed (record {
            transaction_id = tx.id;
            source_wallet_id = tx.source_wallet_id;
            reason = reason;
          })))

module _ {Bytes : Type 0} where
  unfoldable pub get_transaction : Uuid → Exec (TransactionDb Bytes) Transaction
  unfolding find_by_id
  get_transaction id = find_by_id id
