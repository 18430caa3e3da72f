-- ===== src/Transaction/Domain.antt =====
-- services/transaction/internal/domain: transaction.go and events.go.
use go_fintech_microservices.Prelude.{String, Option, Uuid, Instant, Fresh, ◌==◌, if◌then◌else◌}
use go_fintech_microservices.Prelude.Int.{ℤ, pos, leb_ℤ}
use go_fintech_microservices.Errors.{invalid_argument, new_error}
use go_fintech_microservices.Exec.{Result, ok, err}

-- The strings of the type `Status`; `other` is any string that is no constant of the package.
pub data Status : Type 0 where
  pending completed failed compensated : Status
  other : String → Status

-- The strings of the type `EventType`.
pub data EventType : Type 0 where
  transaction_initiated transaction_completed transaction_failed : EventType
  transaction_compensated : EventType

pub record Transaction : Type 0 where
  pub id : Uuid
  pub source_wallet_id : Uuid
  pub destination_wallet_id : Uuid
  pub amount_cents : ℤ
  pub description : String
  pub status : Status
  pub failure_reason : String
  pub idempotency_key : String
  pub created_at : Instant
  pub updated_at : Instant

pub record OutboxEvent (Bytes : Type 0) : Type 0 where
  pub id : Uuid
  pub topic : String
  pub key : String
  pub payload : Bytes
  pub event_type : EventType
  pub published_at : Option Instant
  pub created_at : Instant

pub record TransactionInitiatedPayload : Type 0 where
  pub transaction_id : Uuid
  pub source_wallet_id : Uuid
  pub destination_wallet_id : Uuid
  pub amount_cents : ℤ
  pub description : String

pub record TransactionCompletedPayload : Type 0 where
  pub transaction_id : Uuid
  pub source_wallet_id : Uuid
  pub destination_wallet_id : Uuid
  pub amount_cents : ℤ

pub record TransactionFailedPayload : Type 0 where
  pub transaction_id : Uuid
  pub source_wallet_id : Uuid
  pub reason : String

-- The fresh values are the transaction's identifier and the time.
unfoldable pub new_transaction : Fresh → Uuid → Uuid → ℤ → String → String → Result Transaction
new_transaction fresh source_wallet_id dest_wallet_id amount_cents description idempotency_key =
    if leb_ℤ amount_cents (pos 0)
    then err (new_error invalid_argument "amount must be positive")
    else if source_wallet_id == dest_wallet_id
    then err (new_error invalid_argument "source and destination wallets must differ")
    else ok (record {
      id = fresh.id;
      source_wallet_id = source_wallet_id;
      destination_wallet_id = dest_wallet_id;
      amount_cents = amount_cents;
      description = description;
      status = pending;
      failure_reason = "";
      idempotency_key = idempotency_key;
      created_at = fresh.now;
      updated_at = fresh.now;
    })

unfoldable pub complete : Instant → Transaction → Transaction
complete now t = record t { status = completed; updated_at = now }

unfoldable pub fail : Instant → String → Transaction → Transaction
fail now reason t = record t { status = failed; failure_reason = reason; updated_at = now }

unfoldable pub compensate : Instant → Transaction → Transaction
compensate now t = record t { status = compensated; updated_at = now }
