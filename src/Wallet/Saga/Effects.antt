-- ===== src/Wallet/Saga/Effects.antt =====
-- What one handling of a saga event does to the tables.
use go_fintech_microservices.Prelude.{
  ◌≡◌, ◌≢◌, true, false, [], ◌∷◌, ◌++◌, none, some, Uuid, str_eq,
}
use go_fintech_microservices.Exec.{Result, ok}
use go_fintech_microservices.Kafka.{Record, event_type_of, event_id_of}
use go_fintech_microservices.Wallet.Domain
use go_fintech_microservices.Wallet.Domain.{EventCodec, Wallet, clear_changes}
use go_fintech_microservices.Wallet.Store.{WalletTables, WalletOutboxEvent, OutboxEventType}
use go_fintech_microservices.Wallet.Store.History.{history}
use go_fintech_microservices.Wallet.Store.Consistency.{account, IsConsistent}
use go_fintech_microservices.Wallet.Outbox.{has_processed}
use go_fintech_microservices.Wallet.Saga.{SagaCodec, TransferPayload, Supply, outbox_row}

module _ {Bytes : Type 0} (codec : EventCodec Bytes) (saga : SagaCodec Bytes)
    (t₀ : WalletTables Bytes) where
  -- The wallet's account has moved by the method, and one outbox row tells of it.
  pub record Saved (wallet_id : Uuid) (method : Wallet Bytes → Result (Wallet Bytes))
      (row : WalletOutboxEvent Bytes) (t : WalletTables Bytes) : Type 0 where
    pub wallet : Wallet Bytes
    pub result : method (account codec wallet_id t₀) ≡ ok wallet
    pub account_eq : account codec wallet_id t ≡ clear_changes wallet
    pub consistent : IsConsistent codec t
    pub others : (other : Uuid) → other ≢ wallet_id → history other t ≡ history other t₀
    pub outbox : t.outbox ≡ t₀.outbox ++ row ∷ []

  module _ (supply : Supply) (r : Record Bytes) where
    -- The record's event does nothing: its identifier is no UUID, or was processed before, or its
    -- type is another one.
    pub data Skips : Type 0 where
      invalid : saga.parse_uuid (event_id_of r) ≡ none → Skips
      repeated :
          (id : Uuid)
          → saga.parse_uuid (event_id_of r) ≡ some id
          → has_processed id t₀ ≡ true
          → Skips
      other_type :
          str_eq (event_type_of r) "TransactionInitiated" ≡ false
          → str_eq (event_type_of r) "TransactionCompleted" ≡ false
          → Skips

    -- The source's account is reserved against, and a row FundsReserved tells of it.
    pub record Reserves (t : WalletTables Bytes) : Type 0 where
      pub type : str_eq (event_type_of r) "TransactionInitiated" ≡ true
      pub payload : TransferPayload
      pub parsed : saga.unmarshal_transfer r.value ≡ some payload
      pub saved :
          Saved payload.source_wallet_id
            (Domain.reserve codec supply.event payload.amount_cents payload.transaction_id)
            (outbox_row codec saga supply.outbox OutboxEventType.funds_reserved
              payload.source_wallet_id payload)
            t

    -- The destination's account is credited, and a row FundsDeposited tells of it.
    pub record Credits (t : WalletTables Bytes) : Type 0 where
      pub type : str_eq (event_type_of r) "TransactionCompleted" ≡ true
      pub payload : TransferPayload
      pub parsed : saga.unmarshal_transfer r.value ≡ some payload
      pub saved :
          Saved payload.destination_wallet_id
            (Domain.deposit codec supply.event payload.amount_cents "saga credit")
            (outbox_row codec saga supply.outbox OutboxEventType.funds_deposited
              payload.destination_wallet_id payload)
            t

    -- What a handling that returned nil has done.
    pub data Handled (t : WalletTables Bytes) : Type 0 where
      skipped : Skips → t ≡ t₀ → Handled t
      reserved :
          (id : Uuid)
          → saga.parse_uuid (event_id_of r) ≡ some id
          → t.processed ≡ t₀.processed ++ id ∷ []
          → Reserves t
          → Handled t
      credited :
          (id : Uuid)
          → saga.parse_uuid (event_id_of r) ≡ some id
          → t.processed ≡ t₀.processed ++ id ∷ []
          → Credits t
          → Handled t
