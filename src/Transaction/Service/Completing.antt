-- ===== src/Transaction/Service/Completing.antt =====
-- A transfer from its initiation to its completion, while nothing fails.
use go_fintech_microservices.Prelude.{Option, Instant, Fresh}
use go_fintech_microservices.Exec.{Exec, ◌>>=◌, ◌>>◌}
use go_fintech_microservices.Transaction.Domain
use go_fintech_microservices.Transaction.Domain.{Transaction, pending, EventType}
use go_fintech_microservices.Transaction.Store.{TransactionTables, TransactionDb, saved, announced}
use go_fintech_microservices.Transaction.Service.{
  FraudChecker, TransactionCodec, TransferRequest, Supply, initiate_transfer, complete_transaction,
  get_transaction,
}
use go_fintech_microservices.Transaction.Service.Smooth.{begun_event}

module _ {Bytes : Type 0} (codec : TransactionCodec Bytes) where
  -- An initiation, the completion of what it began, and a look at it.
  unfoldable pub transfer :
      Option FraudChecker
      → Supply
      → TransferRequest
      → Instant
      → Fresh
      → Exec (TransactionDb Bytes) Transaction
  unfolding initiate_transfer complete_transaction get_transaction
  transfer fraud supply q now fresh = do
    reply ← initiate_transfer codec fraud supply q
    complete_transaction codec now fresh reply.transaction_id
    get_transaction reply.transaction_id

  module _ (fraud : Option FraudChecker) (t : TransactionTables Bytes) (supply : Supply)
      (q : TransferRequest) (tx : Transaction) (payload : Bytes) (now : Instant)
      (fresh : Fresh) where
    abbrev begun : TransactionTables Bytes
    begun = announced (begun_event codec fraud t supply q tx payload) (saved tx t)
