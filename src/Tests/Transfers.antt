-- ===== src/Tests/Transfers.antt =====
-- The theorems on the transaction service at a concrete database.
use go_fintech_microservices.Prelude.{◌≡◌, ◌⊎◌, refl, [], ◌∷◌, some}
use go_fintech_microservices.Prelude.Int.{pos}
use go_fintech_microservices.Exec.{ok}
use go_fintech_microservices.Db.Laws.{Triple}
use go_fintech_microservices.Transaction.Domain
use go_fintech_microservices.Transaction.Domain.{Transaction}
use go_fintech_microservices.Transaction.Store.{TransactionTables, find, has_key}
use go_fintech_microservices.Transaction.Lifecycle.{Evolves}
use go_fintech_microservices.Transaction.Service.{
  FraudChecker, TransactionCodec, TransferRequest, Supply, result_of, initiate_transfer,
}
use go_fintech_microservices.Transaction.Service.Starting.{
  Started, Unstarted, initiate_transfer-Triple, repeated_transfer-Triple,
}
use go_fintech_microservices.Transaction.Service.Calls.{Call, serve_all, serve_all-Evolves}

data Body : Type 0 where
  initiated_body : Domain.TransactionInitiatedPayload → Body
  completed_body : Domain.TransactionCompletedPayload → Body
  failed_body : Domain.TransactionFailedPayload → Body

abbrev bodies : TransactionCodec Body
bodies = record {
  show_uuid = λ v. "uuid";
  marshal_initiated = λ p. some (initiated_body p);
  marshal_completed = completed_body;
  marshal_failed = failed_body;
}

abbrev approving : FraudChecker
approving = λ tx user wallet amount. ok "APPROVED"

abbrev rent : TransferRequest
rent = record {
  source_wallet_id = 71;
  dest_wallet_id = 72;
  amount_cents = pos 200;
  description = "rent";
  idempotency_key = "rent-2026-11";
}

abbrev supply_1 : Supply
supply_1 = record {
  transaction = record { id = 31; now = 21 };
  outbox = record { id = 41; now = 22 };
}

abbrev supply_2 : Supply
supply_2 = record {
  transaction = record { id = 32; now = 23 };
  outbox = record { id = 42; now = 24 };
}

abbrev rent_transfer : Transaction
rent_transfer = record {
  id = 31;
  source_wallet_id = 71;
  destination_wallet_id = 72;
  amount_cents = pos 200;
  description = "rent";
  status = Domain.Status.pending;
  failure_reason = "";
  idempotency_key = "rent-2026-11";
  created_at = 21;
  updated_at = 21;
}

abbrev new_tables : TransactionTables Body
new_tables = record { transactions = []; outbox = [] }

abbrev tables : TransactionTables Body
tables = record { transactions = rent_transfer ∷ []; outbox = [] }

serve_all-Evolves_example :
    let calls =
      Call.initiate supply_1 rent
      ∷ Call.complete 25 (record { id = 43; now = 26 }) 31
      ∷ Call.fail 27 (record { id = 44; now = 28 }) 31 "late"
      ∷ [] in
    Evolves new_tables
      (serve_all bodies (some approving) calls (record { tables = new_tables; faults = [] })).tables
serve_all-Evolves_example =
    serve_all-Evolves bodies (some approving)
      (Call.initiate supply_1 rent
        ∷ Call.complete 25 (record { id = 43; now = 26 }) 31
        ∷ Call.fail 27 (record { id = 44; now = 28 }) 31 "late"
        ∷ [])
      (record { tables = new_tables; faults = [] })

initiate_transfer-Triple_example :
    Triple
      (λ t. t ≡ new_tables)
      (initiate_transfer bodies (some approving) supply_1 rent)
      (λ r t.
        Started bodies new_tables supply_1 rent r t
        ⊎ ((tx : Transaction) × (find (has_key "rent-2026-11") [] ≡ some tx)
            × (r ≡ result_of tx)
            × (t ≡ new_tables)))
      (Unstarted bodies new_tables supply_1 rent)
initiate_transfer-Triple_example =
    initiate_transfer-Triple bodies new_tables supply_1 rent (some approving)

repeated_transfer-Triple_example :
    Triple
      (λ t. t ≡ tables)
      (initiate_transfer bodies (some approving) supply_2 rent)
      (λ r t. (r ≡ result_of rent_transfer) × (t ≡ tables))
      (λ t. t ≡ tables)
repeated_transfer-Triple_example =
    repeated_transfer-Triple bodies tables supply_2 rent (some approving) rent_transfer refl refl
