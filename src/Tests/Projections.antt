-- ===== src/Tests/Projections.antt =====
-- The theorems on the query service at concrete tables.
use go_fintech_microservices.Prelude.{arith, ◌≡◌, refl, [], ◌∷◌, none, some}
use go_fintech_microservices.Prelude.Int.{pos}
use go_fintech_microservices.Prelude.Int64.{add64}
use go_fintech_microservices.Db.Laws.{Triple}
use go_fintech_microservices.Kafka.{Record, header_value}
use go_fintech_microservices.Query.Domain.{BalanceProjection}
use go_fintech_microservices.Query.Store.{QueryTables, row_at, wallet_of, upsert, put_balance}
use go_fintech_microservices.Query.Service.{
  WalletCreated, FundsMoved, QueryCodec, opened, handle_event,
}
use go_fintech_microservices.Query.Service.Handling.{QueryEvent}
use go_fintech_microservices.Query.Service.Handling.Dispatch.{
  Reads, created, deposited, withdrawn, completed, Handled, Failed, handle_event-Triple,
}
use go_fintech_microservices.Query.Service.Ledger.{
  total_from, total, IsBalanced, put_balance-IsBalanced,
}
use go_fintech_microservices.Errors.{internal, wrap}
use go_fintech_microservices.Exec.{ok, err}
use go_fintech_microservices.Db.{driver_error}
use go_fintech_microservices.Db.Smooth.{smooth}
use go_fintech_microservices.Query.Service.Ledger.Redelivery.{
  fourth_refused, redelivery-counts_twice,
}
use go_fintech_microservices.Query.Service.Ledger.Movements.{
  Admissible, Left, handle_event-IsBalanced,
}

abbrev created_a : WalletCreated
created_a = record { wallet_id = 101; user_id = 1; currency = "BRL" }

abbrev deposit_a : FundsMoved
deposit_a = record {
  wallet_id = 101;
  amount_cents = pos 500;
  description = "salary";
  version = pos 2;
  event_id = 301;
  occurred_at = 90;
}

-- Bytes that are movements.
abbrev movements : QueryCodec FundsMoved
movements = record {
  parse_uuid = λ s. some 301;
  unmarshal_created = λ v. none;
  unmarshal_moved = some;
  unmarshal_completed = λ v. none;
}

abbrev deposit_record : Record FundsMoved
deposit_record = record {
  headers = ("event_type", "FundsDeposited") ∷ ("event_id", "0000-0301") ∷ [];
  value = deposit_a;
}

abbrev nothing_projected : QueryTables
nothing_projected = record { balances = []; entries = []; stats = []; processed = [] }

abbrev projection_a : BalanceProjection
projection_a = opened 80 created_a

abbrev opened_a : QueryTables
opened_a = record { balances = projection_a ∷ []; entries = []; stats = []; processed = [] }

nothing_projected-IsBalanced : IsBalanced nothing_projected
unfolding total_from
nothing_projected-IsBalanced = record { balanced = λ p k h. ground arith; unopened = λ k h. refl }

opened_a-IsBalanced : IsBalanced opened_a
unfolding put_balance upsert
opened_a-IsBalanced =
    put_balance-IsBalanced projection_a nothing_projected refl refl nothing_projected-IsBalanced

opened_a-Admissible : (e : QueryEvent) → Reads movements deposit_record e → Admissible opened_a e
opened_a-Admissible _ (created p is payload) = ground arith
opened_a-Admissible _ (deposited p is payload) = refl
opened_a-Admissible _ (withdrawn p is payload) = refl
opened_a-Admissible _ (completed p is payload) = tt

handle_event-Triple_example :
    Triple
      (λ t. t ≡ opened_a)
      (handle_event movements 91 deposit_record)
      (λ _ t. Handled movements deposit_record 91 opened_a t)
      (Failed movements deposit_record 91 opened_a)
handle_event-Triple_example = handle_event-Triple movements deposit_record 91 opened_a

handle_event-IsBalanced_example :
    Triple
      (λ t. t ≡ opened_a)
      (handle_event movements 91 deposit_record)
      (λ _ t. IsBalanced t)
      (Left movements deposit_record 91 opened_a)
handle_event-IsBalanced_example =
    handle_event-IsBalanced movements deposit_record 91 opened_a opened_a-IsBalanced
      opened_a-Admissible

redelivery-counts_twice_example :
    let first = handle_event movements 91 deposit_record (fourth_refused opened_a) in
    let second = handle_event movements 92 deposit_record (smooth first.1.tables) in
    (first.0 ≡ err (wrap internal "append statement" driver_error))
    × (second.0 ≡ ok tt)
    × (q : BalanceProjection) × (row_at wallet_of 101 second.1.tables.balances ≡ some q)
    × (q.balance_cents ≡ add64 (total 101 second.1.tables) (pos 500))
unfolding header_value
redelivery-counts_twice_example =
    redelivery-counts_twice movements deposit_record 91 92 "DEPOSIT" add64 deposit_a 301 opened_a
      projection_a (deposited deposit_a refl refl) refl refl refl refl opened_a-IsBalanced
