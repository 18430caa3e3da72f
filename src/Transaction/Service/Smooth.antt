-- ===== src/Transaction/Service/Smooth.antt =====
-- The calls of `TransactionService` and what they return and leave, while nothing fails.
use go_fintech_microservices.Prelude.{
  arith, ◌≡◌, refl, sym, ap, ◌∙◌, inl, inr, some-inj, true, false, not, Bool-cases, ==_refl, List,
  [], ◌∷◌, ◌++◌, map, Option, none, some, String, Uuid, nil_uuid, Instant, Fresh, any, ◌==◌, str_eq,
}
use go_fintech_microservices.Errors.{not_found, new_error}
use go_fintech_microservices.Exec.{ok, err, or_raise}
use go_fintech_microservices.Db.Smooth.{
  smooth, Runs, Runs-select, Runs-or_raise, Runs-or_raise-none, Runs-pure, Runs-lift, Runs-write,
  Runs-raise_if, Runs-bind, Runs-attempt,
}
use go_fintech_microservices.Transaction.Domain
use go_fintech_microservices.Transaction.Domain.{Transaction, pending, OutboxEvent, EventType}
use go_fintech_microservices.Transaction.Store.{
  TransactionTables, find, has_id, has_key, clashes, update_row, insert, insert_event, saved,
  announced, save, update, save_event, find_by_id, find_by_idempotency_key,
}
use go_fintech_microservices.Transaction.Lifecycle.{update_row-id}
use go_fintech_microservices.Transaction.Service.{
  FraudChecker, TransactionCodec, TransferRequest, Supply, result_of, is_pending, outbox_event,
  decided, fraud_check, start_transfer, existing_or_start, initiate_transfer, complete_transaction,
}
use go_fintech_microservices.Transaction.Service.Requests.{new_transaction-IsTransfer}
use go_fintech_microservices.Transaction.Service.Starting.{made}

pub find-saved :
    (tx : Transaction) (rows : List Transaction)
    → any (clashes tx) rows ≡ false
    → find (has_id tx.id) (rows ++ tx ∷ []) ≡ some tx
find-saved tx [] h = rw (==_refl tx.id) refl
find-saved tx (row ∷ rows) h = ground (arith, find-saved tx rows)

find-key :
    (tx : Transaction) (rows : List Transaction)
    → str_eq tx.idempotency_key "" ≡ false
    → any (clashes tx) rows ≡ false
    → find (has_key tx.idempotency_key) rows ≡ none
find-key tx [] n h = refl
find-key tx (row ∷ rows) n h = ground (arith, find-key tx rows)

find_first :
    (id : Uuid) (row : Transaction) (rows : List Transaction)
    → (row.id == id) ≡ true
    → find (has_id id) (row ∷ rows) ≡ some row
find_first id row rows e = rw e refl

find_later :
    (id : Uuid) (row : Transaction) (rows : List Transaction)
    → (row.id == id) ≡ false
    → find (has_id id) (row ∷ rows) ≡ find (has_id id) rows
find_later id row rows e = rw e refl

-- The updated row is found under its identifier.
pub find-update_row :
    (u : Transaction) (rows : List Transaction) {row : Transaction}
    → find (has_id u.id) rows ≡ some row
    → find (has_id u.id) (map (update_row u) rows) ≡ some (update_row u row)
find-update_row u [] h = ground arith
find-update_row u (x ∷ rows) {row} h = elim (Bool-cases (x.id == u.id)) [
  | inl e ↦
      find_first u.id (update_row u x) (map (update_row u) rows)
        (ap (λ i. i == u.id) (update_row-id u x) ∙ e)
      ∙ ap (λ r. some (update_row u r)) (some-inj (sym (find_first u.id x rows e) ∙ h))
  | inr e ↦
      find_later u.id (update_row u x) (map (update_row u) rows)
        (ap (λ i. i == u.id) (update_row-id u x) ∙ e)
      ∙ find-update_row u rows (sym (find_later u.id x rows e) ∙ h)
]

module _ {Bytes : Type 0} where
  pub find_by_id-Runs :
      (id : Uuid) (tx : Transaction) (t : TransactionTables Bytes)
      → find (has_id id) t.transactions ≡ some tx
      → Runs (find_by_id id) t (ok tx) t
  unfolding find_by_id
  find_by_id-Runs id tx t h =
      Runs-bind _ (or_raise (new_error not_found "transaction not found")) _ _ t t t
        (Runs-select "find transaction" (λ t. find (has_id id) t.transactions) t)
        (Runs-or_raise _ _ tx t h)

  find_by_key-Runs :
      (key : String) (t : TransactionTables Bytes)
      → find (has_key key) t.transactions ≡ none
      → Runs (find_by_idempotency_key key) t (err (new_error not_found "transaction not found")) t
  unfolding find_by_idempotency_key
  find_by_key-Runs key t h =
      Runs-bind _ (or_raise (new_error not_found "transaction not found")) _ _ t t t
        (Runs-select "find transaction by idempotency key" (λ t. find (has_key key) t.transactions)
          t)
        (Runs-or_raise-none _ _ t h)

  save_event-Runs :
      (e : OutboxEvent Bytes) (t : TransactionTables Bytes)
      → any (λ row. row.id == e.id) t.outbox ≡ false
      → Runs (save_event e) t (ok tt) (announced e t)
  unfolding save_event insert_event
  save_event-Runs e t new =
      Runs-write "save outbox event" (insert_event e) t (announced e t) (rw new refl)

-- The fraud service lets the transfer pass, or there is none.
abbrev pub Approves : Option FraudChecker → Transaction → Type 0
Approves none tx = Unit
Approves (some evaluate) tx =
    (decision : String) × (evaluate tx.id nil_uuid tx.source_wallet_id tx.amount_cents
      ≡ ok decision)
    × (str_eq decision "REJECTED" ≡ false)

abbrev pub initiated_payload : Transaction → Domain.TransactionInitiatedPayload
initiated_payload tx = record {
  transaction_id = tx.id;
  source_wallet_id = tx.source_wallet_id;
  destination_wallet_id = tx.destination_wallet_id;
  amount_cents = tx.amount_cents;
  description = tx.description;
}

module _ {Bytes : Type 0} (codec : TransactionCodec Bytes) (fraud : Option FraudChecker)
    (t : TransactionTables Bytes) where
  fraud_check-Runs :
      (f : Option FraudChecker) (tx : Transaction)
      → Approves f tx
      → Runs (fraud_check codec f tx) t (ok tt) t
  unfolding fraud_check decided
  fraud_check-Runs none tx approved = Runs-pure tt t
  fraud_check-Runs (some evaluate) tx (decision, answer, passes) = record {
    runs = ap (λ r. decided codec r (smooth t)) answer ∙ (Runs-raise_if _ _ t passes).runs;
  }

  module _ (supply : Supply) (q : TransferRequest) (tx : Transaction) (payload : Bytes) where
    abbrev pub begun_event : OutboxEvent Bytes
    begun_event = outbox_event codec supply.outbox tx EventType.transaction_initiated payload

    start_transfer-Runs :
        made codec t supply q ≡ ok tx
        → Approves fraud tx
        → codec.marshal_initiated (initiated_payload tx) ≡ some payload
        → any (clashes tx) t.transactions ≡ false
        → any (λ row. row.id == supply.outbox.id) t.outbox ≡ false
        → Runs
            (start_transfer codec fraud supply q)
            t
            (ok (result_of tx))
            (announced begun_event (saved tx t))
    unfolding start_transfer save insert outbox_event
    start_transfer-Runs valid approved marshalled new new_event =
        Runs-bind _ _ _ _ t t _ (Runs-lift _ _ t valid) (
          Runs-bind _ _ _ _ t t _ (fraud_check-Runs fraud tx approved) (
            Runs-bind _ _ _ _ t t _ (Runs-or_raise _ _ payload t marshalled) (
              Runs-bind _ _ _ _ t (saved tx t) _
                (Runs-write "save transaction" (insert tx) t (saved tx t) (rw new refl))
                (Runs-bind _ _ _ _ (saved tx t) _ _
                  (save_event-Runs begun_event (saved tx t) new_event) (Runs-pure _ _)))))

    pub initiate_transfer-Runs :
        made codec t supply q ≡ ok tx
        → Approves fraud tx
        → codec.marshal_initiated (initiated_payload tx) ≡ some payload
        → any (clashes tx) t.transactions ≡ false
        → any (λ row. row.id == supply.outbox.id) t.outbox ≡ false
        → Runs
            (initiate_transfer codec fraud supply q)
            t
            (ok (result_of tx))
            (announced begun_event (saved tx t))
    unfolding initiate_transfer existing_or_start
    initiate_transfer-Runs valid approved marshalled new new_event =
        elim (Bool-cases (str_eq q.idempotency_key "")) [
          | inl empty ↦ rw (empty, initiate_transfer) start
          | inr given ↦
              rw (given, initiate_transfer)
                (Runs-attempt _ (existing_or_start codec fraud supply q) _ _ t t _
                  (find_by_key-Runs q.idempotency_key t (unknown_key given)) start)
        ]
      where
        start :
            Runs
              (start_transfer codec fraud supply q)
              t
              (ok (result_of tx))
              (announced begun_event (saved tx t))
        start = start_transfer-Runs valid approved marshalled new new_event

        key : tx.idempotency_key ≡ q.idempotency_key
        key =
            (new_transaction-IsTransfer supply.transaction q.source_wallet_id q.dest_wallet_id
              q.amount_cents q.description q.idempotency_key valid).2

        unknown_key :
            str_eq q.idempotency_key "" ≡ false
            → find (has_key q.idempotency_key) t.transactions ≡ none
        unknown_key given =
            ap (λ k. find (has_key k) t.transactions) (sym key)
            ∙ find-key tx t.transactions (ap (λ k. str_eq k "") key ∙ given) new

module _ {Bytes : Type 0} (codec : TransactionCodec Bytes) where
  pub completed_payload : Transaction → Domain.TransactionCompletedPayload
  completed_payload tx = record {
    transaction_id = tx.id;
    source_wallet_id = tx.source_wallet_id;
    destination_wallet_id = tx.destination_wallet_id;
    amount_cents = tx.amount_cents;
  }

  abbrev completed_event : Fresh → Transaction → OutboxEvent Bytes
  completed_event fresh tx =
      outbox_event codec fresh tx EventType.transaction_completed
        (codec.marshal_completed (completed_payload tx))

  abbrev pub completed_tables :
      Instant → Fresh → Transaction → TransactionTables Bytes → TransactionTables Bytes
  completed_tables now fresh tx t =
      announced (completed_event fresh tx)
        (record t { transactions = map (update_row (Domain.complete now tx)) t.transactions })

  pub complete_transaction-Runs :
      (now : Instant) (fresh : Fresh) (tx : Transaction) (t : TransactionTables Bytes)
      → find (has_id tx.id) t.transactions ≡ some tx
      → is_pending tx.status ≡ true
      → any (λ row. row.id == fresh.id) t.outbox ≡ false
      → Runs
          (complete_transaction codec now fresh tx.id)
          t
          (ok tt)
          (completed_tables now fresh tx t)
  unfolding complete_transaction update outbox_event completed_payload
  complete_transaction-Runs now fresh tx t found is_open new_event =
      Runs-bind _ _ _ _ t t _ (find_by_id-Runs tx.id tx t found) (
        Runs-bind _ _ _ _ t t _ (Runs-raise_if _ _ t (ap not is_open)) (
          Runs-bind _ _ _ _ t _ _
            (Runs-write "update transaction"
              (λ t. some (record t {
                transactions = map (update_row (Domain.complete now tx)) t.transactions;
              }))
              t
              (record t { transactions = map (update_row (Domain.complete now tx)) t.transactions })
              refl)
            (save_event-Runs (completed_event fresh tx)
              (record t { transactions = map (update_row (Domain.complete now tx)) t.transactions })
              new_event)))
