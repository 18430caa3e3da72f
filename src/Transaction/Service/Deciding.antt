-- ===== src/Transaction/Service/Deciding.antt =====
-- `CompleteTransaction` and `FailTransaction`: a pending transaction is decided, any other is left.
use go_fintech_microservices.Prelude.{
  ◌≡◌, refl, sym, ◌∙◌, ◌⊎◌, inl, inr, false, not, some, some-inj, String, Uuid, Instant, Fresh, map,
}
use go_fintech_microservices.Errors.{GoError, conflict, new_error}
use go_fintech_microservices.Exec.{raise_if, ◌>>=◌, ◌>>◌}
use go_fintech_microservices.Db.Laws.{
  Triple, Triple-or_raise, Triple-given, Triple-weaken, Triple-bind, Triple-raise_if,
}
use go_fintech_microservices.Db.Statements.{Triple-select, Triple-write}
use go_fintech_microservices.Transaction.Domain
use go_fintech_microservices.Transaction.Domain.{
  Transaction, Status, pending, completed, failed, compensated, other, OutboxEvent, EventType,
}
use go_fintech_microservices.Transaction.Store.{
  TransactionTables, announced, update_row, find_by_id, update, save_event,
}
use go_fintech_microservices.Transaction.Lifecycle.{row_of}
use go_fintech_microservices.Transaction.Service.{
  TransactionCodec, is_pending, outbox_event, complete_transaction, fail_transaction,
}
use go_fintech_microservices.Transaction.Service.Requests.{save_event-Triple}

is_pending-eq : (s : Status) → not (is_pending s) ≡ false → s ≡ pending
is_pending-eq pending e = refl
is_pending-eq completed e = cc
is_pending-eq failed e = cc
is_pending-eq compensated e = cc
is_pending-eq (other s) e = cc

module _ {Bytes : Type 0} where
  abbrev pub updated : Transaction → TransactionTables Bytes → TransactionTables Bytes
  updated tx t = record t { transactions = map (update_row tx) t.transactions }

module _ {Bytes : Type 0} (t₀ : TransactionTables Bytes) (id : Uuid) where
  pub find_by_id-Triple :
      Triple
        (λ t. t ≡ t₀)
        (find_by_id id)
        (λ tx t. (row_of id t₀ ≡ some tx) × (t ≡ t₀))
        (λ t. t ≡ t₀)
  unfolding find_by_id
  find_by_id-Triple =
      Triple-bind _ _
        (Triple-select {Q = λ o t. (o ≡ row_of id t₀) × (t ≡ t₀)} _ _ (λ t p. rw p (refl, refl))
          (λ t p. p))
        (λ o. Triple-or_raise _ o (λ tx t e p. (sym p.0 ∙ e, p.1)) (λ t p. p.1))

  module _ (decide : Transaction → Transaction) (event : Transaction → OutboxEvent Bytes) where
    -- The row was pending, and is decided with its event stored.
    pub record Decided (t : TransactionTables Bytes) : Type 0 where
      pub transaction : Transaction
      pub found : row_of id t₀ ≡ some transaction
      pub was_pending : transaction.status ≡ pending
      pub tables : t ≡ announced (event transaction) (updated (decide transaction) t₀)

    -- An error leaves the tables, or a pending row that is decided without its event or with it.
    abbrev pub Undecided : TransactionTables Bytes → Type 0
    Undecided t =
        (t ≡ t₀)
        ⊎ (((tx : Transaction) × (row_of id t₀ ≡ some tx)
              × (tx.status ≡ pending)
              × (t ≡ updated (decide tx) t₀))
            ⊎ Decided t)

    -- What follows the check of the status.
    update-Triple :
        (tx : Transaction)
        → row_of id t₀ ≡ some tx
        → tx.status ≡ pending
        → Triple (λ t. t ≡ t₀) (update (decide tx)) (λ _ t. t ≡ updated (decide tx) t₀) Undecided
    unfolding update
    update-Triple tx found was =
        Triple-write _ _ (λ t t' p h. sym (some-inj h) ∙ (λ i. updated (decide tx) (p i)))
          (λ t t' p h.
            inr (inl (tx, found, was, sym (some-inj h) ∙ (λ i. updated (decide tx) (p i)))))
          (λ t p. inl p)

    announce-Triple :
        (tx : Transaction)
        → row_of id t₀ ≡ some tx
        → tx.status ≡ pending
        → Triple
            (λ t. t ≡ updated (decide tx) t₀)
            (save_event (event tx))
            (λ _ t. Decided t)
            Undecided
    announce-Triple tx found was =
        Triple-weaken _ (λ t p. p) (λ _ t d. d)
          (λ t h. elim h [ inl p ↦ inr (inl (tx, found, was, p)) | inr d ↦ inr (inr d) ])
          (save_event-Triple {Q = Decided} (event tx) (λ t p. record {
            transaction = tx;
            found = found;
            was_pending = was;
            tables = rw p refl;
          }))

    decide-Triple :
        (e : GoError)
        → Triple
            (λ t. t ≡ t₀)
            (do
              tx ← find_by_id id
              raise_if (not (is_pending tx.status)) e
              update (decide tx)
              save_event (event tx))
            (λ _. Decided)
            Undecided
    decide-Triple e =
        Triple-bind _ _ (Triple-weaken _ (λ t p. p) (λ _ t p. p) (λ t p. inl p) find_by_id-Triple)
          (λ tx.
            Triple-given {F = row_of id t₀ ≡ some tx} _ (λ t p. p.0)
              (λ found.
                Triple-bind _ _
                  (Triple-weaken _ (λ t p. p.1) (λ _ t p. p) (λ t p. inl p) (Triple-raise_if _ _))
                  (λ _.
                    Triple-given {F = tx.status ≡ pending} _ (λ t p. is_pending-eq tx.status p.0)
                      (λ was.
                        Triple-bind _ _
                          (Triple-weaken _ (λ t p. p.1) (λ _ t p. p) (λ t p. p)
                            (update-Triple tx found was))
                          (λ _. announce-Triple tx found was)))))

module _ {Bytes : Type 0} (codec : TransactionCodec Bytes) (fresh : Fresh) (now : Instant) where
  abbrev pub completion : Transaction → OutboxEvent Bytes
  completion tx = outbox_event codec fresh tx EventType.transaction_completed (
      codec.marshal_completed (record {
        transaction_id = tx.id;
        source_wallet_id = tx.source_wallet_id;
        destination_wallet_id = tx.destination_wallet_id;
        amount_cents = tx.amount_cents;
      }))

  abbrev pub failure : String → Transaction → OutboxEvent Bytes
  failure reason tx = outbox_event codec fresh tx EventType.transaction_failed (
      codec.marshal_failed (record {
        transaction_id = tx.id;
        source_wallet_id = tx.source_wallet_id;
        reason = reason;
      }))

  module _ (t₀ : TransactionTables Bytes) (id : Uuid) where
    pub complete_transaction-Triple :
        Triple
          (λ t. t ≡ t₀)
          (complete_transaction codec now fresh id)
          (λ _. Decided t₀ id (Domain.complete now) completion)
          (Undecided t₀ id (Domain.complete now) completion)
    unfolding complete_transaction
    complete_transaction-Triple =
        decide-Triple t₀ id (Domain.complete now) completion
          (new_error conflict "transaction not in pending state")

    pub fail_transaction-Triple :
        (reason : String)
        → Triple
            (λ t. t ≡ t₀)
            (fail_transaction codec now fresh id reason)
            (λ _. Decided t₀ id (Domain.fail now reason) (failure reason))
            (Undecided t₀ id (Domain.fail now reason) (failure reason))
    unfolding fail_transaction
    fail_transaction-Triple reason =
        decide-Triple t₀ id (Domain.fail now reason) (failure reason)
          (new_error conflict "transaction not in pending state")
