-- ===== src/Wallet/Saga/Redelivery.antt =====
-- A record that was handled and is delivered again changes nothing.
use go_fintech_microservices.Prelude.{
  ◌≡◌, refl, ◌⊎◌, inl, inr, ap, sym, ◌∙◌, Bool, true, false, none, some, Uuid, str_eq, Option-cases,
}
use go_fintech_microservices.Exec.{Exec, ok, ◌>>◌}
use go_fintech_microservices.Db.Laws.{
  Triple, Triple-bind, Triple-pure, Triple-if, Triple-given, Triple-any, Triple-weaken, Ends-ok,
}
use go_fintech_microservices.Db.Statements.{Triple-select}
use go_fintech_microservices.Kafka.{Record, event_type_of, event_id_of}
use go_fintech_microservices.Wallet.Domain.{EventCodec}
use go_fintech_microservices.Wallet.Store.{WalletTables, WalletDb}
use go_fintech_microservices.Wallet.Outbox
use go_fintech_microservices.Wallet.Outbox.{has_processed}
use go_fintech_microservices.Wallet.Saga.{
  SagaCodec, Supply, handle_transaction_initiated, handle_transaction_completed, dispatch,
  handle_event, handle,
}

module _ {Bytes : Type 0} (codec : EventCodec Bytes) (saga : SagaCodec Bytes)
    (t₀ : WalletTables Bytes) (r : Record Bytes) where
  -- The event has nothing left to do.
  data IsSpent : Type 0 where
    invalid_id : saga.parse_uuid (event_id_of r) ≡ none → IsSpent
    seen :
        (id : Uuid)
        → saga.parse_uuid (event_id_of r) ≡ some id
        → has_processed id t₀ ≡ true
        → IsSpent
    untyped :
        str_eq (event_type_of r) "TransactionInitiated" ≡ false
        → str_eq (event_type_of r) "TransactionCompleted" ≡ false
        → IsSpent

  unhandled-Triple :
      (supply : Supply) (id : Uuid)
      → (has_processed id t₀ ≡ true)
        ⊎ ((str_eq (event_type_of r) "TransactionInitiated" ≡ false)
            × (str_eq (event_type_of r) "TransactionCompleted" ≡ false))
      → Triple (λ t. t ≡ t₀) (handle_event codec saga supply r id) (λ _ t. t ≡ t₀) (λ t. t ≡ t₀)
  unfolding handle_event dispatch Outbox.is_processed
  unhandled-Triple supply id why =
      Triple-bind {R = λ b t. (b ≡ has_processed id t₀) × (t ≡ t₀)} _ _
        (Triple-select _ _ (λ t p. (ap (has_processed id) p, p)) (λ t p. p))
        (λ b.
          Triple-given {F = b ≡ has_processed id t₀} _ (λ t p. p.0)
            (λ e.
              Triple-if b _ _ (λ _. Triple-pure tt (λ t p. p.1))
                (λ fresh.
                  let (not_initiated, not_completed) = untyped_event why (sym e ∙ fresh) in
                  Triple-if (str_eq (event_type_of r) "TransactionInitiated") _ _
                    (λ h. absurd (true_false (sym h ∙ not_initiated)))
                    (λ _.
                      Triple-if (str_eq (event_type_of r) "TransactionCompleted") _ _
                        (λ h. absurd (true_false (sym h ∙ not_completed)))
                        (λ _. Triple-pure tt (λ t p. p.1))))))
    where
      true_false : true ≡ false → ⊥
      true_false h = cc

      untyped_event :
          {b c d : Bool}
          → (b ≡ true) ⊎ ((c ≡ false) × (d ≡ false))
          → b ≡ false
          → (c ≡ false) × (d ≡ false)
      untyped_event (inl h) k = absurd (true_false (sym h ∙ k))
      untyped_event (inr h) k = h

  spent-Triple :
      (supply : Supply)
      → IsSpent
      → Triple (λ t. t ≡ t₀) (handle codec saga supply r) (λ _ t. t ≡ t₀) (λ t. t ≡ t₀)
  unfolding handle
  spent-Triple supply (invalid_id e) = rw (e, handle) (Triple-pure tt (λ t p. p))
  spent-Triple supply (seen id e h) = rw (e, handle) (unhandled-Triple supply id (inl h))
  spent-Triple supply (untyped h k) = elim (Option-cases (saga.parse_uuid (event_id_of r))) [
    | inl e ↦ rw (e, handle) (Triple-pure tt (λ t p. p))
    | inr (id, e) ↦ rw (e, handle) (unhandled-Triple supply id (inr (h, k)))
  ]

module _ {Bytes : Type 0} (codec : EventCodec Bytes) (saga : SagaCodec Bytes) (supply : Supply)
    (r : Record Bytes) where
  -- From any tables, a handling that returns nil leaves the event with nothing left to do.
  Spends : Exec (WalletDb Bytes) (Unit {0}) → Type 0
  Spends m = Triple (λ _. Unit {0}) m (λ _ t. IsSpent codec saga t r) (λ _. Unit {0})

  marks-Spends :
      (id : Uuid) (m : Exec (WalletDb Bytes) (Unit {0}))
      → saga.parse_uuid (event_id_of r) ≡ some id
      → Spends (m >> Outbox.mark_processed id)
  unfolding Spends
  marks-Spends id m parsed = Triple-bind _ _ (Triple-any m) (λ _.
      Triple-weaken _ (λ t p. p) (λ _ t has. seen id parsed has) (λ t q. q)
        (Outbox.mark_processed-has id))

  dispatch-Spends :
      (id : Uuid)
      → saga.parse_uuid (event_id_of r) ≡ some id
      → Spends (dispatch codec saga supply r id)
  unfolding dispatch Spends
  dispatch-Spends id parsed =
      Triple-if _ _ _
        (λ _. marks-Spends id (handle_transaction_initiated codec saga supply r.value) parsed)
        (λ not_initiated.
          Triple-if _ _ _
            (λ _. marks-Spends id (handle_transaction_completed codec saga supply r.value) parsed)
            (λ not_completed. Triple-pure tt (λ t p. untyped not_initiated not_completed)))

  handle_event-Spends :
      (id : Uuid)
      → saga.parse_uuid (event_id_of r) ≡ some id
      → Spends (handle_event codec saga supply r id)
  unfolding handle_event Outbox.is_processed Spends
  handle_event-Spends id parsed =
      Triple-bind {R = λ b t. b ≡ has_processed id t} _ _
        (Triple-select _ _ (λ t p. refl) (λ t p. tt))
        (λ b.
          Triple-if _ _ _ (λ yes. Triple-pure tt (λ t p. seen id parsed (sym p ∙ yes)))
            (λ _. Triple-weaken _ (λ t p. tt) (λ _ t q. q) (λ t q. q) (dispatch-Spends id parsed)))

  handle-Spends : Spends (handle codec saga supply r)
  unfolding handle Spends
  handle-Spends = elim (Option-cases (saga.parse_uuid (event_id_of r))) [
    | inl e ↦ rw (e, handle) (Triple-pure tt (λ t p. invalid_id e))
    | inr (id, e) ↦ rw (e, handle) (handle_event-Spends id e)
  ]

module _ {Bytes : Type 0} (codec : EventCodec Bytes) (saga : SagaCodec Bytes) where
  -- From any database, and for any record whose handling returned nil: handling the same record
  -- again in the tables that it left keeps them unchanged, whether it returns nil or an error,
  -- with any fresh identifiers and any faults.
  pub redelivery-Triple :
      (db : WalletDb Bytes) (first again : Supply) (r : Record Bytes)
      → (handle codec saga first r db).0 ≡ ok tt
      → let left = (handle codec saga first r db).1.tables in
        Triple (λ t. t ≡ left) (handle codec saga again r) (λ _ t. t ≡ left) (λ t. t ≡ left)
  unfolding Spends
  redelivery-Triple db first again r returned =
      spent-Triple codec saga (handle codec saga first r db).1.tables r again (
        Ends-ok (λ _ t. IsSpent codec saga t r) (λ _. Unit {0}) (handle codec saga first r db) tt
          ((handle-Spends codec saga first r).at db tt) returned)
