-- ===== src/Wallet/Saga/Handling.antt =====
-- One handling of a saga event does all that the event asks for, and a second one does nothing.
use go_fintech_microservices.Prelude.{
  ◌-◌, ◌^◌, ◌<◌, ◌≡◌, inl, inr, refl, ap, sym, ◌∙◌, true, false, [], ◌∷◌, ◌++◌, none, some, Uuid,
  Fresh, length, any, ◌==◌, str_eq, Option-cases,
}
use mathlib.Core.Path.{subst}
use go_fintech_microservices.Exec.{Result, Exec, ◌>>◌}
use go_fintech_microservices.Db.Laws.{
  Triple, Triple-bind, Triple-pure, Triple-or_raise, Triple-if, Triple-weaken, Triple-given,
}
use go_fintech_microservices.Db.Statements.{Triple-select}
use go_fintech_microservices.Kafka.{Record, event_type_of, event_id_of}
use go_fintech_microservices.Wallet.Domain.{EventCodec, Wallet}
use go_fintech_microservices.Wallet.Domain.Payloads.{IsEventCodec}
use go_fintech_microservices.Wallet.Store.{WalletTables, WalletDb, WalletOutboxEvent}
use go_fintech_microservices.Wallet.Store.History.{history}
use go_fintech_microservices.Wallet.Store.Consistency.{IsConsistent}
use go_fintech_microservices.Wallet.Service.Changing.{Failed}
use go_fintech_microservices.Wallet.Service.Movements.{Applies, reserve-Applies, credit-Applies}
use go_fintech_microservices.Wallet.Outbox
use go_fintech_microservices.Wallet.Outbox.{has_processed}
use go_fintech_microservices.Wallet.Saga.Effects.{
  Saved, invalid, repeated, other_type, Reserves, Credits, Handled, skipped, reserved, credited,
}
use go_fintech_microservices.Wallet.Saga.{
  SagaCodec, Supply, parse_transfer, outbox_row, handle_transaction_initiated,
  handle_transaction_completed, dispatch, handle_event, handle,
}

module _ {Bytes : Type 0} (codec : EventCodec Bytes) (laws : IsEventCodec codec)
    (saga : SagaCodec Bytes) (t₀ : WalletTables Bytes) where
  module _ (c : IsConsistent codec t₀)
      (room : (wallet_id : Uuid) → length (history wallet_id t₀) < 2 ^ 63 - 1) where
    Failed-consistent :
        (wallet_id : Uuid) (method : Wallet Bytes → Result (Wallet Bytes)) (t : WalletTables Bytes)
        → Failed codec wallet_id t₀ method t
        → IsConsistent codec t
    Failed-consistent wallet_id method t (inl e) = subst (IsConsistent codec) (sym e) c
    Failed-consistent wallet_id method t (inr (w, _, ch)) = ch.consistent

    -- An action that applies a method, and the row that tells of it.
    act_and_save-Triple :
        (fresh : Fresh) (wallet_id : Uuid) (method : Wallet Bytes → Result (Wallet Bytes))
        (action : Exec (WalletDb Bytes) (Unit {0})) (row : WalletOutboxEvent Bytes)
        → row.published_at ≡ none
        → Applies codec laws fresh wallet_id t₀ c (room wallet_id) method action
        → Triple
            (λ t. t ≡ t₀)
            (action >> Outbox.save row)
            (λ _ t. Saved codec saga t₀ wallet_id method row t × (t.processed ≡ t₀.processed))
            (IsConsistent codec)
    act_and_save-Triple fresh wallet_id method action row new applies =
        Triple-bind _ _
          (Triple-weaken _ (λ t p. p) (λ _ t q. q) (Failed-consistent wallet_id method) applies)
          (λ _.
            Triple-weaken _ (λ t p. p) (λ _ t q. q)
              (λ t q. elim q [ inl (w, _, ch) ↦ ch.consistent | inr (s, _) ↦ s.consistent ])
              (Outbox.save-Triple row (λ t (w, e, ch). (
                record {
                  wallet = w;
                  result = e;
                  account_eq = ch.account_eq;
                  consistent = record {
                    numbered = ch.consistent.numbered;
                    opened = ch.consistent.opened;
                    snapped = ch.consistent.snapped;
                  };
                  others = ch.others;
                  outbox = λ i. ch.outbox i ++ record row { published_at = sym new i } ∷ [];
                },
                ch.processed,
              ))))

    module _ (supply : Supply) (r : Record Bytes) where
      parse_transfer-Triple :
          Triple
            (λ t. t ≡ t₀)
            (parse_transfer codec saga r.value)
            (λ p t. (saga.unmarshal_transfer r.value ≡ some p) × (t ≡ t₀))
            (λ t. t ≡ t₀)
      unfolding parse_transfer
      parse_transfer-Triple = Triple-or_raise _ _ (λ p t e q. (e, q)) (λ t q. q)

      initiated-Triple :
          str_eq (event_type_of r) "TransactionInitiated" ≡ true
          → Triple
              (λ t. t ≡ t₀)
              (handle_transaction_initiated codec saga supply r.value)
              (λ _ t. Reserves codec saga t₀ supply r t × (t.processed ≡ t₀.processed))
              (IsConsistent codec)
      unfolding handle_transaction_initiated outbox_row
      initiated-Triple type =
          Triple-bind _ _
            (Triple-weaken _ (λ t p. p) (λ _ t q. q) (λ t e. subst (IsConsistent codec) (sym e) c)
              parse_transfer-Triple)
            (λ p.
              Triple-given {F = saga.unmarshal_transfer r.value ≡ some p} _ (λ t q. q.0)
                (λ e.
                  Triple-weaken _ (λ t q. q.1)
                    (λ _ t q. (record { type = type; payload = p; parsed = e; saved = q.0 }, q.1))
                    (λ t q. q)
                    (act_and_save-Triple supply.event p.source_wallet_id _ _ _ refl (
                      reserve-Applies codec laws supply.event p.source_wallet_id t₀ c
                        (room p.source_wallet_id) p.amount_cents p.transaction_id))))

      completed-Triple :
          str_eq (event_type_of r) "TransactionCompleted" ≡ true
          → Triple
              (λ t. t ≡ t₀)
              (handle_transaction_completed codec saga supply r.value)
              (λ _ t. Credits codec saga t₀ supply r t × (t.processed ≡ t₀.processed))
              (IsConsistent codec)
      unfolding handle_transaction_completed outbox_row
      completed-Triple type =
          Triple-bind _ _
            (Triple-weaken _ (λ t p. p) (λ _ t q. q) (λ t e. subst (IsConsistent codec) (sym e) c)
              parse_transfer-Triple)
            (λ p.
              Triple-given {F = saga.unmarshal_transfer r.value ≡ some p} _ (λ t q. q.0)
                (λ e.
                  Triple-weaken _ (λ t q. q.1)
                    (λ _ t q. (record { type = type; payload = p; parsed = e; saved = q.0 }, q.1))
                    (λ t q. q)
                    (act_and_save-Triple supply.event p.destination_wallet_id _ _ _ refl (
                      credit-Applies codec laws supply.event p.destination_wallet_id t₀ c
                        (room p.destination_wallet_id) p.amount_cents p.transaction_id))))

      Saved-mark :
          (id : Uuid) (wallet_id : Uuid) (method : Wallet Bytes → Result (Wallet Bytes))
          (row : WalletOutboxEvent Bytes) (t : WalletTables Bytes)
          → Saved codec saga t₀ wallet_id method row t
          → Saved codec saga t₀ wallet_id method row
              (record t { processed = t.processed ++ id ∷ [] })
      Saved-mark id wallet_id method row t s = record {
        wallet = s.wallet;
        result = s.result;
        account_eq = s.account_eq;
        consistent = record {
          numbered = s.consistent.numbered;
          opened = s.consistent.opened;
          snapped = s.consistent.snapped;
        };
        others = s.others;
        outbox = s.outbox;
      }

      -- The event is marked after what it asks for is done.
      mark-Triple :
          {P : WalletTables Bytes → Type 0} (id : Uuid) (m : Exec (WalletDb Bytes) (Unit {0}))
          → has_processed id t₀ ≡ false
          → Triple (λ t. t ≡ t₀) m (λ _ t. P t × (t.processed ≡ t₀.processed)) (IsConsistent codec)
          → ((t : WalletTables Bytes) → P t → IsConsistent codec t)
          → ((t : WalletTables Bytes) → P t → P (record t { processed = t.processed ++ id ∷ [] }))
          → Triple
              (λ t. t ≡ t₀)
              (m >> Outbox.mark_processed id)
              (λ _ t. P t × (t.processed ≡ t₀.processed ++ id ∷ []))
              (IsConsistent codec)
      mark-Triple {P} id m new h consistent marked = Triple-bind _ _ h (λ _.
          Triple-weaken _ (λ t p. p) (λ _ t q. q)
            (λ t q. elim q [ inl p ↦ consistent t p.0 | inr p ↦ consistent t p.0 ])
            (Outbox.mark_processed-Triple {Q = λ t. P t × (t.processed ≡ t₀.processed ++ id ∷ [])}
              id (λ t p. ap (any (λ done. done == id)) p.1 ∙ new)
              (λ t p. (marked t p.0, ap (λ ids. ids ++ id ∷ []) p.1))))

      dispatch-Triple :
          (id : Uuid)
          → saga.parse_uuid (event_id_of r) ≡ some id
          → has_processed id t₀ ≡ false
          → Triple
              (λ t. t ≡ t₀)
              (dispatch codec saga supply r id)
              (λ _ t. Handled codec saga t₀ supply r t)
              (IsConsistent codec)
      unfolding dispatch
      dispatch-Triple id parsed new =
          Triple-if _ _ _
            (λ type.
              Triple-weaken _ (λ t p. p) (λ _ t q. reserved id parsed q.1 q.0) (λ t q. q)
                (mark-Triple id _ new (initiated-Triple type) (λ t p. p.saved.consistent)
                  (λ t p. record {
                    type = p.type;
                    payload = p.payload;
                    parsed = p.parsed;
                    saved = Saved-mark id _ _ _ t p.saved;
                  })))
            (λ not_initiated.
              Triple-if _ _ _
                (λ type.
                  Triple-weaken _ (λ t p. p) (λ _ t q. credited id parsed q.1 q.0) (λ t q. q)
                    (mark-Triple id _ new (completed-Triple type) (λ t p. p.saved.consistent)
                      (λ t p. record {
                        type = p.type;
                        payload = p.payload;
                        parsed = p.parsed;
                        saved = Saved-mark id _ _ _ t p.saved;
                      })))
                (λ not_completed.
                  Triple-pure tt (λ t p. skipped (other_type not_initiated not_completed) p)))

      start-consistent : (t : WalletTables Bytes) → t ≡ t₀ → IsConsistent codec t
      start-consistent t e = subst (IsConsistent codec) (sym e) c

      handle_event-Triple :
          (id : Uuid)
          → saga.parse_uuid (event_id_of r) ≡ some id
          → Triple
              (λ t. t ≡ t₀)
              (handle_event codec saga supply r id)
              (λ _ t. Handled codec saga t₀ supply r t)
              (IsConsistent codec)
      unfolding handle_event Outbox.is_processed
      handle_event-Triple id parsed =
          Triple-bind {R = λ b t. (b ≡ has_processed id t₀) × (t ≡ t₀)} _ _
            (Triple-select _ _ (λ t p. (ap (has_processed id) p, p)) start-consistent)
            (λ b.
              Triple-given {F = b ≡ has_processed id t₀} _ (λ t p. p.0)
                (λ e.
                  Triple-if _ _ _
                    (λ yes_done.
                      Triple-pure tt (λ t p. skipped (repeated id parsed (sym e ∙ yes_done)) p.1))
                    (λ not_done.
                      Triple-weaken _ (λ t p. p.1) (λ _ t q. q) (λ t q. q)
                        (dispatch-Triple id parsed (sym e ∙ not_done)))))

      -- With payloads that JSON reads back as written: from consistent tables with room for one
      -- more version, a saga record whose handling returns nil was either skipped without a change
      -- (invalid identifier, already processed, other type), or ran Reserve on the source's
      -- account (TransactionInitiated) or Deposit on the destination's (TransactionCompleted) with
      -- the payload's amount, changed no other wallet, added one outbox row and marked the event
      -- as processed; a handling that fails leaves the tables consistent.
      pub handle-Triple :
          Triple
            (λ t. t ≡ t₀)
            (handle codec saga supply r)
            (λ _ t. Handled codec saga t₀ supply r t)
            (IsConsistent codec)
      unfolding handle
      handle-Triple = elim (Option-cases (saga.parse_uuid (event_id_of r))) [
        | inl e ↦ rw (e, handle) (Triple-pure tt (λ t p. skipped (invalid e) p))
        | inr (id, e) ↦ rw (e, handle) (handle_event-Triple id e)
      ]
