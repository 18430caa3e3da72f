-- ===== src/Transaction/Service/Starting.antt =====
-- `InitiateTransfer`: what it leaves, and what it does with a key that is known.
use go_fintech_microservices.Prelude.{
  ◌≡◌, refl, sym, ap, ◌∙◌, ◌⊎◌, inl, inr, false, Option, none, some, some-inj, String, nil_uuid,
  any, str_eq,
}
use go_fintech_microservices.Exec.{Result, ok, err, pure, ◌>>◌}
use go_fintech_microservices.Db.Laws.{
  Triple, Triple-pure, Triple-lift, Triple-or_raise, Triple-raise, Triple-if, Triple-given,
  Triple-weaken, Triple-bind, Triple-attempt, Triple-raise_if,
}
use go_fintech_microservices.Db.Statements.{Triple-select, Triple-write}
use go_fintech_microservices.Transaction.Domain
use go_fintech_microservices.Transaction.Domain.{Transaction, pending, OutboxEvent, EventType}
use go_fintech_microservices.Transaction.Store.{
  TransactionTables, find, has_key, clashes, insert, insert-eq, saved, announced, save, save_event,
  find_by_idempotency_key,
}
use go_fintech_microservices.Transaction.Service.{
  FraudChecker, TransactionCodec, InitiateResult, TransferRequest, Supply, result_of, outbox_event,
  decided, fraud_check, start_transfer, existing_or_start, initiate_transfer,
}
use go_fintech_microservices.Transaction.Service.Requests.{
  new_transaction-IsTransfer, new_transaction-request, no_clash, save_event-Triple,
}

module _ {Bytes : Type 0} (codec : TransactionCodec Bytes) (t₀ : TransactionTables Bytes) where
  fraud_check-Triple :
      (fraud : Option FraudChecker) (tx : Transaction) {P : TransactionTables Bytes → Type 0}
      → Triple P (fraud_check codec fraud tx) (λ _ t. P t) P
  unfolding fraud_check decided
  fraud_check-Triple none tx = Triple-pure tt (λ t p. p)
  fraud_check-Triple (some evaluate) tx {P} =
      decided-Triple (evaluate tx.id nil_uuid tx.source_wallet_id tx.amount_cents)
    where
      decided-Triple : (r : Result String) → Triple P (decided codec r) (λ _ t. P t) P
      decided-Triple (err e) = Triple-raise _ (λ t p. p)
      decided-Triple (ok d) =
          Triple-weaken _ (λ t p. p) (λ _ t p. p.1) (λ t p. p) (Triple-raise_if _ _)

  module _ (supply : Supply) (q : TransferRequest) where
    abbrev pub made : Result Transaction
    made =
        Domain.new_transaction supply.transaction q.source_wallet_id q.dest_wallet_id q.amount_cents
          q.description q.idempotency_key

    abbrev pub announcement : Transaction → Bytes → OutboxEvent Bytes
    announcement tx payload =
        outbox_event codec supply.outbox tx EventType.transaction_initiated payload

    -- The event by which the fraud and wallet services learn of the transaction: its payload is
    -- the JSON of the two wallets, the amount and the description, under the source's key.
    pub record Announces (tx : Transaction) (e : OutboxEvent Bytes) : Type 0 where
      pub payload :
          codec.marshal_initiated (record {
            transaction_id = tx.id;
            source_wallet_id = q.source_wallet_id;
            destination_wallet_id = q.dest_wallet_id;
            amount_cents = q.amount_cents;
            description = q.description;
          })
          ≡ some e.payload
      pub topic : e.topic ≡ "transactions"
      pub key : e.key ≡ codec.show_uuid q.source_wallet_id
      pub type : e.event_type ≡ EventType.transaction_initiated
      pub unpublished : e.published_at ≡ none

    -- The row is stored without its event, or with it.
    pub data Begun (tx : Transaction) (t : TransactionTables Bytes) : Type 0 where
      half : t ≡ saved tx t₀ → Begun tx t
      whole : (e : OutboxEvent Bytes) → Announces tx e → t ≡ announced e (saved tx t₀) → Begun tx t

    abbrev initiated : Transaction → Domain.TransactionInitiatedPayload
    initiated tx = record {
      transaction_id = tx.id;
      source_wallet_id = tx.source_wallet_id;
      destination_wallet_id = tx.destination_wallet_id;
      amount_cents = tx.amount_cents;
      description = tx.description;
    }

    announcement-Announces :
        (tx : Transaction) (payload : Bytes)
        → made ≡ ok tx
        → codec.marshal_initiated (initiated tx) ≡ some payload
        → Announces tx (announcement tx payload)
    unfolding outbox_event
    announcement-Announces tx payload e marshalled =
        let asked =
          new_transaction-request supply.transaction q.source_wallet_id q.dest_wallet_id
            q.amount_cents q.description q.idempotency_key e in
        record {
          payload =
              ap
                (λ (v : Transaction).
                  codec.marshal_initiated (record (initiated v) { transaction_id = tx.id }))
                (sym asked)
              ∙ marshalled;
          topic = refl;
          key = ap (λ (v : Transaction). codec.show_uuid v.source_wallet_id) asked;
          type = refl;
          unpublished = refl;
        }

    -- A reply stands for a new transaction, stored together with its event.
    pub record Started (r : InitiateResult) (t : TransactionTables Bytes) : Type 0 where
      pub transaction : Transaction
      pub made_of : made ≡ ok transaction
      pub requested : transaction ≡ record {
        id = supply.transaction.id;
        source_wallet_id = q.source_wallet_id;
        destination_wallet_id = q.dest_wallet_id;
        amount_cents = q.amount_cents;
        description = q.description;
        status = pending;
        failure_reason = "";
        idempotency_key = q.idempotency_key;
        created_at = supply.transaction.now;
        updated_at = supply.transaction.now;
      }
      pub fresh : any (clashes transaction) t₀.transactions ≡ false
      pub reply : r ≡ result_of transaction
      pub event : OutboxEvent Bytes
      pub announces : Announces transaction event
      pub tables : t ≡ announced event (saved transaction t₀)

    -- An error leaves nothing, or the transaction that was being stored.
    abbrev pub Unstarted : TransactionTables Bytes → Type 0
    Unstarted t =
        (t ≡ t₀)
        ⊎ ((tx : Transaction) × (made ≡ ok tx)
            × (any (clashes tx) t₀.transactions ≡ false)
            × Begun tx t)

    stored :
        (tx : Transaction) (t t' : TransactionTables Bytes)
        → t ≡ t₀
        → insert tx t ≡ some t'
        → (any (clashes tx) t₀.transactions ≡ false) × (t' ≡ saved tx t₀)
    stored tx t t' p f = insert-eq tx t₀ t' (sym (λ i. insert tx (p i)) ∙ f)

    -- The row, then its event.
    storing-Triple :
        (tx : Transaction) (event : OutboxEvent Bytes)
        → made ≡ ok tx
        → Announces tx event
        → Triple (λ t. t ≡ t₀) (do save tx; save_event event; pure (result_of tx)) Started Unstarted
    unfolding save
    storing-Triple tx event e told =
        Triple-bind _ _
          (Triple-write {Q = λ _ t. (any (clashes tx) t₀.transactions ≡ false) × (t ≡ saved tx t₀)}
            _ _ (λ t t' p f. stored tx t t' p f)
            (λ t t' p f. let (c, s) = stored tx t t' p f in inr (tx, e, c, half s)) (λ t p. inl p))
          (λ _.
            Triple-given {F = any (clashes tx) t₀.transactions ≡ false} _ (λ t p. p.0)
              (λ c.
                Triple-bind _ _
                  (Triple-weaken _ (λ t p. p.1) (λ _ t p. p)
                    (λ t p. inr (tx, e, c, elim p [ inl s ↦ half s | inr s ↦ whole event told s ]))
                    (save_event-Triple {Q = λ t. t ≡ announced event (saved tx t₀)} event
                      (λ t s. rw s refl)))
                  (λ _. Triple-pure _ (λ t s. record {
                    transaction = tx;
                    made_of = e;
                    requested =
                        new_transaction-request supply.transaction q.source_wallet_id
                          q.dest_wallet_id q.amount_cents q.description q.idempotency_key e;
                    fresh = c;
                    reply = refl;
                    event = event;
                    announces = told;
                    tables = s;
                  }))))

    start_transfer-Triple :
        (fraud : Option FraudChecker)
        → Triple (λ t. t ≡ t₀) (start_transfer codec fraud supply q) Started Unstarted
    unfolding start_transfer
    start_transfer-Triple fraud =
        Triple-bind _ _
          (Triple-lift {Q = λ tx t. (made ≡ ok tx) × (t ≡ t₀)} made (λ tx t e p. (e, p))
            (λ t p. inl p))
          (λ tx.
            Triple-given {F = made ≡ ok tx} _ (λ t p. p.0)
              (λ e.
                Triple-bind _ _
                  (Triple-weaken _ (λ t p. p.1) (λ _ t p. p) (λ t p. inl p)
                    (fraud_check-Triple fraud tx))
                  (λ _.
                    Triple-bind _ _
                      (Triple-or_raise
                        {Q = λ b t. (codec.marshal_initiated (initiated tx) ≡ some b) × (t ≡ t₀)} _
                        _ (λ b t f p. (f, p)) (λ t p. inl p))
                      (λ payload.
                        Triple-given {F = codec.marshal_initiated (initiated tx) ≡ some payload} _
                          (λ t p. p.0)
                          (λ marshalled.
                            Triple-weaken _ (λ t p. p.1) (λ _ t p. p) (λ t p. p)
                              (storing-Triple tx (announcement tx payload) e
                                (announcement-Announces tx payload e marshalled)))))))

    -- From any tables, an InitiateTransfer that returns a reply stored the transaction that
    -- NewTransaction makes of the request (pending, with the request's wallets, amount,
    -- description and key) and one event for it (unpublished, of type TransactionInitiated, in the
    -- topic transactions under the source wallet's key, with the JSON of the transaction's
    -- identifier and the request's wallets, amount and description), or reports a stored
    -- transaction that has the key and changed nothing; one that fails left the tables, or stored
    -- the new transaction without its event or with it.
    pub initiate_transfer-Triple :
        (fraud : Option FraudChecker)
        → Triple
            (λ t. t ≡ t₀)
            (initiate_transfer codec fraud supply q)
            (λ r t.
              Started r t
              ⊎ ((tx : Transaction) × (find (has_key q.idempotency_key) t₀.transactions ≡ some tx)
                  × (r ≡ result_of tx)
                  × (t ≡ t₀)))
            Unstarted
    unfolding initiate_transfer existing_or_start find_by_idempotency_key
    initiate_transfer-Triple fraud =
        Triple-if (str_eq q.idempotency_key "") _ _
          (λ _.
            Triple-weaken _ (λ t p. p) (λ r t p. inl p) (λ t p. p) (start_transfer-Triple fraud))
          (λ _.
            Triple-attempt
              {R = λ tx t. (find (has_key q.idempotency_key) t₀.transactions ≡ some tx) × (t ≡ t₀)}
              {E' = λ t. t ≡ t₀} _ (existing_or_start codec fraud supply q) lookup
              (λ tx. Triple-pure _ (λ t p. inr (tx, p.0, refl, p.1)))
              (λ e.
                Triple-weaken _ (λ t p. p) (λ r t p. inl p) (λ t p. p)
                  (start_transfer-Triple fraud)))
      where
        lookup :
            Triple
              (λ t. t ≡ t₀)
              (find_by_idempotency_key q.idempotency_key)
              (λ tx t. (find (has_key q.idempotency_key) t₀.transactions ≡ some tx) × (t ≡ t₀))
              (λ t. t ≡ t₀)
        lookup =
            Triple-bind _ _
              (Triple-select
                {Q = λ o t. (o ≡ find (has_key q.idempotency_key) t₀.transactions) × (t ≡ t₀)} _ _
                (λ t p. rw p (refl, refl)) (λ t p. p))
              (λ o. Triple-or_raise _ o (λ tx t e p. (sym p.0 ∙ e, p.1)) (λ t p. p.1))

    -- InitiateTransfer with a non-empty idempotency key that a stored transaction has leaves the
    -- tables unchanged, whatever fails, and a reply to it reports that transaction.
    pub repeated_transfer-Triple :
        (fraud : Option FraudChecker) (existing : Transaction)
        → str_eq q.idempotency_key "" ≡ false
        → find (has_key q.idempotency_key) t₀.transactions ≡ some existing
        → Triple
            (λ t. t ≡ t₀)
            (initiate_transfer codec fraud supply q)
            (λ r t. (r ≡ result_of existing) × (t ≡ t₀))
            (λ t. t ≡ t₀)
    repeated_transfer-Triple fraud existing keyed found =
        Triple-weaken _ (λ t p. p)
          (λ r t h. elim h [
            | inl s ↦ absurd (stale s.transaction s.made_of s.fresh)
            | inr (tx, f, e, same) ↦ (let g : tx ≡ existing = some-inj (sym f ∙ found) in cc, same)
          ])
          (λ t h. elim h [ inl same ↦ same | inr (tx, e, c, _) ↦ absurd (stale tx e c) ])
          (initiate_transfer-Triple fraud)
      where
        stale : (tx : Transaction) → made ≡ ok tx → any (clashes tx) t₀.transactions ≡ false → ⊥
        stale tx e c =
            no_clash tx q.idempotency_key t₀.transactions keyed
              (new_transaction-IsTransfer supply.transaction q.source_wallet_id q.dest_wallet_id
                q.amount_cents q.description q.idempotency_key e).2
              found c
