-- ===== src/Query/Service/Handling/Dispatch.antt =====
-- `HandleEvent` against what an event is to do to the projections.
use go_fintech_microservices.Prelude.{
  ◌≡◌, sym, ap, ◌∙◌, inl, inr, true, false, Option, Option-cases, none, some, some-inj, Uuid,
  Instant, str_eq,
}
use go_fintech_microservices.Prelude.Int64.{add64, sub64}
use go_fintech_microservices.Errors.{foreign, unknown}
use go_fintech_microservices.Exec.{Exec, or_raise, ◌>>=◌, ◌>>◌}
use go_fintech_microservices.Db.Laws.{
  Triple, Triple-pure, Triple-or_raise, Triple-bind, Triple-if, Triple-weaken, Triple-given,
}
use go_fintech_microservices.Db.Statements.{Triple-select, Triple-write}
use go_fintech_microservices.Kafka.{Record, event_type_of, event_id_of}
use go_fintech_microservices.Query.Store.{
  QueryTables, QueryDb, is_recorded, record_event, is_processed, mark_processed,
}
use go_fintech_microservices.Query.Service.{
  WalletCreated, FundsMoved, TransactionCompleted, QueryCodec, opened, handle_wallet_created,
  handle_funds_deposited, handle_funds_withdrawn, handle_transaction_completed, dispatch,
  handle_unseen, handle_event,
}
use go_fintech_microservices.Query.Service.Handling.{
  QueryEvent, opens, moves, completes, Projects, opening, Partly, untouched, whole,
  upsert_balance-Triple, move_funds-Triple, count_completed-Triple,
}

module _ {Bytes : Type 0} (codec : QueryCodec Bytes) (r : Record Bytes) where
  -- What the record tells, by its type and its payload.
  pub data Reads : QueryEvent → Type 0 where
    created :
        (p : WalletCreated)
        → str_eq (event_type_of r) "WalletCreated" ≡ true
        → codec.unmarshal_created r.value ≡ some p
        → Reads (opens p)
    deposited :
        (p : FundsMoved)
        → str_eq (event_type_of r) "FundsDeposited" ≡ true
        → codec.unmarshal_moved r.value ≡ some p
        → Reads (moves "DEPOSIT" add64 p)
    withdrawn :
        (p : FundsMoved)
        → str_eq (event_type_of r) "FundsWithdrawn" ≡ true
        → codec.unmarshal_moved r.value ≡ some p
        → Reads (moves "WITHDRAWAL" sub64 p)
    completed :
        (p : TransactionCompleted)
        → str_eq (event_type_of r) "TransactionCompleted" ≡ true
        → codec.unmarshal_completed r.value ≡ some p
        → Reads (completes p)

  module _ (now : Instant) (t₀ : QueryTables) where
    -- The record has nothing to tell: its identifier is no UUID, or was processed before, or its
    -- type is another one.
    pub data Skips : Type 0 where
      invalid : codec.parse_uuid (event_id_of r) ≡ none → Skips
      repeated :
          (id : Uuid)
          → codec.parse_uuid (event_id_of r) ≡ some id
          → is_recorded id t₀ ≡ true
          → Skips
      other_type :
          str_eq (event_type_of r) "WalletCreated" ≡ false
          → str_eq (event_type_of r) "FundsDeposited" ≡ false
          → str_eq (event_type_of r) "FundsWithdrawn" ≡ false
          → str_eq (event_type_of r) "TransactionCompleted" ≡ false
          → Skips

    -- The event was read, is new, and has done to the projections what it is to do.
    pub record Done (t : QueryTables) : Type 0 where
      pub event : QueryEvent
      pub reads : Reads event
      pub projects : Projects now t₀ event t

    pub record Marked (t : QueryTables) : Type 0 where
      pub id : Uuid
      pub parsed : codec.parse_uuid (event_id_of r) ≡ some id
      pub new : is_recorded id t₀ ≡ false
      pub projected : QueryTables
      pub done : Done projected
      pub tables : t ≡ record_event id projected

    -- What a handling that returned nil has done.
    pub data Handled (t : QueryTables) : Type 0 where
      skipped : Skips → t ≡ t₀ → Handled t
      recorded : Marked t → Handled t

    -- What a handling that failed may have done.
    pub data Failed (t : QueryTables) : Type 0 where
      partly : (e : QueryEvent) → Reads e → Partly now t₀ e t → Failed t
      unread : t ≡ t₀ → Failed t
      marked : Marked t → Failed t

    parsed-Triple :
        {A : Type 0} (o : Option A) (act : A → Exec QueryDb (Unit {0})) (event : A → QueryEvent)
        → ((a : A) → o ≡ some a → Reads (event a))
        → ((a : A)
            → Triple
                (λ t. t ≡ t₀)
                (act a)
                (λ _ t. Projects now t₀ (event a) t)
                (Partly now t₀ (event a)))
        → Triple (λ t. t ≡ t₀) (or_raise (foreign unknown) o >>= act) (λ _ t. Done t) Failed
    parsed-Triple o act event reads h =
        Triple-bind _ act
          (Triple-or_raise {Q = λ a t. (o ≡ some a) × (t ≡ t₀)} (foreign unknown) o
            (λ a t e p. (e, p)) (λ t p. unread p))
          (λ a.
            Triple-given {F = o ≡ some a} _ (λ t p. p.0)
              (λ e.
                Triple-weaken _ (λ t p. p.1)
                  (λ _ t q. record { event = event a; reads = reads a e; projects = q })
                  (λ t q. partly (event a) (reads a e) q) (h a)))

    module _ (id : Uuid) (parsed : codec.parse_uuid (event_id_of r) ≡ some id)
        (new : is_recorded id t₀ ≡ false) where
      marking-Triple :
          (m : Exec QueryDb (Unit {0}))
          → Triple (λ t. t ≡ t₀) m (λ _ t. Done t) Failed
          → Triple (λ t. t ≡ t₀) (m >> mark_processed id) (λ _ t. Handled t) Failed
      unfolding mark_processed
      marking-Triple m h = Triple-bind m _ h (λ _.
          Triple-write _ _ (λ t t' q e. recorded (mark t t' q e))
            (λ t t' q e. marked (mark t t' q e)) (λ t q. partly q.event q.reads (whole q.projects)))
        where
          mark : (t t' : QueryTables) → Done t → some (record_event id t) ≡ some t' → Marked t'
          mark t t' q e = record {
            id = id;
            parsed = parsed;
            new = new;
            projected = t;
            done = q;
            tables = sym (some-inj e);
          }

      dispatch-Triple : Triple (λ t. t ≡ t₀) (dispatch codec now r id) (λ _ t. Handled t) Failed
      unfolding dispatch handle_wallet_created handle_funds_deposited handle_funds_withdrawn
          handle_transaction_completed
      dispatch-Triple =
          Triple-if (str_eq (event_type_of r) "WalletCreated") _ _
            (λ is. marking-Triple _ (
              parsed-Triple (codec.unmarshal_created r.value) _ opens (λ p. created p is)
                (λ p.
                  Triple-weaken _ (λ t q. q) (λ _ t q. opening p t q) (λ t q. q)
                    (upsert_balance-Triple now t₀ (opened now p) (λ t q. q) (λ t q. untouched q)
                      (λ t q. whole (opening p t q))))))
            (λ n1.
              Triple-if (str_eq (event_type_of r) "FundsDeposited") _ _
                (λ is. marking-Triple _ (
                  parsed-Triple (codec.unmarshal_moved r.value) _ (moves "DEPOSIT" add64)
                    (λ p. deposited p is) (move_funds-Triple now t₀ "DEPOSIT" add64)))
                (λ n2.
                  Triple-if (str_eq (event_type_of r) "FundsWithdrawn") _ _
                    (λ is. marking-Triple _ (
                      parsed-Triple (codec.unmarshal_moved r.value) _ (moves "WITHDRAWAL" sub64)
                        (λ p. withdrawn p is) (move_funds-Triple now t₀ "WITHDRAWAL" sub64)))
                    (λ n3.
                      Triple-if (str_eq (event_type_of r) "TransactionCompleted") _ _
                        (λ is. marking-Triple _ (
                          parsed-Triple (codec.unmarshal_completed r.value) _ completes
                            (λ p. completed p is) (count_completed-Triple now t₀)))
                        (λ n4. Triple-pure tt (λ t p. skipped (other_type n1 n2 n3 n4) p)))))

    handle_unseen-Triple :
        (id : Uuid)
        → codec.parse_uuid (event_id_of r) ≡ some id
        → Triple (λ t. t ≡ t₀) (handle_unseen codec now r id) (λ _ t. Handled t) Failed
    unfolding handle_unseen is_processed
    handle_unseen-Triple id parsed =
        Triple-bind {R = λ b t. (b ≡ is_recorded id t₀) × (t ≡ t₀)} _ _
          (Triple-select _ _ (λ t p. (ap (is_recorded id) p, p)) (λ t p. unread p))
          (λ b.
            Triple-given {F = b ≡ is_recorded id t₀} _ (λ t p. p.0)
              (λ e.
                Triple-if b _ _
                  (λ seen. Triple-pure tt (λ t p. skipped (repeated id parsed (sym e ∙ seen)) p.1))
                  (λ new.
                    Triple-weaken _ (λ t p. p.1) (λ _ t p. p) (λ t p. p)
                      (dispatch-Triple id parsed (sym e ∙ new)))))

    -- From any tables, a HandleEvent that returns nil changed nothing, as the identifier is
    -- invalid or recorded or the type is none of the four, or did what the payload tells (opened a
    -- projection, moved a balance and added its entry, or counted a transaction) and recorded the
    -- event, which was not recorded; one that fails did nothing, or a movement's balance only, or
    -- all but the record of the event, or all.
    pub handle_event-Triple :
        Triple (λ t. t ≡ t₀) (handle_event codec now r) (λ _ t. Handled t) Failed
    unfolding handle_event
    handle_event-Triple = elim (Option-cases (codec.parse_uuid (event_id_of r))) [
      | inl e ↦ rw (e, handle_event) (Triple-pure tt (λ t p. skipped (invalid e) p))
      | inr (id, e) ↦ rw (e, handle_event) (handle_unseen-Triple id e)
    ]
