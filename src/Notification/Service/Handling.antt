-- ===== src/Notification/Service/Handling.antt =====
-- What the handling of a record has sent and marked.
use go_fintech_microservices.Prelude.{
  ◌≡◌, sym, ap, ◌∙◌, ◌⊎◌, inl, inr, true, false, List, [], ◌∷◌, ◌++◌, Option-cases, none, some,
  String, Uuid, Fresh, arith,
}
use go_fintech_microservices.Db.Laws.{
  Triple, Triple-pure, Triple-or_raise, Triple-bind, Triple-if, Triple-weaken, Triple-given,
}
use go_fintech_microservices.Db.Statements.{Triple-select, Triple-write}
use go_fintech_microservices.Kafka.{Record, event_id_of}
use go_fintech_microservices.Notification.Service.{
  Notification, Deliveries, Field, NotificationCodec, is_recorded, is_processed, insert_processed,
  mark_processed, send, notification, deliver, handle_event, handle,
}

insert_processed-eq :
    (id : Uuid) (t t' : Deliveries)
    → is_recorded id t ≡ false
    → insert_processed id t ≡ some t'
    → t' ≡ record t { processed = t.processed ++ id ∷ [] }
unfolding insert_processed
insert_processed-eq id t t' new h = ground arith

sent_after : Notification → Deliveries → Deliveries
sent_after n t = record { processed = t.processed; sent = t.sent ++ n ∷ [] }

send-Triple :
    (n : Notification) (t₀ : Deliveries) {E : Deliveries → Type 0}
    → Triple (λ t. t ≡ t₀) (send n) (λ _ t. t ≡ sent_after n t₀) E
unfolding send sent_after
send-Triple n t₀ = record { at = λ db p. ap (sent_after n) p }

module _ {Bytes Value : Type 0} (codec : NotificationCodec Bytes Value) (t₀ : Deliveries)
    (fresh : Fresh) (r : Record Bytes) where
  -- The message of the record is sent once more.
  pub record Sent (t : Deliveries) : Type 0 where
    pub id : Uuid
    pub parsed : codec.parse_uuid (event_id_of r) ≡ some id
    pub new : is_recorded id t₀ ≡ false
    pub fields : List (String × Field Value)
    pub read : codec.unmarshal r.value ≡ some fields
    pub sent : t.sent ≡ t₀.sent ++ notification codec fresh r fields ∷ []

  -- The record has nothing to send: its identifier is no UUID, or was processed before.
  pub data Skips : Type 0 where
    invalid : codec.parse_uuid (event_id_of r) ≡ none → Skips
    repeated :
        (id : Uuid) → codec.parse_uuid (event_id_of r) ≡ some id → is_recorded id t₀ ≡ true → Skips

  -- What a handling that returned nil has done.
  pub data Handled (t : Deliveries) : Type 0 where
    skipped : Skips → t ≡ t₀ → Handled t
    delivered : (s : Sent t) → t.processed ≡ t₀.processed ++ s.id ∷ [] → Handled t

  deliver-Triple :
      (id : Uuid)
      → codec.parse_uuid (event_id_of r) ≡ some id
      → is_recorded id t₀ ≡ false
      → Triple (λ t. t ≡ t₀) (deliver codec fresh r id) (λ _ t. Handled t) (λ t. (t ≡ t₀) ⊎ Sent t)
  unfolding deliver mark_processed sent_after
  deliver-Triple id parsed new =
      Triple-bind _ _
        (Triple-or_raise {Q = λ b t. (codec.unmarshal r.value ≡ some b) × (t ≡ t₀)} _ _
          (λ b t e p. (e, p)) (λ t p. inl p))
        (λ fields.
          Triple-given {F = codec.unmarshal r.value ≡ some fields} _ (λ t p. p.0)
            (λ read.
              Triple-bind {R = λ _ t. t ≡ after fields} _ _
                (Triple-weaken _ (λ t p. p.1) (λ _ t p. p) (λ t p. p)
                  (send-Triple (notification codec fresh r fields) t₀))
                (λ _.
                  Triple-write "mark processed" (insert_processed id)
                    (λ t t' p h.
                      let e = marked fields t t' p h in
                      delivered (message fields read t' (ap (λ u. u.sent) e))
                        (ap (λ u. u.processed) e))
                    (λ t t' p h.
                      inr (message fields read t' (ap (λ u. u.sent) (marked fields t t' p h))))
                    (λ t p. inr (message fields read t (ap (λ u. u.sent) p))))))
    where
      after : List (String × Field Value) → Deliveries
      after fields = sent_after (notification codec fresh r fields) t₀

      message :
          (fields : List (String × Field Value))
          → codec.unmarshal r.value ≡ some fields
          → (t : Deliveries) → t.sent ≡ (after fields).sent
          → Sent t
      message fields read t e = record {
        id = id;
        parsed = parsed;
        new = new;
        fields = fields;
        read = read;
        sent = e;
      }

      marked :
          (fields : List (String × Field Value)) (t t' : Deliveries)
          → t ≡ after fields
          → insert_processed id t ≡ some t'
          → t' ≡ record (after fields) { processed = t₀.processed ++ id ∷ [] }
      marked fields t t' p h =
          insert_processed-eq id (after fields) t' new (ap (insert_processed id) (sym p) ∙ h)

  handle_event-Triple :
      (id : Uuid)
      → codec.parse_uuid (event_id_of r) ≡ some id
      → Triple
          (λ t. t ≡ t₀)
          (handle_event codec fresh r id)
          (λ _ t. Handled t)
          (λ t. (t ≡ t₀) ⊎ Sent t)
  unfolding handle_event is_processed
  handle_event-Triple id parsed =
      Triple-bind {R = λ b t. (b ≡ is_recorded id t₀) × (t ≡ t₀)} _ _
        (Triple-select _ _ (λ t p. (ap (is_recorded id) p, p)) (λ t p. inl p))
        (λ b.
          Triple-given {F = b ≡ is_recorded id t₀} _ (λ t p. p.0)
            (λ e.
              Triple-if b _ _
                (λ seen. Triple-pure tt (λ t p. skipped (repeated id parsed (sym e ∙ seen)) p.1))
                (λ new.
                  Triple-weaken _ (λ t p. p.1) (λ _ t p. p) (λ t p. p)
                    (deliver-Triple id parsed (sym e ∙ new)))))

  -- From any deliveries, a handling that returns nil either changed nothing (the event's
  -- identifier is invalid or was processed) or sent exactly one message made of the record, of an
  -- event that was not processed, and marked the event; one that fails changed nothing, or has
  -- sent that message, whether the event was marked or not.
  pub notification-Triple :
      Triple (λ t. t ≡ t₀) (handle codec fresh r) (λ _ t. Handled t) (λ t. (t ≡ t₀) ⊎ Sent t)
  unfolding handle
  notification-Triple = elim (Option-cases (codec.parse_uuid (event_id_of r))) [
    | inl e ↦ rw (e, handle) (Triple-pure tt (λ t p. skipped (invalid e) p))
    | inr (id, e) ↦ rw (e, handle) (handle_event-Triple id e)
  ]
