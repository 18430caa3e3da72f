-- ===== src/Transaction/Store/Publishing.antt =====
-- services/transaction/internal/adapters/outbound/kafka/outbox_worker.go: the worker over the transaction
-- service's outbox.
use go_fintech_microservices.Prelude.{
  arith, ◌≡◌, refl, ap, inl, inr, Bool, false, Bool-cases, not, List, [], ◌∷◌, ◌++◌, none, some,
  String, Uuid, any, ◌==◌,
}
use mathlib.Core.Path.{subst}
use go_fintech_microservices.Db.{Db, driver_error}
use go_fintech_microservices.Db.Statements.{Triple-write}
use go_fintech_microservices.Publishing.{Message, Published, OutboxRepository, EventFields}
use go_fintech_microservices.Publishing.Repository.{queries-IsOutbox}
use go_fintech_microservices.Publishing.Delivery.{IsOutbox, IsDelivered}
use go_fintech_microservices.Publishing.Steps.{
  Step, take_steps, IsSaving, Added, nothing, added, take_steps-Sound,
}
use go_fintech_microservices.Transaction.Domain.{
  EventType, transaction_initiated, transaction_completed, transaction_failed,
  transaction_compensated, OutboxEvent,
}
use go_fintech_microservices.Transaction.Store.{
  TransactionTables, insert_event, insert_event-eq, save_event, is_unpublished, fetch_unpublished,
  mark_published,
}

-- The strings of the constants.
pub event_type_text : EventType → String
event_type_text transaction_initiated = "TransactionInitiated"
event_type_text transaction_completed = "TransactionCompleted"
event_type_text transaction_failed = "TransactionFailed"
event_type_text transaction_compensated = "TransactionCompensated"

module _ (show_uuid : Uuid → String) {Bytes : Type 0} where
  -- The record of `flush`.
  unfoldable pub message_of : OutboxEvent Bytes → Message Bytes
  unfolding event_type_text
  message_of e = record {
    topic = e.topic;
    key = e.key;
    content = record {
      headers = ("event_type", event_type_text e.event_type) ∷ ("event_id", show_uuid e.id) ∷ [];
      value = e.payload;
    };
  }

  abbrev pub fields : EventFields (OutboxEvent Bytes) Bytes
  fields = record { id_of = λ e. e.id; message_of = message_of }

module _ {Bytes : Type 0} where
  abbrev pub repository : OutboxRepository (TransactionTables Bytes) (OutboxEvent Bytes)
  repository = record { fetch_unpublished = fetch_unpublished; mark_published = mark_published }

  abbrev pub rows : TransactionTables Bytes → List (OutboxEvent Bytes)
  rows t = t.outbox

  abbrev pub is_published : OutboxEvent Bytes → Bool
  is_published e = not (is_unpublished e)

  insert_event-new :
      (e : OutboxEvent Bytes) (t t' : TransactionTables Bytes)
      → insert_event e t ≡ some t'
      → (any (λ row. row.id == e.id) t.outbox ≡ false)
        × (t'.outbox ≡ t.outbox ++ record e { published_at = none } ∷ [])
  unfolding insert_event
  insert_event-new e t t' h = elim (Bool-cases (any (λ row. row.id == e.id) t.outbox)) [
    | inl known ↦ ground arith
    | inr new ↦ (new, ap (λ (u : TransactionTables Bytes). u.outbox) (insert_event-eq e t t' h))
  ]

  module _ (show_uuid : Uuid → String) where
    repository-IsOutbox : IsOutbox repository (fields show_uuid) rows is_published
    unfolding fetch_unpublished mark_published message_of
    repository-IsOutbox =
        queries-IsOutbox (fields show_uuid) rows (λ es t. record t { outbox = es }) is_unpublished
          (λ e. e.created_at) (λ now e. record e { published_at = some now })
          (record { stored = λ es t. refl; message = λ now e. refl; identifier = λ now e. refl })
          repository "fetch outbox events" "scan outbox event" "mark outbox event published"
          driver_error (λ limit. refl) (λ id now. refl)

    -- Saving an event adds an unpublished row with a new identifier.
    save_event-IsSaving : IsSaving repository (fields show_uuid) save_event rows is_published
    unfolding save_event insert_event
    save_event-IsSaving e t₀ =
        Triple-write "save outbox event" (insert_event e)
          (λ t t' q h. saved t' (subst (λ u. insert_event e u ≡ some t') q h))
          (λ t t' q h. saved t' (subst (λ u. insert_event e u ≡ some t') q h)) (λ t q. nothing q)
      where
        saved :
            (t' : TransactionTables Bytes)
            → insert_event e t₀ ≡ some t'
            → Added repository (fields show_uuid) save_event rows is_published e t₀ t'
        saved t' h =
            let (new, stores) = insert_event-new e t₀ t' h in
            added (record e { published_at = none }) refl new stores

    abbrev pub IsPublished : Published (TransactionTables Bytes) Bytes → Type 0
    IsPublished p = IsDelivered repository (fields show_uuid) rows is_published p

    pub take_steps-IsPublished :
        (steps : List (Step (OutboxEvent Bytes)))
        (db : Db (Published (TransactionTables Bytes) Bytes))
        → IsPublished db.tables
        → IsPublished (take_steps repository (fields show_uuid) save_event steps db).tables
    take_steps-IsPublished steps db h =
        take_steps-Sound repository (fields show_uuid) save_event rows is_published
          repository-IsOutbox save_event-IsSaving steps db h
