-- ===== src/Wallet/Outbox/Publishing.antt =====
-- services/wallet/internal/adapters/outbound/kafka/outbox_worker.go: the worker over the wallet's
-- outbox.
use go_fintech_microservices.Prelude.{
  arith, ◌≡◌, refl, ap, inl, inr, Bool, false, Bool-cases, not, List, [], ◌∷◌, ◌++◌, none, some,
  String, Uuid, any, ◌==◌,
}
use mathlib.Core.Path.{subst}
use go_fintech_microservices.Db.{Db, driver_error}
use go_fintech_microservices.Db.Statements.{Triple-write}
use go_fintech_microservices.Publishing.{Message, Published, OutboxRepository, EventFields}
use go_fintech_microservices.Publishing.Repository.{queries-IsOutbox}
use go_fintech_microservices.Publishing.Delivery.{IsOutbox, IsDelivered}
use go_fintech_microservices.Publishing.Steps.{
  Step, take_steps, IsSaving, Added, nothing, added, take_steps-Sound,
}
use go_fintech_microservices.Wallet.Store.{
  OutboxEventType, funds_reserved, funds_released, funds_deposited, WalletOutboxEvent, WalletTables,
}
use go_fintech_microservices.Wallet.Outbox.{
  insert_outbox, insert_outbox-eq, save, is_unpublished, fetch_unpublished, mark_published,
}

-- The strings of the constants.
pub event_type_text : OutboxEventType → String
event_type_text funds_reserved = "FundsReserved"
event_type_text funds_released = "FundsReleased"
event_type_text funds_deposited = "FundsDeposited"

module _ (show_uuid : Uuid → String) {Bytes : Type 0} where
  -- The record of `flush`.
  unfoldable pub message_of : WalletOutboxEvent Bytes → Message Bytes
  unfolding event_type_text
  message_of e = record {
    topic = e.topic;
    key = e.key;
    content = record {
      headers = ("event_type", event_type_text e.event_type) ∷ ("event_id", show_uuid e.id) ∷ [];
      value = e.payload;
    };
  }

  abbrev pub fields : EventFields (WalletOutboxEvent Bytes) Bytes
  fields = record { id_of = λ e. e.id; message_of = message_of }

module _ {Bytes : Type 0} where
  abbrev pub repository : OutboxRepository (WalletTables Bytes) (WalletOutboxEvent Bytes)
  repository = record { fetch_unpublished = fetch_unpublished; mark_published = mark_published }

  abbrev pub rows : WalletTables Bytes → List (WalletOutboxEvent Bytes)
  rows t = t.outbox

  abbrev pub is_published : WalletOutboxEvent Bytes → Bool
  is_published e = not (is_unpublished e)

  insert_outbox-new :
      (e : WalletOutboxEvent Bytes) (t t' : WalletTables Bytes)
      → insert_outbox e t ≡ some t'
      → (any (λ row. row.id == e.id) t.outbox ≡ false)
        × (t'.outbox ≡ t.outbox ++ record e { published_at = none } ∷ [])
  unfolding insert_outbox
  insert_outbox-new e t t' h = elim (Bool-cases (any (λ row. row.id == e.id) t.outbox)) [
    | inl known ↦ ground arith
    | inr new ↦ (new, ap (λ (u : WalletTables Bytes). u.outbox) (insert_outbox-eq e t t' h))
  ]

  module _ (show_uuid : Uuid → String) where
    repository-IsOutbox : IsOutbox repository (fields show_uuid) rows is_published
    unfolding fetch_unpublished mark_published message_of
    repository-IsOutbox =
        queries-IsOutbox (fields show_uuid) rows (λ es t. record t { outbox = es }) is_unpublished
          (λ e. e.created_at) (λ now e. record e { published_at = some now })
          (record { stored = λ es t. refl; message = λ now e. refl; identifier = λ now e. refl })
          repository "fetch wallet outbox events" "scan wallet outbox event"
          "mark wallet outbox published" driver_error (λ limit. refl) (λ id now. refl)

    -- Saving an event adds an unpublished row with a new identifier.
    save-IsSaving : IsSaving repository (fields show_uuid) save rows is_published
    unfolding save insert_outbox
    save-IsSaving e t₀ =
        Triple-write "save wallet outbox event" (insert_outbox e)
          (λ t t' q h. saved t' (subst (λ u. insert_outbox e u ≡ some t') q h))
          (λ t t' q h. saved t' (subst (λ u. insert_outbox e u ≡ some t') q h)) (λ t q. nothing q)
      where
        saved :
            (t' : WalletTables Bytes)
            → insert_outbox e t₀ ≡ some t'
            → Added repository (fields show_uuid) save rows is_published e t₀ t'
        saved t' h =
            let (new, stores) = insert_outbox-new e t₀ t' h in
            added (record e { published_at = none }) refl new stores

    abbrev pub IsPublished : Published (WalletTables Bytes) Bytes → Type 0
    IsPublished p = IsDelivered repository (fields show_uuid) rows is_published p

    -- In the wallet's outbox and topics: if rows of one identifier have one message and the
    -- message of each published row is in the log of the topics, then so it is after any sequence
    -- of saved events and flushes of the worker, with any statement failing or losing its reply,
    -- and publications ending as they may.
    pub take_steps-IsPublished :
        (steps : List (Step (WalletOutboxEvent Bytes)))
        (db : Db (Published (WalletTables Bytes) Bytes))
        → IsPublished db.tables
        → IsPublished (take_steps repository (fields show_uuid) save steps db).tables
    take_steps-IsPublished steps db h =
        take_steps-Sound repository (fields show_uuid) save rows is_published repository-IsOutbox
          save-IsSaving steps db h
