-- ===== src/Publishing.antt =====
-- services/wallet/internal/adapters/outbound/kafka/outbox_worker.go and the transaction service's
-- file of that name, which differ in the types of their outbox. The repository is a parameter.
pub mod Members
pub mod Delivery
pub mod Loop
pub mod Repository
pub mod Steps
use go_fintech_microservices.Prelude.{ℕ, List, [], ◌∷◌, ◌++◌, String, Uuid, Instant}
use go_fintech_microservices.Exec.{Result, ok, err, Exec, pure, attempt, ◌>>◌}
use Prim.Native.Nat.{zero, suc}
use go_fintech_microservices.Db.{Db}
use go_fintech_microservices.Kafka.{Record}

-- A `kgo.Record` with its topic and its key.
pub record Message (Bytes : Type 0) : Type 0 where
  pub topic : String
  pub key : String
  pub content : Record Bytes

-- How `publishWithRetry` ends: with nil, where the brokers have acknowledged the record, after
-- retries that may have left copies of it; or with an error, where copies may have been left too.
pub data Publication : Type 0 where
  acknowledged failed : ℕ → Publication

-- A service's tables, and what the topics hold, in the order of arrival.
pub record Published (T Bytes : Type 0) : Type 0 where
  pub store : T
  pub log : List (Message Bytes)

-- `OutboxRepository` and `WalletOutboxRepository`, without `Save`; `MarkPublished` takes the time of
-- the database.
pub record OutboxRepository (T Event : Type 0) : Type 0 where
  pub fetch_unpublished : ℕ → Exec (Db T) (List Event)
  pub mark_published : Uuid → Instant → Exec (Db T) (Unit {0})

-- What the worker reads of an event.
pub record EventFields (Event Bytes : Type 0) : Type 0 where
  pub id_of : Event → Uuid
  pub message_of : Event → Message Bytes

abbrev pub copies : {A : Type 0} → ℕ → A → List A
copies zero a = []
copies (suc n) a = a ∷ copies n a

module _ {T Bytes : Type 0} where
  -- A call of the repository; the topics stay.
  unfoldable pub in_store : {A : Type 0} → Exec (Db T) A → Exec (Db (Published T Bytes)) A
  in_store m db =
      let (r, db') = m (record { tables = db.tables.store; faults = db.faults }) in
      (
        r,
        record { tables = record { store = db'.tables; log = db.tables.log }; faults = db'.faults },
      )

  unfoldable pub produce : ℕ → Message Bytes → Exec (Db (Published T Bytes)) (Unit {0})
  produce n message db =
      (ok tt, record db { tables = record db.tables { log = db.tables.log ++ copies n message } })

module _ {T Event Bytes : Type 0} (outbox : OutboxRepository T Event)
    (fields : EventFields Event Bytes) (publish : Event → Publication)
    (clock : Event → Instant) where
  -- The body of the `for` loop, with the iterations that are left: an event that is not published
  -- ends the loop, an event that is not marked does not.
  pub publish_one :
      Publication
      → Event
      → Exec (Db (Published T Bytes)) (Unit {0})
      → Exec (Db (Published T Bytes)) (Unit {0})
  unfolding in_store produce
  publish_one (acknowledged retries) e rest = do
    produce (suc retries) (fields.message_of e)
    attempt (in_store (outbox.mark_published (fields.id_of e) (clock e))) (λ r. rest)
  publish_one (failed n) e rest = produce n (fields.message_of e)

  unfoldable pub publish_all : List Event → Exec (Db (Published T Bytes)) (Unit {0})
  unfolding publish_one
  publish_all [] = pure tt
  publish_all (e ∷ events) = publish_one (publish e) e (publish_all events)

  publish_fetched : Result (List Event) → Exec (Db (Published T Bytes)) (Unit {0})
  unfolding publish_all
  publish_fetched (err e) = pure tt
  publish_fetched (ok events) = publish_all events

  unfoldable pub flush : Exec (Db (Published T Bytes)) (Unit {0})
  unfolding in_store publish_fetched
  flush = attempt (in_store (outbox.fetch_unpublished 100)) publish_fetched
