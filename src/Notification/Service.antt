-- ===== src/Notification/Service.antt =====
-- services/notification/internal: domain/notification.go, application/notification_service.go,
-- adapters/outbound/postgres/processed_repo.go and adapters/outbound/logger/sender.go.
pub mod Handling
use go_fintech_microservices.Prelude.{
  Bool, List, [], ◌∷◌, ◌++◌, map, Option, none, some, String, Uuid, nil_uuid, Instant, Fresh, any,
  ◌==◌, if◌then◌else◌,
}
use go_fintech_microservices.Errors.{foreign, unknown}
use go_fintech_microservices.Exec.{Exec, ok, pure, or_raise, ◌>>=◌, ◌>>◌}
use go_fintech_microservices.Db.{Db, select, write}
use go_fintech_microservices.Kafka.{Record, event_type_of, event_id_of}

pub record Notification : Type 0 where
  pub id : Uuid
  pub user_id : Uuid
  pub event_type : String
  pub payload : List (String × String)
  pub sent_at : Instant

-- The table of processed events, and the messages that `LogSender` has logged.
pub record Deliveries : Type 0 where
  pub processed : List Uuid
  pub sent : List Notification

-- A value of `map[string]any`: a text, or another one.
pub data Field (Value : Type 0) : Type 0 where
  text : String → Field Value
  value : Value → Field Value

-- encoding/json and the texts of UUIDs.
pub record NotificationCodec (Bytes Value : Type 0) : Type 0 where
  pub parse_uuid : String → Option Uuid
  pub unmarshal : Bytes → Option (List (String × Field Value))
  pub marshal : Value → String

-- `SELECT EXISTS(SELECT 1 FROM notification_processed_events WHERE event_id = $1)`
abbrev pub is_recorded : Uuid → Deliveries → Bool
is_recorded id t = any (λ done. done == id) t.processed

unfoldable pub is_processed : Uuid → Exec (Db Deliveries) Bool
unfolding select
is_processed id = select "check processed event" (is_recorded id)

-- `INSERT INTO notification_processed_events … ON CONFLICT DO NOTHING`
pub insert_processed : Uuid → Deliveries → Option Deliveries
insert_processed id t =
    if is_recorded id t then some t else some (record t { processed = t.processed ++ id ∷ [] })

unfoldable pub mark_processed : Uuid → Exec (Db Deliveries) (Unit {0})
unfolding write insert_processed
mark_processed id = write "mark processed" (insert_processed id)

-- `LogSender.Send`, which always returns nil.
unfoldable pub send : Notification → Exec (Db Deliveries) (Unit {0})
send n db = (
  ok tt,
  record db {
    tables = record { processed = db.tables.processed; sent = db.tables.sent ++ n ∷ [] };
  },
)

module _ {Bytes Value : Type 0} (codec : NotificationCodec Bytes Value) where
  pub flatten_payload : List (String × Field Value) → List (String × String)
  flatten_payload [] = []
  flatten_payload ((k, text s) ∷ fields) = (k, s) ∷ flatten_payload fields
  flatten_payload ((k, value v) ∷ fields) = (k, codec.marshal v) ∷ flatten_payload fields

  abbrev pub notification : Fresh → Record Bytes → List (String × Field Value) → Notification
  notification fresh r payload = record {
    id = fresh.id;
    user_id = nil_uuid;
    event_type = event_type_of r;
    payload = flatten_payload payload;
    sent_at = fresh.now;
  }

  deliver : Fresh → Record Bytes → Uuid → Exec (Db Deliveries) (Unit {0})
  unfolding send mark_processed
  deliver fresh r event_id = do
    payload ← or_raise (foreign unknown) (codec.unmarshal r.value)
    send (notification fresh r payload)
    mark_processed event_id

  handle_event : Fresh → Record Bytes → Uuid → Exec (Db Deliveries) (Unit {0})
  unfolding is_processed deliver
  handle_event fresh r event_id = do
    already ← is_processed event_id
    if already then pure tt else deliver fresh r event_id

  -- A record with an invalid identifier is logged and skipped.
  unfoldable pub handle : Fresh → Record Bytes → Exec (Db Deliveries) (Unit {0})
  unfolding handle_event
  handle fresh r = elim (codec.parse_uuid (event_id_of r)) [
    | none ↦ pure tt
    | some event_id ↦ handle_event fresh r event_id
  ]
