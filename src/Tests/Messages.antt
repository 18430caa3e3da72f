-- ===== src/Tests/Messages.antt =====
-- The theorem on the notification service at a concrete record.
use go_fintech_microservices.Prelude.{◌≡◌, ◌⊎◌, [], ◌∷◌, some, String, Fresh}
use go_fintech_microservices.Db.Laws.{Triple}
use go_fintech_microservices.Kafka.{Record}
use go_fintech_microservices.Notification.Service.{Deliveries, text, NotificationCodec, handle}
use go_fintech_microservices.Notification.Service.Handling.{Sent, Handled, notification-Triple}

-- Bytes that are a text, and values that are texts.
abbrev texts : NotificationCodec String String
texts = record {
  parse_uuid = λ s. some 301;
  unmarshal = λ s. some (("transaction_id", text s) ∷ []);
  marshal = λ v. v;
}

abbrev deliveries : Deliveries
deliveries = record { processed = 300 ∷ []; sent = [] }

abbrev failed : Record String
failed = record {
  headers = ("event_type", "TransactionFailed") ∷ ("event_id", "0000-0301") ∷ [];
  value = "0000-0031";
}

abbrev fresh_1 : Fresh
fresh_1 = record { id = 801; now = 91 }

notification-Triple_example :
    Triple
      (λ t. t ≡ deliveries)
      (handle texts fresh_1 failed)
      (λ _ t. Handled texts deliveries fresh_1 failed t)
      (λ t. (t ≡ deliveries) ⊎ Sent texts deliveries fresh_1 failed t)
notification-Triple_example = notification-Triple texts deliveries fresh_1 failed
