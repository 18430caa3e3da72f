-- ===== src/Tests/Topics.antt =====
-- The theorems on the publishing worker at a concrete outbox.
use go_fintech_microservices.Prelude.{[], ◌∷◌, List, none, String, Uuid}
use go_fintech_microservices.Db.{Db, lost}
use go_fintech_microservices.Publishing.{acknowledged, failed, Published}
use go_fintech_microservices.Publishing.Steps.{Step, saving, flushing, take_steps}
use go_fintech_microservices.Wallet.Store.{funds_reserved, WalletOutboxEvent, WalletTables}
use go_fintech_microservices.Wallet.Outbox.{save}
use go_fintech_microservices.Wallet.Outbox.Publishing.{
  fields, repository, IsPublished, take_steps-IsPublished,
}

abbrev show_test_uuid : Uuid → String
show_test_uuid id = "uuid"

abbrev reserved_1 : WalletOutboxEvent String
reserved_1 = record {
  id = 1;
  topic = "wallets";
  key = "101";
  payload = "{}";
  event_type = funds_reserved;
  published_at = none;
  created_at = 10;
}

abbrev reserved_2 : WalletOutboxEvent String
reserved_2 = record {
  id = 2;
  topic = "wallets";
  key = "102";
  payload = "{}";
  event_type = funds_reserved;
  published_at = none;
  created_at = 11;
}

-- No events, and a statement whose reply is lost.
abbrev quiet : Db (Published (WalletTables String) String)
quiet = record {
  tables = record {
    store = record { events = []; snapshots = []; outbox = []; processed = [] };
    log = [];
  };
  faults = lost ∷ [];
}

-- Two events; the worker fails once, and then publishes them.
abbrev busy_steps : List (Step (WalletOutboxEvent String))
busy_steps =
    saving reserved_1
    ∷ saving reserved_2
    ∷ flushing (λ e. failed 1) (λ e. 20)
    ∷ flushing (λ e. acknowledged 0) (λ e. 21)
    ∷ []

quiet-IsPublished : IsPublished show_test_uuid quiet.tables
quiet-IsPublished = record { keyed = λ a b i. absurd i; delivered = λ row i. absurd i }

take_steps-IsPublished_example :
    IsPublished show_test_uuid
      (take_steps repository (fields show_test_uuid) save busy_steps quiet).tables
take_steps-IsPublished_example =
    take_steps-IsPublished show_test_uuid busy_steps quiet quiet-IsPublished
