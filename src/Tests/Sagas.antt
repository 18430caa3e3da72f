-- ===== src/Tests/Sagas.antt =====
-- The theorems on the wallet service and on its part in a transfer at a concrete database.
use go_fintech_microservices.Prelude.{
  ◌-◌, ◌^◌, ◌<◌, ◌≡◌, ◌≢◌, ◌⊎◌, refl, ap, List, [], ◌∷◌, Option, none, some, String, Uuid, length,
  str_eq, arith, if◌then◌else◌,
}
use go_fintech_microservices.Prelude.Int.{pos}
use go_fintech_microservices.Exec.{ok}
use go_fintech_microservices.Db.{Db}
use go_fintech_microservices.Db.Laws.{Triple}
use go_fintech_microservices.Db.Smooth.{Runs}
use go_fintech_microservices.Prelude.Int64.{add64, sub64}
use go_fintech_microservices.Kafka.{Record, header_value}
use go_fintech_microservices.Wallet.Domain
use go_fintech_microservices.Wallet.Domain.{Event, EventType, Wallet}
use go_fintech_microservices.Wallet.Store.{WalletTables, current_version, append_events}
use go_fintech_microservices.Wallet.Store.History.{history}
use go_fintech_microservices.Wallet.Store.Append.{extended, append_events-Triple}
use go_fintech_microservices.Wallet.Store.Consistency.{account, IsConsistent}
use go_fintech_microservices.Wallet.Service
use go_fintech_microservices.Wallet.Service.Loading.{load-Triple}
use go_fintech_microservices.Wallet.Service.Loading.Success.{balance_of, get_balance-account}
use go_fintech_microservices.Wallet.Service.Changing.{Changed, Failed}
use go_fintech_microservices.Wallet.Service.Creating.{Created, create_wallet-Triple}
use go_fintech_microservices.Wallet.Service.Movements.{
  Reports, Applies, deposit-Triple, withdraw-Triple, reserve-Applies,
}
use go_fintech_microservices.Wallet.Service.Movements.Success.{Completes, withdraw-Completes}
use go_fintech_microservices.Wallet.Store.Append.Success.{IsUnused}
use go_fintech_microservices.Wallet.Service.Calls.{IsShort, serve_all, serve_all-IsConsistent}
use go_fintech_microservices.Wallet.Saga.{TransferPayload, SagaCodec, Supply, handle}
use go_fintech_microservices.Wallet.Saga.Effects.{Handled}
use go_fintech_microservices.Wallet.Saga.Handling.{handle-Triple}
use go_fintech_microservices.Wallet.Saga.Redelivery.{redelivery-Triple}
use go_fintech_microservices.Tests.{
  Json, transfer_json, outbox_json, json, json-IsEventCodec, empty, empty-IsShort, opening, funded,
  funded-IsShort, funded-IsConsistent, wallet_a, wallet_b, fresh_1, fresh_2,
}

abbrev parse_test_uuid : String → Option Uuid
parse_test_uuid s = if str_eq s "0000-0301" then some 301 else none

abbrev read_transfer : Json → Option TransferPayload
read_transfer (transfer_json p) = some p
read_transfer _ = none

abbrev saga_json : SagaCodec Json
saga_json = record {
  parse_uuid = parse_test_uuid;
  show_uuid = λ v. "uuid";
  unmarshal_transfer = read_transfer;
  marshal_outbox = outbox_json;
}

abbrev supply_1 : Supply
supply_1 = record { event = fresh_1; outbox = fresh_2 }

abbrev supply_2 : Supply
supply_2 = record { event = record { id = 903; now = 13 }; outbox = record { id = 904; now = 14 } }

-- The initiation of a transfer of 200 cents from the first wallet to the second.
abbrev initiated : Record Json
initiated = record {
  headers = ("event_type", "TransactionInitiated") ∷ ("event_id", "0000-0301") ∷ [];
  value = transfer_json (record {
    transaction_id = 31;
    source_wallet_id = wallet_a;
    destination_wallet_id = wallet_b;
    amount_cents = pos 200;
  });
}

abbrev tables : WalletTables Json
tables = funded.tables

fits : (wallet_id : Uuid) → length (history wallet_id tables) < 2 ^ 63 - 1
fits wallet_id = omega (arith, funded-IsShort.short wallet_id)

serve_all-IsConsistent_example : IsShort json 3 (serve_all json opening empty).tables
serve_all-IsConsistent_example =
    serve_all-IsConsistent json json-IsEventCodec opening 0 empty empty-IsShort (omega arith)

handle-Triple_example :
    Triple
      (λ t. t ≡ tables)
      (handle json saga_json supply_1 initiated)
      (λ _ t. Handled json saga_json tables supply_1 initiated t)
      (IsConsistent json)
handle-Triple_example =
    handle-Triple json json-IsEventCodec saga_json tables funded-IsConsistent fits supply_1
      initiated

-- The database after the first delivery.
abbrev delivered : Db (WalletTables Json)
delivered = (handle json saga_json supply_1 initiated funded).1

delivered-ok : (handle json saga_json supply_1 initiated funded).0 ≡ ok tt
unfolding handle serve_all header_value add64 sub64
delivered-ok = refl

redelivery-Triple_example :
    Triple
      (λ t. t ≡ delivered.tables)
      (handle json saga_json supply_2 initiated)
      (λ _ t. t ≡ delivered.tables)
      (λ t. t ≡ delivered.tables)
redelivery-Triple_example =
    redelivery-Triple json saga_json funded supply_1 supply_2 initiated delivered-ok

load-Triple_example :
    Triple
      (λ t. t ≡ tables)
      (Service.load json wallet_a)
      (λ w t. (w ≡ account json wallet_a tables) × (history wallet_a tables ≢ []) × (t ≡ tables))
      (λ t. t ≡ tables)
load-Triple_example = load-Triple json wallet_a tables funded-IsConsistent

abbrev third : Event Json
third = record {
  id = 21;
  wallet_id = wallet_a;
  type = Domain.funds_withdrawn;
  payload = json.withdrawn.marshal (record { amount_cents = pos 300; description = "rent" });
  version = pos 3;
  occured_at = 17;
}

append_events-Triple_example :
    Triple
      (λ t. t ≡ tables)
      (append_events json wallet_a (third ∷ []) (pos 2))
      (λ _ t. (current_version wallet_a tables ≡ pos 2) × (t ≡ extended json (third ∷ []) tables))
      (λ t.
        (t ≡ tables)
        ⊎ ((current_version wallet_a tables ≡ pos 2) × (t ≡ extended json (third ∷ []) tables)))
append_events-Triple_example = append_events-Triple json wallet_a (third ∷ []) (pos 2) tables

deposit-Triple_example :
    let method = Domain.deposit json fresh_1 (pos 30) "gift" in
    Triple
      (λ t. t ≡ tables)
      (Service.deposit json fresh_1 wallet_a (pos 30) "gift")
      (λ r t.
        (w : Wallet Json) × (method (account json wallet_a tables) ≡ ok w)
        × Reports json json-IsEventCodec fresh_1 wallet_a tables funded-IsConsistent
            (fits wallet_a)
            w
            r
        × Changed json wallet_a tables w t)
      (Failed json wallet_a tables method)
deposit-Triple_example =
    deposit-Triple json json-IsEventCodec fresh_1 wallet_a tables funded-IsConsistent
      (fits wallet_a) (pos 30) "gift"

withdraw-Triple_example :
    let method = Domain.withdraw json fresh_1 (pos 300) "rent" in
    Triple
      (λ t. t ≡ tables)
      (Service.withdraw json fresh_1 wallet_a (pos 300) "rent")
      (λ r t.
        (w : Wallet Json) × (method (account json wallet_a tables) ≡ ok w)
        × Reports json json-IsEventCodec fresh_1 wallet_a tables funded-IsConsistent
            (fits wallet_a)
            w
            r
        × Changed json wallet_a tables w t)
      (Failed json wallet_a tables method)
withdraw-Triple_example =
    withdraw-Triple json json-IsEventCodec fresh_1 wallet_a tables funded-IsConsistent
      (fits wallet_a) (pos 300) "rent"

reserve-Applies_example :
    Applies json json-IsEventCodec fresh_1 wallet_a tables funded-IsConsistent
      (fits wallet_a)
      (Domain.reserve json fresh_1 (pos 200) 31)
      (Service.reserve_for_transaction json fresh_1 wallet_a (pos 200) 31)
reserve-Applies_example =
    reserve-Applies json json-IsEventCodec fresh_1 wallet_a tables funded-IsConsistent
      (fits wallet_a) (pos 200) 31

create_wallet-Triple_example :
    Triple
      (λ t. t ≡ tables)
      (Service.create_wallet json fresh_1 73 15 8 "EUR")
      (λ r t.
        (r.wallet_id ≡ 73)
        × Created json json-IsEventCodec fresh_1 73 8 "EUR" tables funded-IsConsistent t)
      (λ t.
        (t ≡ tables)
        ⊎ Created json json-IsEventCodec fresh_1 73 8 "EUR" tables funded-IsConsistent t)
create_wallet-Triple_example =
    create_wallet-Triple json json-IsEventCodec fresh_1 73 8 "EUR" tables funded-IsConsistent 15

length-history_a : length (history wallet_a tables) ≡ 2
unfolding serve_all add64
length-history_a = refl

has_events : (es : List (Event Json)) → length es ≡ 2 → es ≢ []
has_events es l e = let k : length es ≡ 0 = ap length e in omega (arith, k, l)

get_balance-account_example :
    let reported = balance_of json (account json wallet_a tables) in
    Runs (Service.get_balance json wallet_a) tables (ok reported) tables
    × Triple
        (λ t. t ≡ tables)
        (Service.get_balance json wallet_a)
        (λ r t. (r ≡ reported) × (t ≡ tables))
        (λ t. t ≡ tables)
get_balance-account_example =
    get_balance-account json wallet_a tables funded-IsConsistent
      (has_events (history wallet_a tables) length-history_a)

-- The first wallet after a withdrawal of 300 of its 500 cents.
abbrev rented : Wallet Json
rented = record {
  id = wallet_a;
  user_id = 5;
  currency = "BRL";
  balance_cents = pos 200;
  reserved = pos 0;
  version = pos 3;
  changes =
      record {
        id = fresh_1.id;
        wallet_id = wallet_a;
        type = EventType.funds_withdrawn;
        payload = json.withdrawn.marshal (record { amount_cents = pos 300; description = "rent" });
        version = pos 3;
        occured_at = fresh_1.now;
      }
      ∷ [];
}

fresh_1-IsUnused : IsUnused fresh_1.id tables
unfolding serve_all add64
fresh_1-IsUnused = refl

rented-ok : Domain.withdraw json fresh_1 (pos 300) "rent" (account json wallet_a tables) ≡ ok rented
unfolding serve_all add64 sub64 Domain.withdraw
rented-ok = refl

withdraw-Completes_example :
    Completes json json-IsEventCodec fresh_1 wallet_a tables funded-IsConsistent
      (fits wallet_a)
      (has_events (history wallet_a tables) length-history_a)
      fresh_1-IsUnused
      rented
      (Service.withdraw json fresh_1 wallet_a (pos 300) "rent")
withdraw-Completes_example =
    withdraw-Completes json json-IsEventCodec fresh_1 wallet_a tables funded-IsConsistent
      (fits wallet_a) (has_events (history wallet_a tables) length-history_a) fresh_1-IsUnused
      rented (pos 300) "rent" rented-ok
