-- ===== src/Tests.antt =====
-- Concrete codecs and databases, and the theorems at them.
pub mod Wallets
pub mod Sagas
pub mod Transfers
pub mod Checks
pub mod Messages
pub mod Access
pub mod Topics
pub mod Accounts
pub mod Projections
pub mod Limits
use go_fintech_microservices.Prelude.{
  nil_uuid, ◌≤◌, refl, [], ◌∷◌, Uuid, Fresh, String, List, arith, length,
}
use go_fintech_microservices.Prelude.Int.{ℤ, pos}
use go_fintech_microservices.Db.{Db}
use go_fintech_microservices.Wallet.Domain
use go_fintech_microservices.Wallet.Domain.{Codec, EventCodec}
use go_fintech_microservices.Wallet.Domain.Payloads.{IsCodec, IsEventCodec}
use go_fintech_microservices.Wallet.Store.{WalletTables, WalletDb}
use go_fintech_microservices.Wallet.Store.Consistency.{IsConsistent}
use go_fintech_microservices.Wallet.Saga.{TransferPayload, OutboxPayload}
use go_fintech_microservices.Wallet.Service.Calls.{Call, IsShort, serve_all, serve_all-IsConsistent}

-- Bytes that are the payload itself.
pub data Json : Type 0 where
  created_json : Domain.WalletCreatedPayload → Json
  deposited_json : Domain.FundsDepositedPayload → Json
  withdrawn_json : Domain.FundsWithdrawnPayload → Json
  reserved_json : Domain.FundsReservedPayload → Json
  released_json : Domain.FundsReleasedPayload → Json
  transfer_json : TransferPayload → Json
  outbox_json : OutboxPayload → Json

abbrev read_created : Json → Domain.WalletCreatedPayload
read_created (created_json p) = p
read_created _ = record { user_id = nil_uuid; currency = "" }

abbrev read_deposited : Json → Domain.FundsDepositedPayload
read_deposited (deposited_json p) = p
read_deposited _ = record { amount_cents = pos 0; description = "" }

abbrev read_withdrawn : Json → Domain.FundsWithdrawnPayload
read_withdrawn (withdrawn_json p) = p
read_withdrawn _ = record { amount_cents = pos 0; description = "" }

abbrev read_reserved : Json → Domain.FundsReservedPayload
read_reserved (reserved_json p) = p
read_reserved _ = record { amount_cents = pos 0; transaction_id = nil_uuid }

abbrev read_released : Json → Domain.FundsReleasedPayload
read_released (released_json p) = p
read_released _ = record { amount_cents = pos 0; transaction_id = nil_uuid }

abbrev pub json : EventCodec Json
json = record {
  created = record { marshal = created_json; unmarshal = read_created };
  deposited = record { marshal = deposited_json; unmarshal = read_deposited };
  withdrawn = record { marshal = withdrawn_json; unmarshal = read_withdrawn };
  reserved = record { marshal = reserved_json; unmarshal = read_reserved };
  released = record { marshal = released_json; unmarshal = read_released };
  column = λ b. b;
}

pub json-IsEventCodec : IsEventCodec json
json-IsEventCodec = record {
  created = record { direct = λ p. refl; stored = λ p. refl };
  deposited = record { direct = λ p. refl; stored = λ p. refl };
  withdrawn = record { direct = λ p. refl; stored = λ p. refl };
  reserved = record { direct = λ p. refl; stored = λ p. refl };
  released = record { direct = λ p. refl; stored = λ p. refl };
}

abbrev pub empty : WalletDb Json
empty = record {
  tables = record { events = []; snapshots = []; outbox = []; processed = [] };
  faults = [];
}

pub empty-IsShort : IsShort json 0 empty.tables
empty-IsShort = record {
  consistent = record { numbered = λ v. tt; opened = λ v. tt; snapped = λ v row h. cc };
  short = λ v. omega arith;
}

abbrev pub wallet_a : Uuid
wallet_a = 71

abbrev pub wallet_b : Uuid
wallet_b = 72

abbrev pub fresh_1 : Fresh
fresh_1 = record { id = 901; now = 11 }

abbrev pub fresh_2 : Fresh
fresh_2 = record { id = 902; now = 12 }

-- Two wallets; the first holds 500 cents.
abbrev pub opening : List Call
opening =
    Call.create (record { id = 11; now = 1 }) wallet_a 2 5 "BRL"
    ∷ Call.create (record { id = 12; now = 3 }) wallet_b 4 6 "BRL"
    ∷ Call.deposit (record { id = 13; now = 5 }) wallet_a (pos 500) "salary"
    ∷ []

abbrev pub funded : WalletDb Json
funded = serve_all json opening empty

pub funded-IsShort : IsShort json 3 funded.tables
funded-IsShort =
    serve_all-IsConsistent json json-IsEventCodec opening 0 empty empty-IsShort (omega arith)

pub funded-IsConsistent : IsConsistent json funded.tables
funded-IsConsistent = funded-IsShort.consistent
