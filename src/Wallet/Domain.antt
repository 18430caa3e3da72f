-- ===== src/Wallet/Domain.antt =====
-- services/wallet/internal/domain/wallet.go and events.go: the wallet aggregate. A method returns
-- the wallet that it leaves; one that can fail returns the error instead, and then the wallet of the
-- caller is as it was.
pub mod Solvency
pub mod Payloads
pub mod Replay
use go_fintech_microservices.Prelude.{
  ℕ, String, List, [], ◌∷◌, ◌++◌, Uuid, nil_uuid, Instant, Fresh, str_eq, if◌then◌else◌,
}
use go_fintech_microservices.Prelude.Int.{ℤ, pos, ltb_ℤ, leb_ℤ}
use go_fintech_microservices.Prelude.Int64.{add64, sub64}
use go_fintech_microservices.Errors.{invalid_argument, insufficient_funds, new_error}
use go_fintech_microservices.Exec.{Result, ok, err}

abbrev pub snapshot_interval : ℕ
snapshot_interval = 50

-- The strings of the type `EventType`; `other` is any string that is no constant of the package.
pub data EventType : Type 0 where
  wallet_created funds_deposited funds_withdrawn funds_reserved funds_released : EventType
  other : String → EventType

pub record WalletCreatedPayload : Type 0 where
  pub user_id : Uuid
  pub currency : String

pub record FundsDepositedPayload : Type 0 where
  pub amount_cents : ℤ
  pub description : String

pub record FundsWithdrawnPayload : Type 0 where
  pub amount_cents : ℤ
  pub description : String

pub record FundsReservedPayload : Type 0 where
  pub amount_cents : ℤ
  pub transaction_id : Uuid

pub record FundsReleasedPayload : Type 0 where
  pub amount_cents : ℤ
  pub transaction_id : Uuid

-- encoding/json at one payload type: the bytes that `Marshal` makes, what `Unmarshal` leaves in a
-- zero payload (its error is ignored), and the bytes that a JSONB column returns for bytes written.
pub record Codec (Bytes P : Type 0) : Type 0 where
  pub marshal : P → Bytes
  pub unmarshal : Bytes → P

pub record EventCodec (Bytes : Type 0) : Type 0 where
  pub created : Codec Bytes WalletCreatedPayload
  pub deposited : Codec Bytes FundsDepositedPayload
  pub withdrawn : Codec Bytes FundsWithdrawnPayload
  pub reserved : Codec Bytes FundsReservedPayload
  pub released : Codec Bytes FundsReleasedPayload
  pub column : Bytes → Bytes

pub record Event (Bytes : Type 0) : Type 0 where
  pub id : Uuid
  pub wallet_id : Uuid
  pub type : EventType
  pub payload : Bytes
  pub version : ℤ
  pub occured_at : Instant

pub record Wallet (Bytes : Type 0) : Type 0 where
  pub id : Uuid
  pub user_id : Uuid
  pub currency : String
  pub balance_cents : ℤ
  pub reserved : ℤ
  pub version : ℤ
  pub changes : List (Event Bytes)

-- `&Wallet{}`
abbrev pub zero_wallet : {Bytes : Type 0} → Wallet Bytes
zero_wallet = record {
  id = nil_uuid;
  user_id = nil_uuid;
  currency = "";
  balance_cents = pos 0;
  reserved = pos 0;
  version = pos 0;
  changes = [];
}

module _ {Bytes : Type 0} where
  unfoldable pub available_balance : Wallet Bytes → ℤ
  available_balance w = sub64 w.balance_cents w.reserved

  unfoldable pub clear_changes : Wallet Bytes → Wallet Bytes
  clear_changes w = record w { changes = [] }

module _ {Bytes : Type 0} (codec : EventCodec Bytes) where
  -- What the table returns for an event that was inserted.
  abbrev pub stored : Event Bytes → Event Bytes
  stored e = record e { payload = codec.column e.payload }

  -- The `switch` of `applyEvent`.
  apply_as : EventType → Event Bytes → Wallet Bytes → Wallet Bytes
  apply_as wallet_created e w =
      let p = codec.created.unmarshal e.payload in
      record w { id = e.wallet_id; user_id = p.user_id; currency = p.currency }
  apply_as funds_deposited e w =
      let p = codec.deposited.unmarshal e.payload in
      record w { balance_cents = add64 w.balance_cents p.amount_cents }
  apply_as funds_withdrawn e w =
      let p = codec.withdrawn.unmarshal e.payload in
      record w { balance_cents = sub64 w.balance_cents p.amount_cents }
  apply_as funds_reserved e w =
      let p = codec.reserved.unmarshal e.payload in
      record w { reserved = add64 w.reserved p.amount_cents }
  apply_as funds_released e w =
      let p = codec.released.unmarshal e.payload in
      record w { reserved = sub64 w.reserved p.amount_cents }
  apply_as (other s) e w = w

  unfoldable pub apply_event : Event Bytes → Wallet Bytes → Wallet Bytes
  unfolding apply_as
  apply_event e w = apply_as e.type e w

  -- `apply`: a new event takes effect and is kept among the changes.
  unfoldable pub apply : Event Bytes → Wallet Bytes → Wallet Bytes
  unfolding apply_event
  apply e w =
      let w' = apply_event e w in record w' { version = e.version; changes = w'.changes ++ e ∷ [] }

  -- One round of the loop of `Reconstitute`.
  unfoldable pub replay_event : Wallet Bytes → Event Bytes → Wallet Bytes
  unfolding apply_event
  replay_event w e = let w' = apply_event e w in record w' { version = e.version }

  unfoldable pub reconstitute : List (Event Bytes) → Wallet Bytes → Wallet Bytes
  unfolding replay_event
  reconstitute [] w = w
  reconstitute (e ∷ es) w = reconstitute es (replay_event w e)

  -- `NewWallet`; the fresh values are those of the event, and the identifier of the wallet.
  unfoldable pub new_wallet : Fresh → Uuid → Uuid → String → Result (Wallet Bytes)
  unfolding apply
  new_wallet fresh wallet_id user_id currency =
      if str_eq currency ""
      then err (new_error invalid_argument "currency required")
      else ok (
          apply
            (record {
              id = fresh.id;
              wallet_id = wallet_id;
              type = wallet_created;
              payload = codec.created.marshal (record { user_id = user_id; currency = currency });
              version = pos 1;
              occured_at = fresh.now;
            })
            zero_wallet)

  -- The events that the methods below build.
  next_event : Fresh → EventType → Bytes → Wallet Bytes → Event Bytes
  next_event fresh type payload w = record {
    id = fresh.id;
    wallet_id = w.id;
    type = type;
    payload = payload;
    version = add64 w.version (pos 1);
    occured_at = fresh.now;
  }

  unfoldable pub deposit : Fresh → ℤ → String → Wallet Bytes → Result (Wallet Bytes)
  unfolding apply next_event
  deposit fresh amount_cents description w =
      if leb_ℤ amount_cents (pos 0)
      then err (new_error invalid_argument "deposit amount must be positive")
      else ok (
          apply
            (next_event fresh funds_deposited
              (codec.deposited.marshal
                (record { amount_cents = amount_cents; description = description }))
              w)
            w)

  unfoldable pub withdraw : Fresh → ℤ → String → Wallet Bytes → Result (Wallet Bytes)
  unfolding apply next_event available_balance
  withdraw fresh amount_cents description w =
      if leb_ℤ amount_cents (pos 0)
      then err (new_error invalid_argument "withdrawal amount must be positive")
      else if ltb_ℤ (available_balance w) amount_cents
      then err (new_error insufficient_funds "insufficient funds")
      else ok (
          apply
            (next_event fresh funds_withdrawn
              (codec.withdrawn.marshal
                (record { amount_cents = amount_cents; description = description }))
              w)
            w)

  unfoldable pub reserve : Fresh → ℤ → Uuid → Wallet Bytes → Result (Wallet Bytes)
  unfolding apply next_event available_balance
  reserve fresh amount_cents transaction_id w =
      if ltb_ℤ (available_balance w) amount_cents
      then err (new_error insufficient_funds "insufficient funds to reserve")
      else ok (
          apply
            (next_event fresh funds_reserved
              (codec.reserved.marshal
                (record { amount_cents = amount_cents; transaction_id = transaction_id }))
              w)
            w)

  unfoldable pub release : Fresh → ℤ → Uuid → Wallet Bytes → Wallet Bytes
  unfolding apply next_event
  release fresh amount_cents transaction_id w =
      apply
        (next_event fresh funds_released
          (codec.released.marshal
            (record { amount_cents = amount_cents; transaction_id = transaction_id }))
          w)
        w
