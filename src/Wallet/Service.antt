-- ===== src/Wallet/Service.antt =====
-- services/wallet/internal/application/wallet_service.go
pub mod Loading
pub mod Changing
pub mod Creating
pub mod Movements
pub mod Calls
use go_fintech_microservices.Prelude.{
  ℕ, ◌+◌, ◌%◌, Bool, true, false, ◌&&◌, ◌==◌, List, [], ◌∷◌, String, Uuid, Instant, Fresh, nil_uuid,
  if◌then◌else◌,
}
use go_fintech_microservices.Prelude.Int.{ℤ, pos, negsuc, eqb_ℤ, pos_part, neg_part}
use go_fintech_microservices.Errors.{GoError, not_found, new_error, foreign, text}
use go_fintech_microservices.Exec.{
  Result, ok, err, Exec, pure, raise, lift, raise_if, attempt, ◌>>=◌, ◌>>◌,
}
use go_fintech_microservices.Wallet.Domain.{
  EventCodec, Event, Wallet, zero_wallet, snapshot_interval, reconstitute,
}
use go_fintech_microservices.Wallet.Domain
use go_fintech_microservices.Wallet.Store.{
  WalletDb, load_events, save_snapshot, load_snapshot, append_events,
}

pub record CreateWalletResult : Type 0 where
  pub wallet_id : Uuid
  pub created_at : Instant

pub record BalanceResult : Type 0 where
  pub wallet_id : Uuid
  pub balance_cents : ℤ
  pub currency : String
  pub version : ℤ

-- `DepositResult`, and `WithdrawResult` of the same fields.
pub record MovementResult : Type 0 where
  pub event_id : Uuid
  pub new_balance : ℤ
  pub version : ℤ

-- `x % 50 == 0` for an `int64`, whose remainder has the sign of `x`.
abbrev is_multiple : ℤ → ℕ → Bool
is_multiple v n = (pos_part v + neg_part v) % n == 0

abbrev is_empty {ℓ} : {A : Type ℓ} → List A → Bool
is_empty [] = true
is_empty (x ∷ xs) = false

module _ {Bytes : Type 0} where
  -- What `load` starts from: the snapshot and its version, or a zero wallet where the snapshot
  -- could not be loaded.
  abbrev base : Result (Wallet Bytes × ℤ) → Wallet Bytes × ℤ
  base (ok found) = found
  base (err e) = (zero_wallet, pos 0)

  unfoldable pub maybe_snapshot : Wallet Bytes → Exec (WalletDb Bytes) (Unit {0})
  unfolding save_snapshot
  maybe_snapshot w = if is_multiple w.version snapshot_interval then save_snapshot w else pure tt

  -- `changes[0].ID`; on an empty slice Go panics.
  unfoldable pub first_change_id : List (Event Bytes) → Exec (WalletDb Bytes) Uuid
  first_change_id [] = raise (foreign (text "index out of range [0] with length 0"))
  first_change_id (e ∷ es) = pure e.id

  movement_result : Wallet Bytes → Exec (WalletDb Bytes) MovementResult
  unfolding first_change_id
  movement_result wallet = do
    event_id ← first_change_id wallet.changes
    pure (record {
      event_id = event_id;
      new_balance = wallet.balance_cents;
      version = wallet.version;
    })

module _ {Bytes : Type 0} (codec : EventCodec Bytes) where
  load_from : Uuid → Wallet Bytes × ℤ → Exec (WalletDb Bytes) (Wallet Bytes)
  unfolding load_events reconstitute
  load_from wallet_id (wallet, snapshot_version) = do
    events ← load_events wallet_id snapshot_version
    raise_if (is_empty events && eqb_ℤ snapshot_version (pos 0))
        (new_error not_found "wallet not found")
    pure (reconstitute codec events wallet)

  unfoldable pub load : Uuid → Exec (WalletDb Bytes) (Wallet Bytes)
  unfolding load_snapshot load_from
  load wallet_id = attempt (load_snapshot wallet_id) (λ r. load_from wallet_id (base r))

  -- The common course of the methods that change a wallet: load it, run the method of the domain,
  -- append its changes at the version that was loaded, and save a snapshot where one is due.
  unfoldable pub change :
      Uuid → (Wallet Bytes → Result (Wallet Bytes)) → Exec (WalletDb Bytes) (Wallet Bytes)
  unfolding load append_events maybe_snapshot
  change wallet_id method = do
    wallet ← load wallet_id
    wallet' ← lift (method wallet)
    append_events codec wallet_id wallet'.changes wallet.version
    maybe_snapshot wallet'
    pure wallet'

  unfoldable pub create_wallet :
      Fresh → Uuid → Instant → Uuid → String → Exec (WalletDb Bytes) CreateWalletResult
  unfolding Domain.new_wallet append_events
  create_wallet fresh wallet_id later user_id currency = do
    wallet ← lift (Domain.new_wallet codec fresh wallet_id user_id currency)
    append_events codec wallet.id wallet.changes (pos 0)
    pure (record { wallet_id = wallet.id; created_at = later })

  unfoldable pub get_balance : Uuid → Exec (WalletDb Bytes) BalanceResult
  unfolding load
  get_balance wallet_id = do
    wallet ← load wallet_id
    pure (record {
      wallet_id = wallet.id;
      balance_cents = wallet.balance_cents;
      currency = wallet.currency;
      version = wallet.version;
    })

  unfoldable pub deposit : Fresh → Uuid → ℤ → String → Exec (WalletDb Bytes) MovementResult
  unfolding change Domain.deposit movement_result
  deposit fresh wallet_id amount_cents description = do
    wallet ← change wallet_id (Domain.deposit codec fresh amount_cents description)
    movement_result wallet

  unfoldable pub withdraw : Fresh → Uuid → ℤ → String → Exec (WalletDb Bytes) MovementResult
  unfolding change Domain.withdraw movement_result
  withdraw fresh wallet_id amount_cents description = do
    wallet ← change wallet_id (Domain.withdraw codec fresh amount_cents description)
    movement_result wallet

  unfoldable pub reserve_for_transaction :
      Fresh → Uuid → ℤ → Uuid → Exec (WalletDb Bytes) (Unit {0})
  unfolding change Domain.reserve
  reserve_for_transaction fresh wallet_id amount_cents transaction_id = do
    change wallet_id (Domain.reserve codec fresh amount_cents transaction_id)
    pure tt

  -- The transaction's identifier is not used.
  unfoldable pub credit_for_transaction : Fresh → Uuid → ℤ → Uuid → Exec (WalletDb Bytes) (Unit {0})
  unfolding change Domain.deposit
  credit_for_transaction fresh wallet_id amount_cents transaction_id = do
    change wallet_id (Domain.deposit codec fresh amount_cents "saga credit")
    pure tt

  unfoldable pub release_reservation : Fresh → Uuid → ℤ → Uuid → Exec (WalletDb Bytes) (Unit {0})
  unfolding change Domain.release
  release_reservation fresh wallet_id amount_cents transaction_id = do
    change wallet_id (λ w. ok (Domain.release codec fresh amount_cents transaction_id w))
    pure tt
