-- ===== src/Wallet/Store.antt =====
-- services/wallet/internal/adapters/outbound/postgres/event_store.go, and the tables of
-- services/wallet/migrations/000001_create_tables.up.sql.
pub mod Append
pub mod History
pub mod Consistency
pub mod Preservation
pub mod Snapshots
use go_fintech_microservices.Prelude.{
  ℕ, Bool, true, not, ◌&&◌, ◌||◌, List, [], ◌∷◌, ◌++◌, Option, none, some, Uuid, Instant, String,
  ◌==◌, filter, any, if◌then◌else◌,
}
use go_fintech_microservices.Prelude.Int.{ℤ, pos, ltb_ℤ, leb_ℤ, eqb_ℤ}
use go_fintech_microservices.Errors.{not_found, conflict, internal, sprintf, coded, new_error, wrap}
use go_fintech_microservices.Exec.{Exec, pure, raise, raise_if, ◌>>=◌, ◌>>◌}
use go_fintech_microservices.Db.{Db, driver_error, select, select_rows, write, transaction}
use go_fintech_microservices.Wallet.Domain.{EventCodec, Event, Wallet, stored}

-- A row of `wallet_snapshots`.
pub record SnapshotRow : Type 0 where
  pub wallet_id : Uuid
  pub balance_cents : ℤ
  pub reserved : ℤ
  pub currency : String
  pub user_id : Uuid
  pub version : ℤ

-- The strings of the type `OutboxEventType`.
pub data OutboxEventType : Type 0 where
  funds_reserved funds_released funds_deposited : OutboxEventType

-- A row of `wallet_outbox_events`, and the struct `WalletOutboxEvent`.
pub record WalletOutboxEvent (Bytes : Type 0) : Type 0 where
  pub id : Uuid
  pub topic : String
  pub key : String
  pub payload : Bytes
  pub event_type : OutboxEventType
  pub published_at : Option Instant
  pub created_at : Instant

-- The tables of the wallet's database; rows stand in the order of their insertion.
pub record WalletTables (Bytes : Type 0) : Type 0 where
  pub events : List (Event Bytes)
  pub snapshots : List SnapshotRow
  pub outbox : List (WalletOutboxEvent Bytes)
  pub processed : List Uuid

abbrev pub WalletDb : Type 0 → Type 0
WalletDb Bytes = Db (WalletTables Bytes)

abbrev pub find_snapshot : Uuid → List SnapshotRow → Option SnapshotRow
find_snapshot wallet_id [] = none
find_snapshot wallet_id (row ∷ rows) =
    if row.wallet_id == wallet_id then some row else find_snapshot wallet_id rows

-- `INSERT … ON CONFLICT (wallet_id) DO UPDATE`: the owner and the currency of a row stay.
pub upsert_snapshot : SnapshotRow → List SnapshotRow → List SnapshotRow
upsert_snapshot new [] = new ∷ []
upsert_snapshot new (row ∷ rows) =
    if row.wallet_id == new.wallet_id
    then record row {
      balance_cents = new.balance_cents;
      reserved = new.reserved;
      version = new.version;
    }
      ∷ rows
    else row ∷ upsert_snapshot new rows

module _ {Bytes : Type 0} where
  abbrev pub of_wallet : Uuid → Event Bytes → Bool
  of_wallet wallet_id e = e.wallet_id == wallet_id

  max_from : ℤ → List (Event Bytes) → ℤ
  max_from v [] = v
  max_from v (e ∷ es) = max_from (if ltb_ℤ v e.version then e.version else v) es

  pub max_version : List (Event Bytes) → ℤ
  unfolding max_from
  max_version [] = pos 0
  max_version (e ∷ es) = max_from e.version es

  -- `SELECT COALESCE(MAX(version), 0) FROM wallet_events WHERE wallet_id = $1`
  pub current_version : Uuid → WalletTables Bytes → ℤ
  unfolding max_version
  current_version wallet_id t = max_version (filter (of_wallet wallet_id) t.events)

  -- The primary key, and `UNIQUE (wallet_id, version)`.
  abbrev clashes : Event Bytes → Event Bytes → Bool
  clashes e row = e.id == row.id || e.wallet_id == row.wallet_id && eqb_ℤ e.version row.version

  insert_by_version : Event Bytes → List (Event Bytes) → List (Event Bytes)
  insert_by_version e [] = e ∷ []
  insert_by_version e (row ∷ rows) =
      let rest = insert_by_version e rows in
      if leb_ℤ e.version row.version then e ∷ row ∷ rows else row ∷ rest

  -- `ORDER BY version ASC`
  order_by_version : List (Event Bytes) → List (Event Bytes)
  unfolding insert_by_version
  order_by_version [] = []
  order_by_version (e ∷ es) = insert_by_version e (order_by_version es)

  -- The `SELECT` of `LoadEvents`.
  pub events_after : Uuid → ℤ → WalletTables Bytes → List (Event Bytes)
  unfolding order_by_version
  events_after wallet_id after_version t =
      order_by_version
        (filter (λ e. of_wallet wallet_id e && ltb_ℤ after_version e.version) t.events)

  unfoldable pub load_events : Uuid → ℤ → Exec (WalletDb Bytes) (List (Event Bytes))
  unfolding select_rows events_after
  load_events wallet_id after_version =
      select_rows "load events" "scan event" (wrap internal "iterate events" driver_error)
        (events_after wallet_id after_version)

  unfoldable pub snapshot_of : Wallet Bytes → SnapshotRow
  snapshot_of w = record {
    wallet_id = w.id;
    balance_cents = w.balance_cents;
    reserved = w.reserved;
    currency = w.currency;
    user_id = w.user_id;
    version = w.version;
  }

  unfoldable pub save_snapshot : Wallet Bytes → Exec (WalletDb Bytes) (Unit {0})
  unfolding write upsert_snapshot snapshot_of
  save_snapshot w =
      write "save snapshot"
        (λ t. some (record t { snapshots = upsert_snapshot (snapshot_of w) t.snapshots }))

  unfoldable pub wallet_of : SnapshotRow → Wallet Bytes
  wallet_of row = record {
    id = row.wallet_id;
    user_id = row.user_id;
    currency = row.currency;
    balance_cents = row.balance_cents;
    reserved = row.reserved;
    version = row.version;
    changes = [];
  }

  unfoldable pub scanned : Option SnapshotRow → Exec (WalletDb Bytes) (Wallet Bytes × ℤ)
  unfolding wallet_of
  scanned none = raise (new_error not_found "no snapshot")
  scanned (some row) = pure (wallet_of row, row.version)

  unfoldable pub load_snapshot : Uuid → Exec (WalletDb Bytes) (Wallet Bytes × ℤ)
  unfolding select scanned
  load_snapshot wallet_id = do
    found ← select "load snapshot" (λ t. find_snapshot wallet_id t.snapshots)
    scanned found

module _ {Bytes : Type 0} (codec : EventCodec Bytes) where
  insert_event : Event Bytes → WalletTables Bytes → Option (WalletTables Bytes)
  insert_event e t =
      if any (clashes e) t.events
      then none
      else some (record t { events = t.events ++ stored codec e ∷ [] })

  insert_events : List (Event Bytes) → Exec (WalletDb Bytes) (Unit {0})
  unfolding write insert_event
  insert_events [] = pure tt
  insert_events (e ∷ es) = do write "append event" (insert_event e); insert_events es

  -- The statements between `BeginTxx` and `Commit`.
  append_body : Uuid → List (Event Bytes) → ℤ → Exec (WalletDb Bytes) (Unit {0})
  unfolding select current_version insert_events
  append_body wallet_id events expected_version = do
    current ← select "read current version" (current_version wallet_id)
    raise_if (not (eqb_ℤ current expected_version)) (
        coded conflict (
          sprintf "optimistic concurrency conflict: expected version %d, got %d"
            (expected_version ∷ current ∷ [])))
    insert_events events

  unfoldable pub append_events : Uuid → List (Event Bytes) → ℤ → Exec (WalletDb Bytes) (Unit {0})
  unfolding transaction append_body
  append_events wallet_id events expected_version =
      transaction "begin transaction" "commit transaction"
        (append_body wallet_id events expected_version)
