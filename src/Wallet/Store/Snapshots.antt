-- ===== src/Wallet/Store/Snapshots.antt =====
-- What `LoadSnapshot` and `LoadEvents` return.
use go_fintech_microservices.Prelude.{
  ℕ, ◌≡◌, refl, sym, ◌∙◌, ap, Option, some, none, Uuid, drop, some-inj,
}
use mathlib.Core.Path.{subst}
use go_fintech_microservices.Prelude.Int.{ℤ, pos}
use go_fintech_microservices.Db.Laws.{
  Triple, Triple-bind, Triple-pure, Triple-raise, Triple-weaken, Triple-given,
}
use go_fintech_microservices.Db.Statements.{Triple-select, Triple-select_rows, Triple-write}
use go_fintech_microservices.Wallet.Domain.{Wallet}
use go_fintech_microservices.Wallet.Store.{
  WalletTables, SnapshotRow, find_snapshot, wallet_of, load_events, load_snapshot, scanned,
  events_after, save_snapshot, snapshot_of, upsert_snapshot,
}
use go_fintech_microservices.Wallet.Store.History.{history, IsNumbered, events_after-drop}

module _ {Bytes : Type 0} (wallet_id : Uuid) (t₀ : WalletTables Bytes) where
  -- A loaded snapshot is the row of its wallet.
  abbrev pub IsLoaded : Wallet Bytes × ℤ → Type 0
  IsLoaded b =
      (row : SnapshotRow) × (find_snapshot wallet_id t₀.snapshots ≡ some row)
      × (b ≡ (wallet_of row, row.version))

  scanned-Triple :
      (found : Option SnapshotRow)
      → found ≡ find_snapshot wallet_id t₀.snapshots
      → Triple (λ t. t ≡ t₀) (scanned found) (λ b t. IsLoaded b × (t ≡ t₀)) (λ t. t ≡ t₀)
  unfolding scanned
  scanned-Triple none e = Triple-raise _ (λ t p. p)
  scanned-Triple (some row) e = Triple-pure _ (λ t p. ((row, sym e, refl), p))

  pub load_snapshot-Triple :
      Triple (λ t. t ≡ t₀) (load_snapshot wallet_id) (λ b t. IsLoaded b × (t ≡ t₀)) (λ t. t ≡ t₀)
  unfolding load_snapshot
  load_snapshot-Triple =
      Triple-bind {R = λ found t. (found ≡ find_snapshot wallet_id t₀.snapshots) × (t ≡ t₀)} _ _
        (Triple-select _ _
          (λ t p. (ap (λ (u : WalletTables Bytes). find_snapshot wallet_id u.snapshots) p, p))
          (λ t p. p))
        (λ found.
          Triple-given _ (λ t p. p.0)
            (λ e. Triple-weaken _ (λ t p. p.1) (λ b t q. q) (λ t q. q) (scanned-Triple found e)))

  -- Of a numbered history the events after version `k` are those after the first `k`.
  pub load_events-Triple :
      (k : ℕ) (v : ℤ)
      → v ≡ pos k
      → IsNumbered 0 (history wallet_id t₀)
      → Triple
          (λ t. t ≡ t₀)
          (load_events wallet_id v)
          (λ es t. (es ≡ drop k (history wallet_id t₀)) × (t ≡ t₀))
          (λ t. t ≡ t₀)
  unfolding load_events
  load_events-Triple k v e n =
      Triple-weaken _ (λ t p. p)
        (λ es t q. (
          q.0
              ∙ ap (events_after wallet_id v) q.1
              ∙ ap (λ u. events_after wallet_id u t₀) e
              ∙ events_after-drop wallet_id k t₀ n,
          q.1,
        ))
        (λ t q. q)
        (Triple-select_rows "load events" "scan event" _ (events_after wallet_id v) (λ t p. p))

-- Saving a snapshot keeps what the written row keeps.
pub save_snapshot-Triple :
    {Bytes : Type 0} {P : WalletTables Bytes → Type 0} (w : Wallet Bytes)
    → ((t : WalletTables Bytes)
        → P t
        → P (record t { snapshots = upsert_snapshot (snapshot_of w) t.snapshots }))
    → Triple P (save_snapshot w) (λ _ t. P t) P
unfolding save_snapshot
save_snapshot-Triple {P} w h =
    Triple-write _ _ (λ t t' p e. subst P (some-inj e) (h t p))
      (λ t t' p e. subst P (some-inj e) (h t p)) (λ t p. p)
