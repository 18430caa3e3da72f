-- ===== src/Wallet/Service/Changing/Success.antt =====
-- `change` succeeds while no statement fails.
use go_fintech_microservices.Prelude.{
  suc, ◌-◌, ◌^◌, ◌<◌, ◌≡◌, ◌≢◌, sym, ◌∙◌, [], ◌∷◌, some, Uuid, length, refl,
}
use mathlib.Core.Path.{subst}
use go_fintech_microservices.Prelude.Int.{pos}
use go_fintech_microservices.Exec.{Result, ok, pure}
use go_fintech_microservices.Db.Smooth.{
  Runs, Runs-bind, Runs-pure, Runs-lift, Runs-write, Runs-either,
}
use go_fintech_microservices.Wallet.Domain.{EventCodec, Wallet, zero_wallet}
use go_fintech_microservices.Wallet.Domain.Replay.{IsStep, step-changes, reconstitute-changes}
use go_fintech_microservices.Wallet.Store.{
  WalletTables, snapshot_of, upsert_snapshot, save_snapshot, append_events,
}
use go_fintech_microservices.Wallet.Store.Append.{extended}
use go_fintech_microservices.Wallet.Store.Append.Success.{IsUnused, append_next-Runs}
use go_fintech_microservices.Wallet.Store.History.{history}
use go_fintech_microservices.Wallet.Store.Consistency.{
  account, account-id, account-version, IsConsistent,
}
use go_fintech_microservices.Wallet.Service.Loading.Success.{load-Runs}
use go_fintech_microservices.Wallet.Service.Changing.{next_version}
use go_fintech_microservices.Wallet.Service.{maybe_snapshot, change}

module _ {Bytes : Type 0} (w : Wallet Bytes) where
  abbrev saved : WalletTables Bytes → WalletTables Bytes
  saved t = record t { snapshots = upsert_snapshot (snapshot_of w) t.snapshots }

  save_snapshot-Runs : (t : WalletTables Bytes) → Runs (save_snapshot w) t (ok tt) (saved t)
  unfolding save_snapshot
  save_snapshot-Runs t = Runs-write "save snapshot" (λ u. some (saved u)) t (saved t) refl

  maybe_snapshot-Runs :
      (t : WalletTables Bytes) → (t' : WalletTables Bytes) × Runs (maybe_snapshot w) t (ok tt) t'
  unfolding maybe_snapshot
  maybe_snapshot-Runs t =
      Runs-either _ (save_snapshot w) (pure tt) (ok tt) t (saved t, save_snapshot-Runs t)
        (t, Runs-pure tt t)

module _ {Bytes : Type 0} (codec : EventCodec Bytes) (wallet_id : Uuid) (t₀ : WalletTables Bytes)
    (c : IsConsistent codec t₀) (room : length (history wallet_id t₀) < 2 ^ 63 - 1)
    (exists : history wallet_id t₀ ≢ []) (w : Wallet Bytes)
    (s : IsStep codec (account codec wallet_id t₀) w) (unused : IsUnused s.event.id t₀) where
  owner : s.event.wallet_id ≡ wallet_id
  owner = s.owner ∙ account-id codec wallet_id t₀ c exists

  appended-Runs :
      Runs
        (append_events codec wallet_id w.changes (account codec wallet_id t₀).version)
        t₀
        (ok tt)
        (extended codec (s.event ∷ []) t₀)
  appended-Runs =
      append_next-Runs codec s.event t₀ (c.numbered s.event.wallet_id)
        (subst (λ v. s.event.version ≡ pos (suc (length (history v t₀)))) (sym owner)
          (s.next ∙ next_version codec wallet_id t₀ c room exists))
        unused wallet_id w.changes _ owner
        (step-changes codec (account codec wallet_id t₀) w s
          (reconstitute-changes codec (history wallet_id t₀) zero_wallet))
        (account-version codec wallet_id t₀ c)

  pub change-Runs :
      (method : Wallet Bytes → Result (Wallet Bytes))
      → method (account codec wallet_id t₀) ≡ ok w
      → (t : WalletTables Bytes) × Runs (change codec wallet_id method) t₀ (ok w) t
  unfolding change
  change-Runs method result =
      let t₁ = extended codec (s.event ∷ []) t₀ in
      let (t, snapshot) = maybe_snapshot-Runs w t₁ in
      (
        t,
        Runs-bind _ _ (account codec wallet_id t₀) _ t₀ t₀ t (load-Runs codec wallet_id t₀ c exists)
            (Runs-bind _ _ w _ t₀ t₀ t (Runs-lift _ _ t₀ result) (
              Runs-bind _ _ tt _ t₀ t₁ t appended-Runs
                (Runs-bind _ _ tt _ t₁ t t snapshot (Runs-pure w t)))),
      )
