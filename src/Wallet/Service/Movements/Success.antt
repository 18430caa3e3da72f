-- ===== src/Wallet/Service/Movements/Success.antt =====
-- `Deposit` and `Withdraw` succeed while no statement fails.
use go_fintech_microservices.Prelude.{
  ◌-◌, ◌^◌, ◌<◌, ◌≡◌, ◌≢◌, sym, ◌∙◌, refl, [], ◌∷◌, String, Uuid, Fresh, length,
}
use mathlib.Core.Path.{subst}
use go_fintech_microservices.Prelude.Int.{ℤ}
use go_fintech_microservices.Exec.{Result, ok, ok-inj, Exec, ◌>>=◌}
use go_fintech_microservices.Db.Laws.{Triple}
use go_fintech_microservices.Db.Smooth.{Runs, Runs-bind, Runs-pure, Runs-Triple}
use go_fintech_microservices.Wallet.Domain
use go_fintech_microservices.Wallet.Domain.{EventCodec, Event, Wallet, zero_wallet}
use go_fintech_microservices.Wallet.Domain.Payloads.{IsEventCodec}
use go_fintech_microservices.Wallet.Domain.Replay.{
  deposit-IsStep, withdraw-IsStep, deposit-id, withdraw-id, IsStep, step-changes,
  reconstitute-changes,
}
use go_fintech_microservices.Wallet.Store.{WalletTables, WalletDb}
use go_fintech_microservices.Wallet.Store.Append.Success.{IsUnused}
use go_fintech_microservices.Wallet.Store.History.{history}
use go_fintech_microservices.Wallet.Store.Consistency.{account, IsConsistent}
use go_fintech_microservices.Wallet.Service.Changing.{Changed, Failed}
use go_fintech_microservices.Wallet.Service.Changing.Success.{change-Runs}
use go_fintech_microservices.Wallet.Service.Movements.{Reports, deposit-Triple, withdraw-Triple}
use go_fintech_microservices.Wallet.Service.{
  MovementResult, change, movement_result, first_change_id, deposit, withdraw,
}

reply : {Bytes : Type 0} → Event Bytes → Wallet Bytes → MovementResult
reply e w = record { event_id = e.id; new_balance = w.balance_cents; version = w.version }

movement_result-Runs :
    {Bytes : Type 0} (w : Wallet Bytes) (e : Event Bytes) (t : WalletTables Bytes)
    → w.changes ≡ e ∷ []
    → Runs (movement_result w) t (ok (reply e w)) t
unfolding movement_result first_change_id reply
movement_result-Runs w e t changes =
    Runs-bind _ _ e.id _ t t t
      (subst (λ es. Runs (first_change_id es) t (ok e.id) t) (sym changes) (Runs-pure e.id t))
      (Runs-pure _ t)

module _ {Bytes : Type 0} (codec : EventCodec Bytes) (laws : IsEventCodec codec) (fresh : Fresh)
    (wallet_id : Uuid) (t₀ : WalletTables Bytes) (c : IsConsistent codec t₀)
    (room : length (history wallet_id t₀) < 2 ^ 63 - 1) (exists : history wallet_id t₀ ≢ [])
    (unused : IsUnused fresh.id t₀) (w : Wallet Bytes) where
  -- The action returns a reply that reports the wallet, whose account it has changed.
  abbrev pub Completes : Exec (WalletDb Bytes) MovementResult → Type 0
  Completes action =
      (r : MovementResult) × (t : WalletTables Bytes) × Runs action t₀ (ok r) t
      × Reports codec laws fresh wallet_id t₀ c room w r
      × Changed codec wallet_id t₀ w t

  movement-Runs :
      (method : Wallet Bytes → Result (Wallet Bytes))
      (s : IsStep codec (account codec wallet_id t₀) w)
      → s.event.id ≡ fresh.id
      → method (account codec wallet_id t₀) ≡ ok w
      → (r : MovementResult) × (t : WalletTables Bytes) × Runs
          (change codec wallet_id method >>= movement_result)
          t₀
          (ok r)
          t
  movement-Runs method s id result =
      let free = subst (λ v. IsUnused v t₀) (sym id) unused in
      let (t, changes) = change-Runs codec wallet_id t₀ c room exists w s free method result in
      (
        reply s.event w,
        t,
        Runs-bind _ _ w _ t₀ t t changes (
            movement_result-Runs w s.event t (
              step-changes codec (account codec wallet_id t₀) w s
                (reconstitute-changes codec (history wallet_id t₀) zero_wallet))),
      )

  completed :
      (method : Wallet Bytes → Result (Wallet Bytes))
      (action : Exec (WalletDb Bytes) MovementResult)
      → method (account codec wallet_id t₀) ≡ ok w
      → Triple
          (λ t. t ≡ t₀)
          action
          (λ r t.
            (w : Wallet Bytes) × (method (account codec wallet_id t₀) ≡ ok w)
            × Reports codec laws fresh wallet_id t₀ c room w r
            × Changed codec wallet_id t₀ w t)
          (Failed codec wallet_id t₀ method)
      → ((r : MovementResult) × (t : WalletTables Bytes) × Runs action t₀ (ok r) t)
      → Completes action
  completed method action result triple (r, t, runs) =
      let (w', result', reports, changed) = Runs-Triple action t₀ t r triple refl runs in
      let same : w' ≡ w = ok-inj (sym result' ∙ result) in
      (r, t, runs, rw same at reports, rw same at changed)

  deposit-Completes :
      (amount : ℤ) (description : String)
      → Domain.deposit codec fresh amount description (account codec wallet_id t₀) ≡ ok w
      → Completes (deposit codec fresh wallet_id amount description)
  unfolding deposit
  deposit-Completes amount description result =
      let method = Domain.deposit codec fresh amount description in
      completed method _ result
        (deposit-Triple codec laws fresh wallet_id t₀ c room amount description)
        (movement-Runs method
          (deposit-IsStep codec laws fresh (account codec wallet_id t₀) w amount description result)
          (deposit-id codec laws fresh (account codec wallet_id t₀) w amount description result)
          result)

  -- With payloads that JSON reads back as written: from consistent tables with room for one more
  -- version, for a wallet that has events, while no statement fails and no event has the drawn
  -- identifier: where Withdraw of the domain succeeds on the wallet's replayed account, the
  -- withdrawal returns a reply, which reports the event, balance and version of the wallet it
  -- leaves, and that wallet is its account from then on; no other wallet's events, no outbox row
  -- and no processed event differ.
  pub withdraw-Completes :
      (amount : ℤ) (description : String)
      → Domain.withdraw codec fresh amount description (account codec wallet_id t₀) ≡ ok w
      → Completes (withdraw codec fresh wallet_id amount description)
  unfolding withdraw
  withdraw-Completes amount description result =
      let method = Domain.withdraw codec fresh amount description in
      completed method _ result
        (withdraw-Triple codec laws fresh wallet_id t₀ c room amount description)
        (movement-Runs method
          (withdraw-IsStep codec laws fresh (account codec wallet_id t₀) w amount description
            result)
          (withdraw-id codec laws fresh (account codec wallet_id t₀) w amount description result)
          result)
