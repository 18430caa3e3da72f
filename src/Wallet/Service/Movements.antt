-- ===== src/Wallet/Service/Movements.antt =====
-- The methods of `WalletService` that move funds, as movements of the account.
pub mod Success
use go_fintech_microservices.Prelude.{
  inr, ◌-◌, ◌^◌, ◌<◌, ◌≡◌, refl, [], ◌∷◌, String, Uuid, Fresh, length,
}
use go_fintech_microservices.Prelude.Int.{ℤ}
use go_fintech_microservices.Exec.{Result, ok, ok-inj, Exec, pure, ◌>>◌}
use go_fintech_microservices.Db.Laws.{Triple, Triple-bind, Triple-pure, Triple-weaken, Triple-given}
use go_fintech_microservices.Wallet.Domain
use go_fintech_microservices.Wallet.Domain.{EventCodec, Event, Wallet, zero_wallet}
use go_fintech_microservices.Wallet.Domain.Payloads.{IsEventCodec}
use go_fintech_microservices.Wallet.Domain.Replay.{
  deposit-IsStep, withdraw-IsStep, reserve-IsStep, release-IsStep, deposit-id, withdraw-id, IsStep,
  step-changes, reconstitute-changes,
}
use go_fintech_microservices.Wallet.Store.{WalletTables, WalletDb}
use go_fintech_microservices.Wallet.Store.History.{history}
use go_fintech_microservices.Wallet.Store.Consistency.{account, IsConsistent}
use go_fintech_microservices.Wallet.Service.Changing.{Changed, Failed, change-Triple}
use go_fintech_microservices.Wallet.Service.{
  MovementResult, change, movement_result, first_change_id, deposit, withdraw,
  reserve_for_transaction, credit_for_transaction, release_reservation,
}

module _ {Bytes : Type 0} (codec : EventCodec Bytes) (laws : IsEventCodec codec) (fresh : Fresh)
    (wallet_id : Uuid) (t₀ : WalletTables Bytes) (c : IsConsistent codec t₀)
    (room : length (history wallet_id t₀) < 2 ^ 63 - 1) where
  abbrev pub before : Wallet Bytes
  before = account codec wallet_id t₀

  -- What a reply reports of the wallet that was left.
  pub record Reports (w : Wallet Bytes) (r : MovementResult) : Type 0 where
    pub event_id : r.event_id ≡ fresh.id
    pub new_balance : r.new_balance ≡ w.balance_cents
    pub version : r.version ≡ w.version

  movement_result-Triple :
      (w : Wallet Bytes) (e : Event Bytes) (P : WalletTables Bytes → Type 0)
      → w.changes ≡ e ∷ []
      → e.id ≡ fresh.id
      → Triple P (movement_result w) (λ r t. Reports w r × P t) P
  unfolding movement_result first_change_id
  movement_result-Triple w e P changes id =
      rw changes
        (Triple-pure _ (λ t p. (record { event_id = id; new_balance = refl; version = refl }, p)))

  before-changes : before.changes ≡ []
  before-changes = reconstitute-changes codec (history wallet_id t₀) zero_wallet

  -- With payloads that JSON reads back as written: from consistent tables with room for one more
  -- version, a deposit that returns a reply ran Deposit of the domain on the wallet's replayed
  -- account without error, reports its event, balance and version, and changed nothing but that
  -- wallet's account; one that fails left the tables, or has taken place all the same.
  pub deposit-Triple :
      (amount : ℤ) (description : String)
      → let method = Domain.deposit codec fresh amount description in
        Triple
          (λ t. t ≡ t₀)
          (deposit codec fresh wallet_id amount description)
          (λ r t.
            (w : Wallet Bytes) × (method before ≡ ok w)
            × Reports w r
            × Changed codec wallet_id t₀ w t)
          (Failed codec wallet_id t₀ method)
  unfolding deposit
  deposit-Triple amount description =
      let method = Domain.deposit codec fresh amount description in
      let step = λ (w w' : Wallet Bytes). deposit-IsStep codec laws fresh w w' amount description in
      Triple-bind _ _ (change-Triple codec wallet_id t₀ method step c room) (λ w.
        Triple-given {F = method before ≡ ok w} _ (λ t p. p.0)
          (λ e.
            Triple-weaken _ (λ t p. p.1) (λ r t q. (w, e, q.0, q.1)) (λ t q. inr (w, e, q))
              (movement_result-Triple w (step before w e).event (Changed codec wallet_id t₀ w)
                (step-changes codec before w (step before w e) before-changes)
                (deposit-id codec laws fresh before w amount description e))))

  -- With payloads that JSON reads back as written: from consistent tables with room for one more
  -- version, a withdrawal that returns a reply ran Withdraw of the domain on the wallet's replayed
  -- account without error, reports its event, balance and version, and changed nothing but that
  -- wallet's account; one that fails left the tables, or has taken place all the same.
  pub withdraw-Triple :
      (amount : ℤ) (description : String)
      → let method = Domain.withdraw codec fresh amount description in
        Triple
          (λ t. t ≡ t₀)
          (withdraw codec fresh wallet_id amount description)
          (λ r t.
            (w : Wallet Bytes) × (method before ≡ ok w)
            × Reports w r
            × Changed codec wallet_id t₀ w t)
          (Failed codec wallet_id t₀ method)
  unfolding withdraw
  withdraw-Triple amount description =
      let method = Domain.withdraw codec fresh amount description in
      let step =
        λ (w w' : Wallet Bytes). withdraw-IsStep codec laws fresh w w' amount description in
      Triple-bind _ _ (change-Triple codec wallet_id t₀ method step c room) (λ w.
        Triple-given {F = method before ≡ ok w} _ (λ t p. p.0)
          (λ e.
            Triple-weaken _ (λ t p. p.1) (λ r t q. (w, e, q.0, q.1)) (λ t q. inr (w, e, q))
              (movement_result-Triple w (step before w e).event (Changed codec wallet_id t₀ w)
                (step-changes codec before w (step before w e) before-changes)
                (withdraw-id codec laws fresh before w amount description e))))

  -- The methods of the saga return nothing.
  abbrev pub Applies :
      (Wallet Bytes → Result (Wallet Bytes)) → Exec (WalletDb Bytes) (Unit {0}) → Type 0
  Applies method action =
      Triple (λ t. t ≡ t₀) action
        (λ _ t. (w : Wallet Bytes) × (method before ≡ ok w) × Changed codec wallet_id t₀ w t)
        (Failed codec wallet_id t₀ method)

  change-Applies :
      (method : Wallet Bytes → Result (Wallet Bytes))
      → ((w w' : Wallet Bytes) → method w ≡ ok w' → IsStep codec w w')
      → Applies method (change codec wallet_id method >> pure tt)
  change-Applies method steps =
      Triple-bind _ _ (change-Triple codec wallet_id t₀ method steps c room)
        (λ w. Triple-pure tt (λ t p. (w, p.0, p.1)))

  -- With payloads that JSON reads back as written: from consistent tables with room for one more
  -- version, a ReserveForTransaction that returns nil ran Reserve of the domain on the wallet's
  -- replayed account without error and changed nothing but that account; one that fails left the
  -- tables, or has taken place all the same.
  pub reserve-Applies :
      (amount : ℤ) (transaction : Uuid)
      → Applies
          (Domain.reserve codec fresh amount transaction)
          (reserve_for_transaction codec fresh wallet_id amount transaction)
  unfolding reserve_for_transaction
  reserve-Applies amount transaction =
      change-Applies _ (λ w w'. reserve-IsStep codec laws fresh w w' amount transaction)

  pub credit-Applies :
      (amount : ℤ) (transaction : Uuid)
      → Applies
          (Domain.deposit codec fresh amount "saga credit")
          (credit_for_transaction codec fresh wallet_id amount transaction)
  unfolding credit_for_transaction
  credit-Applies amount transaction =
      change-Applies _ (λ w w'. deposit-IsStep codec laws fresh w w' amount "saga credit")

  pub release-Applies :
      (amount : ℤ) (transaction : Uuid)
      → Applies
          (λ w. ok (Domain.release codec fresh amount transaction w))
          (release_reservation codec fresh wallet_id amount transaction)
  unfolding release_reservation
  release-Applies amount transaction =
      change-Applies _
        (λ w w' h. release-IsStep codec laws fresh w w' amount transaction (ok-inj h))
