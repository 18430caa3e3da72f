-- ===== src/Wallet/Domain/Solvency.antt =====
-- Balances and reservations: which methods keep a wallet solvent, and where they do not.
use go_fintech_microservices.Prelude.{String, ◌≡◌, ◌↔◌, Uuid, Fresh, arith, inl, inr}
use go_fintech_microservices.Prelude.Int.{
  ℤ, pos, ◌+ℤ◌, ◌-ℤ◌, ◌≤ℤ◌, ◌<ℤ◌, +ℤ_parts, -ℤ_parts, eq_of_parts, int_laws,
}
use go_fintech_microservices.Prelude.Int64.{
  min_int64, max_int64, add64, add64_exact, sub64_exact, add64_overflow,
}
use go_fintech_microservices.Exec.{ok, Result-cases}
use go_fintech_microservices.Wallet.Domain.{
  EventCodec, Wallet, available_balance, deposit, withdraw, reserve, release,
}
use go_fintech_microservices.Wallet.Domain.Payloads.{IsEventCodec}

-- The books of a wallet in order: what is reserved is covered by the balance.
pub record IsSolvent {Bytes : Type 0} (w : Wallet Bytes) : Type 0 where
  pub nonneg : pos 0 ≤ℤ w.reserved
  pub covered : w.reserved ≤ℤ w.balance_cents
  pub fits : w.balance_cents ≤ℤ max_int64

-- `w'` is `w` with a balance and a reservation changed by these amounts; it stands one version on.
pub record Moved {Bytes : Type 0} (balance reserved : ℤ) (w w' : Wallet Bytes) : Type 0 where
  pub balance_cents : w'.balance_cents ≡ w.balance_cents +ℤ balance
  pub reserved_cents : w'.reserved ≡ w.reserved +ℤ reserved
  pub version : w'.version ≡ add64 w.version (pos 1)
  pub id : w'.id ≡ w.id
  pub user_id : w'.user_id ≡ w.user_id
  pub currency : w'.currency ≡ w.currency

module _ {Bytes : Type 0} (codec : EventCodec Bytes) (laws : IsEventCodec codec) (w : Wallet Bytes)
    (solvent : IsSolvent w) (fresh : Fresh) where
  available_exact : available_balance w ≡ w.balance_cents -ℤ w.reserved
  unfolding available_balance
  available_exact =
      sub64_exact w.balance_cents w.reserved (omega (int_laws, solvent)) (omega (int_laws, solvent))

  -- With payloads that JSON reads back as written: on a solvent wallet, a Deposit that returns nil
  -- adds its amount to the balance, if the sum fits in an int64, and leaves the wallet solvent.
  pub deposit-Moved :
      (amount : ℤ) (description : String) {w' : Wallet Bytes}
      → w.balance_cents +ℤ amount ≤ℤ max_int64
      → deposit codec fresh amount description w ≡ ok w'
      → Moved amount (pos 0) w w' × IsSolvent w'
  unfolding deposit
  deposit-Moved amount description room h = ground (
    arith,
    laws.deposited.direct (record { amount_cents = amount; description = description }),
    add64_exact w.balance_cents amount,
    +ℤ_parts w.balance_cents amount,
    +ℤ_parts w.reserved (pos 0),
    eq_of_parts (w.reserved +ℤ pos 0) w.reserved,
  )

  -- With payloads that JSON reads back as written: on a solvent wallet, a Withdraw that returns
  -- nil takes its amount off the balance, leaves reservation and owner, advances the version, and
  -- leaves the wallet solvent.
  pub withdraw-Moved :
      (amount : ℤ) (description : String) {w' : Wallet Bytes}
      → withdraw codec fresh amount description w ≡ ok w'
      → Moved (pos 0 -ℤ amount) (pos 0) w w' × IsSolvent w'
  unfolding withdraw
  withdraw-Moved amount description h = ground (
    arith,
    laws.withdrawn.direct (record { amount_cents = amount; description = description }),
    available_exact,
    sub64_exact w.balance_cents amount,
    -ℤ_parts w.balance_cents amount,
    -ℤ_parts w.balance_cents w.reserved,
    +ℤ_parts w.balance_cents (pos 0 -ℤ amount),
    -ℤ_parts (pos 0) amount,
    eq_of_parts (w.balance_cents -ℤ amount) (w.balance_cents +ℤ (pos 0 -ℤ amount)),
    +ℤ_parts w.reserved (pos 0),
    eq_of_parts (w.reserved +ℤ pos 0) w.reserved,
  )

  -- With payloads that JSON reads back as written: on a solvent wallet, Withdraw succeeds exactly
  -- when the amount is positive and at most the balance less the reservations.
  pub withdraw_iff :
      (amount : ℤ) (description : String)
      → ((w' : Wallet Bytes) × (withdraw codec fresh amount description w ≡ ok w'))
        ↔ ((pos 0 <ℤ amount) × (amount ≤ℤ w.balance_cents -ℤ w.reserved))
  unfolding withdraw
  withdraw_iff amount description = (
    λ (w', h). ground (arith, available_exact),
    λ (positive, available). elim (Result-cases (withdraw codec fresh amount description w)) [
      | inl done ↦ done
      | inr (e, h) ↦ absurd (ground (arith, available_exact))
    ],
  )

  -- With payloads that JSON reads back as written: on a solvent wallet, a Reserve of an amount
  -- that is not negative and that returns nil adds the amount to the reservations, leaves the
  -- balance, and leaves the wallet solvent.
  pub reserve-Moved :
      (amount : ℤ) (transaction : Uuid) {w' : Wallet Bytes}
      → pos 0 ≤ℤ amount
      → reserve codec fresh amount transaction w ≡ ok w'
      → Moved (pos 0) amount w w' × IsSolvent w'
  unfolding reserve
  reserve-Moved amount transaction positive h = ground (
    arith,
    laws.reserved.direct (record { amount_cents = amount; transaction_id = transaction }),
    available_exact,
    add64_exact w.reserved amount,
    -ℤ_parts w.balance_cents w.reserved,
    +ℤ_parts w.reserved amount,
    +ℤ_parts w.balance_cents (pos 0),
    eq_of_parts (w.balance_cents +ℤ pos 0) w.balance_cents,
  )

  -- With payloads that JSON reads back as written: on a solvent wallet, a Release of an amount
  -- that is not negative and at most what is reserved takes it off the reservations and leaves the
  -- wallet solvent.
  pub release-Moved :
      (amount : ℤ) (transaction : Uuid)
      → pos 0 ≤ℤ amount
      → amount ≤ℤ w.reserved
      → let w' = release codec fresh amount transaction w in
        Moved (pos 0) (pos 0 -ℤ amount) w w' × IsSolvent w'
  unfolding release
  release-Moved amount transaction positive covered = ground (
    arith,
    laws.released.direct (record { amount_cents = amount; transaction_id = transaction }),
    sub64_exact w.reserved amount,
    -ℤ_parts w.reserved amount,
    -ℤ_parts (pos 0) amount,
    +ℤ_parts w.reserved (pos 0 -ℤ amount),
    eq_of_parts (w.reserved -ℤ amount) (w.reserved +ℤ (pos 0 -ℤ amount)),
    +ℤ_parts w.balance_cents (pos 0),
    eq_of_parts (w.balance_cents +ℤ pos 0) w.balance_cents,
  )

  -- With payloads that JSON reads back as written: on a solvent wallet, a Reserve of an amount
  -- that is not negative and that returns nil is undone by the Release of the same amount: balance
  -- and reservations are as before.
  pub release-reserve :
      (amount : ℤ) (transaction : Uuid) (later : Fresh) {w' : Wallet Bytes}
      → pos 0 ≤ℤ amount
      → reserve codec fresh amount transaction w ≡ ok w'
      → let w'' = release codec later amount transaction w' in
        (w''.balance_cents ≡ w.balance_cents) × (w''.reserved ≡ w.reserved)
  unfolding reserve release
  release-reserve amount transaction later positive h = ground (
    arith,
    laws.reserved.direct (record { amount_cents = amount; transaction_id = transaction }),
    laws.released.direct (record { amount_cents = amount; transaction_id = transaction }),
    available_exact,
    add64_exact w.reserved amount,
    sub64_exact (w.reserved +ℤ amount) amount,
    -ℤ_parts w.balance_cents w.reserved,
    +ℤ_parts w.reserved amount,
    -ℤ_parts (w.reserved +ℤ amount) amount,
    eq_of_parts (w.reserved +ℤ amount -ℤ amount) w.reserved,
  )

  -- With payloads that JSON reads back as written: on a solvent wallet, a Deposit of a positive
  -- int64 that takes the balance past the largest int64 is accepted, and leaves a negative
  -- balance.
  pub deposit_overflow :
      (amount : ℤ) (description : String)
      → pos 0 <ℤ amount
      → amount ≤ℤ max_int64
      → max_int64 <ℤ w.balance_cents +ℤ amount
      → (w' : Wallet Bytes) × (deposit codec fresh amount description w ≡ ok w')
        × (w'.balance_cents <ℤ pos 0)
  unfolding deposit
  deposit_overflow amount description positive small over =
      elim (Result-cases (deposit codec fresh amount description w)) [
        | inl (w', h) ↦ (
          w',
          h,
          ground (
            arith,
            laws.deposited.direct (record { amount_cents = amount; description = description }),
            add64_overflow w.balance_cents amount,
          ),
        )
        | inr (e, h) ↦ absurd (ground arith)
      ]

  -- With payloads that JSON reads back as written: on a solvent wallet, a Reserve of an int64
  -- amount so negative that the sum with the reservations is below zero is accepted, and leaves a
  -- negative reservation.
  pub reserve_negative :
      (amount : ℤ) (transaction : Uuid)
      → min_int64 ≤ℤ amount
      → w.reserved +ℤ amount <ℤ pos 0
      → (w' : Wallet Bytes) × (reserve codec fresh amount transaction w ≡ ok w')
        × (w'.reserved <ℤ pos 0)
  unfolding reserve
  reserve_negative amount transaction big negative =
      elim (Result-cases (reserve codec fresh amount transaction w)) [
        | inl (w', h) ↦ (
          w',
          h,
          ground (
            arith,
            laws.reserved.direct (record { amount_cents = amount; transaction_id = transaction }),
            +ℤ_parts w.reserved amount,
            add64_exact w.reserved amount,
          ),
        )
        | inr (e, h) ↦ absurd (
            ground (
              arith,
              available_exact,
              -ℤ_parts w.balance_cents w.reserved,
              +ℤ_parts w.reserved amount,
            ))
      ]
