-- ===== src/Tests/Wallets.antt =====
-- The theorems on the wallet at concrete wallets.
use go_fintech_microservices.Prelude.{◌≡◌, ◌-◌, ◌^◌, ◌↔◌, refl, [], ◌∷◌, arith}
use go_fintech_microservices.Prelude.Int.{ℤ, pos, negsuc, ◌-ℤ◌, ◌≤ℤ◌, ◌<ℤ◌, int_laws}
use go_fintech_microservices.Prelude.Int64.{add64, sub64}
use go_fintech_microservices.Exec.{ok}
use go_fintech_microservices.Wallet.Domain
use go_fintech_microservices.Wallet.Domain.{Wallet}
use go_fintech_microservices.Wallet.Domain.Solvency.{
  IsSolvent, Moved, deposit-Moved, withdraw-Moved, withdraw_iff, reserve-Moved, release-reserve,
  deposit_overflow, reserve_negative,
}
use go_fintech_microservices.Tests.{Json, json, json-IsEventCodec, fresh_1, fresh_2}

-- A wallet of 500 cents, 200 of them reserved.
abbrev purse : Wallet Json
purse = record {
  id = 71;
  user_id = 5;
  currency = "BRL";
  balance_cents = pos 500;
  reserved = pos 200;
  version = pos 3;
  changes = [];
}

purse-IsSolvent : IsSolvent purse
purse-IsSolvent = record { nonneg = omega arith; covered = omega arith; fits = omega arith }

-- One cent is left to the largest balance.
abbrev full_purse : Wallet Json
full_purse = record purse { balance_cents = pos (2 ^ 63 - 2) }

full_purse-IsSolvent : IsSolvent full_purse
full_purse-IsSolvent = record { nonneg = omega arith; covered = omega arith; fits = omega arith }

-- The purse after one event of a test.
abbrev purse_after : ℤ → ℤ → Domain.EventType → Json → Wallet Json
purse_after balance reserved type payload = record {
  id = 71;
  user_id = 5;
  currency = "BRL";
  balance_cents = balance;
  reserved = reserved;
  version = pos 4;
  changes =
      record {
        id = 901;
        wallet_id = 71;
        type = type;
        payload = payload;
        version = pos 4;
        occured_at = 11;
      }
      ∷ [];
}

abbrev deposited : Wallet Json
deposited =
    purse_after (pos 530) (pos 200) Domain.funds_deposited
      (json.deposited.marshal (record { amount_cents = pos 30; description = "gift" }))

deposited-eq : Domain.deposit json fresh_1 (pos 30) "gift" purse ≡ ok deposited
unfolding Domain.deposit add64
deposited-eq = refl

abbrev withdrawn : Wallet Json
withdrawn =
    purse_after (pos 200) (pos 200) Domain.funds_withdrawn
      (json.withdrawn.marshal (record { amount_cents = pos 300; description = "rent" }))

withdrawn-eq : Domain.withdraw json fresh_1 (pos 300) "rent" purse ≡ ok withdrawn
unfolding Domain.withdraw add64 sub64
withdrawn-eq = refl

abbrev reserved : Wallet Json
reserved =
    purse_after (pos 500) (pos 450) Domain.funds_reserved
      (json.reserved.marshal (record { amount_cents = pos 250; transaction_id = 31 }))

reserved-eq : Domain.reserve json fresh_1 (pos 250) 31 purse ≡ ok reserved
unfolding Domain.reserve add64 sub64
reserved-eq = refl

deposit-Moved_example : Moved (pos 30) (pos 0) purse deposited × IsSolvent deposited
deposit-Moved_example =
    deposit-Moved json json-IsEventCodec purse purse-IsSolvent fresh_1 (pos 30) "gift"
      (omega (arith, int_laws)) deposited-eq

withdraw-Moved_example : Moved (pos 0 -ℤ pos 300) (pos 0) purse withdrawn × IsSolvent withdrawn
withdraw-Moved_example =
    withdraw-Moved json json-IsEventCodec purse purse-IsSolvent fresh_1 (pos 300) "rent"
      withdrawn-eq

withdraw_iff_example :
    ((w : Wallet Json) × (Domain.withdraw json fresh_1 (pos 300) "rent" purse ≡ ok w))
    ↔ ((pos 0 <ℤ pos 300) × (pos 300 ≤ℤ pos 500 -ℤ pos 200))
withdraw_iff_example =
    withdraw_iff json json-IsEventCodec purse purse-IsSolvent fresh_1 (pos 300) "rent"

reserve-Moved_example : Moved (pos 0) (pos 250) purse reserved × IsSolvent reserved
reserve-Moved_example =
    reserve-Moved json json-IsEventCodec purse purse-IsSolvent fresh_1 (pos 250) 31 (omega arith)
      reserved-eq

release-reserve_example :
    let w = Domain.release json fresh_2 (pos 250) 31 reserved in
    (w.balance_cents ≡ pos 500) × (w.reserved ≡ pos 200)
release-reserve_example =
    release-reserve json json-IsEventCodec purse purse-IsSolvent fresh_1 (pos 250) 31 fresh_2
      (omega arith) reserved-eq

deposit_overflow_example :
    (w : Wallet Json) × (Domain.deposit json fresh_1 (pos 2) "gift" full_purse ≡ ok w)
    × (w.balance_cents <ℤ pos 0)
deposit_overflow_example =
    deposit_overflow json json-IsEventCodec full_purse full_purse-IsSolvent fresh_1 (pos 2) "gift"
      (omega arith) (omega arith) (omega (arith, int_laws))

reserve_negative_example :
    (w : Wallet Json) × (Domain.reserve json fresh_1 (negsuc 299) 31 purse ≡ ok w)
    × (w.reserved <ℤ pos 0)
reserve_negative_example =
    reserve_negative json json-IsEventCodec purse purse-IsSolvent fresh_1 (negsuc 299) 31
      (omega arith) (omega (arith, int_laws))
