-- ===== src/Query/Domain.antt =====
-- services/query/internal/domain/projections.go.
use go_fintech_microservices.Prelude.{String, Uuid, Instant, zero_instant}
use go_fintech_microservices.Prelude.Int.{ℤ, pos}

pub record BalanceProjection : Type 0 where
  pub wallet_id : Uuid
  pub user_id : Uuid
  pub currency : String
  pub balance_cents : ℤ
  pub version : ℤ
  pub updated_at : Instant

pub record StatementEntry : Type 0 where
  pub event_id : Uuid
  pub wallet_id : Uuid
  pub type : String
  pub amount_cents : ℤ
  pub description : String
  pub occurred_at : Instant

pub record UserStats : Type 0 where
  pub user_id : Uuid
  pub total_transactions : ℤ
  pub total_deposit_cents : ℤ
  pub total_withdraw_cents : ℤ
  pub updated_at : Instant

-- `UserStats{UserID: id}`
abbrev pub new_stats : Uuid → UserStats
new_stats user_id = record {
  user_id = user_id;
  total_transactions = pos 0;
  total_deposit_cents = pos 0;
  total_withdraw_cents = pos 0;
  updated_at = zero_instant;
}
