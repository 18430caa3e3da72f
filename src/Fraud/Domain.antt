-- ===== src/Fraud/Domain.antt =====
-- services/fraud/internal/domain/risk.go, and the rules of
-- services/fraud/internal/application/fraud_service.go.
pub mod Rules
use go_fintech_microservices.Prelude.{
  List, [], ◌∷◌, Option, none, some, String, Uuid, Instant, zero_instant, if◌then◌else◌,
}
use go_fintech_microservices.Prelude.Int.{ℤ, pos, ltb_ℤ, leb_ℤ}
use go_fintech_microservices.Prelude.Int64.{add64}
use go_fintech_microservices.Errors.{Message, text, sprintf}

-- The strings of the type `Decision`; `other` is any string that is no constant of the package.
pub data Decision : Type 0 where
  approved rejected review : Decision
  other : String → Decision

pub record EvaluationRequest : Type 0 where
  pub transaction_id : Uuid
  pub user_id : Uuid
  pub wallet_id : Uuid
  pub amount_cents : ℤ
  pub occurred_at : Instant

pub record EvaluationResult : Type 0 where
  pub transaction_id : Uuid
  pub decision : Decision
  pub reason : Message

pub record UserProfile : Type 0 where
  pub user_id : Uuid
  pub daily_total_cents : ℤ
  pub tx_count_last_minute : ℤ
  pub updated_at : Instant

abbrev pub daily_limit_cents : ℤ
daily_limit_cents = pos 10000000

abbrev pub velocity_max_per_min : ℤ
velocity_max_per_min = pos 10

abbrev pub large_transaction_cents : ℤ
large_transaction_cents = pos 1000000

-- `UserProfile{UserID: id}`
abbrev pub new_profile : Uuid → UserProfile
new_profile user_id = record {
  user_id = user_id;
  daily_total_cents = pos 0;
  tx_count_last_minute = pos 0;
  updated_at = zero_instant;
}

-- A rule that does not fire returns `none`.
check_daily_limit : EvaluationRequest → UserProfile → Option EvaluationResult
check_daily_limit req profile =
    if ltb_ℤ daily_limit_cents (add64 profile.daily_total_cents req.amount_cents)
    then some (record {
      transaction_id = req.transaction_id;
      decision = rejected;
      reason =
          sprintf "daily limit exceeded: %d + %d > %d"
            (profile.daily_total_cents ∷ req.amount_cents ∷ daily_limit_cents ∷ []);
    })
    else none

check_velocity : EvaluationRequest → UserProfile → Option EvaluationResult
check_velocity req profile =
    if leb_ℤ velocity_max_per_min profile.tx_count_last_minute
    then some (record {
      transaction_id = req.transaction_id;
      decision = rejected;
      reason =
          sprintf "velocity limit exceeded: %d txns in last minute"
            (profile.tx_count_last_minute ∷ []);
    })
    else none

check_large_transaction : EvaluationRequest → Option EvaluationResult
check_large_transaction req =
    if leb_ℤ large_transaction_cents req.amount_cents
    then some (record {
      transaction_id = req.transaction_id;
      decision = review;
      reason = sprintf "large transaction: %d cents requires review" (req.amount_cents ∷ []);
    })
    else none

-- The first result, or the other one.
abbrev or_else : {A : Type 0} → Option A → A → A
or_else none a = a
or_else (some b) a = b

-- The rules in their order, for a profile that was read.
unfoldable pub judge : EvaluationRequest → UserProfile → EvaluationResult
unfolding check_daily_limit check_velocity check_large_transaction
judge req profile = or_else (check_daily_limit req profile) (
    or_else (check_velocity req profile) (
      or_else (check_large_transaction req)
        (record { transaction_id = req.transaction_id; decision = approved; reason = text "" })))
