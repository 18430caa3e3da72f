-- ===== src/Fraud/Domain/Rules.antt =====
-- When the rules approve, and when they reject.
use go_fintech_microservices.Prelude.{◌≡◌, ◌↔◌, ◌⊎◌, arith}
use go_fintech_microservices.Prelude.Int.{◌<ℤ◌, ◌≤ℤ◌}
use go_fintech_microservices.Prelude.Int64.{add64}
use go_fintech_microservices.Fraud.Domain.{
  EvaluationRequest, UserProfile, approved, rejected, daily_limit_cents, velocity_max_per_min,
  large_transaction_cents, judge,
}

module _ (req : EvaluationRequest) (profile : UserProfile) where
  -- The rules approve exactly when the daily total with the amount (in 64 bits) is at most the
  -- limit, fewer than ten transfers were counted and the amount is below the size that is
  -- reviewed; they reject exactly when that total is past the limit or ten transfers or more were
  -- counted.
  pub judge_decides :
      (((judge req profile).decision ≡ approved) ↔ (
        (add64 profile.daily_total_cents req.amount_cents ≤ℤ daily_limit_cents)
        × (profile.tx_count_last_minute <ℤ velocity_max_per_min)
        × (req.amount_cents <ℤ large_transaction_cents)))
      × (((judge req profile).decision ≡ rejected) ↔ (
          (daily_limit_cents <ℤ add64 profile.daily_total_cents req.amount_cents)
          ⊎ (velocity_max_per_min ≤ℤ profile.tx_count_last_minute)))
  unfolding judge
  judge_decides = ((λ h. ground arith, λ h. ground arith), (λ h. ground arith, λ h. ground arith))
