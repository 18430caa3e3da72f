-- ===== src/Fraud/Service.antt =====
-- `Evaluate` of services/fraud/internal/application/fraud_service.go.
pub mod Evaluation
use go_fintech_microservices.Exec.{Result, ok, err, Exec, pure, attempt}
use go_fintech_microservices.Fraud.Domain.{
  EvaluationRequest, EvaluationResult, UserProfile, new_profile, judge,
}
use go_fintech_microservices.Fraud.Profiles.{Redis, ProfileCodec, get_profile}

-- Where no profile could be read, whatever the error, a new one is judged.
abbrev pub profile_or_new : EvaluationRequest → Result UserProfile → UserProfile
profile_or_new req (ok profile) = profile
profile_or_new req (err e) = new_profile req.user_id

module _ {Bytes : Type 0} (codec : ProfileCodec Bytes) where
  unfoldable pub evaluate : EvaluationRequest → Exec (Redis Bytes) EvaluationResult
  unfolding get_profile judge
  evaluate req =
      attempt (get_profile codec req.user_id) (λ r. pure (judge req (profile_or_new req r)))
