-- ===== src/Fraud/Updater.antt =====
-- services/fraud/internal/adapters/inbound/kafka/profile_updater.go: completed transfers counted in
-- the profiles.
pub mod Counting
use go_fintech_microservices.Prelude.{
  ◌≡◌, refl, sym, ◌∙◌, ◌⊎◌, inl, inr, Bool, true, false, not, Option, none, some, String, Uuid,
  nil_uuid, Instant, str_eq, ◌==◌, if◌then◌else◌,
}
use go_fintech_microservices.Prelude.Int.{ℤ, pos}
use go_fintech_microservices.Prelude.Int64.{add64}
use go_fintech_microservices.Exec.{Result, ok, err, Exec, pure, attempt}
use go_fintech_microservices.Kafka.{Record, event_type_of}
use go_fintech_microservices.Fraud.Domain.{UserProfile, new_profile}
use go_fintech_microservices.Fraud.Profiles.{Redis, ProfileCodec, get_profile, update_profile}

-- `transactionCompletedPayload`; a field that the JSON lacks is zero.
pub record TransactionCompletedPayload : Type 0 where
  pub transaction_id : Uuid
  pub source_wallet_id : Uuid
  pub destination_wallet_id : Uuid
  pub amount_cents : ℤ
  pub user_id : Uuid

abbrev pub counted : Instant → ℤ → UserProfile → UserProfile
counted now amount_cents profile = record profile {
  daily_total_cents = add64 profile.daily_total_cents amount_cents;
  tx_count_last_minute = add64 profile.tx_count_last_minute (pos 1);
  updated_at = now;
}

abbrev pub found_or_new : Uuid → Result UserProfile → UserProfile
found_or_new user_id (ok profile) = profile
found_or_new user_id (err e) = new_profile user_id

module _ {Bytes : Type 0} (codec : ProfileCodec Bytes)
    (unmarshal : Bytes → Option TransactionCompletedPayload) where
  -- What follows the reading of the profile; an error of the update is logged.
  count : Instant → TransactionCompletedPayload → Exec (Redis Bytes) (Unit {0})
  unfolding get_profile update_profile
  count now p = attempt (get_profile codec p.user_id) (λ r.
      attempt (update_profile codec (counted now p.amount_cents (found_or_new p.user_id r)))
        (λ _. pure tt))

  -- A record of another type, one that cannot be read, and one without a user are passed over.
  unfoldable pub handle_record : Instant → Record Bytes → Exec (Redis Bytes) (Unit {0})
  unfolding count
  handle_record now r =
      if not (str_eq (event_type_of r) "TransactionCompleted")
      then pure tt
      else elim (unmarshal r.value) [
        | none ↦ pure tt
        | some p ↦ if p.user_id == nil_uuid then pure tt else count now p
      ]
