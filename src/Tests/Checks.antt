-- ===== src/Tests/Checks.antt =====
-- The theorems on the fraud service at concrete requests and profiles.
use go_fintech_microservices.Prelude.{
  ◌≡◌, ◌↔◌, ◌⊎◌, [], ◌∷◌, Option, none, some, str_eq, if◌then◌else◌, String, Uuid,
}
use go_fintech_microservices.Prelude.Int.{pos, ◌<ℤ◌, ◌≤ℤ◌}
use go_fintech_microservices.Prelude.Int64.{add64}
use go_fintech_microservices.Errors.Grpc.{Status}
use go_fintech_microservices.Exec.{ok}
use go_fintech_microservices.Db.Laws.{Triple}
use go_fintech_microservices.Db.Smooth.{Runs}
use go_fintech_microservices.Kafka.{Record}
use go_fintech_microservices.Fraud.Domain
use go_fintech_microservices.Fraud.Domain.{
  EvaluationRequest, EvaluationResult, UserProfile, new_profile, judge, daily_limit_cents,
  velocity_max_per_min, large_transaction_cents,
}
use go_fintech_microservices.Fraud.Domain.Rules.{judge_decides}
use go_fintech_microservices.Fraud.Profiles.{Entries, ProfileCodec}
use go_fintech_microservices.Fraud.Service.{evaluate}
use go_fintech_microservices.Fraud.Service.Evaluation.{stored_profile, evaluate-judges}
use go_fintech_microservices.Fraud.Server.{EvaluateRequest, EvaluateResponse, evaluate_request}
use go_fintech_microservices.Fraud.Server.Answers.{Answers, evaluate_request-Answers}
use go_fintech_microservices.Fraud.Updater.{TransactionCompletedPayload, handle_record}
use go_fintech_microservices.Fraud.Updater.Counting.{Counts, Settled, handle_record-Counts}

data Value : Type 0 where
  profile_value : UserProfile → Value
  completed_value : TransactionCompletedPayload → Value

abbrev read_profile : Value → Option UserProfile
read_profile (profile_value p) = some p
read_profile (completed_value p) = none

abbrev read_completed : Value → Option TransactionCompletedPayload
read_completed (completed_value p) = some p
read_completed (profile_value p) = none

abbrev values : ProfileCodec Value
values = record {
  profile_key = λ id. "fraud:profile:5";
  marshal = λ p. some (profile_value p);
  unmarshal = read_profile;
}

-- A user who has spent 9,999,900 cents in nine transfers.
abbrev spender : UserProfile
spender = record {
  user_id = 5;
  daily_total_cents = pos 9999900;
  tx_count_last_minute = pos 9;
  updated_at = 100;
}

abbrev request : EvaluationRequest
request = record {
  transaction_id = 31;
  user_id = 5;
  wallet_id = 71;
  amount_cents = pos 200;
  occurred_at = 101;
}

abbrev entries : Entries Value
entries = record { entries = ("fraud:profile:5", profile_value spender) ∷ [] }

abbrev completed : Record Value
completed = record {
  headers = ("event_type", "TransactionCompleted") ∷ [];
  value = completed_value (record {
    transaction_id = 31;
    source_wallet_id = 71;
    destination_wallet_id = 72;
    amount_cents = pos 200;
    user_id = 5;
  });
}

judge_decides_example :
    (((judge request spender).decision ≡ Domain.approved) ↔ (
      (add64 (pos 9999900) (pos 200) ≤ℤ daily_limit_cents)
      × (pos 9 <ℤ velocity_max_per_min)
      × (pos 200 <ℤ large_transaction_cents)))
    × (((judge request spender).decision ≡ Domain.rejected)
        ↔ ((daily_limit_cents <ℤ add64 (pos 9999900) (pos 200)) ⊎ (velocity_max_per_min ≤ℤ pos 9)))
judge_decides_example = judge_decides request spender

evaluate-judges_example :
    Runs
      (evaluate values request)
      entries
      (ok (judge request (stored_profile values entries 5)))
      entries
    × Triple
        (λ t. t ≡ entries)
        (evaluate values request)
        (λ r t.
          ((r ≡ judge request (stored_profile values entries 5))
            ⊎ (r ≡ judge request (new_profile 5)))
          × (t ≡ entries))
        (λ t. ⊥)
evaluate-judges_example = evaluate-judges values entries request

handle_record-Counts_example :
    ((t : Entries Value) × Runs
        (handle_record values read_completed 102 completed)
        entries
        (ok tt)
        t
      × Counts values entries read_completed 102 completed (stored_profile values entries) t)
    × Triple
        (λ t. t ≡ entries)
        (handle_record values read_completed 102 completed)
        (λ _ t. Settled values entries read_completed 102 completed t)
        (λ t. ⊥)
handle_record-Counts_example = handle_record-Counts values entries read_completed 102 completed

abbrev parse_five : String → Option Uuid
parse_five s = if str_eq s "0000-0005" then some 5 else none

abbrev show_five : Uuid → String
show_five v = "0000-0005"

abbrev good_request : EvaluateRequest
good_request = record {
  transaction_id = "0000-0005";
  user_id = "0000-0005";
  wallet_id = "0000-0005";
  amount_cents = pos 200;
  occurred_at = none;
}

evaluate_request-Answers_example :
    ((r : Status ⊎ EvaluateResponse) × Runs
        (evaluate_request parse_five show_five values 103 good_request)
        entries
        (ok r)
        entries
      × Answers parse_five show_five 103 good_request (stored_profile values entries) r)
    × Triple
        (λ t. t ≡ entries)
        (evaluate_request parse_five show_five values 103 good_request)
        (λ r t.
          (Answers parse_five show_five 103 good_request (stored_profile values entries) r
            ⊎ Answers parse_five show_five 103 good_request new_profile r)
          × (t ≡ entries))
        (λ t. ⊥)
evaluate_request-Answers_example =
    evaluate_request-Answers parse_five show_five values entries 103 good_request
