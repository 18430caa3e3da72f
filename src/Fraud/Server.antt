-- ===== src/Fraud/Server.antt =====
-- services/fraud/internal/adapters/inbound/grpc/server.go, and
-- services/transaction/internal/adapters/outbound/grpc/fraud_client.go: a decision on its way to
-- the transaction service.
pub mod Answers
use go_fintech_microservices.Prelude.{
  str_eq, true, ◌≡◌, ◌↔◌, ◌⊎◌, inl, inr, refl, ℕ, Option, none, some, String, Uuid, Instant,
}
use go_fintech_microservices.Prelude.Int.{ℤ}
use go_fintech_microservices.Errors.{Message, unknown, joined, text}
use go_fintech_microservices.Errors.Grpc.{GrpcCode, Status}
use go_fintech_microservices.Exec.{Result, ok, err, Exec, pure, attempt}
use go_fintech_microservices.Fraud.Domain
use go_fintech_microservices.Fraud.Domain.{Decision, EvaluationRequest, EvaluationResult}
use go_fintech_microservices.Fraud.Profiles.{Redis, ProfileCodec}
use go_fintech_microservices.Fraud.Service.{evaluate}

-- The enum `fraudv1.Decision`; a peer may send any number.
pub data ProtoDecision : Type 0 where
  unspecified approved rejected review : ProtoDecision
  numbered : ℕ → ProtoDecision

unfoldable pub to_proto_decision : Decision → ProtoDecision
to_proto_decision Domain.approved = approved
to_proto_decision Domain.rejected = rejected
to_proto_decision Domain.review = review
to_proto_decision (Domain.other s) = unspecified

-- The `switch` of the client's `Evaluate`.
unfoldable pub decision_text : ProtoDecision → String
decision_text rejected = "REJECTED"
decision_text review = "REVIEW"
decision_text approved = "APPROVED"
decision_text unspecified = "APPROVED"
decision_text (numbered n) = "APPROVED"

-- The text that the transaction service's client makes of the answer of the fraud service is
-- REJECTED exactly when the decision is a rejection.
pub decision_text-to_proto_decision :
    (d : Decision)
    → (str_eq (decision_text (to_proto_decision d)) "REJECTED" ≡ true) ↔ (d ≡ Domain.rejected)
unfolding decision_text to_proto_decision
decision_text-to_proto_decision Domain.approved = (λ h. cc, λ h. cc)
decision_text-to_proto_decision Domain.rejected = (λ h. refl, λ h. refl)
decision_text-to_proto_decision Domain.review = (λ h. cc, λ h. cc)
decision_text-to_proto_decision (Domain.other s) = (λ h. cc, λ h. cc)

pub record EvaluateRequest : Type 0 where
  pub transaction_id : String
  pub user_id : String
  pub wallet_id : String
  pub amount_cents : ℤ
  pub occurred_at : Option Instant

pub record EvaluateResponse : Type 0 where
  pub transaction_id : String
  pub decision : ProtoDecision
  pub reason : Message

-- A status whose text ends in that of an error of other code.
abbrev status_of : GrpcCode → String → Status
status_of code prefix = record { code = code; message = joined (text prefix) unknown }

-- The `occurred_at` of a request, or the time of its arrival.
abbrev arrival : Instant → Option Instant → Instant
arrival now none = now
arrival now (some t) = t

-- The texts of UUIDs.
module _ (parse_uuid : String → Option Uuid) (show_uuid : Uuid → String) where
  pub parse_request : Instant → EvaluateRequest → Status ⊎ EvaluationRequest
  parse_request now q = elim (parse_uuid q.transaction_id) [
    | none ↦ inl (status_of GrpcCode.invalid_argument "invalid transaction_id")
    | some transaction_id ↦ elim (parse_uuid q.user_id) [
      | none ↦ inl (status_of GrpcCode.invalid_argument "invalid user_id")
      | some user_id ↦ elim (parse_uuid q.wallet_id) [
        | none ↦ inl (status_of GrpcCode.invalid_argument "invalid wallet_id")
        | some wallet_id ↦ inr (record {
          transaction_id = transaction_id;
          user_id = user_id;
          wallet_id = wallet_id;
          amount_cents = q.amount_cents;
          occurred_at = arrival now q.occurred_at;
        })
      ]
    ]
  ]

  pub response_of : EvaluationResult → EvaluateResponse
  unfolding to_proto_decision
  response_of r = record {
    transaction_id = show_uuid r.transaction_id;
    decision = to_proto_decision r.decision;
    reason = r.reason;
  }

  module _ {Bytes : Type 0} (codec : ProfileCodec Bytes) where
    answer : Result EvaluationResult → Exec (Redis Bytes) (Status ⊎ EvaluateResponse)
    unfolding response_of
    answer (ok r) = pure (inr (response_of r))
    answer (err e) = pure (inl (status_of GrpcCode.internal "evaluate"))

    answer_to : Status ⊎ EvaluationRequest → Exec (Redis Bytes) (Status ⊎ EvaluateResponse)
    unfolding evaluate answer
    answer_to (inl s) = pure (inl s)
    answer_to (inr q) = attempt (evaluate codec q) answer

    -- `Evaluate` of the server: a status, or a response.
    unfoldable pub evaluate_request :
        Instant → EvaluateRequest → Exec (Redis Bytes) (Status ⊎ EvaluateResponse)
    unfolding answer_to parse_request
    evaluate_request now q = answer_to (parse_request now q)
