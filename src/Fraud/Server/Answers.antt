-- ===== src/Fraud/Server/Answers.antt =====
-- What the fraud service's server answers.
use go_fintech_microservices.Prelude.{
  ◌≡◌, refl, ap, ◌⊎◌, inl, inr, Option, none, some, Option-cases, String, Uuid, Instant,
}
use go_fintech_microservices.Errors.{joined, text, unknown}
use go_fintech_microservices.Errors.Grpc.{GrpcCode, Status}
use go_fintech_microservices.Exec.{ok}
use go_fintech_microservices.Db.Laws.{Triple, Triple-pure, Triple-attempt, Triple-weaken}
use go_fintech_microservices.Db.Smooth.{Runs, Runs-attempt, Runs-pure}
use go_fintech_microservices.Fraud.Domain
use go_fintech_microservices.Fraud.Domain.{
  Decision, EvaluationRequest, EvaluationResult, UserProfile, new_profile, judge,
}
use go_fintech_microservices.Fraud.Profiles.{Entries, ProfileCodec}
use go_fintech_microservices.Fraud.Service.Evaluation.{
  stored_profile, evaluate-Runs, evaluate-Triple,
}
use go_fintech_microservices.Fraud.Server
use go_fintech_microservices.Fraud.Server.{
  ProtoDecision, to_proto_decision, EvaluateRequest, EvaluateResponse, arrival, parse_request,
  response_of, answer, answer_to, evaluate_request,
}

-- The values of the two enums that mean the same.
pub data Means : Decision → ProtoDecision → Type 0 where
  approves : Means Domain.approved Server.approved
  rejects : Means Domain.rejected Server.rejected
  reviews : Means Domain.review Server.review
  nothing : (s : String) → Means (Domain.other s) Server.unspecified

to_proto_decision-Means : (d : Decision) → Means d (to_proto_decision d)
unfolding to_proto_decision
to_proto_decision-Means Domain.approved = approves
to_proto_decision-Means Domain.rejected = rejects
to_proto_decision-Means Domain.review = reviews
to_proto_decision-Means (Domain.other s) = nothing s

-- The status that names the text which is no UUID.
abbrev pub invalid : String → Status
invalid message = record {
  code = GrpcCode.invalid_argument;
  message = joined (text message) unknown;
}

module _ (parse_uuid : String → Option Uuid) (show_uuid : Uuid → String) where
  -- A response tells of a result.
  pub record Tells (result : EvaluationResult) (response : EvaluateResponse) : Type 0 where
    pub transaction_id : response.transaction_id ≡ show_uuid result.transaction_id
    pub decision : Means result.decision response.decision
    pub reason : response.reason ≡ result.reason

  response_of-Tells :
      (result : EvaluationResult) → Tells result (response_of parse_uuid show_uuid result)
  unfolding response_of
  response_of-Tells result = record {
    transaction_id = refl;
    decision = to_proto_decision-Means result.decision;
    reason = refl;
  }

  module _ (now : Instant) (q : EvaluateRequest) where
    abbrev pub asked : Uuid → Uuid → Uuid → EvaluationRequest
    asked transaction_id user_id wallet_id = record {
      transaction_id = transaction_id;
      user_id = user_id;
      wallet_id = wallet_id;
      amount_cents = q.amount_cents;
      occurred_at = arrival now q.occurred_at;
    }

    -- A request with a text that is no UUID is refused, for the first such text; any other is
    -- answered with what the rules say of its transaction and of the profile of its user.
    pub data Answers (profile : Uuid → UserProfile) (r : Status ⊎ EvaluateResponse) : Type 0 where
      bad_transaction :
          parse_uuid q.transaction_id ≡ none
          → r ≡ inl (invalid "invalid transaction_id")
          → Answers profile r
      bad_user :
          (transaction_id : Uuid)
          → parse_uuid q.transaction_id ≡ some transaction_id
          → parse_uuid q.user_id ≡ none
          → r ≡ inl (invalid "invalid user_id")
          → Answers profile r
      bad_wallet :
          (transaction_id user_id : Uuid)
          → parse_uuid q.transaction_id ≡ some transaction_id
          → parse_uuid q.user_id ≡ some user_id
          → parse_uuid q.wallet_id ≡ none
          → r ≡ inl (invalid "invalid wallet_id")
          → Answers profile r
      judged :
          (transaction_id user_id wallet_id : Uuid) (response : EvaluateResponse)
          → parse_uuid q.transaction_id ≡ some transaction_id
          → parse_uuid q.user_id ≡ some user_id
          → parse_uuid q.wallet_id ≡ some wallet_id
          → Tells (judge (asked transaction_id user_id wallet_id) (profile user_id)) response
          → r ≡ inr response
          → Answers profile r

    -- The answer to what was read of a request, for a choice of profiles.
    abbrev reply : (Uuid → UserProfile) → Status ⊎ EvaluationRequest → Status ⊎ EvaluateResponse
    reply profile (inl s) = inl s
    reply profile (inr req) =
        inr (response_of parse_uuid show_uuid (judge req (profile req.user_id)))

    reply-Answers :
        (profile : Uuid → UserProfile)
        → Answers profile (reply profile (parse_request parse_uuid show_uuid now q))
    unfolding parse_request
    reply-Answers profile = elim (Option-cases (parse_uuid q.transaction_id)) [
      | inl e ↦ bad_transaction e (
          ap (reply profile) {y = inl (invalid "invalid transaction_id")}
            (rw (e, parse_request) refl))
      | inr (transaction_id, e) ↦ elim (Option-cases (parse_uuid q.user_id)) [
        | inl f ↦ bad_user transaction_id e f (
            ap (reply profile) {y = inl (invalid "invalid user_id")}
              (rw (e, f, parse_request) refl))
        | inr (user_id, f) ↦ elim (Option-cases (parse_uuid q.wallet_id)) [
          | inl g ↦ bad_wallet transaction_id user_id e f g (
              ap (reply profile) {y = inl (invalid "invalid wallet_id")}
                (rw (e, f, g, parse_request) refl))
          | inr (wallet_id, g) ↦
              judged transaction_id user_id wallet_id _ e f g (response_of-Tells _) (
                ap (reply profile) {y = inr (asked transaction_id user_id wallet_id)}
                  (rw (e, f, g, parse_request) refl))
        ]
      ]
    ]

  module _ {Bytes : Type 0} (codec : ProfileCodec Bytes) (t₀ : Entries Bytes) where
    answer_to-Runs :
        (now : Instant) (q : EvaluateRequest) (parsed : Status ⊎ EvaluationRequest)
        → Runs
            (answer_to parse_uuid show_uuid codec parsed)
            t₀
            (ok (reply now q (stored_profile codec t₀) parsed))
            t₀
    unfolding answer_to answer
    answer_to-Runs now q (inl s) = Runs-pure _ t₀
    answer_to-Runs now q (inr req) =
        Runs-attempt _ (answer parse_uuid show_uuid codec) _ _ t₀ t₀ t₀ (evaluate-Runs codec t₀ req)
          (Runs-pure _ t₀)

    answer_to-Triple :
        (now : Instant) (q : EvaluateRequest) (parsed : Status ⊎ EvaluationRequest)
        → Triple
            (λ t. t ≡ t₀)
            (answer_to parse_uuid show_uuid codec parsed)
            (λ r t.
              ((r ≡ reply now q (stored_profile codec t₀) parsed)
                ⊎ (r ≡ reply now q new_profile parsed))
              × (t ≡ t₀))
            (λ t. ⊥)
    unfolding answer_to answer
    answer_to-Triple now q (inl s) = Triple-pure _ (λ t p. (inl refl, p))
    answer_to-Triple now q (inr req) =
        let told = λ (result : EvaluationResult). response_of parse_uuid show_uuid result in
        Triple-attempt _ (answer parse_uuid show_uuid codec) (evaluate-Triple codec t₀ req)
          (λ result. Triple-pure _ (λ t p. elim p.0 [
            | inl e ↦ (inl (λ i. inr (told (e i))), p.1)
            | inr e ↦ (inr (λ i. inr (told (e i))), p.1)
          ]))
          (λ e. Triple-pure _ (λ t p. absurd p))

    -- From any profiles: the fraud server answers InvalidArgument, naming the field, to a request
    -- whose transaction, user or wallet identifier, the first of them in this order, is no UUID;
    -- to any other it answers with the transaction's identifier and the decision and reason that
    -- the rules give for the request's amount and, while no statement fails, the stored profile of
    -- its user (an empty one where none can be read); with any statement failing it answers so for
    -- that profile or for an empty one; it changes no profile either way.
    pub evaluate_request-Answers :
        (now : Instant) (q : EvaluateRequest)
        → ((r : Status ⊎ EvaluateResponse) × Runs
              (evaluate_request parse_uuid show_uuid codec now q)
              t₀
              (ok r)
              t₀
            × Answers now q (stored_profile codec t₀) r)
          × Triple
              (λ t. t ≡ t₀)
              (evaluate_request parse_uuid show_uuid codec now q)
              (λ r t.
                (Answers now q (stored_profile codec t₀) r ⊎ Answers now q new_profile r)
                × (t ≡ t₀))
              (λ t. ⊥)
    unfolding evaluate_request
    evaluate_request-Answers now q =
        let parsed = parse_request parse_uuid show_uuid now q in
        let stored = stored_profile codec t₀ in
        (
          (reply now q stored parsed, answer_to-Runs now q parsed, reply-Answers now q stored),
          Triple-weaken _ (λ t p. p)
              (λ r t p. elim p.0 [
                | inl e ↦ (inl (rw e (reply-Answers now q stored)), p.1)
                | inr e ↦ (inr (rw e (reply-Answers now q new_profile)), p.1)
              ])
              (λ t p. p) (answer_to-Triple now q parsed),
        )
