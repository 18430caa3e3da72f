-- ===== src/Tests/Access.antt =====
-- The theorems on the gateway's authentication and on the consumer at concrete values.
use go_fintech_microservices.Prelude.{
  ◌≡◌, ◌↔◌, ◌⊎◌, ℕ, true, false, ◌==◌, List, [], ◌∷◌, Option, none, some, String, Instant, str_eq,
  if◌then◌else◌,
}
use go_fintech_microservices.Errors.{foreign, unknown}
use go_fintech_microservices.Exec.{ok, err, Exec}
use go_fintech_microservices.Identity.Service.{JwtToken}
use go_fintech_microservices.Gateway.Authentication.{served, is_public_path, handle}
use go_fintech_microservices.Gateway.Authentication.Access.{Bears, handle-served}
use go_fintech_microservices.Kafka.{Record}
use go_fintech_microservices.Kafka.Consumer.{FetchedRecord, Consumer}

-- One token is known.
abbrev known_token : Instant → String → Option JwtToken
known_token now raw =
    if str_eq raw "abc"
    then some (record {
      valid = true;
      claims = record {
        subject = "user-1";
        expires_at = 20;
        issued_at = 10;
        issuer = "fintech-identity";
      };
    })
    else none

abbrev user_1 : Option String
user_1 = some "user-1"

handle-served_example : (handle known_token 12 "/v1/wallets" "Bearer abc" ≡ served user_1) ↔ (
    ((is_public_path "/v1/wallets" ≡ true) × (user_1 ≡ none))
    ⊎ ((is_public_path "/v1/wallets" ≡ false) × Bears known_token 12 "Bearer abc" user_1))
handle-served_example = handle-served known_token 12 "/v1/wallets" "Bearer abc" user_1

-- Records whose value is a number; the handler refuses zero.
abbrev numbers : Record ℕ → Exec (List ℕ) (Unit {0})
numbers r seen = if r.value == 0 then (err (foreign unknown), seen) else (ok tt, r.value ∷ seen)

abbrev fetched : ℕ → ℕ → FetchedRecord ℕ
fetched offset value = record {
  partition = 3;
  offset = offset;
  content = record { headers = []; value = value };
}

abbrev idle : Consumer (List ℕ) ℕ
idle = record { state = []; calls = [] }

-- Two fetches; the handler fails on the first record.
abbrev two_fetches : List (List (FetchedRecord ℕ))
two_fetches = (fetched 7 0 ∷ fetched 8 5 ∷ []) ∷ (fetched 9 6 ∷ []) ∷ []
