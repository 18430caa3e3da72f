-- ===== src/Gateway/Authentication.antt =====
-- services/gateway/internal/middleware/auth.go.
pub mod Access
use go_fintech_microservices.Prelude.{
  Bool, true, false, not, ◌||◌, List, [], ◌∷◌, Option, none, some, String, Instant, any, str_eq,
  if◌then◌else◌,
}
use Prim.Native.String.{len, slice}
use text.Mathlib.Text.{starts_with}
use go_fintech_microservices.Identity.Service.{JwtToken, Claims}

abbrev public_paths : List String
public_paths = "/v1/auth/login" ∷ "/v1/auth/register" ∷ "/v1/auth/refresh" ∷ "/healthz" ∷ []

-- A path is public that begins with one of them.
unfoldable pub is_public_path : String → Bool
is_public_path path = any (λ p. starts_with path p) public_paths

-- `strings.TrimPrefix`
abbrev pub trim_prefix : String → String → String
trim_prefix s prefix = if starts_with s prefix then slice s (len prefix) (len s) else s

-- The next handler is called, with the user's identifier in the context or without one, or the
-- request is answered as unauthorized.
pub data Answer : Type 0 where
  served : Option String → Answer
  unauthorized : String → Answer

-- What the context gives to a handler; without a user it is the empty text.
abbrev pub user_id_from_context : Option String → String
user_id_from_context none = ""
user_id_from_context (some user_id) = user_id

-- What the two callers make of a token and of claims.
abbrev pub claims_of : Option JwtToken → Option Claims
claims_of none = none
claims_of (some token) = if token.valid then some token.claims else none

abbrev pub answer_of : Option Claims → Answer
answer_of none = unauthorized "invalid token"
answer_of (some claims) = served (some claims.subject)

-- github.com/golang-jwt/jwt with the gateway's secret, which requires an expiry.
module _ (parse_with_claims : Instant → String → Option JwtToken) where
  unfoldable pub parse_token : Instant → String → Option Claims
  parse_token now raw = claims_of (parse_with_claims now raw)

  unfoldable pub authenticate : Instant → String → Answer
  unfolding parse_token
  authenticate now token = answer_of (parse_token now token)

  -- `Handler`, at the path and the Authorization header of a request.
  unfoldable pub handle : Instant → String → String → Answer
  unfolding is_public_path authenticate
  handle now path raw =
      if is_public_path path
      then served none
      else if str_eq raw "" || not (starts_with raw "Bearer ")
      then unauthorized "missing authorization header"
      else authenticate now (trim_prefix raw "Bearer ")
