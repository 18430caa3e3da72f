-- ===== src/Identity/Server.antt =====
-- services/identity/internal/adapters/inbound/grpc: server.go, which the service listens with, and
-- handler.go. Both hold an `AuthService`, and differ in the statuses of its errors.
pub mod Replies
use go_fintech_microservices.Prelude.{
  ℕ, Bool, true, false, ◌||◌, List, Option, none, some, String, Uuid, Instant, Fresh, str_eq, ◌⊎◌,
  inl, inr, if◌then◌else◌,
}
use go_fintech_microservices.Errors.{
  Message, text, GoError, error_text, invalid_argument, new_error,
}
use go_fintech_microservices.Errors.Grpc.{GrpcCode, Status, to_grpc}
use go_fintech_microservices.Exec.{Result, ok, err, Exec, pure, attempt}
use go_fintech_microservices.Identity.Store.{IdentityDb}
use go_fintech_microservices.Identity.Service.{
  Config, Packages, Clock, Supply, RegisterResult, LoginResult, RefreshResult, ValidateResult,
  register, login, refresh, validate_token, logout,
}

pub record RegisterResponse : Type 0 where
  pub user_id : String
  pub created_at : Instant

pub record LoginResponse : Type 0 where
  pub access_token : String
  pub refresh_token : String
  pub expires_at : Instant

pub record RefreshResponse : Type 0 where
  pub access_token : String
  pub expires_at : Instant

pub record ValidateResponse : Type 0 where
  pub user_id : String
  pub email : String
  pub valid : Bool

-- A value, or the status of the error.
abbrev Reply : Type 0 → Type 0 → Type 0
Reply S A = Exec IdentityDb (S ⊎ A)

abbrev status : GrpcCode → String → Status
status code message = record { code = code; message = text message }

reply : {S A B : Type 0} → (GoError → S) → (A → B) → Result A → Reply S B
reply status_of response (ok a) = pure (inr (response a))
reply status_of response (err e) = pure (inl (status_of e))

abbrev is_empty : String → Bool
is_empty s = str_eq s ""

module _ (cfg : Config) (packages : Packages) where
  abbrev register_response : RegisterResult → RegisterResponse
  register_response r = record { user_id = packages.show_uuid r.user_id; created_at = r.created_at }

  abbrev login_response : LoginResult → LoginResponse
  login_response r = record {
    access_token = r.access_token;
    refresh_token = r.refresh_token;
    expires_at = r.expires_at;
  }

  abbrev refresh_response : RefreshResult → RefreshResponse
  refresh_response r = record { access_token = r.access_token; expires_at = r.expires_at }

  abbrev validate_response : ValidateResult → ValidateResponse
  validate_response r = record {
    user_id = packages.show_uuid r.user_id;
    email = r.email;
    valid = true;
  }

  abbrev invalid_response : ValidateResponse
  invalid_response = record { user_id = ""; email = ""; valid = false }

  -- The answer of both to a `ValidateToken`; `none` is a panic.
  validated : Result (Option ValidateResult) → Exec IdentityDb (Option ValidateResponse)
  validated (ok none) = pure none
  validated (ok (some r)) = pure (some (validate_response r))
  validated (err e) = pure (some invalid_response)

  -- `Server`
  unfoldable pub serve_register :
      List ℕ → Fresh → String → String → String → Reply Status RegisterResponse
  unfolding register reply
  serve_register salt fresh email password full_name =
      if is_empty email || is_empty password
      then pure (inl (status GrpcCode.invalid_argument "email and password required"))
      else attempt (register cfg packages salt fresh email password full_name) (
          reply (λ e. record { code = GrpcCode.internal; message = error_text e })
            register_response)

  unfoldable pub serve_login : Supply → String → String → Reply Status LoginResponse
  unfolding login reply
  serve_login supply email password =
      if is_empty email || is_empty password
      then pure (inl (status GrpcCode.invalid_argument "email and password required"))
      else attempt (login cfg packages supply email password)
          (reply (λ e. status GrpcCode.unauthenticated "invalid credentials") login_response)

  unfoldable pub serve_refresh : Instant → Clock → String → Reply Status RefreshResponse
  unfolding refresh reply
  serve_refresh now clock raw =
      if is_empty raw
      then pure (inl (status GrpcCode.invalid_argument "refresh token required"))
      else attempt (refresh cfg packages now clock raw)
          (reply (λ e. status GrpcCode.unauthenticated "invalid refresh token") refresh_response)

  unfoldable pub serve_validate : Instant → String → Exec IdentityDb (Option ValidateResponse)
  unfolding validate_token validated
  serve_validate now raw = attempt (validate_token cfg packages now raw) validated

  -- `Handler`; `ToGRPC` has a status for each error, and none for nil.
  abbrev required : String → Option Status
  required message = to_grpc (some (new_error invalid_argument message))

  unfoldable pub handle_register :
      List ℕ → Fresh → String → String → String → Reply (Option Status) RegisterResponse
  unfolding register reply to_grpc
  handle_register salt fresh email password full_name =
      if is_empty email || is_empty password
      then pure (inl (required "email and password required"))
      else attempt (register cfg packages salt fresh email password full_name)
          (reply (λ e. to_grpc (some e)) register_response)

  unfoldable pub handle_login : Supply → String → String → Reply (Option Status) LoginResponse
  unfolding login reply to_grpc
  handle_login supply email password =
      if is_empty email || is_empty password
      then pure (inl (required "email and password required"))
      else attempt (login cfg packages supply email password)
          (reply (λ e. to_grpc (some e)) login_response)

  unfoldable pub handle_refresh : Instant → Clock → String → Reply (Option Status) RefreshResponse
  unfolding refresh reply to_grpc
  handle_refresh now clock raw =
      if is_empty raw
      then pure (inl (required "refresh token required"))
      else attempt (refresh cfg packages now clock raw)
          (reply (λ e. to_grpc (some e)) refresh_response)

  unfoldable pub handle_validate : Instant → String → Exec IdentityDb (Option ValidateResponse)
  unfolding validate_token validated
  handle_validate now raw = attempt (validate_token cfg packages now raw) validated

-- `Success` is true in each response to a `Logout`.
logged_out : Result (Unit {0}) → Reply Status Bool
unfolding error_text
logged_out r =
    reply (λ e. record { code = GrpcCode.internal; message = error_text e }) (λ _. true) r

unfoldable pub serve_logout : String → Reply Status Bool
unfolding logout logged_out reply
serve_logout raw = attempt (logout raw) logged_out

status_of_logout : Result (Unit {0}) → Exec IdentityDb (Option Status)
unfolding to_grpc
status_of_logout (ok done) = pure (to_grpc none)
status_of_logout (err e) = pure (to_grpc (some e))

unfoldable pub handle_logout : String → Exec IdentityDb (Option Status)
unfolding logout status_of_logout
handle_logout raw = attempt (logout raw) status_of_logout
