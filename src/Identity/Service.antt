-- ===== src/Identity/Service.antt =====
-- services/identity/internal/application/auth_service.go.
pub mod Calls
pub mod Revocation
pub mod Refreshing
pub mod Smooth
pub mod Accounts
use go_fintech_microservices.Prelude.{
  ℕ, ◌+◌, Bool, true, false, List, Option, none, some, String, Uuid, Instant, Fresh, if◌then◌else◌,
}
use go_fintech_microservices.Errors.{
  GoError, foreign, unknown, already_exists, unauthenticated, internal, new_error, wrap,
}
use go_fintech_microservices.Exec.{
  Result, ok, err, Exec, pure, raise, or_raise, lift, attempt, raise_if, ◌>>=◌, ◌>>◌,
}
use go_fintech_microservices.Identity.Domain.{
  User, RefreshToken, new_user, new_refresh_token, is_expired,
}
use go_fintech_microservices.Identity.Store.{
  IdentityDb, save_user, find_by_email, find_by_id, save_token, find_by_token, delete_token,
}

-- `Config`: the two TTLs.
pub record Config : Type 0 where
  pub access_token_ttl : ℕ
  pub refresh_token_ttl : ℕ

-- `jwt.RegisteredClaims`, and a `jwt.Token` with such claims.
pub record Claims : Type 0 where
  pub subject : String
  pub expires_at : Instant
  pub issued_at : Instant
  pub issuer : String

pub record JwtToken : Type 0 where
  pub valid : Bool
  pub claims : Claims

-- The packages that the service calls: golang.org/x/crypto/bcrypt (the bytes are the salt),
-- github.com/golang-jwt/jwt with the configured secret (`numeric_date` is `NewNumericDate`),
-- encoding/hex, and the texts of UUIDs. `none` is an error.
pub record Packages : Type 0 where
  pub generate_from_password : List ℕ → String → Option String
  pub compare_hash_and_password : String → String → Bool
  pub numeric_date : Instant → Instant
  pub signed_string : Claims → Option String
  pub parse_with_claims : Instant → String → Option JwtToken
  pub encode_to_string : List ℕ → String
  pub show_uuid : Uuid → String
  pub parse_uuid : String → Option Uuid

-- What `time.Now` returns to `signAccessToken`, first and then.
pub record Clock : Type 0 where
  pub expiring : Instant
  pub issued : Instant

-- What `time.Now`, `rand.Read` and `uuid.New` return to `issueTokens`; `none` is an error.
pub record Supply : Type 0 where
  pub clock : Clock
  pub random : Option (List ℕ)
  pub now : Instant
  pub fresh : Fresh

pub record RegisterResult : Type 0 where
  pub user_id : Uuid
  pub created_at : Instant

pub record LoginResult : Type 0 where
  pub access_token : String
  pub refresh_token : String
  pub expires_at : Instant

pub record RefreshResult : Type 0 where
  pub access_token : String
  pub expires_at : Instant

pub record ValidateResult : Type 0 where
  pub user_id : Uuid
  pub email : String

module _ (cfg : Config) (packages : Packages) where
  -- The claims of an access token, and when it expires.
  abbrev pub access_expiry : Clock → Instant
  access_expiry clock = clock.expiring + cfg.access_token_ttl

  abbrev pub access_claims : Clock → Uuid → Claims
  access_claims clock user_id = record {
    subject = packages.show_uuid user_id;
    expires_at = packages.numeric_date (access_expiry clock);
    issued_at = packages.numeric_date clock.issued;
    issuer = "fintech-identity";
  }

  unfoldable pub sign_access_token : Clock → Uuid → Result RefreshResult
  sign_access_token clock user_id = elim (packages.signed_string (access_claims clock user_id)) [
    | none ↦ err (wrap internal "sign token" (foreign unknown))
    | some signed ↦ ok (record { access_token = signed; expires_at = access_expiry clock })
  ]

  -- `parseToken`; the claims are nil where a token is not valid and there is no error.
  unfoldable pub parse_token : Instant → String → Result (Option Claims)
  parse_token now raw = elim (packages.parse_with_claims now raw) [
    | none ↦ err (foreign unknown)
    | some token ↦ ok (if token.valid then some token.claims else none)
  ]

  unfoldable pub generate_secure_token : Option (List ℕ) → Result String
  generate_secure_token none = err (foreign unknown)
  generate_secure_token (some bytes) = ok (packages.encode_to_string bytes)

  -- The error of `rand.Read`, with its context.
  secure_token : Option (List ℕ) → Exec IdentityDb String
  unfolding generate_secure_token
  secure_token random = elim (generate_secure_token random) [
    | ok token ↦ pure token
    | err e ↦ raise (wrap internal "generate refresh token" e)
  ]

  unfoldable pub issue_tokens : Supply → Uuid → Exec IdentityDb LoginResult
  unfolding sign_access_token secure_token save_token
  issue_tokens supply user_id = do
    access ← lift (sign_access_token supply.clock user_id)
    raw ← secure_token supply.random
    save_token (new_refresh_token supply.fresh supply.now user_id raw cfg.refresh_token_ttl)
    pure (record {
      access_token = access.access_token;
      refresh_token = raw;
      expires_at = access.expires_at;
    })

  -- After `FindByEmail`: any error of it lets the registration go on.
  pub register_unknown :
      List ℕ → Fresh → String → String → String → Result User → Exec IdentityDb RegisterResult
  unfolding save_user
  register_unknown salt fresh email password full_name (ok user) =
      raise (new_error already_exists "email already registered")
  register_unknown salt fresh email password full_name (err e) = do
    hash ←
        or_raise (wrap internal "hash password" (foreign unknown))
          (packages.generate_from_password salt password)
    save_user (new_user fresh email hash full_name)
    pure (record { user_id = fresh.id; created_at = fresh.now })

  unfoldable pub register :
      List ℕ → Fresh → String → String → String → Exec IdentityDb RegisterResult
  unfolding find_by_email register_unknown
  register salt fresh email password full_name =
      attempt (find_by_email email) (register_unknown salt fresh email password full_name)

  abbrev pub invalid_credentials : GoError
  invalid_credentials = new_error unauthenticated "invalid credentials"

  pub login_found : Supply → String → Result User → Exec IdentityDb LoginResult
  unfolding issue_tokens
  login_found supply password (err e) = raise invalid_credentials
  login_found supply password (ok user) =
      if packages.compare_hash_and_password user.password_hash password
      then issue_tokens supply user.id
      else raise invalid_credentials

  unfoldable pub login : Supply → String → String → Exec IdentityDb LoginResult
  unfolding find_by_email login_found
  login supply email password = attempt (find_by_email email) (login_found supply password)

  -- The error of the deletion is dropped.
  pub refresh_found : Instant → Clock → String → Result RefreshToken → Exec IdentityDb RefreshResult
  unfolding delete_token sign_access_token
  refresh_found now clock raw (err e) = raise (new_error unauthenticated "invalid refresh token")
  refresh_found now clock raw (ok stored) =
      if is_expired now stored
      then attempt (delete_token raw)
          (λ r. raise (new_error unauthenticated "refresh token expired"))
      else lift (sign_access_token clock stored.user_id)

  unfoldable pub refresh : Instant → Clock → String → Exec IdentityDb RefreshResult
  unfolding find_by_token refresh_found
  refresh now clock raw = attempt (find_by_token raw) (refresh_found now clock raw)

  validated : Uuid → Result User → Exec IdentityDb (Option ValidateResult)
  validated user_id (err e) = raise (new_error unauthenticated "user not found")
  validated user_id (ok user) = pure (some (record { user_id = user_id; email = user.email }))

  -- With the claims; nil claims have no `Subject`, and the call panics.
  pub validate_claims : Result (Option Claims) → Exec IdentityDb (Option ValidateResult)
  unfolding find_by_id validated
  validate_claims (err e) = raise (new_error unauthenticated "invalid token")
  validate_claims (ok none) = pure none
  validate_claims (ok (some claims)) = elim (packages.parse_uuid claims.subject) [
    | none ↦ raise (new_error unauthenticated "invalid token subject")
    | some user_id ↦ attempt (find_by_id user_id) (validated user_id)
  ]

  -- `none` is a panic.
  unfoldable pub validate_token : Instant → String → Exec IdentityDb (Option ValidateResult)
  unfolding validate_claims parse_token
  validate_token now raw = validate_claims (parse_token now raw)

unfoldable pub logout : String → Exec IdentityDb (Unit {0})
unfolding delete_token
logout raw = delete_token raw
