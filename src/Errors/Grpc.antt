-- ===== src/Errors/Grpc.antt =====
-- `ToGRPC` of pkg/errors/errors.go: the status that a caller of a service is shown.
use go_fintech_microservices.Prelude.{Option, none, some}
use go_fintech_microservices.Errors.{
  Code, Message, GoError, coded, wrapped, foreign, chained, error_text,
}

-- The constants of google.golang.org/grpc/codes that the repository names.
pub data GrpcCode : Type 0 where
  not_found already_exists invalid_argument permission_denied : GrpcCode
  unauthenticated failed_precondition internal : GrpcCode

pub record Status : Type 0 where
  pub code : GrpcCode
  pub message : Message

-- `errors.As(err, &de)` for a `*DomainError`: the first one along the chain.
unfoldable pub as_domain_error : GoError → Option (Code × Message)
as_domain_error (coded code message) = some (code, message)
as_domain_error (wrapped code message err) = some (code, message)
as_domain_error (foreign message) = none
as_domain_error (chained message err) = as_domain_error err

-- The `switch` on the code.
unfoldable pub status_code : Code → GrpcCode
status_code Code.not_found = GrpcCode.not_found
status_code Code.already_exists = GrpcCode.already_exists
status_code Code.invalid_argument = GrpcCode.invalid_argument
status_code Code.permission_denied = GrpcCode.permission_denied
status_code Code.unauthenticated = GrpcCode.unauthenticated
status_code Code.insufficient_funds = GrpcCode.failed_precondition
status_code Code.conflict = GrpcCode.already_exists
status_code Code.internal = GrpcCode.internal
status_code (Code.other s) = GrpcCode.internal

-- `none` is the nil error.
unfoldable pub to_grpc : Option GoError → Option Status
unfolding as_domain_error status_code error_text
to_grpc none = none
to_grpc (some err) = elim (as_domain_error err) [
  | none ↦ some (record { code = GrpcCode.internal; message = error_text err })
  | some (code, message) ↦ some (record { code = status_code code; message = message })
]
