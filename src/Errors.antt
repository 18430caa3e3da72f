-- ===== src/Errors.antt =====
-- pkg/errors/errors.go: coded domain errors, Go's error chains, and their gRPC statuses.
pub mod Grpc
use go_fintech_microservices.Prelude.Int.{ℤ}
use go_fintech_microservices.Prelude.{String, List, Option, none, some}

-- The strings of the type `Code`; `other` is any string that is no constant of the package.
pub data Code : Type 0 where
  not_found already_exists invalid_argument permission_denied : Code
  unauthenticated insufficient_funds conflict internal : Code
  other : String → Code

-- Error texts: a literal, a `fmt.Sprintf` of `%d` verbs, two texts with ": " between them, and a
-- text that code outside the repository wrote.
pub data Message : Type 0 where
  text : String → Message
  sprintf : String → List ℤ → Message
  joined : Message → Message → Message
  unknown : Message

-- Go's `error` values: a `DomainError` without and with an `Err`, an error of other code, and one
-- of other code that unwraps to a further error.
pub data GoError : Type 0 where
  coded : Code → Message → GoError
  wrapped : Code → Message → GoError → GoError
  foreign : Message → GoError
  chained : Message → GoError → GoError

-- `errors.New` and `errors.Wrap`
abbrev pub new_error : Code → String → GoError
new_error code message = coded code (text message)

abbrev pub wrap : Code → String → GoError → GoError
wrap code message err = wrapped code (text message) err

-- The text of a `Code`.
unfoldable pub code_text : Code → String
code_text not_found = "NOT_FOUND"
code_text already_exists = "ALREADY_EXISTS"
code_text invalid_argument = "INVALID_ARGUMENT"
code_text permission_denied = "PERMISSION_DENIED"
code_text unauthenticated = "UNAUTHENTICATED"
code_text insufficient_funds = "INSUFFICIENT_FUNDS"
code_text conflict = "CONFLICT"
code_text internal = "INTERNAL"
code_text (other s) = s

-- `Error()`; other code's errors bring their own text.
unfoldable pub error_text : GoError → Message
unfolding code_text
error_text (coded code message) = joined (text (code_text code)) message
error_text (wrapped code message err) =
    joined (joined (text (code_text code)) message) (error_text err)
error_text (foreign message) = message
error_text (chained message err) = message

-- `(*DomainError).Unwrap` and the `Unwrap` of other code
unfoldable pub unwrap : GoError → Option GoError
unwrap (coded code message) = none
unwrap (wrapped code message err) = some err
unwrap (foreign message) = none
unwrap (chained message err) = some err
