-- ===== src/Identity/Server/Replies.antt =====
-- What a caller is shown of a registration with a known email.
use go_fintech_microservices.Prelude.{◌≡◌, refl, false, ◌||◌, ℕ, List, some, String, Fresh, inl}
use go_fintech_microservices.Errors.{text, joined, error_text, code_text}
use go_fintech_microservices.Errors.Grpc.{GrpcCode, Status, as_domain_error, status_code, to_grpc}
use go_fintech_microservices.Exec.{ok}
use go_fintech_microservices.Db.Smooth.{smooth, Runs-attempt}
use go_fintech_microservices.Identity.Domain.{User}
use go_fintech_microservices.Identity.Store.{IdentityTables, find_row, has_email}
use go_fintech_microservices.Identity.Service.{Config, Packages}
use go_fintech_microservices.Identity.Service.Smooth.{register-Runs_known}
use go_fintech_microservices.Identity.Server.{
  is_empty, reply, register_response, serve_register, handle_register,
}

abbrev pub registered_already : Status
registered_already = record {
  code = GrpcCode.already_exists;
  message = text "email already registered";
}

module _ (cfg : Config) (packages : Packages) (t : IdentityTables) (salt : List ℕ) (fresh : Fresh)
    (email password full_name : String) (user : User) where
  -- While no statement fails, a Register with an email and a password that are not empty and an
  -- email that a user has writes nothing; the gRPC server answers Internal with the error's text,
  -- where Handler answers AlreadyExists.
  pub serve_register_known :
      (is_empty email || is_empty password) ≡ false
      → find_row (has_email email) t.users ≡ some user
      → (serve_register cfg packages salt fresh email password full_name (smooth t) ≡ (
        ok (
            inl (record {
              code = GrpcCode.internal;
              message = joined (text "ALREADY_EXISTS") (text "email already registered");
            })),
        smooth t,
      ))
        × (handle_register cfg packages salt fresh email password full_name (smooth t)
            ≡ (ok (inl (some registered_already)), smooth t))
  unfolding serve_register handle_register reply error_text code_text to_grpc as_domain_error
      status_code
  serve_register_known given known = (
    rw (given, serve_register)
        (Runs-attempt _
          (reply (λ e. record { code = GrpcCode.internal; message = error_text e })
            (register_response cfg packages))
          _ _ t t t
          (register-Runs_known cfg packages t salt fresh email password full_name user known)
          (record { runs = refl })).runs,
    rw (given, handle_register)
        (Runs-attempt _ (reply (λ e. to_grpc (some e)) (register_response cfg packages)) _ _ t t t
          (register-Runs_known cfg packages t salt fresh email password full_name user known)
          (record { runs = refl })).runs,
  )
