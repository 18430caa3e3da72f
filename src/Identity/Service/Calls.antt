-- ===== src/Identity/Service/Calls.antt =====
-- Sequences of calls of `AuthService`.
use go_fintech_microservices.Prelude.{ℕ, List, [], ◌∷◌, String, Instant, Fresh}
use go_fintech_microservices.Exec.{Exec, pure, ◌>>◌}
use go_fintech_microservices.Identity.Store.{IdentityDb}
use go_fintech_microservices.Identity.Service.{
  Config, Packages, Clock, Supply, register, login, refresh, validate_token, logout,
}

-- A call of a method, with what `uuid.New`, `time.Now` and `rand.Read` return to it.
pub data Call : Type 0 where
  registering : List ℕ → Fresh → String → String → String → Call
  logging_in : Supply → String → String → Call
  refreshing : Instant → Clock → String → Call
  validating : Instant → String → Call
  logging_out : String → Call

module _ (cfg : Config) (packages : Packages) where
  unfoldable pub serve : Call → Exec IdentityDb (Unit {0})
  unfolding register login refresh validate_token logout
  serve (registering salt fresh email password full_name) = do
    register cfg packages salt fresh email password full_name
    pure tt
  serve (logging_in supply email password) = do login cfg packages supply email password; pure tt
  serve (refreshing now clock raw) = do refresh cfg packages now clock raw; pure tt
  serve (validating now raw) = do validate_token cfg packages now raw; pure tt
  serve (logging_out raw) = logout raw

  -- The database after the calls, whatever each of them returned.
  unfoldable pub serve_all : List Call → IdentityDb → IdentityDb
  unfolding serve
  serve_all [] db = db
  serve_all (call ∷ calls) db = serve_all calls (serve call db).1
