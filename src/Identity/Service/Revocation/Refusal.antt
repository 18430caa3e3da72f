-- ===== src/Identity/Service/Revocation/Refusal.antt =====
-- A refresh token that was logged out is of no use.
use go_fintech_microservices.Prelude.{arith, ◌≡◌, refl, List, none, some, String, Instant, All}
use mathlib.Core.Path.{subst}
use go_fintech_microservices.Errors.{unauthenticated, new_error}
use go_fintech_microservices.Exec.{Result, ok, err}
use go_fintech_microservices.Db.Laws.{Ends, Triple, Triple-bind, Triple-or_raise}
use go_fintech_microservices.Db.Statements.{Triple-select, Triple-write}
use go_fintech_microservices.Identity.Domain.{RefreshToken}
use go_fintech_microservices.Identity.Store.{IdentityDb, without_token, find_by_token, delete_token}
use go_fintech_microservices.Identity.Service.{
  Config, Packages, Clock, refresh_found, refresh, logout,
}
use go_fintech_microservices.Identity.Service.Calls.{Call, serve_all}
use go_fintech_microservices.Identity.Service.Revocation.{
  Absent, without_token-Absent_own, SparesCall, serve_all-Absent,
}

module _ (raw : String) where
  find_by_token_fails : Triple (Absent raw) (find_by_token raw) (λ _ t. ⊥) (λ t. Unit {0})
  unfolding find_by_token
  find_by_token_fails =
      Triple-bind {R = λ o t. o ≡ none} _ _ (Triple-select _ _ (λ t p. p.absent) (λ t p. tt))
        (λ o. Triple-or_raise _ o (λ a t e n. ground arith) (λ t p. tt))

  logout-Absent : Triple (λ t. Unit {0}) (logout raw) (λ _ t. Absent raw t) (λ t. Unit {0})
  unfolding logout delete_token
  logout-Absent =
      Triple-write "delete refresh token" (λ t. some (without_token raw t))
        (λ t t' p h. subst (Absent raw) (ground arith) (without_token-Absent_own raw t))
        (λ t t' p h. tt) (λ t p. tt)

module _ (cfg : Config) (packages : Packages) (now : Instant) (clock : Clock) (raw : String) where
  refusing :
      (found : Result RefreshToken × IdentityDb)
      → Ends (λ _ t. ⊥) (λ t. Unit {0}) found
      → (refresh_found cfg packages now clock raw found.0 found.1).0
        ≡ err (new_error unauthenticated "invalid refresh token")
  unfolding refresh_found
  refusing (ok stored, db) h = absurd h
  refusing (err e, db) h = refl

  refresh-Absent :
      (db : IdentityDb)
      → Absent raw db.tables
      → (refresh cfg packages now clock raw db).0
        ≡ err (new_error unauthenticated "invalid refresh token")
  unfolding refresh
  refresh-Absent db p = refusing (find_by_token raw db) ((find_by_token_fails raw).at db p)

  -- After a Logout of a refresh token that returned nil, and any calls of the service whose logins
  -- do not draw that same token, with any statement failing or losing its reply, a Refresh with
  -- the token is refused as unauthenticated.
  pub refresh-logout :
      (calls : List Call) (db db' : IdentityDb)
      → All (SparesCall raw cfg packages) calls
      → logout raw db ≡ (ok tt, db')
      → (refresh cfg packages now clock raw (serve_all cfg packages calls db')).0
        ≡ err (new_error unauthenticated "invalid refresh token")
  refresh-logout calls db db' spares out = refresh-Absent (serve_all cfg packages calls db') (
      serve_all-Absent raw cfg packages calls db' spares
        (subst (Ends (λ _ t. Absent raw t) (λ t. Unit {0})) out ((logout-Absent raw).at db tt)))
