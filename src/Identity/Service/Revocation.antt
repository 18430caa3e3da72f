-- ===== src/Identity/Service/Revocation.antt =====
-- A refresh token that no row has stays absent.
pub mod Refusal
use mathlib.Core.Path.{subst}
use go_fintech_microservices.Db.{select}
use go_fintech_microservices.Prelude.{
  arith, ◌≡◌, refl, sym, ap, ◌∙◌, ◌⊎◌, inl, inr, Bool, true, false, Bool-cases, not, ◌||◌, ℕ, List,
  [], ◌∷◌, Option, Option-cases, none, some, some-inj, String, Uuid, Instant, Fresh, All, any,
  filter, str_eq,
}
use go_fintech_microservices.Errors.{unauthenticated, not_found, new_error}
use go_fintech_microservices.Exec.{Result, ok, err, Exec, pure, raise, or_raise, ◌>>=◌}
use go_fintech_microservices.Db.Laws.{
  Ends-either, Triple, Triple-pure, Triple-raise, Triple-lift, Triple-or_raise, Triple-bind,
  Triple-attempt, Triple-if, Triple-weaken, Triple-given,
}
use go_fintech_microservices.Db.Statements.{Triple-select, Triple-write}
use go_fintech_microservices.Identity.Domain.{
  User, RefreshToken, new_refresh_token, new_user, is_expired,
}
use go_fintech_microservices.Identity.Store.{
  IdentityTables, IdentityDb, find_row, has_email, has_id, has_token, insert_user, insert_token,
  without_token, save_user, find_by_email, find_by_id, save_token, find_by_token, delete_token,
}
use go_fintech_microservices.Identity.Store.Rows.{
  insert_user-eq, insert_token-eq, find_row-append_other, find_row-without, find_row-filter-none,
}
use go_fintech_microservices.Identity.Service.{
  Config, Packages, Claims, Clock, Supply, generate_secure_token, secure_token, sign_access_token,
  issue_tokens, register_unknown, register, login_found, login, refresh_found, refresh, parse_token,
  validated, validate_claims, validate_token, logout,
}
use go_fintech_microservices.Identity.Service.Calls.{
  Call, registering, logging_in, refreshing, validating, logging_out, serve, serve_all,
}

module _ (raw : String) where
  -- No row has the token.
  pub record Absent (t : IdentityTables) : Type 0 where
    pub absent : find_row (has_token raw) t.refresh_tokens ≡ none

  insert_user-Absent :
      (user : User) (t t' : IdentityTables) → Absent t → insert_user user t ≡ some t' → Absent t'
  insert_user-Absent user t t' a h =
      subst Absent (sym (insert_user-eq user t t' h).1) (record { absent = a.absent })

  insert_token-Absent :
      (token : RefreshToken) (t t' : IdentityTables)
      → has_token raw token ≡ false
      → Absent t
      → insert_token token t ≡ some t'
      → Absent t'
  insert_token-Absent token t t' other a h =
      subst Absent (sym (insert_token-eq token t t' h).1) (record {
        absent = find_row-append_other (has_token raw) t.refresh_tokens token other ∙ a.absent;
      })

  without_token-Absent :
      (other : String) (t : IdentityTables) → Absent t → Absent (without_token other t)
  without_token-Absent other t a = record {
    absent =
        find_row-filter-none (has_token raw) (λ row. not (has_token other row)) t.refresh_tokens
          a.absent;
  }

  without_token-Absent_own : (t : IdentityTables) → Absent (without_token raw t)
  without_token-Absent_own t = record { absent = find_row-without (has_token raw) t.refresh_tokens }

  Triple-same :
      {A : Type 0} (m : Exec IdentityDb A)
      → Triple Absent m (λ _ t. Absent t) Absent
      → Triple Absent (m >>= λ _. pure tt) (λ _ t. Absent t) Absent
  Triple-same m h = Triple-bind m _ h (λ a. Triple-pure tt (λ t p. p))

  -- The lookups write nothing.
  found-Absent :
      {A : Type 0} (message missing : String) (f : IdentityTables → Option A)
      → Triple Absent
          (select message f >>= or_raise (new_error not_found missing))
          (λ _ t. Absent t)
          Absent
  found-Absent message missing f =
      Triple-bind {R = λ _ t. Absent t} _ _ (Triple-select message f (λ t p. p) (λ t p. p))
        (λ o. Triple-or_raise _ o (λ a t e p. p) (λ t p. p))

  module _ (cfg : Config) (packages : Packages) where
    register-Absent :
        (salt : List ℕ) (fresh : Fresh) (email password full_name : String)
        → Triple Absent
            (register cfg packages salt fresh email password full_name)
            (λ _ t. Absent t)
            Absent
    unfolding register find_by_email register_unknown save_user
    register-Absent salt fresh email password full_name =
        Triple-attempt _ (register_unknown cfg packages salt fresh email password full_name)
          (found-Absent _ _ _) (λ user. Triple-raise _ (λ t p. p))
          (λ e.
            Triple-bind {R = λ _ t. Absent t} _ _
              (Triple-or_raise _ (packages.generate_from_password salt password) (λ a t e p. p)
                (λ t p. p))
              (λ hash.
                Triple-bind {R = λ _ t. Absent t} _ _
                  (Triple-write "save user" (insert_user (new_user fresh email hash full_name))
                    (λ t t' p h. insert_user-Absent (new_user fresh email hash full_name) t t' p h)
                    (λ t t' p h. insert_user-Absent (new_user fresh email hash full_name) t t' p h)
                    (λ t p. p))
                  (λ _. Triple-pure _ (λ t p. p))))

    -- What `rand.Read` gives to a login is not the token.
    abbrev pub Spares : Supply → Type 0
    Spares supply =
        (bytes : List ℕ)
        → supply.random ≡ some bytes
        → str_eq (packages.encode_to_string bytes) raw ≡ false

    abbrev pub SparesCall : Call → Type 0
    SparesCall (registering salt fresh email password full_name) = Unit
    SparesCall (logging_in supply email password) = Spares supply
    SparesCall (refreshing now clock token) = Unit
    SparesCall (validating now token) = Unit
    SparesCall (logging_out token) = Unit

    issue_tokens-Absent :
        (supply : Supply) (user_id : Uuid)
        → Spares supply
        → Triple Absent (issue_tokens cfg packages supply user_id) (λ _ t. Absent t) Absent
    unfolding issue_tokens save_token
    issue_tokens-Absent supply user_id spares =
        Triple-bind {R = λ _ t. Absent t} _ _
          (Triple-lift (sign_access_token cfg packages supply.clock user_id) (λ a t e p. p)
            (λ t p. p))
          (λ access.
            Triple-bind {R = λ token t. (str_eq token raw ≡ false) × Absent t} _ _
              (secure_token-Absent supply.random spares)
              (λ token.
                Triple-given {F = str_eq token raw ≡ false} _ (λ t p. p.0)
                  (λ other.
                    Triple-bind {R = λ _ t. Absent t} _ _
                      (Triple-write "save refresh token" (insert_token (row token))
                        (λ t t' p h. insert_token-Absent (row token) t t' other p.1 h)
                        (λ t t' p h. insert_token-Absent (row token) t t' other p.1 h) (λ t p. p.1))
                      (λ _. Triple-pure _ (λ t p. p)))))
      where
        row : String → RefreshToken
        row token = new_refresh_token supply.fresh supply.now user_id token cfg.refresh_token_ttl

        secure_token-Absent :
            (random : Option (List ℕ))
            → ((bytes : List ℕ)
                → random ≡ some bytes
                → str_eq (packages.encode_to_string bytes) raw ≡ false)
            → Triple Absent
                (secure_token cfg packages random)
                (λ token t. (str_eq token raw ≡ false) × Absent t)
                Absent
        secure_token-Absent none spares = record { at = λ db p. p }
        secure_token-Absent (some bytes) spares = record { at = λ db p. (spares bytes refl, p) }

    login-Absent :
        (supply : Supply) (email password : String)
        → Spares supply
        → Triple Absent (login cfg packages supply email password) (λ _ t. Absent t) Absent
    unfolding login find_by_email login_found
    login-Absent supply email password spares =
        Triple-attempt _ (login_found cfg packages supply password) (found-Absent _ _ _)
          (λ user.
            Triple-if (packages.compare_hash_and_password user.password_hash password) _ _
              (λ _. issue_tokens-Absent supply user.id spares) (λ _. Triple-raise _ (λ t p. p)))
          (λ e. Triple-raise _ (λ t p. p))

    delete_token-Absent :
        (other : String) → Triple Absent (delete_token other) (λ _ t. Absent t) Absent
    unfolding delete_token
    delete_token-Absent other =
        Triple-write "delete refresh token" (λ t. some (without_token other t))
          (λ t t' p h. subst Absent (some-inj h) (without_token-Absent other t p))
          (λ t t' p h. subst Absent (some-inj h) (without_token-Absent other t p)) (λ t p. p)

    refresh-Absent :
        (now : Instant) (clock : Clock) (other : String)
        → Triple Absent (refresh cfg packages now clock other) (λ _ t. Absent t) Absent
    unfolding refresh find_by_token refresh_found
    refresh-Absent now clock other =
        Triple-attempt _ (refresh_found cfg packages now clock other) (found-Absent _ _ _)
          (λ stored.
            Triple-if (is_expired now stored) _ _
              (λ _.
                Triple-attempt {R = λ _ t. Absent t} {E' = Absent} _
                  (λ r. raise (new_error unauthenticated "refresh token expired"))
                  (delete_token-Absent other) (λ _. Triple-raise _ (λ t p. p))
                  (λ _. Triple-raise _ (λ t p. p)))
              (λ _. Triple-lift _ (λ a t e p. p) (λ t p. p)))
          (λ e. Triple-raise _ (λ t p. p))

    validate_claims-Absent :
        (r : Result (Option Claims))
        → Triple Absent (validate_claims cfg packages r) (λ _ t. Absent t) Absent
    unfolding validate_claims find_by_id validated
    validate_claims-Absent (err e) = Triple-raise _ (λ t p. p)
    validate_claims-Absent (ok none) = Triple-pure none (λ t p. p)
    validate_claims-Absent (ok (some claims)) =
        elim (Option-cases (packages.parse_uuid claims.subject)) [
          | inl e ↦ rw (e, validate_claims) (Triple-raise _ (λ t p. p))
          | inr (user_id, e) ↦
              rw (e, validate_claims)
                (Triple-attempt _ (validated cfg packages user_id) (found-Absent _ _ _)
                  (λ user. Triple-pure _ (λ t p. p)) (λ e. Triple-raise _ (λ t p. p)))
        ]

    -- Every call leaves the token absent,
    serve-Absent :
        (call : Call)
        → SparesCall call
        → Triple Absent (serve cfg packages call) (λ _ t. Absent t) Absent
    unfolding serve logout validate_token
    serve-Absent (registering salt fresh email password full_name) spares =
        Triple-same _ (register-Absent salt fresh email password full_name)
    serve-Absent (logging_in supply email password) spares =
        Triple-same _ (login-Absent supply email password spares)
    serve-Absent (refreshing now clock other) spares =
        Triple-same _ (refresh-Absent now clock other)
    serve-Absent (validating now token) spares =
        Triple-same _ (validate_claims-Absent (parse_token cfg packages now token))
    serve-Absent (logging_out other) spares = delete_token-Absent other

    -- and so does a sequence of calls.
    pub serve_all-Absent :
        (calls : List Call) (db : IdentityDb)
        → All SparesCall calls
        → Absent db.tables
        → Absent (serve_all cfg packages calls db).tables
    unfolding serve_all
    serve_all-Absent [] db spares p = p
    serve_all-Absent (call ∷ calls) db spares p =
        serve_all-Absent calls (serve cfg packages call db).1 spares.1
          (Ends-either Absent (serve cfg packages call db) ((serve-Absent call spares.0).at db p))
