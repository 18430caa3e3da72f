-- ===== src/Identity/Service/Smooth.antt =====
-- The calls of `AuthService` and what they return and leave, while nothing fails.
use go_fintech_microservices.Prelude.{
  ◌≡◌, refl, ap, ◌∙◌, ℕ, ◌<◌, true, false, List, none, some, String, Uuid, Instant, Fresh, any,
}
use go_fintech_microservices.Errors.{already_exists, not_found, new_error}
use go_fintech_microservices.Exec.{ok, err, or_raise}
use go_fintech_microservices.Db.Smooth.{
  smooth, Runs, Runs-select, Runs-or_raise, Runs-or_raise-none, Runs-pure, Runs-lift, Runs-write,
  Runs-bind, Runs-attempt,
}
use go_fintech_microservices.Identity.Domain.{User, RefreshToken, new_user, new_refresh_token}
use go_fintech_microservices.Identity.Store.{
  IdentityTables, find_row, has_email, has_id, token_clashes, with_user, with_token, insert_user,
  insert_token, save_user, find_by_email, find_by_id, save_token,
}
use go_fintech_microservices.Identity.Store.Rows.{any-or}
use go_fintech_microservices.Identity.Service.{
  Config, Packages, Claims, Supply, LoginResult, access_expiry, access_claims, sign_access_token,
  parse_token, generate_secure_token, secure_token, issue_tokens, register_unknown, register,
  login_found, login, validated, validate_claims, validate_token,
}

-- Claims with the times that a token can hold.
abbrev pub stamped : Packages → Claims → Claims
stamped packages claims = record claims {
  expires_at = packages.numeric_date claims.expires_at;
  issued_at = packages.numeric_date claims.issued_at;
}

-- What the packages document: bcrypt accepts the password that a hash was made of; a token that was
-- signed with the secret is read back before it expires, as a valid one; a UUID's text is read back.
pub record IsReliable (packages : Packages) : Type 0 where
  pub compares :
      (salt : List ℕ) (password hash : String)
      → packages.generate_from_password salt password ≡ some hash
      → packages.compare_hash_and_password hash password ≡ true
  pub reads :
      (now : Instant) (claims : Claims) (signed : String)
      → packages.signed_string (stamped packages claims) ≡ some signed
      → now < packages.numeric_date claims.expires_at
      → packages.parse_with_claims now signed
        ≡ some (record { valid = true; claims = stamped packages claims })
  pub uuids : (id : Uuid) → packages.parse_uuid (packages.show_uuid id) ≡ some id

find_by_email-Runs :
    (email : String) (user : User) (t : IdentityTables)
    → find_row (has_email email) t.users ≡ some user
    → Runs (find_by_email email) t (ok user) t
unfolding find_by_email
find_by_email-Runs email user t h =
    Runs-bind _ (or_raise (new_error not_found "user not found")) _ _ t t t
      (Runs-select "find user by email" (λ t. find_row (has_email email) t.users) t)
      (Runs-or_raise _ _ user t h)

find_by_email-Runs-none :
    (email : String) (t : IdentityTables)
    → find_row (has_email email) t.users ≡ none
    → Runs (find_by_email email) t (err (new_error not_found "user not found")) t
unfolding find_by_email
find_by_email-Runs-none email t h =
    Runs-bind _ (or_raise (new_error not_found "user not found")) _ _ t t t
      (Runs-select "find user by email" (λ t. find_row (has_email email) t.users) t)
      (Runs-or_raise-none _ _ t h)

find_by_id-Runs :
    (id : Uuid) (user : User) (t : IdentityTables)
    → find_row (has_id id) t.users ≡ some user
    → Runs (find_by_id id) t (ok user) t
unfolding find_by_id
find_by_id-Runs id user t h =
    Runs-bind _ (or_raise (new_error not_found "user not found")) _ _ t t t
      (Runs-select "find user by id" (λ t. find_row (has_id id) t.users) t)
      (Runs-or_raise _ _ user t h)

module _ (cfg : Config) (packages : Packages) where
  module _ (t : IdentityTables) (salt : List ℕ) (fresh : Fresh)
      (email password full_name hash : String) where
    -- A registration with a new email and a new identifier inserts the user.
    pub register-Runs :
        find_row (has_email email) t.users ≡ none
        → find_row (has_id fresh.id) t.users ≡ none
        → packages.generate_from_password salt password ≡ some hash
        → Runs
            (register cfg packages salt fresh email password full_name)
            t
            (ok (record { user_id = fresh.id; created_at = fresh.now }))
            (with_user (new_user fresh email hash full_name) t)
    unfolding register register_unknown save_user insert_user
    register-Runs new_email new_id hashed =
        Runs-attempt _ (register_unknown cfg packages salt fresh email password full_name) _ _ t t _
          (find_by_email-Runs-none email t new_email)
          (Runs-bind _ _ _ _ t t _ (Runs-or_raise _ _ hash t hashed) (
            Runs-bind _ _ _ _ t _ _
              (Runs-write "save user" (insert_user (new_user fresh email hash full_name)) t
                (with_user (new_user fresh email hash full_name) t)
                (rw (any-or (has_id fresh.id) (has_email email) t.users new_id new_email) refl))
              (Runs-pure _ _)))

  -- A registration with a known email does nothing.
  pub register-Runs_known :
      (t : IdentityTables) (salt : List ℕ) (fresh : Fresh) (email password full_name : String)
      (user : User)
      → find_row (has_email email) t.users ≡ some user
      → Runs
          (register cfg packages salt fresh email password full_name)
          t
          (err (new_error already_exists "email already registered"))
          t
  unfolding register register_unknown
  register-Runs_known t salt fresh email password full_name user known =
      Runs-attempt _ (register_unknown cfg packages salt fresh email password full_name) _ _ t t t
        (find_by_email-Runs email user t known) (record { runs = refl })

  module _ (t : IdentityTables) (supply : Supply) (bytes : List ℕ) (access : String)
      (user : User) where
    -- The row of the refresh token that a login issues.
    abbrev pub issued : RefreshToken
    issued =
        new_refresh_token supply.fresh supply.now user.id (packages.encode_to_string bytes)
          cfg.refresh_token_ttl

    abbrev pub answer : LoginResult
    answer = record {
      access_token = access;
      refresh_token = packages.encode_to_string bytes;
      expires_at = access_expiry cfg packages supply.clock;
    }

    sign_access_token_ok :
        packages.signed_string (access_claims cfg packages supply.clock user.id) ≡ some access
        → sign_access_token cfg packages supply.clock user.id
          ≡ ok (record {
            access_token = access;
            expires_at = access_expiry cfg packages supply.clock;
          })
    unfolding sign_access_token
    sign_access_token_ok signed = rw (signed, sign_access_token) refl

    secure_token-Runs :
        supply.random ≡ some bytes
        → Runs (secure_token cfg packages supply.random) t (ok (packages.encode_to_string bytes)) t
    unfolding secure_token generate_secure_token
    secure_token-Runs drawn = record {
      runs = ap (λ r. secure_token cfg packages r (smooth t)) drawn;
    }

    -- A login with the right password stores a token that is not there yet.
    pub login-Runs :
        (email password : String)
        → find_row (has_email email) t.users ≡ some user
        → any (has_id user.id) t.users ≡ true
        → packages.compare_hash_and_password user.password_hash password ≡ true
        → any (token_clashes issued) t.refresh_tokens ≡ false
        → packages.signed_string (access_claims cfg packages supply.clock user.id) ≡ some access
        → supply.random ≡ some bytes
        → Runs (login cfg packages supply email password) t (ok answer) (with_token issued t)
    unfolding login login_found issue_tokens save_token insert_token
    login-Runs email password found known matches fresh_token signed drawn =
        Runs-attempt _ (login_found cfg packages supply password) _ _ t t _
          (find_by_email-Runs email user t found)
          (rw matches (
            Runs-bind _ _ _ _ t t _ (Runs-lift _ _ t (sign_access_token_ok signed)) (
              Runs-bind _ _ _ _ t t _ (secure_token-Runs drawn) (
                Runs-bind _ _ _ _ t _ _
                  (Runs-write "save refresh token" (insert_token issued) t (with_token issued t)
                    (rw (fresh_token, known) refl))
                  (Runs-pure _ _)))))

  module _ (reliable : IsReliable packages) (t : IdentityTables) (now : Instant) (claims : Claims)
      (user : User) where
    parse_token_ok :
        (access : String)
        → packages.signed_string (stamped packages claims) ≡ some access
        → now < packages.numeric_date claims.expires_at
        → parse_token cfg packages now access ≡ ok (some (stamped packages claims))
    unfolding parse_token
    parse_token_ok access signed unexpired =
        rw (reliable.reads now claims access signed unexpired, parse_token) refl

    validate_claims-Runs :
        packages.parse_uuid claims.subject ≡ some user.id
        → find_row (has_id user.id) t.users ≡ some user
        → Runs
            (validate_claims cfg packages (ok (some (stamped packages claims))))
            t
            (ok (some (record { user_id = user.id; email = user.email })))
            t
    unfolding validate_claims validated
    validate_claims-Runs subject found =
        rw (subject, validate_claims)
          (Runs-attempt _ (validated cfg packages user.id) _ _ t t _
            (find_by_id-Runs user.id user t found) (Runs-pure _ _))

    -- The access token of a user is valid until it expires.
    pub validate_token-Runs :
        (access : String)
        → claims.subject ≡ packages.show_uuid user.id
        → packages.signed_string (stamped packages claims) ≡ some access
        → now < packages.numeric_date claims.expires_at
        → find_row (has_id user.id) t.users ≡ some user
        → Runs
            (validate_token cfg packages now access)
            t
            (ok (some (record { user_id = user.id; email = user.email })))
            t
    unfolding validate_token
    validate_token-Runs access subject signed unexpired found = record {
      runs =
          ap (λ r. validate_claims cfg packages r (smooth t))
            (parse_token_ok access signed unexpired)
          ∙ (validate_claims-Runs (ap packages.parse_uuid subject ∙ reliable.uuids user.id)
              found).runs;
    }
