-- ===== src/Identity/Service/Accounts.antt =====
-- Registration, login and the check of the access token, while nothing fails.
use go_fintech_microservices.Prelude.{
  ◌≡◌, refl, ap, ℕ, ◌<◌, false, ==_refl, List, Option, none, some, String, Instant, Fresh, any,
  eq_iff,
}
use go_fintech_microservices.Exec.{Result, ok, Exec, ◌>>=◌, ◌>>◌}
use go_fintech_microservices.Db.Smooth.{smooth, Runs, Runs-bind}
use go_fintech_microservices.Identity.Domain.{User, new_user}
use go_fintech_microservices.Identity.Store.{
  IdentityTables, IdentityDb, find_row, has_email, has_id, token_clashes, with_user, with_token,
}
use go_fintech_microservices.Identity.Store.Rows.{find_row-append_new, find_row-any-true}
use go_fintech_microservices.Identity.Service.{
  Claims, Config, Packages, Supply, ValidateResult, access_expiry, access_claims, register, login,
  validate_token,
}
use go_fintech_microservices.Identity.Service.Smooth.{
  IsReliable, issued, register-Runs, login-Runs, validate_token-Runs,
}

module _ (cfg : Config) (packages : Packages) where
  -- A registration, a login with its password, and the check of the access token.
  unfoldable pub session :
      List ℕ
      → Fresh
      → Supply
      → Instant
      → String
      → String
      → String
      → Exec IdentityDb (Option ValidateResult)
  unfolding register login validate_token
  session salt fresh supply now email password full_name = do
    register cfg packages salt fresh email password full_name
    reply ← login cfg packages supply email password
    validate_token cfg packages now reply.access_token

  -- While no statement fails, with bcrypt accepting what it hashed, a signed token read back
  -- before it expires and a UUID read back from its text: a Register with an email and an
  -- identifier that no user has, a Login with the password, and a ValidateToken of the access
  -- token before its expiry all succeed, and the last gives the new user's identifier and email,
  -- if hashing, signing and drawing succeed and no stored token clashes with the drawn one.
  pub validate_token-login :
      IsReliable packages
      → (t : IdentityTables) (salt : List ℕ) (fresh : Fresh) (supply : Supply) (now : Instant)
        (email password full_name hash access : String) (bytes : List ℕ)
      → find_row (has_email email) t.users ≡ none
      → find_row (has_id fresh.id) t.users ≡ none
      → packages.generate_from_password salt password ≡ some hash
      → packages.signed_string (access_claims cfg packages supply.clock fresh.id) ≡ some access
      → supply.random ≡ some bytes
      → any
          (token_clashes
            (issued cfg packages t supply bytes access (new_user fresh email hash full_name)))
          t.refresh_tokens
        ≡ false
      → now < packages.numeric_date (access_expiry cfg packages supply.clock)
      → (session salt fresh supply now email password full_name (smooth t)).0
        ≡ ok (some (record { user_id = fresh.id; email = email }))
  unfolding session
  validate_token-login reliable t salt fresh supply now email password full_name hash access bytes
        new_email new_id hashed signed drawn fresh_token unexpired =
      let user : User = new_user fresh email hash full_name in
      let told : Claims = record {
        subject = packages.show_uuid fresh.id;
        expires_at = access_expiry cfg packages supply.clock;
        issued_at = supply.clock.issued;
        issuer = "fintech-identity";
      } in
      let t₁ : IdentityTables = with_user user t in
      let t₂ : IdentityTables = with_token (issued cfg packages t supply bytes access user) t₁ in
      let by_email =
        find_row-append_new (has_email email) t.users user new_email
          ((eq_iff email email).1 refl) in
      let by_id = find_row-append_new (has_id fresh.id) t.users user new_id (==_refl fresh.id) in
      let run : Runs (session salt fresh supply now email password full_name) t _ t₂ =
        Runs-bind _ _ _ _ t t₁ t₂
          (register-Runs cfg packages t salt fresh email password full_name hash new_email new_id
            hashed)
          (Runs-bind _ _ _ _ t₁ t₂ t₂
            (login-Runs cfg packages t₁ supply bytes access user email password by_email
              (find_row-any-true (has_id fresh.id) t₁.users user by_id)
              (reliable.compares salt password hash hashed) fresh_token signed drawn)
            (validate_token-Runs cfg packages reliable t₂ now told user access refl signed unexpired
              by_id)) in
      ap (λ (x : Result (Option ValidateResult) × IdentityDb). x.0) run.runs
