-- ===== src/Identity/Domain.antt =====
-- services/identity/internal/domain.
use go_fintech_microservices.Prelude.{ℕ, ◌+◌, Bool, String, Uuid, Instant, Fresh, ltb}

pub record User : Type 0 where
  pub id : Uuid
  pub email : String
  pub password_hash : String
  pub full_name : String
  pub created_at : Instant

pub record RefreshToken : Type 0 where
  pub id : Uuid
  pub user_id : Uuid
  pub token : String
  pub expires_at : Instant
  pub created_at : Instant

-- `NewUser`
abbrev pub new_user : Fresh → String → String → String → User
new_user fresh email password_hash full_name = record {
  id = fresh.id;
  email = email;
  password_hash = password_hash;
  full_name = full_name;
  created_at = fresh.now;
}

-- `NewRefreshToken`, which asks for the time twice; the second time is that of `fresh`.
abbrev pub new_refresh_token : Fresh → Instant → Uuid → String → ℕ → RefreshToken
new_refresh_token fresh now user_id token ttl = record {
  id = fresh.id;
  user_id = user_id;
  token = token;
  expires_at = now + ttl;
  created_at = fresh.now;
}

-- `now.After(r.ExpiresAt)`
abbrev pub is_expired : Instant → RefreshToken → Bool
is_expired now r = ltb r.expires_at now
