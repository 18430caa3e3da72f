-- ===== src/Fraud/Profiles.antt =====
-- services/fraud/internal/adapters/outbound/redis/profile_repo.go: profiles as entries of Redis. An
-- entry that expires is one that is not there.
use go_fintech_microservices.Prelude.{
  List, [], ◌∷◌, Option, none, some, String, Uuid, str_eq, if◌then◌else◌,
}
use go_fintech_microservices.Errors.{foreign, unknown, not_found, internal, new_error, wrap}
use go_fintech_microservices.Exec.{Exec, or_raise, ◌>>=◌}
use go_fintech_microservices.Db.{Db, select, write}
use go_fintech_microservices.Fraud.Domain.{UserProfile}

pub record Entries (Bytes : Type 0) : Type 0 where
  pub entries : List (String × Bytes)

abbrev pub Redis : Type 0 → Type 0
Redis Bytes = Db (Entries Bytes)

-- encoding/json at a profile, and the key `fraud:profile:%s` of a user.
pub record ProfileCodec (Bytes : Type 0) : Type 0 where
  pub profile_key : Uuid → String
  pub marshal : UserProfile → Option Bytes
  pub unmarshal : Bytes → Option UserProfile

module _ {Bytes : Type 0} where
  abbrev pub lookup : String → List (String × Bytes) → Option Bytes
  lookup key [] = none
  lookup key ((k, b) ∷ rest) = if str_eq k key then some b else lookup key rest

  abbrev pub put : String → Bytes → List (String × Bytes) → List (String × Bytes)
  put key bytes [] = (key, bytes) ∷ []
  put key bytes ((k, b) ∷ rest) =
      if str_eq k key then (k, bytes) ∷ rest else (k, b) ∷ put key bytes rest

module _ {Bytes : Type 0} (codec : ProfileCodec Bytes) where
  unfoldable pub get_profile : Uuid → Exec (Redis Bytes) UserProfile
  unfolding select
  get_profile user_id = do
    found ← select "get profile" (λ t. lookup (codec.profile_key user_id) t.entries)
    bytes ← or_raise (new_error not_found "profile not found") found
    or_raise (wrap internal "unmarshal profile" (foreign unknown)) (codec.unmarshal bytes)

  unfoldable pub update_profile : UserProfile → Exec (Redis Bytes) (Unit {0})
  unfolding write
  update_profile profile = do
    bytes ← or_raise (wrap internal "marshal profile" (foreign unknown)) (codec.marshal profile)
    write "set profile"
        (λ t. some (record { entries = put (codec.profile_key profile.user_id) bytes t.entries }))
