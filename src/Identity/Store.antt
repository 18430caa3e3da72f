-- ===== src/Identity/Store.antt =====
-- services/identity/internal/adapters/outbound/postgres, and the tables of
-- services/identity/migrations/000001_create_tables.up.sql.
pub mod Rows
use go_fintech_microservices.Prelude.{
  Bool, true, false, not, ◌&&◌, ◌||◌, List, [], ◌∷◌, ◌++◌, Option, none, some, String, Uuid, ◌==◌,
  str_eq, any, filter, if◌then◌else◌,
}
use go_fintech_microservices.Errors.{not_found, new_error}
use go_fintech_microservices.Exec.{Exec, or_raise, ◌>>=◌}
use go_fintech_microservices.Db.{Db, select, write}
use go_fintech_microservices.Identity.Domain.{User, RefreshToken}

pub record IdentityTables : Type 0 where
  pub users : List User
  pub refresh_tokens : List RefreshToken

abbrev pub IdentityDb : Type 0
IdentityDb = Db IdentityTables

-- The first row that passes a test.
abbrev pub find_row : {A : Type 0} → (A → Bool) → List A → Option A
find_row p [] = none
find_row p (row ∷ rows) = if p row then some row else find_row p rows

abbrev pub has_email : String → User → Bool
has_email email row = str_eq row.email email

abbrev pub has_id : Uuid → User → Bool
has_id id row = row.id == id

abbrev pub has_token : String → RefreshToken → Bool
has_token token row = str_eq row.token token

-- The primary key of the users, and their unique emails.
abbrev pub user_clashes : User → User → Bool
user_clashes user row = has_id user.id row || has_email user.email row

-- The primary key of the tokens, and the unique column.
abbrev pub token_clashes : RefreshToken → RefreshToken → Bool
token_clashes t row = (row.id == t.id) || has_token t.token row

abbrev pub with_user : User → IdentityTables → IdentityTables
with_user user t = record t { users = t.users ++ user ∷ [] }

abbrev pub with_token : RefreshToken → IdentityTables → IdentityTables
with_token token t = record t { refresh_tokens = t.refresh_tokens ++ token ∷ [] }

-- The two `INSERT`s, which the constraints may refuse; a token refers to a user.
unfoldable pub insert_user : User → IdentityTables → Option IdentityTables
insert_user user t = if any (user_clashes user) t.users then none else some (with_user user t)

unfoldable pub insert_token : RefreshToken → IdentityTables → Option IdentityTables
insert_token token t =
    if any (token_clashes token) t.refresh_tokens || not (any (has_id token.user_id) t.users)
    then none
    else some (with_token token t)

-- `DELETE FROM refresh_tokens WHERE token = $1`
abbrev pub without_token : String → IdentityTables → IdentityTables
without_token token t = record t {
  refresh_tokens = filter (λ row. not (has_token token row)) t.refresh_tokens;
}

unfoldable pub save_user : User → Exec IdentityDb (Unit {0})
unfolding write insert_user
save_user user = write "save user" (insert_user user)

unfoldable pub find_by_email : String → Exec IdentityDb User
unfolding select
find_by_email email = do
  found ← select "find user by email" (λ t. find_row (has_email email) t.users)
  or_raise (new_error not_found "user not found") found

unfoldable pub find_by_id : Uuid → Exec IdentityDb User
unfolding select
find_by_id id = do
  found ← select "find user by id" (λ t. find_row (has_id id) t.users)
  or_raise (new_error not_found "user not found") found

unfoldable pub save_token : RefreshToken → Exec IdentityDb (Unit {0})
unfolding write insert_token
save_token token = write "save refresh token" (insert_token token)

unfoldable pub find_by_token : String → Exec IdentityDb RefreshToken
unfolding select
find_by_token token = do
  found ← select "find refresh token" (λ t. find_row (has_token token) t.refresh_tokens)
  or_raise (new_error not_found "token not found") found

unfoldable pub delete_token : String → Exec IdentityDb (Unit {0})
unfolding write
delete_token token = write "delete refresh token" (λ t. some (without_token token t))
