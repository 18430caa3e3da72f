-- ===== src/Tests/Accounts.antt =====
-- The theorems on the identity service at concrete tables.
use go_fintech_microservices.Prelude.{
  arith, ◌≡◌, refl, sym, ap, ◌∙◌, inl, inr, eq_iff, some-inj, Bool-cases, ◌&&◌, ◌==◌, ==_iff, ℕ,
  Bool, true, List, [], ◌∷◌, none, some, String, Fresh, str_eq, if◌then◌else◌,
}
use Prim.Native.Nat.{zero, suc}
use Prim.Native.Char.{nul}
use Prim.Native.String.{◌∷◌ as put, count}
use text.Mathlib.TextLemmas.{length-cons}
use go_fintech_microservices.Errors.{text as literal, joined, unauthenticated, new_error}
use go_fintech_microservices.Errors.Grpc.{GrpcCode}
use go_fintech_microservices.Exec.{ok, err}
use go_fintech_microservices.Db.{write}
use go_fintech_microservices.Db.Laws.{Triple}
use go_fintech_microservices.Db.Smooth.{smooth}
use go_fintech_microservices.Identity.Domain.{User, RefreshToken}
use go_fintech_microservices.Identity.Store.{IdentityTables}
use go_fintech_microservices.Identity.Service.{
  Config, Packages, Claims, Clock, Supply, refresh, logout,
}
use go_fintech_microservices.Identity.Service.Calls.{Call, logging_in, refreshing, serve_all}
use go_fintech_microservices.Identity.Service.Refreshing.{Renewed, Refused, refresh-Triple}
use go_fintech_microservices.Identity.Service.Accounts.{session, validate_token-login}
use go_fintech_microservices.Identity.Service.Smooth.{IsReliable}
use go_fintech_microservices.Identity.Service.Revocation.Refusal.{refresh-logout}
use go_fintech_microservices.Identity.Server.{serve_register, handle_register}
use go_fintech_microservices.Identity.Server.Replies.{registered_already, serve_register_known}

abbrev ttls : Config
ttls = record { access_token_ttl = 15; refresh_token_ttl = 100 }

-- The text of a UUID has as many characters as the number.
show_number : ℕ → String
show_number zero = ""
show_number (suc n) = put nul (show_number n)

count-show_number : (n : ℕ) → count (show_number n) ≡ n
unfolding show_number
count-show_number zero = refl
count-show_number (suc n) = length-cons nul (show_number n) ∙ ap suc (count-show_number n)

-- The only claims that are signed.
abbrev one_claims : Claims
one_claims = record {
  subject = show_number 1;
  expires_at = 27;
  issued_at = 13;
  issuer = "fintech-identity";
}

abbrev is_one : Claims → Bool
is_one c =
    str_eq c.subject (show_number 1)
    && str_eq c.issuer "fintech-identity"
    && (c.expires_at == 27)
    && (c.issued_at == 13)

abbrev packages : Packages
packages = record {
  generate_from_password = λ salt password. some password;
  compare_hash_and_password = str_eq;
  numeric_date = λ t. t;
  signed_string = λ c. if is_one c then some "signed" else none;
  parse_with_claims = λ now raw. some (record { valid = true; claims = one_claims });
  encode_to_string = λ bytes. "token";
  show_uuid = show_number;
  parse_uuid = λ s. some (count s);
}

both : (a b : Bool) → (a && b) ≡ true → (a ≡ true) × (b ≡ true)
both a b h = (ground arith, ground arith)

is_one-eq : (c : Claims) → is_one c ≡ true → c ≡ one_claims
is_one-eq c h =
    let (h₂, issued) = both _ _ h in
    let (h₁, expires) = both _ _ h₂ in
    let (subject, issuer) = both _ _ h₁ in
    let e₁ : c.subject ≡ show_number 1 = (eq_iff c.subject (show_number 1)).0 subject in
    let e₂ : c.expires_at ≡ 27 = (==_iff c.expires_at 27).0 expires in
    let e₃ : c.issued_at ≡ 13 = (==_iff c.issued_at 13).0 issued in
    let e₄ : c.issuer ≡ "fintech-identity" = (eq_iff c.issuer "fintech-identity").0 issuer in
    λ i. record { subject = e₁ i; expires_at = e₂ i; issued_at = e₃ i; issuer = e₄ i }

packages-IsReliable : IsReliable packages
packages-IsReliable = record {
  compares = λ salt password hash e. (eq_iff hash password).1 (sym (some-inj e));
  reads = λ now claims signed e unexpired. elim (Bool-cases (is_one claims)) [
    | inl one ↦ ap (λ c. some (record { valid = true; claims = c })) (sym (is_one-eq claims one))
    | inr other ↦
        let unsigned : packages.signed_string claims ≡ none = rw other refl in
        let clash : none ≡ some signed = sym unsigned ∙ e in ground arith
  ];
  uuids = λ id. ap some (count-show_number id);
}

abbrev no_accounts : IdentityTables
no_accounts = record { users = []; refresh_tokens = [] }

abbrev fresh_user : Fresh
fresh_user = record { id = 1; now = 11 }

abbrev login_supply : Supply
login_supply = record {
  clock = record { expiring = 12; issued = 13 };
  random = some (1 ∷ []);
  now = 14;
  fresh = record { id = 5; now = 15 };
}

validate_token-login_example :
    (session ttls packages [] fresh_user login_supply 20 "ana@example.com" "secret" "Ana"
      (smooth no_accounts)).0
    ≡ ok (some (record { user_id = 1; email = "ana@example.com" }))
unfolding show_number
validate_token-login_example =
    validate_token-login ttls packages packages-IsReliable no_accounts [] fresh_user login_supply 20
      "ana@example.com" "secret" "Ana" "secret" "signed" (1 ∷ []) refl refl refl refl refl refl
      (omega arith)

-- A user with a refresh token.
abbrev ana : User
ana = record {
  id = 1;
  email = "ana@example.com";
  password_hash = "secret";
  full_name = "Ana";
  created_at = 11;
}

abbrev ana_token : RefreshToken
ana_token = record { id = 4; user_id = 1; token = "first"; expires_at = 100; created_at = 11 }

abbrev accounts : IdentityTables
accounts = record { users = ana ∷ []; refresh_tokens = ana_token ∷ [] }

abbrev after_logout : IdentityTables
after_logout = record { users = ana ∷ []; refresh_tokens = [] }

abbrev clock_1 : Clock
clock_1 = record { expiring = 22; issued = 23 }

-- A login and a refresh with the token of before.
abbrev later_calls : List Call
later_calls =
    logging_in login_supply "ana@example.com" "secret" ∷ refreshing 30 clock_1 "first" ∷ []

refresh-logout_example :
    (refresh ttls packages 31 clock_1 "first"
      (serve_all ttls packages later_calls (smooth after_logout))).0
    ≡ err (new_error unauthenticated "invalid refresh token")
unfolding logout write
refresh-logout_example =
    refresh-logout ttls packages 31 clock_1 "first" later_calls (smooth accounts)
      (smooth after_logout) ((λ bytes drawn. refl), (tt, tt)) refl

refresh-Triple_example :
    Triple
      (λ t. t ≡ accounts)
      (refresh ttls packages 31 clock_1 "first")
      (Renewed "first" accounts ttls packages 31 clock_1)
      (Refused "first" accounts ttls packages 31 clock_1)
refresh-Triple_example = refresh-Triple "first" accounts ttls packages 31 clock_1

serve_register_known_example :
    (serve_register ttls packages [] fresh_user "ana@example.com" "other" "Ana" (smooth accounts)
      ≡ (
        ok (
            inl (record {
              code = GrpcCode.internal;
              message = joined (literal "ALREADY_EXISTS") (literal "email already registered");
            })),
        smooth accounts,
      ))
    × (handle_register ttls packages [] fresh_user "ana@example.com" "other" "Ana" (smooth accounts)
        ≡ (ok (inl (some registered_already)), smooth accounts))
serve_register_known_example =
    serve_register_known ttls packages accounts [] fresh_user "ana@example.com" "other" "Ana" ana
      refl refl
