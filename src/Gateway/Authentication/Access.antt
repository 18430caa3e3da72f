-- ===== src/Gateway/Authentication/Access.antt =====
-- Which requests the authentication lets pass, and as whose.
use go_fintech_microservices.Prelude.{
  arith, ◌≡◌, ◌↔◌, ◌⊎◌, inl, inr, refl, sym, ap, ◌∙◌, ◌+◌, true, false, not, ◌||◌, Bool-cases,
  Option, none, some, String, Instant, str_eq, eq_iff, if◌then◌else◌,
}
use Prim.Native.String.{◌++◌ as text_append, len, slice}
use text.Mathlib.Text.{starts_with}
use text.Mathlib.TextEquality.{starts_with_iff}
use text.Mathlib.TextPositions.{len-append, slice-append_right, starts_with-append}
use go_fintech_microservices.Identity.Service.{JwtToken, Claims}
use go_fintech_microservices.Gateway.Authentication.{
  served, unauthorized, trim_prefix, is_public_path, claims_of, answer_of, parse_token,
  authenticate, handle,
}

abbrev pub bearer : String → String
bearer token = text_append "Bearer " token

trim_prefix-bearer : (token : String) → trim_prefix (bearer token) "Bearer " ≡ token
trim_prefix-bearer token =
    let begins : starts_with (bearer token) "Bearer " ≡ true = starts_with-append "Bearer " token in
    let trimmed : trim_prefix (bearer token) "Bearer "
        ≡ slice (bearer token) (len "Bearer ") (len (bearer token)) =
      ap
        (λ b. if b then slice (bearer token) (len "Bearer ") (len (bearer token)) else bearer token)
        begins in
    trimmed
    ∙ ap (slice (bearer token) (len "Bearer ")) (len-append "Bearer " token)
    ∙ slice-append_right "Bearer " token

bearer-is_given : (token : String) → str_eq (bearer token) "" ≡ false
bearer-is_given token = elim (Bool-cases (str_eq (bearer token) "")) [
  | inl e ↦
      let same : bearer token ≡ "" = (eq_iff (bearer token) "").0 e in
      let long : 7 + len token ≡ 0 = sym (len-append "Bearer " token) ∙ ap len same in
      absurd (omega (arith, long))
  | inr e ↦ e
]

-- The header is refused, or bears a token.
header-cases :
    (raw : String)
    → (str_eq raw "" || not (starts_with raw "Bearer ") ≡ true)
      ⊎ ((token : String) × (raw ≡ bearer token))
header-cases raw = elim (Bool-cases (starts_with raw "Bearer ")) [
  | inl e ↦ let (token, same) = (starts_with_iff raw "Bearer ").0 e in inr (token, sym same)
  | inr e ↦ inl (ground arith)
]

served-inj : {a b : Option String} → served a ≡ served b → a ≡ b
served-inj h = cc

-- What a served request's token was.
served-token :
    (o : Option JwtToken) {user : Option String}
    → answer_of (claims_of o) ≡ served user
    → (claims : Claims) × (o ≡ some (record { valid = true; claims = claims }))
      × (user ≡ some claims.subject)
served-token none h = ground arith
served-token (some token) {user} h = elim (Bool-cases token.valid) [
  | inl e ↦
      let answer : answer_of (claims_of (some token)) ≡ served (some token.claims.subject) =
        rw e refl in
      (
        token.claims,
        (λ i. some (record { valid = e i; claims = token.claims })),
        served-inj (sym h ∙ answer),
      )
  | inr e ↦
      let answer : answer_of (claims_of (some token)) ≡ unauthorized "invalid token" = rw e refl in
      let clash : unauthorized "invalid token" ≡ served user = sym answer ∙ h in ground arith
]

module _ (parse_with_claims : Instant → String → Option JwtToken) (now : Instant) where
  -- A token that is valid, and whose claims name the user.
  pub record Bears (raw : String) (user : Option String) : Type 0 where
    pub token : String
    pub header : raw ≡ bearer token
    pub claims : Claims
    pub parsed : parse_with_claims now token ≡ some (record { valid = true; claims = claims })
    pub subject : user ≡ some claims.subject

  refused_header :
      (path raw : String)
      → is_public_path path ≡ false
      → (str_eq raw "" || not (starts_with raw "Bearer ")) ≡ true
      → handle parse_with_claims now path raw ≡ unauthorized "missing authorization header"
  unfolding handle
  refused_header path raw private_path bad = rw (private_path, bad, handle) refl

  bearing :
      (path token : String)
      → is_public_path path ≡ false
      → handle parse_with_claims now path (bearer token)
        ≡ answer_of (claims_of (parse_with_claims now token))
  unfolding handle authenticate parse_token
  bearing path token private_path =
      let given : (str_eq (bearer token) "" || not (starts_with (bearer token) "Bearer ")) ≡ false =
        ap (λ b. b || not (starts_with (bearer token) "Bearer ")) (bearer-is_given token)
        ∙ ap not (starts_with-append "Bearer " token) in
      rw (private_path, handle) (rw given refl)
      ∙ ap (λ t. answer_of (claims_of (parse_with_claims now t))) (trim_prefix-bearer token)

  -- A request is passed on exactly when its path begins with a public one, without a user, or when
  -- it does not and the Authorization header is the text Bearer, a space and a token that parses
  -- as valid, with the subject of its claims as the user.
  pub handle-served :
      (path raw : String) (user : Option String)
      → (handle parse_with_claims now path raw ≡ served user) ↔ (
          ((is_public_path path ≡ true) × (user ≡ none))
          ⊎ ((is_public_path path ≡ false) × Bears raw user))
  unfolding handle
  handle-served path raw user = (forward, backward)
    where
      forward :
          handle parse_with_claims now path raw ≡ served user
          → ((is_public_path path ≡ true) × (user ≡ none))
            ⊎ ((is_public_path path ≡ false) × Bears raw user)
      forward h = elim (Bool-cases (is_public_path path)) [
        | inl open_path ↦
            let answer : handle parse_with_claims now path raw ≡ served none =
              rw (open_path, handle) refl in
            inl (open_path, served-inj (sym h ∙ answer))
        | inr private_path ↦ elim (header-cases raw) [
          | inl bad ↦
              let clash : unauthorized "missing authorization header" ≡ served user =
                sym (refused_header path raw private_path bad) ∙ h in
              ground arith
          | inr (token, header) ↦
              let (claims, parsed, subject) = served-token (parse_with_claims now token) (
                sym (bearing path token private_path)
                ∙ ap (handle parse_with_claims now path) (sym header)
                ∙ h) in
              inr (
                private_path,
                record {
                  token = token;
                  header = header;
                  claims = claims;
                  parsed = parsed;
                  subject = subject;
                },
              )
        ]
      ]

      backward :
          ((is_public_path path ≡ true) × (user ≡ none))
            ⊎ ((is_public_path path ≡ false) × Bears raw user)
          → handle parse_with_claims now path raw ≡ served user
      backward (inl (open_path, anonymous)) = rw (open_path, handle) (ap served (sym anonymous))
      backward (inr (private_path, b)) =
          ap (handle parse_with_claims now path) b.header
          ∙ bearing path b.token private_path
          ∙ ap (λ o. answer_of (claims_of o)) b.parsed
          ∙ ap served (sym b.subject)
