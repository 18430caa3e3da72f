-- ===== src/Identity/Service/Refreshing.antt =====
-- `Refresh`: what a reply rests on, and what a call may delete.
use go_fintech_microservices.Prelude.{
  ◌≡◌, ◌⊎◌, inl, inr, refl, ap, sym, ◌∙◌, true, false, some, some-inj, String, Instant,
}
use go_fintech_microservices.Errors.{unauthenticated, new_error}
use go_fintech_microservices.Exec.{ok, raise}
use go_fintech_microservices.Db.Laws.{
  Triple, Triple-raise, Triple-lift, Triple-or_raise, Triple-bind, Triple-attempt, Triple-if,
  Triple-weaken, Triple-given,
}
use go_fintech_microservices.Db.Statements.{Triple-select, Triple-write}
use go_fintech_microservices.Identity.Domain.{RefreshToken, is_expired}
use go_fintech_microservices.Identity.Store.{
  IdentityTables, find_row, has_token, without_token, find_by_token, delete_token,
}
use go_fintech_microservices.Identity.Service.{
  Config, Packages, Clock, RefreshResult, sign_access_token, refresh_found, refresh,
}

module _ (raw : String) (t₀ : IdentityTables) where
  find_by_token-Triple :
      Triple
        (λ t. t ≡ t₀)
        (find_by_token raw)
        (λ stored t. (find_row (has_token raw) t₀.refresh_tokens ≡ some stored) × (t ≡ t₀))
        (λ t. t ≡ t₀)
  unfolding find_by_token
  find_by_token-Triple =
      Triple-bind _ _
        (Triple-select {Q = λ o t. (o ≡ find_row (has_token raw) t₀.refresh_tokens) × (t ≡ t₀)} _ _
          (λ t p. rw p (refl, refl)) (λ t p. p))
        (λ o. Triple-or_raise _ o (λ s t e q. (sym q.0 ∙ e, q.1)) (λ t q. q.1))

  delete_token-Triple :
      Triple
        (λ t. t ≡ t₀)
        (delete_token raw)
        (λ _ t. t ≡ without_token raw t₀)
        (λ t. (t ≡ t₀) ⊎ (t ≡ without_token raw t₀))
  unfolding delete_token
  delete_token-Triple =
      Triple-write _ (λ t. some (without_token raw t))
        (λ t t' q h. sym (some-inj h) ∙ ap (without_token raw) q)
        (λ t t' q h. inr (sym (some-inj h) ∙ ap (without_token raw) q)) (λ t q. inl q)

  module _ (cfg : Config) (packages : Packages) (now : Instant) (clock : Clock) where
    -- A stored token that is not expired, for whose user the reply's token is signed.
    pub record Renewed (r : RefreshResult) (t : IdentityTables) : Type 0 where
      pub stored : RefreshToken
      pub found : find_row (has_token raw) t₀.refresh_tokens ≡ some stored
      pub current : is_expired now stored ≡ false
      pub signed : sign_access_token cfg packages clock stored.user_id ≡ ok r
      pub same : t ≡ t₀

    -- Nothing, or the deletion of an expired token.
    pub data Refused (t : IdentityTables) : Type 0 where
      untouched : t ≡ t₀ → Refused t
      deleted :
          (stored : RefreshToken)
          → find_row (has_token raw) t₀.refresh_tokens ≡ some stored
          → is_expired now stored ≡ true
          → t ≡ without_token raw t₀
          → Refused t

    -- From any tables, a Refresh that returns a reply found the refresh token stored and not
    -- expired, signed the access token for its user and wrote nothing; one that fails wrote
    -- nothing or deleted that token, which was expired.
    pub refresh-Triple : Triple (λ t. t ≡ t₀) (refresh cfg packages now clock raw) Renewed Refused
    unfolding refresh refresh_found
    refresh-Triple =
        Triple-attempt _ (refresh_found cfg packages now clock raw) find_by_token-Triple
          (λ stored.
            Triple-given {F = find_row (has_token raw) t₀.refresh_tokens ≡ some stored} _
              (λ t q. q.0)
              (λ found.
                Triple-if (is_expired now stored) _ _
                  (λ late.
                    Triple-attempt _
                      (λ r. raise (new_error unauthenticated "refresh token expired"))
                      (Triple-weaken _ (λ t q. q.1) (λ _ t q. q) (λ t q. q) delete_token-Triple)
                      (λ _. Triple-raise _ (λ t q. deleted stored found late q))
                      (λ _. Triple-raise _ (λ t q. elim q [
                        | inl e ↦ untouched e
                        | inr e ↦ deleted stored found late e
                      ])))
                  (λ current.
                    Triple-lift _
                      (λ r t e q. record {
                        stored = stored;
                        found = found;
                        current = current;
                        signed = e;
                        same = q.1;
                      })
                      (λ t q. untouched q.1))))
          (λ e. Triple-raise _ (λ t q. untouched q))
