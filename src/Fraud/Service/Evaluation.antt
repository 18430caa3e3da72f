-- ===== src/Fraud/Service/Evaluation.antt =====
-- What an evaluation answers, and that it changes no profile.
use go_fintech_microservices.Prelude.{
  ◌≡◌, refl, sym, ◌∙◌, ap, ◌⊎◌, inl, inr, Option, none, some, Option-cases, Uuid,
}
use mathlib.Core.Path.{subst}
use go_fintech_microservices.Errors.{
  GoError, new_error, not_found, internal, wrap, foreign, unknown,
}
use go_fintech_microservices.Exec.{Result, ok, err, pure}
use go_fintech_microservices.Db.Laws.{
  Triple, Triple-pure, Triple-or_raise, Triple-bind, Triple-attempt,
}
use go_fintech_microservices.Db.Statements.{Triple-select}
use go_fintech_microservices.Db.Smooth.{
  Runs, Runs-bind, Runs-bind_err, Runs-attempt, Runs-or_raise, Runs-or_raise-none, Runs-pure,
  Runs-select,
}
use go_fintech_microservices.Fraud.Domain.{EvaluationRequest, UserProfile, new_profile, judge}
use go_fintech_microservices.Fraud.Profiles.{Entries, ProfileCodec, lookup, get_profile}
use go_fintech_microservices.Fraud.Service.{profile_or_new, evaluate}

module _ {Bytes : Type 0} (codec : ProfileCodec Bytes) where
  -- What JSON reads in the bytes of an entry.
  abbrev read_entry : Option Bytes → Option UserProfile
  read_entry none = none
  read_entry (some bytes) = codec.unmarshal bytes

  abbrev or_empty : Uuid → Option UserProfile → UserProfile
  or_empty user_id none = new_profile user_id
  or_empty user_id (some profile) = profile

  -- The profile that the entries hold of a user, or an empty one where they have none that can be
  -- read.
  abbrev pub stored_profile : Entries Bytes → Uuid → UserProfile
  stored_profile t user_id =
      or_empty user_id (read_entry (lookup (codec.profile_key user_id) t.entries))

  module _ (t₀ : Entries Bytes) where
    pub get_profile-Triple :
        (user_id : Uuid)
        → Triple
            (λ t. t ≡ t₀)
            (get_profile codec user_id)
            (λ profile t. (profile ≡ stored_profile t₀ user_id) × (t ≡ t₀))
            (λ t. t ≡ t₀)
    unfolding get_profile
    get_profile-Triple user_id =
        Triple-bind _ _
          (Triple-select {Q = λ o t. (o ≡ lookup (codec.profile_key user_id) t₀.entries) × (t ≡ t₀)}
            _ _ (λ t p. rw p (refl, refl)) (λ t p. p))
          (λ o.
            Triple-bind _ _
              (Triple-or_raise
                {Q = λ b t. (lookup (codec.profile_key user_id) t₀.entries ≡ some b) × (t ≡ t₀)} _ o
                (λ b t e p. (sym p.0 ∙ e, p.1)) (λ t p. p.1))
              (λ b.
                Triple-or_raise _ (codec.unmarshal b)
                  (λ profile t e p. (
                    sym (ap (λ x. or_empty user_id (read_entry x)) p.0 ∙ ap (or_empty user_id) e),
                    p.1,
                  ))
                  (λ t p. p.1)))

    -- While no statement fails the profile is read, or there is none that can be read.
    pub get_profile-Runs :
        (user_id : Uuid)
        → Runs (get_profile codec user_id) t₀ (ok (stored_profile t₀ user_id)) t₀
          ⊎ ((e : GoError) × Runs (get_profile codec user_id) t₀ (err e) t₀
              × (stored_profile t₀ user_id ≡ new_profile user_id))
    unfolding get_profile
    get_profile-Runs user_id =
        let entry = lookup (codec.profile_key user_id) t₀.entries in
        elim (Option-cases entry) [
          | inl missing ↦ inr (
            new_error not_found "profile not found",
            Runs-bind _ _ entry _ t₀ t₀ t₀ (Runs-select _ _ t₀)
                (Runs-bind_err _ _ _ t₀ t₀ (Runs-or_raise-none _ _ t₀ missing)),
            ap (λ x. or_empty user_id (read_entry x)) missing,
          )
          | inr (bytes, found) ↦ elim (Option-cases (codec.unmarshal bytes)) [
            | inl unread ↦ inr (
              wrap internal "unmarshal profile" (foreign unknown),
              Runs-bind _ _ entry _ t₀ t₀ t₀ (Runs-select _ _ t₀) (
                  Runs-bind _ _ bytes _ t₀ t₀ t₀ (Runs-or_raise _ _ _ t₀ found)
                    (Runs-or_raise-none _ _ t₀ unread)),
              ap (λ x. or_empty user_id (read_entry x)) found ∙ ap (or_empty user_id) unread,
            )
            | inr (profile, read) ↦ inl (
                Runs-bind _ _ entry _ t₀ t₀ t₀ (Runs-select _ _ t₀) (
                  Runs-bind _ _ bytes _ t₀ t₀ t₀ (Runs-or_raise _ _ _ t₀ found) (
                    Runs-or_raise _ _ _ t₀ (
                      read
                      ∙ ap some (
                          sym (
                            ap (λ x. or_empty user_id (read_entry x)) found
                            ∙ ap (or_empty user_id) read))))))
          ]
        ]

    pub evaluate-Runs :
        (req : EvaluationRequest)
        → Runs (evaluate codec req) t₀ (ok (judge req (stored_profile t₀ req.user_id))) t₀
    unfolding evaluate
    evaluate-Runs req =
        let next = λ (r : Result UserProfile). pure (judge req (profile_or_new req r)) in
        elim (get_profile-Runs req.user_id) [
          | inl runs ↦ Runs-attempt _ next _ _ t₀ t₀ t₀ runs (Runs-pure _ t₀)
          | inr (e, runs, empty) ↦
              subst (λ p. Runs (evaluate codec req) t₀ (ok (judge req p)) t₀) (sym empty)
                (Runs-attempt _ next (err e) _ t₀ t₀ t₀ runs (Runs-pure _ t₀))
        ]

    pub evaluate-Triple :
        (req : EvaluationRequest)
        → Triple
            (λ t. t ≡ t₀)
            (evaluate codec req)
            (λ r t.
              ((r ≡ judge req (stored_profile t₀ req.user_id))
                ⊎ (r ≡ judge req (new_profile req.user_id)))
              × (t ≡ t₀))
            (λ t. ⊥)
    unfolding evaluate
    evaluate-Triple req =
        Triple-attempt _ (λ r. pure (judge req (profile_or_new req r)))
          (get_profile-Triple req.user_id)
          (λ profile. Triple-pure _ (λ t p. (inl (ap (judge req) p.0), p.1)))
          (λ e. Triple-pure _ (λ t p. (inr refl, p)))

    -- From any profiles: while no statement fails, Evaluate returns what the rules say of the
    -- profile that JSON reads in the user's entry, or of an empty profile where there is no entry
    -- or none that can be read; with any statement failing it still returns a result and no error,
    -- that one or the one of the empty profile; and it changes no profile either way.
    pub evaluate-judges :
        (req : EvaluationRequest)
        → Runs (evaluate codec req) t₀ (ok (judge req (stored_profile t₀ req.user_id))) t₀
          × Triple
              (λ t. t ≡ t₀)
              (evaluate codec req)
              (λ r t.
                ((r ≡ judge req (stored_profile t₀ req.user_id))
                  ⊎ (r ≡ judge req (new_profile req.user_id)))
                × (t ≡ t₀))
              (λ t. ⊥)
    evaluate-judges req = (evaluate-Runs req, evaluate-Triple req)
