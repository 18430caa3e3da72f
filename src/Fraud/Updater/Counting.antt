-- ===== src/Fraud/Updater/Counting.antt =====
-- What the profile updater makes of a record.
use go_fintech_microservices.Prelude.{
  ◌≡◌, refl, sym, ap, ◌∙◌, ◌⊎◌, inl, inr, Bool, true, false, not, Bool-cases, Option-cases, Option,
  none, some, some-inj, Uuid, nil_uuid, Instant, str_eq, ◌==◌,
}
use mathlib.Core.Path.{subst}
use go_fintech_microservices.Prelude.Int.{ℤ, pos}
use go_fintech_microservices.Prelude.Int64.{add64}
use go_fintech_microservices.Errors.{wrap, internal, foreign, unknown}
use go_fintech_microservices.Exec.{Result, ok, err, Exec, pure, attempt}
use go_fintech_microservices.Db.Laws.{
  Triple, Triple-pure, Triple-or_raise, Triple-bind, Triple-attempt, Triple-if, Triple-weaken,
  Triple-given,
}
use go_fintech_microservices.Db.Statements.{Triple-write}
use go_fintech_microservices.Db.Smooth.{
  Runs, Runs-bind, Runs-bind_err, Runs-attempt, Runs-or_raise, Runs-or_raise-none, Runs-pure,
  Runs-write,
}
use go_fintech_microservices.Kafka.{Record, event_type_of}
use go_fintech_microservices.Fraud.Domain.{UserProfile, new_profile}
use go_fintech_microservices.Fraud.Profiles.{Redis, Entries, ProfileCodec, put, update_profile}
use go_fintech_microservices.Fraud.Service.Evaluation.{
  stored_profile, get_profile-Triple, get_profile-Runs,
}
use go_fintech_microservices.Fraud.Updater.{
  TransactionCompletedPayload, counted, found_or_new, count, handle_record,
}

-- A profile with one more transfer, of this amount, in 64 bits.
abbrev pub with_transfer : Instant → ℤ → UserProfile → UserProfile
with_transfer now amount_cents profile = record {
  user_id = profile.user_id;
  daily_total_cents = add64 profile.daily_total_cents amount_cents;
  tx_count_last_minute = add64 profile.tx_count_last_minute (pos 1);
  updated_at = now;
}

module _ {Bytes : Type 0} (codec : ProfileCodec Bytes) (t₀ : Entries Bytes) where
  -- The profile's entry, and no other, is set; or the profile cannot be written as JSON, and
  -- nothing is.
  pub data Written (profile : UserProfile) (t : Entries Bytes) : Type 0 where
    set :
        (bytes : Bytes)
        → codec.marshal profile ≡ some bytes
        → t ≡ record { entries = put (codec.profile_key profile.user_id) bytes t₀.entries }
        → Written profile t
    unwritable : codec.marshal profile ≡ none → t ≡ t₀ → Written profile t

  abbrev entry_set : UserProfile → Bytes → Entries Bytes → Entries Bytes
  entry_set profile b t = record { entries = put (codec.profile_key profile.user_id) b t.entries }

  update_profile-Triple :
      (profile : UserProfile)
      → Triple
          (λ t. t ≡ t₀)
          (update_profile codec profile)
          (λ _ t. (t ≡ t₀) ⊎ Written profile t)
          (λ t. (t ≡ t₀) ⊎ Written profile t)
  unfolding update_profile
  update_profile-Triple profile =
      Triple-bind _ _
        (Triple-or_raise {Q = λ b t. (codec.marshal profile ≡ some b) × (t ≡ t₀)} _
          (codec.marshal profile) (λ b t e p. (e, p)) (λ t p. inl p))
        (λ b.
          Triple-write _ _ (λ t t' p h. inr (stored b t t' p h))
            (λ t t' p h. inr (stored b t t' p h)) (λ t p. inl p.1))
    where
      stored :
          (b : Bytes) (t t' : Entries Bytes)
          → (codec.marshal profile ≡ some b) × (t ≡ t₀)
          → some (entry_set profile b t) ≡ some t'
          → Written profile t'
      stored b t t' p h = set b p.0 (sym (some-inj h) ∙ ap (entry_set profile b) p.1)

  update_profile-Runs :
      (profile : UserProfile)
      → (t : Entries Bytes) × (r : Result (Unit {0})) × Runs (update_profile codec profile) t₀ r t
        × Written profile t
  unfolding update_profile
  update_profile-Runs profile = elim (Option-cases (codec.marshal profile)) [
    | inl e ↦ (
      t₀,
      err (wrap internal "marshal profile" (foreign unknown)),
      Runs-bind_err _ _ _ t₀ t₀ (Runs-or_raise-none _ _ t₀ e),
      unwritable e refl,
    )
    | inr (bytes, e) ↦
        let t₁ = entry_set profile bytes t₀ in
        (
          t₁,
          ok tt,
          Runs-bind _ _ bytes _ t₀ t₀ t₁ (Runs-or_raise _ _ _ t₀ e)
              (Runs-write "set profile" (λ t. some (entry_set profile bytes t)) t₀ t₁ refl),
          set bytes e refl,
        )
  ]

  module _ (unmarshal : Bytes → Option TransactionCompletedPayload) (now : Instant)
      (r : Record Bytes) where
    -- A record of another type, one that cannot be read and one without a user are passed over;
    -- a completed transfer is added to the profile of its user.
    pub data Counts (profile : Uuid → UserProfile) (t : Entries Bytes) : Type 0 where
      other_type :
          str_eq (event_type_of r) "TransactionCompleted" ≡ false → t ≡ t₀ → Counts profile t
      unread : unmarshal r.value ≡ none → t ≡ t₀ → Counts profile t
      nobody :
          (p : TransactionCompletedPayload)
          → unmarshal r.value ≡ some p
          → (p.user_id == nil_uuid) ≡ true
          → t ≡ t₀
          → Counts profile t
      added :
          (p : TransactionCompletedPayload)
          → str_eq (event_type_of r) "TransactionCompleted" ≡ true
          → unmarshal r.value ≡ some p
          → (p.user_id == nil_uuid) ≡ false
          → Written (with_transfer now p.amount_cents (profile p.user_id)) t
          → Counts profile t

    flipped : (b c : Bool) → not b ≡ c → b ≡ not c
    flipped true c e = ap not e
    flipped false c e = ap not e

    save : TransactionCompletedPayload → Result UserProfile → Exec (Redis Bytes) (Unit {0})
    save p o =
        attempt (update_profile codec (counted now p.amount_cents (found_or_new p.user_id o)))
          (λ _. pure tt)

    save-Runs :
        (p : TransactionCompletedPayload) (o : Result UserProfile)
        → (t : Entries Bytes) × Runs (save p o) t₀ (ok tt) t
          × Written (with_transfer now p.amount_cents (found_or_new p.user_id o)) t
    unfolding save
    save-Runs p o =
        let (t, result, runs, written) =
          update_profile-Runs (counted now p.amount_cents (found_or_new p.user_id o)) in
        (t, Runs-attempt _ (λ _. pure tt) result _ t₀ t t runs (Runs-pure tt t), written)

    count-Runs :
        (p : TransactionCompletedPayload)
        → (t : Entries Bytes) × Runs (count codec unmarshal now p) t₀ (ok tt) t
          × Written (with_transfer now p.amount_cents (stored_profile codec t₀ p.user_id)) t
    unfolding count save
    count-Runs p = elim (get_profile-Runs codec t₀ p.user_id) [
      | inl read ↦
          let (t, runs, written) = save-Runs p (ok (stored_profile codec t₀ p.user_id)) in
          (t, Runs-attempt _ (save p) _ _ t₀ t₀ t read runs, written)
      | inr (e, read, empty) ↦
          let (t, runs, written) = save-Runs p (err e) in
          (
            t,
            Runs-attempt _ (save p) (err e) _ t₀ t₀ t read runs,
            subst (λ v. Written (with_transfer now p.amount_cents v) t) (sym empty) written,
          )
    ]

    handle_record-Runs :
        (t : Entries Bytes) × Runs (handle_record codec unmarshal now r) t₀ (ok tt) t
        × Counts (stored_profile codec t₀) t
    unfolding handle_record
    handle_record-Runs = elim (Bool-cases (str_eq (event_type_of r) "TransactionCompleted")) [
      | inr other ↦ (t₀, rw (other, handle_record) (Runs-pure tt t₀), other_type other refl)
      | inl typed ↦ elim (Option-cases (unmarshal r.value)) [
        | inl e ↦ (t₀, rw (typed, e, handle_record) (Runs-pure tt t₀), unread e refl)
        | inr (p, e) ↦ elim (Bool-cases (p.user_id == nil_uuid)) [
          | inl nil ↦ (t₀, rw (typed, e, nil, handle_record) (Runs-pure tt t₀), nobody p e nil refl)
          | inr user ↦
              let (t, runs, written) = count-Runs p in
              (t, rw (typed, e, user, handle_record) runs, added p typed e user written)
        ]
      ]
    ]

    -- What is left where a statement may have failed.
    abbrev pub Settled : Entries Bytes → Type 0
    Settled t = (t ≡ t₀) ⊎ Counts (stored_profile codec t₀) t ⊎ Counts new_profile t

    module _ (p : TransactionCompletedPayload)
        (typed : str_eq (event_type_of r) "TransactionCompleted" ≡ true)
        (read : unmarshal r.value ≡ some p) (user : (p.user_id == nil_uuid) ≡ false) where
      save-Triple :
          (o : Result UserProfile)
          → ((t : Entries Bytes)
              → Written (with_transfer now p.amount_cents (found_or_new p.user_id o)) t
              → Settled t)
          → Triple (λ t. t ≡ t₀) (save p o) (λ _ t. Settled t) (λ t. ⊥)
      unfolding save
      save-Triple o h =
          let profile = with_transfer now p.amount_cents (found_or_new p.user_id o) in
          let both =
            λ (t : Entries Bytes). λ (q : (t ≡ t₀) ⊎ Written profile t). settle t (h t) q in
          Triple-attempt _ (λ _. pure tt) (update_profile-Triple profile) (λ _. Triple-pure tt both)
            (λ _. Triple-pure tt both)
        where
          settle : {W : Type 0} (t : Entries Bytes) → (W → Settled t) → (t ≡ t₀) ⊎ W → Settled t
          settle t h (inl e) = inl e
          settle t h (inr w) = h w

      count-Triple : Triple (λ t. t ≡ t₀) (count codec unmarshal now p) (λ _ t. Settled t) (λ t. ⊥)
      unfolding count save
      count-Triple =
          Triple-attempt _ (save p) (get_profile-Triple codec t₀ p.user_id)
            (λ profile.
              Triple-given {F = profile ≡ stored_profile codec t₀ p.user_id} _ (λ t q. q.0)
                (λ s.
                  Triple-weaken _ (λ t q. q.1) (λ _ t q. q) (λ t q. q)
                    (save-Triple (ok profile) (λ t w. inr (
                      inl (
                        added p typed read user
                          (subst (λ v. Written (with_transfer now p.amount_cents v) t) s w)))))))
            (λ e. save-Triple (err e) (λ t w. inr (inr (added p typed read user w))))

    handle_record-Triple :
        Triple (λ t. t ≡ t₀) (handle_record codec unmarshal now r) (λ _ t. Settled t) (λ t. ⊥)
    unfolding handle_record
    handle_record-Triple =
        Triple-if (not (str_eq (event_type_of r) "TransactionCompleted")) _ _
          (λ _. Triple-pure tt (λ t p. inl p))
          (λ e. elim (Option-cases (unmarshal r.value)) [
            | inl f ↦ rw f (Triple-pure tt (λ t p. inl p))
            | inr (p, f) ↦ rw f (
                Triple-if (p.user_id == nil_uuid) _ _ (λ _. Triple-pure tt (λ t q. inl q))
                  (λ n. count-Triple p (flipped _ false e) f n))
          ])

    -- From any profiles: while no statement fails, the updater returns nil and, for a record of
    -- type TransactionCompleted that can be read and has a user, writes to the entry of the user's
    -- stored profile (an empty one where none can be read), and to no other, that profile with the
    -- amount added to its total and one to its count in 64 bits and the time of the call, or
    -- nothing where that profile has no JSON; for any other record it changes nothing. With any
    -- statement failing it returns nil too, and leaves the profiles, or does the same, or does it
    -- with an empty profile in place of the stored one.
    pub handle_record-Counts :
        ((t : Entries Bytes) × Runs (handle_record codec unmarshal now r) t₀ (ok tt) t
          × Counts (stored_profile codec t₀) t)
        × Triple (λ t. t ≡ t₀) (handle_record codec unmarshal now r) (λ _ t. Settled t) (λ t. ⊥)
    handle_record-Counts = (handle_record-Runs, handle_record-Triple)
