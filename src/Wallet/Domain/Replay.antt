-- ===== src/Wallet/Domain/Replay.antt =====
-- Replaying events: `Reconstitute`, and the methods as one more event of the replay.
use go_fintech_microservices.Prelude.{
  ◌≡◌, refl, List, [], ◌∷◌, ◌++◌, String, Uuid, Fresh, ap, sym, ◌∙◌, arith,
}
use go_fintech_microservices.Prelude.Int.{ℤ, pos}
use go_fintech_microservices.Prelude.Int64.{add64}
use go_fintech_microservices.Exec.{ok}
use go_fintech_microservices.Wallet.Domain.{
  EventCodec, Event, Wallet, clear_changes, apply_event, apply_as, apply, replay_event,
  reconstitute, stored, next_event, FundsDepositedPayload, FundsWithdrawnPayload,
  FundsReservedPayload, FundsReleasedPayload, funds_deposited, funds_withdrawn, funds_reserved,
  funds_released, wallet_created, other, EventType, deposit, withdraw, reserve, release,
}
use go_fintech_microservices.Wallet.Domain.Payloads.{IsEventCodec}

module _ {Bytes : Type 0} (codec : EventCodec Bytes) where
  pub reconstitute-append :
      (es fs : List (Event Bytes)) (w : Wallet Bytes)
      → reconstitute codec (es ++ fs) w ≡ reconstitute codec fs (reconstitute codec es w)
  unfolding reconstitute
  reconstitute-append [] fs w = refl
  reconstitute-append (e ∷ es) fs w = reconstitute-append es fs (replay_event codec w e)

  replay_event-changes :
      (w : Wallet Bytes) (e : Event Bytes) → (replay_event codec w e).changes ≡ w.changes
  unfolding replay_event
  replay_event-changes w e = ground arith

  -- A replay adds no changes.
  pub reconstitute-changes :
      (es : List (Event Bytes)) (w : Wallet Bytes) → (reconstitute codec es w).changes ≡ w.changes
  unfolding reconstitute
  reconstitute-changes [] w = refl
  reconstitute-changes (e ∷ es) w =
      cc (reconstitute-changes es (replay_event codec w e), replay_event-changes w e)

  -- An event that moves funds leaves the identity, the owner and the currency of a wallet.
  pub record IsMovement (e : Event Bytes) : Type 0 where
    pub id : (v : Wallet Bytes) → (apply_event codec e v).id ≡ v.id
    pub user_id : (v : Wallet Bytes) → (apply_event codec e v).user_id ≡ v.user_id
    pub currency : (v : Wallet Bytes) → (apply_event codec e v).currency ≡ v.currency

  -- `w'` is `w` after one event of its own, which its row in the table replays to the same effect.
  pub record IsStep (w w' : Wallet Bytes) : Type 0 where
    pub event : Event Bytes
    pub applied : w' ≡ apply codec event w
    pub owner : event.wallet_id ≡ w.id
    pub next : event.version ≡ add64 w.version (pos 1)
    pub replays :
        (v : Wallet Bytes) → apply_event codec (stored codec event) v ≡ apply_event codec event v
    pub moves : IsMovement event
    pub moved_id : w'.id ≡ w.id

  module _ (laws : IsEventCodec codec) (fresh : Fresh) (w w' : Wallet Bytes) where
    pub deposit-IsStep :
        (amount : ℤ) (description : String)
        → deposit codec fresh amount description w ≡ ok w'
        → IsStep w w'
    unfolding deposit
    deposit-IsStep amount description h =
        let p : FundsDepositedPayload = record {
          amount_cents = amount;
          description = description;
        } in
        record {
          event = next_event codec fresh funds_deposited (codec.deposited.marshal p) w;
          applied = ground arith;
          owner = refl;
          next = refl;
          replays = λ v. rw (laws.deposited.direct p, laws.deposited.stored p);
          moves = record { id = λ v. refl; user_id = λ v. refl; currency = λ v. refl };
          moved_id = ground arith;
        }

    -- The event bears the fresh identifier.
    pub deposit-id :
        (amount : ℤ) (description : String) (h : deposit codec fresh amount description w ≡ ok w')
        → (deposit-IsStep amount description h).event.id ≡ fresh.id
    unfolding deposit-IsStep
    deposit-id amount description h = refl

    pub withdraw-IsStep :
        (amount : ℤ) (description : String)
        → withdraw codec fresh amount description w ≡ ok w'
        → IsStep w w'
    unfolding withdraw
    withdraw-IsStep amount description h =
        let p : FundsWithdrawnPayload = record {
          amount_cents = amount;
          description = description;
        } in
        record {
          event = next_event codec fresh funds_withdrawn (codec.withdrawn.marshal p) w;
          applied = ground arith;
          owner = refl;
          next = refl;
          replays = λ v. rw (laws.withdrawn.direct p, laws.withdrawn.stored p);
          moves = record { id = λ v. refl; user_id = λ v. refl; currency = λ v. refl };
          moved_id = ground arith;
        }

    pub withdraw-id :
        (amount : ℤ) (description : String) (h : withdraw codec fresh amount description w ≡ ok w')
        → (withdraw-IsStep amount description h).event.id ≡ fresh.id
    unfolding withdraw-IsStep
    withdraw-id amount description h = refl

    pub reserve-IsStep :
        (amount : ℤ) (transaction : Uuid)
        → reserve codec fresh amount transaction w ≡ ok w'
        → IsStep w w'
    unfolding reserve
    reserve-IsStep amount transaction h =
        let p : FundsReservedPayload = record {
          amount_cents = amount;
          transaction_id = transaction;
        } in
        record {
          event = next_event codec fresh funds_reserved (codec.reserved.marshal p) w;
          applied = ground arith;
          owner = refl;
          next = refl;
          replays = λ v. rw (laws.reserved.direct p, laws.reserved.stored p);
          moves = record { id = λ v. refl; user_id = λ v. refl; currency = λ v. refl };
          moved_id = ground arith;
        }

    pub release-IsStep :
        (amount : ℤ) (transaction : Uuid)
        → release codec fresh amount transaction w ≡ w'
        → IsStep w w'
    unfolding release
    release-IsStep amount transaction h =
        let p : FundsReleasedPayload = record {
          amount_cents = amount;
          transaction_id = transaction;
        } in
        record {
          event = next_event codec fresh funds_released (codec.released.marshal p) w;
          applied = sym h;
          owner = refl;
          next = refl;
          replays = λ v. rw (laws.released.direct p, laws.released.stored p);
          moves = record { id = λ v. refl; user_id = λ v. refl; currency = λ v. refl };
          moved_id = ground arith;
        }

  clear-apply_as :
      (type : EventType) (e : Event Bytes) (w : Wallet Bytes)
      → apply_as codec type e (clear_changes w) ≡ clear_changes (apply_as codec type e w)
  unfolding apply_as clear_changes
  clear-apply_as wallet_created e w = refl
  clear-apply_as funds_deposited e w = refl
  clear-apply_as funds_withdrawn e w = refl
  clear-apply_as funds_reserved e w = refl
  clear-apply_as funds_released e w = refl
  clear-apply_as (other s) e w = refl

  -- The effect of a step is that of replaying its row.
  pub step-replay :
      (w w' : Wallet Bytes) (s : IsStep w w')
      → clear_changes w' ≡ replay_event codec (clear_changes w) (stored codec s.event)
  unfolding replay_event apply apply_event clear_changes
  step-replay w w' s =
      rw (s.applied, s.replays (clear_changes w), clear-apply_as s.event.type s.event w)

  apply_as-changes :
      (type : EventType) (e : Event Bytes) (w : Wallet Bytes)
      → (apply_as codec type e w).changes ≡ w.changes
  unfolding apply_as
  apply_as-changes wallet_created e w = refl
  apply_as-changes funds_deposited e w = refl
  apply_as-changes funds_withdrawn e w = refl
  apply_as-changes funds_reserved e w = refl
  apply_as-changes funds_released e w = refl
  apply_as-changes (other s) e w = refl

  pub changes-apply :
      (e : Event Bytes) (w : Wallet Bytes) → (apply codec e w).changes ≡ w.changes ++ e ∷ []
  unfolding apply apply_event
  changes-apply e w = ap (λ es. es ++ e ∷ []) (apply_as-changes e.type e w)

  -- A step from a replayed wallet leaves its event as the only change.
  pub step-changes :
      (w w' : Wallet Bytes) (s : IsStep w w') → w.changes ≡ [] → w'.changes ≡ s.event ∷ []
  step-changes w w' s e =
      ap (λ (v : Wallet Bytes). v.changes) s.applied
      ∙ changes-apply s.event w
      ∙ ap (λ es. es ++ s.event ∷ []) e

  pub clear-eq : (w : Wallet Bytes) → w.changes ≡ [] → clear_changes w ≡ w
  unfolding clear_changes
  clear-eq w e = λ i. record w { changes = sym e i }
