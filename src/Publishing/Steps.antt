-- ===== src/Publishing/Steps.antt =====
-- A service and its worker over one outbox: events are saved, and the ticker fires.
use go_fintech_microservices.Prelude.{
  ◌≡◌, sym, Bool, false, List, [], ◌∷◌, ◌++◌, Instant, any, ◌==◌,
}
use mathlib.Core.Path.{subst}
use go_fintech_microservices.Exec.{Exec}
use go_fintech_microservices.Db.{Db}
use go_fintech_microservices.Db.Laws.{Ends-either, Triple, Triple-weaken}
use go_fintech_microservices.Publishing.{
  Publication, Published, OutboxRepository, EventFields, in_store, flush,
}
use go_fintech_microservices.Publishing.Loop.{flush-Triple}
use go_fintech_microservices.Publishing.Delivery.{
  IsOutbox, IsDelivered, Triple-from, in_store-Triple, added-IsDelivered,
}

pub data Step (Event : Type 0) : Type 0 where
  saving : Event → Step Event
  flushing : (Event → Publication) → (Event → Instant) → Step Event

module _ {T Event Bytes : Type 0} (outbox : OutboxRepository T Event)
    (fields : EventFields Event Bytes) (save : Event → Exec (Db T) (Unit {0})) where
  pub take_step : Step Event → Exec (Db (Published T Bytes)) (Unit {0})
  unfolding in_store flush
  take_step (saving e) = in_store (save e)
  take_step (flushing publish clock) = flush outbox fields publish clock

  -- The tables and the topics after the steps, however each of them ended.
  unfoldable pub take_steps : List (Step Event) → Db (Published T Bytes) → Db (Published T Bytes)
  unfolding take_step
  take_steps [] db = db
  take_steps (step ∷ steps) db = take_steps steps (take_step step db).1

  module _ (rows : T → List Event) (published : Event → Bool) where
    -- Nothing, or a new row that is not published.
    pub data Added (e : Event) (t₀ t : T) : Type 0 where
      nothing : t ≡ t₀ → Added e t₀ t
      added :
          (row : Event)
          → published row ≡ false
          → any (λ x. fields.id_of x == fields.id_of row) (rows t₀) ≡ false
          → rows t ≡ rows t₀ ++ row ∷ []
          → Added e t₀ t

    abbrev pub IsSaving : Type 0
    IsSaving =
        (e : Event) (t₀ : T) → Triple (λ t. t ≡ t₀) (save e) (λ _ t. Added e t₀ t) (Added e t₀)

    module _ (is_outbox : IsOutbox outbox fields rows published) (is_saving : IsSaving) where
      abbrev Sound : Published T Bytes → Type 0
      Sound p = IsDelivered outbox fields rows published p

      Added-Sound :
          (e : Event) (p₀ p : Published T Bytes)
          → Sound p₀
          → Added e p₀.store p.store
          → p.log ≡ p₀.log
          → Sound p
      Added-Sound e p₀ p h (nothing same) logs =
          subst Sound (λ i. record { store = sym same i; log = sym logs i }) h
      Added-Sound e p₀ p h (added row unpublished new stores) logs =
          added-IsDelivered outbox fields rows published row p₀ p unpublished new stores logs h

      step-Sound : (step : Step Event) → Triple Sound (take_step step) (λ _ p. Sound p) Sound
      unfolding take_step
      step-Sound (saving e) = Triple-from _ (λ p₀ h.
          Triple-weaken _ (λ p q. q) (λ _ p q. Added-Sound e p₀ p h q.0 q.1)
            (λ p q. Added-Sound e p₀ p h q.0 q.1)
            (in_store-Triple _ _ p₀ (save e) (is_saving e p₀.store)))
      step-Sound (flushing publish clock) =
          Triple-weaken _ (λ p h. h) (λ _ p h. h) (λ p n. absurd n)
            (flush-Triple outbox fields rows published is_outbox publish clock)

      pub take_steps-Sound :
          (steps : List (Step Event)) (db : Db (Published T Bytes))
          → Sound db.tables
          → Sound (take_steps steps db).tables
      unfolding take_steps
      take_steps-Sound [] db h = h
      take_steps-Sound (step ∷ steps) db h =
          take_steps-Sound steps (take_step step db).1
            (Ends-either Sound (take_step step db) ((step-Sound step).at db h))
