-- ===== src/Publishing/Loop.antt =====
-- The worker's loop keeps what it marks within what it has produced.
use go_fintech_microservices.Prelude.{◌≡◌, refl, sym, inl, Bool, ℕ, List, [], ◌∷◌, Instant}
use mathlib.Core.Path.{subst}
use Prim.Native.Nat.{suc}
use go_fintech_microservices.Exec.{Exec}
use go_fintech_microservices.Db.{Db}
use go_fintech_microservices.Db.Laws.{
  Triple, Triple-pure, Triple-bind, Triple-attempt, Triple-weaken,
}
use go_fintech_microservices.Publishing.Members.{In, In-append_right}
use go_fintech_microservices.Publishing.{
  Publication, acknowledged, failed, Published, OutboxRepository, EventFields, in_store, copies,
  produce, publish_one, publish_all, publish_fetched, flush,
}
use go_fintech_microservices.Publishing.Delivery.{
  Triple-from, in_store-Triple, IsOutbox, IsDelivered, Pending, Pending-log, Pending-mark,
}

module _ {T Event Bytes : Type 0} (outbox : OutboxRepository T Event)
    (fields : EventFields Event Bytes) (rows : T → List Event) (published : Event → Bool) where
  abbrev Sound : Published T Bytes → Type 0
  Sound p = IsDelivered outbox fields rows published p

  -- The loop's invariant, with the events that are left.
  abbrev Held : List Event → Published T Bytes → Type 0
  Held events p = Pending outbox fields rows published events p

  copies-In : {A : Type 0} (n : ℕ) (x : A) → In x (copies (suc n) x)
  copies-In n x = inl refl

  module _ (is_outbox : IsOutbox outbox fields rows published) (publish : Event → Publication)
      (clock : Event → Instant) where
    mark-Triple :
        (e : Event) (events : List Event) (p₀ : Published T Bytes)
        → Held (e ∷ events) p₀
        → In (fields.message_of e) p₀.log
        → Triple
            (λ p. p ≡ p₀)
            (in_store (outbox.mark_published (fields.id_of e) (clock e)))
            (λ _ p. Held events p)
            (Held events)
    mark-Triple e events p₀ h sent =
        Triple-weaken _ (λ p same. same)
          (λ _ p q. Pending-mark outbox fields rows published e events p₀ p h sent q.0 q.1)
          (λ p q. Pending-mark outbox fields rows published e events p₀ p h sent q.0 q.1)
          (in_store-Triple _ _ p₀ (outbox.mark_published (fields.id_of e) (clock e))
            (is_outbox.marks (fields.id_of e) (clock e) p₀.store))

    -- After the retries of an event it is in its topic, if they ended well.
    produce-Triple :
        (n : ℕ) (e : Event) (events : List Event)
        → Triple
            (Held events)
            (produce (suc n) (fields.message_of e))
            (λ _ p. Held events p × In (fields.message_of e) p.log)
            (λ p. ⊥)
    unfolding produce
    produce-Triple n e events = record {
      at = λ db h. (
        Pending-log outbox fields rows published events db.tables
            (copies (suc n) (fields.message_of e)) h,
        In-append_right (fields.message_of e) db.tables.log (copies (suc n) (fields.message_of e))
            (copies-In n (fields.message_of e)),
      );
    }

    failing-Triple :
        (n : ℕ) (e : Event) (events : List Event)
        → Triple (Held events) (produce n (fields.message_of e)) (λ _ p. Sound p) (λ p. ⊥)
    unfolding produce
    failing-Triple n e events = record {
      at = λ db h.
          (Pending-log outbox fields rows published events db.tables
            (copies n (fields.message_of e)) h).is_delivered;
    }

    publish_one-Triple :
        (p : Publication) (e : Event) (events : List Event)
        (rest : Exec (Db (Published T Bytes)) (Unit {0}))
        → Triple (Held events) rest (λ _ p. Sound p) (λ p. ⊥)
        → Triple
            (Held (e ∷ events))
            (publish_one outbox fields publish clock p e rest)
            (λ _ p. Sound p)
            (λ p. ⊥)
    unfolding publish_one
    publish_one-Triple (acknowledged retries) e events rest h =
        Triple-bind _ _ (produce-Triple retries e (e ∷ events)) (λ _. Triple-from _ (λ p₀ q.
          Triple-attempt (in_store (outbox.mark_published (fields.id_of e) (clock e))) (λ r. rest)
            (mark-Triple e events p₀ q.0 q.1) (λ _. h) (λ _. h)))
    publish_one-Triple (failed n) e events rest h = failing-Triple n e (e ∷ events)

    publish_all-Triple :
        (events : List Event)
        → Triple
            (Held events)
            (publish_all outbox fields publish clock events)
            (λ _ p. Sound p)
            (λ p. ⊥)
    unfolding publish_all
    publish_all-Triple [] = Triple-pure tt (λ p h. h.is_delivered)
    publish_all-Triple (e ∷ events) =
        publish_one-Triple (publish e) e events (publish_all outbox fields publish clock events)
          (publish_all-Triple events)

    pub flush-Triple : Triple Sound (flush outbox fields publish clock) (λ _ p. Sound p) (λ p. ⊥)
    unfolding flush publish_fetched
    flush-Triple = Triple-from _ (λ p₀ h.
        Triple-attempt _ (publish_fetched outbox fields publish clock)
          (in_store-Triple _ _ p₀ (outbox.fetch_unpublished 100) (is_outbox.fetches 100 p₀.store))
          (λ events.
            Triple-weaken _ (λ p q. fetched p₀ p events h q.0.0 q.0.1 q.1) (λ _ p d. d) (λ p n. n)
              (publish_all-Triple events))
          (λ e. Triple-pure tt (λ p q. same p₀ p h q.0 q.1)))
      where
        same : (p₀ p : Published T Bytes) → Sound p₀ → p.store ≡ p₀.store → p.log ≡ p₀.log → Sound p
        same p₀ p h stores logs =
            subst Sound (λ i. record { store = sym stores i; log = sym logs i }) h

        fetched :
            (p₀ p : Published T Bytes) (events : List Event)
            → Sound p₀
            → ((e : Event) → In e events → In e (rows p₀.store))
            → p.store ≡ p₀.store
            → p.log ≡ p₀.log
            → Held events p
        fetched p₀ p events h from stores logs = record {
          is_delivered = same p₀ p h stores logs;
          coherent_with = λ e i. record {
            coherent =
                λ row j ids. h.keyed row e (subst (λ s. In row (rows s)) stores j) (from e i) ids;
          };
        }
