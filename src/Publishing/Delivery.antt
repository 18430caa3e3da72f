-- ===== src/Publishing/Delivery.antt =====
-- What it is for an outbox to be delivered: no event is marked as published that is not in its topic.
use go_fintech_microservices.Prelude.{
  ◌≡◌, refl, sym, ap, ◌∙◌, ◌⊎◌, inl, inr, arith, ==_iff, ◌==◌, any, Bool, true, false, ℕ, List, [],
  ◌∷◌, ◌++◌, Uuid, Instant,
}
use mathlib.Core.Path.{subst}
use go_fintech_microservices.Exec.{Result, ok, err, Exec}
use go_fintech_microservices.Db.{Db}
use go_fintech_microservices.Db.Laws.{Ends, Triple}
use go_fintech_microservices.Publishing.Members.{In, In-append_left, In-append, In-any}
use go_fintech_microservices.Publishing.{
  Message, Published, OutboxRepository, EventFields, in_store,
}

-- A rule for each of the states that may be there at the start.
pub Triple-from :
    {T A : Type 0} {P : T → Type 0} {Q : A → T → Type 0} {E : T → Type 0} (m : Exec (Db T) A)
    → ((t₀ : T) → P t₀ → Triple (λ t. t ≡ t₀) m Q E)
    → Triple P m Q E
Triple-from m h = record { at = λ db p. (h db.tables p).at db refl }

module _ {T A Bytes : Type 0} (Q : A → T → Type 0) (E : T → Type 0) where
  in_store-Ends :
      (p₀ : Published T Bytes) (end : Result A × Db T)
      → Ends Q E end
      → Ends
          (λ a (p : Published T Bytes). Q a p.store × (p.log ≡ p₀.log))
          (λ (p : Published T Bytes). E p.store × (p.log ≡ p₀.log))
          (
            end.0,
            record {
              tables = record { store = end.1.tables; log = p₀.log };
              faults = end.1.faults;
            },
          )
  in_store-Ends p₀ (ok a, db) h = (h, refl)
  in_store-Ends p₀ (err e, db) h = (h, refl)

  pub in_store-Triple :
      (p₀ : Published T Bytes) (m : Exec (Db T) A)
      → Triple (λ t. t ≡ p₀.store) m Q E
      → Triple
          (λ p. p ≡ p₀)
          (in_store m)
          (λ a (p : Published T Bytes). Q a p.store × (p.log ≡ p₀.log))
          (λ (p : Published T Bytes). E p.store × (p.log ≡ p₀.log))
  unfolding in_store
  in_store-Triple p₀ m h = record {
    at = λ db e.
        subst
          (λ l.
            Ends (λ a (p : Published T Bytes). Q a p.store × (p.log ≡ l))
              (λ (p : Published T Bytes). E p.store × (p.log ≡ l)) (in_store m db))
          (ap (λ (p : Published T Bytes). p.log) e)
          (in_store-Ends db.tables (m (record { tables = db.tables.store; faults = db.faults })) (
            h.at (record { tables = db.tables.store; faults = db.faults })
              (ap (λ (p : Published T Bytes). p.store) e)));
  }

module _ {T Event Bytes : Type 0} (outbox : OutboxRepository T Event)
    (fields : EventFields Event Bytes) (rows : T → List Event) (published : Event → Bool) where
  -- The rows are what they were, but that those with the identifier may be published.
  pub record Marks (id : Uuid) (t₀ : T) (row' : Event) : Type 0 where
    pub row : Event
    pub there : In row (rows t₀)
    pub same_message : fields.message_of row' ≡ fields.message_of row
    pub same_id : fields.id_of row' ≡ fields.id_of row
    pub marked : published row' ≡ true → (published row ≡ true) ⊎ (fields.id_of row ≡ id)

  -- What the worker relies on of its repository.
  pub record IsOutbox : Type 0 where
    pub fetches :
        (limit : ℕ) (t₀ : T)
        → Triple
            (λ t. t ≡ t₀)
            (outbox.fetch_unpublished limit)
            (λ es t. ((e : Event) → In e es → In e (rows t₀)) × (t ≡ t₀))
            (λ t. t ≡ t₀)
    pub marks :
        (id : Uuid) (now : Instant) (t₀ : T)
        → Triple
            (λ t. t ≡ t₀)
            (outbox.mark_published id now)
            (λ _ t. (row' : Event) → In row' (rows t) → Marks id t₀ row')
            (λ t. (row' : Event) → In row' (rows t) → Marks id t₀ row')

  -- Rows of one identifier have one message, and that of a published row is in the log.
  pub record IsDelivered (p : Published T Bytes) : Type 0 where
    pub keyed :
        (a b : Event)
        → In a (rows p.store)
        → In b (rows p.store)
        → fields.id_of a ≡ fields.id_of b
        → fields.message_of a ≡ fields.message_of b
    pub delivered :
        (row : Event)
        → In row (rows p.store)
        → published row ≡ true
        → In (fields.message_of row) p.log

  -- The rows with the event's identifier have its message.
  pub record Coherent (p : Published T Bytes) (e : Event) : Type 0 where
    pub coherent :
        (row : Event)
        → In row (rows p.store)
        → fields.id_of row ≡ fields.id_of e
        → fields.message_of row ≡ fields.message_of e

  -- The loop's invariant, with the events that are left.
  pub record Pending (events : List Event) (p : Published T Bytes) : Type 0 where
    pub is_delivered : IsDelivered p
    pub coherent_with : (e : Event) → In e events → Coherent p e

  pub Pending-log :
      (events : List Event) (p : Published T Bytes) (more : List (Message Bytes))
      → Pending events p
      → Pending events (record p { log = p.log ++ more })
  Pending-log events p more h = record {
    is_delivered = record {
      keyed = h.is_delivered.keyed;
      delivered = λ row i e.
          In-append_left (fields.message_of row) p.log more (h.is_delivered.delivered row i e);
    };
    coherent_with = λ e i. record { coherent = (h.coherent_with e i).coherent };
  }

  pub Pending-mark :
      (e : Event) (events : List Event) (p₀ p : Published T Bytes)
      → Pending (e ∷ events) p₀
      → In (fields.message_of e) p₀.log
      → ((row' : Event) → In row' (rows p.store) → Marks (fields.id_of e) p₀.store row')
      → p.log ≡ p₀.log
      → Pending events p
  Pending-mark e events p₀ p h sent marks logs = record {
    is_delivered = record {
      keyed = λ a b i j ids.
          let ma = marks a i in
          let mb = marks b j in
          ma.same_message
          ∙ h.is_delivered.keyed ma.row mb.row ma.there mb.there (sym ma.same_id ∙ ids ∙ mb.same_id)
          ∙ sym mb.same_message;
      delivered = λ row i done.
          let m = marks row i in
          subst (In (fields.message_of row)) (sym logs) (
            subst (λ x. In x p₀.log) (sym m.same_message)
              (elim (m.marked done) [
                | inl before ↦ h.is_delivered.delivered m.row m.there before
                | inr same ↦
                    subst (λ x. In x p₀.log)
                      (sym ((h.coherent_with e (inl refl)).coherent m.row m.there same)) sent
              ]));
    };
    coherent_with = λ x i. record {
      coherent = λ row j ids.
          let m = marks row j in
          m.same_message ∙ (h.coherent_with x (inr i)).coherent m.row m.there (sym m.same_id ∙ ids);
    };
  }

  -- A row that is not published and whose identifier is new may be added.
  pub added-IsDelivered :
      (e : Event) (p p' : Published T Bytes)
      → published e ≡ false
      → any (λ row. fields.id_of row == fields.id_of e) (rows p.store) ≡ false
      → rows p'.store ≡ rows p.store ++ e ∷ []
      → p'.log ≡ p.log
      → IsDelivered p
      → IsDelivered p'
  added-IsDelivered e p p' unpublished new stores logs h = record {
    keyed = λ a b i j ids. elim (from a i) [
      | inl old ↦ elim (from b j) [
        | inl old' ↦ h.keyed a b old old' ids
        | inr same ↦ absurd (other a old (ids ∙ ap fields.id_of same))
      ]
      | inr same ↦ elim (from b j) [
        | inl old' ↦ absurd (other b old' (sym ids ∙ ap fields.id_of same))
        | inr same' ↦ ap fields.message_of (same ∙ sym same')
      ]
    ];
    delivered = λ row i done. elim (from row i) [
      | inl old ↦ subst (In (fields.message_of row)) (sym logs) (h.delivered row old done)
      | inr same ↦
          let clash : true ≡ false = sym done ∙ ap published same ∙ unpublished in ground arith
    ];
  }
    where
      from : (row : Event) → In row (rows p'.store) → In row (rows p.store) ⊎ (row ≡ e)
      from row i = elim (In-append row (rows p.store) (e ∷ []) (subst (In row) stores i)) [
        | inl old ↦ inl old
        | inr last ↦ elim last [ inl same ↦ inr same | inr nil ↦ absurd nil ]
      ]

      other : (row : Event) → In row (rows p.store) → fields.id_of row ≡ fields.id_of e → ⊥
      other row i ids =
          let differ : (fields.id_of row == fields.id_of e) ≡ false =
            In-any (λ x. fields.id_of x == fields.id_of e) row (rows p.store) i new in
          let equal : (fields.id_of row == fields.id_of e) ≡ true =
            (==_iff (fields.id_of row) (fields.id_of e)).1 ids in
          ground arith
