-- ===== src/Publishing/Repository.antt =====
-- A repository that keeps its events as rows of a table, in the order of their insertion.
use go_fintech_microservices.Prelude.{
  ◌≡◌, refl, sym, ap, ◌∙◌, inl, inr, Bool, false, Bool-cases, not, ==_iff, ℕ, List, [], ◌∷◌, String,
  Uuid, Instant, some, some-inj, filter, take, map, leb, ◌==◌, if◌then◌else◌,
}
use mathlib.Core.Path.{subst}
use go_fintech_microservices.Errors.{GoError}
use go_fintech_microservices.Db.{select_rows, write}
use go_fintech_microservices.Db.Order.{insert_by, order_by}
use go_fintech_microservices.Db.Laws.{Triple, Triple-weaken}
use go_fintech_microservices.Db.Statements.{Triple-select_rows, Triple-write}
use go_fintech_microservices.Publishing.{EventFields, OutboxRepository}
use go_fintech_microservices.Publishing.Members.{In, In-if, In-take, In-filter, In-map}
use go_fintech_microservices.Publishing.Delivery.{Marks, IsOutbox}

module _ {A : Type 0} (key : A → ℕ) where
  insert_by-In : (x a : A) (rows : List A) → In x (insert_by key a rows) → In x (a ∷ rows)
  unfolding insert_by
  insert_by-In x a [] m = m
  insert_by-In x a (row ∷ rows) m =
      elim (In-if (leb (key a) (key row)) x (a ∷ row ∷ rows) (row ∷ insert_by key a rows) m) [
        | inl here ↦ here
        | inr (inl same) ↦ inr (inl same)
        | inr (inr later) ↦ elim (insert_by-In x a rows later) [
          | inl same ↦ inl same
          | inr i ↦ inr (inr i)
        ]
      ]

  order_by-In : (x : A) (rows : List A) → In x (order_by key rows) → In x rows
  unfolding order_by
  order_by-In x [] m = m
  order_by-In x (a ∷ rows) m = elim (insert_by-In x a (order_by key rows) m) [
    | inl same ↦ inl same
    | inr i ↦ inr (order_by-In x rows i)
  ]

module _ {T Event Bytes : Type 0} (fields : EventFields Event Bytes) (rows : T → List Event)
    (with_rows : List Event → T → T) (unpublished : Event → Bool) (created : Event → ℕ)
    (set_published : Instant → Event → Event) where
  abbrev pub publish_row : Uuid → Instant → Event → Event
  publish_row id now row = if fields.id_of row == id then set_published now row else row

  abbrev pub is_published : Event → Bool
  is_published e = not (unpublished e)

  -- Setting the time of publication changes nothing that is published.
  pub record IsRowUpdate : Type 0 where
    pub stored : (es : List Event) (t : T) → rows (with_rows es t) ≡ es
    pub message :
        (now : Instant) (e : Event) → fields.message_of (set_published now e) ≡ fields.message_of e
    pub identifier :
        (now : Instant) (e : Event) → fields.id_of (set_published now e) ≡ fields.id_of e

  module _ (is_update : IsRowUpdate) where
    publish_row-Marks :
        (repository : OutboxRepository T Event) (id : Uuid) (now : Instant) (t₀ : T) (row : Event)
        → In row (rows t₀)
        → Marks repository fields rows is_published id t₀ (publish_row id now row)
    publish_row-Marks repository id now t₀ row i = elim (Bool-cases (fields.id_of row == id)) [
      | inl e ↦ record {
        row = row;
        there = i;
        same_message = rw e (is_update.message now row);
        same_id = rw e (is_update.identifier now row);
        marked = λ done. inr ((==_iff (fields.id_of row) id).0 e);
      }
      | inr e ↦ record {
        row = row;
        there = i;
        same_message = rw e refl;
        same_id = rw e refl;
        marked = λ done. inl (ap is_published (unmarked e) ∙ done);
      }
    ]
      where
        unmarked : (fields.id_of row == id) ≡ false → row ≡ publish_row id now row
        unmarked e = rw e refl

    -- So a repository with these two queries is an outbox.
    pub queries-IsOutbox :
        (repository : OutboxRepository T Event) (message scan marking : String) (last : GoError)
        → ((limit : ℕ)
            → repository.fetch_unpublished limit
              ≡ select_rows message scan last
                  (λ t. take limit (order_by created (filter unpublished (rows t)))))
        → ((id : Uuid) (now : Instant)
            → repository.mark_published id now
              ≡ write marking (λ t. some (with_rows (map (publish_row id now) (rows t)) t)))
        → IsOutbox repository fields rows is_published
    queries-IsOutbox repository message scan marking last fetches marks = record {
      fetches = λ limit t₀.
          subst
            (λ m.
              Triple (λ t. t ≡ t₀) m (λ es t. ((e : Event) → In e es → In e (rows t₀)) × (t ≡ t₀))
                (λ t. t ≡ t₀))
            (sym (fetches limit))
            (Triple-weaken _ (λ t same. same)
              (λ es t q. (
                (λ e i.
                    subst (λ u. In e (rows u)) q.1
                      (In-filter unpublished e (rows t) (
                        order_by-In created e (filter unpublished (rows t)) (
                          In-take limit e (order_by created (filter unpublished (rows t)))
                            (subst (In e) q.0 i))))),
                q.1,
              ))
              (λ t q. q) (Triple-select_rows _ _ _ _ (λ t q. q)));
      marks = λ id now t₀.
          subst
            (λ m.
              Triple (λ t. t ≡ t₀) m
                (λ _ t.
                  (row' : Event)
                  → In row' (rows t)
                  → Marks repository fields rows is_published id t₀ row')
                (λ t.
                  (row' : Event)
                  → In row' (rows t)
                  → Marks repository fields rows is_published id t₀ row'))
            (sym (marks id now))
            (Triple-write _ _ (λ t t' q h row' i. marked id now t₀ t t' q h row' i)
              (λ t t' q h row' i. marked id now t₀ t t' q h row' i)
              (λ t q row' i. record {
                row = row';
                there = subst (λ u. In row' (rows u)) q i;
                same_message = refl;
                same_id = refl;
                marked = inl;
              }));
    }
      where
        marked :
            (id : Uuid) (now : Instant) (t₀ t t' : T)
            → t ≡ t₀
            → some (with_rows (map (publish_row id now) (rows t)) t) ≡ some t'
            → (row' : Event) → In row' (rows t')
            → Marks repository fields rows is_published id t₀ row'
        marked id now t₀ t t' q h row' i =
            let (row, j, e) = In-map (publish_row id now) row' (rows t) (
              subst (In row') (is_update.stored (map (publish_row id now) (rows t)) t)
                (subst (λ u. In row' (rows u)) (sym (some-inj h)) i)) in
            subst (Marks repository fields rows is_published id t₀) (sym e)
              (publish_row-Marks repository id now t₀ row (subst (λ u. In row (rows u)) q j))
