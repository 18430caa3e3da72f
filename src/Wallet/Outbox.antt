-- ===== src/Wallet/Outbox.antt =====
-- services/wallet/internal/adapters/outbound/postgres/outbox_repo.go: the outbox and the processed
-- events of the wallet's database.
pub mod Publishing
use go_fintech_microservices.Prelude.{
  ℕ, Bool, true, false, Bool-cases, ap, List, [], ◌∷◌, ◌++◌, Option, none, some, Uuid, Instant, leb,
  ◌==◌, any, filter, take, map, ◌≡◌, sym, ◌⊎◌, inl, inr, arith, if◌then◌else◌,
}
use mathlib.Core.Path.{subst}
use go_fintech_microservices.Exec.{Exec}
use go_fintech_microservices.Db.{driver_error, select, select_rows, write}
use go_fintech_microservices.Db.Order.{order_by}
use go_fintech_microservices.Db.Laws.{Triple}
use go_fintech_microservices.Db.Statements.{Triple-write}
use go_fintech_microservices.Wallet.Store.{WalletTables, WalletDb, WalletOutboxEvent}

any-append : (id : Uuid) (ids : List Uuid) → any (λ done. done == id) (ids ++ id ∷ []) ≡ true
any-append id [] = ground arith
any-append id (x ∷ ids) = ground (arith, any-append id ids)

module _ {Bytes : Type 0} where
  -- `INSERT INTO wallet_outbox_events`; `id` is the primary key.
  pub insert_outbox : WalletOutboxEvent Bytes → WalletTables Bytes → Option (WalletTables Bytes)
  insert_outbox e t =
      if any (λ row. row.id == e.id) t.outbox
      then none
      else some (record t { outbox = t.outbox ++ record e { published_at = none } ∷ [] })

  unfoldable pub save : WalletOutboxEvent Bytes → Exec (WalletDb Bytes) (Unit {0})
  unfolding write insert_outbox
  save e = write "save wallet outbox event" (insert_outbox e)

  abbrev is_unpublished : WalletOutboxEvent Bytes → Bool
  is_unpublished e = elim e.published_at [ none ↦ true | some _ ↦ false ]

  unfoldable pub fetch_unpublished : ℕ → Exec (WalletDb Bytes) (List (WalletOutboxEvent Bytes))
  unfolding select_rows order_by
  fetch_unpublished limit =
      select_rows "fetch wallet outbox events" "scan wallet outbox event" driver_error
        (λ t. take limit (order_by (λ e. e.created_at) (filter is_unpublished t.outbox)))

  abbrev publish_row : Uuid → Instant → WalletOutboxEvent Bytes → WalletOutboxEvent Bytes
  publish_row id now row = if row.id == id then record row { published_at = some now } else row

  unfoldable pub mark_published : Uuid → Instant → Exec (WalletDb Bytes) (Unit {0})
  unfolding write
  mark_published id now =
      write "mark wallet outbox published"
        (λ t. some (record t { outbox = map (publish_row id now) t.outbox }))

  -- `SELECT EXISTS(SELECT 1 FROM processed_events WHERE event_id = $1)`
  abbrev pub has_processed : Uuid → WalletTables Bytes → Bool
  has_processed id t = any (λ done. done == id) t.processed

  unfoldable pub is_processed : Uuid → Exec (WalletDb Bytes) Bool
  unfolding select
  is_processed id = select "check processed event" (has_processed id)

  -- `INSERT INTO processed_events … ON CONFLICT DO NOTHING`
  pub insert_processed : Uuid → WalletTables Bytes → Option (WalletTables Bytes)
  insert_processed id t =
      if has_processed id t then some t else some (record t { processed = t.processed ++ id ∷ [] })

  unfoldable pub mark_processed : Uuid → Exec (WalletDb Bytes) (Unit {0})
  unfolding write insert_processed
  mark_processed id = write "mark event processed" (insert_processed id)

  pub insert_outbox-eq :
      (e : WalletOutboxEvent Bytes) (t t' : WalletTables Bytes)
      → insert_outbox e t ≡ some t'
      → t' ≡ record t { outbox = t.outbox ++ record e { published_at = none } ∷ [] }
  unfolding insert_outbox
  insert_outbox-eq e t t' h = ground arith

  -- A new identifier is added at the end, and is found from then on.
  pub insert_processed-eq :
      (id : Uuid) (t t' : WalletTables Bytes)
      → has_processed id t ≡ false
      → insert_processed id t ≡ some t'
      → t' ≡ record t { processed = t.processed ++ id ∷ [] }
  unfolding insert_processed
  insert_processed-eq id t t' new h = ground arith

  -- Saving adds an unpublished row, or, on an error, may have added it.
  pub save-Triple :
      {P Q : WalletTables Bytes → Type 0} (e : WalletOutboxEvent Bytes)
      → ((t : WalletTables Bytes)
          → P t
          → Q (record t { outbox = t.outbox ++ record e { published_at = none } ∷ [] }))
      → Triple P (save e) (λ _ t. Q t) (λ t. P t ⊎ Q t)
  unfolding save
  save-Triple {P} {Q} e h =
      Triple-write _ _ (λ t t' p q. subst Q (sym (insert_outbox-eq e t t' q)) (h t p))
        (λ t t' p q. inr (subst Q (sym (insert_outbox-eq e t t' q)) (h t p))) (λ t p. inl p)

  pub mark_processed-Triple :
      {P Q : WalletTables Bytes → Type 0} (id : Uuid)
      → ((t : WalletTables Bytes) → P t → has_processed id t ≡ false)
      → ((t : WalletTables Bytes) → P t → Q (record t { processed = t.processed ++ id ∷ [] }))
      → Triple P (mark_processed id) (λ _ t. Q t) (λ t. P t ⊎ Q t)
  unfolding mark_processed
  mark_processed-Triple {P} {Q} id new h =
      Triple-write _ _ (λ t t' p q. subst Q (sym (insert_processed-eq id t t' (new t p) q)) (h t p))
        (λ t t' p q. inr (subst Q (sym (insert_processed-eq id t t' (new t p) q)) (h t p)))
        (λ t p. inl p)

  pub has_processed-append :
      (id : Uuid) (t : WalletTables Bytes) (ids : List Uuid)
      → t.processed ≡ ids ++ id ∷ []
      → has_processed id t ≡ true
  has_processed-append id t ids e = rw e (any-append id ids)

  insert_processed-has :
      (id : Uuid) (t t' : WalletTables Bytes)
      → insert_processed id t ≡ some t'
      → has_processed id t' ≡ true
  unfolding insert_processed
  insert_processed-has id t t' h = elim (Bool-cases (has_processed id t)) [
    | inl e ↦ (let same : t ≡ t' = ground arith in subst (λ u. has_processed id u ≡ true) same e)
    | inr new ↦
        has_processed-append id t' t.processed
          (ap (λ (u : WalletTables Bytes). u.processed) (insert_processed-eq id t t' new h))
  ]

  -- An identifier that was marked is found, whether or not it was there before.
  pub mark_processed-has :
      (id : Uuid)
      → Triple
          (λ _. Unit {0})
          (mark_processed id)
          (λ _ t. has_processed id t ≡ true)
          (λ _. Unit {0})
  unfolding mark_processed
  mark_processed-has id =
      Triple-write _ _ (λ t t' p e. insert_processed-has id t t' e) (λ t t' p e. tt) (λ t p. tt)
