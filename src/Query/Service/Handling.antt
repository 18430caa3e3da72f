-- ===== src/Query/Service/Handling.antt =====
-- What an event is to do to the projections, and the handlers of the four types.
pub mod Dispatch
use go_fintech_microservices.Prelude.{
  ◌≡◌, refl, sym, ap, ◌∙◌, ◌⊎◌, inl, inr, Bool, true, false, List, Option, Option-cases, none, some,
  some-inj, String, Uuid, Instant, str_eq,
}
use go_fintech_microservices.Prelude.Int.{ℤ}
use go_fintech_microservices.Prelude.Int64.{add64, sub64}
use go_fintech_microservices.Exec.{Exec, pure, ◌>>=◌, ◌>>◌}
use go_fintech_microservices.Db.Laws.{
  Triple, Triple-pure, Triple-or_raise, Triple-bind, Triple-attempt, Triple-if, Triple-weaken,
  Triple-given,
}
use go_fintech_microservices.Db.Statements.{Triple-select, Triple-write}
use go_fintech_microservices.Kafka.{Record, event_type_of, event_id_of}
use go_fintech_microservices.Query.Domain.{BalanceProjection, UserStats, new_stats}
use go_fintech_microservices.Query.Store.{
  QueryTables, QueryDb, row_at, wallet_of, user_of, put_balance, put_stats, add_entry, is_recorded,
  record_event, find_balance, upsert_balance, append_statement, find_stats, upsert_stats,
  is_processed, mark_processed,
}
use go_fintech_microservices.Query.Service.{
  WalletCreated, FundsMoved, TransactionCompleted, QueryCodec, opened, moved, entry_of, counted,
  stats_or_new, move_funds, count_completed, handle_wallet_created, handle_funds_deposited,
  handle_funds_withdrawn, handle_transaction_completed, dispatch, handle_unseen, handle_event,
}

-- What a record tells: a movement has the type of its entry and what it does to a balance.
pub data QueryEvent : Type 0 where
  opens : WalletCreated → QueryEvent
  moves : String → (ℤ → ℤ → ℤ) → FundsMoved → QueryEvent
  completes : TransactionCompleted → QueryEvent

module _ (now : Instant) (t₀ : QueryTables) where
  -- The balance of a movement is set, and its entry is not there yet.
  pub record Halved (change : ℤ → ℤ → ℤ) (p : FundsMoved) (t : QueryTables) : Type 0 where
    pub projection : BalanceProjection
    pub found : row_at wallet_of p.wallet_id t₀.balances ≡ some projection
    pub tables : t ≡ put_balance (moved now change p projection) t₀

  -- What an event is to do: open a projection, move a balance and add an entry, or count.
  pub data Projects : QueryEvent → QueryTables → Type 0 where
    opening :
        (p : WalletCreated) (t : QueryTables)
        → t ≡ put_balance (opened now p) t₀
        → Projects (opens p) t
    moving :
        (type : String) (change : ℤ → ℤ → ℤ) (p : FundsMoved) (t t₁ : QueryTables)
        → Halved change p t₁
        → t ≡ add_entry (entry_of type p) t₁
        → Projects (moves type change p) t
    counting :
        (p : TransactionCompleted) (stats : UserStats) (t : QueryTables)
        → (stats ≡ new_stats p.user_id) ⊎ (row_at user_of p.user_id t₀.stats ≡ some stats)
        → t ≡ put_stats (counted now p stats) t₀
        → Projects (completes p) t

  upsert_balance-Triple :
      (p : BalanceProjection) {E : QueryTables → Type 0} {P : QueryTables → Type 0}
      → ((t : QueryTables) → P t → t ≡ t₀)
      → ((t : QueryTables) → t ≡ t₀ → E t)
      → ((t : QueryTables) → t ≡ put_balance p t₀ → E t)
      → Triple P (upsert_balance p) (λ _ t. t ≡ put_balance p t₀) E
  unfolding upsert_balance
  upsert_balance-Triple p from same done =
      Triple-write _ _ (λ t t' q h. sym (some-inj h) ∙ ap (put_balance p) (from t q))
        (λ t t' q h. done t' (sym (some-inj h) ∙ ap (put_balance p) (from t q)))
        (λ t q. same t (from t q))

  -- Until the event is marked: untouched, half done, or done.
  pub data Partly (e : QueryEvent) (t : QueryTables) : Type 0 where
    untouched : t ≡ t₀ → Partly e t
    halfway :
        (type : String) (change : ℤ → ℤ → ℤ) (p : FundsMoved)
        → e ≡ moves type change p
        → Halved change p t
        → Partly e t
    whole : Projects e t → Partly e t

  find_balance-Triple :
      (wallet_id : Uuid) {E : QueryTables → Type 0}
      → ((t : QueryTables) → t ≡ t₀ → E t)
      → Triple
          (λ t. t ≡ t₀)
          (find_balance wallet_id)
          (λ p t. (row_at wallet_of wallet_id t₀.balances ≡ some p) × (t ≡ t₀))
          E
  unfolding find_balance
  find_balance-Triple wallet_id same =
      Triple-bind _ _
        (Triple-select {Q = λ o t. (o ≡ row_at wallet_of wallet_id t₀.balances) × (t ≡ t₀)} _ _
          (λ t p. rw p (refl, refl)) same)
        (λ o. Triple-or_raise _ o (λ p t e q. (sym q.0 ∙ e, q.1)) (λ t q. same t q.1))

  find_stats-Triple :
      (user_id : Uuid)
      → Triple
          (λ t. t ≡ t₀)
          (find_stats user_id)
          (λ s t. (row_at user_of user_id t₀.stats ≡ some s) × (t ≡ t₀))
          (λ t. t ≡ t₀)
  unfolding find_stats
  find_stats-Triple user_id =
      Triple-bind _ _
        (Triple-select {Q = λ o t. (o ≡ row_at user_of user_id t₀.stats) × (t ≡ t₀)} _ _
          (λ t p. rw p (refl, refl)) (λ t p. p))
        (λ o. Triple-or_raise _ o (λ s t e q. (sym q.0 ∙ e, q.1)) (λ t q. q.1))

  move_funds-Triple :
      (type : String) (change : ℤ → ℤ → ℤ) (p : FundsMoved)
      → Triple
          (λ t. t ≡ t₀)
          (move_funds now type change p)
          (λ _ t. Projects (moves type change p) t)
          (Partly (moves type change p))
  unfolding move_funds append_statement
  move_funds-Triple type change p =
      Triple-bind _ _ (find_balance-Triple p.wallet_id (λ t e. untouched e)) (λ proj.
        Triple-given {F = row_at wallet_of p.wallet_id t₀.balances ≡ some proj} _ (λ t q. q.0)
          (λ found.
            Triple-bind {R = λ _ t. Halved change p t} _ _
              (Triple-weaken _ (λ t q. q.1)
                (λ _ t e. record { projection = proj; found = found; tables = e }) (λ t q. q)
                (upsert_balance-Triple (moved now change p proj) (λ t q. q) (λ t e. untouched e)
                  (λ t e.
                    halfway type change p refl
                      (record { projection = proj; found = found; tables = e }))))
              (λ _.
                Triple-write _ _ (λ t t' q h. moving type change p t' t q (sym (some-inj h)))
                  (λ t t' q h. whole (moving type change p t' t q (sym (some-inj h))))
                  (λ t q. halfway type change p refl q))))

  count_completed-Triple :
      (p : TransactionCompleted)
      → Triple
          (λ t. t ≡ t₀)
          (count_completed now p)
          (λ _ t. Projects (completes p) t)
          (Partly (completes p))
  unfolding count_completed upsert_stats
  count_completed-Triple p =
      Triple-attempt _ (λ r. upsert_stats (counted now p (stats_or_new p.user_id r)))
        (find_stats-Triple p.user_id)
        (λ s.
          Triple-given {F = row_at user_of p.user_id t₀.stats ≡ some s} _ (λ t q. q.0)
            (λ found. Triple-weaken _ (λ t q. q.1) (λ _ t q. q) (λ t q. q) (put s (inr found))))
        (λ e. put (new_stats p.user_id) (inl refl))
    where
      put :
          (s : UserStats)
          → (s ≡ new_stats p.user_id) ⊎ (row_at user_of p.user_id t₀.stats ≡ some s)
          → Triple
              (λ t. t ≡ t₀)
              (upsert_stats (counted now p s))
              (λ _ t. Projects (completes p) t)
              (Partly (completes p))
      put s from =
          Triple-write _ _
            (λ t t' q h.
              counting p s t' from (sym (some-inj h) ∙ ap (put_stats (counted now p s)) q))
            (λ t t' q h.
              whole (counting p s t' from (sym (some-inj h) ∙ ap (put_stats (counted now p s)) q)))
            (λ t q. untouched q)
