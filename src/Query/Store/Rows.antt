-- ===== src/Query/Store/Rows.antt =====
-- What a row looks like after an insertion or an update.
use go_fintech_microservices.Prelude.{
  ◌≡◌, ap, some-inj, refl, sym, ◌∙◌, inl, inr, true, false, Bool-cases, ==_iff, List, [], ◌∷◌, ◌++◌,
  Option, none, some, Uuid, ◌==◌, any, arith,
}
use go_fintech_microservices.Query.Domain.{BalanceProjection, StatementEntry, UserStats}
use go_fintech_microservices.Query.Store.{
  QueryTables, row_at, upsert, insert_new, wallet_of, event_of, merge_balance, put_balance,
  put_stats, add_entry, record_event,
}

-- The row that an upsert leaves at the new row's key.
abbrev pub merged : {A : Type 0} → (A → A) → A → Option A → A
merged merge new none = new
merged merge new (some row) = merge row

-- The row that is found has the key it was looked up by.
pub row_at-key :
    {A : Type 0} (key : A → Uuid) (k : Uuid) (rows : List A) (row : A)
    → row_at key k rows ≡ some row
    → key row ≡ k
row_at-key key k [] row h = ground arith
row_at-key key k (x ∷ rows) row h = elim (Bool-cases (key x == k)) [
  | inl e ↦
      let first : row_at key k (x ∷ rows) ≡ some x = rw e refl in
      sym (ap key (some-inj (sym first ∙ h))) ∙ (==_iff (key x) k).0 e
  | inr e ↦
      let later : row_at key k (x ∷ rows) ≡ row_at key k rows = rw e refl in
      row_at-key key k rows row (sym later ∙ h)
]

module _ {A : Type 0} (key : A → Uuid) (merge : A → A) (new : A) where
  pub row_at-upsert_self :
      (rows : List A)
      → ((row : A) → key (merge row) ≡ key row)
      → row_at key (key new) (upsert key merge new rows)
        ≡ some (merged merge new (row_at key (key new) rows))
  unfolding upsert
  row_at-upsert_self [] keeps = ground arith
  row_at-upsert_self (row ∷ rows) keeps = elim (Bool-cases (key row == key new)) [
    | inl e ↦ rw e (rw (keeps row) (rw e refl))
    | inr e ↦ rw e (rw e (row_at-upsert_self rows keeps))
  ]

  pub row_at-upsert_ne :
      (k : Uuid) (rows : List A)
      → ((row : A) → key (merge row) ≡ key row)
      → (key new == k) ≡ false
      → row_at key k (upsert key merge new rows) ≡ row_at key k rows
  unfolding upsert
  row_at-upsert_ne k [] keeps ne = rw ne refl
  row_at-upsert_ne k (row ∷ rows) keeps ne = elim (Bool-cases (key row == key new)) [
    | inl e ↦
        let same : key row ≡ key new = (==_iff (key row) (key new)).0 e in
        let other : (key row == k) ≡ false = rw same ne in rw e (rw (keeps row) (rw other refl))
    | inr e ↦ rw e (rw (row_at-upsert_ne k rows keeps ne) refl)
  ]

pub add_entry-entries :
    (e : StatementEntry) (t : QueryTables)
    → any (λ row. event_of row == e.event_id) t.entries ≡ false
    → (add_entry e t).entries ≡ t.entries ++ e ∷ []
unfolding add_entry insert_new
add_entry-entries e t new = rw new refl

pub add_entry-known :
    (e : StatementEntry) (t : QueryTables)
    → any (λ row. event_of row == e.event_id) t.entries ≡ true
    → (add_entry e t).entries ≡ t.entries
unfolding add_entry insert_new
add_entry-known e t known = rw known refl

pub put_balance-processed :
    (p : BalanceProjection) (t : QueryTables) → (put_balance p t).processed ≡ t.processed
unfolding put_balance
put_balance-processed p t = refl

pub add_entry-balances :
    (e : StatementEntry) (t : QueryTables) → (add_entry e t).balances ≡ t.balances
unfolding add_entry
add_entry-balances e t = refl

pub put_balance-entries :
    (p : BalanceProjection) (t : QueryTables) → (put_balance p t).entries ≡ t.entries
unfolding put_balance
put_balance-entries p t = refl

pub put_balance_self :
    (p : BalanceProjection) (t : QueryTables)
    → row_at wallet_of p.wallet_id (put_balance p t).balances
      ≡ some (merged (merge_balance p) p (row_at wallet_of p.wallet_id t.balances))
unfolding put_balance
put_balance_self p t = row_at-upsert_self wallet_of (merge_balance p) p t.balances (λ row. refl)

pub put_balance_ne :
    (p : BalanceProjection) (k : Uuid) (t : QueryTables)
    → (p.wallet_id == k) ≡ false
    → row_at wallet_of k (put_balance p t).balances ≡ row_at wallet_of k t.balances
unfolding put_balance
put_balance_ne p k t ne =
    row_at-upsert_ne wallet_of (merge_balance p) p k t.balances (λ row. refl) ne

pub put_stats-balances : (s : UserStats) (t : QueryTables) → (put_stats s t).balances ≡ t.balances
unfolding put_stats
put_stats-balances s t = refl

pub put_stats-entries : (s : UserStats) (t : QueryTables) → (put_stats s t).entries ≡ t.entries
unfolding put_stats
put_stats-entries s t = refl

pub record_event-balances :
    (id : Uuid) (t : QueryTables) → (record_event id t).balances ≡ t.balances
unfolding record_event
record_event-balances id t = refl

pub record_event-entries : (id : Uuid) (t : QueryTables) → (record_event id t).entries ≡ t.entries
unfolding record_event
record_event-entries id t = refl
