-- ===== src/Query/Service/Ledger.antt =====
-- Each projected balance is the total of the wallet's statement, and when it is not.
pub mod Movements
pub mod Redelivery
use go_fintech_microservices.Prelude.{
  ◌≡◌, refl, sym, ap, ◌∙◌, ◌⊎◌, inl, inr, Bool, true, false, Bool-cases, ==_iff, ==_refl, List, [],
  ◌∷◌, ◌++◌, Option, Option-cases, none, some, some-inj, String, Uuid, Instant, any, str_eq, ◌==◌,
  if◌then◌else◌,
}
use go_fintech_microservices.Prelude.Int.{ℤ, pos}
use go_fintech_microservices.Prelude.Int64.{add64, sub64}
use go_fintech_microservices.Query.Domain.{BalanceProjection, StatementEntry}
use go_fintech_microservices.Query.Store.{
  QueryTables, row_at, wallet_of, event_of, of_wallet, put_balance, put_stats, add_entry,
  insert_new, record_event, merge_balance,
}
use go_fintech_microservices.Query.Store.Rows.{
  row_at-key, merged, add_entry-entries, add_entry-balances, put_balance-entries, put_balance_self,
  put_balance_ne, put_stats-balances, put_stats-entries, record_event-balances,
  record_event-entries,
}
use go_fintech_microservices.Query.Service.{FundsMoved, opened, moved, entry_of}
use go_fintech_microservices.Query.Service.Handling.{
  QueryEvent, opens, moves, completes, Halved, Projects, opening, moving, counting,
}

-- What an entry does to a balance.
abbrev pub post : ℤ → StatementEntry → ℤ
post balance e =
    if str_eq e.type "DEPOSIT" then add64 balance e.amount_cents else sub64 balance e.amount_cents

-- The total of a wallet's entries in the order of their insertion.
unfoldable pub total_from : ℤ → Uuid → List StatementEntry → ℤ
total_from balance wallet_id [] = balance
total_from balance wallet_id (e ∷ es) =
    total_from (if of_wallet wallet_id e then post balance e else balance) wallet_id es

abbrev pub total : Uuid → QueryTables → ℤ
total wallet_id t = total_from (pos 0) wallet_id t.entries

-- The projections agree with the statements; a wallet with no projection has none.
pub record IsBalanced (t : QueryTables) : Type 0 where
  pub balanced :
      (p : BalanceProjection) (wallet_id : Uuid)
      → row_at wallet_of wallet_id t.balances ≡ some p
      → p.balance_cents ≡ total wallet_id t
  pub unopened :
      (wallet_id : Uuid) → row_at wallet_of wallet_id t.balances ≡ none → total wallet_id t ≡ pos 0

total_from-append :
    (b : ℤ) (wallet_id : Uuid) (es : List StatementEntry) (e : StatementEntry)
    → total_from b wallet_id (es ++ e ∷ []) ≡ (
        if of_wallet wallet_id e
        then post (total_from b wallet_id es) e
        else total_from b wallet_id es)
unfolding total_from
total_from-append b wallet_id [] e = refl
total_from-append b wallet_id (x ∷ es) e =
    total_from-append (if of_wallet wallet_id x then post b x else b) wallet_id es e

-- What a new entry adds to the total of a wallet.
pub total-add_entry :
    (e : StatementEntry) (t : QueryTables) (wallet_id : Uuid)
    → any (λ row. event_of row == e.event_id) t.entries ≡ false
    → total wallet_id (add_entry e t)
      ≡ (if e.wallet_id == wallet_id then post (total wallet_id t) e else total wallet_id t)
total-add_entry e t wallet_id new =
    ap (total_from (pos 0) wallet_id) (add_entry-entries e t new)
    ∙ total_from-append (pos 0) wallet_id t.entries e

-- The tables that have the same balances and statements agree as well.
pub same-IsBalanced :
    (t t' : QueryTables)
    → t'.balances ≡ t.balances
    → t'.entries ≡ t.entries
    → IsBalanced t
    → IsBalanced t'
same-IsBalanced t t' bs es inv = record {
  balanced = λ p k h.
      inv.balanced p k (sym (ap (row_at wallet_of k) bs) ∙ h) ∙ sym (ap (total_from (pos 0) k) es);
  unopened =
      λ k h. ap (total_from (pos 0) k) es ∙ inv.unopened k (sym (ap (row_at wallet_of k) bs) ∙ h);
}

-- A projection for a wallet that has none starts at the total of its statement.
pub put_balance-IsBalanced :
    (p : BalanceProjection) (t : QueryTables)
    → row_at wallet_of p.wallet_id t.balances ≡ none
    → p.balance_cents ≡ pos 0
    → IsBalanced t
    → IsBalanced (put_balance p t)
put_balance-IsBalanced p t new zero_cents inv = record {
  balanced = λ q k h. elim (Bool-cases (p.wallet_id == k)) [
    | inl e ↦
        let same : p.wallet_id ≡ k = (==_iff p.wallet_id k).0 e in
        let own : row_at wallet_of k (put_balance p t).balances ≡ some p =
          ap (λ i. row_at wallet_of i (put_balance p t).balances) (sym same)
          ∙ put_balance_self p t
          ∙ ap (λ o. some (merged (merge_balance p) p o)) new in
        let here : p ≡ q = some-inj (sym own ∙ h) in
        sym (ap (λ (b : BalanceProjection). b.balance_cents) here)
        ∙ zero_cents
        ∙ sym (inv.unopened k (ap (λ i. row_at wallet_of i t.balances) (sym same) ∙ new))
        ∙ sym (totals k)
    | inr ne ↦ inv.balanced q k (sym (put_balance_ne p k t ne) ∙ h) ∙ sym (totals k)
  ];
  unopened = λ k h. elim (Bool-cases (p.wallet_id == k)) [
    | inl e ↦
        let same : p.wallet_id ≡ k = (==_iff p.wallet_id k).0 e in
        totals k ∙ inv.unopened k (ap (λ i. row_at wallet_of i t.balances) (sym same) ∙ new)
    | inr ne ↦ totals k ∙ inv.unopened k (sym (put_balance_ne p k t ne) ∙ h)
  ];
}
  where
    totals : (k : Uuid) → total k (put_balance p t) ≡ total k t
    totals k = ap (total_from (pos 0) k) (put_balance-entries p t)

module _ (now : Instant) (t₀ : QueryTables) (change : ℤ → ℤ → ℤ) (p : FundsMoved) (t₁ : QueryTables)
    (h : Halved now t₀ change p t₁) where
  -- Half way through a movement the wallet's projection has the new balance,
  pub moved_row :
      row_at wallet_of p.wallet_id t₁.balances
      ≡ some (merge_balance (moved now change p h.projection) h.projection)
  moved_row =
      let new : BalanceProjection = moved now change p h.projection in
      let same : h.projection.wallet_id ≡ p.wallet_id =
        row_at-key wallet_of p.wallet_id t₀.balances h.projection h.found in
      ap (λ (t : QueryTables). row_at wallet_of p.wallet_id t.balances) h.tables
      ∙ ap (λ i. row_at wallet_of i (put_balance new t₀).balances) (sym same)
      ∙ put_balance_self new t₀
      ∙ ap (λ i. some (merged (merge_balance new) new (row_at wallet_of i t₀.balances))) same
      ∙ ap (λ o. some (merged (merge_balance new) new o)) h.found

  -- the other wallets' projections are what they were,
  pub moved_row_ne :
      (k : Uuid)
      → (p.wallet_id == k) ≡ false
      → row_at wallet_of k t₁.balances ≡ row_at wallet_of k t₀.balances
  moved_row_ne k ne =
      ap (λ (t : QueryTables). row_at wallet_of k t.balances) h.tables
      ∙ put_balance_ne (moved now change p h.projection) k t₀ (
          ap (λ i. i == k) (row_at-key wallet_of p.wallet_id t₀.balances h.projection h.found) ∙ ne)

  -- and so are the statements.
  pub moved_entries : t₁.entries ≡ t₀.entries
  moved_entries =
      ap (λ (t : QueryTables). t.entries) h.tables
      ∙ put_balance-entries (moved now change p h.projection) t₀
