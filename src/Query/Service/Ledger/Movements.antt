-- ===== src/Query/Service/Ledger/Movements.antt =====
-- What handling an event does to the agreement of balances and statements.
use mathlib.Core.Path.{subst}
use go_fintech_microservices.Prelude.{
  arith, ◌≡◌, refl, sym, ap, ◌∙◌, inl, inr, true, false, Bool-cases, ==_iff, ==_refl, none, some,
  some-inj, String, Uuid, Instant, any, ◌==◌, if◌then◌else◌,
}
use go_fintech_microservices.Prelude.Int.{ℤ, pos}
use go_fintech_microservices.Db.Laws.{Triple, Triple-weaken}
use go_fintech_microservices.Kafka.{Record}
use go_fintech_microservices.Query.Domain.{BalanceProjection}
use go_fintech_microservices.Query.Store.{QueryTables, row_at, wallet_of, event_of, add_entry}
use go_fintech_microservices.Query.Store.Rows.{
  add_entry-balances, put_stats-balances, put_stats-entries, record_event-balances,
  record_event-entries,
}
use go_fintech_microservices.Query.Service.{
  FundsMoved, QueryCodec, opened, entry_of, counted, handle_event,
}
use go_fintech_microservices.Query.Service.Handling.{
  QueryEvent, opens, moves, completes, Halved, Projects, opening, moving, counting, untouched,
  halfway, whole,
}
use go_fintech_microservices.Query.Service.Handling.Dispatch.{
  Reads, created, deposited, withdrawn, completed, Handled, skipped, recorded, Failed, partly,
  unread, marked, Marked, handle_event-Triple,
}
use go_fintech_microservices.Query.Service.Ledger.{
  post, total, IsBalanced, total-add_entry, same-IsBalanced, put_balance-IsBalanced, moved_row,
  moved_row_ne, moved_entries, total_from,
}

-- An event that the tables do not hold anything of: a wallet that has no projection yet, a
-- movement that is not in a statement.
abbrev pub Admissible : QueryTables → QueryEvent → Type 0
Admissible t (opens p) = row_at wallet_of p.wallet_id t.balances ≡ none
Admissible t (moves type change p) = any (λ row. event_of row == p.event_id) t.entries ≡ false
Admissible t (completes p) = Unit {0}

-- A movement changes the balance as its entry tells.
abbrev pub Posts : QueryEvent → Type 0
Posts (opens p) = Unit {0}
Posts (moves type change p) = (b : ℤ) → post b (entry_of type p) ≡ change b p.amount_cents
Posts (completes p) = Unit {0}

module _ (now : Instant) (t₀ : QueryTables) (type : String) (change : ℤ → ℤ → ℤ) (p : FundsMoved)
    (t₁ : QueryTables) (h : Halved now t₀ change p t₁)
    (new : Admissible t₀ (moves type change p)) where
  still_new : any (λ row. event_of row == p.event_id) t₁.entries ≡ false
  still_new =
      ap (any (λ row. event_of row == p.event_id)) (moved_entries now t₀ change p t₁ h) ∙ new

  total-moved :
      (k : Uuid)
      → total k (add_entry (entry_of type p) t₁)
        ≡ (if p.wallet_id == k then post (total k t₀) (entry_of type p) else total k t₀)
  total-moved k =
      total-add_entry (entry_of type p) t₁ k still_new
      ∙ ap
          (λ es.
            if p.wallet_id == k
            then post (total_from (pos 0) k es) (entry_of type p)
            else total_from (pos 0) k es)
          (moved_entries now t₀ change p t₁ h)

  total-moved_own :
      (k : Uuid)
      → (p.wallet_id == k) ≡ true
      → total k (add_entry (entry_of type p) t₁) ≡ post (total k t₀) (entry_of type p)
  total-moved_own k e = total-moved k ∙ (rw e refl)

  total-moved_ne :
      (k : Uuid)
      → (p.wallet_id == k) ≡ false
      → total k (add_entry (entry_of type p) t₁) ≡ total k t₀
  total-moved_ne k e = total-moved k ∙ (rw e refl)

  rows_of :
      (k : Uuid)
      → row_at wallet_of k (add_entry (entry_of type p) t₁).balances
        ≡ row_at wallet_of k t₁.balances
  rows_of k = ap (row_at wallet_of k) (add_entry-balances (entry_of type p) t₁)

  -- A whole movement keeps the agreement.
  movement-IsBalanced :
      Posts (moves type change p) → IsBalanced t₀ → IsBalanced (add_entry (entry_of type p) t₁)
  movement-IsBalanced posts inv = record {
    balanced = λ q k row. elim (Bool-cases (p.wallet_id == k)) [
      | inl e ↦
          let same : p.wallet_id ≡ k = (==_iff p.wallet_id k).0 e in
          let own =
            ap (λ i. row_at wallet_of i t₁.balances) (sym same) ∙ moved_row now t₀ change p t₁ h in
          let here = some-inj (sym row ∙ rows_of k ∙ own) in
          ap (λ (b : BalanceProjection). b.balance_cents) here
          ∙ ap (λ b. change b p.amount_cents)
              (inv.balanced h.projection k
                (ap (λ i. row_at wallet_of i t₀.balances) (sym same) ∙ h.found))
          ∙ sym (posts (total k t₀))
          ∙ sym (total-moved_own k e)
      | inr ne ↦
          inv.balanced q k (sym (moved_row_ne now t₀ change p t₁ h k ne) ∙ sym (rows_of k) ∙ row)
          ∙ sym (total-moved_ne k ne)
    ];
    unopened = λ k row. elim (Bool-cases (p.wallet_id == k)) [
      | inl e ↦
          let same : p.wallet_id ≡ k = (==_iff p.wallet_id k).0 e in
          let own =
            ap (λ i. row_at wallet_of i t₁.balances) (sym same) ∙ moved_row now t₀ change p t₁ h in
          let clash = sym own ∙ sym (rows_of k) ∙ row in ground arith
      | inr ne ↦
          total-moved_ne k ne
          ∙ inv.unopened k (sym (moved_row_ne now t₀ change p t₁ h k ne) ∙ sym (rows_of k) ∙ row)
    ];
  }

-- A movement that is half done, and then done from there, counts twice in the balance and once in
-- the statement.
pub counts_twice :
    (now now' : Instant) (t₀ t₁ t : QueryTables) (type : String) (change : ℤ → ℤ → ℤ)
    (p : FundsMoved)
    → IsBalanced t₀
    → Admissible t₀ (moves type change p)
    → Posts (moves type change p)
    → Halved now t₀ change p t₁
    → Projects now' t₁ (moves type change p) t
    → (q : BalanceProjection) → row_at wallet_of p.wallet_id t.balances ≡ some q
    → q.balance_cents ≡ change (total p.wallet_id t) p.amount_cents
counts_twice now now' t₀ t₁ t type change p inv new posts h (moving _ _ _ _ t₂ h₂ done) q row =
    let own =
      ap (row_at wallet_of p.wallet_id) (add_entry-balances (entry_of type p) t₂)
      ∙ moved_row now' t₁ change p t₂ h₂ in
    let here =
      some-inj
        (sym row ∙ ap (λ (x : QueryTables). row_at wallet_of p.wallet_id x.balances) done ∙ own) in
    let first = some-inj (sym h₂.found ∙ moved_row now t₀ change p t₁ h) in
    let totals : total p.wallet_id t ≡ change (total p.wallet_id t₀) p.amount_cents =
      ap (total p.wallet_id) done
      ∙ total-moved_own now' t₁ type change p t₂ h₂ (still_new now t₀ type change p t₁ h new)
          p.wallet_id (==_refl p.wallet_id)
      ∙ ap (λ es. post (total_from (pos 0) p.wallet_id es) (entry_of type p))
          (moved_entries now t₀ change p t₁ h)
      ∙ posts (total p.wallet_id t₀) in
    ap (λ (b : BalanceProjection). b.balance_cents) here
    ∙ ap (λ (b : BalanceProjection). change b.balance_cents p.amount_cents) first
    ∙ ap (λ b. change (change b p.amount_cents) p.amount_cents)
        (inv.balanced h.projection p.wallet_id h.found)
    ∙ ap (λ b. change b p.amount_cents) (sym totals)

Projects-IsBalanced :
    (now : Instant) (t₀ t : QueryTables) (e : QueryEvent)
    → IsBalanced t₀
    → Admissible t₀ e
    → Posts e
    → Projects now t₀ e t
    → IsBalanced t
Projects-IsBalanced now t₀ t _ inv new posts (opening p _ done) =
    subst IsBalanced (sym done) (put_balance-IsBalanced (opened now p) t₀ new refl inv)
Projects-IsBalanced now t₀ t _ inv new posts (moving type change p _ t₁ h done) =
    subst IsBalanced (sym done) (movement-IsBalanced now t₀ type change p t₁ h new posts inv)
Projects-IsBalanced now t₀ t _ inv new posts (counting p stats _ from done) =
    same-IsBalanced t₀ t
      (ap (λ (x : QueryTables). x.balances) done ∙ put_stats-balances (counted now p stats) t₀)
      (ap (λ (x : QueryTables). x.entries) done ∙ put_stats-entries (counted now p stats) t₀) inv

module _ {Bytes : Type 0} (codec : QueryCodec Bytes) (r : Record Bytes) (now : Instant)
    (t₀ : QueryTables) where
  pub Reads-Posts : (e : QueryEvent) → Reads codec r e → Posts e
  Reads-Posts _ (created p is payload) = tt
  Reads-Posts _ (deposited p is payload) = λ b. refl
  Reads-Posts _ (withdrawn p is payload) = λ b. refl
  Reads-Posts _ (completed p is payload) = tt

  -- What a failed handling leaves: tables that agree, or the balance of a movement without its
  -- entry.
  pub data Left (t : QueryTables) : Type 0 where
    agreeing : IsBalanced t → Left t
    half :
        (type : String) (change : ℤ → ℤ → ℤ) (p : FundsMoved)
        → Reads codec r (moves type change p)
        → Halved now t₀ change p t
        → Left t

  module _ (inv : IsBalanced t₀)
      (admissible : (e : QueryEvent) → Reads codec r e → Admissible t₀ e) where
    Marked-IsBalanced : (t : QueryTables) → Marked codec r now t₀ t → IsBalanced t
    Marked-IsBalanced t m =
        same-IsBalanced m.projected t
          (ap (λ (x : QueryTables). x.balances) m.tables ∙ record_event-balances m.id m.projected)
          (ap (λ (x : QueryTables). x.entries) m.tables ∙ record_event-entries m.id m.projected)
          (Projects-IsBalanced now t₀ m.projected m.done.event inv
            (admissible m.done.event m.done.reads) (Reads-Posts m.done.event m.done.reads)
            m.done.projects)

    Handled-IsBalanced : (t : QueryTables) → Handled codec r now t₀ t → IsBalanced t
    Handled-IsBalanced t (skipped why same) = subst IsBalanced (sym same) inv
    Handled-IsBalanced t (recorded m) = Marked-IsBalanced t m

    Failed-Left : (t : QueryTables) → Failed codec r now t₀ t → Left t
    Failed-Left t (partly e reads (untouched same)) = agreeing (subst IsBalanced (sym same) inv)
    Failed-Left t (partly e reads (halfway type change p is h)) =
        half type change p (subst (Reads codec r) is reads) h
    Failed-Left t (partly e reads (whole done)) =
        agreeing
          (Projects-IsBalanced now t₀ t e inv (admissible e reads) (Reads-Posts e reads) done)
    Failed-Left t (unread same) = agreeing (subst IsBalanced (sym same) inv)
    Failed-Left t (marked m) = agreeing (Marked-IsBalanced t m)

    -- From tables in which each projected balance is the total of its wallet's statement, and for
    -- a record that tells of no wallet that has a projection and of no movement that is in a
    -- statement: HandleEvent that returns nil leaves such tables; one that fails leaves such
    -- tables, or those of a movement whose balance is set and whose entry is not there.
    pub handle_event-IsBalanced :
        Triple (λ t. t ≡ t₀) (handle_event codec now r) (λ _ t. IsBalanced t) Left
    handle_event-IsBalanced =
        Triple-weaken _ (λ t same. same) (λ _ t done. Handled-IsBalanced t done) Failed-Left
          (handle_event-Triple codec r now t₀)
