-- ===== src/Transaction/Service/Calls.antt =====
-- Any sequence of calls of the transaction service: what becomes of the stored transactions.
use go_fintech_microservices.Prelude.{
  ◌≡◌, refl, ap, sym, ◌∙◌, inl, inr, List, [], ◌∷◌, Option, some, String, Uuid, Instant, Fresh,
}
use mathlib.Core.Path.{subst}
use go_fintech_microservices.Exec.{Result, ok, err, Exec, pure, ◌>>◌}
use go_fintech_microservices.Db.Laws.{Ends, Triple, Triple-pure, Triple-weaken, Triple-bind}
use go_fintech_microservices.Transaction.Domain
use go_fintech_microservices.Transaction.Domain.{Transaction, pending, OutboxEvent}
use go_fintech_microservices.Transaction.Store.{TransactionTables, TransactionDb, saved}
use go_fintech_microservices.Transaction.Lifecycle.{
  Follows, completes, fails, row_of, Evolves, Evolves-same, Evolves-insert, Evolves-update,
  Evolves-trans, find-id,
}
use go_fintech_microservices.Transaction.Service.{
  FraudChecker, TransactionCodec, TransferRequest, Supply, initiate_transfer, complete_transaction,
  fail_transaction, get_transaction,
}
use go_fintech_microservices.Transaction.Service.Requests.{new_transaction-IsTransfer}
use go_fintech_microservices.Transaction.Service.Starting.{
  made, Begun, half, whole, initiate_transfer-Triple,
}
use go_fintech_microservices.Transaction.Service.Deciding.{
  updated, Undecided, find_by_id-Triple, complete_transaction-Triple, fail_transaction-Triple,
  completion, failure,
}

-- A call of a method of `TransactionService`, with what `uuid.New` and `time.Now` return to it.
pub data Call : Type 0 where
  initiate : Supply → TransferRequest → Call
  complete : Instant → Fresh → Uuid → Call
  fail : Instant → Fresh → Uuid → String → Call
  get : Uuid → Call

module _ (now : Instant) (tx : Transaction) where
  completed_id : (Domain.complete now tx).id ≡ tx.id
  unfolding Domain.complete
  completed_id = refl

  completed_status : Follows pending (Domain.complete now tx).status
  unfolding Domain.complete
  completed_status = completes

  failed_id : (reason : String) → (Domain.fail now reason tx).id ≡ tx.id
  unfolding Domain.fail
  failed_id reason = refl

  failed_status : (reason : String) → Follows pending (Domain.fail now reason tx).status
  unfolding Domain.fail
  failed_status reason = fails

module _ {Bytes : Type 0} (codec : TransactionCodec Bytes) (fraud : Option FraudChecker) where
  serve : Call → Exec (TransactionDb Bytes) (Unit {0})
  unfolding initiate_transfer complete_transaction fail_transaction get_transaction
  serve (initiate supply q) = do initiate_transfer codec fraud supply q; pure tt
  serve (complete now fresh id) = complete_transaction codec now fresh id
  serve (fail now fresh id reason) = fail_transaction codec now fresh id reason
  serve (get id) = do get_transaction id; pure tt

  -- The database after the calls, whatever each of them returned.
  unfoldable pub serve_all : List Call → TransactionDb Bytes → TransactionDb Bytes
  unfolding serve
  serve_all [] db = db
  serve_all (call ∷ calls) db = serve_all calls (serve call db).1

  module _ (t₀ : TransactionTables Bytes) where
    same-Evolves : (t : TransactionTables Bytes) → t ≡ t₀ → Evolves t₀ t
    same-Evolves t e = Evolves-same t₀ t (ap (λ u. u.transactions) e)

    Begun-Evolves :
        (supply : Supply) (q : TransferRequest) (tx : Transaction) (t : TransactionTables Bytes)
        → made codec t₀ supply q ≡ ok tx
        → t.transactions ≡ (saved tx t₀).transactions
        → Evolves t₀ t
    Begun-Evolves supply q tx t e h =
        let (valid, status, _) =
          new_transaction-IsTransfer supply.transaction q.source_wallet_id q.dest_wallet_id
            q.amount_cents q.description q.idempotency_key e in
        Evolves-insert tx t₀ t valid status h

    stored_rows :
        (supply : Supply) (q : TransferRequest) (tx : Transaction) (t : TransactionTables Bytes)
        → Begun codec t₀ supply q tx t
        → t.transactions ≡ (saved tx t₀).transactions
    stored_rows supply q tx t (half e) = ap (λ u. u.transactions) e
    stored_rows supply q tx t (whole event told e) = ap (λ u. u.transactions) e

    updated-Evolves :
        (id : Uuid) (decide : Transaction → Transaction) (tx : Transaction)
        (t : TransactionTables Bytes)
        → ((tx' : Transaction) → (decide tx').id ≡ tx'.id)
        → Follows pending (decide tx).status
        → row_of id t₀ ≡ some tx
        → tx.status ≡ pending
        → t.transactions ≡ (updated (decide tx) t₀).transactions
        → Evolves t₀ t
    updated-Evolves id decide tx t keeps f found was e =
        Evolves-update tx (decide tx) t₀ t
          (ap (λ v. row_of v t₀) (keeps tx ∙ find-id id t₀.transactions found) ∙ found)
          (subst (λ s. Follows s (decide tx).status) (sym was) f) e

    Undecided-Evolves :
        (id : Uuid) (decide : Transaction → Transaction) (event : Transaction → OutboxEvent Bytes)
        → ((tx : Transaction) → (decide tx).id ≡ tx.id)
        → ((tx : Transaction) → Follows pending (decide tx).status)
        → (t : TransactionTables Bytes) → Undecided t₀ id decide event t
        → Evolves t₀ t
    Undecided-Evolves id decide event keeps f t (inl e) = same-Evolves t e
    Undecided-Evolves id decide event keeps f t (inr (inl (tx, found, was, e))) =
        updated-Evolves id decide tx t keeps (f tx) found was (ap (λ u. u.transactions) e)
    Undecided-Evolves id decide event keeps f t (inr (inr d)) =
        updated-Evolves id decide d.transaction t keeps (f d.transaction) d.found d.was_pending
          (ap (λ u. u.transactions) d.tables)

    abbrev Evolving : {A : Type 0} → Exec (TransactionDb Bytes) A → Type 0
    Evolving m = Triple (λ t. t ≡ t₀) m (λ _ t. Evolves t₀ t) (Evolves t₀)

    then_pure :
        {A : Type 0} (m : Exec (TransactionDb Bytes) A) → Evolving m → Evolving (m >> pure tt)
    then_pure m k = Triple-bind m _ k (λ _. Triple-pure tt (λ t p. p))

    serve-Evolving : (call : Call) → Evolving (serve call)
    unfolding serve get_transaction
    serve-Evolving (initiate supply q) = then_pure _ (
        Triple-weaken _ (λ t p. p)
          (λ r t h. elim h [
            | inl s ↦
                Begun-Evolves supply q s.transaction t s.made_of (ap (λ u. u.transactions) s.tables)
            | inr (_, _, _, e) ↦ same-Evolves t e
          ])
          (λ t h. elim h [
            | inl e ↦ same-Evolves t e
            | inr (tx, e, _, b) ↦ Begun-Evolves supply q tx t e (stored_rows supply q tx t b)
          ])
          (initiate_transfer-Triple codec t₀ supply q fraud))
    serve-Evolving (complete now fresh id) =
        let done =
          Undecided-Evolves id (Domain.complete now) (completion codec fresh now) (completed_id now)
            (completed_status now) in
        Triple-weaken _ (λ t p. p) (λ _ t d. done t (inr (inr d))) done
          (complete_transaction-Triple codec fresh now t₀ id)
    serve-Evolving (fail now fresh id reason) =
        let done =
          Undecided-Evolves id (Domain.fail now reason) (failure codec fresh now reason)
            (λ tx. failed_id now tx reason) (λ tx. failed_status now tx reason) in
        Triple-weaken _ (λ t p. p) (λ _ t d. done t (inr (inr d))) done
          (fail_transaction-Triple codec fresh now t₀ id reason)
    serve-Evolving (get id) = then_pure _ (
        Triple-weaken _ (λ t p. p) (λ _ t p. same-Evolves t p.1) (λ t p. same-Evolves t p)
          (find_by_id-Triple t₀ id))

    either_way :
        (r : Result (Unit {0})) (db : TransactionDb Bytes)
        → Ends (λ _ t. Evolves t₀ t) (Evolves t₀) (r, db)
        → Evolves t₀ db.tables
    either_way (ok _) db h = h
    either_way (err e) db h = h

  -- Any sequence of calls of the transaction service, with any statement failing or losing its
  -- reply, keeps for every stored identifier the wallets, amount, description, key and creation
  -- time of its transaction and lets its status only stay or go from pending to completed or
  -- failed; a transaction that comes to be has a positive amount and two different wallets.
  pub serve_all-Evolves :
      (calls : List Call) (db : TransactionDb Bytes) → Evolves db.tables (serve_all calls db).tables
  unfolding serve_all
  serve_all-Evolves [] db = same-Evolves db.tables db.tables refl
  serve_all-Evolves (call ∷ calls) db =
      Evolves-trans
        (either_way db.tables (serve call db).0 (serve call db).1
          ((serve-Evolving db.tables call).at db refl))
        (serve_all-Evolves calls (serve call db).1)
