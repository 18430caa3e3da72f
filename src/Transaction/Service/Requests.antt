-- ===== src/Transaction/Service/Requests.antt =====
-- The transaction that a request makes, the unique index that meets it, and the row of its event.
use go_fintech_microservices.Prelude.{
  ◌≡◌, refl, sym, ◌∙◌, ◌⊎◌, inl, inr, Bool, true, false, not, ◌&&◌, ◌||◌, Bool-cases, List, [], ◌∷◌,
  some, String, Uuid, Fresh, any, str_eq, arith,
}
use mathlib.Core.Path.{subst}
use go_fintech_microservices.Prelude.Int.{ℤ}
use go_fintech_microservices.Exec.{ok}
use go_fintech_microservices.Db.Laws.{Triple}
use go_fintech_microservices.Db.Statements.{Triple-write}
use go_fintech_microservices.Transaction.Domain
use go_fintech_microservices.Transaction.Domain.{Transaction, pending, OutboxEvent, EventType}
use go_fintech_microservices.Transaction.Store.{
  TransactionTables, find, has_id, has_key, clashes, insert_event-eq, announced, save_event,
}
use go_fintech_microservices.Transaction.Lifecycle.{IsTransfer}

module _ (fresh : Fresh) (source dest : Uuid) (amount : ℤ) (description key : String) where
  -- A transaction that NewTransaction returns has a positive amount, two different wallets, the
  -- status pending and the given idempotency key.
  pub new_transaction-IsTransfer :
      {tx : Transaction}
      → Domain.new_transaction fresh source dest amount description key ≡ ok tx
      → IsTransfer tx × (tx.status ≡ pending) × (tx.idempotency_key ≡ key)
  unfolding Domain.new_transaction
  new_transaction-IsTransfer {tx} h =
      (record { positive = ground arith; distinct = λ e. ground arith }, ground arith, ground arith)

  pub new_transaction-request :
      {tx : Transaction}
      → Domain.new_transaction fresh source dest amount description key ≡ ok tx
      → tx ≡ record {
        id = fresh.id;
        source_wallet_id = source;
        destination_wallet_id = dest;
        amount_cents = amount;
        description = description;
        status = pending;
        failure_reason = "";
        idempotency_key = key;
        created_at = fresh.now;
        updated_at = fresh.now;
      }
  unfolding Domain.new_transaction
  new_transaction-request {tx} h = ground arith

key_clash : (a b c d : Bool) → a ≡ false → b ≡ true → (c || not a && b) || d ≡ true
key_clash a b c d e f = ground arith

clash_later : (a b : Bool) → a || b ≡ false → b ≡ false
clash_later a b h = ground arith

pub no_clash :
    (tx : Transaction) (key : String) (rows : List Transaction) {existing : Transaction}
    → str_eq key "" ≡ false
    → tx.idempotency_key ≡ key
    → find (has_key key) rows ≡ some existing
    → any (clashes tx) rows ≡ false
    → ⊥
no_clash tx key [] n e h k = cc
no_clash tx key (row ∷ rows) n e h k = elim (Bool-cases (str_eq row.idempotency_key key)) [
  | inl f ↦ true_false (
      sym (
        key_clash (str_eq tx.idempotency_key "") (str_eq row.idempotency_key tx.idempotency_key)
          (has_id tx.id row) (any (clashes tx) rows) (rw e n) (rw e f))
      ∙ k)
  | inr f ↦ no_clash tx key rows n e (sym (missed f) ∙ h) (clash_later (clashes tx row) _ k)
]
  where
    true_false : true ≡ false → ⊥
    true_false b = cc

    missed :
        str_eq row.idempotency_key key ≡ false
        → find (has_key key) (row ∷ rows) ≡ find (has_key key) rows
    missed f = rw f refl

module _ {Bytes : Type 0} where
  pub save_event-Triple :
      {P Q : TransactionTables Bytes → Type 0} (e : OutboxEvent Bytes)
      → ((t : TransactionTables Bytes) → P t → Q (announced e t))
      → Triple P (save_event e) (λ _ t. Q t) (λ t. P t ⊎ Q t)
  unfolding save_event
  save_event-Triple {P} {Q} e h =
      Triple-write _ _ (λ t t' p q. subst Q (sym (insert_event-eq e t t' q)) (h t p))
        (λ t t' p q. inr (subst Q (sym (insert_event-eq e t t' q)) (h t p))) (λ t p. inl p)
