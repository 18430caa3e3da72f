-- ===== src/Transaction/Lifecycle.antt =====
-- What the stored transactions go through: the statuses of services/transaction/internal/domain/transaction.go
-- and the rows that the repository keeps.
use go_fintech_microservices.Prelude.{
  ◌≡◌, refl, sym, ◌∙◌, ap, inl, inr, Bool, true, false, Bool-cases, ==_iff, map, List, [], ◌∷◌,
  ◌++◌, Option, none, some, some-inj, Uuid, ◌==◌, ◌≢◌, if◌then◌else◌,
}
use go_fintech_microservices.Prelude.Int.{pos, ◌<ℤ◌}
use go_fintech_microservices.Transaction.Domain.{Transaction, Status, pending, completed, failed}
use go_fintech_microservices.Transaction.Store.{TransactionTables, find, has_id, update_row}

-- A status stays, or a pending one is decided.
pub data Follows : Status → Status → Type 0 where
  stays : (s : Status) → Follows s s
  completes : Follows pending completed
  fails : Follows pending failed

Follows-trans : {a b c : Status} → Follows a b → Follows b c → Follows a c
Follows-trans (stays s) q = q
Follows-trans completes (stays s) = completes
Follows-trans fails (stays s) = fails

-- A transfer of a positive amount between two wallets.
pub record IsTransfer (tx : Transaction) : Type 0 where
  pub positive : pos 0 <ℤ tx.amount_cents
  pub distinct : tx.source_wallet_id ≢ tx.destination_wallet_id

-- All but the status, its reason and the time of the update stay.
pub record Advances (before after : Transaction) : Type 0 where
  pub id : after.id ≡ before.id
  pub source_wallet_id : after.source_wallet_id ≡ before.source_wallet_id
  pub destination_wallet_id : after.destination_wallet_id ≡ before.destination_wallet_id
  pub amount_cents : after.amount_cents ≡ before.amount_cents
  pub description : after.description ≡ before.description
  pub idempotency_key : after.idempotency_key ≡ before.idempotency_key
  pub created_at : after.created_at ≡ before.created_at
  pub status : Follows before.status after.status

pub Advances-refl : (tx : Transaction) → Advances tx tx
Advances-refl tx = record {
  id = refl;
  source_wallet_id = refl;
  destination_wallet_id = refl;
  amount_cents = refl;
  description = refl;
  idempotency_key = refl;
  created_at = refl;
  status = stays tx.status;
}

Advances-trans : {a b c : Transaction} → Advances a b → Advances b c → Advances a c
Advances-trans p q = record {
  id = q.id ∙ p.id;
  source_wallet_id = q.source_wallet_id ∙ p.source_wallet_id;
  destination_wallet_id = q.destination_wallet_id ∙ p.destination_wallet_id;
  amount_cents = q.amount_cents ∙ p.amount_cents;
  description = q.description ∙ p.description;
  idempotency_key = q.idempotency_key ∙ p.idempotency_key;
  created_at = q.created_at ∙ p.created_at;
  status = Follows-trans p.status q.status;
}

-- What a call makes of the row of one identifier: a row that comes to be is a transfer that began
-- as pending, and a row that is there advances.
pub data RowStep : Option Transaction → Option Transaction → Type 0 where
  absent : RowStep none none
  begun : (tx : Transaction) → IsTransfer tx → Follows pending tx.status → RowStep none (some tx)
  advanced : (a b : Transaction) → Advances a b → RowStep (some a) (some b)

RowStep-same : (o : Option Transaction) → RowStep o o
RowStep-same none = absent
RowStep-same (some tx) = advanced tx tx (Advances-refl tx)

IsTransfer-Advances : {a b : Transaction} → Advances a b → IsTransfer a → IsTransfer b
IsTransfer-Advances s p = record {
  positive = rw s.amount_cents p.positive;
  distinct = rw (s.source_wallet_id, s.destination_wallet_id) p.distinct;
}

RowStep-trans : {a b c : Option Transaction} → RowStep a b → RowStep b c → RowStep a c
RowStep-trans absent q = q
RowStep-trans (begun tx p s) (advanced _ b q) =
    begun b (IsTransfer-Advances q p) (Follows-trans s q.status)
RowStep-trans (advanced a b p) (advanced _ c q) = advanced a c (Advances-trans p q)

RowStep-if :
    (b : Bool) (tx : Transaction) (x y : Option Transaction)
    → RowStep x y
    → RowStep (if b then some tx else x) (if b then some tx else y)
RowStep-if true tx x y s = RowStep-same (some tx)
RowStep-if false tx x y s = s

RowStep-new :
    (b : Bool) (tx : Transaction)
    → IsTransfer tx
    → tx.status ≡ pending
    → RowStep none (if b then some tx else none)
RowStep-new true tx p e = begun tx p (rw e (stays pending))
RowStep-new false tx p e = absent

-- A new row comes after the others.
find-insert :
    (id : Uuid) (tx : Transaction) (rows : List Transaction)
    → IsTransfer tx
    → tx.status ≡ pending
    → RowStep (find (has_id id) rows) (find (has_id id) (rows ++ tx ∷ []))
find-insert id tx [] p e = RowStep-new (tx.id == id) tx p e
find-insert id tx (row ∷ rows) p e = RowStep-if (row.id == id) row _ _ (find-insert id tx rows p e)

update_row-Advances :
    (tx row : Transaction)
    → ((row.id == tx.id) ≡ true → Follows row.status tx.status)
    → Advances row (update_row tx row)
update_row-Advances tx row h = elim (Bool-cases (row.id == tx.id)) [
  | inl e ↦ rw e (record {
    id = refl;
    source_wallet_id = refl;
    destination_wallet_id = refl;
    amount_cents = refl;
    description = refl;
    idempotency_key = refl;
    created_at = refl;
    status = h e;
  })
  | inr e ↦ rw e (Advances-refl row)
]

pub update_row-id : (tx row : Transaction) → (update_row tx row).id ≡ row.id
update_row-id tx row = elim (Bool-cases (row.id == tx.id)) [ inl e ↦ rw e refl | inr e ↦ rw e refl ]

RowStep-either :
    (b : Bool) (row row' : Transaction) (x y : Option Transaction)
    → (b ≡ true → Advances row row')
    → (b ≡ false → RowStep x y)
    → RowStep (if b then some row else x) (if b then some row' else y)
RowStep-either true row row' x y h k = advanced row row' (h refl)
RowStep-either false row row' x y h k = k refl

pub find-id :
    (id : Uuid) (rows : List Transaction) {row : Transaction}
    → find (has_id id) rows ≡ some row
    → row.id ≡ id
find-id id [] h = cc
find-id id (x ∷ rows) {row} h = elim (Bool-cases (x.id == id)) [
  | inl e ↦ ap (λ r. r.id) (some-inj (sym h ∙ found e)) ∙ (==_iff x.id id).0 e
  | inr e ↦ find-id id rows (sym (missed e) ∙ h)
]
  where
    found : (x.id == id) ≡ true → find (has_id id) (x ∷ rows) ≡ some x
    found e = rw e refl

    missed : (x.id == id) ≡ false → find (has_id id) (x ∷ rows) ≡ find (has_id id) rows
    missed e = rw e refl

-- An update keeps identifiers, so it keeps which row is found.
RowStep-update :
    (id : Uuid) (tx : Transaction) (rows : List Transaction)
    → ((row : Transaction)
        → find (has_id id) rows ≡ some row
        → (row.id == tx.id) ≡ true
        → Follows row.status tx.status)
    → RowStep (find (has_id id) rows) (find (has_id id) (map (update_row tx) rows))
RowStep-update id tx [] h = absent
RowStep-update id tx (row ∷ rows) h = rw (update_row-id tx row) (
    RowStep-either (row.id == id) row (update_row tx row) _ _
      (λ e. update_row-Advances tx row (h row (rw e refl)))
      (λ e. RowStep-update id tx rows (λ row' f. h row' (rw e f))))

module _ {Bytes : Type 0} where
  abbrev pub row_of : Uuid → TransactionTables Bytes → Option Transaction
  row_of id t = find (has_id id) t.transactions

  -- Every identifier's row takes a step.
  pub record Evolves (t t' : TransactionTables Bytes) : Type 0 where
    pub step : (id : Uuid) → RowStep (row_of id t) (row_of id t')

  pub Evolves-same :
      (t t' : TransactionTables Bytes) → t'.transactions ≡ t.transactions → Evolves t t'
  Evolves-same t t' e = record { step = λ id. rw e (RowStep-same (row_of id t)) }

  pub Evolves-trans :
      {t t' t'' : TransactionTables Bytes} → Evolves t t' → Evolves t' t'' → Evolves t t''
  Evolves-trans p q = record { step = λ id. RowStep-trans (p.step id) (q.step id) }

  pub Evolves-insert :
      (tx : Transaction) (t t' : TransactionTables Bytes)
      → IsTransfer tx
      → tx.status ≡ pending
      → t'.transactions ≡ t.transactions ++ tx ∷ []
      → Evolves t t'
  Evolves-insert tx t t' p s e = record { step = λ id. rw e (find-insert id tx t.transactions p s) }

  -- The row that was found pending is decided.
  pub Evolves-update :
      (tx tx' : Transaction) (t t' : TransactionTables Bytes)
      → row_of tx'.id t ≡ some tx
      → Follows tx.status tx'.status
      → t'.transactions ≡ map (update_row tx') t.transactions
      → Evolves t t'
  Evolves-update tx tx' t t' found f e = record {
    step = λ id. rw e (
        RowStep-update id tx' t.transactions (λ row h k.
          let i : row.id ≡ id = find-id id t.transactions h in
          let same : row.id ≡ tx'.id = (==_iff row.id tx'.id).0 k in
          rw (some-inj (sym h ∙ ap (λ v. row_of v t) (sym i ∙ same) ∙ found)) f));
  }
