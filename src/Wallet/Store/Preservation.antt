-- ===== src/Wallet/Store/Preservation.antt =====
-- What `AppendEvents` and `SaveSnapshot` do to consistent tables.
use go_fintech_microservices.Prelude.{
  suc, ◌≡◌, ◌≢◌, refl, ap, ◌∙◌, Bool, true, false, inl, inr, Bool-cases, ==_iff, List, [], ◌∷◌,
  ◌++◌, some, Uuid, length, All-append, filter-append, take-append, take-length, length-append,
  ◌==◌, if◌then◌else◌, arith,
}
use mathlib.Core.Path.{subst}
use mathlib.Core.List.{append-nil}
use go_fintech_microservices.Prelude.Int.{pos}
use go_fintech_microservices.Wallet.Domain.{
  EventCodec, Event, Wallet, zero_wallet, apply_event, reconstitute,
}
use go_fintech_microservices.Wallet.Domain.Replay.{IsMovement}
use go_fintech_microservices.Wallet.Store.{
  WalletTables, SnapshotRow, of_wallet, find_snapshot, upsert_snapshot, wallet_of,
}
use go_fintech_microservices.Wallet.Store.History.{history, IsNumbered, IsNumbered-append}
use go_fintech_microservices.Wallet.Store.Consistency.{
  account, IsOpened, IsSnapshot, IsConsistent, prefix-SameOwner,
}

module _ {Bytes : Type 0} where
  abbrev pub with_row : Event Bytes → WalletTables Bytes → WalletTables Bytes
  with_row e t = record t { events = t.events ++ e ∷ [] }

  -- The history of any wallet after one more row.
  pub history-with_row :
      (wallet_id : Uuid) (e : Event Bytes) (t : WalletTables Bytes)
      → history wallet_id (with_row e t)
        ≡ (if of_wallet wallet_id e then history wallet_id t ++ e ∷ [] else history wallet_id t)
  history-with_row wallet_id e t =
      filter-append (of_wallet wallet_id) t.events (e ∷ []) ∙ tail_case (of_wallet wallet_id e)
    where
      tail_case :
          (b : Bool)
          → history wallet_id t ++ (if b then e ∷ [] else [])
            ≡ (if b then history wallet_id t ++ e ∷ [] else history wallet_id t)
      tail_case true = refl
      tail_case false = append-nil (history wallet_id t)

  pub history-with_row_self :
      (e : Event Bytes) (t : WalletTables Bytes)
      → history e.wallet_id (with_row e t) ≡ history e.wallet_id t ++ e ∷ []
  history-with_row_self e t = history-with_row e.wallet_id e t ∙ ground arith

  pub history-with_row_ne :
      (wallet_id : Uuid) (e : Event Bytes) (t : WalletTables Bytes)
      → e.wallet_id ≢ wallet_id
      → history wallet_id (with_row e t) ≡ history wallet_id t
  history-with_row_ne wallet_id e t ne = history-with_row wallet_id e t ∙ ground arith

  -- A property of each wallet's history is kept if the one with the row has it.
  history_rule :
      (Q : Uuid → List (Event Bytes) → Type 0) (e : Event Bytes) (t : WalletTables Bytes)
      → ((wallet_id : Uuid) → Q wallet_id (history wallet_id t))
      → Q e.wallet_id (history e.wallet_id t ++ e ∷ [])
      → (wallet_id : Uuid) → Q wallet_id (history wallet_id (with_row e t))
  history_rule Q e t old new wallet_id = elim (Bool-cases (of_wallet wallet_id e)) [
    | inl same ↦
        subst (λ v. Q v (history v (with_row e t))) ((==_iff e.wallet_id wallet_id).0 same)
          (rw (history-with_row_self e t) new)
    | inr differs ↦
        rw (history-with_row_ne wallet_id e t (λ p. ground (arith, ==_iff e.wallet_id wallet_id)))
          (old wallet_id)
  ]

module _ {Bytes : Type 0} (codec : EventCodec Bytes) where
  IsOpened-append :
      (wallet_id : Uuid) (es : List (Event Bytes)) (e : Event Bytes)
      → IsOpened codec wallet_id es
      → es ≢ []
      → IsMovement codec e
      → IsOpened codec wallet_id (es ++ e ∷ [])
  IsOpened-append wallet_id [] e h ne m = absurd (ne refl)
  IsOpened-append wallet_id (x ∷ es) e h ne m =
      (h.0, All-append (IsMovement codec) es (e ∷ []) h.1 (m, tt))

  IsSnapshot-append :
      (es : List (Event Bytes)) (e : Event Bytes) (row : SnapshotRow)
      → IsSnapshot codec es row
      → IsSnapshot codec (es ++ e ∷ []) row
  IsSnapshot-append es e row (k, lt, eq) =
      (k, omega (arith, length-append {0} es (e ∷ [])), rw (take-append (suc k) es (e ∷ []) lt) eq)

  with_row-IsConsistent :
      (e : Event Bytes) (t : WalletTables Bytes)
      → IsConsistent codec t
      → IsNumbered 0 (history e.wallet_id t ++ e ∷ [])
      → IsOpened codec e.wallet_id (history e.wallet_id t ++ e ∷ [])
      → IsConsistent codec (with_row e t)
  with_row-IsConsistent e t c n o = record {
    numbered = history_rule (λ _ es. IsNumbered 0 es) e t c.numbered n;
    opened = history_rule (IsOpened codec) e t c.opened o;
    snapped = λ wallet_id row found.
        history_rule (λ v es. find_snapshot v t.snapshots ≡ some row → IsSnapshot codec es row) e t
          (λ v. c.snapped v row)
          (λ f. IsSnapshot-append (history e.wallet_id t) e row (c.snapped e.wallet_id row f))
          wallet_id found;
  }

  -- One more movement, numbered by the version after the last, keeps the tables consistent.
  pub movement-IsConsistent :
      (e : Event Bytes) (t : WalletTables Bytes)
      → IsConsistent codec t
      → history e.wallet_id t ≢ []
      → e.version ≡ pos (suc (length (history e.wallet_id t)))
      → IsMovement codec e
      → IsConsistent codec (with_row e t)
  movement-IsConsistent e t c ne v m =
      with_row-IsConsistent e t c
        (IsNumbered-append 0 (history e.wallet_id t) e (c.numbered e.wallet_id)
          (rw v (ground arith)))
        (IsOpened-append e.wallet_id (history e.wallet_id t) e (c.opened e.wallet_id) ne m)

  -- So does the creation of a wallet that has no events.
  pub creation-IsConsistent :
      (e : Event Bytes) (t : WalletTables Bytes)
      → IsConsistent codec t
      → history e.wallet_id t ≡ []
      → e.version ≡ pos 1
      → (apply_event codec e zero_wallet).id ≡ e.wallet_id
      → IsConsistent codec (with_row e t)
  creation-IsConsistent e t c none_yet v i =
      with_row-IsConsistent e t c (rw none_yet (v, tt)) (rw none_yet (i, tt))

-- What a row replaces: the balance, the reservation and the version.
abbrev updated : SnapshotRow → SnapshotRow → SnapshotRow
updated new old = record old {
  balance_cents = new.balance_cents;
  reserved = new.reserved;
  version = new.version;
}

-- What is found after an upsert: what was found before, the new row, or the old row updated.
data Found (new : SnapshotRow) (rows : List SnapshotRow) (wallet_id : Uuid) (row : SnapshotRow)
    : Type 0 where
  before : find_snapshot wallet_id rows ≡ some row → Found new rows wallet_id row
  inserted : new.wallet_id ≡ wallet_id → row ≡ new → Found new rows wallet_id row
  replaced :
      (old : SnapshotRow)
      → new.wallet_id ≡ wallet_id
      → find_snapshot wallet_id rows ≡ some old
      → row ≡ updated new old
      → Found new rows wallet_id row

Found-cons :
    (new r : SnapshotRow) (rows : List SnapshotRow) (wallet_id : Uuid) (row : SnapshotRow)
    → (r.wallet_id == wallet_id) ≡ false
    → Found new rows wallet_id row
    → Found new (r ∷ rows) wallet_id row
Found-cons new r rows wallet_id row miss (before h) = before (rw miss h)
Found-cons new r rows wallet_id row miss (inserted e h) = inserted e h
Found-cons new r rows wallet_id row miss (replaced old e f h) = replaced old e (rw miss f) h

find-upsert :
    (new : SnapshotRow) (rows : List SnapshotRow) (wallet_id : Uuid) (row : SnapshotRow)
    → find_snapshot wallet_id (upsert_snapshot new rows) ≡ some row
    → Found new rows wallet_id row
unfolding upsert_snapshot
find-upsert new [] wallet_id row h = inserted (ground arith) (ground arith)
find-upsert new (r ∷ rows) wallet_id row h = elim (Bool-cases (r.wallet_id == wallet_id)) [
  | inl hit ↦ elim (Bool-cases (r.wallet_id == new.wallet_id)) [
    | inl same ↦ replaced r (ground arith) (ground arith) (ground arith)
    | inr differs ↦ before (ground arith)
  ]
  | inr miss ↦ elim (Bool-cases (r.wallet_id == new.wallet_id)) [
    | inl same ↦ before (ground arith)
    | inr differs ↦
        Found-cons new r rows wallet_id row miss (find-upsert new rows wallet_id row (ground arith))
  ]
]

module _ {Bytes : Type 0} (codec : EventCodec Bytes) where
  abbrev pub with_snapshot : SnapshotRow → WalletTables Bytes → WalletTables Bytes
  with_snapshot row t = record t { snapshots = upsert_snapshot row t.snapshots }

  -- An older row of the same wallet has the same owner, so the update makes it the new row.
  updated-eq :
      (new old : SnapshotRow) (t : WalletTables Bytes)
      → IsConsistent codec t
      → find_snapshot new.wallet_id t.snapshots ≡ some old
      → wallet_of new ≡ account codec new.wallet_id t
      → updated new old ≡ new
  unfolding wallet_of
  updated-eq new old t c found eq =
      let (k, lt, prefix) = c.snapped new.wallet_id old found in
      let s =
        prefix-SameOwner codec new.wallet_id k (history new.wallet_id t) (c.opened new.wallet_id)
          lt in
      cc (
        ap (λ (w : Wallet Bytes). w.id) prefix,
        ap (λ (w : Wallet Bytes). w.user_id) prefix,
        ap (λ (w : Wallet Bytes). w.currency) prefix,
        ap (λ (w : Wallet Bytes). w.id) eq,
        ap (λ (w : Wallet Bytes). w.user_id) eq,
        ap (λ (w : Wallet Bytes). w.currency) eq,
        s.id,
        s.user_id,
        s.currency,
      )

  whole-IsSnapshot :
      (es : List (Event Bytes)) (row : SnapshotRow)
      → es ≢ []
      → wallet_of row ≡ reconstitute codec es zero_wallet
      → IsSnapshot codec es row
  whole-IsSnapshot [] row ne eq = absurd (ne refl)
  whole-IsSnapshot (e ∷ es) row ne eq = (length es, omega arith, rw (take-length es) eq)

  found-IsSnapshot :
      (new row : SnapshotRow) (wallet_id : Uuid) (t : WalletTables Bytes)
      → IsConsistent codec t
      → IsSnapshot codec (history new.wallet_id t) new
      → wallet_of new ≡ account codec new.wallet_id t
      → Found new t.snapshots wallet_id row
      → IsSnapshot codec (history wallet_id t) row
  found-IsSnapshot new row wallet_id t c now eq (before h) = c.snapped wallet_id row h
  found-IsSnapshot new row wallet_id t c now eq (inserted same h) =
      subst (λ v. IsSnapshot codec (history v t) row) same (rw h now)
  found-IsSnapshot new row wallet_id t c now eq (replaced old same f h) =
      subst (λ v. IsSnapshot codec (history v t) row) same
        (rw (h ∙ updated-eq new old t c (rw same f) eq) now)

  -- A snapshot of the account keeps the tables consistent.
  pub snapshot-IsConsistent :
      (new : SnapshotRow) (t : WalletTables Bytes)
      → IsConsistent codec t
      → history new.wallet_id t ≢ []
      → wallet_of new ≡ account codec new.wallet_id t
      → IsConsistent codec (with_snapshot new t)
  snapshot-IsConsistent new t c ne eq = record {
    numbered = c.numbered;
    opened = c.opened;
    snapped = λ wallet_id row found.
        found-IsSnapshot new row wallet_id t c
          (whole-IsSnapshot (history new.wallet_id t) new ne eq) eq
          (find-upsert new t.snapshots wallet_id row found);
  }
