-- ===== src/Wallet/Service/Calls.antt =====
-- Any sequence of calls of the wallet service keeps its tables consistent.
use go_fintech_microservices.Prelude.{
  ℕ, suc, ◌+◌, ◌-◌, ◌^◌, ◌≤◌, ◌<◌, ◌≡◌, ◌≢◌, ◌⊎◌, inl, inr, refl, List, [], ◌∷◌, String, Uuid,
  Instant, Fresh, length, arith,
}
use native.Mathlib.Nat.{add-zero}
use native.Mathlib.Decide.{ℕ_discrete}
use go_fintech_microservices.Prelude.Int.{ℤ}
use go_fintech_microservices.Exec.{Result, ok, err, Exec, pure, ◌>>◌}
use go_fintech_microservices.Db.Laws.{Triple, Triple-bind, Triple-pure, Triple-weaken, Ends}
use go_fintech_microservices.Wallet.Domain.{EventCodec, Wallet}
use go_fintech_microservices.Wallet.Domain.Payloads.{IsEventCodec}
use go_fintech_microservices.Wallet.Store.{WalletTables, WalletDb}
use go_fintech_microservices.Wallet.Store.History.{history}
use go_fintech_microservices.Wallet.Store.Consistency.{IsConsistent}
use go_fintech_microservices.Wallet.Service.Changing.{Changed}
use go_fintech_microservices.Wallet.Service.Creating.{
  Created, create_wallet-Triple, get_balance-Triple,
}
use go_fintech_microservices.Wallet.Service.Movements.{
  deposit-Triple, withdraw-Triple, reserve-Applies, credit-Applies, release-Applies,
}
use go_fintech_microservices.Wallet.Service

-- A call of a method of `WalletService`, with what `uuid.New` and `time.Now` return to it.
pub data Call : Type 0 where
  create : Fresh → Uuid → Instant → Uuid → String → Call
  balance : Uuid → Call
  deposit withdraw : Fresh → Uuid → ℤ → String → Call
  reserve credit release : Fresh → Uuid → ℤ → Uuid → Call

module _ {Bytes : Type 0} (codec : EventCodec Bytes) where
  serve : Call → Exec (WalletDb Bytes) (Unit {0})
  unfolding Service.create_wallet Service.get_balance Service.deposit Service.withdraw
      Service.reserve_for_transaction Service.credit_for_transaction Service.release_reservation
  serve (create fresh wallet_id later user_id currency) = do
    Service.create_wallet codec fresh wallet_id later user_id currency
    pure tt
  serve (balance wallet_id) = do Service.get_balance codec wallet_id; pure tt
  serve (deposit fresh wallet_id amount description) = do
    Service.deposit codec fresh wallet_id amount description
    pure tt
  serve (withdraw fresh wallet_id amount description) = do
    Service.withdraw codec fresh wallet_id amount description
    pure tt
  serve (reserve fresh wallet_id amount transaction) =
      Service.reserve_for_transaction codec fresh wallet_id amount transaction
  serve (credit fresh wallet_id amount transaction) =
      Service.credit_for_transaction codec fresh wallet_id amount transaction
  serve (release fresh wallet_id amount transaction) =
      Service.release_reservation codec fresh wallet_id amount transaction

  -- The database after the calls, whatever each of them returned.
  unfoldable pub serve_all : List Call → WalletDb Bytes → WalletDb Bytes
  unfolding serve
  serve_all [] db = db
  serve_all (call ∷ calls) db = serve_all calls (serve call db).1

  -- Consistent tables in which no wallet has more than `n` events.
  pub record IsShort (n : ℕ) (t : WalletTables Bytes) : Type 0 where
    pub consistent : IsConsistent codec t
    pub short : (wallet_id : Uuid) → length (history wallet_id t) ≤ n

  module _ (laws : IsEventCodec codec) (n : ℕ) (wallet_id : Uuid) (t₀ : WalletTables Bytes)
      (s : IsShort n t₀) where
    one_longer :
        (t : WalletTables Bytes)
        → IsConsistent codec t
        → length (history wallet_id t) ≤ suc n
        → ((other : Uuid) → other ≢ wallet_id → history other t ≡ history other t₀)
        → IsShort (suc n) t
    one_longer t c l others = record {
      consistent = c;
      short = λ v. elim (ℕ_discrete v wallet_id) [
        | yes e ↦ rw e l
        | no ne ↦ rw (others v ne) (omega (arith, s.short v))
      ];
    }

    same-IsShort : (t : WalletTables Bytes) → t ≡ t₀ → IsShort (suc n) t
    same-IsShort t e =
        rw e (record { consistent = s.consistent; short = λ v. omega (arith, s.short v) })

    Changed-IsShort :
        (w : Wallet Bytes) (t : WalletTables Bytes)
        → Changed codec wallet_id t₀ w t
        → IsShort (suc n) t
    Changed-IsShort w t ch =
        one_longer t ch.consistent (omega (arith, ch.longer, s.short wallet_id)) ch.others

    Failed-IsShort :
        (r : Result (Wallet Bytes)) (t : WalletTables Bytes)
        → (t ≡ t₀) ⊎ ((w : Wallet Bytes) × (r ≡ ok w) × Changed codec wallet_id t₀ w t)
        → IsShort (suc n) t
    Failed-IsShort r t (inl e) = same-IsShort t e
    Failed-IsShort r t (inr (w, _, ch)) = Changed-IsShort w t ch

    Created-IsShort :
        (fresh : Fresh) (user_id : Uuid) (currency : String) (t : WalletTables Bytes)
        → Created codec laws fresh wallet_id user_id currency t₀ s.consistent t
        → IsShort (suc n) t
    Created-IsShort fresh user_id currency t k =
        one_longer t k.consistent (omega (arith, k.longer)) k.others

  module _ (laws : IsEventCodec codec) (n : ℕ) (t₀ : WalletTables Bytes) (s : IsShort n t₀)
      (room : n < 2 ^ 63 - 1) where
    abbrev Keeps : {A : Type 0} → Exec (WalletDb Bytes) A → Type 0
    Keeps m = Triple (λ t. t ≡ t₀) m (λ _ t. IsShort (suc n) t) (IsShort (suc n))

    then_pure : {A : Type 0} (m : Exec (WalletDb Bytes) A) → Keeps m → Keeps (m >> pure tt)
    then_pure m k = Triple-bind m _ k (λ _. Triple-pure tt (λ t p. p))

    fits : (wallet_id : Uuid) → length (history wallet_id t₀) < 2 ^ 63 - 1
    fits wallet_id = omega (arith, s.short wallet_id)

    serve-Keeps : (call : Call) → Keeps (serve call)
    unfolding serve
    serve-Keeps (create fresh wallet_id later user_id currency) =
        let made = Created-IsShort laws n wallet_id t₀ s fresh user_id currency in
        then_pure _ (
          Triple-weaken _ (λ t p. p) (λ r t q. made t q.1)
            (λ t q. elim q [ inl e ↦ same-IsShort laws n wallet_id t₀ s t e | inr k ↦ made t k ])
            (create_wallet-Triple codec laws fresh wallet_id user_id currency t₀ s.consistent
              later))
    serve-Keeps (balance wallet_id) = then_pure _ (
        Triple-weaken _ (λ t p. p) (λ r t q. same-IsShort laws n wallet_id t₀ s t q.4)
          (same-IsShort laws n wallet_id t₀ s)
          (get_balance-Triple codec laws wallet_id t₀ s.consistent))
    serve-Keeps (deposit fresh wallet_id amount description) = then_pure _ (
        Triple-weaken _ (λ t p. p) (λ r t q. Changed-IsShort laws n wallet_id t₀ s q.0 t q.3)
          (Failed-IsShort laws n wallet_id t₀ s _)
          (deposit-Triple codec laws fresh wallet_id t₀ s.consistent (fits wallet_id) amount
            description))
    serve-Keeps (withdraw fresh wallet_id amount description) = then_pure _ (
        Triple-weaken _ (λ t p. p) (λ r t q. Changed-IsShort laws n wallet_id t₀ s q.0 t q.3)
          (Failed-IsShort laws n wallet_id t₀ s _)
          (withdraw-Triple codec laws fresh wallet_id t₀ s.consistent (fits wallet_id) amount
            description))
    serve-Keeps (reserve fresh wallet_id amount transaction) =
        Triple-weaken _ (λ t p. p) (λ r t q. Changed-IsShort laws n wallet_id t₀ s q.0 t q.2)
          (Failed-IsShort laws n wallet_id t₀ s _)
          (reserve-Applies codec laws fresh wallet_id t₀ s.consistent (fits wallet_id) amount
            transaction)
    serve-Keeps (credit fresh wallet_id amount transaction) =
        Triple-weaken _ (λ t p. p) (λ r t q. Changed-IsShort laws n wallet_id t₀ s q.0 t q.2)
          (Failed-IsShort laws n wallet_id t₀ s _)
          (credit-Applies codec laws fresh wallet_id t₀ s.consistent (fits wallet_id) amount
            transaction)
    serve-Keeps (release fresh wallet_id amount transaction) =
        Triple-weaken _ (λ t p. p) (λ r t q. Changed-IsShort laws n wallet_id t₀ s q.0 t q.2)
          (Failed-IsShort laws n wallet_id t₀ s _)
          (release-Applies codec laws fresh wallet_id t₀ s.consistent (fits wallet_id) amount
            transaction)

    either_way :
        (r : Result (Unit {0})) (db : WalletDb Bytes)
        → Ends (λ _ t. IsShort (suc n) t) (IsShort (suc n)) (r, db)
        → IsShort (suc n) db.tables
    either_way (ok _) db h = h
    either_way (err e) db h = h

    serve-IsShort :
        (call : Call) (db : WalletDb Bytes)
        → db.tables ≡ t₀
        → IsShort (suc n) (serve call db).1.tables
    serve-IsShort call db e =
        either_way (serve call db).0 (serve call db).1 ((serve-Keeps call).at db e)

  -- With payloads that JSON reads back as written, and for a bound on the events of every wallet
  -- that, with the number of the calls added, is below the largest version: any sequence of calls
  -- of the wallet service, with any statement of the database failing or losing its reply, keeps
  -- the wallet tables consistent (each wallet's events numbered from 1 and opened by its creation,
  -- each snapshot the replay of a prefix), and afterwards that sum bounds the events of every
  -- wallet.
  pub serve_all-IsConsistent :
      (laws : IsEventCodec codec) (calls : List Call) (n : ℕ) (db : WalletDb Bytes)
      → IsShort n db.tables
      → n + length calls < 2 ^ 63 - 1
      → IsShort (n + length calls) (serve_all calls db).tables
  unfolding serve_all
  serve_all-IsConsistent laws [] n db s room = rw add-zero s
  serve_all-IsConsistent laws (call ∷ calls) n db s room =
      let e : n + suc (length calls) ≡ suc n + length calls = omega arith in
      rw e (
        serve_all-IsConsistent laws calls (suc n) (serve call db).1
          (serve-IsShort laws n db.tables s (omega arith) call db refl) (omega arith))
