-- ===== src/Wallet/Service/Loading/Success.antt =====
-- `load` and `GetBalance` of a wallet that has events, while no statement fails.
use go_fintech_microservices.Prelude.{
  ℕ, zero, suc, ◌≡◌, ◌≢◌, inl, inr, refl, ap, ◌∙◌, false, ◌&&◌, List, [], ◌∷◌, Option, none, some,
  Uuid, drop, arith, Option-cases,
}
use mathlib.Core.Path.{subst}
use go_fintech_microservices.Prelude.Int.{ℤ, pos, eqb_ℤ}
use go_fintech_microservices.Errors.{not_found, new_error}
use go_fintech_microservices.Exec.{Result, ok, err}
use go_fintech_microservices.Db.Laws.{Triple, Triple-bind, Triple-pure}
use go_fintech_microservices.Db.Smooth.{
  smooth, Runs, Runs-bind, Runs-attempt, Runs-pure, Runs-raise_if, Runs-select, Runs-select_rows,
}
use go_fintech_microservices.Wallet.Domain.{EventCodec, Wallet, zero_wallet}
use go_fintech_microservices.Wallet.Store.{
  WalletTables, SnapshotRow, find_snapshot, wallet_of, scanned, load_snapshot, load_events,
  events_after,
}
use go_fintech_microservices.Wallet.Store.History.{history, IsNumbered, events_after-drop}
use go_fintech_microservices.Wallet.Store.Consistency.{account, IsConsistent}
use go_fintech_microservices.Wallet.Service.{
  BalanceResult, is_empty, base, load_from, load, get_balance,
}
use go_fintech_microservices.Wallet.Service.Loading.{
  IsBase, zero-IsBase, row-IsBase, rest-account, load-Triple,
}

found_some :
    {A : Type 0} (es : List A) (k : ℕ) (v : ℤ)
    → es ≢ []
    → v ≡ pos k
    → (is_empty (drop k es) && eqb_ℤ v (pos 0)) ≡ false
found_some es (suc k) v ne e = rw e (ground arith)
found_some [] zero v ne e = absurd (ne refl)
found_some (x ∷ es) zero v ne e = refl

module _ {Bytes : Type 0} (codec : EventCodec Bytes) where
  -- What `GetBalance` reports of a wallet.
  abbrev pub balance_of : Wallet Bytes → BalanceResult
  balance_of w = record {
    wallet_id = w.id;
    balance_cents = w.balance_cents;
    currency = w.currency;
    version = w.version;
  }

  module _ (wallet_id : Uuid) (t : WalletTables Bytes) where
    Runs-load_events :
        (k : ℕ) (v : ℤ)
        → v ≡ pos k
        → IsNumbered 0 (history wallet_id t)
        → Runs (load_events wallet_id v) t (ok (drop k (history wallet_id t))) t
    unfolding load_events
    Runs-load_events k v e n =
        subst (λ es. Runs (load_events wallet_id v) t (ok es) t)
          (ap (λ u. events_after wallet_id u t) e ∙ events_after-drop wallet_id k t n)
          (Runs-select_rows "load events" "scan event" _ (events_after wallet_id v) t)

    Runs-load_snapshot :
        (found : Option SnapshotRow) (r : Result (Wallet Bytes × ℤ))
        → find_snapshot wallet_id t.snapshots ≡ found
        → Runs (scanned found) t r t
        → Runs (load_snapshot wallet_id) t r t
    unfolding load_snapshot
    Runs-load_snapshot found r e h = Runs-bind _ _ _ r t t t (Runs-select _ _ t) (rw e h)

    module _ (c : IsConsistent codec t) (ne : history wallet_id t ≢ []) where
      load_from-Runs :
          (b : Wallet Bytes × ℤ)
          → IsBase codec wallet_id t c b
          → Runs (load_from codec wallet_id b) t (ok (account codec wallet_id t)) t
      unfolding load_from
      load_from-Runs b from =
          Runs-bind _ _ _ _ t t t (Runs-load_events from.k b.1 from.version (c.numbered wallet_id))
            (Runs-bind _ _ tt _ t t t
              (Runs-raise_if _ _ t (found_some (history wallet_id t) from.k b.1 ne from.version))
              (record {
                runs =
                    ap (λ (w : Wallet Bytes). (ok w, smooth t))
                      (rest-account codec wallet_id t c b from);
              }))

      pub load-Runs : Runs (load codec wallet_id) t (ok (account codec wallet_id t)) t
      unfolding load scanned
      load-Runs =
          let rest = λ (r : Result (Wallet Bytes × ℤ)). load_from codec wallet_id (base r) in
          elim (Option-cases (find_snapshot wallet_id t.snapshots)) [
            | inl e ↦
                Runs-attempt _ rest (err (new_error not_found "no snapshot")) _ t t t
                  (Runs-load_snapshot none _ e (record { runs = refl }))
                  (load_from-Runs (zero_wallet, pos 0) (zero-IsBase codec wallet_id t c))
            | inr (row, e) ↦
                Runs-attempt _ rest (ok (wallet_of row, row.version)) _ t t t
                  (Runs-load_snapshot (some row) _ e (Runs-pure _ t))
                  (load_from-Runs (wallet_of row, row.version)
                    (row-IsBase codec wallet_id t c row e))
          ]

      -- From consistent tables, for a wallet that has events: a GetBalance returns the identifier,
      -- balance, currency and version of the replayed account while no statement fails; with any
      -- statement failing it returns the same or an error; and it writes nothing either way.
      pub get_balance-account :
          Runs (get_balance codec wallet_id) t (ok (balance_of (account codec wallet_id t))) t
          × Triple
              (λ u. u ≡ t)
              (get_balance codec wallet_id)
              (λ r u. (r ≡ balance_of (account codec wallet_id t)) × (u ≡ t))
              (λ u. u ≡ t)
      unfolding get_balance
      get_balance-account = (
        Runs-bind _ _ (account codec wallet_id t) _ t t t load-Runs (Runs-pure _ t),
        Triple-bind _ _ (load-Triple codec wallet_id t c)
            (λ w. Triple-pure _ (λ u (e, _, p). (ap balance_of e, p))),
      )
