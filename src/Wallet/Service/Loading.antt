-- ===== src/Wallet/Service/Loading.antt =====
-- `load` rebuilds the account: from a snapshot and the later events, or from all of them.
pub mod Success
use go_fintech_microservices.Prelude.{
  ℕ, zero, suc, ◌≤◌, ◌≡◌, ◌≢◌, refl, ap, sym, ◌∙◌, false, ◌&&◌, List, [], ◌∷◌, some, Uuid, length,
  take, drop, take-append-drop, length-take_le, arith,
}
use go_fintech_microservices.Prelude.Int.{ℤ, pos, eqb_ℤ}
use go_fintech_microservices.Db.Laws.{
  Triple-raise_if, Triple, Triple-bind, Triple-pure, Triple-weaken, Triple-given, Triple-attempt,
}
use go_fintech_microservices.Wallet.Domain.{EventCodec, Event, Wallet, zero_wallet, reconstitute}
use go_fintech_microservices.Wallet.Domain.Replay.{reconstitute-append}
use go_fintech_microservices.Wallet.Store.{WalletTables, SnapshotRow, find_snapshot, wallet_of}
use go_fintech_microservices.Wallet.Store.Snapshots.{load_snapshot-Triple, load_events-Triple}
use go_fintech_microservices.Wallet.Store.History.{history, IsNumbered-take}
use go_fintech_microservices.Wallet.Store.Consistency.{account, IsConsistent, reconstitute-version}
use go_fintech_microservices.Wallet.Service.{is_empty, base, load_from, load}

module _ {Bytes : Type 0} (codec : EventCodec Bytes) (wallet_id : Uuid) (t₀ : WalletTables Bytes)
    (c : IsConsistent codec t₀) where
  -- A wallet and a version from which the later events lead to the account.
  pub record IsBase (b : Wallet Bytes × ℤ) : Type 0 where
    pub k : ℕ
    pub fits : k ≤ length (history wallet_id t₀)
    pub version : b.1 ≡ pos k
    pub prefix : b.0 ≡ reconstitute codec (take k (history wallet_id t₀)) zero_wallet

  pub zero-IsBase : IsBase (zero_wallet, pos 0)
  unfolding reconstitute
  zero-IsBase = record { k = 0; fits = omega arith; version = refl; prefix = refl }

  pub row-IsBase :
      (row : SnapshotRow)
      → find_snapshot wallet_id t₀.snapshots ≡ some row
      → IsBase (wallet_of row, row.version)
  unfolding wallet_of
  row-IsBase row found =
      let (k, lt, prefix) = c.snapped wallet_id row found in
      record {
        k = suc k;
        fits = lt;
        version =
            ap (λ (w : Wallet Bytes). w.version) prefix
            ∙ reconstitute-version codec 0 (take (suc k) (history wallet_id t₀)) zero_wallet
                (IsNumbered-take 0 (suc k) (history wallet_id t₀) (c.numbered wallet_id)) refl
            ∙ ap pos (omega (arith, length-take_le (suc k) (history wallet_id t₀) lt));
        prefix = prefix;
      }

  pub rest-account :
      (b : Wallet Bytes × ℤ) (from : IsBase b)
      → reconstitute codec (drop from.k (history wallet_id t₀)) b.0 ≡ account codec wallet_id t₀
  rest-account b from =
      ap (reconstitute codec (drop from.k (history wallet_id t₀))) from.prefix
      ∙ sym (
          reconstitute-append codec (take from.k (history wallet_id t₀))
            (drop from.k (history wallet_id t₀)) zero_wallet)
      ∙ ap (λ es. reconstitute codec es zero_wallet)
          (take-append-drop from.k (history wallet_id t₀))

  not_empty :
      (es : List (Event Bytes)) (k : ℕ) (v : ℤ)
      → v ≡ pos k
      → k ≤ length es
      → (is_empty (drop k es) && eqb_ℤ v (pos 0)) ≡ false
      → es ≢ []
  not_empty [] zero v e le h eq = ground arith
  not_empty [] (suc k) v e le h eq = omega arith
  not_empty (x ∷ es) k v e le h eq = cc

  load_from-Triple :
      (b : Wallet Bytes × ℤ)
      → IsBase b
      → Triple
          (λ t. t ≡ t₀)
          (load_from codec wallet_id b)
          (λ w t. (w ≡ account codec wallet_id t₀) × (history wallet_id t₀ ≢ []) × (t ≡ t₀))
          (λ t. t ≡ t₀)
  unfolding load_from
  load_from-Triple b from =
      Triple-bind _ _
        (load_events-Triple wallet_id t₀ from.k b.1 from.version (c.numbered wallet_id))
        (λ es.
          Triple-given _ (λ t p. p.0)
            (λ eq.
              Triple-bind _ _
                (Triple-weaken _ (λ t p. p.1) (λ _ t q. q) (λ t q. q) (Triple-raise_if _ _))
                (λ _. Triple-pure _ (λ t p. (
                  rw eq (rest-account b from),
                  not_empty (history wallet_id t₀) from.k b.1 from.version from.fits
                      (rw eq at (p.0)),
                  p.1,
                )))))

  -- From consistent tables, load (the snapshot, if it can be read, and the events after it) yields
  -- the wallet that replaying the whole history gives, for a wallet that has events, or fails; it
  -- writes nothing.
  pub load-Triple :
      Triple
        (λ t. t ≡ t₀)
        (load codec wallet_id)
        (λ w t. (w ≡ account codec wallet_id t₀) × (history wallet_id t₀ ≢ []) × (t ≡ t₀))
        (λ t. t ≡ t₀)
  unfolding load
  load-Triple =
      Triple-attempt _ (λ r. load_from codec wallet_id (base r)) (load_snapshot-Triple wallet_id t₀)
        (λ b.
          Triple-given _ (λ t p. p.0)
            (λ (row, found, e).
              Triple-weaken _ (λ t p. p.1) (λ w t q. q) (λ t q. q)
                (load_from-Triple b (rw e (row-IsBase row found)))))
        (λ e. load_from-Triple (zero_wallet, pos 0) zero-IsBase)
