-- ===== src/Wallet/Service/Changing.antt =====
-- `change` is one movement on the account, all or nothing.
pub mod Success
use go_fintech_microservices.Prelude.{
  suc, ◌-◌, ◌^◌, ◌<◌, ◌≡◌, ◌≢◌, ◌⊎◌, inl, inr, refl, ap, sym, ◌∙◌, [], ◌∷◌, ◌++◌, Uuid, length,
  length-append, arith,
}
use mathlib.Core.Path.{subst}
use go_fintech_microservices.Prelude.Int.{pos, +ℤ_parts}
use go_fintech_microservices.Prelude.Int64.{add64, add64_exact}
use go_fintech_microservices.Exec.{Result, ok, pure, ◌>>◌}
use go_fintech_microservices.Db.Laws.{
  Triple, Triple-bind, Triple-pure, Triple-lift, Triple-if, Triple-weaken, Triple-given,
}
use go_fintech_microservices.Wallet.Domain.{
  EventCodec, Event, Wallet, zero_wallet, clear_changes, replay_event, reconstitute, stored,
}
use go_fintech_microservices.Wallet.Domain.Replay.{
  IsMovement, IsStep, step-replay, reconstitute-append, reconstitute-changes, step-changes,
  clear-eq,
}
use go_fintech_microservices.Wallet.Store.{WalletTables, snapshot_of, wallet_of, append_events}
use go_fintech_microservices.Wallet.Store.Append.{extended, append_events-Triple}
use go_fintech_microservices.Wallet.Store.Snapshots.{save_snapshot-Triple}
use go_fintech_microservices.Wallet.Store.History.{history}
use go_fintech_microservices.Wallet.Store.Consistency.{
  account, account-id, account-version, IsConsistent,
}
use go_fintech_microservices.Wallet.Store.Preservation.{
  with_row, history-with_row_self, history-with_row_ne, movement-IsConsistent, with_snapshot,
  snapshot-IsConsistent,
}
use go_fintech_microservices.Wallet.Service.Loading.{load-Triple}
use go_fintech_microservices.Wallet.Service.{maybe_snapshot, change}

module _ {Bytes : Type 0} (codec : EventCodec Bytes) (wallet_id : Uuid)
    (t₀ : WalletTables Bytes) where
  -- From `t₀` to `t` the wallet's account has become `w`, by one more event; no other wallet, no
  -- outbox row and no processed event differs.
  pub record Changed (w : Wallet Bytes) (t : WalletTables Bytes) : Type 0 where
    pub consistent : IsConsistent codec t
    pub account_eq : account codec wallet_id t ≡ clear_changes w
    pub longer : length (history wallet_id t) ≡ suc (length (history wallet_id t₀))
    pub others : (other : Uuid) → other ≢ wallet_id → history other t ≡ history other t₀
    pub outbox : t.outbox ≡ t₀.outbox
    pub processed : t.processed ≡ t₀.processed

  module _ (c : IsConsistent codec t₀) (room : length (history wallet_id t₀) < 2 ^ 63 - 1)
      (exists : history wallet_id t₀ ≢ []) where
    abbrev before : Wallet Bytes
    before = account codec wallet_id t₀

    next_version : add64 before.version (pos 1) ≡ pos (suc (length (history wallet_id t₀)))
    next_version =
        let n = length (history wallet_id t₀) in
        rw (account-version codec wallet_id t₀ c)
          (ground (arith, add64_exact (pos n) (pos 1), +ℤ_parts (pos n) (pos 1)))

    clear-before : clear_changes before ≡ before
    clear-before =
        clear-eq codec before (reconstitute-changes codec (history wallet_id t₀) zero_wallet)

    module _ (w : Wallet Bytes) (s : IsStep codec before w) where
      abbrev row : Event Bytes
      row = stored codec s.event

      owner : wallet_id ≡ row.wallet_id
      owner = sym (s.owner ∙ account-id codec wallet_id t₀ c exists)

      row-IsMovement : IsMovement codec row
      row-IsMovement = record {
        id = λ v. rw (s.replays v) (s.moves.id v);
        user_id = λ v. rw (s.replays v) (s.moves.user_id v);
        currency = λ v. rw (s.replays v) (s.moves.currency v);
      }

      with_row-consistent : IsConsistent codec (with_row row t₀)
      with_row-consistent =
          movement-IsConsistent codec row t₀ c (subst (λ v. history v t₀ ≢ []) owner exists)
            (subst (λ v. row.version ≡ pos (suc (length (history v t₀)))) owner
              (s.next ∙ next_version))
            row-IsMovement

      history-row : history wallet_id (with_row row t₀) ≡ history wallet_id t₀ ++ row ∷ []
      history-row =
          subst (λ v. history v (with_row row t₀) ≡ history v t₀ ++ row ∷ []) (sym owner)
            (history-with_row_self row t₀)

      changes-eq : w.changes ≡ s.event ∷ []
      changes-eq =
          step-changes codec before w s
            (reconstitute-changes codec (history wallet_id t₀) zero_wallet)

      appended : extended codec w.changes t₀ ≡ with_row row t₀
      appended = ap (λ es. extended codec es t₀) changes-eq

      with_row-Changed : Changed w (with_row row t₀)
      unfolding reconstitute
      with_row-Changed = record {
        consistent = with_row-consistent;
        account_eq =
            ap (λ es. reconstitute codec es zero_wallet) history-row
            ∙ reconstitute-append codec (history wallet_id t₀) (row ∷ []) zero_wallet
            ∙ sym (step-replay codec before w s ∙ ap (λ v. replay_event codec v row) clear-before);
        longer =
            omega
              (arith, ap length history-row, length-append {0} (history wallet_id t₀) (row ∷ []));
        others = λ other ne. history-with_row_ne other row t₀ (λ e. ne (sym e ∙ sym owner));
        outbox = refl;
        processed = refl;
      }

  -- A snapshot of the changed wallet changes nothing that is read of the account.
  snapshot-Changed :
      (w : Wallet Bytes) (t : WalletTables Bytes)
      → w.id ≡ wallet_id
      → history wallet_id t₀ ≢ []
      → Changed w t
      → Changed w (with_snapshot codec (snapshot_of w) t)
  unfolding snapshot_of wallet_of clear_changes
  snapshot-Changed w t own exists ch = record {
    consistent =
        snapshot-IsConsistent codec (snapshot_of w) t ch.consistent
          (subst (λ v. history v t ≢ []) (sym own) (λ e. omega (arith, ap length e, ch.longer)))
          (subst (λ v. wallet_of (snapshot_of w) ≡ account codec v t) (sym own)
            (sym ch.account_eq));
    account_eq = ch.account_eq;
    longer = ch.longer;
    others = ch.others;
    outbox = ch.outbox;
    processed = ch.processed;
  }

  maybe_snapshot-Triple :
      (w : Wallet Bytes)
      → w.id ≡ wallet_id
      → history wallet_id t₀ ≢ []
      → Triple (Changed w) (maybe_snapshot w) (λ _ t. Changed w t) (Changed w)
  unfolding maybe_snapshot
  maybe_snapshot-Triple w own exists =
      Triple-if _ _ _ (λ _. save_snapshot-Triple w (λ t p. snapshot-Changed w t own exists p))
        (λ _. Triple-pure tt (λ t p. p))

  -- A failed change has left the tables as they were, or has taken place all the same (the reply to
  -- its commit was lost, or its snapshot was not saved).
  abbrev pub Failed : (Wallet Bytes → Result (Wallet Bytes)) → WalletTables Bytes → Type 0
  Failed method t =
      (t ≡ t₀) ⊎ ((w : Wallet Bytes) × (method (account codec wallet_id t₀) ≡ ok w) × Changed w t)

  -- What follows the method: the append, and the snapshot where one is due.
  commit-Triple :
      (method : Wallet Bytes → Result (Wallet Bytes)) (w : Wallet Bytes)
      → method (account codec wallet_id t₀) ≡ ok w
      → IsStep codec (account codec wallet_id t₀) w
      → IsConsistent codec t₀
      → length (history wallet_id t₀) < 2 ^ 63 - 1
      → history wallet_id t₀ ≢ []
      → Triple
          (λ t. t ≡ t₀)
          (do
            append_events codec wallet_id w.changes (account codec wallet_id t₀).version
            maybe_snapshot w
            pure w)
          (λ w' t. (method (account codec wallet_id t₀) ≡ ok w') × Changed w' t)
          (Failed method)
  commit-Triple method w result s c room exists =
      let start = λ (t : WalletTables Bytes). λ (e : t ≡ extended codec w.changes t₀).
        subst (Changed w) (sym (e ∙ appended c room exists w s))
          (with_row-Changed c room exists w s) in
      Triple-bind {R = λ _ t. Changed w t} _ _
        (Triple-weaken _ (λ t p. p) (λ _ t q. start t q.1)
          (λ t q. elim q [ inl same ↦ inl same | inr (_, e) ↦ inr (w, result, start t e) ])
          (append_events-Triple codec wallet_id w.changes _ t₀))
        (λ _.
          Triple-bind {R = λ _ t. Changed w t} _ _
            (Triple-weaken _ (λ t p. p) (λ _ t q. q) (λ t q. inr (w, result, q))
              (maybe_snapshot-Triple w (s.moved_id ∙ account-id codec wallet_id t₀ c exists)
                exists))
            (λ _. Triple-pure w (λ t p. (result, p))))

  pub change-Triple :
      (method : Wallet Bytes → Result (Wallet Bytes))
      → ((w w' : Wallet Bytes) → method w ≡ ok w' → IsStep codec w w')
      → IsConsistent codec t₀
      → length (history wallet_id t₀) < 2 ^ 63 - 1
      → Triple
          (λ t. t ≡ t₀)
          (change codec wallet_id method)
          (λ w t. (method (account codec wallet_id t₀) ≡ ok w) × Changed w t)
          (Failed method)
  unfolding change
  change-Triple method steps c room =
      Triple-bind _ _
        (Triple-weaken _ (λ t p. p) (λ _ t q. q) (λ t q. inl q) (load-Triple codec wallet_id t₀ c))
        (λ w.
          Triple-given {F = (w ≡ account codec wallet_id t₀) × (history wallet_id t₀ ≢ [])} _
            (λ t p. (p.0, p.1))
            (λ (loaded, exists).
              Triple-bind {R = λ w' t. (method w ≡ ok w') × (t ≡ t₀)} _ _
                (Triple-lift _ (λ w' t e p. (e, p.2)) (λ t p. inl p.2))
                (λ w'.
                  Triple-given {F = method w ≡ ok w'} _ (λ t p. p.0)
                    (λ result. rw loaded (
                      Triple-weaken _ (λ t p. p.1) (λ _ t q. q) (λ t q. q)
                        (commit-Triple method w' (rw loaded at result)
                          (steps _ w' (rw loaded at result)) c room exists))))))
