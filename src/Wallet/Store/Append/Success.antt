-- ===== src/Wallet/Store/Append/Success.antt =====
-- `AppendEvents` of the next event of a wallet, while no statement fails.
use go_fintech_microservices.Prelude.{
  ℕ, suc, ◌+◌, ◌≤◌, ◌<◌, ◌≡◌, refl, ap, sym, false, not, ◌==◌, List, [], ◌∷◌, none, some, filter,
  any, Uuid, inl, inr, length, Bool-cases, if◌then◌else◌, arith,
}
use go_fintech_microservices.Prelude.Int.{ℤ, pos, eqb_ℤ}
use go_fintech_microservices.Exec.{ok}
use go_fintech_microservices.Db.Smooth.{
  Runs, Runs-bind, Runs-pure, Runs-raise_if, Runs-select, Runs-write, Runs-transaction,
}
use go_fintech_microservices.Wallet.Domain.{EventCodec, Event}
use go_fintech_microservices.Wallet.Store.{
  WalletTables, of_wallet, clashes, current_version, insert_event, insert_events, append_body,
  append_events,
}
use go_fintech_microservices.Wallet.Store.History.{history, IsNumbered, max_version-IsNumbered}
use go_fintech_microservices.Wallet.Store.Append.{extended}

unequal_versions :
    (v v' : ℤ) (n m : ℕ) → v ≡ pos (suc m) → v' ≡ pos (suc n) → n < m → eqb_ℤ v v' ≡ false
unequal_versions v v' n m e e' lt = rw e (rw e' (ground arith))

module _ {Bytes : Type 0} where
  -- No event has the identifier.
  abbrev pub IsUnused : Uuid → WalletTables Bytes → Type 0
  IsUnused id t = any (λ (row : Event Bytes). id == row.id) t.events ≡ false

  no_clash :
      (e : Event Bytes) (rows : List (Event Bytes)) (n m : ℕ)
      → any (λ (row : Event Bytes). e.id == row.id) rows ≡ false
      → IsNumbered n (filter (of_wallet e.wallet_id) rows)
      → e.version ≡ pos (suc m)
      → n + length (filter (of_wallet e.wallet_id) rows) ≤ m
      → any (clashes e) rows ≡ false
  no_clash e [] n m unused h v le = refl
  no_clash e (row ∷ rows) n m unused h v le = elim (Bool-cases (row.wallet_id == e.wallet_id)) [
    | inl own ↦
        let f : filter (of_wallet e.wallet_id) (row ∷ rows)
            ≡ row ∷ filter (of_wallet e.wallet_id) rows =
          ground arith in
        let h' = rw f at h in
        let le' = rw f at le in
        let rest = no_clash e rows (suc n) m (ground arith) h'.1 v (omega arith) in
        let head = unequal_versions e.version row.version n m v h'.0 (omega arith) in ground arith
    | inr foreign ↦
        let f : filter (of_wallet e.wallet_id) (row ∷ rows) ≡ filter (of_wallet e.wallet_id) rows =
          ground arith in
        let rest = no_clash e rows n m (ground arith) (rw f at h) v (rw f at le) in ground arith
  ]

  module _ (codec : EventCodec Bytes) (e : Event Bytes) (t : WalletTables Bytes)
      (numbered : IsNumbered 0 (history e.wallet_id t))
      (next : e.version ≡ pos (suc (length (history e.wallet_id t))))
      (unused : IsUnused e.id t) where
    insert_event-extends : insert_event codec e t ≡ some (extended codec (e ∷ []) t)
    unfolding insert_event
    insert_event-extends =
        ap (λ b. if b then none else some (extended codec (e ∷ []) t))
          (no_clash e t.events 0 (length (history e.wallet_id t)) unused numbered next
            (omega arith))

    matches :
        not (eqb_ℤ (current_version e.wallet_id t) (pos (length (history e.wallet_id t)))) ≡ false
    unfolding current_version
    matches = rw (max_version-IsNumbered (history e.wallet_id t) numbered) (ground arith)

    append_events-Runs :
        Runs
          (append_events codec e.wallet_id (e ∷ []) (pos (length (history e.wallet_id t))))
          t
          (ok tt)
          (extended codec (e ∷ []) t)
    unfolding append_events append_body insert_events
    append_events-Runs =
        let t' = extended codec (e ∷ []) t in
        Runs-transaction _ _ _ t t' (
          Runs-bind _ _ (current_version e.wallet_id t) _ t t t' (Runs-select _ _ t) (
            Runs-bind _ _ tt _ t t t' (Runs-raise_if _ _ t matches) (
              Runs-bind _ _ tt _ t t' t' (Runs-write _ _ t t' insert_event-extends)
                (Runs-pure tt t'))))

    -- The next event of a wallet is added, where its identifier is unused.
    pub append_next-Runs :
        (wallet_id : Uuid) (es : List (Event Bytes)) (expected : ℤ)
        → e.wallet_id ≡ wallet_id
        → es ≡ e ∷ []
        → expected ≡ pos (length (history wallet_id t))
        → Runs (append_events codec wallet_id es expected) t (ok tt) (extended codec (e ∷ []) t)
    append_next-Runs wallet_id es expected own one v =
        rw one (rw v (rw (sym own) append_events-Runs))
