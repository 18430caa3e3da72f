-- ===== src/Wallet/Store/Append.antt =====
-- `AppendEvents` is atomic and guarded by the version.
pub mod Success
use go_fintech_microservices.Prelude.{
  ◌≡◌, ◌⊎◌, inl, inr, false, not, List, [], ◌∷◌, ◌++◌, some, map, Uuid, arith, ◌∙◌, ap, sym,
}
use mathlib.Core.List.{append-nil, append_assoc}
use go_fintech_microservices.Prelude.Int.{ℤ, eqb_ℤ, eqb_ℤ_iff}
use go_fintech_microservices.Db.Laws.{
  Triple-raise_if, Triple, Triple-bind, Triple-pure, Triple-weaken, Triple-given,
}
use go_fintech_microservices.Db.Statements.{Triple-select, Triple-write, Triple-transaction}
use go_fintech_microservices.Wallet.Domain.{EventCodec, Event, stored}
use go_fintech_microservices.Wallet.Store.{
  WalletTables, current_version, insert_event, insert_events, append_body, append_events,
}

module _ {Bytes : Type 0} (codec : EventCodec Bytes) where
  -- The table with events added at its end.
  abbrev pub extended : List (Event Bytes) → WalletTables Bytes → WalletTables Bytes
  extended es t = record t { events = t.events ++ map (stored codec) es }

  insert_event-extended :
      (e : Event Bytes) (t t' : WalletTables Bytes)
      → insert_event codec e t ≡ some t'
      → t' ≡ extended (e ∷ []) t
  unfolding insert_event
  insert_event-extended e t t' h = ground arith

  extended-extended :
      (e : Event Bytes) (es : List (Event Bytes)) (t : WalletTables Bytes)
      → extended es (extended (e ∷ []) t) ≡ extended (e ∷ es) t
  extended-extended e es t = rw append_assoc

  insert_events-Triple :
      (es : List (Event Bytes)) (t₀ : WalletTables Bytes)
      → Triple (λ t. t ≡ t₀) (insert_events codec es) (λ _ t. t ≡ extended es t₀) (λ _. Unit)
  unfolding insert_events
  insert_events-Triple [] t₀ = Triple-pure tt (λ t p. rw append-nil p)
  insert_events-Triple (e ∷ es) t₀ =
      Triple-bind _ _
        (Triple-write {Q = λ _ t. t ≡ extended (e ∷ []) t₀} "append event" (insert_event codec e)
          (λ t t' p h. rw p at (insert_event-extended e t t' h)) (λ t t' p h. tt) (λ t p. tt))
        (λ _.
          Triple-weaken _ (λ t p. p) (λ _ t q. q ∙ extended-extended e es t₀) (λ t q. q)
            (insert_events-Triple es (extended (e ∷ []) t₀)))

  -- AppendEvents that returns nil found the stored version equal to the expected one and added
  -- exactly the events; one that fails left the tables, or, its commit's reply lost, did the same
  -- under the same condition.
  pub append_events-Triple :
      (wallet_id : Uuid) (es : List (Event Bytes)) (expected : ℤ) (t₀ : WalletTables Bytes)
      → Triple
          (λ t. t ≡ t₀)
          (append_events codec wallet_id es expected)
          (λ _ t. (current_version wallet_id t₀ ≡ expected) × (t ≡ extended es t₀))
          (λ t. (t ≡ t₀) ⊎ ((current_version wallet_id t₀ ≡ expected) × (t ≡ extended es t₀)))
  unfolding append_events append_body
  append_events-Triple wallet_id es expected t₀ =
      Triple-transaction "begin transaction" "commit transaction" _
        (Triple-bind _ _
          (Triple-select {Q = λ v t. (v ≡ current_version wallet_id t₀) × (t ≡ t₀)} _
            (current_version wallet_id) (λ t p. (ap (current_version wallet_id) p, p)) (λ t p. tt))
          (λ current.
            Triple-bind _ _
              (Triple-weaken _ (λ t p. p) (λ _ t q. q) (λ t q. tt)
                (Triple-raise_if (not (eqb_ℤ current expected)) _))
              (λ _.
                Triple-given _ (λ t p. same current p.0 p.1.0)
                  (λ (matches : current_version wallet_id t₀ ≡ expected).
                    Triple-weaken _ (λ t p. p.1.1) (λ _ t q. ((matches, q), inr (matches, q)))
                      (λ t q. q) (insert_events-Triple es t₀)))))
        (λ t p. inl p)
    where
      same :
          (current : ℤ)
          → not (eqb_ℤ current expected) ≡ false
          → current ≡ current_version wallet_id t₀
          → current_version wallet_id t₀ ≡ expected
      same current t e = sym e ∙ (eqb_ℤ_iff current expected).0 (ground arith)
