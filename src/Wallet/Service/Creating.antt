-- ===== src/Wallet/Service/Creating.antt =====
-- `CreateWallet` and `GetBalance`.
use go_fintech_microservices.Prelude.{
  ◌≡◌, ◌≢◌, ◌⊎◌, inl, inr, refl, ap, sym, ◌∙◌, [], ◌∷◌, ◌++◌, String, Uuid, Instant, Fresh, length,
  arith,
}
use mathlib.Core.Path.{subst}
use go_fintech_microservices.Prelude.Int.{pos}
use go_fintech_microservices.Exec.{ok}
use go_fintech_microservices.Db.Laws.{
  Triple, Triple-bind, Triple-pure, Triple-lift, Triple-weaken, Triple-given,
}
use go_fintech_microservices.Wallet.Domain
use go_fintech_microservices.Wallet.Domain.{
  EventCodec, Event, Wallet, zero_wallet, apply, apply_event, replay_event, clear_changes,
  reconstitute, stored,
}
use go_fintech_microservices.Wallet.Domain.Payloads.{IsEventCodec}
use go_fintech_microservices.Wallet.Store.{WalletTables, current_version}
use go_fintech_microservices.Wallet.Store.Append.{extended, append_events-Triple}
use go_fintech_microservices.Wallet.Store.History.{history, current_version-empty}
use go_fintech_microservices.Wallet.Store.Consistency.{account, IsConsistent}
use go_fintech_microservices.Wallet.Store.Preservation.{
  with_row, history-with_row_self, history-with_row_ne, creation-IsConsistent,
}
use go_fintech_microservices.Wallet.Service.Loading.{load-Triple}
use go_fintech_microservices.Wallet.Service.{create_wallet, get_balance}

module _ {Bytes : Type 0} (codec : EventCodec Bytes) (laws : IsEventCodec codec) where
  -- A wallet with nothing in it, of this owner and currency, that has its creation as first event.
  pub record IsNew (wallet_id user_id : Uuid) (currency : String) (w : Wallet Bytes) : Type 0 where
    pub id : w.id ≡ wallet_id
    pub owner : w.user_id ≡ user_id
    pub denomination : w.currency ≡ currency
    pub balance_cents : w.balance_cents ≡ pos 0
    pub reserved : w.reserved ≡ pos 0
    pub version : w.version ≡ pos 1

  module _ (fresh : Fresh) (wallet_id user_id : Uuid) (currency : String) where
    -- What `NewWallet` leaves: its one event, numbered 1, whose row replays to the new wallet.
    record Creation (w : Wallet Bytes) : Type 0 where
      event : Event Bytes
      changes : w.changes ≡ event ∷ []
      owner : event.wallet_id ≡ wallet_id
      numbered : event.version ≡ pos 1
      replayed : replay_event codec zero_wallet (stored codec event) ≡ clear_changes w
      is_new : IsNew wallet_id user_id currency w

    new_wallet-Creation :
        {w : Wallet Bytes}
        → Domain.new_wallet codec fresh wallet_id user_id currency ≡ ok w
        → Creation w
    unfolding Domain.new_wallet replay_event clear_changes
    new_wallet-Creation {w} h =
        let p : Domain.WalletCreatedPayload = record { user_id = user_id; currency = currency } in
        record {
          event = record {
            id = fresh.id;
            wallet_id = wallet_id;
            type = Domain.wallet_created;
            payload = codec.created.marshal p;
            version = pos 1;
            occured_at = fresh.now;
          };
          changes = ground arith;
          owner = refl;
          numbered = refl;
          replayed = ground (arith, laws.created.direct p, laws.created.stored p);
          is_new = ground (arith, laws.created.direct p);
        }

    module _ (t₀ : WalletTables Bytes) (c : IsConsistent codec t₀) where
      -- From `t₀` to `t` the wallet has come into being, with nothing in it.
      pub record Created (t : WalletTables Bytes) : Type 0 where
        pub consistent : IsConsistent codec t
        pub was_absent : history wallet_id t₀ ≡ []
        pub longer : length (history wallet_id t) ≡ 1
        pub is_new : IsNew wallet_id user_id currency (account codec wallet_id t)
        pub others : (other : Uuid) → other ≢ wallet_id → history other t ≡ history other t₀
        pub outbox : t.outbox ≡ t₀.outbox
        pub processed : t.processed ≡ t₀.processed

      module _ (w : Wallet Bytes) (k : Creation w) (absent : history wallet_id t₀ ≡ []) where
        abbrev row : Event Bytes
        row = stored codec k.event

        owned : wallet_id ≡ row.wallet_id
        owned = sym k.owner

        history-row : history wallet_id (with_row row t₀) ≡ row ∷ []
        history-row =
            subst (λ v. history v (with_row row t₀) ≡ history v t₀ ++ row ∷ []) (sym owned)
              (history-with_row_self row t₀)
            ∙ ap (λ es. es ++ row ∷ []) absent

        new_account : account codec wallet_id (with_row row t₀) ≡ clear_changes w
        unfolding reconstitute
        new_account = ap (λ es. reconstitute codec es zero_wallet) history-row ∙ k.replayed

        with_row-Created : Created (with_row row t₀)
        unfolding clear_changes replay_event
        with_row-Created = record {
          consistent =
              creation-IsConsistent codec row t₀ c (subst (λ v. history v t₀ ≡ []) owned absent)
                k.numbered (ap (λ (v : Wallet Bytes). v.id) k.replayed ∙ k.is_new.id ∙ owned);
          was_absent = absent;
          longer = ap length history-row;
          is_new = subst (IsNew wallet_id user_id currency) (sym new_account) (record {
            id = k.is_new.id;
            owner = k.is_new.owner;
            denomination = k.is_new.denomination;
            balance_cents = k.is_new.balance_cents;
            reserved = k.is_new.reserved;
            version = k.is_new.version;
          });
          others = λ other ne. history-with_row_ne other row t₀ (λ e. ne (sym e ∙ sym owned));
          outbox = refl;
          processed = refl;
        }

      -- With payloads that JSON reads back as written: from consistent tables, a CreateWallet that
      -- returns a reply brought a wallet with that identifier, owner and currency, a zero balance,
      -- no reservation and version 1 into being, where no event had its identifier; one that fails
      -- left the tables or did the same.
      pub create_wallet-Triple :
          (later : Instant)
          → Triple
              (λ t. t ≡ t₀)
              (create_wallet codec fresh wallet_id later user_id currency)
              (λ r t. (r.wallet_id ≡ wallet_id) × Created t)
              (λ t. (t ≡ t₀) ⊎ Created t)
      unfolding create_wallet
      create_wallet-Triple later =
          Triple-bind {R = λ w t. Creation w × (t ≡ t₀)} _ _
            (Triple-lift _ (λ w t e p. (new_wallet-Creation e, p)) (λ t p. inl p))
            (λ w.
              Triple-given {F = Creation w} _ (λ t p. p.0)
                (λ k.
                  let made = λ (t : WalletTables Bytes). λ (v : current_version w.id t₀ ≡ pos 0).
                    λ (e : t ≡ extended codec w.changes t₀).
                      let absent : history wallet_id t₀ ≡ [] =
                        current_version-empty wallet_id t₀ (c.numbered wallet_id)
                          (subst (λ u. current_version u t₀ ≡ pos 0) k.is_new.id v) in
                      subst Created (sym (e ∙ ap (λ es. extended codec es t₀) k.changes))
                        (with_row-Created w k absent) in
                  Triple-bind {R = λ _ t. Created t} _ _
                    (Triple-weaken _ (λ t p. p.1) (λ _ t q. made t q.0 q.1)
                      (λ t q. elim q [ inl same ↦ inl same | inr (v, e) ↦ inr (made t v e) ])
                      (append_events-Triple codec w.id w.changes (pos 0) t₀))
                    (λ _. Triple-pure _ (λ t p. (k.is_new.id, p)))))

  -- With payloads that JSON reads back as written: from consistent tables, a GetBalance that
  -- returns a reply reports the identifier, balance, currency and version of the replayed account,
  -- and it writes nothing.
  pub get_balance-Triple :
      (wallet_id : Uuid) (t₀ : WalletTables Bytes)
      → IsConsistent codec t₀
      → let before = account codec wallet_id t₀ in
        Triple
          (λ t. t ≡ t₀)
          (get_balance codec wallet_id)
          (λ r t.
            (r.wallet_id ≡ before.id)
            × (r.balance_cents ≡ before.balance_cents)
            × (r.currency ≡ before.currency)
            × (r.version ≡ before.version)
            × (t ≡ t₀))
          (λ t. t ≡ t₀)
  unfolding get_balance
  get_balance-Triple wallet_id t₀ c = Triple-bind _ _ (load-Triple codec wallet_id t₀ c) (λ w.
      Triple-pure _ (λ t (e, _, p). (
        ap (λ (v : Wallet Bytes). v.id) e,
        ap (λ (v : Wallet Bytes). v.balance_cents) e,
        ap (λ (v : Wallet Bytes). v.currency) e,
        ap (λ (v : Wallet Bytes). v.version) e,
        p,
      )))
