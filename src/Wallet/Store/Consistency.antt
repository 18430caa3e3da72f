-- ===== src/Wallet/Store/Consistency.antt =====
-- The invariant of the wallet's tables: each wallet's events are numbered from 1 and begin with its
-- creation, and each snapshot is the replay of a prefix of them.
use go_fintech_microservices.Prelude.{
  ℕ, zero, suc, ◌+◌, ◌<◌, ◌≡◌, ◌≢◌, refl, sym, ◌∙◌, List, [], ◌∷◌, ◌++◌, some, Uuid, length, All,
  All-append, take, arith,
}
use go_fintech_microservices.Prelude.Int.{pos}
use go_fintech_microservices.Wallet.Domain.{
  EventCodec, Event, Wallet, zero_wallet, apply_event, replay_event, reconstitute,
}
use go_fintech_microservices.Wallet.Domain.Replay.{IsMovement}
use go_fintech_microservices.Wallet.Store.{WalletTables, SnapshotRow, find_snapshot, wallet_of}
use go_fintech_microservices.Wallet.Store.History.{history, IsNumbered}

module _ {Bytes : Type 0} (codec : EventCodec Bytes) where
  -- The wallet that the whole history replays to.
  abbrev pub account : Uuid → WalletTables Bytes → Wallet Bytes
  account wallet_id t = reconstitute codec (history wallet_id t) zero_wallet

  -- A creation of the wallet, then movements of funds.
  abbrev pub IsOpened : Uuid → List (Event Bytes) → Type 0
  IsOpened wallet_id [] = Unit
  IsOpened wallet_id (e ∷ es) =
      ((apply_event codec e zero_wallet).id ≡ wallet_id) × All (IsMovement codec) es

  -- The row is the replay of the first `k + 1` of the events.
  abbrev pub IsSnapshot : List (Event Bytes) → SnapshotRow → Type 0
  IsSnapshot es row =
      (k : ℕ) × (k < length es) × (wallet_of row ≡ reconstitute codec (take (suc k) es) zero_wallet)

  pub record IsConsistent (t : WalletTables Bytes) : Type 0 where
    pub numbered : (wallet_id : Uuid) → IsNumbered 0 (history wallet_id t)
    pub opened : (wallet_id : Uuid) → IsOpened wallet_id (history wallet_id t)
    pub snapped :
        (wallet_id : Uuid) (row : SnapshotRow)
        → find_snapshot wallet_id t.snapshots ≡ some row
        → IsSnapshot (history wallet_id t) row

  pub record SameOwner (v w : Wallet Bytes) : Type 0 where
    pub id : w.id ≡ v.id
    pub user_id : w.user_id ≡ v.user_id
    pub currency : w.currency ≡ v.currency

  reconstitute-SameOwner :
      (es : List (Event Bytes)) (w : Wallet Bytes)
      → All (IsMovement codec) es
      → SameOwner w (reconstitute codec es w)
  unfolding reconstitute replay_event
  reconstitute-SameOwner [] w h = record { id = refl; user_id = refl; currency = refl }
  reconstitute-SameOwner (e ∷ es) w h =
      let s = reconstitute-SameOwner es (replay_event codec w e) h.1 in
      record {
        id = s.id ∙ h.0.id w;
        user_id = s.user_id ∙ h.0.user_id w;
        currency = s.currency ∙ h.0.currency w;
      }

  All-take :
      (k : ℕ) (es : List (Event Bytes))
      → All (IsMovement codec) es
      → All (IsMovement codec) (take k es)
  All-take zero es h = tt
  All-take (suc k) [] h = tt
  All-take (suc k) (e ∷ es) h = (h.0, All-take k es h.1)

  -- All the replays of an opened history have one owner.
  pub prefix-SameOwner :
      (wallet_id : Uuid) (k : ℕ) (es : List (Event Bytes))
      → IsOpened wallet_id es
      → k < length es
      → SameOwner
          (reconstitute codec (take (suc k) es) zero_wallet)
          (reconstitute codec es zero_wallet)
  unfolding reconstitute
  prefix-SameOwner wallet_id k [] h lt = absurd (omega arith)
  prefix-SameOwner wallet_id k (e ∷ es) h lt =
      let first = replay_event codec zero_wallet e in
      let s = reconstitute-SameOwner es first h.1 in
      let r = reconstitute-SameOwner (take k es) first (All-take k es h.1) in
      record {
        id = s.id ∙ sym r.id;
        user_id = s.user_id ∙ sym r.user_id;
        currency = s.currency ∙ sym r.currency;
      }

  opened-id :
      (wallet_id : Uuid) (es : List (Event Bytes))
      → IsOpened wallet_id es
      → es ≢ []
      → (reconstitute codec es zero_wallet).id ≡ wallet_id
  unfolding reconstitute replay_event
  opened-id wallet_id [] h ne = absurd (ne refl)
  opened-id wallet_id (e ∷ es) h ne =
      (reconstitute-SameOwner es (replay_event codec zero_wallet e) h.1).id ∙ h.0

  -- The account of a wallet that exists bears its identifier.
  pub account-id :
      (wallet_id : Uuid) (t : WalletTables Bytes)
      → IsConsistent t
      → history wallet_id t ≢ []
      → (account wallet_id t).id ≡ wallet_id
  account-id wallet_id t c ne = opened-id wallet_id (history wallet_id t) (c.opened wallet_id) ne

  pub reconstitute-version :
      (n : ℕ) (es : List (Event Bytes)) (w : Wallet Bytes)
      → IsNumbered n es
      → w.version ≡ pos n
      → (reconstitute codec es w).version ≡ pos (n + length es)
  unfolding reconstitute replay_event
  reconstitute-version n [] w h v = rw v (ground arith)
  reconstitute-version n (e ∷ es) w h v =
      reconstitute-version (suc n) es (replay_event codec w e) h.1 h.0 ∙ ground arith

  -- Its version is the number of its events.
  pub account-version :
      (wallet_id : Uuid) (t : WalletTables Bytes)
      → IsConsistent t
      → (account wallet_id t).version ≡ pos (length (history wallet_id t))
  account-version wallet_id t c =
      reconstitute-version 0 (history wallet_id t) zero_wallet (c.numbered wallet_id) refl
      ∙ ground arith

  IsOpened-append :
      (wallet_id : Uuid) (es : List (Event Bytes)) (e : Event Bytes)
      → IsOpened wallet_id es
      → es ≢ []
      → IsMovement codec e
      → IsOpened wallet_id (es ++ e ∷ [])
  IsOpened-append wallet_id [] e h ne m = absurd (ne refl)
  IsOpened-append wallet_id (x ∷ es) e h ne m =
      (h.0, All-append (IsMovement codec) es (e ∷ []) h.1 (m, tt))
