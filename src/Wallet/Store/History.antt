-- ===== src/Wallet/Store/History.antt =====
-- The events of one wallet in the table, and what `LoadEvents` reads of them.
use go_fintech_microservices.Prelude.{
  ℕ, zero, suc, Bool, ◌+◌, ◌≤◌, ◌≡◌, refl, ap, sym, ◌∙◌, List, [], ◌∷◌, ◌++◌, Uuid, length, take,
  drop, filter, filter-filter, arith,
}
use native.Mathlib.Nat.{add-zero}
use go_fintech_microservices.Prelude.Int.{ℤ, pos, ltb_ℤ}
use go_fintech_microservices.Wallet.Domain.{Event}
use go_fintech_microservices.Wallet.Store.{
  WalletTables, of_wallet, max_from, max_version, current_version, order_by_version, events_after,
}

module _ {Bytes : Type 0} where
  -- The events of a wallet, in the order of their insertion.
  abbrev pub history : Uuid → WalletTables Bytes → List (Event Bytes)
  history wallet_id t = filter (of_wallet wallet_id) t.events

  -- The versions count up from the one after `n`.
  abbrev pub IsNumbered : ℕ → List (Event Bytes) → Type 0
  IsNumbered n [] = Unit
  IsNumbered n (e ∷ es) = (e.version ≡ pos (suc n)) × IsNumbered (suc n) es

  pub IsNumbered-append :
      (n : ℕ) (es : List (Event Bytes)) (e : Event Bytes)
      → IsNumbered n es
      → e.version ≡ pos (suc (n + length es))
      → IsNumbered n (es ++ e ∷ [])
  IsNumbered-append n [] e h v = (rw v (ground arith), tt)
  IsNumbered-append n (x ∷ es) e h v =
      (h.0, IsNumbered-append (suc n) es e h.1 (rw v (ground arith)))

  pub IsNumbered-take :
      (n k : ℕ) (es : List (Event Bytes)) → IsNumbered n es → IsNumbered n (take k es)
  IsNumbered-take n zero es h = tt
  IsNumbered-take n (suc k) [] h = tt
  IsNumbered-take n (suc k) (e ∷ es) h = (h.0, IsNumbered-take (suc n) k es h.1)

  max_from-IsNumbered :
      (n : ℕ) (es : List (Event Bytes))
      → IsNumbered n es
      → max_from (pos n) es ≡ pos (n + length es)
  unfolding max_from
  max_from-IsNumbered n [] h = ground arith
  max_from-IsNumbered n (e ∷ es) h = rw h.0 (ground (arith, max_from-IsNumbered (suc n) es h.1))

  pub max_version-IsNumbered :
      (es : List (Event Bytes)) → IsNumbered 0 es → max_version es ≡ pos (length es)
  unfolding max_version
  max_version-IsNumbered [] h = refl
  max_version-IsNumbered (e ∷ es) h = rw h.0 (rw (max_from-IsNumbered 1 es h.1) (ground arith))

  abbrev after : ℤ → Event Bytes → Bool
  after v e = ltb_ℤ v e.version

  filter-none :
      (n k : ℕ) (es : List (Event Bytes)) → IsNumbered n es → k ≤ n → filter (after (pos k)) es ≡ es
  filter-none n k [] h le = refl
  filter-none n k (e ∷ es) h le = ground (arith, filter-none (suc n) k es h.1)

  filter-drop :
      (n k m : ℕ) (es : List (Event Bytes))
      → IsNumbered n es
      → m ≡ n + k
      → filter (after (pos m)) es ≡ drop k es
  filter-drop n zero m es h eq = filter-none n m es h (omega arith)
  filter-drop n (suc k) m [] h eq = refl
  filter-drop n (suc k) m (e ∷ es) h eq = ground (arith, filter-drop (suc n) k m es h.1)

  drop-IsNumbered :
      (n k : ℕ) (es : List (Event Bytes)) → IsNumbered n es → IsNumbered (n + k) (drop k es)
  drop-IsNumbered n zero es h = rw add-zero h
  drop-IsNumbered n (suc k) [] h = tt
  drop-IsNumbered n (suc k) (e ∷ es) h =
      let e : n + suc k ≡ suc n + k = omega arith in rw e (drop-IsNumbered (suc n) k es h.1)

  -- Rows that stand in order stay so.
  order-IsNumbered : (n : ℕ) (es : List (Event Bytes)) → IsNumbered n es → order_by_version es ≡ es
  unfolding order_by_version
  order-IsNumbered n [] h = refl
  order-IsNumbered n (e ∷ []) h = refl
  order-IsNumbered n (e ∷ f ∷ es) h = rw (order-IsNumbered (suc n) (f ∷ es) h.1) (ground (arith, h))

  pub events_after-drop :
      (wallet_id : Uuid) (k : ℕ) (t : WalletTables Bytes)
      → IsNumbered 0 (history wallet_id t)
      → events_after wallet_id (pos k) t ≡ drop k (history wallet_id t)
  unfolding events_after
  events_after-drop wallet_id k t h =
      ap order_by_version (
        filter-filter (of_wallet wallet_id) (after (pos k)) t.events
        ∙ filter-drop 0 k k (history wallet_id t) h (omega arith))
      ∙ order-IsNumbered (0 + k) (drop k (history wallet_id t))
          (drop-IsNumbered 0 k (history wallet_id t) h)

  -- A wallet at version 0 has no events.
  pub current_version-empty :
      (wallet_id : Uuid) (t : WalletTables Bytes)
      → IsNumbered 0 (history wallet_id t)
      → current_version wallet_id t ≡ pos 0
      → history wallet_id t ≡ []
  unfolding current_version
  current_version-empty wallet_id t n e =
      length-nil (history wallet_id t)
        (pos-inj (sym (max_version-IsNumbered (history wallet_id t) n) ∙ e))
    where
      pos-inj : {a : ℕ} → pos a ≡ pos 0 → a ≡ 0
      pos-inj h = cc

      length-nil : (es : List (Event Bytes)) → length es ≡ 0 → es ≡ []
      length-nil [] h = refl
      length-nil (x ∷ es) h = absurd (omega arith)
