-- ===== src/Query/Service/Ledger/Redelivery.antt =====
-- A movement whose entry was refused, and its second delivery.
use go_fintech_microservices.Prelude.{
  ◌≡◌, refl, sym, ap, ◌∙◌, false, [], ◌∷◌, some, String, Uuid, Instant, any, eq_iff, ◌==◌,
}
use go_fintech_microservices.Prelude.Int.{ℤ, pos}
use go_fintech_microservices.Errors.{internal, wrap}
use go_fintech_microservices.Exec.{Result, ok, err, ◌>>◌}
use go_fintech_microservices.Db.{done, refused, driver_error, select, write}
use go_fintech_microservices.Db.Smooth.{
  smooth, Runs, Runs-bind, Runs-or_raise, Runs-select, Runs-write,
}
use go_fintech_microservices.Kafka.{Record, event_id_of}
use go_fintech_microservices.Query.Domain.{BalanceProjection}
use go_fintech_microservices.Query.Store.{
  QueryTables, QueryDb, row_at, wallet_of, event_of, merge_balance, put_balance, add_entry,
  is_recorded, record_event, find_balance, upsert_balance, append_statement, is_processed,
  mark_processed,
}
use go_fintech_microservices.Query.Service.{
  FundsMoved, QueryCodec, moved, entry_of, move_funds, dispatch, handle_unseen, handle_event,
  handle_funds_deposited, handle_funds_withdrawn,
}
use go_fintech_microservices.Query.Store.Rows.{
  add_entry-balances, record_event-balances, record_event-entries, put_balance-processed,
}
use go_fintech_microservices.Query.Service.Ledger.{IsBalanced, total, total_from, moved_row}
use go_fintech_microservices.Query.Service.Ledger.Movements.{counts_twice, Reads-Posts}
use go_fintech_microservices.Query.Service.Handling.{moves, Halved, moving}
use go_fintech_microservices.Query.Service.Handling.Dispatch.{Reads, deposited, withdrawn}

-- The schedule on which everything runs but the fourth statement.
abbrev pub fourth_refused : QueryTables → QueryDb
fourth_refused t = record { tables = t; faults = done ∷ done ∷ done ∷ refused ∷ [] }

module _ (now : Instant) (type : String) (change : ℤ → ℤ → ℤ) (p : FundsMoved) (t : QueryTables)
    (projection : BalanceProjection)
    (found : row_at wallet_of p.wallet_id t.balances ≡ some projection) where
  abbrev half : QueryTables
  half = put_balance (moved now change p projection) t

  move_funds-refused :
      move_funds now type change p (record { tables = t; faults = done ∷ done ∷ refused ∷ [] })
      ≡ (err (wrap internal "append statement" driver_error), smooth half)
  unfolding move_funds find_balance upsert_balance append_statement select write
  move_funds-refused = rw found refl

  move_funds-Runs : Runs (move_funds now type change p) t (ok tt) (add_entry (entry_of type p) half)
  unfolding move_funds find_balance upsert_balance append_statement
  move_funds-Runs =
      Runs-bind _ _ projection _ t t (add_entry (entry_of type p) half)
        (Runs-bind _ _ (row_at wallet_of p.wallet_id t.balances) _ t t t (Runs-select _ _ t)
          (Runs-or_raise _ _ _ t found))
        (Runs-bind _ _ tt _ t half (add_entry (entry_of type p) half)
          (Runs-write "upsert balance" (λ u. some (put_balance (moved now change p projection) u)) t
            half refl)
          (Runs-write "append statement" (λ u. some (add_entry (entry_of type p) u)) half
            (add_entry (entry_of type p) half) refl))

mark_processed-Runs :
    (id : Uuid) (t : QueryTables) → Runs (mark_processed id) t (ok tt) (record_event id t)
unfolding mark_processed
mark_processed-Runs id t =
    Runs-write "mark processed" (λ u. some (record_event id u)) t (record_event id t) refl

module _ {Bytes : Type 0} (codec : QueryCodec Bytes) (r : Record Bytes) where
  dispatch-moves :
      (now : Instant) (id : Uuid) (type : String) (change : ℤ → ℤ → ℤ) (p : FundsMoved)
      → Reads codec r (moves type change p)
      → dispatch codec now r id ≡ (move_funds now type change p >> mark_processed id)
  unfolding dispatch handle_funds_deposited handle_funds_withdrawn
  dispatch-moves now id _ _ _ (deposited p is payload) =
      rw ((eq_iff _ "FundsDeposited").0 is, payload) refl
  dispatch-moves now id _ _ _ (withdrawn p is payload) =
      rw ((eq_iff _ "FundsWithdrawn").0 is, payload) refl

  dispatched-Runs :
      (now : Instant) (id : Uuid)
      → codec.parse_uuid (event_id_of r) ≡ some id
      → (t t' : QueryTables) → is_recorded id t ≡ false
      → Runs (dispatch codec now r id) t (ok tt) t'
      → Runs (handle_event codec now r) t (ok tt) t'
  unfolding handle_event handle_unseen is_processed
  dispatched-Runs now id parsed t t' new h =
      rw (parsed, handle_event)
        (Runs-bind _ _ (is_recorded id t) _ t t t' (Runs-select _ _ t) (rw new h))

  module _ (now : Instant) (type : String) (change : ℤ → ℤ → ℤ) (p : FundsMoved)
      (reads : Reads codec r (moves type change p)) (id : Uuid)
      (parsed : codec.parse_uuid (event_id_of r) ≡ some id) (t : QueryTables)
      (new : is_recorded id t ≡ false) (projection : BalanceProjection)
      (found : row_at wallet_of p.wallet_id t.balances ≡ some projection) where
    handle_event-refused : handle_event codec now r (fourth_refused t) ≡ (
      err (wrap internal "append statement" driver_error),
      smooth (half now type change p t projection found),
    )
    unfolding handle_event handle_unseen is_processed select
    handle_event-refused =
        rw (parsed, handle_event)
          (rw (new, handle_unseen)
            (rw (dispatch-moves now id type change p reads)
              (rw (move_funds-refused now type change p t projection found) refl)))

    handle_event-Runs :
        Runs (handle_event codec now r) t (ok tt) (
          record_event id (add_entry (entry_of type p) (half now type change p t projection found)))
    handle_event-Runs =
        let t' = add_entry (entry_of type p) (half now type change p t projection found) in
        let t'' = record_event id t' in
        dispatched-Runs now id parsed t t'' new (
          rw (dispatch-moves now id type change p reads) (
            Runs-bind _ _ tt _ t t' t'' (move_funds-Runs now type change p t projection found)
              (mark_processed-Runs id t')))

  -- From tables whose balances are the totals of the statements, for a record that reads as a
  -- movement of a wallet that has a projection, whose event was not recorded and whose entry is
  -- not in a statement: where all statements of HandleEvent run but the fourth, which adds the
  -- entry and is refused, it returns that error; a second HandleEvent of the record, in the tables
  -- so left and while no statement fails, returns nil, and then the projected balance is the total
  -- of the statement with the amount applied once more.
  pub redelivery-counts_twice :
      (now later : Instant) (type : String) (change : ℤ → ℤ → ℤ) (p : FundsMoved) (id : Uuid)
      (t : QueryTables) (projection : BalanceProjection)
      → Reads codec r (moves type change p)
      → codec.parse_uuid (event_id_of r) ≡ some id
      → is_recorded id t ≡ false
      → row_at wallet_of p.wallet_id t.balances ≡ some projection
      → any (λ row. event_of row == p.event_id) t.entries ≡ false
      → IsBalanced t
      → let first = handle_event codec now r (fourth_refused t) in
        let second = handle_event codec later r (smooth first.1.tables) in
        (first.0 ≡ err (wrap internal "append statement" driver_error))
        × (second.0 ≡ ok tt)
        × (q : BalanceProjection) × (row_at wallet_of p.wallet_id second.1.tables.balances ≡ some q)
        × (q.balance_cents ≡ change (total p.wallet_id second.1.tables) p.amount_cents)
  redelivery-counts_twice now later type change p id t projection reads parsed new found absent
        inv =
      let t₁ = half now type change p t projection found in
      let once : Halved now t change p t₁ = record {
        projection = projection;
        found = found;
        tables = refl;
      } in
      let projection₁ = merge_balance (moved now change p projection) projection in
      let found₁ : row_at wallet_of p.wallet_id t₁.balances ≡ some projection₁ =
        moved_row now t change p t₁ once in
      let t₂ = half later type change p t₁ projection₁ found₁ in
      let twice : Halved later t₁ change p t₂ = record {
        projection = projection₁;
        found = found₁;
        tables = refl;
      } in
      let t₃ = add_entry (entry_of type p) t₂ in
      let t₄ = record_event id t₃ in
      let new₁ : is_recorded id t₁ ≡ false =
        ap (any (λ done. done == id)) (put_balance-processed (moved now change p projection) t)
        ∙ new in
      let first : handle_event codec now r (fourth_refused t)
          ≡ (err (wrap internal "append statement" driver_error), smooth t₁) =
        handle_event-refused now type change p reads id parsed t new projection found in
      let second : handle_event codec later r (smooth t₁) ≡ (ok tt, smooth t₄) =
        (handle_event-Runs later type change p reads id parsed t₁ new₁ projection₁ found₁).runs in
      let both : handle_event codec later r
            (smooth (handle_event codec now r (fourth_refused t)).1.tables)
          ≡ (ok tt, smooth t₄) =
        ap (λ (x : Result (Unit {0}) × QueryDb). handle_event codec later r (smooth x.1.tables))
          first
        ∙ second in
      let q = merge_balance (moved later change p projection₁) projection₁ in
      let row : row_at wallet_of p.wallet_id t₃.balances ≡ some q =
        ap (row_at wallet_of p.wallet_id) (add_entry-balances (entry_of type p) t₂)
        ∙ moved_row later t₁ change p t₂ twice in
      let counts : q.balance_cents ≡ change (total p.wallet_id t₃) p.amount_cents =
        counts_twice now later t t₁ t₃ type change p inv absent
          (Reads-Posts codec r now t (moves type change p) reads) once
          (moving type change p t₃ t₂ twice refl) q row in
      (
        ap (λ (x : Result (Unit {0}) × QueryDb). x.0) first,
        ap (λ (x : Result (Unit {0}) × QueryDb). x.0) both,
        q,
        ap (λ (x : Result (Unit {0}) × QueryDb). row_at wallet_of p.wallet_id x.1.tables.balances)
              both
            ∙ ap (row_at wallet_of p.wallet_id) (record_event-balances id t₃)
            ∙ row,
        counts
            ∙ ap (λ x. change x p.amount_cents)
                (sym (
                  ap (λ (x : Result (Unit {0}) × QueryDb). total p.wallet_id x.1.tables) both
                  ∙ ap (total_from (pos 0) p.wallet_id) (record_event-entries id t₃))),
      )
