-- ===== src/Gateway/RateLimit.antt =====
-- services/gateway/internal/middleware/ratelimit.go. The counter of one user in Redis is an entry
-- that expires; instants are in nanoseconds. The counts stay far below the largest `int64`.
pub mod Windows
use go_fintech_microservices.Prelude.{
  ℕ, zero, suc, ◌+◌, Bool, true, false, not, List, [], ◌∷◌, Option, none, some, String, Instant,
  ltb, ◌&&◌, str_eq, if◌then◌else◌,
}

abbrev pub rate_window : ℕ
rate_window = 60000000000

abbrev pub rate_max_calls : ℕ
rate_max_calls = 100

-- A key that has no expiry stays.
pub record Entry : Type 0 where
  pub count : ℕ
  pub expires_at : Option Instant

-- What becomes of a pipeline, which is no transaction: whether each of its commands ran, and
-- whether the replies came back.
pub record PipelineOutcome : Type 0 where
  pub incremented : Bool
  pub expiring : Bool
  pub replied : Bool

abbrev pub is_live : Instant → Option Instant → Bool
is_live now none = true
is_live now (some expires_at) = ltb now expires_at

-- What `INCR` leaves of a key: a key that has expired begins again, without an expiry.
abbrev pub after_incr : Instant → Option Entry → Entry
after_incr now none = record { count = 1; expires_at = none }
after_incr now (some e) =
    if is_live now e.expires_at
    then record e { count = suc e.count }
    else record { count = 1; expires_at = none }

-- What `EXPIRE` leaves: a key that is not there, or has expired, stays so.
abbrev pub after_expire : Instant → Option Entry → Option Entry
after_expire now none = none
after_expire now (some e) =
    if is_live now e.expires_at
    then some (record e { expires_at = some (now + rate_window) })
    else some e

-- `INCR` and `EXPIRE` in one pipeline: the count, or an error where a command or a reply failed.
unfoldable pub increment : Instant → PipelineOutcome → Option Entry → Option ℕ × Option Entry
increment now o entry =
    let counted = if o.incremented then some (after_incr now entry) else entry in
    let left = if o.expiring then after_expire now counted else counted in
    let answered = o.incremented && (o.expiring && o.replied) in
    (if answered then some (after_incr now entry).count else none, left)

abbrev within : Option ℕ → Bool
within none = false
within (some count) = not (ltb rate_max_calls count)

-- Whether the request is served, and the entry that it leaves.
unfoldable pub limit_call : String → Instant → PipelineOutcome → Option Entry → Bool × Option Entry
unfolding increment
limit_call user_id now outcome entry =
    if str_eq user_id ""
    then (true, entry)
    else let (count, entry') = increment now outcome entry in (within count, entry')

-- The answers to a sequence of calls of one user.
unfoldable pub limit_calls : String → List (Instant × PipelineOutcome) → Option Entry → List Bool
unfolding limit_call
limit_calls user_id [] entry = []
limit_calls user_id ((now, outcome) ∷ calls) entry =
    let (served, entry') = limit_call user_id now outcome entry in
    served ∷ limit_calls user_id calls entry'
