-- ===== src/Prelude/External.antt =====
-- Values of packages outside the repository. An identifier is only compared and copied, and an
-- instant only ordered and moved, so numbers stand for both; what `uuid.New` and `time.Now` return
-- enters a handler as an argument.
use Prim.Native.Nat.{ℕ}

-- `uuid.UUID`
abbrev pub Uuid : Type 0
Uuid = ℕ

-- `uuid.Nil`
abbrev pub nil_uuid : Uuid
nil_uuid = 0

-- `time.Time`
abbrev pub Instant : Type 0
Instant = ℕ

-- The zero `time.Time`.
abbrev pub zero_instant : Instant
zero_instant = 0

-- What `uuid.New()` and the `time.Now()` beside it return.
pub record Fresh : Type 0 where
  pub id : Uuid
  pub now : Instant
