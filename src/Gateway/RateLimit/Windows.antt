-- ===== src/Gateway/RateLimit/Windows.antt =====
-- The window begins anew with each call, also with one that is refused.
use go_fintech_microservices.Prelude.{
  ◌≡◌, refl, ◌≤◌, ◌+◌, suc, ℕ, not, ltb, Bool, true, false, List, [], ◌∷◌, Option, some, String,
  Instant, All, str_eq, if◌then◌else◌, arith,
}
use go_fintech_microservices.Gateway.RateLimit.{
  rate_window, rate_max_calls, Entry, PipelineOutcome, is_live, increment, within, limit_calls,
}

-- The expiry of a live key after a call, and that each call finds the key live.
abbrev pub expiry_after : Instant → PipelineOutcome → Option Instant → Option Instant
expiry_after now o expires_at = if o.expiring then some (now + rate_window) else expires_at

abbrev pub IsSteady : Option Instant → List (Instant × PipelineOutcome) → Type 0
IsSteady expires_at [] = Unit
IsSteady expires_at ((now, o) ∷ calls) =
    (is_live now expires_at ≡ true) × IsSteady (expiry_after now o expires_at) calls

abbrev pipeline : Bool → Bool → Bool → PipelineOutcome
pipeline i x r = record { incremented = i; expiring = x; replied = r }

module _ (now : Instant) (e : Entry) (live : is_live now e.expires_at ≡ true) where
  abbrev left : PipelineOutcome → Entry
  left o = record {
    count = if o.incremented then suc e.count else e.count;
    expires_at = expiry_after now o e.expires_at;
  }

  increment-left :
      (i x r : Bool) → (increment now (pipeline i x r) (some e)).1 ≡ some (left (pipeline i x r))
  unfolding increment
  increment-left true true r = rw (live, live) refl
  increment-left true false r = rw live refl
  increment-left false true r = rw live refl
  increment-left false false r = refl

  past : (n : ℕ) → rate_max_calls ≤ n → not (ltb rate_max_calls (suc n)) ≡ false
  past n h = ground arith

  increment-refused :
      (i x r : Bool)
      → rate_max_calls ≤ e.count
      → within (increment now (pipeline i x r) (some e)).0 ≡ false
  unfolding increment
  increment-refused true true true full = rw live (past e.count full)
  increment-refused true true false full = refl
  increment-refused true false r full = refl
  increment-refused false x r full = refl

  left-le : (i : Bool) (n : ℕ) → n ≤ e.count → n ≤ (if i then suc e.count else e.count)
  left-le true n h = omega arith
  left-le false n h = h

-- Once a user's entry has counted a hundred calls, every later call of that user is refused, over
-- any length of time, as long as each call comes before the expiry that the calls before it have
-- set, whichever of the two commands of its pipeline run and whether Redis answers.
pub limit_calls-IsRefused :
    (user_id : String) (calls : List (Instant × PipelineOutcome)) (e : Entry)
    → str_eq user_id "" ≡ false
    → rate_max_calls ≤ e.count
    → IsSteady e.expires_at calls
    → All (λ served. served ≡ false) (limit_calls user_id calls (some e))
unfolding limit_calls
limit_calls-IsRefused user_id [] e named full steady = tt
limit_calls-IsRefused user_id ((now, o) ∷ calls) e named full steady =
    rw (named, increment-left now e steady.0 o.incremented o.expiring o.replied)
      (
        increment-refused now e steady.0 o.incremented o.expiring o.replied full,
        limit_calls-IsRefused user_id calls (left now e steady.0 o) named
            (left-le now e steady.0 o.incremented rate_max_calls full) steady.1,
      )
