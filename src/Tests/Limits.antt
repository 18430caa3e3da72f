-- ===== src/Tests/Limits.antt =====
-- The theorem on the gateway's limit at a concrete sequence of calls.
use go_fintech_microservices.Prelude.{
  ◌≡◌, refl, List, [], ◌∷◌, some, true, false, Instant, All, arith,
}
use go_fintech_microservices.Gateway.RateLimit.{Entry, PipelineOutcome, limit_calls}
use go_fintech_microservices.Gateway.RateLimit.Windows.{limit_calls-IsRefused}

-- A hundred calls were counted; a call comes every fifty seconds.
abbrev full : Entry
full = record { count = 100; expires_at = some 60000000000 }

abbrev done : PipelineOutcome
done = record { incremented = true; expiring = true; replied = true }

abbrev refused : PipelineOutcome
refused = record { incremented = false; expiring = false; replied = false }

abbrev halved : PipelineOutcome
halved = record { incremented = true; expiring = false; replied = true }

abbrev calls : List (Instant × PipelineOutcome)
calls =
    (50000000000, done)
    ∷ (100000000000, done)
    ∷ (150000000000, halved)
    ∷ (155000000000, refused)
    ∷ (156000000000, done)
    ∷ []

limit_calls-IsRefused_example :
    All (λ served. served ≡ false) (limit_calls "0000-0005" calls (some full))
limit_calls-IsRefused_example =
    limit_calls-IsRefused "0000-0005" calls full refl (omega arith)
      (refl, (refl, (refl, (refl, (refl, tt)))))
