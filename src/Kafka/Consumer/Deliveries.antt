-- ===== src/Kafka/Consumer/Deliveries.antt =====
-- Which records reach the handler, and which of them are marked.
use go_fintech_microservices.Prelude.{◌≡◌, List, [], ◌∷◌, ◌++◌}
use go_fintech_microservices.Exec.{ok, err, Exec}
use go_fintech_microservices.Errors.{GoError}
use go_fintech_microservices.Kafka.{Record}
use go_fintech_microservices.Kafka.Consumer.{
  FetchedRecord, ClientCall, mark_commit_record, commit_marked_offsets, Consumer,
}

module _ {S Bytes : Type 0} (handler : Record Bytes → Exec S (Unit {0})) where
  -- From a state the handler takes the records of a fetch one by one to a further state; the ones
  -- that it accepts are marked.
  pub data Delivers : S → List (FetchedRecord Bytes) → List (ClientCall Bytes) → S → Type 0 where
    delivered : (s : S) → Delivers s [] [] s
    accepted :
        (s s₁ s' : S) (r : FetchedRecord Bytes) (records : List (FetchedRecord Bytes))
        (calls : List (ClientCall Bytes))
        → handler r.content s ≡ (ok tt, s₁)
        → Delivers s₁ records calls s'
        → Delivers s (r ∷ records) (mark_commit_record r ∷ calls) s'
    failed :
        (s s₁ s' : S) (r : FetchedRecord Bytes) (records : List (FetchedRecord Bytes))
        (calls : List (ClientCall Bytes)) (e : GoError)
        → handler r.content s ≡ (err e, s₁)
        → Delivers s₁ records calls s'
        → Delivers s (r ∷ records) calls s'

  -- Fetch after fetch, with one commit after the records of each.
  pub data DeliversAll
      : S → List (List (FetchedRecord Bytes)) → List (ClientCall Bytes) → S → Type 0 where
    ended : (s : S) → DeliversAll s [] [] s
    fetched :
        (s s₁ s' : S) (records : List (FetchedRecord Bytes))
        (fetches : List (List (FetchedRecord Bytes))) (marks calls : List (ClientCall Bytes))
        → Delivers s records marks s₁
        → DeliversAll s₁ fetches calls s'
        → DeliversAll s (records ∷ fetches) (marks ++ commit_marked_offsets ∷ calls) s'

  -- The calls that were added to those of before.
  record Adds (Way : List (ClientCall Bytes) → Type 0) (before after : List (ClientCall Bytes))
      : Type 0 where
    calls : List (ClientCall Bytes)
    way : Way calls
    added : after ≡ before ++ calls
