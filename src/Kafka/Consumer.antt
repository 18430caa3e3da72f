-- ===== src/Kafka/Consumer.antt =====
-- pkg/kafka/consumer.go: the records of each fetch, the handler, and the calls of the client by
-- which a record is marked and the marks are committed. What the client does on these calls is its
-- own (github.com/twmb/franz-go), so they are kept in their order.
pub mod Deliveries
use go_fintech_microservices.Prelude.{ℕ, List, [], ◌∷◌, ◌++◌}
use go_fintech_microservices.Exec.{Result, ok, err, Exec}
use go_fintech_microservices.Kafka.{Record}

-- A record as it was fetched from a partition of the topic.
pub record FetchedRecord (Bytes : Type 0) : Type 0 where
  pub partition : ℕ
  pub offset : ℕ
  pub content : Record Bytes

-- `MarkCommitRecords` of one record, and `CommitMarkedOffsets`, whose error is logged.
pub data ClientCall (Bytes : Type 0) : Type 0 where
  mark_commit_record : FetchedRecord Bytes → ClientCall Bytes
  commit_marked_offsets : ClientCall Bytes

-- What the handler keeps, and the calls that were made of the client.
pub record Consumer (S Bytes : Type 0) : Type 0 where
  pub state : S
  pub calls : List (ClientCall Bytes)

module _ {S Bytes : Type 0} (handler : Record Bytes → Exec S (Unit {0})) where
  -- What follows the handler: an error is logged, and the record is left without a mark.
  abbrev pub calls_after : FetchedRecord Bytes → Result (Unit {0}) → List (ClientCall Bytes)
  calls_after r (ok done) = mark_commit_record r ∷ []
  calls_after r (err e) = []

  -- The function that `EachRecord` calls.
  unfoldable pub consume_record : FetchedRecord Bytes → Consumer S Bytes → Consumer S Bytes
  consume_record r c =
      let (result, state) = handler r.content c.state in
      record { state = state; calls = c.calls ++ calls_after r result }

  unfoldable pub each_record : List (FetchedRecord Bytes) → Consumer S Bytes → Consumer S Bytes
  unfolding consume_record
  each_record [] c = c
  each_record (r ∷ records) c = each_record records (consume_record r c)

  -- An iteration of `Run`.
  unfoldable pub poll : List (FetchedRecord Bytes) → Consumer S Bytes → Consumer S Bytes
  unfolding each_record
  poll records c =
      let c' = each_record records c in record c' { calls = c'.calls ++ commit_marked_offsets ∷ [] }

  -- `Run`, for the fetches until its context ends.
  unfoldable pub run : List (List (FetchedRecord Bytes)) → Consumer S Bytes → Consumer S Bytes
  unfolding poll
  run [] c = c
  run (records ∷ fetches) c = run fetches (poll records c)
