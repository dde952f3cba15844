-- ===== src/Worker/Deliveries.antt =====
-- The delivery futures of apps/reddit-kafka/src/stream/worker.py. A future is a number, in the
-- order of creation. What Kafka and the clock do while the worker waits is a list of rounds, one
-- for each pass of the loop in `_wait_for_delivery_batch`.
use reddit_kafka.Base.{
  ℕ, ◌==◌, Bool, true, false, Option, some, List, [], ◌∷◌, String, if◌then◌else◌, is_some,
}

-- The result of a future: `None`, or the error's text.
pub data Report : Type 0 where
  delivered : Report
  failed : String → Report

abbrev pub Futures : Type 0
Futures = ℕ → Option Report

-- The delivery reports of one pass: those that are in when the poll is over, and those that arrive
-- in the wait after it; whether the poll raises; and the time left then, 0 where the deadline is
-- past.
pub record Round : Type 0 where
  pub poll_raises : Bool
  pub polled : List (ℕ × Report)
  pub remaining : ℕ
  pub waited : List (ℕ × Report)

-- How the loop ends. It is `still_waiting` after the rounds that were given if none of them ends
-- it.
pub data Waited : Type 0 where
  all_arrived poll_failed timed_out still_waiting : Waited

-- What `_wait_for_delivery_batch` does: return, raise `KafkaDeliveryError`, or wait on.
pub data Batch : Type 0 where
  batch_delivered batch_failed batch_waiting : Batch

-- `_complete_delivery`: a future that is done keeps its result
unfoldable pub complete_delivery : ℕ → Report → Futures → Futures
complete_delivery d report fs e =
    if e == d then (if is_some (fs e) then fs e else some report) else fs e

unfoldable pub complete_all : List (ℕ × Report) → Futures → Futures
unfolding complete_delivery
complete_all [] fs = fs
complete_all ((d, report) ∷ rest) fs = complete_all rest (complete_delivery d report fs)

-- the deliveries that are not done
unfoldable pub undone : Futures → List ℕ → List ℕ
undone fs [] = []
undone fs (d ∷ ds) = let rest = undone fs ds in if is_some (fs d) then rest else d ∷ rest

abbrev pub is_nil : List ℕ → Bool
is_nil [] = true
is_nil (_ ∷ _) = false

unfoldable pub wait_loop : List Round → List ℕ → Futures → Futures × Waited
wait_loop [] pending fs = (fs, still_waiting)
wait_loop (r ∷ rounds) pending fs =
    let polled = complete_all r.polled fs in
    let left = undone polled pending in
    let waited = complete_all r.waited polled in
    let rest = wait_loop rounds (undone waited left) waited in
    if r.poll_raises
    then (fs, poll_failed)
    else if is_nil left
    then (polled, all_arrived)
    else if r.remaining == 0
    then (polled, timed_out)
    else if is_nil (undone waited left)
    then (waited, all_arrived)
    else rest

-- whether a result is an error
abbrev pub is_failure : Option Report → Bool
is_failure (some (failed _)) = true
is_failure _ = false

unfoldable pub any_failed : Futures → List ℕ → Bool
any_failed fs [] = false
any_failed fs (d ∷ ds) = let rest = any_failed fs ds in if is_failure (fs d) then true else rest

-- the end of `_wait_for_delivery_batch`, for the batch that it began with
unfoldable pub conclude : List ℕ → Futures × Waited → List ℕ × Futures × Batch
conclude batch (fs, all_arrived) =
    ([], fs, if any_failed fs batch then batch_failed else batch_delivered)
conclude batch (fs, still_waiting) = (batch, fs, batch_waiting)
conclude batch (fs, _) = ([], fs, batch_failed)

-- The pending deliveries and the futures after it, and how it ends.
unfoldable pub wait_for_delivery_batch : List Round → List ℕ → Futures → List ℕ × Futures × Batch
unfolding conclude
wait_for_delivery_batch rounds [] fs = ([], fs, batch_delivered)
wait_for_delivery_batch rounds (d ∷ ds) fs = conclude (d ∷ ds) (wait_loop rounds (d ∷ ds) fs)
