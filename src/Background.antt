-- ===== src/Background.antt =====
-- The tasks that run in the background of the application: `start` and `stop` of
-- apps/reddit-kafka/src/tasks/checkpoint_flusher.py and
-- apps/reddit-kafka/src/tasks/dead_stream_cleanup.py, and the reconciliation of
-- apps/reddit-kafka/src/stream/manager.py. A task is a number, in the order of creation.
pub mod Single
mod Tests
use reddit_kafka.Base.{
  ℕ, suc, ◌==◌, Bool, true, false, Option, none, some, List, [], ◌∷◌, if◌then◌else◌,
}

-- `_running`, `_task`, and the tasks that have not ended.
pub record Background : Type 0 where
  pub is_running : Bool
  pub task : Option ℕ
  pub live : List ℕ
  pub next : ℕ

abbrev pub remove : ℕ → List ℕ → List ℕ
remove t [] = []
remove t (u ∷ us) = let rest = remove t us in if u == t then rest else u ∷ rest

abbrev pub contains : ℕ → List ℕ → Bool
contains t [] = false
contains t (u ∷ us) = if u == t then true else contains t us

-- `asyncio.create_task` of the loop
abbrev pub create_task : Background → Background
create_task b = record b { task = some b.next; live = b.next ∷ b.live; next = suc b.next }

-- `CheckpointFlusher.start`
unfoldable pub start : Background → Background
start b = if b.is_running then b else record (create_task b) { is_running = true }

-- `CheckpointFlusher.stop`: `wait_for` returns when the task has ended, cancelled or not
unfoldable pub stop : Background → Background
stop b = elim b.task [
  | none ↦ record b { is_running = false }
  | some t ↦ record b { is_running = false; live = remove t b.live }
]

-- `DeadStreamCleanup.start` and `DeadStreamCleanup.stop`, which read the same
unfoldable pub start_cleanup : Background → Background
start_cleanup b = if b.is_running then b else record (create_task b) { is_running = true }

unfoldable pub stop_cleanup : Background → Background
stop_cleanup b = elim b.task [
  | none ↦ record b { is_running = false }
  | some t ↦ record b { is_running = false; live = remove t b.live }
]

-- `StreamManager.start_reconciliation`
unfoldable pub start_reconciliation : Background → Background
start_reconciliation b = elim b.task [
  | none ↦ create_task b
  | some t ↦ if contains t b.live then b else create_task b
]

-- `StreamManager.stop_reconciliation`
unfoldable pub stop_reconciliation : Background → Background
stop_reconciliation b = elim b.task [
  | none ↦ b
  | some t ↦ record b { task = none; live = remove t b.live }
]

-- A call, or the end of a task that is cancelled by others or that raises.
pub data ServiceCall : Type 0 where
  starts stops : ServiceCall
  ends : ℕ → ServiceCall

-- What a kind of background task does at each call.
unfoldable pub serve :
    (Background → Background) → (Background → Background) → ServiceCall → Background → Background
serve begin finish starts b = begin b
serve begin finish stops b = finish b
serve begin finish (ends t) b = record b { live = remove t b.live }

unfoldable pub run_service :
    (Background → Background)
    → (Background → Background)
    → List ServiceCall
    → Background
    → Background
unfolding serve
run_service begin finish [] b = b
run_service begin finish (c ∷ calls) b = run_service begin finish calls (serve begin finish c b)
