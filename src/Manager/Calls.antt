-- ===== src/Manager/Calls.antt =====
-- The calls of one manager, one after the other.
use reddit_kafka.Base.{ℕ, Bool, Option, List, [], ◌∷◌, String, Dict}
use reddit_kafka.Errors.{Foreign, Error}
use reddit_kafka.World.{Services}
use reddit_kafka.Manager.State.{Instance, Manager, Others}
use reddit_kafka.Manager.Starting.{Start, start_stream}
use reddit_kafka.Manager.Adopting.{Resume, Sweep, resume_stream, reconcile_once}
use reddit_kafka.Manager.Ending.{RunEnd, Drain, end_run, stop_stream, stop_all}

-- A call with all that it meets, the end of a run, or what others do to the world meanwhile.
pub data Call (S : Services) (f : Foreign) : Type 0 where
  starts : Start S f → String → Call S f
  resumes : Resume S f → Dict String → Call S f
  reconciles : (ℕ → Sweep S f) → Call S f
  run_ends : Bool → Option (Error f) → RunEnd f → String → String → Call S f
  stops : Drain S f → String → String → String → Call S f
  drains : (String → Drain S f) → Call S f
  others_act : Others S → Call S f

module _ {S : Services} {f : Foreign} (me : Instance) (from_iso : String → Option ℕ) where
  unfoldable pub step : Call S f → Manager S → Manager S
  unfolding start_stream resume_stream reconcile_once end_run stop_stream stop_all
  step (starts s subreddit) m = (start_stream me s subreddit m).0
  step (resumes r meta) m = (resume_stream me r meta m).0
  step (reconciles sweep) m = reconcile_once me from_iso sweep m
  step (run_ends inspect_raises watched end stream_id now) m =
      (end_run me inspect_raises watched end stream_id now m).0
  step (stops d stream_id now later) m = (stop_stream me d stream_id now later m).0
  step (drains drain) m = stop_all me drain m
  step (others_act others) m = record m { world = others m.world }

  unfoldable pub run_calls : List (Call S f) → Manager S → Manager S
  unfolding step
  run_calls [] m = m
  run_calls (c ∷ calls) m = run_calls calls (step c m)
