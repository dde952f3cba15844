-- ===== src/ErrorLog/Tests.antt =====
-- The errors of apps/reddit-kafka/src/stream/error_handler.py at a concrete state.
use reddit_kafka.Base.{◌+◌, ◌≡◌, true, min}
use reddit_kafka.World.{World}
use reddit_kafka.World.Memory.{memory, empty_world}
use reddit_kafka.ErrorLog.{record_error, get_error_count}
use reddit_kafka.ErrorLog.Bounds.{get_error_count-record_error}

abbrev recorded_world : World memory
recorded_world = record_error true "s1" "e1" "{boom}" "RuntimeError" "boom" true "t0" empty_world

get_error_count-record_error_example :
    get_error_count "s1" recorded_world ≡ min 100 (get_error_count "s1" empty_world + 1)
get_error_count-record_error_example =
    get_error_count-record_error true "s1" "e1" "{boom}" "RuntimeError" "boom" "t0" true empty_world
