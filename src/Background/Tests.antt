-- ===== src/Background/Tests.antt =====
-- Background tasks at a concrete sequence of calls.
use reddit_kafka.Base.{◌≡◌, false, none, List, [], ◌∷◌, inl, refl}
use reddit_kafka.Background.{
  Background, start, stop, start_cleanup, stop_cleanup, start_reconciliation, stop_reconciliation,
  ServiceCall, starts, stops, ends, run_service,
}
use reddit_kafka.Background.Single.{IsLast, run_service-IsLast}

abbrev created : Background
created = record { is_running = false; task = none; live = []; next = 0 }

-- a second start is refused, and a task that has been stopped is started again and ends
abbrev calls : List ServiceCall
calls = starts ∷ starts ∷ stops ∷ starts ∷ ends 1 ∷ starts ∷ []

run_service-IsLast_example :
    let flusher = run_service start stop calls created in
    let cleaner = run_service start_cleanup stop_cleanup calls created in
    let reconciler = run_service start_reconciliation stop_reconciliation calls created in
    (IsLast flusher × ((stop flusher).live ≡ []))
    × (IsLast cleaner × ((stop_cleanup cleaner).live ≡ []))
    × (IsLast reconciler × ((stop_reconciliation reconciler).live ≡ []))
run_service-IsLast_example = run_service-IsLast calls created (inl refl)
