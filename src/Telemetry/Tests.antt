-- ===== src/Telemetry/Tests.antt =====
-- The middleware and the set-up at concrete inputs.
use reddit_kafka.Base.{ℕ, ◌≡◌, refl, true, false, none, some, [], ◌∷◌, String, Bool}
use reddit_kafka.Errors.{Result, err, runtime_error}
use reddit_kafka.World.Memory.{rate_limits}
use reddit_kafka.Telemetry.Requests.{Request, Telemetry, observe_http_request}
use reddit_kafka.Telemetry.Observing.{
  entered, IsBalanced, IsIdentity, IsRoute, IsMeasured, IsPassedOn, observe_http_request_accounts,
}
use reddit_kafka.Telemetry.Setup.{
  Settings, Setup, console, foreign_handler, exporter, configure_observability,
  shutdown_observability, configure_runtime, configure_console_logging, drop_console, export_logs,
  shutdown_runtime, remove_handler,
}

abbrev post : Request
post = record { header = ""; path = "/streams"; http_method = "POST"; route_path = some "/streams" }

abbrev quiet : Telemetry
quiet = record { request_id = ""; increments = λ _. 3; decrements = λ _. 1; http_requests = [] }

-- a handler that raises
abbrev raising : Telemetry → Telemetry × Result rate_limits ℕ
raising t = (t, err runtime_error)

observe_http_request_accounts_example :
    (id route : String) × (measured : Bool) × IsIdentity "" "u1" id
    × IsRoute (some "/streams") route
    × IsMeasured "/streams" measured
    × let (t1, result) = raising (entered id measured post quiet) in
      let (t', answer) = observe_http_request "u1" raising post quiet in
      IsBalanced quiet t'
      × (t'.request_id ≡ "")
      × IsPassedOn "u1" post raising quiet id route measured t1 result t' answer
observe_http_request_accounts_example =
    observe_http_request_accounts "u1" post raising quiet (λ u k. refl)

abbrev exporting : Settings
exporting = record { has_endpoint = true; traces_enabled = true; logs_export_enabled = true }

abbrev fresh : Setup
fresh = record {
  handlers = foreign_handler ∷ [];
  runtime = none;
  traces_enabled = false;
  sqlalchemy_engines = [];
  instrumented = [];
  next = 0;
}

configured_twice :
    (configure_observability exporting (configure_observability exporting fresh)).handlers
    ≡ foreign_handler ∷ exporter 0 ∷ console ∷ []
unfolding configure_observability configure_runtime configure_console_logging drop_console
    export_logs
configured_twice = refl

shut_down_again :
    (shutdown_observability (configure_observability exporting fresh)).handlers
    ≡ foreign_handler ∷ console ∷ []
unfolding configure_observability configure_runtime configure_console_logging drop_console
    export_logs shutdown_observability shutdown_runtime remove_handler
shut_down_again = refl
