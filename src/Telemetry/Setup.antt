-- ===== src/Telemetry/Setup.antt =====
-- `configure_observability` and `shutdown_observability`, with the handlers of the root logger, and
-- what depends on `_traces_enabled`. A handler is known by what made it: the console of this program,
-- an exporter, by the order of creation, or somebody else.
use reddit_kafka.Base.{
  ℕ, suc, ◌==◌, Bool, true, false, ◌&&◌, Option, none, some, List, [], ◌∷◌, ◌++◌, String,
  if◌then◌else◌,
}

pub data Handler : Type 0 where
  console foreign_handler : Handler
  exporter : ℕ → Handler

-- What `configure_observability` reads of the settings.
pub record Settings : Type 0 where
  pub has_endpoint : Bool
  pub traces_enabled : Bool
  pub logs_export_enabled : Bool

-- The handlers of the root logger; `_runtime`, by its handler of logs; `_traces_enabled`;
-- `_sqlalchemy_engines`; the engines that have got spans, one entry for each time; and how many
-- exporters have been created.
pub record Setup : Type 0 where
  pub handlers : List Handler
  pub runtime : Option (Option ℕ)
  pub traces_enabled : Bool
  pub sqlalchemy_engines : List ℕ
  pub instrumented : List ℕ
  pub next : ℕ

-- the handlers without those of the console
unfoldable pub drop_console : List Handler → List Handler
drop_console [] = []
drop_console (console ∷ hs) = drop_console hs
drop_console (foreign_handler ∷ hs) = foreign_handler ∷ drop_console hs
drop_console (exporter n ∷ hs) = exporter n ∷ drop_console hs

-- `removeHandler` of an exporter
unfoldable pub remove_handler : ℕ → List Handler → List Handler
remove_handler n [] = []
remove_handler n (console ∷ hs) = console ∷ remove_handler n hs
remove_handler n (foreign_handler ∷ hs) = foreign_handler ∷ remove_handler n hs
remove_handler n (exporter k ∷ hs) =
    let rest = remove_handler n hs in if k == n then hs else exporter k ∷ rest

-- `_configure_console_logging`
unfoldable pub configure_console_logging : Setup → Setup
unfolding drop_console
configure_console_logging s = record s { handlers = drop_console s.handlers ++ console ∷ [] }

-- the part of `configure_observability` that exports logs
unfoldable pub export_logs : Bool → Setup → Setup
export_logs false s = record s { runtime = some none }
export_logs true s = record s {
  handlers = s.handlers ++ exporter s.next ∷ [];
  runtime = some (some s.next);
  next = suc s.next;
}

-- `configure_observability` where there is a runtime or none
unfoldable pub configure_runtime : Settings → Option (Option ℕ) → Setup → Setup
unfolding export_logs
configure_runtime settings (some runtime) s = s
configure_runtime settings none s =
    export_logs (settings.has_endpoint && settings.logs_export_enabled)
      (record s { traces_enabled = settings.traces_enabled })

unfoldable pub configure_observability : Settings → Setup → Setup
unfolding configure_console_logging configure_runtime
configure_observability settings s =
    configure_runtime settings s.runtime (configure_console_logging s)

-- `shutdown_observability`, where the providers shut down without raising
unfoldable pub shutdown_runtime : Option (Option ℕ) → Setup → Setup
unfolding remove_handler
shutdown_runtime none s = s
shutdown_runtime (some none) s = record s { runtime = none; traces_enabled = false }
shutdown_runtime (some (some n)) s = record s {
  handlers = remove_handler n s.handlers;
  runtime = none;
  traces_enabled = false;
}

unfoldable pub shutdown_observability : Setup → Setup
unfolding shutdown_runtime
shutdown_observability s = shutdown_runtime s.runtime s

abbrev pub has_engine : ℕ → List ℕ → Bool
has_engine e [] = false
has_engine e (x ∷ xs) = if x == e then true else has_engine e xs

unfoldable pub instrument_sqlalchemy : ℕ → Setup → Setup
instrument_sqlalchemy engine s =
    if s.traces_enabled
    then (if has_engine engine s.sqlalchemy_engines then s else record s {
      sqlalchemy_engines = engine ∷ s.sqlalchemy_engines;
      instrumented = engine ∷ s.instrumented;
    })
    else s

-- `kafka_trace_headers`, where the propagator injects `carrier`
unfoldable pub kafka_trace_headers : List (String × String) → Setup → List (String × String)
kafka_trace_headers carrier s = if s.traces_enabled then carrier else []
