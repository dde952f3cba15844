-- ===== src/Telemetry/Tidying.antt =====
-- The set-up after any calls.
use reddit_kafka.Base.{
  ◌≡◌, ◌≤◌, refl, sym, ap, ◌∙◌, ℕ, Bool, true, false, ◌&&◌, Option, none, some, List, [], ◌∷◌, ◌++◌,
  arith, if◌then◌else◌,
}
use reddit_kafka.Telemetry.Setup.{
  exporter, Settings, Setup, configure_console_logging, export_logs, configure_runtime,
  configure_observability, shutdown_runtime, shutdown_observability, has_engine,
  instrument_sqlalchemy,
}
use reddit_kafka.Telemetry.Handlers.{
  consoles, exporters, consoles-append, exporters-append, remove_handler_lem,
  configure_console_logging_lem,
}

-- the exporter of a runtime
abbrev pub exporter_of : Option (Option ℕ) → List ℕ
exporter_of none = []
exporter_of (some none) = []
exporter_of (some (some n)) = n ∷ []

abbrev pub is_distinct : List ℕ → Bool
is_distinct [] = true
is_distinct (x ∷ xs) = let rest = is_distinct xs in if has_engine x xs then false else rest

-- At most one handler of the console; one exporter, that of the runtime, while there is a runtime
-- that exports logs, and else none; and no engine has got spans twice.
abbrev pub IsTidy : Setup → Type 0
IsTidy s =
    (consoles s.handlers ≤ 1)
    × (exporters s.handlers ≡ exporter_of s.runtime)
    × (s.instrumented ≡ s.sqlalchemy_engines)
    × (is_distinct s.sqlalchemy_engines ≡ true)

-- what a configuration and a shutdown keep
abbrev Configured : Setup → Type 0
Configured s = (consoles s.handlers ≡ 1) × (exporters s.handlers ≡ exporter_of s.runtime)

export_logs-Configured :
    (b : Bool) (s : Setup)
    → consoles s.handlers ≡ 1
    → exporters s.handlers ≡ []
    → Configured (export_logs b s)
unfolding export_logs
export_logs-Configured false s one e = (one, e)
export_logs-Configured true s one e = (
  consoles-append s.handlers (exporter s.next ∷ []) ∙ omega (arith, one),
  exporters-append s.handlers (exporter s.next ∷ []) ∙ ap (λ xs. xs ++ s.next ∷ []) e,
)

configure_runtime-Configured :
    (settings : Settings) (r : Option (Option ℕ)) (s : Setup)
    → consoles s.handlers ≡ 1
    → s.runtime ≡ r
    → exporters s.handlers ≡ exporter_of r
    → Configured (configure_runtime settings r s)
unfolding configure_runtime
configure_runtime-Configured settings none s one same e =
    export_logs-Configured (settings.has_endpoint && settings.logs_export_enabled)
      (record s { traces_enabled = settings.traces_enabled }) one e
configure_runtime-Configured settings (some r) s one same e = (one, e ∙ ap exporter_of (sym same))

shutdown_runtime_lem :
    (r : Option (Option ℕ)) (s : Setup)
    → s.runtime ≡ r
    → exporters s.handlers ≡ exporter_of r
    → let s' = shutdown_runtime r s in
      (consoles s'.handlers ≡ consoles s.handlers)
      × (exporters s'.handlers ≡ [])
      × (s'.runtime ≡ none)
unfolding shutdown_runtime
shutdown_runtime_lem none s same e = (refl, e, same)
shutdown_runtime_lem (some none) s same e = (refl, e, refl)
shutdown_runtime_lem (some (some n)) s same e =
    let law = remove_handler_lem n s.handlers in (law.0, law.1 e, refl)

-- neither touches the engines
abbrev Engines : Setup → Setup → Type 0
Engines s s' = (s'.instrumented ≡ s.instrumented) × (s'.sqlalchemy_engines ≡ s.sqlalchemy_engines)

export_logs-Engines : (b : Bool) (s : Setup) → Engines s (export_logs b s)
unfolding export_logs
export_logs-Engines false s = (refl, refl)
export_logs-Engines true s = (refl, refl)

configure_runtime-Engines :
    (settings : Settings) (r : Option (Option ℕ)) (s : Setup)
    → Engines s (configure_runtime settings r s)
unfolding configure_runtime
configure_runtime-Engines settings none s =
    export_logs-Engines (settings.has_endpoint && settings.logs_export_enabled)
      (record s { traces_enabled = settings.traces_enabled })
configure_runtime-Engines settings (some r) s = (refl, refl)

shutdown_runtime-Engines : (r : Option (Option ℕ)) (s : Setup) → Engines s (shutdown_runtime r s)
unfolding shutdown_runtime
shutdown_runtime-Engines none s = (refl, refl)
shutdown_runtime-Engines (some none) s = (refl, refl)
shutdown_runtime-Engines (some (some n)) s = (refl, refl)

-- the engines that have got spans are those that are known, each once
abbrev Once : Setup → Type 0
Once s = (s.instrumented ≡ s.sqlalchemy_engines) × (is_distinct s.sqlalchemy_engines ≡ true)

Once-same : (s s' : Setup) → Engines s s' → Once s → Once s'
Once-same s s' (i, e) (same, distinct) = (i ∙ same ∙ sym e, ap is_distinct e ∙ distinct)

-- A call, in any order.
pub data SetupCall : Type 0 where
  configures : Settings → SetupCall
  shuts_down : SetupCall
  instruments : ℕ → SetupCall

unfoldable pub set_up : SetupCall → Setup → Setup
unfolding configure_observability shutdown_observability instrument_sqlalchemy
set_up (configures settings) s = configure_observability settings s
set_up shuts_down s = shutdown_observability s
set_up (instruments engine) s = instrument_sqlalchemy engine s

unfoldable pub set_up_all : List SetupCall → Setup → Setup
unfolding set_up
set_up_all [] s = s
set_up_all (c ∷ calls) s = set_up_all calls (set_up c s)

configure_observability-IsTidy :
    (settings : Settings) (s : Setup)
    → IsTidy s
    → IsTidy (configure_observability settings s)
      × (consoles (configure_observability settings s).handlers ≡ 1)
unfolding configure_observability configure_console_logging
configure_observability-IsTidy settings s (few, exports, same, distinct) =
    let s1 = configure_console_logging s in
    let law = configure_console_logging_lem s in
    let done = configure_runtime-Configured settings s.runtime s1 law.0 refl (law.1 ∙ exports) in
    let engines =
      Once-same s1 (configure_runtime settings s.runtime s1)
        (configure_runtime-Engines settings s.runtime s1) (same, distinct) in
    ((omega (arith, done.0), done.1, engines.0, engines.1), done.0)

shutdown_observability-IsTidy : (s : Setup) → IsTidy s → IsTidy (shutdown_observability s)
unfolding shutdown_observability
shutdown_observability-IsTidy s (few, exports, same, distinct) =
    let law = shutdown_runtime_lem s.runtime s refl exports in
    let engines =
      Once-same s (shutdown_runtime s.runtime s) (shutdown_runtime-Engines s.runtime s)
        (same, distinct) in
    (omega (arith, law.0, few), law.1 ∙ ap exporter_of (sym law.2), engines.0, engines.1)

IsTidy-if :
    (b : Bool) (x y : Setup)
    → (b ≡ true → IsTidy x)
    → (b ≡ false → IsTidy y)
    → IsTidy (if b then x else y)
IsTidy-if true x y hx hy = hx refl
IsTidy-if false x y hx hy = hy refl

instrument_sqlalchemy-IsTidy :
    (engine : ℕ) (s : Setup) → IsTidy s → IsTidy (instrument_sqlalchemy engine s)
unfolding instrument_sqlalchemy
instrument_sqlalchemy-IsTidy engine s (few, exports, same, distinct) =
    IsTidy-if s.traces_enabled _ s
      (λ on.
        IsTidy-if (has_engine engine s.sqlalchemy_engines) s _
          (λ known. (few, exports, same, distinct))
          (λ fresh. (few, exports, ap (◌∷◌ engine) same, rw (fresh, is_distinct) distinct)))
      (λ off. (few, exports, same, distinct))

-- Whatever is called in whatever order: the root logger has at most one handler of the console, and
-- exactly one after a configuration; it has the exporter of the runtime while there is a runtime that
-- exports logs, and else no exporter; and no engine has got spans twice.
pub set_up_all-IsTidy :
    (calls : List SetupCall) (settings : Settings) (s : Setup)
    → IsTidy s
    → let s' = set_up_all calls s in
      IsTidy s' × (consoles (configure_observability settings s').handlers ≡ 1)
unfolding set_up_all set_up
set_up_all-IsTidy [] settings s tidy = (tidy, (configure_observability-IsTidy settings s tidy).1)
set_up_all-IsTidy (configures other ∷ calls) settings s tidy =
    set_up_all-IsTidy calls settings (configure_observability other s)
      (configure_observability-IsTidy other s tidy).0
set_up_all-IsTidy (shuts_down ∷ calls) settings s tidy =
    set_up_all-IsTidy calls settings (shutdown_observability s)
      (shutdown_observability-IsTidy s tidy)
set_up_all-IsTidy (instruments engine ∷ calls) settings s tidy =
    set_up_all-IsTidy calls settings (instrument_sqlalchemy engine s)
      (instrument_sqlalchemy-IsTidy engine s tidy)
