-- ===== src/Telemetry/Handlers.antt =====
-- The handlers of the root logger.
use reddit_kafka.Base.{
  ◌≡◌, refl, ap, ◌∙◌, ℕ, suc, ◌+◌, ◌==◌, List, [], ◌∷◌, ◌++◌, arith, Bool-cases, inl, inr,
}
use reddit_kafka.Telemetry.Setup.{
  Handler, console, foreign_handler, exporter, Setup, drop_console, remove_handler,
  configure_console_logging,
}

abbrev pub consoles : List Handler → ℕ
consoles [] = 0
consoles (console ∷ hs) = suc (consoles hs)
consoles (foreign_handler ∷ hs) = consoles hs
consoles (exporter n ∷ hs) = consoles hs

abbrev pub exporters : List Handler → List ℕ
exporters [] = []
exporters (console ∷ hs) = exporters hs
exporters (foreign_handler ∷ hs) = exporters hs
exporters (exporter n ∷ hs) = n ∷ exporters hs

drop_console_lem :
    (hs : List Handler)
    → (consoles (drop_console hs) ≡ 0) × (exporters (drop_console hs) ≡ exporters hs)
unfolding drop_console
drop_console_lem [] = (refl, refl)
drop_console_lem (console ∷ hs) = drop_console_lem hs
drop_console_lem (foreign_handler ∷ hs) = drop_console_lem hs
drop_console_lem (exporter n ∷ hs) = let rest = drop_console_lem hs in (rest.0, ap (◌∷◌ n) rest.1)

pub consoles-append : (hs gs : List Handler) → consoles (hs ++ gs) ≡ consoles hs + consoles gs
consoles-append [] gs = omega arith
consoles-append (console ∷ hs) gs = omega (arith, consoles-append hs gs)
consoles-append (foreign_handler ∷ hs) gs = consoles-append hs gs
consoles-append (exporter n ∷ hs) gs = consoles-append hs gs

pub exporters-append : (hs gs : List Handler) → exporters (hs ++ gs) ≡ exporters hs ++ exporters gs
exporters-append [] gs = refl
exporters-append (console ∷ hs) gs = exporters-append hs gs
exporters-append (foreign_handler ∷ hs) gs = exporters-append hs gs
exporters-append (exporter n ∷ hs) gs = ap (◌∷◌ n) (exporters-append hs gs)

append_nil : (xs : List ℕ) → xs ++ [] ≡ xs
append_nil [] = refl
append_nil (x ∷ xs) = ap (◌∷◌ x) (append_nil xs)

one_left : (k n : ℕ) (xs : List ℕ) → k ∷ xs ≡ n ∷ [] → (k ≡ n) × (xs ≡ [])
one_left k n xs e = (cc, cc)

pub remove_handler_lem :
    (n : ℕ) (hs : List Handler)
    → (consoles (remove_handler n hs) ≡ consoles hs)
      × (exporters hs ≡ n ∷ [] → exporters (remove_handler n hs) ≡ [])
unfolding remove_handler
remove_handler_lem n [] = (refl, (λ e. refl))
remove_handler_lem n (console ∷ hs) = let rest = remove_handler_lem n hs in (ap suc rest.0, rest.1)
remove_handler_lem n (foreign_handler ∷ hs) = remove_handler_lem n hs
remove_handler_lem n (exporter k ∷ hs) = elim (Bool-cases (k == n)) [
  | inl e ↦ rw (e, remove_handler) (refl, (λ q. (one_left k n (exporters hs) q).1))
  | inr e ↦
      rw (e, remove_handler)
        (
          (remove_handler_lem n hs).0,
          (λ q. absurd (ground (arith, e, (one_left k n (exporters hs) q).0))),
        )
]

-- the root logger has one console after a configuration
pub configure_console_logging_lem :
    (s : Setup)
    → let s' = configure_console_logging s in
      (consoles s'.handlers ≡ 1) × (exporters s'.handlers ≡ exporters s.handlers)
unfolding configure_console_logging
configure_console_logging_lem s =
    let dropped = drop_console_lem s.handlers in
    (
      consoles-append (drop_console s.handlers) (console ∷ []) ∙ ap (λ (n : ℕ). n + 1) dropped.0,
      exporters-append (drop_console s.handlers) (console ∷ []) ∙ append_nil _ ∙ dropped.1,
    )
