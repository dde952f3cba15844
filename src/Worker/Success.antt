-- ===== src/Worker/Success.antt =====
-- When the wait for a batch of deliveries returns normally.
use mathlib.Core.Path.{subst}
use mathlib.Core.Bool.{false≢true}
use reddit_kafka.Base.{
  ℕ, ◌==◌, ◌≡◌, refl, sym, ap, ◌∙◌, Bool, true, false, ◌&&◌, not, some, List, [], ◌∷◌, ◌++◌, All,
  arith, inl, inr, Bool-cases, Option-cases, is_some,
}
use reddit_kafka.Worker.Deliveries.{
  Report, delivered, Futures, Round, Waited, all_arrived, poll_failed, timed_out, still_waiting,
  batch_delivered, complete_delivery, complete_all, undone, is_nil, wait_loop, any_failed, conclude,
  wait_for_delivery_batch,
}
use reddit_kafka.Worker.Awaiting.{complete_all-done}

-- the reports of all rounds, in the order in which they come in
abbrev pub all_reports : List Round → List (ℕ × Report)
all_reports [] = []
all_reports (r ∷ rounds) = r.polled ++ (r.waited ++ all_reports rounds)

-- no poll raises, and the deadline is not past
abbrev pub is_calm : List Round → Bool
is_calm [] = true
is_calm (r ∷ rounds) = not r.poll_raises && not (r.remaining == 0) && is_calm rounds

complete_all-append :
    (xs ys : List (ℕ × Report)) (fs : Futures)
    → complete_all (xs ++ ys) fs ≡ complete_all ys (complete_all xs fs)
unfolding complete_all
complete_all-append [] ys fs = refl
complete_all-append ((d, report) ∷ xs) ys fs =
    complete_all-append xs ys (complete_delivery d report fs)

undone-nil : (fs : Futures) (ds : List ℕ) → All (λ d. is_some (fs d) ≡ true) ds → undone fs ds ≡ []
unfolding undone
undone-nil fs [] h = refl
undone-nil fs (d ∷ ds) h = ground (arith, undone-nil fs ds h.1)

-- a later state in which a batch is delivered tells what an earlier one can have
any_failed-earlier :
    (fs : Futures) (reports : List (ℕ × Report)) (ds : List ℕ)
    → All (λ d. complete_all reports fs d ≡ some delivered) ds
    → any_failed fs ds ≡ false
unfolding any_failed
any_failed-earlier fs reports [] h = refl
any_failed-earlier fs reports (d ∷ ds) h = elim (Option-cases (fs d)) [
  | inl e ↦ ground (arith, any_failed-earlier fs reports ds h.1)
  | inr (r, e) ↦
      ground (arith, any_failed-earlier fs reports ds h.1, complete_all-done reports fs d e)
]

All-undone : (P : ℕ → Type 0) (fs : Futures) (ds : List ℕ) → All P ds → All P (undone fs ds)
unfolding undone
All-undone P fs [] h = tt
All-undone P fs (d ∷ ds) h = elim (Bool-cases (is_some (fs d))) [
  | inl e ↦ rw (e, undone) (All-undone P fs ds h.1)
  | inr e ↦ rw (e, undone) (h.0, All-undone P fs ds h.1)
]

-- the wait is over, with results that more reports would turn into the given ones
abbrev Arrives : Futures × Waited → Futures → Type 0
Arrives (gs, ended) final =
    (ended ≡ all_arrived) × ((more : List (ℕ × Report)) × (final ≡ complete_all more gs))

all_reports-nil : (fs : Futures) → complete_all (all_reports []) fs ≡ fs
unfolding complete_all
all_reports-nil fs = refl

all_reports-cons :
    (r : Round) (rounds : List Round) (fs : Futures)
    → complete_all (all_reports (r ∷ rounds)) fs
      ≡ complete_all (all_reports rounds) (complete_all r.waited (complete_all r.polled fs))
all_reports-cons r rounds fs =
    complete_all-append r.polled (r.waited ++ all_reports rounds) fs
    ∙ complete_all-append r.waited (all_reports rounds) (complete_all r.polled fs)

IsDone-delivered :
    (fs : Futures) (ds : List ℕ)
    → All (λ d. fs d ≡ some delivered) ds
    → All (λ d. is_some (fs d) ≡ true) ds
IsDone-delivered fs [] h = tt
IsDone-delivered fs (d ∷ ds) h = (ap is_some h.0, IsDone-delivered fs ds h.1)

-- one pass, where the rounds after it are known to do what they should
wait_loop_pass :
    (r : Round) (rounds : List Round) (pending : List ℕ) (fs : Futures)
    → is_calm (r ∷ rounds) ≡ true
    → let polled = complete_all r.polled fs in
      let waited = complete_all r.waited polled in
      let last = undone waited (undone polled pending) in
      (is_nil last ≡ false
        → Arrives (wait_loop rounds last waited) (complete_all (all_reports rounds) waited))
      → Arrives (wait_loop (r ∷ rounds) pending fs) (complete_all (all_reports (r ∷ rounds)) fs)
unfolding wait_loop
wait_loop_pass r rounds pending fs calm rest =
    let polled = complete_all r.polled fs in
    let left = undone polled pending in
    let waited = complete_all r.waited polled in
    let no_raise : r.poll_raises ≡ false = ground arith in
    let in_time : (r.remaining == 0) ≡ false = ground arith in
    let later = r.waited ++ all_reports rounds in
    elim (Bool-cases (is_nil left)) [
      | inl e ↦ rw (no_raise, e, wait_loop) (refl, (later, complete_all-append r.polled later fs))
      | inr e ↦ elim (Bool-cases (is_nil (undone waited left))) [
        | inl e' ↦
            rw (no_raise, e, in_time, e', wait_loop)
              (refl, (all_reports rounds, all_reports-cons r rounds fs))
        | inr e' ↦
            let (arrived, (more, same)) = rest e' in
            rw (no_raise, e, in_time, e', wait_loop)
              (arrived, (more, all_reports-cons r rounds fs ∙ same))
      ]
    ]

wait_loop-Arrives :
    (r : Round) (rounds : List Round) (pending : List ℕ) (fs : Futures)
    → is_calm (r ∷ rounds) ≡ true
    → All (λ d. complete_all (all_reports (r ∷ rounds)) fs d ≡ some delivered) pending
    → Arrives (wait_loop (r ∷ rounds) pending fs) (complete_all (all_reports (r ∷ rounds)) fs)
wait_loop-Arrives r [] pending fs calm h =
    let polled = complete_all r.polled fs in
    let waited = complete_all r.waited polled in
    let final =
      subst (λ (g : Futures). All (λ d. g d ≡ some delivered) pending)
        (all_reports-cons r [] fs ∙ all_reports-nil waited) h in
    let left = All-undone (λ d. waited d ≡ some delivered) polled pending final in
    let none_left =
      undone-nil waited (undone polled pending)
        (IsDone-delivered waited (undone polled pending) left) in
    wait_loop_pass r [] pending fs calm (λ e. absurd (false≢true (sym e ∙ ap is_nil none_left)))
wait_loop-Arrives r (q ∷ rounds) pending fs calm h =
    let polled = complete_all r.polled fs in
    let waited = complete_all r.waited polled in
    let last = undone waited (undone polled pending) in
    let final = complete_all (all_reports (q ∷ rounds)) waited in
    let h' =
      subst (λ (g : Futures). All (λ d. g d ≡ some delivered) pending)
        (all_reports-cons r (q ∷ rounds) fs) h in
    let later =
      All-undone (λ d. final d ≡ some delivered) waited (undone polled pending)
        (All-undone (λ d. final d ≡ some delivered) polled pending h') in
    wait_loop_pass r (q ∷ rounds) pending fs calm
      (λ e. wait_loop-Arrives q rounds last waited (ground arith) later)

conclude_success :
    (batch : List ℕ) (ended : Futures × Waited)
    → ended.1 ≡ all_arrived
    → any_failed ended.0 batch ≡ false
    → (conclude batch ended).2 ≡ batch_delivered
unfolding conclude
conclude_success batch (fs, all_arrived) e ok = ground arith
conclude_success batch (fs, still_waiting) e ok = cc
conclude_success batch (fs, poll_failed) e ok = cc
conclude_success batch (fs, timed_out) e ok = cc

-- If no poll raises and the deadline is not past, and with all the reports of one or more rounds
-- every delivery of the batch has reported success, the wait for the batch returns normally.
pub wait_for_delivery_batch_succeeds :
    (r : Round) (rounds : List Round) (pending : List ℕ) (fs : Futures)
    → is_calm (r ∷ rounds) ≡ true
    → All (λ d. complete_all (all_reports (r ∷ rounds)) fs d ≡ some delivered) pending
    → (wait_for_delivery_batch (r ∷ rounds) pending fs).2 ≡ batch_delivered
unfolding wait_for_delivery_batch
wait_for_delivery_batch_succeeds r rounds [] fs calm h = refl
wait_for_delivery_batch_succeeds r rounds (d ∷ ds) fs calm h =
    let (arrived, (more, same)) = wait_loop-Arrives r rounds (d ∷ ds) fs calm h in
    conclude_success (d ∷ ds) (wait_loop (r ∷ rounds) (d ∷ ds) fs) arrived (
      any_failed-earlier (wait_loop (r ∷ rounds) (d ∷ ds) fs).0 more (d ∷ ds)
        (subst (λ (g : Futures). All (λ e. g e ≡ some delivered) (d ∷ ds)) same h))
