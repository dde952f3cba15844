-- ===== src/Worker/Awaiting.antt =====
-- What the wait for a batch of deliveries establishes, and that it ends.
use mathlib.Core.Bool.{false≢true}
use reddit_kafka.Base.{
  ℕ, ◌==◌, ◌≡◌, ◌≢◌, refl, sym, ◌∙◌, Bool, true, false, ◌||◌, some, List, [], ◌∷◌, All, arith, inl,
  inr, Bool-cases, Option-cases, is_some, ap,
}
use reddit_kafka.Worker.Deliveries.{
  Report, delivered, Futures, Round, Waited, all_arrived, poll_failed, timed_out, still_waiting,
  batch_delivered, batch_waiting, complete_delivery, complete_all, undone, is_nil, wait_loop,
  any_failed, conclude, wait_for_delivery_batch,
}

-- a future that is done keeps its result
pub complete_all-done :
    (reports : List (ℕ × Report)) (fs : Futures) (d : ℕ) {r : Report}
    → fs d ≡ some r
    → complete_all reports fs d ≡ some r
unfolding complete_all
complete_all-done [] fs d h = h
complete_all-done ((e, report) ∷ rest) fs d h =
    complete_all-done rest (complete_delivery e report fs) d
      (unfold complete_delivery in ground arith)

-- every delivery that was waited for is done
abbrev IsDone : Futures → ℕ → Type 0
IsDone fs d = is_some (fs d) ≡ true

All-undone : (fs : Futures) (ds : List ℕ) → is_nil (undone fs ds) ≡ true → All (IsDone fs) ds
unfolding undone
All-undone fs [] h = tt
All-undone fs (d ∷ ds) h = ground (arith, All-undone fs ds)

-- what is done stays done, and what is not is in `undone`
All-later :
    (fs gs : Futures) (ds : List ℕ)
    → ((d : ℕ) → IsDone fs d → IsDone gs d)
    → All (IsDone gs) (undone fs ds)
    → All (IsDone gs) ds
unfolding undone
All-later fs gs [] keep h = tt
All-later fs gs (d ∷ ds) keep h = elim (Bool-cases (is_some (fs d))) [
  | inl e ↦ (keep d e, All-later fs gs ds keep (rw e at h))
  | inr e ↦
      (let h' : All (IsDone gs) (d ∷ undone fs ds) = rw e at h in
        (h'.0, All-later fs gs ds keep h'.1))
]

IsDone-complete_all :
    (reports : List (ℕ × Report)) (fs : Futures) (d : ℕ)
    → IsDone fs d
    → IsDone (complete_all reports fs) d
IsDone-complete_all reports fs d h = elim (Option-cases (fs d)) [
  | inl e ↦ absurd (false≢true (sym (ap is_some e) ∙ h))
  | inr (r, e) ↦ ap is_some (complete_all-done reports fs d e)
]

-- a future that is done before the wait has the same result after it
wait_loop-done :
    (rounds : List Round) (pending : List ℕ) (fs : Futures) (d : ℕ) {r : Report}
    → fs d ≡ some r
    → (wait_loop rounds pending fs).0 d ≡ some r
unfolding wait_loop
wait_loop-done [] pending fs d h = h
wait_loop-done (r ∷ rounds) pending fs d h =
    let polled = complete_all r.polled fs in
    let left = undone polled pending in
    let waited = complete_all r.waited polled in
    let at_poll = complete_all-done r.polled fs d h in
    let at_wait = complete_all-done r.waited polled d at_poll in
    ground (arith, at_poll, at_wait, wait_loop-done rounds (undone waited left) waited d at_wait)

IsDone-wait_loop :
    (rounds : List Round) (pending : List ℕ) (fs : Futures) (d : ℕ)
    → IsDone fs d
    → IsDone (wait_loop rounds pending fs).0 d
IsDone-wait_loop rounds pending fs d h = elim (Option-cases (fs d)) [
  | inl e ↦ absurd (false≢true (sym (ap is_some e) ∙ h))
  | inr (r, e) ↦ ap is_some (wait_loop-done rounds pending fs d e)
]

-- a loop that ends with everything in has every delivery done
wait_loop-arrived :
    (rounds : List Round) (pending : List ℕ) (fs : Futures)
    → (wait_loop rounds pending fs).1 ≡ all_arrived
    → All (IsDone (wait_loop rounds pending fs).0) pending
unfolding wait_loop
wait_loop-arrived [] pending fs h = cc
wait_loop-arrived (r ∷ rounds) pending fs h =
    let polled = complete_all r.polled fs in
    let left = undone polled pending in
    let waited = complete_all r.waited polled in
    let last = undone waited left in
    let rest = wait_loop rounds last waited in
    let later = IsDone-complete_all r.waited polled in
    let latest = IsDone-wait_loop rounds last waited in
    ground (
      arith,
      All-undone polled pending,
      λ (e : is_nil last ≡ true). All-later polled waited pending later (All-undone waited left e),
      λ (e : rest.1 ≡ all_arrived).
          All-later polled rest.0 pending (λ d i. latest d (later d i))
            (All-later waited rest.0 left latest (wait_loop-arrived rounds last waited e)),
    )

All-delivered :
    (fs : Futures) (ds : List ℕ)
    → All (IsDone fs) ds
    → any_failed fs ds ≡ false
    → All (λ d. fs d ≡ some delivered) ds
unfolding any_failed
All-delivered fs [] h e = tt
All-delivered fs (d ∷ ds) h e = ground (arith, All-delivered fs ds h.1)

conclude_delivered :
    (batch : List ℕ) (ended : Futures × Waited)
    → (ended.1 ≡ all_arrived → All (IsDone ended.0) batch)
    → (conclude batch ended).2 ≡ batch_delivered
    → All (λ d. (conclude batch ended).1 d ≡ some delivered) batch × ((conclude batch ended).0 ≡ [])
unfolding conclude
conclude_delivered batch (fs, all_arrived) done h =
    ground (arith, All-delivered fs batch (done refl))
conclude_delivered batch (fs, poll_failed) done h = cc
conclude_delivered batch (fs, timed_out) done h = cc
conclude_delivered batch (fs, still_waiting) done h = cc

futures-conclude : (batch : List ℕ) (ended : Futures × Waited) → (conclude batch ended).1 ≡ ended.0
unfolding conclude
futures-conclude batch (fs, all_arrived) = refl
futures-conclude batch (fs, still_waiting) = refl
futures-conclude batch (fs, _) = refl

-- The wait for a batch returns only if every delivery of the batch has reported success; then no
-- delivery is pending. A report that was in before the wait is not changed by it.
pub wait_for_delivery_batch-delivered :
    (rounds : List Round) (pending : List ℕ) (fs : Futures)
    → let (left, after, outcome) = wait_for_delivery_batch rounds pending fs in
      (outcome ≡ batch_delivered → All (λ d. after d ≡ some delivered) pending × (left ≡ []))
      × ((d : ℕ) (r : Report) → fs d ≡ some r → after d ≡ some r)
unfolding wait_for_delivery_batch
wait_for_delivery_batch-delivered rounds [] fs = ((λ _. (tt, refl)), λ d r h. h)
wait_for_delivery_batch-delivered rounds (p ∷ ps) fs = (
  λ e.
      conclude_delivered (p ∷ ps) (wait_loop rounds (p ∷ ps) fs)
        (wait_loop-arrived rounds (p ∷ ps) fs) e,
  λ d r h.
      rw (futures-conclude (p ∷ ps) (wait_loop rounds (p ∷ ps) fs))
        (wait_loop-done rounds (p ∷ ps) fs d h),
)

-- whether some pass finds that the deadline is past
abbrev pub meets_deadline : List Round → Bool
meets_deadline [] = false
meets_deadline (r ∷ rounds) = (r.remaining == 0) || meets_deadline rounds

wait_loop_ends :
    (rounds : List Round) (pending : List ℕ) (fs : Futures)
    → meets_deadline rounds ≡ true
    → (wait_loop rounds pending fs).1 ≢ still_waiting
unfolding wait_loop
wait_loop_ends [] pending fs h e = cc
wait_loop_ends (r ∷ rounds) pending fs h e =
    let polled = complete_all r.polled fs in
    let left = undone polled pending in
    let waited = complete_all r.waited polled in
    ground (arith, wait_loop_ends rounds (undone waited left) waited)

conclude_ends :
    (batch : List ℕ) (ended : Futures × Waited)
    → ended.1 ≢ still_waiting
    → (conclude batch ended).2 ≢ batch_waiting
unfolding conclude
conclude_ends batch (fs, still_waiting) h e = h refl
conclude_ends batch (fs, all_arrived) h e = ground arith
conclude_ends batch (fs, _) h e = ground arith

-- The wait for a batch ends, by returning or by raising, once a pass finds the deadline past.
pub wait_for_delivery_batch_ends :
    (rounds : List Round) (pending : List ℕ) (fs : Futures)
    → meets_deadline rounds ≡ true
    → (wait_for_delivery_batch rounds pending fs).2 ≢ batch_waiting
unfolding wait_for_delivery_batch
wait_for_delivery_batch_ends rounds [] fs h = λ e. cc
wait_for_delivery_batch_ends rounds (p ∷ ps) fs h =
    conclude_ends (p ∷ ps) (wait_loop rounds (p ∷ ps) fs) (wait_loop_ends rounds (p ∷ ps) fs h)
