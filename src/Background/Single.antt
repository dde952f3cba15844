-- ===== src/Background/Single.antt =====
-- That a background task is there once at most.
use mathlib.Core.Bool.{true≢false}
use reddit_kafka.Base.{
  ℕ, ◌≡◌, refl, sym, ap, ◌∙◌, ◌==◌, Bool, true, false, Option, none, some, List, [], ◌∷◌, arith,
  Bool-cases, ◌⊎◌, inl, inr, if◌then◌else◌,
}
use reddit_kafka.Background.{
  Background, remove, contains, create_task, start, stop, start_cleanup, stop_cleanup,
  start_reconciliation, stop_reconciliation, ServiceCall, starts, stops, ends, serve, run_service,
}

-- No task lives, or only the last one that was created, and it is meant to run.
abbrev pub IsSingle : Background → Type 0
IsSingle b =
    (b.live ≡ []) ⊎ ((t : ℕ) × (b.is_running ≡ true) × (b.task ≡ some t) × (b.live ≡ t ∷ []))

-- No task lives, or only the last one that was created.
abbrev pub IsLast : Background → Type 0
IsLast b = (b.live ≡ []) ⊎ ((t : ℕ) × (b.task ≡ some t) × (b.live ≡ t ∷ []))

remove_self : (t : ℕ) → remove t (t ∷ []) ≡ []
remove_self t = ground arith

remove_either : (u t : ℕ) → (remove u (t ∷ []) ≡ []) ⊎ (remove u (t ∷ []) ≡ t ∷ [])
remove_either u t = elim (Bool-cases (t == u)) [ inl e ↦ inl (rw e refl) | inr e ↦ inr (rw e refl) ]

abbrev state : Bool → Option ℕ → List ℕ → ℕ → Background
state running task live n = record { is_running = running; task = task; live = live; next = n }

some_one : (t u : ℕ) → some t ≡ some u → t ≡ u
some_one t u e = cc

-- the last task is the one that is removed
removed : (t : ℕ) (l : List ℕ) → IsLast (state true (some t) l 0) → remove t l ≡ []
removed t l (inl e) = ap (remove t) e
removed t l (inr (u, q, e)) =
    ap (remove t) e ∙ ap (λ y. remove t (y ∷ [])) (sym (some_one t u q)) ∙ remove_self t

forget : (b : Background) → IsSingle b → IsLast b
forget b (inl e) = inl e
forget b (inr (t, r, q, e)) = inr (t, q, e)

start_lem :
    (r : Bool) (t : Option ℕ) (l : List ℕ) (n : ℕ)
    → IsSingle (state r t l n)
    → IsSingle (start (state r t l n)) × IsSingle (start_cleanup (state r t l n))
unfolding start start_cleanup
start_lem true t l n single = (single, single)
start_lem false t l n (inl e) =
    (inr (n, refl, refl, ap (◌∷◌ n) e), inr (n, refl, refl, ap (◌∷◌ n) e))
start_lem false t l n (inr (u, r, q, e)) = absurd cc

stop_lem :
    (r : Bool) (t : Option ℕ) (l : List ℕ) (n : ℕ)
    → IsSingle (state r t l n)
    → ((stop (state r t l n)).live ≡ []) × ((stop_cleanup (state r t l n)).live ≡ [])
unfolding stop stop_cleanup
stop_lem r none l n (inl e) = (e, e)
stop_lem r none l n (inr (u, q, p, e)) = absurd cc
stop_lem r (some t) l n single =
    let gone = removed t l (forget (state r (some t) l n) single) in (gone, gone)

ends_lem : (u : ℕ) (b : Background) → IsSingle b → IsSingle (record b { live = remove u b.live })
ends_lem u b (inl e) = inl (ap (remove u) e)
ends_lem u b (inr (t, r, q, e)) = elim (remove_either u t) [
  | inl gone ↦ inl (ap (remove u) e ∙ gone)
  | inr left ↦ inr (t, r, q, ap (remove u) e ∙ left)
]

-- what every call keeps is kept by any calls
run_service-keeps :
    (P : Background → Type 0) (begin finish : Background → Background)
    → ((b : Background) → P b → P (begin b))
    → ((b : Background) → P b → P (finish b))
    → ((u : ℕ) (b : Background) → P b → P (record b { live = remove u b.live }))
    → (calls : List ServiceCall) (b : Background) → P b
    → P (run_service begin finish calls b)
unfolding run_service serve
run_service-keeps P begin finish hb hf he [] b p = p
run_service-keeps P begin finish hb hf he (starts ∷ calls) b p =
    run_service-keeps P begin finish hb hf he calls (begin b) (hb b p)
run_service-keeps P begin finish hb hf he (stops ∷ calls) b p =
    run_service-keeps P begin finish hb hf he calls (finish b) (hf b p)
run_service-keeps P begin finish hb hf he (ends u ∷ calls) b p =
    run_service-keeps P begin finish hb hf he calls (record b { live = remove u b.live }) (he u b p)

start-IsSingle : (b : Background) → IsSingle b → IsSingle (start b) × IsSingle (start_cleanup b)
start-IsSingle b single = start_lem b.is_running b.task b.live b.next single

stop-none : (b : Background) → IsSingle b → ((stop b).live ≡ []) × ((stop_cleanup b).live ≡ [])
stop-none b single = stop_lem b.is_running b.task b.live b.next single

IsLast-if :
    (c : Bool) (x y : Background)
    → (c ≡ true → IsLast x)
    → (c ≡ false → IsLast y)
    → IsLast (if c then x else y)
IsLast-if true x y hx hy = hx refl
IsLast-if false x y hx hy = hy refl

contains_self : (t : ℕ) → contains t (t ∷ []) ≡ true
contains_self t = ground arith

-- a task is created where the last one has ended
created :
    (r : Bool) (t : ℕ) (l : List ℕ) (n : ℕ)
    → IsLast (state r (some t) l n)
    → contains t l ≡ false
    → IsLast (create_task (state r (some t) l n))
created r t l n (inl e) ended = inr (n, refl, ap (◌∷◌ n) e)
created r t l n (inr (u, q, e)) ended = absurd (
    true≢false (
      sym
        (ap (contains t) e ∙ ap (λ y. contains t (y ∷ [])) (sym (some_one t u q)) ∙ contains_self t)
      ∙ ended))

start_reconciliation_lem :
    (r : Bool) (t : Option ℕ) (l : List ℕ) (n : ℕ)
    → IsLast (state r t l n)
    → IsLast (start_reconciliation (state r t l n))
unfolding start_reconciliation
start_reconciliation_lem r none l n (inl e) = inr (n, refl, ap (◌∷◌ n) e)
start_reconciliation_lem r none l n (inr (u, q, e)) = absurd cc
start_reconciliation_lem r (some t) l n last =
    IsLast-if (contains t l) (state r (some t) l n) (create_task (state r (some t) l n)) (λ e. last)
      (created r t l n last)

stop_reconciliation_lem :
    (r : Bool) (t : Option ℕ) (l : List ℕ) (n : ℕ)
    → IsLast (state r t l n)
    → (stop_reconciliation (state r t l n)).live ≡ []
unfolding stop_reconciliation
stop_reconciliation_lem r none l n (inl e) = e
stop_reconciliation_lem r none l n (inr (u, q, e)) = absurd cc
stop_reconciliation_lem r (some t) l n last = removed t l last

start_reconciliation-IsLast : (b : Background) → IsLast b → IsLast (start_reconciliation b)
start_reconciliation-IsLast b last = start_reconciliation_lem b.is_running b.task b.live b.next last

stop_reconciliation-none : (b : Background) → IsLast b → (stop_reconciliation b).live ≡ []
stop_reconciliation-none b last = stop_reconciliation_lem b.is_running b.task b.live b.next last

ends-IsLast : (u : ℕ) (b : Background) → IsLast b → IsLast (record b { live = remove u b.live })
ends-IsLast u b (inl e) = inl (ap (remove u) e)
ends-IsLast u b (inr (t, q, e)) = elim (remove_either u t) [
  | inl gone ↦ inl (ap (remove u) e ∙ gone)
  | inr left ↦ inr (t, q, ap (remove u) e ∙ left)
]

-- Whatever the calls of `start` and `stop`, in whatever order, and whenever a task ends: if at most
-- the last task lives before, at most the last one lives afterwards, for the flusher, for the
-- cleanup and for the reconciliation of the manager; and then a stop leaves none.
pub run_service-IsLast :
    (calls : List ServiceCall) (b : Background)
    → IsSingle b
    → let flusher = run_service start stop calls b in
      let cleanup = run_service start_cleanup stop_cleanup calls b in
      let reconciler = run_service start_reconciliation stop_reconciliation calls b in
      (IsLast flusher × ((stop flusher).live ≡ []))
      × (IsLast cleanup × ((stop_cleanup cleanup).live ≡ []))
      × (IsLast reconciler × ((stop_reconciliation reconciler).live ≡ []))
run_service-IsLast calls b single =
    let kept =
      λ (begin finish : Background → Background)
          (hb : (d : Background) → IsSingle d → IsSingle (begin d))
          (hf : (d : Background) → IsSingle d → (finish d).live ≡ []).
        run_service-keeps IsSingle begin finish hb (λ d h. inl (hf d h)) ends_lem calls b single in
    let flusher = kept start stop (λ d h. (start-IsSingle d h).0) (λ d h. (stop-none d h).0) in
    let cleaner =
      kept start_cleanup stop_cleanup (λ d h. (start-IsSingle d h).1) (λ d h. (stop-none d h).1) in
    let reconciler =
      run_service-keeps IsLast start_reconciliation stop_reconciliation start_reconciliation-IsLast
        (λ d h. inl (stop_reconciliation-none d h)) ends-IsLast calls b (forget b single) in
    (
      (forget (run_service start stop calls b) flusher, (stop-none _ flusher).0),
      (forget (run_service start_cleanup stop_cleanup calls b) cleaner, (stop-none _ cleaner).1),
      (reconciler, stop_reconciliation-none _ reconciler),
    )
