-- ===== src/Manager/Evolving.antt =====
-- How the map of local tasks changes, whatever is called.
use reddit_kafka.Base.{
  ◌≡◌, refl, ap, ◌∙◌, true, false, none, [], ◌∷◌, String, Dict, lookup, arith, str_eq, Bool-cases,
  Option-cases, inl, inr,
}
use reddit_kafka.World.{Services}
use reddit_kafka.Manager.State.{LocalTask, Manager, has_task, del_task}

-- each stream has one task at most
abbrev pub IsUnique : Dict LocalTask → Type 0
IsUnique [] = Unit {0}
IsUnique ((i, t) ∷ tasks) = (lookup i tasks ≡ none) × IsUnique tasks

-- Streams keep having one task at most, and once the instance is shutting down it stays so and no
-- stream gets a task.
abbrev pub Evolves : {S : Services} → Manager S → Manager S → Type 0
Evolves m m' =
    (IsUnique m.tasks → IsUnique m'.tasks)
    × (m.shutting_down ≡ true
        → (m'.shutting_down ≡ true)
          × ((i : String) → lookup i m.tasks ≡ none → lookup i m'.tasks ≡ none))

none-del_task :
    (i j : String) (tasks : Dict LocalTask)
    → lookup j tasks ≡ none
    → lookup j (del_task i tasks) ≡ none
none-del_task i j [] h = refl
none-del_task i j ((k, t) ∷ tasks) h = ground (arith, none-del_task i j tasks)

IsUnique-del_task :
    (i : String) (tasks : Dict LocalTask) → IsUnique tasks → IsUnique (del_task i tasks)
IsUnique-del_task i [] u = tt
IsUnique-del_task i ((k, t) ∷ tasks) (fresh, u) = elim (Bool-cases (str_eq k i)) [
  | inl e ↦ rw e (IsUnique-del_task i tasks u)
  | inr e ↦ rw e (none-del_task i k tasks fresh, IsUnique-del_task i tasks u)
]

lookup-none :
    (i : String) (tasks : Dict LocalTask) → has_task i tasks ≡ false → lookup i tasks ≡ none
lookup-none i tasks h = elim (Option-cases (lookup i tasks)) [
  | inl e ↦ e
  | inr (t, e) ↦ ground (arith, h, e)
]

module _ {S : Services} where
  pub Evolves-trans : (a b c : Manager S) → Evolves a b → Evolves b c → Evolves a c
  Evolves-trans a b c p q = (
    (λ u. q.0 (p.0 u)),
    (λ down.
        let first = p.1 down in
        let later = q.1 first.0 in (later.0, (λ i gone. later.1 i (first.1 i gone)))),
  )

  pub Evolves-same :
      (m m' : Manager S) → m'.tasks ≡ m.tasks → m'.shutting_down ≡ m.shutting_down → Evolves m m'
  Evolves-same m m' e s = ((λ u. rw e u), (λ down. (s ∙ down, (λ i gone. ap (lookup i) e ∙ gone))))

  pub Evolves-adds :
      (m m' : Manager S) (i : String) (t : LocalTask)
      → m.shutting_down ≡ false
      → m'.shutting_down ≡ m.shutting_down
      → has_task i m.tasks ≡ false
      → m'.tasks ≡ (i, t) ∷ m.tasks
      → Evolves m m'
  Evolves-adds m m' i t running s fresh e = (
    (λ u. rw e (lookup-none i m.tasks fresh, u)),
    (λ down. absurd (ground (arith, down, running))),
  )

  pub Evolves-removes :
      (m m' : Manager S) (i : String)
      → m'.shutting_down ≡ m.shutting_down
      → m'.tasks ≡ del_task i m.tasks
      → Evolves m m'
  Evolves-removes m m' i s e = (
    (λ u. rw e (IsUnique-del_task i m.tasks u)),
    (λ down. (s ∙ down, (λ j gone. ap (lookup j) e ∙ none-del_task i j m.tasks gone))),
  )
