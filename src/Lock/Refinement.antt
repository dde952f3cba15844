-- ===== src/Lock/Refinement.antt =====
-- The leases as a table from subreddits to owners, which any sequence of calls implements.
use reddit_kafka.Base.{
  ◌≡◌, ◌<◌, Bool, true, false, Option, none, some, String, List, [], ◌∷◌, All, is_some, arith,
  str_eq, refl, ap, ◌∙◌, if◌then◌else◌, str_cases, str_eq_iff, inl, inr,
}
use reddit_kafka.Redis.{Entry, age, value_of, with_ttl}
use reddit_kafka.Redis.Keys.{lock_key}
use reddit_kafka.Commands.{is_value}
use reddit_kafka.World.{Services, World}
use reddit_kafka.Lock.{acquire_lock, refresh_lock, release_lock}
use reddit_kafka.Lock.Laws.{lease, lease-wait}
use reddit_kafka.Lock.Leases.{Op, acquire, refresh, release, pass, apply, run}

-- The abstract state: who holds the lease of a subreddit, and for how long.
abbrev pub Table : Type 0
Table = String → Option Entry

abbrev pub put : String → Option Entry → Table → Table
put r e table s = if str_eq r s then e else table s

-- What each operation does to the table, and what it answers.
abbrev pub spec : Op → Table → Table × Bool
spec (acquire r t ttl) table =
    if is_some (table r) then (table, false) else (put r (some (t, some ttl)) table, true)
spec (refresh r t ttl) table =
    if is_value (value_of (table r)) t
    then (put r (with_ttl ttl (table r)) table, true)
    else (table, false)
spec (release r t) table =
    if is_value (value_of (table r)) t then (put r none table, true) else (table, false)
spec (pass n) table = ((λ s. age n (table s)), true)

abbrev pub spec_run : List Op → Table → Table × List Bool
spec_run [] table = (table, [])
spec_run (op ∷ ops) table =
    let (table', answer) = spec op table in
    let (last, answers) = spec_run ops table' in (last, answer ∷ answers)

-- a TTL that EXPIRE and SET EX accept
abbrev pub IsPositive : Op → Type 0
IsPositive (acquire _ _ ttl) = 0 < ttl
IsPositive (refresh _ _ ttl) = 0 < ttl
IsPositive _ = Unit

module _ {S : Services} where
  abbrev pub view : World S → Table
  view w s = lease s w

  -- what the call answers
  unfoldable pub answer_of : Op → World S → Bool
  answer_of (acquire s t ttl) w = is_some (acquire_lock s t ttl w).1
  answer_of (refresh s t ttl) w = (refresh_lock s t ttl w).1
  answer_of (release s t) w = (release_lock s t w).1
  answer_of (pass n) w = true

  unfoldable pub answers_of : List Op → World S → List Bool
  unfolding answer_of
  answers_of [] w = []
  answers_of (op ∷ ops) w = answer_of op w ∷ answers_of ops (apply op w)

  answer_refines : (op : Op) (w : World S) → answer_of op w ≡ (spec op (view w)).1
  unfolding answer_of acquire_lock refresh_lock release_lock
  answer_refines (acquire r t ttl) w = ground arith
  answer_refines (refresh r t ttl) w = ground arith
  answer_refines (release r t) w = ground arith
  answer_refines (pass n) w = refl

  apply_refines :
      (op : Op) (w : World S) (s : String)
      → IsPositive op
      → lease s (apply op w) ≡ (spec op (view w)).0 s
  unfolding apply acquire_lock refresh_lock release_lock
  apply_refines (acquire r t ttl) w s p =
      ground (arith, S.strings.entry-set_ex w.strings (lock_key r) (lock_key s) t ttl p)
  apply_refines (refresh r t ttl) w s p =
      let law = S.strings.entry-expire w.strings (lock_key r) (lock_key s) ttl p in
      elim (str_cases r s) [
        | inl same ↦
            rw same
              (ground (arith, S.strings.entry-expire w.strings (lock_key s) (lock_key s) ttl p))
        | inr other ↦ ground (arith, law, str_eq_iff r s)
      ]
  apply_refines (release r t) w s p =
      ground (arith, S.strings.entry-del w.strings (lock_key r) (lock_key s))
  apply_refines (pass n) w s p = lease-wait s n w

  view_refines : (op : Op) (w : World S) → IsPositive op → view (apply op w) ≡ (spec op (view w)).0
  view_refines op w p i s = apply_refines op w s p i

  -- Any sequence of calls of any instances, with positive TTLs and time that passes between them,
  -- implements the table of leases: the answers are those of the table, and in the end the store holds
  -- for every subreddit what the table says.
  pub run_refines :
      (ops : List Op) (w : World S)
      → All IsPositive ops
      → (view (run ops w), answers_of ops w) ≡ spec_run ops (view w)
  unfolding run answers_of
  run_refines [] w all = refl
  run_refines (op ∷ ops) w (p, all) =
      let rest = run_refines ops (apply op w) all in
      let table = (spec op (view w)).0 in
      ap (λ (q : Table × List Bool). (q.0, answer_of op w ∷ q.1)) rest
      ∙ ap (λ (t : Table). ((spec_run ops t).0, answer_of op w ∷ (spec_run ops t).1))
          (view_refines op w p)
      ∙ ap (λ (b : Bool). ((spec_run ops table).0, b ∷ (spec_run ops table).1))
          (answer_refines op w)
