-- ===== src/Lock/Owners.antt =====
-- Who owns a lease after calls that concern it.
use reddit_kafka.Base.{
  ◌≡◌, ◌<◌, ℕ, true, false, Option, none, some, String, arith, str_eq_refl, ap, ◌∙◌, ◌⊎◌, inl, inr,
  Option-cases,
}
use reddit_kafka.Redis.Keys.{lock_key}
use reddit_kafka.World.{Services, World}
use reddit_kafka.Lock.{acquire_lock, owns_lock, release_lock}
use reddit_kafka.Lock.Laws.{lease, acquire_lock-granted, acquire_lock-contended, owns_lock-lease}

module _ {S : Services} where
  -- ownership is told by the lease
  pub owns_lock-same :
      (s t : String) (v w : World S) → lease s v ≡ lease s w → owns_lock s t v ≡ owns_lock s t w
  unfolding owns_lock
  owns_lock-same s t v w e = ground arith

  -- a token that is given up owns nothing
  pub owns_lock-release_lock :
      (s t : String) (w : World S) → owns_lock s t (release_lock s t w).0 ≡ false
  unfolding owns_lock release_lock
  owns_lock-release_lock s t w =
      ground (arith, S.strings.entry-del w.strings (lock_key s) (lock_key s), str_eq_refl s)

  -- an acquisition that is granted gives the lease to its token, and one that is refused changes
  -- nothing
  pub acquire_lock-either :
      (s t : String) (ttl : ℕ) (w : World S)
      → 0 < ttl
      → (acquire_lock s t ttl w ≡ ((acquire_lock s t ttl w).0, some t))
          × (owns_lock s t (acquire_lock s t ttl w).0 ≡ true)
        ⊎ (acquire_lock s t ttl w ≡ (w, none))
  acquire_lock-either s t ttl w p = elim (Option-cases (lease s w)) [
    | inl free ↦ inl (
      ap {B = World S × Option String} (λ (o : Option String). ((acquire_lock s t ttl w).0, o))
          (acquire_lock-granted s t ttl w p free).0,
      owns_lock-lease s t t (acquire_lock s t ttl w).0 (acquire_lock-granted s t ttl w p free).1
          ∙ str_eq_refl t,
    )
    | inr (e, held) ↦ inr (acquire_lock-contended s t ttl w held)
  ]
