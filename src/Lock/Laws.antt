-- ===== src/Lock/Laws.antt =====
-- What each lease operation does, for an owner, for a stale owner and after the lease has expired.
use reddit_kafka.Base.{
  ℕ, ◌≡◌, ◌≢◌, ◌<◌, true, false, Option, none, some, String, arith, str_eq, str_eq_iff, str_eq_refl,
  Option-cases, inl, inr,
}
use reddit_kafka.Commands.{get}
use reddit_kafka.Redis.{Entry, age}
use reddit_kafka.Redis.Keys.{lock_key}
use reddit_kafka.World.{Services, World}
use reddit_kafka.Lock.{acquire_lock, refresh_lock, owns_lock, release_lock}

module _ {S : Services} where
  -- the lease of a subreddit, with the seconds left
  abbrev pub lease : String → World S → Option Entry
  lease subreddit w = S.strings.entry w.strings (lock_key subreddit)

  -- time passes at the server
  unfoldable pub wait : ℕ → World S → World S
  wait n w = record w { strings = S.strings.wait w.strings n }

  pub lease-wait : (s : String) (n : ℕ) (w : World S) → lease s (wait n w) ≡ age n (lease s w)
  unfolding wait
  lease-wait s n w = S.strings.entry-wait w.strings n (lock_key s)

  pub acquire_lock-granted :
      (s t : String) (ttl : ℕ) (w : World S)
      → 0 < ttl
      → lease s w ≡ none
      → ((acquire_lock s t ttl w).1 ≡ some t)
        × (lease s (acquire_lock s t ttl w).0 ≡ some (t, some ttl))
  unfolding acquire_lock
  acquire_lock-granted s t ttl w p free =
      ground
        (arith, S.strings.entry-set_ex w.strings (lock_key s) (lock_key s) t ttl p, str_eq_refl s)

  pub acquire_lock-contended :
      (s t : String) (ttl : ℕ) (w : World S) {e : Entry}
      → lease s w ≡ some e
      → acquire_lock s t ttl w ≡ (w, none)
  unfolding acquire_lock
  acquire_lock-contended s t ttl w held = ground arith

  pub lease-acquire_lock_ne :
      (s r t : String) (ttl : ℕ) (w : World S)
      → 0 < ttl
      → s ≢ r
      → lease s (acquire_lock r t ttl w).0 ≡ lease s w
  unfolding acquire_lock
  lease-acquire_lock_ne s r t ttl w p ne =
      ground
        (arith, S.strings.entry-set_ex w.strings (lock_key r) (lock_key s) t ttl p, str_eq_iff r s)

  pub refresh_lock-owner :
      (s t : String) (ttl : ℕ) (w : World S) {r : Option ℕ}
      → 0 < ttl
      → lease s w ≡ some (t, r)
      → ((refresh_lock s t ttl w).1 ≡ true)
        × (lease s (refresh_lock s t ttl w).0 ≡ some (t, some ttl))
  unfolding refresh_lock
  refresh_lock-owner s t ttl w p mine = ground (
    arith,
    S.strings.entry-expire w.strings (lock_key s) (lock_key s) ttl p,
    str_eq_refl s,
    str_eq_refl t,
  )

  pub refresh_lock-stale :
      (s t : String) (ttl : ℕ) (w : World S)
      → owns_lock s t w ≡ false
      → refresh_lock s t ttl w ≡ (w, false)
  unfolding refresh_lock owns_lock
  refresh_lock-stale s t ttl w lost = ground arith

  pub lease-refresh_lock_ne :
      (s r t : String) (ttl : ℕ) (w : World S)
      → 0 < ttl
      → s ≢ r
      → lease s (refresh_lock r t ttl w).0 ≡ lease s w
  unfolding refresh_lock
  lease-refresh_lock_ne s r t ttl w p ne =
      ground
        (arith, S.strings.entry-expire w.strings (lock_key r) (lock_key s) ttl p, str_eq_iff r s)

  pub refresh_lock-owned :
      (s t : String) (ttl : ℕ) (w : World S)
      → 0 < ttl
      → owns_lock s t w ≡ true
      → ((refresh_lock s t ttl w).1 ≡ true)
        × (lease s (refresh_lock s t ttl w).0 ≡ some (t, some ttl))
  unfolding refresh_lock owns_lock
  refresh_lock-owned s t ttl w p mine = elim (Option-cases (get w (lock_key s))) [
    | inl e ↦ ground arith
    | inr (v, e) ↦ ground (
      arith,
      S.strings.entry-expire w.strings (lock_key s) (lock_key s) ttl p,
      str_eq_refl s,
      str_eq_iff v t,
    )
  ]

  pub release_lock-owner :
      (s t : String) (w : World S) {r : Option ℕ}
      → lease s w ≡ some (t, r)
      → ((release_lock s t w).1 ≡ true) × (lease s (release_lock s t w).0 ≡ none)
  unfolding release_lock
  release_lock-owner s t w mine =
      ground (
        arith,
        S.strings.entry-del w.strings (lock_key s) (lock_key s),
        str_eq_refl s,
        str_eq_refl t,
      )

  pub release_lock-stale :
      (s t : String) (w : World S) → owns_lock s t w ≡ false → release_lock s t w ≡ (w, false)
  unfolding release_lock owns_lock
  release_lock-stale s t w lost = ground arith

  pub lease-release_lock_ne :
      (s r t : String) (w : World S) → s ≢ r → lease s (release_lock r t w).0 ≡ lease s w
  unfolding release_lock
  lease-release_lock_ne s r t w ne =
      ground (arith, S.strings.entry-del w.strings (lock_key r) (lock_key s), str_eq_iff r s)

  pub owns_lock-lease :
      (s t u : String) (w : World S) {r : Option ℕ}
      → lease s w ≡ some (u, r)
      → owns_lock s t w ≡ str_eq u t
  unfolding owns_lock
  owns_lock-lease s t u w held = ground arith
