-- ===== src/Lock/Leases.antt =====
-- Any number of instances use the leases, in any order, while time passes.
use reddit_kafka.Base.{
  ℕ, suc, ◌+◌, ◌≡◌, ◌≢◌, ◌≤◌, ◌<◌, Bool, true, false, none, some, String, List, [], ◌∷◌, All,
  is_some, arith, str_eq, str_eq_iff, str_eq_refl, str_cases, inl, inr, refl, sym, ◌∙◌, ap, ◌-◌,
  ◌&&◌, if◌then◌else◌,
}
use reddit_kafka.Redis.{age}
use reddit_kafka.World.{Services, World}
use reddit_kafka.Lock.{acquire_lock, refresh_lock, owns_lock, release_lock}
use reddit_kafka.Lock.Laws.{
  lease, wait, lease-wait, acquire_lock-granted, acquire_lock-contended, lease-acquire_lock_ne,
  refresh_lock-owner, refresh_lock-stale, lease-refresh_lock_ne, release_lock-stale,
  lease-release_lock_ne, owns_lock-lease,
}

-- A call of some instance, or time that passes.
pub data Op : Type 0 where
  acquire refresh : String → String → ℕ → Op
  release : String → String → Op
  pass : ℕ → Op

-- the seconds that pass
abbrev pub waits : List Op → ℕ
waits [] = 0
waits (pass n ∷ ops) = n + waits ops
waits (_ ∷ ops) = waits ops

waits-cons : (op : Op) (ops : List Op) → waits (op ∷ ops) ≡ waits (op ∷ []) + waits ops
waits-cons (pass n) ops = omega arith
waits-cons _ ops = omega arith

-- An operation that does not give the lease of `s` away: every TTL is at least `ttl`, and the
-- token `t` is not used to release it.
abbrev pub Keeps : String → String → ℕ → Op → Type 0
Keeps s t ttl (acquire _ _ n) = ttl ≤ n
Keeps s t ttl (refresh _ _ n) = ttl ≤ n
Keeps s t ttl (release r u) = r ≡ s → u ≢ t
Keeps s t ttl (pass _) = Unit

module _ {S : Services} where
  unfoldable pub apply : Op → World S → World S
  apply (acquire s t ttl) w = (acquire_lock s t ttl w).0
  apply (refresh s t ttl) w = (refresh_lock s t ttl w).0
  apply (release s t) w = (release_lock s t w).0
  apply (pass n) w = wait n w

  unfoldable pub run : List Op → World S → World S
  unfolding apply
  run [] w = w
  run (op ∷ ops) w = run ops (apply op w)

  -- whether the operation is an acquisition of `s` that is granted
  unfoldable pub is_grant : String → Op → World S → Bool
  is_grant s (acquire r t ttl) w = str_eq r s && is_some (acquire_lock r t ttl w).1
  is_grant s _ w = false

  -- how many acquisitions of `s` are granted
  unfoldable pub grants : String → List Op → World S → ℕ
  unfolding is_grant apply
  grants s [] w = 0
  grants s (op ∷ ops) w =
      let rest = grants s ops (apply op w) in if is_grant s op w then suc rest else rest

  -- the lease of `s` belongs to `t` for more than `n` seconds
  abbrev Held : String → String → ℕ → World S → Type 0
  Held s t n w = (k : ℕ) × (lease s w ≡ some (t, some k)) × (n < k)

  apply-Held :
      (op : Op) (w : World S) (s t : String) (ttl n : ℕ)
      → n < ttl
      → Keeps s t ttl op
      → Held s t (waits (op ∷ []) + n) w
      → Held s t n (apply op w)
  unfolding apply
  apply-Held (acquire r u m) w s t ttl n small keep (k, held, enough) = (
    k,
    grind (
      arith,
      acquire_lock-contended s u m w held,
      lease-acquire_lock_ne s r u m w,
      str_cases r s,
    ),
    omega arith,
  )
  apply-Held (refresh r u m) w s t ttl n small keep (k, held, enough) = elim (str_cases s r) [
    | inr other ↦ (k, lease-refresh_lock_ne s r u m w (omega arith) other ∙ held, omega arith)
    | inl same ↦ elim (str_cases u t) [
      | inl mine ↦
          (m, rw (← same, mine) ((refresh_lock-owner s t m w (omega arith) held).1), omega arith)
      | inr stale ↦ (
        k,
        rw (← same) (
            ground
              (arith, refresh_lock-stale s u m w, owns_lock-lease s u t w held, str_eq_iff t u)),
        omega arith,
      )
    ]
  ]
  apply-Held (release r u) w s t ttl n small keep (k, held, enough) = elim (str_cases s r) [
    | inr other ↦ (k, lease-release_lock_ne s r u w other ∙ held, omega arith)
    | inl same ↦ (
      k,
      rw (← same) (
          ground (
            arith,
            release_lock-stale s u w,
            owns_lock-lease s u t w held,
            str_eq_iff t u,
            keep (sym same),
          )),
      omega arith,
    )
  ]
  apply-Held (pass m) w s t ttl n small keep (k, held, enough) =
      (k - m, ground (arith, lease-wait s m w), omega arith)

  is_grant-Held :
      (op : Op) (w : World S) (s t : String) (n : ℕ) → Held s t n w → is_grant s op w ≡ false
  unfolding is_grant
  is_grant-Held (acquire r u m) w s t n (k, held, enough) =
      ground (arith, acquire_lock-contended s u m w held, str_eq_iff r s)
  is_grant-Held _ w s t n h = refl

  run-Held :
      (ops : List Op) (w : World S) (s t : String) (ttl : ℕ)
      → waits ops < ttl
      → All (Keeps s t ttl) ops
      → Held s t (waits ops) w
      → Held s t 0 (run ops w) × (grants s ops w ≡ 0)
  unfolding run grants
  run-Held [] w s t ttl small keep held = (held, refl)
  run-Held (op ∷ ops) w s t ttl small (keep, more) (k, held, enough) =
      let e = waits-cons op ops in
      let next =
        apply-Held op w s t ttl (waits ops) (omega (arith, e)) keep (k, held, omega (arith, e)) in
      let (still, none_later) = run-Held ops (apply op w) s t ttl (omega (arith, e)) more next in
      (still, rw (is_grant-Held op w s t 0 (k, held, omega arith)) none_later)

  -- While an instance holds the lease of a subreddit for `r` more seconds, then, whatever any
  -- instances do in whatever order during less than `r` seconds, with TTLs of `r` or more and
  -- without a release by that token: the token still owns the lease at the end, and no acquisition
  -- of that subreddit has been granted.
  pub lease_exclusive :
      (ops : List Op) (w : World S) (s t : String) (r : ℕ)
      → lease s w ≡ some (t, some r)
      → waits ops < r
      → All (Keeps s t r) ops
      → (owns_lock s t (run ops w) ≡ true) × (grants s ops w ≡ 0)
  lease_exclusive ops w s t r held enough keep =
      let ((k, still, _), none_granted) = run-Held ops w s t r enough keep (r, held, enough) in
      (owns_lock-lease s t t (run ops w) still ∙ str_eq_refl t, none_granted)

  -- After an acquisition with a TTL, `n` seconds in which nobody else calls: before the TTL is over
  -- another acquisition is refused and changes nothing; from then on it is granted, and the first
  -- token can neither refresh nor release the lease of the second.
  pub lease_failover :
      (w : World S) (s t u : String) (ttl n : ℕ)
      → t ≢ u
      → 0 < ttl
      → lease s w ≡ none
      → let later = wait n (acquire_lock s t ttl w).0 in
        let taken = (acquire_lock s u ttl later).0 in
        (n < ttl → acquire_lock s u ttl later ≡ (later, none))
        × (ttl ≤ n
            → (lease s taken ≡ some (u, some ttl))
              × (refresh_lock s t ttl taken ≡ (taken, false))
              × (release_lock s t taken ≡ (taken, false)))
  lease_failover w s t u ttl n ne p free =
      let first = (acquire_lock s t ttl w).0 in
      let aged = lease-wait s n first ∙ ap (age n) (acquire_lock-granted s t ttl w p free).1 in
      (
        λ early.
            acquire_lock-contended s u ttl (wait n first) {e = (t, some (ttl - n))}
              (aged ∙ ground arith),
        λ over.
            let second = (acquire_lock s u ttl (wait n first)).0 in
            let fresh = (acquire_lock-granted s u ttl (wait n first) p (aged ∙ ground arith)).1 in
            let lost = owns_lock-lease s t u second fresh ∙ ground (arith, str_eq_iff u t) in
            (fresh, refresh_lock-stale s t ttl second lost, release_lock-stale s t second lost),
      )
