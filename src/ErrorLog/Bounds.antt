-- ===== src/ErrorLog/Bounds.antt =====
-- What the list of errors holds after an error has been recorded.
use native.Mathlib.Numerals.{add-one}
use reddit_kafka.Base.{
  ℕ, zero, suc, ◌+◌, ◌≤◌, ◌<◌, ◌≡◌, ◌≢◌, refl, ap, ◌∙◌, Bool, true, none, some, List, [], ◌∷◌,
  String, truthy, take, length, min, arith, str_eq_iff, str_eq_refl,
}
use reddit_kafka.Redis.Keys.{errors_key}
use reddit_kafka.World.{Services, World}
use reddit_kafka.ErrorLog.{
  error_ttl, last_kept, last_index, only_truthy, record_error, get_error_count, get_recent_errors,
}

length-take {ℓ} : {A : Type ℓ} (n : ℕ) (xs : List A) → length (take n xs) ≡ min n (length xs)
length-take zero xs = omega arith
length-take (suc n) [] = omega arith
length-take (suc n) (x ∷ xs) = omega (arith, length-take n xs)

take-take {ℓ} : {A : Type ℓ} (n m : ℕ) (xs : List A) → n ≤ m → take n (take m xs) ≡ take n xs
take-take zero m xs h = refl
take-take (suc n) zero xs h = absurd (omega arith)
take-take (suc n) (suc m) [] h = refl
take-take (suc n) (suc m) (x ∷ xs) h = ap (◌∷◌ x) (take-take n m xs (omega arith))

last_index-suc : (n : ℕ) → last_index (suc n) ≡ some n
last_index-suc n = ground arith

module _ {S : Services} (persists : Bool)
    (stream_id entry_id entry error_type message timestamp : String) (recoverable : Bool)
    (w : World S) where
  abbrev recorded : World S
  recorded =
      record_error persists stream_id entry_id entry error_type message recoverable timestamp w

  -- all entries of a stream
  abbrev entries : World S → String → List String
  entries v i = S.lists.lrange v.lists (errors_key i) none

  lists-record_error :
      recorded.lists
      ≡ S.lists.expire
          (S.lists.ltrim
            (S.lists.lpush w.lists (errors_key stream_id) entry)
            (errors_key stream_id)
            last_kept)
          (errors_key stream_id)
          error_ttl
  unfolding record_error
  lists-record_error = ground arith

  entries-record_error : entries recorded stream_id ≡ take 100 (entry ∷ entries w stream_id)
  entries-record_error =
      let pushed = S.lists.lpush w.lists (errors_key stream_id) entry in
      let trimmed = S.lists.ltrim pushed (errors_key stream_id) last_kept in
      rw lists-record_error (
        S.lists.lrange-expire trimmed (errors_key stream_id) (errors_key stream_id) error_ttl
          (omega arith)
        ∙ ground (
          arith,
          S.lists.lrange-ltrim pushed (errors_key stream_id) (errors_key stream_id) last_kept,
          S.lists.lrange-lpush w.lists (errors_key stream_id) (errors_key stream_id) entry,
          str_eq_refl stream_id,
        ))

  -- Recording an error of a stream makes its count one larger, up to 100.
  pub get_error_count-record_error :
      get_error_count stream_id recorded ≡ min 100 (get_error_count stream_id w + 1)
  unfolding get_error_count
  get_error_count-record_error =
      S.lists.llen_lem recorded.lists (errors_key stream_id)
      ∙ ap length entries-record_error
      ∙ omega (
        arith,
        length-take 99 (entries w stream_id),
        S.lists.llen_lem w.lists (errors_key stream_id),
      )

  -- The errors of a stream, read with a limit from 1 to 100 right after one was recorded, begin
  -- with that one, and go on with those that the limit less one gave before.
  pub get_recent_errors-record_error :
      (limit : ℕ)
      → limit < 100
      → truthy entry ≡ true
      → get_recent_errors stream_id (suc limit) recorded
        ≡ entry ∷ only_truthy (take limit (entries w stream_id))
  unfolding get_recent_errors
  get_recent_errors-record_error limit h t =
      let all = ◌∷◌ entry (entries w stream_id) in
      let read = S.lists.lrange_lem recorded.lists (errors_key stream_id) limit in
      let cut =
        ap (take (limit + 1)) entries-record_error ∙ take-take (limit + 1) 100 all (omega arith) in
      rw (last_index-suc limit)
        (ap only_truthy (read ∙ cut ∙ ap (λ (n : ℕ). take n all) (add-one limit)) ∙ rw t)

  -- Recording an error leaves the entries of every other stream as they are.
  pub entries-record_error_ne :
      (other : String) → other ≢ stream_id → entries recorded other ≡ entries w other
  entries-record_error_ne other ne =
      let pushed = S.lists.lpush w.lists (errors_key stream_id) entry in
      let trimmed = S.lists.ltrim pushed (errors_key stream_id) last_kept in
      rw lists-record_error (
        S.lists.lrange-expire trimmed (errors_key stream_id) (errors_key other) error_ttl
          (omega arith)
        ∙ ground (
          arith,
          S.lists.lrange-ltrim pushed (errors_key stream_id) (errors_key other) last_kept,
          S.lists.lrange-lpush w.lists (errors_key stream_id) (errors_key other) entry,
          str_eq_iff stream_id other,
        ))
