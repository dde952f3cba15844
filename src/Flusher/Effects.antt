-- ===== src/Flusher/Effects.antt =====
-- What a flush stores in Postgres, and what it leaves in the index of the instance.
use reddit_kafka.Base.{
  ◌≡◌, refl, ap, ◌∙◌, Bool, true, false, not, ◌&&◌, Option, none, some, List, [], ◌∷◌, String, has,
  arith, str_eq, str_eq_iff, Bool-cases, Option-cases, inl, inr, str_cases, if◌then◌else◌,
}
use reddit_kafka.Redis.Keys.{Key, key_eq_iff, meta_key, instance_key}
use reddit_kafka.Commands.{hgetall, smembers, srem}
use reddit_kafka.World.{Services, World, CheckpointRow, updated_row}
use reddit_kafka.Registry.Reading.{srem_all}
use reddit_kafka.Registry.Frames.{srem_all-keeps}
use reddit_kafka.Flusher.{
  is_owned, add_row, row_of, collect, upsert_checkpoints, flush_collected, flush_ids, flush,
}

-- the new row, or the old one
abbrev pub or_row : Option CheckpointRow → Option CheckpointRow → Option CheckpointRow
or_row none old = old
or_row (some row) _ = some row

updated_row-add_row :
    (x i : String) (r : Option CheckpointRow) (rows : List (String × CheckpointRow))
    (old : Option CheckpointRow)
    → updated_row x (add_row i r rows) old
      ≡ updated_row x rows (if str_eq i x then or_row r old else old)
updated_row-add_row x i none rows old = ground arith
updated_row-add_row x i (some r) rows old = refl

or_row_twice : (r old : Option CheckpointRow) → or_row r (or_row r old) ≡ or_row r old
or_row_twice none old = refl
or_row_twice (some r) old = refl

module _ {S : Services} where
  -- whether the stored mapping of a stream names the instance
  abbrev pub owns_stream : String → World S → String → Bool
  owns_stream instance_id w i = is_owned instance_id (hgetall w (meta_key i))

module _ {S : Services} (from_iso : String → Option String) (me : String) where
  stale_lem :
      (w : World S) (ids : List String) (x : String)
      → has x (collect from_iso me w ids).0 ≡ (has x ids && not (owns_stream me w x))
  unfolding collect
  stale_lem w [] x = refl
  stale_lem w (i ∷ ids) x = ground (arith, stale_lem w ids x, str_eq_iff i x)

  rows_lem :
      (w : World S) (ids : List String) (x : String) (old : Option CheckpointRow)
      → updated_row x (collect from_iso me w ids).1 old
        ≡ (if has x ids && owns_stream me w x then or_row (row_of from_iso w x) old else old)
  unfolding collect
  rows_lem w [] x old = refl
  rows_lem w (i ∷ ids) x old =
      let rest = (collect from_iso me w ids).1 in
      let r = row_of from_iso w i in
      elim (Bool-cases (owns_stream me w i)) [
        | inl e ↦
            rw (e, collect)
              (updated_row-add_row x i r rest old
                ∙ rows_lem w ids x (if str_eq i x then or_row r old else old)
                ∙ (elim (str_cases i x) [
                  | inl same ↦ ground (
                    arith,
                    str_eq_iff i x,
                    ap (owns_stream me w) same,
                    ap (row_of from_iso w) same,
                    or_row_twice r old,
                  )
                  | inr ne ↦ ground (arith, str_eq_iff i x)
                ]))
        | inr e ↦
            rw (e, collect)
              (rows_lem w ids x old ∙ (elim (str_cases i x) [
                | inl same ↦ ground (arith, str_eq_iff i x, ap (owns_stream me w) same)
                | inr ne ↦ ground (arith, str_eq_iff i x)
              ]))
      ]

  has-srem_all :
      (k : Key) (xs : List String) (w : World S) (x : String)
      → has x (smembers (srem_all k xs w) k) ≡ (has x (smembers w k) && not (has x xs))
  unfolding srem_all
  has-srem_all k [] w x = ground arith
  has-srem_all k (y ∷ xs) w x = ground (
    arith,
    has-srem_all k xs (srem k y w) x,
    S.sets.has-srem w.sets k k y x,
    (key_eq_iff k k).1 refl,
  )

  flush_collected_lem :
      (stale : List String) (rows : List (String × CheckpointRow)) (w : World S)
      → let (w', done) = flush_collected from_iso me (stale, rows) w in
        (done ≡ true
          → (i : String)
          → S.postgres.checkpoint w'.db i ≡ updated_row i rows (S.postgres.checkpoint w.db i))
        × (done ≡ false → w'.db ≡ w.db)
        × (w'.hashes ≡ w.hashes)
        × (w'.strings ≡ w.strings)
        × (w'.sets ≡ (srem_all (instance_key me) stale w).sets)
  unfolding flush_collected
  flush_collected_lem stale [] w =
      let (same_strings, same_hashes, same_db) = srem_all-keeps (instance_key me) stale w in
      (
        λ done i. ap (λ (db : S.postgres.Db). S.postgres.checkpoint db i) same_db,
        λ no. same_db,
        same_hashes,
        same_strings,
        refl,
      )
  flush_collected_lem stale (row ∷ rows) w =
      let trimmed = srem_all (instance_key me) stale w in
      let (same_strings, same_hashes, same_db) = srem_all-keeps (instance_key me) stale w in
      elim (Option-cases (S.postgres.upsert_checkpoints (row ∷ rows) trimmed.db)) [
        | inl e ↦
            rw (e, flush_collected, upsert_checkpoints)
              ((λ done. cc), (λ no. same_db), same_hashes, same_strings, refl)
        | inr (db, e) ↦
            rw (e, flush_collected, upsert_checkpoints)
              (
                λ done i.
                    S.postgres.checkpoint-upsert_checkpoints (row ∷ rows) trimmed.db db i e
                    ∙ ap
                        (λ (b : S.postgres.Db).
                          updated_row i (row ∷ rows) (S.postgres.checkpoint b i))
                        same_db,
                λ no. cc,
                same_hashes,
                same_strings,
                refl,
              )
      ]

  flush_ids_lem :
      (ids : List String) (w : World S)
      → let (w', done) = flush_ids from_iso me ids w in
        (done ≡ true
          → (i : String)
          → S.postgres.checkpoint w'.db i ≡ (
              if has i ids && owns_stream me w i
              then or_row (row_of from_iso w i) (S.postgres.checkpoint w.db i)
              else S.postgres.checkpoint w.db i))
        × (done ≡ false → w'.db ≡ w.db)
        × (w'.hashes ≡ w.hashes)
        × (w'.strings ≡ w.strings)
        × ((i : String)
            → has i (smembers w' (instance_key me)) ≡ (
                has i (smembers w (instance_key me))
                && not (has i ids && not (owns_stream me w i))))
  unfolding flush_ids
  flush_ids_lem [] w = ((λ done i. refl), (λ no. refl), refl, refl, λ i. ground arith)
  flush_ids_lem (j ∷ ids) w =
      let (stale, rows) = collect from_iso me w (j ∷ ids) in
      let law = flush_collected_lem stale rows w in
      (
        λ done i. law.0 done i ∙ rows_lem w (j ∷ ids) i (S.postgres.checkpoint w.db i),
        law.1,
        law.2,
        law.3,
        λ i.
            ap (λ (s : S.sets.Store). has i (S.sets.smembers s (instance_key me))) law.4
            ∙ has-srem_all (instance_key me) stale w i
            ∙ ap (λ (b : Bool). has i (smembers w (instance_key me)) && not b)
                (stale_lem w (j ∷ ids) i),
      )

  -- A flush that ends without an error stores, for each stream that the index of the instance names
  -- and whose mapping names the instance, the row of its checkpoint if there is one that can be
  -- parsed; the rows of all other streams stay as they were. A flush that fails changes no row. In
  -- Redis, either way, it changes no mapping and no text.
  pub flush_exact :
      (w : World S)
      → let (w', done) = flush from_iso me w in
        (done ≡ true
          → (i : String)
          → S.postgres.checkpoint w'.db i ≡ (
              if has i (smembers w (instance_key me)) && owns_stream me w i
              then or_row (row_of from_iso w i) (S.postgres.checkpoint w.db i)
              else S.postgres.checkpoint w.db i))
        × (done ≡ false → w'.db ≡ w.db)
        × (w'.hashes ≡ w.hashes)
        × (w'.strings ≡ w.strings)
  unfolding flush
  flush_exact w =
      let law = flush_ids_lem (smembers w (instance_key me)) w in (law.0, law.1, law.2, law.3)

  -- After a flush, whether it ends with an error or not, the index of the instance names exactly
  -- the streams that it named before and whose mapping names the instance.
  pub flush_prunes :
      (w : World S) (i : String)
      → has i (smembers (flush from_iso me w).0 (instance_key me))
        ≡ (has i (smembers w (instance_key me)) && owns_stream me w i)
  unfolding flush
  flush_prunes w i = (flush_ids_lem (smembers w (instance_key me)) w).4 i ∙ ground arith
