-- ===== src/Worker/Closing.antt =====
-- A worker that cannot prove that it owns its lease stops, and a run that ends gives the lease up
-- and no other.
use reddit_kafka.Base.{
  ℕ, ◌≡◌, ◌≢◌, refl, not, Bool, true, false, Option, none, some, String, arith, str_eq_iff,
  str_eq_refl, Bool-cases, inl, inr,
}
use reddit_kafka.Redis.Keys.{lock_key}
use reddit_kafka.World.{Services, World}
use reddit_kafka.Lock.{refresh_lock, owns_lock, release_lock}
use reddit_kafka.Lock.Laws.{lease, refresh_lock-owned, refresh_lock-stale}
use reddit_kafka.Registry.Status.{heartbeat}
use reddit_kafka.Registry.Checkpoints.{set_checkpoint}
use reddit_kafka.Worker.Comments.{save_checkpoint}
use reddit_kafka.Worker.Control.{
  Identity, Reply, answered, unanswered, cancelled, still_owned, lock_lost, lock_ttl, after_refresh,
  refresh_lock_or_raise, finish_run, FinalCall, completes, fails, cut_off, save_at_end, after_save,
  release_at_end,
}

module _ {S : Services} (me : Identity) where
  strings-heartbeat : (i j now : String) (w : World S) → (heartbeat i j now w).0.strings ≡ w.strings
  unfolding heartbeat
  strings-heartbeat i j now w = ground arith

  -- The refresh returns normally only if the command was answered and the worker owns the lease,
  -- and the lease then has its full time again. Whenever the worker does not own the lease and is
  -- not cancelled, the refresh raises and the stop event is set.
  pub refresh_fails_closed :
      (reply : Reply) (heartbeat_raises : Bool) (now : String) (w : World S)
      → let (w', stops, ending) = refresh_lock_or_raise me reply heartbeat_raises now w in
        (ending ≡ still_owned
          → (reply ≡ answered)
            × (owns_lock me.subreddit me.lock_token w ≡ true)
            × (lease me.subreddit w' ≡ some (me.lock_token, some lock_ttl)))
        × (owns_lock me.subreddit me.lock_token w ≡ false
            → reply ≢ cancelled
            → (ending ≡ lock_lost) × (stops ≡ true) × (w' ≡ w))
  unfolding refresh_lock_or_raise after_refresh
  refresh_fails_closed answered heartbeat_raises now w =
      elim (Bool-cases (owns_lock me.subreddit me.lock_token w)) [
        | inl e ↦ ground (
          arith,
          refresh_lock-owned me.subreddit me.lock_token lock_ttl w (omega arith) e,
          strings-heartbeat me.stream_id me.instance_id now
              (refresh_lock me.subreddit me.lock_token lock_ttl w).0,
        )
        | inr e ↦ ground (arith, refresh_lock-stale me.subreddit me.lock_token lock_ttl w e)
      ]
  refresh_fails_closed (unanswered carried_out) heartbeat_raises now w =
      ground (arith, refresh_lock-stale me.subreddit me.lock_token lock_ttl w)
  refresh_fails_closed cancelled heartbeat_raises now w = ground arith

  pub strings-save_checkpoint :
      (raises : Bool) (processed_at now : String) (w : World S)
      → (save_checkpoint me.stream_id raises processed_at now w).strings ≡ w.strings
  unfolding save_checkpoint set_checkpoint
  strings-save_checkpoint raises processed_at now w = ground arith

  release_lock_either :
      (w : World S) (holder : String) (r : Option ℕ)
      → lease me.subreddit w ≡ some (holder, r)
      → let w' = (release_lock me.subreddit me.lock_token w).0 in
        (holder ≡ me.lock_token → lease me.subreddit w' ≡ none)
        × (holder ≢ me.lock_token → lease me.subreddit w' ≡ some (holder, r))
  unfolding release_lock
  release_lock_either w holder r held = ground (
    arith,
    S.strings.entry-del w.strings (lock_key me.subreddit) (lock_key me.subreddit),
    str_eq_refl me.subreddit,
    str_eq_iff holder me.lock_token,
  )

  -- what is saved at the end of a run is no text
  pub strings-save_at_end :
      (shutdown : Bool) (save : FinalCall) (processed_at now : String) (w : World S)
      → (save_at_end me shutdown save processed_at now w).0.strings ≡ w.strings
  unfolding save_at_end
  strings-save_at_end false save processed_at now w = refl
  strings-save_at_end true completes processed_at now w =
      strings-save_checkpoint false processed_at now w
  strings-save_at_end true (fails done) processed_at now w =
      strings-save_checkpoint (not done) processed_at now w
  strings-save_at_end true (cut_off done) processed_at now w =
      strings-save_checkpoint (not done) processed_at now w

  -- a save that no cancellation cuts off
  uncut-save_at_end :
      (shutdown : Bool) (save : FinalCall) (processed_at now : String) (w : World S)
      → ((done : Bool) → save ≢ cut_off done)
      → (save_at_end me shutdown save processed_at now w).1 ≡ false
  unfolding save_at_end
  uncut-save_at_end false save processed_at now w uncut = refl
  uncut-save_at_end true completes processed_at now w uncut = refl
  uncut-save_at_end true (fails done) processed_at now w uncut = refl
  uncut-save_at_end true (cut_off done) processed_at now w uncut = absurd (uncut done refl)

  uncut-after_save :
      (release : FinalCall) (saved : World S × Bool)
      → saved.1 ≡ false
      → after_save me release saved ≡ release_at_end me release saved.0
  unfolding after_save
  uncut-after_save release (w, true) e = absurd cc
  uncut-after_save release (w, false) e = refl

  -- the `finally` whose save is not cut off and whose release is answered
  pub finish_run_completes :
      (shutdown : Bool) (save : FinalCall) (processed_at now : String) (w : World S)
      → ((done : Bool) → save ≢ cut_off done)
      → finish_run me shutdown save completes processed_at now w ≡ (
        (release_lock me.subreddit me.lock_token
            (save_at_end me shutdown save processed_at now w).0).0,
        false,
      )
  unfolding finish_run release_at_end
  finish_run_completes shutdown save processed_at now w uncut =
      uncut-after_save completes (save_at_end me shutdown save processed_at now w)
        (uncut-save_at_end shutdown save processed_at now w uncut)

  -- A run that ends, after a shutdown or not, whose save is not cut off and whose release is
  -- answered, leaves a lease of its own token free, and the lease of any other token as it was.
  pub finish_run_releases :
      (shutdown : Bool) (save : FinalCall) (processed_at now : String) (w : World S)
      (holder : String) (r : Option ℕ)
      → ((done : Bool) → save ≢ cut_off done)
      → lease me.subreddit w ≡ some (holder, r)
      → let w' = (finish_run me shutdown save completes processed_at now w).0 in
        (holder ≡ me.lock_token → lease me.subreddit w' ≡ none)
        × (holder ≢ me.lock_token → lease me.subreddit w' ≡ some (holder, r))
  finish_run_releases shutdown save processed_at now w holder r uncut held =
      let saved = (save_at_end me shutdown save processed_at now w).0 in
      rw (finish_run_completes shutdown save processed_at now w uncut) (
        release_lock_either saved holder r
          (ground (arith, strings-save_at_end shutdown save processed_at now w, held)))

  -- A `finally` that is cut off in the save after a shutdown passes the cancellation on, and leaves
  -- every lease as it was.
  pub finish_run_cut_off :
      (done : Bool) (release : FinalCall) (processed_at now : String) (w : World S)
      → let (w', cut) = finish_run me true (cut_off done) release processed_at now w in
        (cut ≡ true) × (w'.strings ≡ w.strings)
  unfolding finish_run after_save save_at_end
  finish_run_cut_off done release processed_at now w =
      (refl, strings-save_checkpoint (not done) processed_at now w)
