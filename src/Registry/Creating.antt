-- ===== src/Registry/Creating.antt =====
-- What `create_stream` does for a free and for a taken subreddit, and after a deletion.
use reddit_kafka.Base.{
  ◌≡◌, refl, ap, ◌∙◌, Bool, true, Option, none, some, Dict, String, has, lookup, truthy, arith,
  str_eq_refl, get_or_else,
}
use reddit_kafka.Errors.{Foreign, ok, err, stream_exists_error}
use reddit_kafka.Redis.{or_field}
use reddit_kafka.Redis.Keys.{
  meta_key, checkpoint_key, subreddit_key, identity_key, all_streams_key, instance_key,
}
use reddit_kafka.Commands.{get, hget, hgetall, smembers, set, set_nx}
use reddit_kafka.World.{Services, World}
use reddit_kafka.Registry.Fields.{new_meta, or_blank}
use reddit_kafka.Registry.Creation.{
  register_stream, claim_stream, create_stream_among, create_stream,
}

module _ {S : Services} (f : Foreign) (persists : Bool) (subreddit : String)
    (instance_id : Option String) (config candidate created updated : String) (w : World S) where
  -- the identity that a creation gets: the stored one, or the candidate
  abbrev pub resolved : String
  resolved = get_or_else (get w (identity_key subreddit)) candidate

  register_stream-keeps :
      (i : String) (m : Dict String) (v : World S)
      → ((register_stream persists i subreddit instance_id config m v).strings ≡ v.strings)
        × ((register_stream persists i subreddit instance_id config m v).hashes
            ≡ S.hashes.hset v.hashes (meta_key i) m)
        × (has i (
              smembers
                (register_stream persists i subreddit instance_id config m v)
                all_streams_key)
            ≡ true)
  unfolding register_stream
  register_stream-keeps i m v = (
    ground arith,
    ground arith,
    ground (
      arith,
      S.sets.has-sadd v.sets all_streams_key all_streams_key i i,
      S.sets.has-sadd (S.sets.sadd v.sets all_streams_key i) (instance_key (or_blank instance_id))
          all_streams_key i i,
      str_eq_refl i,
    ),
  )

  -- the state in which the mapping is stored: the identity and the claim are there
  claimed_state : World S
  claimed_state =
      set (subreddit_key subreddit) resolved (set_nx (identity_key subreddit) candidate w).0

  create_stream-eq :
      get w (subreddit_key subreddit) ≡ none
      → truthy resolved ≡ true
      → let meta = new_meta resolved subreddit instance_id config created updated in
        create_stream {f = f} persists subreddit instance_id config candidate created updated w ≡ (
          register_stream persists resolved subreddit instance_id config meta claimed_state,
          ok meta,
        )
  unfolding create_stream create_stream_among claimed_state
  create_stream-eq free named = ground (
    arith,
    S.strings.entry-set w.strings (identity_key subreddit) (subreddit_key subreddit) candidate,
  )

  strings-claimed_state :
      (get claimed_state (subreddit_key subreddit) ≡ some resolved)
      × (get claimed_state (identity_key subreddit) ≡ some resolved)
  unfolding claimed_state
  strings-claimed_state = (
    simp S.strings.entry-set (ground (arith, str_eq_refl subreddit)),
    simp S.strings.entry-set (
        ground (
          arith,
          S.strings.entry-set w.strings (identity_key subreddit) (identity_key subreddit) candidate,
          str_eq_refl subreddit,
        )),
  )

  hashes-claimed_state : claimed_state.hashes ≡ w.hashes
  unfolding claimed_state
  hashes-claimed_state = ground arith

  -- A subreddit that no stream claims, with an identity that is not the empty text: the creation
  -- succeeds, with the stored identity if there is one and else the new one, and stores the claim,
  -- the identity, the mapping and the listing. The checkpoint of that identity remains.
  pub create_stream_free :
      get w (subreddit_key subreddit) ≡ none
      → truthy resolved ≡ true
      → let meta = new_meta resolved subreddit instance_id config created updated in
        let (w', r) =
          create_stream {f = f} persists subreddit instance_id config candidate created updated w in
        (r ≡ ok meta)
        × (get w' (subreddit_key subreddit) ≡ some resolved)
        × (get w' (identity_key subreddit) ≡ some resolved)
        × ((field : String)
            → hget w' (meta_key resolved) field
              ≡ or_field (lookup field meta) (hget w (meta_key resolved) field))
        × (has resolved (smembers w' all_streams_key) ≡ true)
        × (hgetall w' (checkpoint_key resolved) ≡ hgetall w (checkpoint_key resolved))
  create_stream_free free named =
      let meta = new_meta resolved subreddit instance_id config created updated in
      let done =
        register_stream persists resolved subreddit instance_id config meta claimed_state in
      let (same_strings, new_hashes, listed) = register_stream-keeps resolved meta claimed_state in
      let stored =
        new_hashes
        ∙ ap (λ (h : S.hashes.Store). S.hashes.hset h (meta_key resolved) meta)
            hashes-claimed_state in
      rw (create_stream-eq free named) (
        refl,
        rw same_strings strings-claimed_state.0,
        rw same_strings strings-claimed_state.1,
        λ field. rw stored (
            ground (
              arith,
              S.hashes.lookup-hset w.hashes (meta_key resolved) (meta_key resolved) meta field,
              str_eq_refl resolved,
            )),
        listed,
        rw stored (
            S.hashes.hgetall-hset_ne w.hashes (meta_key resolved) (checkpoint_key resolved) meta
              refl),
      )

  -- A subreddit that a stream claims: the creation raises `StreamExistsError`, and at most stores
  -- the claim as the identity where there was none. Mappings, sets and Postgres stay as they are.
  pub create_stream_taken :
      {i : String}
      → get w (subreddit_key subreddit) ≡ some i
      → truthy i ≡ true
      → let (w', r) =
          create_stream {f = f} persists subreddit instance_id config candidate created updated w in
        (r ≡ err stream_exists_error)
        × (get w' (subreddit_key subreddit) ≡ some i)
        × (get w' (identity_key subreddit) ≡ some (get_or_else (get w (identity_key subreddit)) i))
        × (w'.hashes ≡ w.hashes)
        × (w'.sets ≡ w.sets)
        × (w'.db ≡ w.db)
  unfolding create_stream create_stream_among
  create_stream_taken {i} taken named = (
    ground arith,
    ground
        (arith, S.strings.entry-set w.strings (identity_key subreddit) (subreddit_key subreddit) i),
    ground (
      arith,
      S.strings.entry-set w.strings (identity_key subreddit) (identity_key subreddit) i,
      str_eq_refl subreddit,
    ),
    ground arith,
    ground arith,
    ground arith,
  )

  module _ (before_identity before_claim : World S → World S) where
    -- A subreddit that a stream claims at the first read, whatever others do then: the creation
    -- raises `StreamExistsError`, and mappings, sets and Postgres stay as others have left them.
    pub create_stream_among_taken :
        {i : String}
        → get w (subreddit_key subreddit) ≡ some i
        → truthy i ≡ true
        → let (w', r) =
            create_stream_among {f = f} before_identity before_claim persists subreddit instance_id
              config candidate created updated w in
          (r ≡ err stream_exists_error)
          × (w'.hashes ≡ (before_identity w).hashes)
          × (w'.sets ≡ (before_identity w).sets)
          × (w'.db ≡ (before_identity w).db)
    unfolding create_stream_among
    create_stream_among_taken {i} taken named =
        (ground arith, ground arith, ground arith, ground arith)

    -- A subreddit that is free at the first read and that another creator claims before this one
    -- does: the creation raises `StreamExistsError` and leaves everything as others have left it.
    pub create_stream_among_lost :
        {i : String}
        → let met = before_identity w in
          let before = before_claim (set_nx (identity_key subreddit) candidate met).0 in
          get w (subreddit_key subreddit) ≡ none
          → truthy (get_or_else (get met (identity_key subreddit)) candidate) ≡ true
          → get before (subreddit_key subreddit) ≡ some i
          → create_stream_among {f = f} before_identity before_claim persists subreddit instance_id
              config candidate created updated w
            ≡ (before, err stream_exists_error)
    unfolding create_stream_among claim_stream
    create_stream_among_lost {i} free named lost = ground (
      arith,
      S.strings.entry-set (before_identity w).strings (identity_key subreddit)
          (identity_key subreddit) candidate,
      str_eq_refl subreddit,
    )
