-- ===== src/Messages/Validation.antt =====
-- Which messages are valid.
use reddit_kafka.Base.{
  ℕ, ◌≡◌, ◌↔◌, ◌≤◌, refl, ap, ◌==◌, leb, leb→le, ltb, Bool, true, false, ◌&&◌, Option, none, some,
  String, codes, len, fits, arith, if◌then◌else◌, and_split,
}
use reddit_kafka.Messages.{
  RedditCommentMessage, fullmatch, validate_subreddit, validate_author_id, validate_timestamp,
  validate,
}
use reddit_kafka.Messages.Pattern.{Parts, AreDigits, write, fullmatch_iff}

le→leb : (a b : ℕ) → a ≤ b → leb a b ≡ true
le→leb a b h = ground arith

-- the two bounds of a name
abbrev Bounded : String → Type 0
Bounded s = (1 ≤ len s) × (len s ≤ 255)

bounds_lem :
    (n : ℕ)
    → ((if n == 0 then false else if ltb 255 n then false else true) ≡ true) ↔ ((1 ≤ n) × (n ≤ 255))
bounds_lem n = ground arith

utc_true : (o : Option Bool) → (elim o [ none ↦ false | some utc ↦ utc ]) ≡ true → o ≡ some true
utc_true none e = absurd cc
utc_true (some b) e = ap some e

-- The handler of the application accepts the same names as the messages.
pub fits-validate_subreddit : (s : String) → fits s ≡ validate_subreddit s
unfolding validate_subreddit
fits-validate_subreddit s = ground arith

module _ (is_digit : ℕ → Bool) (is_utc : String → Option Bool) where
  -- A message is valid exactly when its subreddit and its author have one to 255 characters, its text
  -- has at least one, and its timestamp is written as a year of four digits, a month, a day, an hour,
  -- a minute and a second of two, with "-", "-", "T", ":" and ":" between them, one to six digits
  -- after a "." or none, and a "Z", and reads as a time in UTC.
  pub validate_iff :
      (m : RedditCommentMessage)
      → (validate is_digit is_utc m ≡ true) ↔ (
          (1 ≤ len m.subreddit)
          × (len m.subreddit ≤ 255)
          × (1 ≤ len m.author_id)
          × (len m.author_id ≤ 255)
          × (1 ≤ len m.text)
          × ((p : Parts) × AreDigits is_digit p × (codes m.timestamp ≡ write p))
          × (is_utc m.timestamp ≡ some true))
  unfolding validate validate_subreddit validate_author_id validate_timestamp
  validate_iff m = (
    λ valid.
        let ts = validate_timestamp is_digit is_utc m.timestamp in
        let (rest, stamped) =
          and_split
            (validate_subreddit m.subreddit && validate_author_id m.author_id && leb 1 (len m.text))
            ts valid in
        let (names, t) =
          and_split (validate_subreddit m.subreddit && validate_author_id m.author_id)
            (leb 1 (len m.text)) rest in
        let (s, a) =
          and_split (validate_subreddit m.subreddit) (validate_author_id m.author_id) names in
        let (f, u) =
          and_split (fullmatch is_digit (codes m.timestamp))
            (elim (is_utc m.timestamp) [ none ↦ false | some utc ↦ utc ]) stamped in
        let sb = (bounds_lem (len m.subreddit)).0 s in
        let ab = (bounds_lem (len m.author_id)).0 a in
        (
          sb.0,
          sb.1,
          ab.0,
          ab.1,
          leb→le 1 (len m.text) t,
          (fullmatch_iff is_digit (codes m.timestamp)).0 f,
          utc_true (is_utc m.timestamp) u,
        ),
    λ (s1, s2, a1, a2, t, written, u).
        rw
          (
            (bounds_lem (len m.subreddit)).1 (s1, s2),
            (bounds_lem (len m.author_id)).1 (a1, a2),
            le→leb 1 (len m.text) t,
            (fullmatch_iff is_digit (codes m.timestamp)).1 written,
            u,
          )
          refl,
  )
