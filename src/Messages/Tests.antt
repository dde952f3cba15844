-- ===== src/Messages/Tests.antt =====
-- The validation of a message at concrete inputs.
use reddit_kafka.Base.{
  ℕ, ◌≡◌, ◌↔◌, ◌≤◌, refl, leb, Bool, true, false, ◌&&◌, Option, some, String, codes, len,
}
use reddit_kafka.Messages.{
  RedditCommentMessage, match_digits, match_fraction, match_digits_and_end, match_end, match_field,
  skip, and_then, fullmatch, validate_subreddit, validate_author_id, validate_timestamp, validate,
}
use reddit_kafka.Messages.Pattern.{Parts, AreDigits, write}
use reddit_kafka.Messages.Validation.{validate_iff}

abbrev ascii_digit : ℕ → Bool
ascii_digit c = leb 48 c && leb c 57

abbrev always_utc : String → Option Bool
always_utc _ = some true

abbrev message : String → RedditCommentMessage
message timestamp = record {
  subreddit = "python";
  author_id = "[deleted]";
  text = "hi";
  timestamp = timestamp;
}

micro_valid : validate ascii_digit always_utc (message "2026-11-25T20:15:09.000123Z") ≡ true
unfolding validate validate_subreddit validate_author_id validate_timestamp fullmatch match_field
    match_digits match_end match_digits_and_end match_fraction skip and_then
micro_valid = refl

offset_invalid : validate ascii_digit always_utc (message "2026-11-25T20:15:09+00:00") ≡ false
unfolding validate validate_subreddit validate_author_id validate_timestamp fullmatch match_field
    match_digits match_end match_digits_and_end match_fraction skip and_then
offset_invalid = refl

long_fraction_invalid :
    validate ascii_digit always_utc (message "2026-11-25T20:15:09.0001234Z") ≡ false
unfolding validate validate_subreddit validate_author_id validate_timestamp fullmatch match_field
    match_digits match_end match_digits_and_end match_fraction skip and_then
long_fraction_invalid = refl

validate_iff_example :
    let m = message "2026-11-25T20:15:09Z" in
    (validate ascii_digit always_utc m ≡ true) ↔ (
      (1 ≤ len m.subreddit)
      × (len m.subreddit ≤ 255)
      × (1 ≤ len m.author_id)
      × (len m.author_id ≤ 255)
      × (1 ≤ len m.text)
      × ((p : Parts) × AreDigits ascii_digit p × (codes m.timestamp ≡ write p))
      × (always_utc m.timestamp ≡ some true))
validate_iff_example = validate_iff ascii_digit always_utc (message "2026-11-25T20:15:09Z")
