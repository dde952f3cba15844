-- ===== src/Messages.antt =====
-- apps/reddit-kafka/src/models/reddit_comment.py: the message that is published for a comment, and its
-- validation. `is_digit` tells which characters `\d` of a pattern matches, and `is_utc` what
-- `datetime.fromisoformat` makes of a text: whether the zone is UTC, or `none` where it raises.
pub mod Pattern
pub mod Validation
mod Tests
use reddit_kafka.Base.{
  ℕ, zero, suc, ◌==◌, leb, ltb, Bool, true, false, ◌&&◌, ◌||◌, Option, none, some, List, [], ◌∷◌,
  String, codes, len, if◌then◌else◌,
}

pub record RedditCommentMessage : Type 0 where
  pub subreddit : String
  pub author_id : String
  pub text : String
  pub timestamp : String

-- whether a text is one character
abbrev pub is_one : ℕ → List ℕ → Bool
is_one c [] = false
is_one c (d ∷ []) = d == c
is_one c (d ∷ _ ∷ _) = false

-- a character at the start, and what follows it
unfoldable pub skip : ℕ → Option (List ℕ) → Option (List ℕ)
skip mark none = none
skip mark (some []) = none
skip mark (some (c ∷ rest)) = if c == mark then some rest else none

-- the part of a pattern that follows
unfoldable pub and_then : Option (List ℕ) → (List ℕ → Bool) → Bool
and_then none k = false
and_then (some rest) k = k rest

-- `validate_subreddit` and `validate_author_id`, where they do not raise
unfoldable pub validate_subreddit : String → Bool
validate_subreddit value =
    if len value == 0 then false else if ltb 255 (len value) then false else true

unfoldable pub validate_author_id : String → Bool
validate_author_id value =
    if len value == 0 then false else if ltb 255 (len value) then false else true

module _ (is_digit : ℕ → Bool) where
  -- `\d{n}` at the start of a text, and what follows it
  unfoldable pub match_digits : ℕ → List ℕ → Option (List ℕ)
  match_digits zero cs = some cs
  match_digits (suc n) [] = none
  match_digits (suc n) (c ∷ cs) = let rest = match_digits n cs in if is_digit c then rest else none

  -- `\d{0,n}Z` to the end of a text
  unfoldable pub match_fraction : ℕ → List ℕ → Bool
  match_fraction zero cs = is_one 90 cs
  match_fraction (suc n) [] = false
  match_fraction (suc n) (c ∷ cs) =
      let rest = match_fraction n cs in is_one 90 (c ∷ cs) || (is_digit c && rest)

  -- `\d{1,6}Z` to the end
  unfoldable pub match_digits_and_end : List ℕ → Bool
  unfolding match_fraction
  match_digits_and_end [] = false
  match_digits_and_end (c ∷ cs) = is_digit c && match_fraction 5 cs

  -- `(?:\.\d{1,6})?Z` to the end
  unfoldable pub match_end : List ℕ → Bool
  unfolding match_digits_and_end
  match_end [] = false
  match_end (c ∷ cs) = is_one 90 (c ∷ cs) || (c == 46 && match_digits_and_end cs)

  -- `\d{n}` and a character
  unfoldable pub match_field : ℕ → ℕ → List ℕ → Option (List ℕ)
  unfolding match_digits skip
  match_field n mark cs = skip mark (match_digits n cs)

  -- `UTC_TIMESTAMP_PATTERN.fullmatch`
  unfoldable pub fullmatch : List ℕ → Bool
  unfolding match_field match_digits match_end and_then
  fullmatch cs = and_then (match_field 4 45 cs) (λ cs1. and_then (match_field 2 45 cs1) (λ cs2.
      and_then (match_field 2 84 cs2) (λ cs3.
        and_then (match_field 2 58 cs3) (λ cs4.
          and_then (match_field 2 58 cs4) (λ cs5. and_then (match_digits 2 cs5) match_end)))))

  module _ (is_utc : String → Option Bool) where
    -- `validate_timestamp`, where it does not raise
    unfoldable pub validate_timestamp : String → Bool
    unfolding fullmatch
    validate_timestamp value =
        fullmatch (codes value) && (elim (is_utc value) [ none ↦ false | some utc ↦ utc ])

    -- the validation of a message whose fields are texts
    unfoldable pub validate : RedditCommentMessage → Bool
    unfolding validate_timestamp validate_subreddit validate_author_id
    validate m =
        validate_subreddit m.subreddit
        && validate_author_id m.author_id
        && leb 1 (len m.text)
        && validate_timestamp m.timestamp
