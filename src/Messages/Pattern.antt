-- ===== src/Messages/Pattern.antt =====
-- What the pattern of timestamps matches.
use reddit_kafka.Base.{
  ℕ, zero, suc, ◌≡◌, ◌↔◌, ◌≤◌, refl, ap, ◌∙◌, ◌==◌, Bool, true, ◌&&◌, Option, none, some, List, [],
  ◌∷◌, ◌++◌, length, All, arith, and_split, Bool-cases, inl, inr,
}
use reddit_kafka.Messages.{
  match_digits, match_field, match_fraction, match_digits_and_end, match_end, is_one, skip,
  and_then, fullmatch,
}

-- the end of a timestamp with these digits after the point, if there are any
abbrev pub ending : List ℕ → List ℕ
ending [] = 90 ∷ []
ending (c ∷ cs) = 46 ∷ c ∷ (cs ++ 90 ∷ [])

and_then-true :
    (o : Option (List ℕ)) (k : List ℕ → Bool)
    → and_then o k ≡ true
    → (rest : List ℕ) × (o ≡ some rest) × (k rest ≡ true)
unfolding and_then
and_then-true none k e = absurd cc
and_then-true (some rest) k e = (rest, refl, e)

eq_of : (a b : ℕ) → (a == b) ≡ true → a ≡ b
eq_of a b e = ground (arith, e)

is_one-true : (c : ℕ) (cs : List ℕ) → is_one c cs ≡ true → cs ≡ c ∷ []
is_one-true c [] e = absurd cc
is_one-true c (d ∷ []) e = ap (λ (x : ℕ). x ∷ []) (eq_of d c e)
is_one-true c (d ∷ x ∷ cs) e = absurd cc

skip-some :
    (mark : ℕ) (o : Option (List ℕ)) (rest : List ℕ)
    → skip mark o ≡ some rest
    → o ≡ some (mark ∷ rest)
unfolding skip
skip-some mark none rest e = absurd cc
skip-some mark (some []) rest e = absurd cc
skip-some mark (some (c ∷ cs)) rest e = elim (Bool-cases (c == mark)) [
  | inl same ↦ ground (arith, same, e)
  | inr ne ↦ absurd (ground (arith, ne, e))
]

-- the parts of a timestamp, and their text
abbrev pub Parts : Type 0
Parts = List ℕ × List ℕ × List ℕ × List ℕ × List ℕ × List ℕ × List ℕ

abbrev pub write : Parts → List ℕ
write (year, month, day, hour, minute, second, fraction) =
    year
    ++ 45
      ∷ (month ++ 45 ∷ (day ++ 84 ∷ (hour ++ 58 ∷ (minute ++ 58 ∷ (second ++ ending fraction)))))

module _ (is_digit : ℕ → Bool) where
  abbrev pub Digits : ℕ → List ℕ → Type 0
  Digits n ds = (length ds ≡ n) × All (λ c. is_digit c ≡ true) ds

  match_digits-some :
      (n : ℕ) (cs rest : List ℕ)
      → match_digits is_digit n cs ≡ some rest
      → (ds : List ℕ) × Digits n ds × (cs ≡ ds ++ rest)
  unfolding match_digits
  match_digits-some zero cs rest e = ([], (refl, tt), cc)
  match_digits-some (suc n) [] rest e = absurd cc
  match_digits-some (suc n) (c ∷ cs) rest e = elim (Bool-cases (is_digit c)) [
    | inl d ↦
        let (ds, (l, all), split) = match_digits-some n cs rest (ground (arith, d, e)) in
        (c ∷ ds, (omega (arith, l), (d, all)), ap (◌∷◌ c) split)
    | inr d ↦ absurd (ground (arith, d, e))
  ]

  match_digits-Digits :
      (n : ℕ) (ds rest : List ℕ) → Digits n ds → match_digits is_digit n (ds ++ rest) ≡ some rest
  unfolding match_digits
  match_digits-Digits zero [] rest h = refl
  match_digits-Digits zero (c ∷ ds) rest (l, all) = absurd (omega (arith, l))
  match_digits-Digits (suc n) [] rest (l, all) = absurd (omega (arith, l))
  match_digits-Digits (suc n) (c ∷ ds) rest (l, (d, all)) =
      rw (d, match_digits) (match_digits-Digits n ds rest (omega (arith, l), all))

  match_field-some :
      (n mark : ℕ) (cs rest : List ℕ)
      → match_field is_digit n mark cs ≡ some rest
      → (ds : List ℕ) × Digits n ds × (cs ≡ ds ++ mark ∷ rest)
  unfolding match_field
  match_field-some n mark cs rest e =
      match_digits-some n cs (mark ∷ rest) (skip-some mark (match_digits is_digit n cs) rest e)

  match_field-Digits :
      (n mark : ℕ) (ds rest : List ℕ)
      → Digits n ds
      → match_field is_digit n mark (ds ++ mark ∷ rest) ≡ some rest
  unfolding match_field skip
  match_field-Digits n mark ds rest h =
      rw (match_digits-Digits n ds (mark ∷ rest) h, skip) (ground arith)

  match_fraction-true :
      (n : ℕ) (cs : List ℕ)
      → match_fraction is_digit n cs ≡ true
      → (ds : List ℕ) × (length ds ≤ n) × All (λ c. is_digit c ≡ true) ds × (cs ≡ ds ++ 90 ∷ [])
  unfolding match_fraction
  match_fraction-true zero cs e = ([], omega arith, tt, is_one-true 90 cs e)
  match_fraction-true (suc n) [] e = absurd cc
  match_fraction-true (suc n) (c ∷ cs) e = elim (Bool-cases (is_one 90 (c ∷ cs))) [
    | inl z ↦ ([], omega arith, tt, is_one-true 90 (c ∷ cs) z)
    | inr ne ↦
        let both = and_split (is_digit c) (match_fraction is_digit n cs) (ground (arith, ne, e)) in
        let (ds, l, all, split) = match_fraction-true n cs both.1 in
        (c ∷ ds, omega (arith, l), (both.0, all), ap (◌∷◌ c) split)
  ]

  fraction-match :
      (n : ℕ) (ds : List ℕ)
      → length ds ≤ n
      → All (λ c. is_digit c ≡ true) ds
      → match_fraction is_digit n (ds ++ 90 ∷ []) ≡ true
  unfolding match_fraction
  fraction-match zero [] l all = refl
  fraction-match (suc n) [] l all = refl
  fraction-match zero (c ∷ ds) l all = absurd (omega (arith, l))
  fraction-match (suc n) (c ∷ ds) l (d, all) =
      ground (arith, d, fraction-match n ds (omega (arith, l)) all)

  -- what `match_end` accepts
  abbrev pub Fraction : List ℕ → Type 0
  Fraction ds = (length ds ≤ 6) × All (λ c. is_digit c ≡ true) ds

  match_end-true :
      (cs : List ℕ) → match_end is_digit cs ≡ true → (ds : List ℕ) × Fraction ds × (cs ≡ ending ds)
  unfolding match_end match_digits_and_end
  match_end-true [] e = absurd cc
  match_end-true (c ∷ []) e = elim (Bool-cases (is_one 90 (c ∷ []))) [
    | inl z ↦ ([], (omega arith, tt), is_one-true 90 (c ∷ []) z)
    | inr ne ↦ absurd (ground (arith, ne, e))
  ]
  match_end-true (c ∷ x ∷ cs) e =
      let point = and_split (c == 46) (is_digit x && match_fraction is_digit 5 cs) e in
      let both = and_split (is_digit x) (match_fraction is_digit 5 cs) point.1 in
      let (ds, l, all, split) = match_fraction-true 5 cs both.1 in
      (
        x ∷ ds,
        (omega (arith, l), (both.0, all)),
        ap (λ (y : ℕ). y ∷ x ∷ cs) (eq_of c 46 point.0) ∙ ap (λ ys. 46 ∷ x ∷ ys) split,
      )

  end-match : (ds : List ℕ) → Fraction ds → match_end is_digit (ending ds) ≡ true
  unfolding match_end match_digits_and_end
  end-match [] h = refl
  end-match (c ∷ ds) (l, (d, all)) = ground (arith, d, fraction-match 5 ds (omega (arith, l)) all)

  abbrev pub AreDigits : Parts → Type 0
  AreDigits (year, month, day, hour, minute, second, fraction) =
      Digits 4 year
      × Digits 2 month
      × Digits 2 day
      × Digits 2 hour
      × Digits 2 minute
      × Digits 2 second
      × Fraction fraction

  joined :
      (y mo d h mi s f : List ℕ) {cs cs1 cs2 cs3 cs4 cs5 cs6 : List ℕ}
      → cs ≡ y ++ 45 ∷ cs1
      → cs1 ≡ mo ++ 45 ∷ cs2
      → cs2 ≡ d ++ 84 ∷ cs3
      → cs3 ≡ h ++ 58 ∷ cs4
      → cs4 ≡ mi ++ 58 ∷ cs5
      → cs5 ≡ s ++ cs6
      → cs6 ≡ ending f
      → cs ≡ write (y, mo, d, h, mi, s, f)
  joined y mo d h mi s f p1 p2 p3 p4 p5 p6 p7 = cc

  fullmatch-true :
      (cs : List ℕ) → fullmatch is_digit cs ≡ true → (p : Parts) × AreDigits p × (cs ≡ write p)
  unfolding fullmatch
  fullmatch-true cs e =
      let (cs1, e1, k1) = and_then-true (match_field is_digit 4 45 cs) _ e in
      let (cs2, e2, k2) = and_then-true (match_field is_digit 2 45 cs1) _ k1 in
      let (cs3, e3, k3) = and_then-true (match_field is_digit 2 84 cs2) _ k2 in
      let (cs4, e4, k4) = and_then-true (match_field is_digit 2 58 cs3) _ k3 in
      let (cs5, e5, k5) = and_then-true (match_field is_digit 2 58 cs4) _ k4 in
      let (cs6, e6, k6) = and_then-true (match_digits is_digit 2 cs5) _ k5 in
      let (year, dy, sy) = match_field-some 4 45 cs cs1 e1 in
      let (month, dmo, smo) = match_field-some 2 45 cs1 cs2 e2 in
      let (day, dd, sd) = match_field-some 2 84 cs2 cs3 e3 in
      let (hour, dh, sh) = match_field-some 2 58 cs3 cs4 e4 in
      let (minute, dmi, smi) = match_field-some 2 58 cs4 cs5 e5 in
      let (second, ds, ss) = match_digits-some 2 cs5 cs6 e6 in
      let (fraction, df, sf) = match_end-true cs6 k6 in
      (
        (year, month, day, hour, minute, second, fraction),
        (dy, dmo, dd, dh, dmi, ds, df),
        joined year month day hour minute second fraction sy smo sd sh smi ss sf,
      )

  write-match : (p : Parts) → AreDigits p → fullmatch is_digit (write p) ≡ true
  unfolding fullmatch
  write-match (year, month, day, hour, minute, second, fraction) (dy, dmo, dd, dh, dmi, ds, df) =
      rw
        (
          match_field-Digits 4 45 year _ dy,
          match_field-Digits 2 45 month _ dmo,
          match_field-Digits 2 84 day _ dd,
          match_field-Digits 2 58 hour _ dh,
          match_field-Digits 2 58 minute _ dmi,
          match_digits-Digits 2 second (ending fraction) ds,
        )
        (end-match fraction df)

  -- For any meaning of `\d`: the pattern matches a text exactly when it is a year of four digits, a
  -- month, a day, an hour, a minute and a second of two, with "-", "-", "T", ":" and ":" between them,
  -- then, if there is a fraction, "." and one to six digits, and "Z".
  pub fullmatch_iff :
      (cs : List ℕ) → (fullmatch is_digit cs ≡ true) ↔ ((p : Parts) × AreDigits p × (cs ≡ write p))
  fullmatch_iff cs = (
    fullmatch-true cs,
    λ written. ap (fullmatch is_digit) written.2 ∙ write-match written.0 written.1,
  )
