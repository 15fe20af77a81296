-- ===== src/Durations.antt =====
-- wire/journal.go: ParseSince; and the durations that it and daemon.go read from a request by
-- time.ParseDuration, in nanoseconds. The fraction of a unit is computed exactly, where the library
-- goes through a float64.
use mess.Base.{
  ℕ, zero, suc, ◌+◌, ◌-◌, ◌*◌, ◌/◌, ◌%◌, ◌^◌, Text, codes, ◌≡◌, refl, Bool, true, false, ◌&&◌, ◌||◌,
  [], ◌∷◌, Option, none, some, Map, find, is_empty, ltb, leb, ◌==◌, if◌then◌else◌, ℤ, pos, negsuc,
  negate, length, text_discrete,
}
use mess.Ids.{atoi}

abbrev pub second : ℕ
second = 10 ^ 9

abbrev pub hour : ℕ
hour = 3600 * 10 ^ 9

abbrev units : Map ℕ
units =
    (codes "ns", 1)
    ∷ (codes "us", 1000)
    ∷ (codes "ms", 10 ^ 6)
    ∷ (codes "s", 10 ^ 9)
    ∷ (codes "m", 60 * 10 ^ 9)
    ∷ (codes "h", 3600 * 10 ^ 9)
    ∷ (194 ∷ 181 ∷ b's' ∷ [], 1000)
    ∷ (206 ∷ 188 ∷ b's' ∷ [], 1000)
    ∷ []

is_digit : ℕ → Bool
is_digit c = leb b'0' c && leb c b'9'

-- The longest prefix of bytes that pass, and the rest.
span : (ℕ → Bool) → Text → Text × Text
span p [] = ([], [])
span p (c ∷ s) = let (front, rest) = span p s in if p c then (c ∷ front, rest) else ([], c ∷ s)

decimal : Text → ℕ → ℕ
decimal [] n = n
decimal (c ∷ s) n = decimal s (n * 10 + (c - b'0'))

-- What stands behind a decimal point, if there is one.
fraction : Text → Text × Text
unfolding span is_digit
fraction [] = ([], [])
fraction (c ∷ s) = if c == b'.' then span is_digit s else ([], c ∷ s)

in_unit : Text → Text → Option ℕ → Option ℕ
unfolding decimal
in_unit whole part none = none
in_unit whole part (some unit) =
    if is_empty whole && is_empty part
    then none
    else some (decimal whole 0 * unit + decimal part 0 * unit / 10 ^ length part)

-- Terms such as `1h` or `1.5s`, with `total` before them. A term takes at least one byte, so the
-- number of bytes is enough fuel.
terms : ℕ → Text → ℕ → Option ℕ
unfolding in_unit fraction span is_digit
terms fuel [] total = some total
terms zero (c ∷ s) total = none
terms (suc fuel) (c ∷ s) total =
    let (whole, s1) = span is_digit (c ∷ s) in
    let (part, s2) = fraction s1 in
    let (unit, s3) =
      span (λ d. if is_digit d then false else if d == b'.' then false else true) s2 in
    elim (in_unit whole part (find unit units)) [
      | none ↦ none
      | some d ↦ if ltb (2 ^ 63) (total + d) then none else terms fuel s3 (total + d)
    ]

signed : Bool → Option ℕ → Option ℤ
signed minus none = none
signed true (some d) = some (negate d)
signed false (some d) = if leb (2 ^ 63) d then none else some (pos d)

magnitude : Text → Option ℕ
unfolding terms
magnitude [] = none
magnitude (c ∷ s) = if c == b'0' && is_empty s then some 0 else terms (suc (length s)) (c ∷ s) 0

unfoldable pub parse_duration : Text → Option ℤ
unfolding signed magnitude
parse_duration [] = none
parse_duration (c ∷ s) =
    if c == b'-'
    then signed true (magnitude s)
    else if c == b'+'
    then signed false (magnitude s)
    else signed false (magnitude (c ∷ s))

-- The product of two int64, wrapped around, with the second one positive.
unfoldable pub wrap : ℕ → ℤ
wrap n = let r = n % 2 ^ 64 in if ltb r (2 ^ 63) then pos r else negate (2 ^ 64 - r)

unfoldable pub times : ℤ → ℕ → ℤ
unfolding wrap
times (pos n) k = wrap (n * k)
times (negsuc n) k = wrap (2 ^ 64 - (n + 1) * k % 2 ^ 64)

-- The last byte and what stands before it, for a text of two bytes or more.
unsuffixed : Text → Option (Text × ℕ)
unsuffixed [] = none
unsuffixed (c ∷ []) = none
unsuffixed (c ∷ d ∷ []) = some (c ∷ [], d)
unsuffixed (c ∷ d ∷ e ∷ s) = elim (unsuffixed (d ∷ e ∷ s)) [
  | none ↦ none
  | some (front, unit) ↦ some (c ∷ front, unit)
]

days_or_weeks : Option (Text × ℕ) → Option ℤ
unfolding times
days_or_weeks none = none
days_or_weeks (some (front, unit)) = elim (atoi front) [
  | none ↦ none
  | some n ↦
      if unit == b'd' || unit == b'D'
      then some (times n (24 * hour))
      else if unit == b'w' || unit == b'W'
      then some (times n (7 * 24 * hour))
      else none
]

unfoldable pub parse_since : Text → Option ℤ
unfolding parse_duration days_or_weeks unsuffixed
parse_since [] = some (pos 0)
parse_since (c ∷ s) = elim (parse_duration (c ∷ s)) [
  | some d ↦ some d
  | none ↦ days_or_weeks (unsuffixed (c ∷ s))
]

duration_test : parse_duration (codes "-1h1.5s") ≡ some (negate (hour + second + second / 2))
unfolding parse_duration find text_discrete
duration_test = refl

bad_duration : parse_duration (codes "10") ≡ none
unfolding parse_duration find text_discrete
bad_duration = refl

since_test : parse_since (codes "2w") ≡ some (pos (336 * hour))
unfolding parse_since atoi find text_discrete
since_test = refl
