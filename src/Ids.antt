-- ===== src/Ids.antt =====
-- broker.go: message and bridge ids, and `msgSeq`. The counter is an int of 64 bits; the round trip
-- in `Ids/RoundTrip.antt` says up to which value an id is read back.
pub mod RoundTrip
use mess.Base.{
  ℕ, zero, suc, ◌+◌, ◌-◌, ◌*◌, ◌/◌, ◌%◌, ◌^◌, Text, codes, ◌≡◌, refl, Bool, true, false, ◌||◌,
  Option, none, some, [], ◌∷◌, ltb, leb, ◌==◌, if◌then◌else◌, ℤ, pos, negsuc, negate,
}

abbrev pub max_int : ℕ
max_int = 2 ^ 63 - 1

-- The digits of n before `out`. One unit of fuel for each digit; n + 1 units are enough.
digits : ℕ → ℕ → Text → Text
digits zero n out = out
digits (suc fuel) n out =
    let last = (b'0' + n % 10) ∷ out in
    let rest = digits fuel (n / 10) last in if ltb n 10 then last else rest

-- %d of a number that is not negative.
unfoldable pub format : ℕ → Text
unfolding digits
format n = digits (suc n) n []

-- The number that decimal digits spell behind `n`.
scan : Text → ℕ → Option ℕ
scan [] n = some n
scan (c ∷ s) n =
    let rest = scan s (n * 10 + (c - b'0')) in if ltb c b'0' || ltb b'9' c then none else rest

unsigned : Text → Option ℕ
unfolding scan
unsigned [] = none
unsigned (c ∷ s) = scan (c ∷ s) 0

positive : Option ℕ → Option ℤ
positive none = none
positive (some n) = if leb n max_int then some (pos n) else none

negative : Option ℕ → Option ℤ
negative none = none
negative (some n) = if leb n (max_int + 1) then some (negate n) else none

-- strconv.Atoi: an optional sign, digits, and a value in the range of an int.
unfoldable pub atoi : Text → Option ℤ
unfolding unsigned positive negative
atoi [] = none
atoi (c ∷ s) =
    if c == b'-'
    then negative (unsigned s)
    else if c == b'+'
    then positive (unsigned s)
    else positive (unsigned (c ∷ s))

unfoldable pub msg_seq : Text → Option ℤ
unfolding atoi
msg_seq [] = none
msg_seq (c ∷ []) = none
msg_seq (c ∷ d ∷ s) = if c == b'm' then atoi (d ∷ s) else none

-- The ids that `nextID` and `nextBridgeID` print for a counter.
unfoldable pub msg_id : ℕ → Text
unfolding format
msg_id n = b'm' ∷ format n

unfoldable pub bridge_id : ℕ → Text
unfolding format
bridge_id n = b'b' ∷ b'r' ∷ format n

format_test : format 4070 ≡ codes "4070"
unfolding format
format_test = refl

msg_seq_test : msg_seq (codes "m42") ≡ some (pos 42)
unfolding msg_seq
msg_seq_test = refl

msg_seq_signed : msg_seq (codes "m-42") ≡ some (negsuc 41)
unfolding msg_seq
msg_seq_signed = refl

msg_seq_other : msg_seq (codes "br42") ≡ none
unfolding msg_seq
msg_seq_other = refl
