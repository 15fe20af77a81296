-- ===== src/Ids/RoundTrip.antt =====
-- Ids are read back, so they are told apart.
use mess.Base.{
  ℕ, zero, suc, ◌+◌, ◌/◌, ◌%◌, ◌≤◌, ◌<◌, Text, ◌≡◌, refl, ◌∙◌, inl, inr, some, [], ◌∷◌, arith,
  Bool-cases, ltb, pos,
}
use mess.Ids.{max_int, digits, scan, format, msg_seq, msg_id, bridge_id}

-- Reading the digits of n gives n.
scan-digits : (fuel n : ℕ) (out : Text) → n < fuel → scan (digits fuel n out) 0 ≡ scan out n
unfolding digits scan
scan-digits zero n out h = absurd (omega arith)
scan-digits (suc fuel) n out h = ground (arith, scan-digits fuel (n / 10) ((b'0' + n % 10) ∷ out))

-- The first character is a digit.
abbrev StartsWithDigit : Text → Type 0
StartsWithDigit [] = ⊥
StartsWithDigit (c ∷ s) = (b'0' ≤ c) × (c ≤ b'9')

digits-StartsWithDigit :
    (fuel n : ℕ) (out : Text) → StartsWithDigit out → StartsWithDigit (digits fuel n out)
unfolding digits
digits-StartsWithDigit zero n out h = h
digits-StartsWithDigit (suc fuel) n out h = elim (Bool-cases (ltb n 10)) [
  | inl e ↦ rw e (omega arith)
  | inr e ↦ rw e (digits-StartsWithDigit fuel (n / 10) _ (omega arith))
]

format-StartsWithDigit : (n : ℕ) → StartsWithDigit (format n)
unfolding format digits
format-StartsWithDigit n = elim (Bool-cases (ltb n 10)) [
  | inl e ↦ rw e (omega arith)
  | inr e ↦ rw e (digits-StartsWithDigit n (n / 10) _ (omega arith))
]

scan-format : (n : ℕ) → scan (format n) 0 ≡ some n
unfolding format
scan-format n = scan-digits (suc n) n [] (omega arith) ∙ scan-nil n
  where
    scan-nil : (n : ℕ) → scan [] n ≡ some n
    scan-nil n = unfold scan in refl

-- Digits with no sign in front are read as they stand.
msg_seq_digits :
    (s : Text) (n : ℕ)
    → StartsWithDigit s
    → scan s 0 ≡ some n
    → n ≤ max_int
    → msg_seq (b'm' ∷ s) ≡ some (pos n)
unfolding msg_seq
msg_seq_digits [] n h e fits = absurd h
msg_seq_digits (c ∷ s) n h e fits = ground arith

-- A message id is read back as its sequence number, for every number that an int holds.
pub msg_seq-msg_id : (n : ℕ) → n ≤ max_int → msg_seq (msg_id n) ≡ some (pos n)
unfolding msg_id
msg_seq-msg_id n h = msg_seq_digits (format n) n (format-StartsWithDigit n) (scan-format n) h

pub format-injective : (m n : ℕ) → format m ≡ format n → m ≡ n
format-injective m n e = cc (scan-format m, scan-format n)

pub msg_id-injective : (m n : ℕ) → msg_id m ≡ msg_id n → m ≡ n
unfolding msg_id
msg_id-injective m n e = format-injective m n (cc)

pub bridge_id-injective : (m n : ℕ) → bridge_id m ≡ bridge_id n → m ≡ n
unfolding bridge_id
bridge_id-injective m n e = format-injective m n (cc)
