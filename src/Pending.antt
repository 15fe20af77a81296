-- ===== src/Pending.antt =====
-- broker.go: the bounded tables of asks and invitations, which drop their oldest entry when full.
pub mod Bound
use mess.Base.{
  ℕ, zero, suc, Text, Bool, true, false, ◌||◌, List, [], ◌∷◌, Option, none, some, Map, delete,
  is_empty, ltb, if◌then◌else◌, length, ℤ, pos, lt_int,
}

module _ {ℓ} {V : Type ℓ} (seq_of : Text → V → Option ℤ) where
  -- One round of the scan: the oldest token so far, "" if there is none, and its sequence.
  older : Text × ℤ → Text → Option ℤ → Text × ℤ
  older (oldest, oldest_seq) token none = (oldest, oldest_seq)
  older (oldest, oldest_seq) token (some seq) =
      if is_empty oldest || lt_int seq oldest_seq then (token, seq) else (oldest, oldest_seq)

  unfoldable pub oldest_from : Text × ℤ → Map V → Text × ℤ
  unfolding older
  oldest_from best [] = best
  oldest_from best ((token, v) ∷ m) = oldest_from (older best token (seq_of token v)) m

  unfoldable pub oldest : Map V → Text
  unfolding oldest_from
  oldest m = (oldest_from ([], pos 0) m).0

  -- `for len(m) >= limit { delete the oldest }`, with fuel; as many rounds as there are entries are
  -- enough. A table without an oldest entry ends the loop.
  unfoldable pub evict : ℕ → ℕ → Map V → Map V
  evict zero limit m = m
  evict (suc fuel) limit m =
      let rest = evict fuel limit (delete (oldest m) m) in
      if ltb (length m) limit || is_empty (oldest m) then m else rest

  unfoldable pub make_room : ℕ → Map V → Map V
  unfolding evict
  make_room limit m = evict (length m) limit m
