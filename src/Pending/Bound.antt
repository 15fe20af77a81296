-- ===== src/Pending/Bound.antt =====
-- The eviction loop ends with room for one more entry, and a table stays within its limit.
use mess.Base.{
  ℕ, zero, suc, ◌+◌, ◌≤◌, ◌<◌, Text, ◌≡◌, refl, ◌⊎◌, inl, inr, true, false, [], ◌∷◌, Option, none,
  some, Map, find, put, delete, arith, length, is_empty, is_some, same, ltb, ℤ, pos, Bool-cases,
  lt→ltb, ltb→lt,
}
use mess.Pending.{older, oldest_from, oldest, evict, make_room}

module _ {ℓ} {V : Type ℓ} where
  length-delete-le : (k : Text) (m : Map V) → length (delete k m) ≤ length m
  unfolding delete
  length-delete-le k [] = omega arith
  length-delete-le k ((j, v) ∷ m) = ground (arith, length-delete-le k m)

  length-delete-lt :
      (k : Text) (m : Map V) → is_some (find k m) ≡ true → length (delete k m) < length m
  unfolding delete find
  length-delete-lt k [] h = absurd (ground arith)
  length-delete-lt k ((j, v) ∷ m) h = ground (arith, length-delete-lt k m, length-delete-le k m)

  pub length-put-le : (k : Text) (v : V) (m : Map V) → length (put k v m) ≤ length m + 1
  unfolding put
  length-put-le k v [] = omega arith
  length-put-le k v ((j, w) ∷ m) = ground (arith, length-put-le k v m)

module _ {ℓ} {V : Type ℓ} (seq_of : Text → V → Option ℤ) where
  -- Every token is a proper one, with a sequence number.
  abbrev pub Ordered : Map V → Type 0
  Ordered [] = Unit
  Ordered ((t, v) ∷ m) = (is_empty t ≡ false) × (is_some (seq_of t v) ≡ true) × Ordered m

  pub delete-Ordered : (k : Text) (m : Map V) → Ordered m → Ordered (delete k m)
  unfolding delete
  delete-Ordered k [] h = tt
  delete-Ordered k ((t, v) ∷ m) h = elim (Bool-cases (same t k)) [
    | inl e ↦ rw e (delete-Ordered k m h.2)
    | inr e ↦ rw e (h.0, h.1, delete-Ordered k m h.2)
  ]

  pub put-Ordered :
      (k : Text) (v : V) (m : Map V)
      → is_empty k ≡ false
      → is_some (seq_of k v) ≡ true
      → Ordered m
      → Ordered (put k v m)
  unfolding put
  put-Ordered k v [] hk hv h = (hk, hv, tt)
  put-Ordered k v ((t, w) ∷ m) hk hv h = elim (Bool-cases (same t k)) [
    | inl e ↦ rw e (hk, hv, h.2)
    | inr e ↦ rw e (h.0, h.1, put-Ordered k v m hk hv h.2)
  ]

  older-cases :
      (best : Text × ℤ) (t : Text) (s : Option ℤ)
      → ((older seq_of best t s).0 ≡ best.0) ⊎ ((older seq_of best t s).0 ≡ t)
  unfolding older
  older-cases best t none = inl refl
  older-cases best t (some seq) = ground arith

  older-proper :
      (best : Text × ℤ) (t : Text) (s : Option ℤ)
      → is_empty t ≡ false
      → is_some s ≡ true
      → is_empty (older seq_of best t s).0 ≡ false
  unfolding older
  older-proper best t none ht hs = cc
  older-proper best t (some seq) ht hs = ground arith

  -- The scan ends with the token that it began with or with one that it met.
  oldest_from-found :
      (best : Text × ℤ) (m : Map V)
      → Ordered m
      → ((oldest_from seq_of best m).0 ≡ best.0)
        ⊎ (is_some (find (oldest_from seq_of best m).0 m) ≡ true)
  unfolding oldest_from find
  oldest_from-found best [] h = inl refl
  oldest_from-found best ((t, v) ∷ m) h = ground (
    arith,
    oldest_from-found (older seq_of best t (seq_of t v)) m h.2,
    older-cases best t (seq_of t v),
  )

  oldest_from-proper :
      (best : Text × ℤ) (m : Map V)
      → Ordered m
      → is_empty best.0 ≡ false
      → is_empty (oldest_from seq_of best m).0 ≡ false
  unfolding oldest_from
  oldest_from-proper best [] h e = e
  oldest_from-proper best ((t, v) ∷ m) h e =
      oldest_from-proper (older seq_of best t (seq_of t v)) m h.2
        (older-proper best t (seq_of t v) h.0 h.1)

  oldest-proper :
      (t : Text) (v : V) (m : Map V)
      → Ordered ((t, v) ∷ m)
      → is_empty (oldest seq_of ((t, v) ∷ m)) ≡ false
  unfolding oldest
  oldest-proper t v m h =
      oldest_from-proper (older seq_of ([], pos 0) t (seq_of t v)) m h.2
        (older-proper ([], pos 0) t (seq_of t v) h.0 h.1)

  oldest-found :
      (t : Text) (v : V) (m : Map V)
      → Ordered ((t, v) ∷ m)
      → is_some (find (oldest seq_of ((t, v) ∷ m)) ((t, v) ∷ m)) ≡ true
  unfolding oldest
  oldest-found t v m h = elim (oldest_from-found ([], pos 0) ((t, v) ∷ m) h) [
    | inl same_ ↦
        absurd (
          empty_proper (oldest_from seq_of ([], pos 0) ((t, v) ∷ m)).0 same_
            (oldest-proper t v m h))
    | inr found ↦ found
  ]
    where
      empty_proper : (x : Text) → x ≡ [] → is_empty x ≡ false → ⊥
      empty_proper [] e f = cc
      empty_proper (c ∷ s) e f = cc

  -- With as much fuel as there are entries the loop ends below the limit.
  evict-lt :
      (fuel limit : ℕ) (m : Map V)
      → 0 < limit
      → length m ≤ fuel
      → Ordered m
      → (length (evict seq_of fuel limit m) < limit) × Ordered (evict seq_of fuel limit m)
  unfolding evict
  evict-lt zero limit [] pos_ fits h = (omega arith, tt)
  evict-lt zero limit (e ∷ m) pos_ fits h = absurd (omega arith)
  evict-lt (suc fuel) limit [] pos_ fits h = rw (lt→ltb 0 limit pos_) (omega arith, tt)
  evict-lt (suc fuel) limit ((t, v) ∷ m) pos_ fits h =
      let best = oldest seq_of ((t, v) ∷ m) in
      elim (Bool-cases (ltb (length ((t, v) ∷ m)) limit)) [
        | inl e ↦ rw e (ltb→lt _ limit e, h)
        | inr e ↦
            rw (e, oldest-proper t v m h)
              (evict-lt fuel limit (delete best ((t, v) ∷ m)) pos_
                (omega (arith, length-delete-lt best ((t, v) ∷ m) (oldest-found t v m h)))
                (delete-Ordered best ((t, v) ∷ m) h))
      ]

  pub make_room-lt :
      (limit : ℕ) (m : Map V)
      → 0 < limit
      → Ordered m
      → (length (make_room seq_of limit m) < limit) × Ordered (make_room seq_of limit m)
  unfolding make_room
  make_room-lt limit m pos_ h = evict-lt (length m) limit m pos_ (omega arith) h
