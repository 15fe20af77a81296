-- ===== src/Topics/Linked.antt =====
-- Topics linked by live bridges, and the list of topics that a relay has visited.
use mess.Base.{
  ℕ, ◌+◌, ◌≡◌, refl, true, false, ◌||◌, List, [], ◌∷◌, ◌++◌, arith, if◌then◌else◌, inl, inr, ◌⊎◌,
  Text, contains, Distinct, add, or_zero, find, Map, All,
}
use mess.State.{Bridge}
use mess.Core.{expired, other_side}

pub contains-append :
    (k : Text) (v w : List Text) → contains k (v ++ w) ≡ contains k v || contains k w
unfolding contains
contains-append k [] w = refl
contains-append k (x ∷ v) w = ground (arith, contains-append k v w)

pub Distinct-snoc :
    (k : Text) (v : List Text) → contains k v ≡ false → Distinct v → Distinct (v ++ k ∷ [])
unfolding contains
Distinct-snoc k [] h d = (refl, tt)
Distinct-snoc k (x ∷ v) h (new, d) =
    (ground (arith, contains-append x v (k ∷ [])), Distinct-snoc k v (ground arith) d)

pub add_new : (k : Text) (v : List Text) → contains k v ≡ false → add k v ≡ v ++ k ∷ []
unfolding contains add
add_new k [] h = refl
add_new k (x ∷ v) h = ground (arith, add_new k v)

abbrev pub Among : Bridge → List Bridge → Type 0
Among br [] = ⊥
Among br (x ∷ xs) = (x ≡ br) ⊎ Among br xs

later :
    (br : Bridge) (ys xs : List Bridge) → All (λ x. Among x ys) xs → All (λ x. Among x (br ∷ ys)) xs
later br ys [] h = tt
later br ys (x ∷ xs) (hx, h) = (inr hx, later br ys xs h)

pub Among-all : (xs : List Bridge) → All (λ br. Among br xs) xs
Among-all [] = tt
Among-all (x ∷ xs) = (inl refl, later x xs xs (Among-all xs))

abbrev pub bridges_at : Text → Map (List Bridge) → List Bridge
bridges_at key links = or_zero [] (find key links)

module _ (now : ℕ) (links : Map (List Bridge)) where
  -- A chain of bridges that are not expired, each open in the direction in which it is crossed.
  pub data Linked : Text → Text → Type 0 where
    one :
        {key tk : Text} (br : Bridge)
        → Among br (bridges_at key links)
        → expired now br ≡ false
        → (other_side br key).1 ≡ true
        → tk ≡ (other_side br key).0
        → Linked key tk
    chain : {key mid tk : Text} → Linked key mid → Linked mid tk → Linked key tk

  pub Linked-all :
      (key mid : Text) (tks : List Text)
      → Linked key mid
      → All (Linked mid) tks
      → All (Linked key) tks
  Linked-all key mid [] h hs = tt
  Linked-all key mid (tk ∷ tks) h (hk, hs) = (chain h hk, Linked-all key mid tks h hs)

pub All-append {ℓ} :
    {A : Type ℓ} (P : A → Type 0) (xs ys : List A) → All P xs → All P ys → All P (xs ++ ys)
All-append P [] ys h k = k
All-append P (x ∷ xs) ys (px, h) k = (px, All-append P xs ys h k)

module _ (subs : Map (List Text)) where
  -- How many of the topics an agent follows.
  abbrev pub followed : Text → List Text → ℕ
  followed k [] = 0
  followed k (tk ∷ tks) = (if contains k (or_zero [] (find tk subs)) then 1 else 0) + followed k tks

  pub followed-append :
      (k : Text) (xs ys : List Text) → followed k (xs ++ ys) ≡ followed k xs + followed k ys
  followed-append k [] ys = omega arith
  followed-append k (x ∷ xs) ys = omega (arith, followed-append k xs ys)
