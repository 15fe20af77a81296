-- ===== src/Client/Kinds/Added.antt =====
-- The set that the names of --kind add up to.
use mess.Base.{
  Option, sym, subst, text_discrete, refl, ap, ◌∙◌, true, false, text_discrete, [], ◌||◌, arith,
  ◌∷◌, arith, none, ◌||◌, some, true, ◌&&◌, if◌then◌else◌, ◌≡◌, is_empty, same, List, Bool, Text,
}
use mess.Wire.{kind_direct, kind_broadcast, kind_topic}
use mess.Client.Kinds.{put_kind, trim_space, add_kinds, KindFlags}

abbrev pub is_kind : Text → Bool
is_kind k = same k kind_direct || same k kind_broadcast || same k kind_topic

pub all_fine : List Text → Bool
all_fine [] = true
all_fine (part ∷ parts) =
    let rest = all_fine parts in (is_empty (trim_space part) || is_kind (trim_space part)) && rest

pub names : Text → List Text → Bool
names k [] = false
names k (part ∷ parts) = let rest = names k parts in same (trim_space part) k || rest

abbrev with_kind : Text → KindFlags → KindFlags
with_kind k set = record {
  direct = same k kind_direct || set.direct;
  broadcast = same k kind_broadcast || set.broadcast;
  topic = same k kind_topic || set.topic;
}

abbrev OneAdded : Text → KindFlags → Type 0
OneAdded k set = put_kind k set ≡ (if is_empty k || is_kind k then some (with_kind k set) else none)

put_kind-other :
    (k : Text) (set : KindFlags)
    → same k kind_direct ≡ false
    → same k kind_broadcast ≡ false
    → same k kind_topic ≡ false
    → OneAdded k set
unfolding put_kind
put_kind-other [] set d b t = rw (d, b, t) refl
put_kind-other (c ∷ k) set d b t = rw (d, b, t) refl

same_no : (k l : Text) → ¬ (k ≡ l) → same k l ≡ false
same_no k l n = ground arith

put_kind_lem : (k : Text) (set : KindFlags) → OneAdded k set
unfolding put_kind text_discrete
put_kind_lem k set = elim (text_discrete k kind_direct) [
  | yes d ↦ subst (λ k. OneAdded k set) (sym d) refl
  | no d ↦ elim (text_discrete k kind_broadcast) [
    | yes b ↦ subst (λ k. OneAdded k set) (sym b) refl
    | no b ↦ elim (text_discrete k kind_topic) [
      | yes t ↦ subst (λ k. OneAdded k set) (sym t) refl
      | no t ↦
          put_kind-other k set (same_no k kind_direct d) (same_no k kind_broadcast b)
            (same_no k kind_topic t)
    ]
  ]
]

unfoldable pub merged : KindFlags → List Text → KindFlags
merged set parts = record {
  direct = names kind_direct parts || set.direct;
  broadcast = names kind_broadcast parts || set.broadcast;
  topic = names kind_topic parts || set.topic;
}

or_swap : (a b c : Bool) → b || (a || c) ≡ (a || b) || c
or_swap true true c = refl
or_swap true false c = refl
or_swap false b c = refl

merged-with_kind :
    (part : Text) (parts : List Text) (set : KindFlags)
    → merged (with_kind (trim_space part) set) parts ≡ merged set (part ∷ parts)
unfolding merged names
merged-with_kind part parts set = λ i. record {
  direct = or_swap (same (trim_space part) kind_direct) (names kind_direct parts) set.direct i;
  broadcast =
      or_swap (same (trim_space part) kind_broadcast) (names kind_broadcast parts) set.broadcast i;
  topic = or_swap (same (trim_space part) kind_topic) (names kind_topic parts) set.topic i;
}

abbrev pub AllAdded : List Text → KindFlags → Type 0
AllAdded parts set =
    add_kinds parts set ≡ (if all_fine parts then some (merged set parts) else none)

-- The names behind one that is put, or is not fine.
add_kinds-put :
    (fine : Bool) (parts : List Text) (put : KindFlags) (set : KindFlags)
    → AllAdded parts put
    → merged put parts ≡ set
    → elim (if fine then some put else none) as (λ x. Option KindFlags) [
      | none ↦ none
      | some put ↦ add_kinds parts put
    ]
      ≡ (if fine && all_fine parts then some set else none)
add_kinds-put true parts put set h e =
    h ∙ ap (λ (all : KindFlags). if all_fine parts then some all else none) e
add_kinds-put false parts put set h e = refl

pub add_kinds_lem : (parts : List Text) (set : KindFlags) → AllAdded parts set
unfolding add_kinds merged all_fine names
add_kinds_lem [] set = refl
add_kinds_lem (part ∷ parts) set =
    let k = trim_space part in
    ap
      (λ (put : Option KindFlags). elim put as (λ x. Option KindFlags) [
        | none ↦ none
        | some put ↦ add_kinds parts put
      ])
      (put_kind_lem k set)
    ∙ add_kinds-put (is_empty k || is_kind k) parts (with_kind k set) (merged set (part ∷ parts))
        (add_kinds_lem parts (with_kind k set)) (merged-with_kind part parts set)
