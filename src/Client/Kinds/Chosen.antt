-- ===== src/Client/Kinds/Chosen.antt =====
-- Which messages the filter of a command line lets through.
use mess.Base.{
  ℕ, Option, sym, subst, text_discrete, refl, ap, ◌∙◌, true, false, text_discrete, [], ◌||◌, ◌∷◌,
  none, ◌||◌, some, true, ◌&&◌, if◌then◌else◌, ◌≡◌, not, is_empty, same, contains, List, Bool, Text,
}
use mess.Wire.{Message, kind_direct, kind_broadcast, kind_topic}
use mess.Inbox.{match_kind}
use mess.Requests.{kind_set}
use mess.Client.Kinds.{split_commas, listed_kinds, resolve_kinds, KindFlags, no_kinds}
use mess.Client.Kinds.Added.{all_fine, names, merged, add_kinds_lem}

-- Whether a filter lets a message of a kind through.
abbrev pub lets : Message → Text → List Text → Bool
lets m k kinds = match_kind (record m { kind = k }) (kind_set kinds)

-- Nothing is left: then the filter lets everything through.
abbrev pub is_void : Bool → Bool → Bool → Bool
is_void d b t = not (d || b || t)

abbrev pub Lets : Message → List Text → Bool → Bool → Bool → Type 0
Lets m kinds d b t =
    (lets m kind_direct kinds ≡ d || is_void d b t)
    × (lets m kind_broadcast kinds ≡ b || is_void d b t)
    × (lets m kind_topic kinds ≡ t || is_void d b t)

listed_kinds_lem :
    (m : Message) (d b t : Bool)
    → Lets m (listed_kinds (record { direct = d; broadcast = b; topic = t })) d b t
unfolding listed_kinds kind_set match_kind contains text_discrete
listed_kinds_lem m true true true = (refl, refl, refl)
listed_kinds_lem m true true false = (refl, refl, refl)
listed_kinds_lem m true false true = (refl, refl, refl)
listed_kinds_lem m true false false = (refl, refl, refl)
listed_kinds_lem m false true true = (refl, refl, refl)
listed_kinds_lem m false true false = (refl, refl, refl)
listed_kinds_lem m false false true = (refl, refl, refl)
listed_kinds_lem m false false false = (refl, refl, refl)

-- What --kind and --no-broadcast ask for.
abbrev pub wanted : Text → Bool → Text → Bool
wanted kind no_broadcast k =
    (is_empty kind || names k (split_commas kind)) && not (no_broadcast && same k kind_broadcast)

abbrev pub Filters : Text → Bool → Message → Option (List Text) → Type 0
Filters kind no_broadcast m none = is_empty kind || all_fine (split_commas kind) ≡ false
Filters kind no_broadcast m (some kinds) =
    (is_empty kind || all_fine (split_commas kind) ≡ true)
    × Lets m kinds (wanted kind no_broadcast kind_direct) (wanted kind no_broadcast kind_broadcast)
        (wanted kind no_broadcast kind_topic)

and_yes : (b : Bool) → b && true ≡ b
and_yes true = refl
and_yes false = refl

and_no : (b : Bool) → b && false ≡ false
and_no true = refl
and_no false = refl

or_no : (b : Bool) → b || false ≡ b
or_no true = refl
or_no false = refl

-- The broadcasts are taken out of a set.
abbrev left_of : Bool → Bool → Bool → Bool → KindFlags
left_of no_broadcast d b t =
    let set : KindFlags = record { direct = d; broadcast = b; topic = t } in
    if no_broadcast then record set { broadcast = false } else set

left_kinds :
    (no_broadcast d b t : Bool) (m : Message)
    → Lets m
        (listed_kinds (left_of no_broadcast d b t))
        (d && not (no_broadcast && same kind_direct kind_broadcast))
        (b && not (no_broadcast && same kind_broadcast kind_broadcast))
        (t && not (no_broadcast && same kind_topic kind_broadcast))
unfolding text_discrete
left_kinds true d b t m = rw (and_yes d, and_no b, and_yes t) (listed_kinds_lem m d false t)
left_kinds false d b t m = rw (and_yes d, and_yes b, and_yes t) (listed_kinds_lem m d b t)

abbrev named : List Text → KindFlags
named parts = record {
  direct = names kind_direct parts;
  broadcast = names kind_broadcast parts;
  topic = names kind_topic parts;
}

merged-no_kinds : (parts : List Text) → merged no_kinds parts ≡ named parts
unfolding merged
merged-no_kinds parts = λ i. record {
  direct = or_no (names kind_direct parts) i;
  broadcast = or_no (names kind_broadcast parts) i;
  topic = or_no (names kind_topic parts) i;
}

-- The filter of a set, as the code goes on with it.
abbrev filter_of_set : Bool → Option KindFlags → Option (List Text)
filter_of_set no_broadcast none = none
filter_of_set no_broadcast (some set) =
    some (listed_kinds (if no_broadcast then record set { broadcast = false } else set))

filtered_fine :
    (c : ℕ) (s : Text) (no_broadcast : Bool) (m : Message) (fine : Bool)
    → all_fine (split_commas (c ∷ s)) ≡ fine
    → Filters
        (c ∷ s)
        no_broadcast
        m
        (filter_of_set no_broadcast (if fine then some (named (split_commas (c ∷ s))) else none))
filtered_fine c s no_broadcast m true h =
    let parts = split_commas (c ∷ s) in
    (
      h,
      left_kinds no_broadcast (names kind_direct parts) (names kind_broadcast parts)
          (names kind_topic parts) m,
    )
filtered_fine c s no_broadcast m false h = h

filtered_by :
    (c : ℕ) (s : Text) (no_broadcast : Bool) (m : Message)
    → Filters (c ∷ s) no_broadcast m (resolve_kinds (c ∷ s) no_broadcast)
unfolding resolve_kinds
filtered_by c s no_broadcast m =
    let parts = split_commas (c ∷ s) in
    subst (λ found. Filters (c ∷ s) no_broadcast m (filter_of_set no_broadcast found))
      (sym (
        add_kinds_lem parts no_kinds
        ∙ ap (λ set. if all_fine parts then some set else none) (merged-no_kinds parts)))
      (filtered_fine c s no_broadcast m (all_fine parts) refl)

-- A message passes the filter that is made of --kind and --no-broadcast exactly if its kind is one
-- that they ask for, or if they leave none. A name that is no kind is the only error.
pub resolve_kinds_lem :
    (kind : Text) (no_broadcast : Bool) (m : Message)
    → Filters kind no_broadcast m (resolve_kinds kind no_broadcast)
unfolding resolve_kinds
resolve_kinds_lem [] no_broadcast m = (refl, left_kinds no_broadcast true true true m)
resolve_kinds_lem (c ∷ s) no_broadcast m = filtered_by c s no_broadcast m
