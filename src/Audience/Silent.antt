-- ===== src/Audience/Silent.antt =====
-- The warning about a mention is right: who is named in it gets nothing.
use mess.Base.{
  ◌≡◌, refl, ap, ◌∙◌, Bool, true, false, ◌&&◌, ◌||◌, not, List, [], ◌∷◌, map, arith, Bool-cases,
  inl, inr, Text, same, same→eq, append-nil, contains, find, is_some, select, Distinct, Map,
  keys_of,
}
use mess.Rooms.{bare, text_lt}
use mess.Mentions.{mentions_in, is_user_handle, missing_mentions}
use mess.Wire.{Message}
use mess.State.{Broker, Env}
use mess.Core.{agent_at}
use mess.Direct.{broadcast, receives}
use mess.Direct.Delivery.{broadcast_lem}
use mess.Topics.Publish.{inbox_of, subscribers, published, publish_local_lem}
use mess.Sweeps.Selected.{contains-sort_by}
use mess.Audience.{mentions_not_subscribed, mentions_not_in_room, in_scope}

contains-select_if :
    (p : Text → Bool) (k : Text) (xs : List Text) → contains k (select p xs) ≡ p k && contains k xs
unfolding contains select
contains-select_if p k [] = elim (Bool-cases (p k)) [ inl e ↦ rw e refl | inr e ↦ rw e refl ]
contains-select_if p k (x ∷ xs) = elim (Bool-cases (same x k)) [
  | inl e ↦ elim (Bool-cases (p x)) [
    | inl t ↦ rw t (ground (arith, e, t, contains-select_if p k xs, ap p (same→eq x k e)))
    | inr t ↦ rw t (ground (arith, e, t, contains-select_if p k xs, ap p (same→eq x k e)))
  ]
  | inr e ↦ elim (Bool-cases (p x)) [
    | inl t ↦ rw t (ground (arith, e, contains-select_if p k xs))
    | inr t ↦ rw t (ground (arith, e, contains-select_if p k xs))
  ]
]

-- A name is reported exactly if the body mentions it, it is none of the human's, and it is not among
-- the names that are reached.
contains-missing_mentions :
    (logins : List Text) (body k : Text) (reach : List Text)
    → contains k (missing_mentions logins body reach)
      ≡ not (contains k reach || is_user_handle logins k) && contains k (mentions_in body)
unfolding missing_mentions
contains-missing_mentions logins body k reach =
    contains-sort_by text_lt k _ ∙ contains-select_if _ k (mentions_in body)

receives-in_scope :
    (from room : Text) (host_wide : Bool) (k : Text)
    → receives from room host_wide k ≡ not (same k from) && in_scope room host_wide k
unfolding receives in_scope
receives-in_scope from room host_wide k = refl

contains-map-bare :
    (k : Text) (ks : List Text) → contains k ks ≡ true → contains (bare k) (map bare ks) ≡ true
unfolding contains
contains-map-bare k [] h = h
contains-map-bare k (j ∷ ks) h = ground (arith, contains-map-bare k ks, ap bare, same→eq j k)

contains-keys_of :
    {V : Type 0} → (k : Text) (m : Map V) → contains k (keys_of m) ≡ is_some (find k m)
unfolding contains find
contains-keys_of k [] = refl
contains-keys_of k ((j, v) ∷ m) = ground (arith, contains-keys_of k m)

-- Where each subscriber is in the topic's set once: a name that is reported for a topic is mentioned
-- and is none of the human's, and the delivery within that topic, which bridges may then relay
-- elsewhere, leaves the inbox of every agent of that name, in whatever room, as it was.
pub mentions_not_subscribed_lem :
    (env : Env) (topic skip k : Text) (is_relay : Bool) (m : Message) (b : Broker)
    → Distinct (subscribers topic b)
    → contains (bare k) (mentions_not_subscribed env topic m.body b).0 ≡ true
    → (contains (bare k) (mentions_in m.body) ≡ true)
      × (is_user_handle env.logins (bare k) ≡ false)
      × (inbox_of k (published topic m skip is_relay b) ≡ inbox_of k b)
unfolding mentions_not_subscribed
mentions_not_subscribed_lem env topic skip k is_relay m b sets h =
    let subs = subscribers topic b in
    let exact = contains-missing_mentions env.logins m.body (bare k) (map bare subs) in
    let absent : contains k subs ≡ false = ground (arith, exact, contains-map-bare k subs) in
    (
      ground (arith, exact),
      ground (arith, exact),
      (publish_local_lem topic m skip is_relay b sets).0 k ∙ rw absent (append-nil (inbox_of k b)),
    )

-- A mention that is reported for a broadcast is the name of no agent that the broadcast could
-- reach: whoever has the name, in whatever room, is left as it was.
mentions_not_in_room_lem :
    (env : Env) (from room body k : Text) (loud host_wide : Bool) (b : Broker)
    → contains (bare k) (mentions_not_in_room env room body host_wide b) ≡ true
    → (contains (bare k) (mentions_in body) ≡ true)
      × (is_user_handle env.logins (bare k) ≡ false)
      × (agent_at k (broadcast env from room body loud host_wide b).0 ≡ agent_at k b)
unfolding mentions_not_in_room
mentions_not_in_room_lem env from room body k loud host_wide b h =
    let reach = select (in_scope room host_wide) (keys_of b.agents) in
    let exact = contains-missing_mentions env.logins body (bare k) (map bare reach) in
    let absent : contains k reach ≡ false = ground (arith, exact, contains-map-bare k reach) in
    let outside : receives from room host_wide k && is_some (find k b.agents) ≡ false = ground (
      arith,
      absent,
      contains-select_if (in_scope room host_wide) k (keys_of b.agents),
      contains-keys_of k b.agents,
      receives-in_scope from room host_wide k,
    ) in
    (
      ground (arith, exact),
      ground (arith, exact),
      (broadcast_lem env from room body loud host_wide b).0 k ∙ rw outside refl,
    )
