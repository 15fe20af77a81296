-- ===== src/Topics/Relay.antt =====
-- `relayLocked`: it ends, stays within linked topics, and goes to each topic once.
use mess.Base.{
  ℕ, zero, suc, ◌+◌, ◌≡◌, ◌≢◌, refl, sym, ap, subst, ◌∙◌, true, false, ◌&&◌, not, List, [], ◌∷◌,
  ◌++◌, append_assoc, append-nil, arith, if◌then◌else◌, Bool-cases, inl, inr, Text, same, ne→same,
  contains, Distinct, add, length, length-append, or_zero, find, Map, All,
}
use mess.Wire.{Message}
use mess.State.{Broker, Bridge}
use mess.Core.{other_side}
use mess.Topics.{crosses, cross, relay_over, relay, relayed, publish_local}
use mess.Topics.Publish.{
  inbox_of, copy, waker, subscribers, publish_local_lem, publish_local-topics,
  publish_local-bridges,
}
use mess.Topics.Linked.{
  Linked, one, Among, Among-all, bridges_at, Linked-all, followed, followed-append, All-append,
  Distinct-snoc, add_new,
}

module _ (now : ℕ) (subs : Map (List Text)) (links : Map (List Bridge)) where
  abbrev pub Fits : Broker → Type 0
  Fits b = (b.topics ≡ subs) × (b.bridges_by_topic ≡ links)

  -- What a relay from `key` did, from the visited topics `v` on.
  pub record Went (key : Text) (b : Broker) (v : List Text) (st : Broker × List Text) : Type 0 where
    pub new : List Text
    pub visited : st.1 ≡ v ++ new
    pub fresh : Distinct v → Distinct st.1
    pub linked : All (Linked now links key) new
    pub fits : Fits st.0
    pub grown :
        (k : Text) → k ≢ [] → length (inbox_of k st.0) ≡ length (inbox_of k b) + followed subs k new

  stay : (key : Text) (b : Broker) (v : List Text) → Fits b → Went key b v (b, v)
  stay key b v f = record {
    new = [];
    visited = sym (append-nil v);
    fresh = λ d. d;
    linked = tt;
    fits = f;
    grown = λ k h. omega arith;
  }

  onward :
      (key : Text) (b : Broker) (v : List Text) (mid st : Broker × List Text)
      → Went key b v mid
      → Went key mid.0 mid.1 st
      → Went key b v st
  onward key b v mid st w x = record {
    new = w.new ++ x.new;
    visited = rw (x.visited, w.visited) (append_assoc v w.new x.new);
    fresh = λ d. x.fresh (w.fresh d);
    linked = All-append _ w.new x.new w.linked x.linked;
    fits = x.fits;
    grown = λ k h. omega (arith, w.grown k h, x.grown k h, followed-append subs k w.new x.new);
  }

  through :
      (key mid : Text) (b : Broker) (v : List Text) (st : Broker × List Text)
      → Linked now links key mid
      → Went mid b v st
      → Went key b v st
  through key mid b v st h w = record {
    new = w.new;
    visited = w.visited;
    fresh = w.fresh;
    linked = Linked-all now links key mid w.new h w.linked;
    fits = w.fits;
    grown = w.grown;
  }

  module _ (sets : (tk : Text) → Distinct (or_zero [] (find tk subs))) where
    grown_once :
        (other : Text) (rm : Message) (b : Broker)
        → Fits b
        → (k : Text) → k ≢ []
        → length (inbox_of k (publish_local other rm [] true b).0)
          ≡ length (inbox_of k b) + followed subs k (other ∷ [])
    grown_once other rm b f k h =
        let here : Distinct (subscribers other b) =
          subst (λ t. Distinct (or_zero [] (find other t))) (sym f.0) (sets other) in
        let got =
          if contains k (subscribers other b) && not (same k [])
          then copy (waker rm true b) rm k ∷ []
          else [] in
        let count : length (
              if contains k (or_zero [] (find other b.topics)) && not (same k [])
              then copy (waker rm true b) rm k ∷ []
              else [])
            ≡ followed b.topics k (other ∷ []) =
          ground (arith, ne→same k [] h) in
        ap length ((publish_local_lem other rm [] true b here).0 k)
        ∙ length-append (inbox_of k b) got
        ∙ ap (◌+◌ (length (inbox_of k b))) (count ∙ ap (λ t. followed t k (other ∷ [])) f.0)

    one_hop :
        (key : Text) (m : Message) (br : Bridge) (b : Broker) (v : List Text)
        → Among br (bridges_at key links)
        → Fits b
        → crosses now br key v ≡ true
        → Went key b v (
          (publish_local (other_side br key).0 (relayed br key m) [] true b).0,
          add (other_side br key).0 v,
        )
    one_hop key m br b v at f c =
        let other = (other_side br key).0 in
        let rm = relayed br key m in
        let is_new : contains other v ≡ false = unfold crosses in ground arith in
        record {
          new = other ∷ [];
          visited = add_new other v is_new;
          fresh = λ d. rw (add_new other v is_new) (Distinct-snoc other v is_new d);
          linked = (
            one br at (unfold crosses in ground arith) (unfold crosses in ground arith) refl,
            tt,
          );
          fits = (
            publish_local-topics other rm [] true b ∙ f.0,
            publish_local-bridges other rm [] true b ∙ f.1,
          );
          grown = grown_once other rm b f;
        }

    module _ (go : Text → Message → Broker × List Text → Broker × List Text)
        (went : (key : Text) (m : Message) (b : Broker) (v : List Text)
          → Fits b
          → Went key b v (go key m (b, v))) where
      cross-Went :
          (key : Text) (m : Message) (br : Bridge) (b : Broker) (v : List Text)
          → Among br (bridges_at key links)
          → Fits b
          → Went key b v (cross now go key m br (b, v))
      unfolding cross
      cross-Went key m br b v at f = elim (Bool-cases (crosses now br key v)) [
        | inr closed ↦ rw closed (stay key b v f)
        | inl open_ ↦
            let other = (other_side br key).0 in
            let rm = relayed br key m in
            let b1 = (publish_local other rm [] true b).0 in
            let v1 = add other v in
            let hop = one_hop key m br b v at f open_ in
            let link : Linked now links key other =
              one br at (unfold crosses in ground arith) (unfold crosses in ground arith) refl in
            rw open_ (
              onward key b v (b1, v1) (go other rm (b1, v1)) hop
                (through key other b1 v1 (go other rm (b1, v1)) link
                  (went other rm b1 v1 hop.fits)))
      ]

      relay_over-Went :
          (key : Text) (m : Message) (brs : List Bridge) (b : Broker) (v : List Text)
          → All (λ br. Among br (bridges_at key links)) brs
          → Fits b
          → Went key b v (relay_over now go key m brs (b, v))
      unfolding relay_over
      relay_over-Went key m [] b v at f = stay key b v f
      relay_over-Went key m (br ∷ brs) b v (h, at) f =
          let first = cross-Went key m br b v h f in
          let mid = cross now go key m br (b, v) in
          onward key b v mid (relay_over now go key m brs mid) first
            (relay_over-Went key m brs mid.0 mid.1 at first.fits)

    pub relay-Went :
        (hops : ℕ) (key : Text) (m : Message) (b : Broker) (v : List Text)
        → Fits b
        → Went key b v (relay now hops key m (b, v))
    unfolding relay
    relay-Went zero key m b v f = stay key b v f
    relay-Went (suc hops) key m b v f =
        let brs = bridges_at key b.bridges_by_topic in
        relay_over-Went (relay now hops) (relay-Went hops) key m brs b v
          (subst (λ l. All (λ br. Among br (bridges_at key l)) brs) f.1 (Among-all brs)) f
