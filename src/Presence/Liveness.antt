-- ===== src/Presence/Liveness.antt =====
-- What `aliveLocked`, `workingLocked`, the listener count and `EndSession` promise.
use mess.Base.{
  ◌||◌, ℕ, Text, ◌≡◌, ◌≢◌, refl, true, false, arith, none, some, [], find, find-put, find-put_self,
  find-delete, or_zero, has, has-append, has-last,
}
use mess.State.{Owner, Broker, Env}
use mess.Presence.{alive, working, is_busy, end_session, add_listener, remove_listener, watch_evict}

module _ (env : Env) where
  -- A session whose process the probe finds gone is neither online nor in a turn, whatever its
  -- listeners, busy mark and last activity say.
  pub dead_not_alive :
      (name : Text) (b : Broker) (o : Owner)
      → find name b.owners ≡ some o
      → o.pid ≢ 0
      → o.comm ≢ []
      → env.probe_comm o.pid ≢ o.comm
      → (alive env name b ≡ false) × (working env name b ≡ false)
  unfolding alive working
  dead_not_alive name b o e hp hc hd = ground arith

  -- A listener that ends undoes the one that began, for the count of every agent.
  pub remove_listener-add_listener :
      (name other : Text) (b : Broker)
      → or_zero 0 (find other (remove_listener env name (add_listener env name b)).listeners)
        ≡ or_zero 0 (find other b.listeners)
  unfolding add_listener remove_listener
  remove_listener-add_listener name other b = grind (arith, find-put, find-put_self, find-delete)

  -- Ending a session closes the channels of all parked waits that were watching the name, the last
  -- one among them, and no others, ends its turn, and leaves its mail, subscriptions and ownership, and everyone else's busy mark, as they were.
  pub end_session_lem :
      (name : Text) (b : Broker)
      → let (watched, ch) = watch_evict name b in
        let ended = end_session env name watched in
        (has ch ended.closed ≡ true)
        × ((c : ℕ)
            → has c ended.closed ≡ has c (or_zero [] (find name watched.evicts)) || has c b.closed)
        × (find name ended.evicts ≡ none)
        × (is_busy env name ended ≡ false)
        × (ended.agents ≡ b.agents)
        × (ended.topics ≡ b.topics)
        × (ended.owners ≡ b.owners)
        × ((other : Text) → other ≢ name → is_busy env other ended ≡ is_busy env other b)
  unfolding watch_evict end_session is_busy
  end_session_lem name b = (
    rw (find-put_self name _ b.evicts) (rw has-append (rw has-last refl)),
    λ c. has-append c _ b.closed,
    grind (arith, find-delete),
    grind (arith, find-delete),
    refl,
    refl,
    refl,
    λ other h. ground (arith, find-delete name other b.busy_until),
  )
