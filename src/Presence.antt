-- ===== src/Presence.antt =====
-- broker.go: who looks alive, the listener and busy marks, warnings, and who gets evicted.
pub mod Liveness
use mess.Base.{
  add_int, ℤ, ℕ, suc, ◌+◌, ◌-◌, ◌*◌, ◌^◌, Text, Bool, true, false, ◌&&◌, ◌||◌, not, List, [], ◌∷◌,
  ◌++◌, Option, none, some, find, put, delete, or_zero, is_some, is_empty, same, ltb, leb, ◌==◌,
  if◌then◌else◌, length,
}
use mess.State.{Agent, Owner, WarnInfo, Broker, Env}
use mess.Core.{ensure, touch, changed, evict_waiters, clear_warn, update_agent}

abbrev pub two_minutes : ℕ
two_minutes = 120 * 10 ^ 9

module _ (env : Env) where
  owner_dead : Option Owner → Bool
  owner_dead none = false
  owner_dead (some o) =
      if o.pid == 0 || is_empty o.comm then false else not (same (env.probe_comm o.pid) o.comm)

  -- Only a probe that saw the process gone says "dead".
  unfoldable pub session_dead : Text → Broker → Bool
  unfolding owner_dead
  session_dead name b = owner_dead (find name b.owners)

  unfoldable pub is_busy : Text → Broker → Bool
  is_busy name b = ltb env.now (or_zero 0 (find name b.busy_until))

  seen_lately : Option ℕ → Bool
  seen_lately none = false
  seen_lately (some t) = ltb (env.now - t) two_minutes

  unfoldable pub is_listening : Text → Broker → Bool
  is_listening name b = ltb 0 (or_zero 0 (find name b.listeners))

  unfoldable pub alive : Text → Broker → Bool
  unfolding session_dead is_listening is_busy seen_lately
  alive name b =
      if session_dead name b
      then false
      else is_listening name b || is_busy name b || seen_lately (find name b.last_seen)

  unfoldable pub working : Text → Broker → Bool
  unfolding is_busy session_dead
  working name b = is_busy name b && not (session_dead name b)

  unfoldable pub add_listener : Text → Broker → Broker
  unfolding ensure touch
  add_listener name b =
      let b' = touch env name (ensure name b) in
      record b' { listeners = put name (or_zero 0 (find name b'.listeners) + 1) b'.listeners }

  unfoldable pub remove_listener : Text → Broker → Broker
  remove_listener name b =
      let n = or_zero 0 (find name b.listeners) in
      record b {
        listeners = if leb n 1 then delete name b.listeners else put name (n - 1) b.listeners;
      }

  unfoldable pub set_busy : Text → ℤ → Broker → Broker
  unfolding ensure touch clear_warn
  set_busy name dur b =
      let b' = clear_warn name (touch env name (ensure name b)) in
      record b' { busy_until = put name (add_int env.now dur) b'.busy_until }

  unfoldable pub clear_busy : Text → Broker → Broker
  clear_busy name b = record b { busy_until = delete name b.busy_until }

  unfoldable pub end_session : Text → Broker → Broker
  unfolding evict_waiters clear_busy
  end_session name b = evict_waiters name (clear_busy name b)

  unfoldable pub set_warn : Text → Text → ℤ → Broker → Broker
  unfolding ensure touch changed
  set_warn name text ttl b =
      let b' = ensure name b in
      let warn = put name (record { text = text; until = add_int env.now ttl }) b'.warnings in
      changed (
        if is_empty text
        then record b' { warnings = delete name b'.warnings }
        else touch env name (record b' { warnings = warn }))

  unfoldable pub set_state : Text → Text → Broker → Broker
  unfolding update_agent touch changed
  set_state name state b =
      changed (touch env name (update_agent name (λ a. record a { state = state }) b))

unfoldable pub watch_evict : Text → Broker → Broker × ℕ
watch_evict name b = (
  record b {
    evicts = put name (or_zero [] (find name b.evicts) ++ b.next_chan ∷ []) b.evicts;
    next_chan = b.next_chan + 1;
  },
  b.next_chan,
)

-- The first occurrence goes.
drop_chan : ℕ → List ℕ → List ℕ
drop_chan ch [] = []
drop_chan ch (c ∷ cs) = if c == ch then cs else c ∷ drop_chan ch cs

is_nil : List ℕ → Bool
is_nil [] = true
is_nil (c ∷ cs) = false

unfoldable pub unwatch_evict : Text → ℕ → Broker → Broker
unfolding drop_chan is_nil
unwatch_evict name ch b =
    let chans = drop_chan ch (or_zero [] (find name b.evicts)) in
    record b { evicts = if is_nil chans then delete name b.evicts else put name chans b.evicts }
