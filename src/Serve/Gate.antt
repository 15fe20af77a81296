-- ===== src/Serve/Gate.antt =====
-- Who gets past the door.
use mess.Core.{ensure, touch}
use mess.Mentions.{is_user_handle}
use mess.Owners.{ownership_msg, set_owner, claim_identity, foreign_live_owner}
use mess.Requests.{acts_as_self, well_formed, self_of, Request}
use mess.Waiting.{Pause}
use mess.Handlers.{fails, Host}
use mess.Base.{
  ap, find-put_self, ℕ, Bool-cases, is_empty, List, Text, ◌≡◌, refl, true, false, none, some, ◌⊎◌,
  inl, inr,
}
use mess.State.{Broker, Env, Owner}
use mess.Owners.Guard.{session_in, session_of}
use mess.Serve.{refused, serve, gated, handle}

-- What the gate makes of a request: it is refused, and nothing happens, or it is served in a state in
-- which its session owns the name.
abbrev pub Gated : Host → List Pause → Request → Broker → Type 0
Gated host pauses req b =
    ((foreign_live_owner host.env (self_of req) req.session b ≡ true)
      × (handle host pauses req b ≡ fails b (refused (ownership_msg (self_of req)))))
    ⊎ ((foreign_live_owner host.env (self_of req) req.session b ≡ false)
        × ((c : Broker) × (session_of (self_of req) c ≡ some req.session)
            × (handle host pauses req b ≡ serve host pauses req c)))

module _ (env : Env) (name session : Text) (pid : ℕ) (b : Broker) where
  claimed : Broker
  claimed = set_owner env name session pid (touch env name (ensure name b))

  claim_identity-claimed :
      is_empty name ≡ false
      → is_empty session ≡ false
      → is_user_handle env.logins name ≡ false
      → foreign_live_owner env name session b ≡ false
      → claim_identity env name session pid b ≡ (claimed, none)
  unfolding claim_identity claimed
  claim_identity-claimed n s u f = rw (n, s, u, f) refl

  session_of-claimed : session_of name claimed ≡ some session
  unfolding claimed set_owner
  session_of-claimed =
      let owner : Owner = record { session = session; pid = pid; comm = env.probe_comm pid } in
      ap session_in (find-put_self name owner (touch env name (ensure name b)).owners)

module _ (host : Host) (pauses : List Pause) (req : Request) (b : Broker) where
  -- A request whose room, name, recipient and topic hold no separator, made by a session with an id in
  -- the name of an agent that is not the human, for an operation in which the sender acts under its own
  -- name, is refused, and changes nothing, exactly when another session that is alive owns the name of
  -- the sender in its own room; otherwise it is served in a state in which its session owns that name.
  pub handle_gate :
      well_formed req ≡ true
      → acts_as_self req.op ≡ true
      → is_empty (self_of req) ≡ false
      → is_empty req.session ≡ false
      → is_user_handle host.env.logins (self_of req) ≡ false
      → Gated host pauses req b
  unfolding handle
  handle_gate w a n s u =
      elim (Bool-cases (foreign_live_owner host.env (self_of req) req.session b)) [
        | inl e ↦ inl (e, rw (w, a) (unfold gated claim_identity in rw (n, s, u, e) refl))
        | inr e ↦ inr (
          e,
          (
            claimed host.env (self_of req) req.session req.session_pid b,
            session_of-claimed host.env (self_of req) req.session req.session_pid b,
            rw
                (
                  w,
                  a,
                  claim_identity-claimed host.env (self_of req) req.session req.session_pid b n s u
                      e,
                )
                (unfold gated in refl),
          ),
        )
      ]
