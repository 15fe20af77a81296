-- ===== src/Listening/Calls.antt =====
-- What a stream does to the state is a run of calls of the broker.
use mess.Presence.{add_listener}
use mess.Replies.{no_listen_identity, Response}
use mess.Handlers.{need_duration, Host}
use mess.Inbox.{match_kind, drain_kinds, wakes, wait_chan}
use mess.Wire.{Message}
use mess.Waiting.{Pause}
use mess.Requests.{kind_set, who_of, Request}
use mess.Base.{
  ℕ, Text, pos, is_positive, is_empty, ℤ, Bool, false, List, [], ◌∷◌, Option, none, some,
}
use mess.State.{Broker, Env}
use mess.Runs.{Call, step, run}
use mess.Runs.Tables.{either}
use mess.Waiting.Calls.{AllPauses}
use mess.Runs.Reaches.{AllCalls, Reaches, nowhere, onward, by_step, by_run, Reaches-trans}
use mess.Listening.{
  failed, listen_with, ends_window, is_gone, ends_idle, Stream, Phase, at_drain, in_window,
  stream_round, stream, listen,
}

-- The calls that a stream of this agent makes.
pub record IsStreaming (P : Call → Type 0) (who : Text) : Type 0 where
  pub listening : P (Call.listens who)
  pub stopping : P (Call.stops_listening who)
  pub reading : (peek : Bool) (max : ℕ) (p : Message → Bool) → P (Call.reads who peek max p)
  pub waiting : (p : Message → Bool) → P (Call.waits who p)

module _ {P : Call → Type 0} (req : Request) (own : IsStreaming P (who_of req)) (idle : Bool) where
  round_calls :
      (env : Env) (p : Pause) (here_all : AllCalls P p.calls) (b : Broker) (ms : List Message)
      (go : Phase → Broker → Stream)
      → ((phase : Phase) (c : Broker) → Reaches P c (go phase c).broker)
      → Reaches P b (stream_round req idle p b ms go).broker
  unfolding stream_round step
  round_calls env p here_all b [] go h =
      let ch : Reaches P b (wait_chan (who_of req) (kind_set req.kinds) b).0 =
        unfold wait_chan in
        by_step env (Call.waits (who_of req) (λ m. wakes m (kind_set req.kinds))) (own.waiting _)
          b in
      let here =
        Reaches-trans ch
          (by_run p.calls here_all (wait_chan (who_of req) (kind_set req.kinds) b).0) in
      either (λ (s : Stream). Reaches P b s.broker) (ends_idle idle p.waking) _ _ here
        (Reaches-trans here (h _ _))
  round_calls env p here_all b (m ∷ ms) go h =
      let here = by_run p.calls here_all b in
      either (λ (s : Stream). Reaches P b s.broker) (is_gone p.waking) _ _ here
        (Reaches-trans here (h at_drain (run p.calls b)))

  stream_calls :
      (ps : List Pause)
      → AllPauses P ps
      → (env : Env) (phase : Phase) (b : Broker)
      → Reaches P b (stream req idle ps env phase b).broker
  unfolding stream drain_kinds step
  stream_calls [] all env phase b = nowhere
  stream_calls (p ∷ ps) (here_all, all) env in_window b =
      let here = by_run p.calls here_all b in
      either (λ (s : Stream). Reaches P b s.broker) (ends_window p.waking) _ _ here
        (Reaches-trans here (stream_calls ps all p.env at_drain (run p.calls b)))
  stream_calls (p ∷ ps) (here_all, all) env at_drain b =
      let r = drain_kinds env (who_of req) false req.max (kind_set req.kinds) b in
      Reaches-trans
        (by_step env
          (Call.reads (who_of req) false req.max (λ m. match_kind m (kind_set req.kinds)))
          (own.reading _ _ _) b)
        (round_calls env p here_all r.0 r.1 (stream req idle ps p.env) (stream_calls ps all p.env))

listen_with_calls :
    {P : Call → Type 0} (host : Host) (pauses : List Pause) (all : AllPauses P pauses)
    (req : Request) (own : IsStreaming P (who_of req)) (t : Option ℤ) (b : Broker)
    → Reaches P b (listen_with host pauses req t b).0
unfolding listen_with step
listen_with_calls host pauses all req own none b = nowhere
listen_with_calls {P = P} host pauses all req own (some idle) b =
    let b1 = add_listener host.env (who_of req) b in
    let s = stream req (is_positive idle) pauses host.env at_drain b1 in
    let there : Reaches P b s.broker =
      onward host.env (Call.listens (who_of req)) own.listening
        (stream_calls req own (is_positive idle) pauses all host.env at_drain b1) in
    either (Reaches P b) s.ended _ _
      (Reaches-trans there
        (by_step host.env (Call.stops_listening (who_of req)) own.stopping s.broker))
      there

pub listen_calls :
    {P : Call → Type 0} (host : Host) (pauses : List Pause) (all : AllPauses P pauses)
    (req : Request) (own : IsStreaming P (who_of req)) (b : Broker)
    → Reaches P b (listen host pauses req b).0
unfolding listen
listen_calls {P = P} host pauses all req own b =
    either (λ (r : Broker × List Response). Reaches P b r.0) (is_empty req.as_name)
      (b, failed no_listen_identity ∷ [])
      (listen_with host pauses req (need_duration (pos 0) req.timeout) b) nowhere
      (listen_with_calls host pauses all req own (need_duration (pos 0) req.timeout) b)
