-- ===== src/Lib.antt =====
-- A model of mess, a message broker for the coding agents of one machine, and the theorems that make
-- it correct.
--
-- A daemon holds all state in one broker (broker.go): agents with their inboxes, topics with their
-- subscribers, bridges between topics, open questions and invitations, and the marks that say who is
-- there. A request of the command line client becomes one or more calls of the broker's methods.
-- Nearly every method takes the broker's lock for its whole body, so a method is modelled as a function
-- from state to state, and a run of the daemon is a sequence of such steps; SendAsk, Invite and Decline
-- take the lock more than once, and what falls in between is not modelled. The clock, the probe of a
-- process and the login names are fields of an environment that a method is given (State.Env).
--
-- Which file models what:
--   Base        the shared names; texts, maps, lists and comparisons over the native numbers.
--   Rooms       rooms.go: the keys of agents and topics, and the names as they are displayed.
--   Ids         broker.go: nextID, nextBridgeID, msgSeq, with strconv's reading of numbers.
--   Mentions    broker.go: mentionsIn, missingMentions; notify.go: isUserHandle.
--   Wire        wire/proto.go: Message and the kinds.
--   State       broker.go: Broker and its records; persist.go: the records of a snapshot.
--   Snapshot    persist.go: snapshot.
--   Core        broker.go: ensure, touch, changed, deliver and the other helpers.
--   Presence    broker.go: aliveLocked, workingLocked, listeners, turns, warnings, evictions.
--   Owners      broker.go: RegisterOwned, ClaimIdentity, Rename, JoinRoom, RemoveAgent.
--   Direct      broker.go: send, CancelAck, Broadcast.
--   Inbox       broker.go: the drains, the waits, Replay and the exports.
--   Topics      broker.go: pub, Sub, Unsub, publishLocalLocked, relayLocked.
--   Pending     broker.go: the eviction loops of the tables of questions and invitations.
--   Bridges     broker.go: Bridge, Unbridge, ListBridges.
--   Asks        broker.go: SendAsk, answersAskLocked, AmbiguousMentionTokens, DrainAnswers.
--   Invites     broker.go: Invite, Decline, LookupInvite, ClearInvite, PendingInvites.
--   Sweeps      broker.go: Cleanup, ExpireInbox.
--   Audience    broker.go: MentionsNotSubscribed, MentionsNotInRoom.
--   Listing     broker.go: Ps, describeFrom.
--   Threads     broker.go: ListThreads.
--   Runs        broker.go as a whole: the methods as calls, and runs of them.
--   Restart     persist.go: load.
--   Daemon      daemon.go: expireDurably.
--   Durations   wire/journal.go: ParseSince, with time.ParseDuration.
--   Journal     wire/journal.go: SearchJournal over the lines that parse; journal.go: append,
--               rotateLocked.
--   Sessions    session.go: hostSessionPIDFrom.
--   Requests    wire/proto.go: Request; daemon.go: how its fields are read.
--   Replies     wire/proto.go: Response.
--   Handlers    daemon.go: the cases of dispatch, and send.
--   Dispatch    daemon.go: dispatch.
--   Waiting     daemon.go: parkAndDrain.
--   Listening   daemon.go: handleListen.
--   Serve       daemon.go: handle, recv, askOrAwait.
--   Identity    identity.go: stateKey.
--   Notices     notify.go: userNotice.
--   Client      client.go and main.go: the rooms that a command addresses, where a reply goes.
--               Replying: reply.go; main.go: updateLastMsg, cmdReply, sendReply.
--               Kinds: main.go: resolveKinds.
--   Flags       main.go: hoistFlags.
--   Examples    the theorems at work on one small community of agents.
-- The child modules of a component hold its proofs and are named for what they prove.
--
-- Conventions. A text is a list of character codes. A map is an association list whose `put`
-- replaces the first entry of a key; where Go goes through a map in no fixed order, the model goes
-- through the list, and a result that depends on that order is said to; a theorem about such a result
-- is stated for the table in any order. A time is a number of
-- nanoseconds, and 0 is the zero time. A channel is a number; the state lists the channels that hold
-- a token and those that were closed. What the persistence hook was given last is a field.
--
-- Loops. The relay recurses on the hops that are left of maxBridgeHops, as the source counts them.
-- The eviction loops recurse on fuel, the size of the table, and each round removes an entry.
--
-- A walk over the ancestors of a process recurses on the rounds of its loop; the terms of a duration,
-- on the number of bytes, of which each term takes one.
--
-- The daemon. A request is a record, and its handling a function from the state to the state, the
-- answers and the lines for the journal. The broker calls of one request run one behind the other.
-- Where a request waits, for mail, for a receipt or in a stream, the model is told what the other
-- clients call meanwhile and what ends the wait: the list of pauses of a wait, and two fields of the
-- surroundings of a request for a receipt. The process table, the compiler of regular expressions, the
-- lines of the journal and the success of an append are arguments. A length that the source takes for
-- an int is a natural number: a negative limit is the limit 0.
--
-- Not modelled: sockets, the start of the daemon and its automatic sweep; most of the command line
-- client, which prints and reads files; the formats of the files of the journal, of the snapshot and
-- of a client's session; running the notifier; the terminal interface and the hooks; log lines; the
-- wording of errors, which are constructors here. All of these are input and output around what is
-- modelled.

mod Base
pub mod Rooms
pub mod Ids
pub mod Mentions
pub mod Wire
pub mod State
pub mod Snapshot
pub mod Core
pub mod Presence
pub mod Owners
pub mod Direct
pub mod Inbox
pub mod Topics
pub mod Pending
pub mod Bridges
pub mod Asks
pub mod Invites
pub mod Sweeps
pub mod Audience
pub mod Listing
pub mod Threads
pub mod Runs
pub mod Restart
pub mod Daemon
pub mod Journal
pub mod Sessions
pub mod Requests
pub mod Replies
pub mod Handlers
pub mod Dispatch
pub mod Waiting
pub mod Listening
pub mod Serve
pub mod Durations
pub mod Identity
pub mod Notices
pub mod Client
pub mod Flags
pub mod Examples
