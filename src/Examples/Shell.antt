-- ===== src/Examples/Shell.antt =====
-- Command lines.
use mess.Client.Kinds.{resolve_kinds}
use mess.Client.Kinds.Chosen.{resolve_kinds_lem, Filters}
use mess.Wire.{kind_broadcast, Message}
use mess.Client.Replying.{ReplyCall, SessionFiles}
use mess.Journal.Rotated.{append_lem, Written}
use mess.Journal.Writer.{is_written, open_fails, JournalWriter, Files}
use mess.Journal.{JournalLine}
use mess.Mentions.{is_user_handle}
use mess.Identity.Safe.{state_key_lem, SafeName}
use mess.Rooms.{contains_byte, parse_display_name, agent_key}
use mess.Identity.{max_key, state_key}
use mess.Client.Targets.{addressed_lem, Addressed, sent_request}
use mess.Flags.{flag_token, hoist_flags}
use mess.Flags.Hoisted.{ends_flags, hoist_flags_lem, Same}
use mess.Base.{
  none, zero, suc, true, some, contains, text_discrete, ◌≤◌, length, is_empty, ◌≡◌, refl, Text,
  codes, false, List, [], ◌∷◌,
}
use mess.Requests.{blank_request, self_of, Request}
use mess.Client.{check_target, room_flags, RoomTarget}
use mess.Examples.Scene.{letter, alice}

abbrev ask_away : RoomTarget
ask_away = record { room = codes "peri"; global = false }

abbrev to_peri : Request
to_peri = record blank_request { op = codes "send"; as_name = alice; to = codes "peri/bob" }

addressed_lem_example :
    (self_of (sent_request [] (codes "home") (codes "peri") false ask_away to_peri)
      ≡ agent_key (codes "home") alice)
    × Addressed []
        (codes "home")
        (codes "peri")
        false
        ask_away
        to_peri
        (parse_display_name (codes "peri/bob"))
unfolding room_flags check_target parse_display_name text_discrete is_user_handle contains
addressed_lem_example =
    addressed_lem [] (codes "home") (codes "peri") false ask_away to_peri refl refl refl refl

abbrev command_line : List Text
command_line = codes "bob" ∷ codes "--thread" ∷ codes "m4" ∷ codes "hi" ∷ codes "--ack" ∷ []

hoist_flags_lem_example :
    Same
      (ends_flags (codes "thread" ∷ []) (codes "ack" ∷ []) false command_line)
      command_line
      (hoist_flags (codes "thread" ∷ []) (codes "ack" ∷ []) command_line).0
hoist_flags_lem_example = hoist_flags_lem (codes "thread" ∷ []) (codes "ack" ∷ []) command_line

hoisted :
    (hoist_flags (codes "thread" ∷ []) (codes "ack" ∷ []) command_line).0
    ≡ codes "--thread" ∷ codes "m4" ∷ codes "--ack" ∷ codes "--" ∷ codes "bob" ∷ codes "hi" ∷ []
unfolding hoist_flags text_discrete flag_token contains contains_byte
hoisted = refl

state_key_lem_example :
    (is_empty (state_key (codes "dsh:session/7")) ≡ false)
    × (length (state_key (codes "dsh:session/7")) ≤ max_key)
    × SafeName (state_key (codes "dsh:session/7"))
state_key_lem_example = state_key_lem (codes "dsh:session/7")

-- The file that is written is one byte below the limit and has an older generation.
abbrev line : JournalLine
line = record { message = letter; room = []; event = codes "sent"; expired_at = 0 }

abbrev two_files : Files
two_files zero = some (line ∷ line ∷ [])
two_files (suc zero) = some (line ∷ [])
two_files (suc (suc j)) = none

abbrev full : JournalWriter
full = record { files = two_files; size = 52428799; is_open = true }

append_lem_example : Written (λ l. 100) (λ i. true) is_written open_fails line full
append_lem_example = append_lem (λ i. true) (λ i. refl) (λ l. 100) is_written open_fails line full

abbrev session : SessionFiles
session = record { has_id = true; last_msg = none; open_thread = none }

abbrev to_all : Message
to_all = record letter { id = codes "m8"; kind = kind_broadcast }

abbrev answer : ReplyCall
answer = record {
  target = ask_away;
  name = alice;
  thread = [];
  args = codes "yes" ∷ [];
  body = some (codes "yes");
  view = none;
}

resolve_kinds_lem_example :
    Filters (codes "direct, topic") false letter (resolve_kinds (codes "direct, topic") false)
resolve_kinds_lem_example = resolve_kinds_lem (codes "direct, topic") false letter
