-- ===== src/Client/Targets.antt =====
-- Whom a command addresses, and as whom.
use mess.Base.{
  ◌||◌, ◌≡◌, refl, Text, Bool, true, false, List, [], Option, none, some, is_empty, same, arith,
  if◌then◌else◌,
}
use mess.Rooms.{agent_key, parse_display_name}
use mess.Mentions.{is_user_handle}
use mess.Requests.{Request, self_of, to_of}
use mess.Client.{RoomTarget, room_flags, check_target, apply, with_room}

-- The room of a target that names none: that of the flags, or else the caller's own.
abbrev pub flagged_room : Text → RoomTarget → Text
flagged_room ambient rt = if rt.global then [] else if is_empty rt.room then ambient else rt.room

module _ (logins : List Text) (ambient room : Text) (global : Bool) (rt : RoomTarget)
    (req : Request) where
  -- The request that goes out.
  abbrev pub sent_request : Request
  sent_request = with_room ambient (apply rt req)

  -- Where it goes, by what its target names.
  pub Addressed : Option (Text × Text) → Type 0
  Addressed none = to_of logins sent_request ≡ agent_key (flagged_room ambient rt) req.to
  Addressed (some (r, n)) =
      (to_of logins sent_request ≡ agent_key r n)
      × (rt.global ≡ false)
      × (is_empty rt.room || same rt.room r ≡ true)

  module _ (f : room_flags room global ≡ some rt) (c : check_target rt req.to ≡ true)
      (s : req.self_room ≡ none) (u : is_user_handle logins req.to ≡ false) where
    addressed : (p : Option (Text × Text)) → parse_display_name req.to ≡ p → Addressed p
    unfolding Addressed room_flags check_target with_room apply to_of
    addressed none e = ground (arith, f, u, e)
    addressed (some (r, n)) e = (ground (arith, u, e), ground (arith, c, e), ground (arith, c, e))

    -- As the operations of dispatch read their requests, which ask, await and recv do not: a command
    -- addressed to an agent goes out under the key of the sender in its own room, whatever room the
    -- flags or the target name. It is addressed in the room that the target names, or else in
    -- the one of the flags, or else in the sender's own. For a target that is no handle of the human,
    -- with flags that do not say two rooms, and with no other room in the target than in the flags.
    pub addressed_lem :
        (self_of sent_request ≡ agent_key ambient req.as_name)
        × Addressed (parse_display_name req.to)
    unfolding with_room apply self_of
    addressed_lem = (ground (arith, s), addressed (parse_display_name req.to) refl)
