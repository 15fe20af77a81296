-- ===== src/Examples/Texts.antt =====
-- Keys, ids and mentions.
use mess.Base.{codes, ◌≡◌, refl, true, contains, some, pos, [], text_discrete, ◌↔◌, arith}
use mess.Rooms.{split_agent_key, agent_key, parse_display_name, display_name}
use mess.Rooms.Keys.{split_agent_key-agent_key, parse_display_name-display_name}
use mess.Ids.{msg_seq, msg_id}
use mess.Ids.RoundTrip.{msg_seq-msg_id}
use mess.Mentions.{mentions_in}
use mess.Mentions.Sound.{mentions_in_iff, Mentioned}
use mess.Examples.Scene.{bob, unlike}

split_agent_key-agent_key_example :
    split_agent_key (agent_key (codes "lab") bob) ≡ (codes "lab", bob)
unfolding text_discrete
split_agent_key-agent_key_example =
    split_agent_key-agent_key (codes "lab") bob (ground arith) (ground arith) (unlike bob [] refl)

parse_display_name-display_name_example :
    parse_display_name (display_name (codes "lab") bob) ≡ some (codes "lab", bob)
unfolding text_discrete
parse_display_name-display_name_example =
    parse_display_name-display_name (codes "lab") bob (ground arith) (ground arith)
      (unlike (codes "lab") [] refl) (unlike bob [] refl)

msg_seq-msg_id_example : msg_seq (msg_id 407) ≡ some (pos 407)
msg_seq-msg_id_example = msg_seq-msg_id 407 (ground arith)

mentions_in_iff_example :
    (contains bob (mentions_in (codes "@bob hi")) ≡ true) ↔ Mentioned true bob (codes "@bob hi")
mentions_in_iff_example = mentions_in_iff bob (codes "@bob hi")
