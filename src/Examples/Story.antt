-- ===== src/Examples/Story.antt =====
-- A run of the broker, and what its state keeps.
use mess.Base.{
  pos, insert_by, contains, false, refl, add, find, select, sort_by, text_discrete, true, codes,
  List, [], ◌∷◌, none, ◌≡◌, ◌||◌, ◌&&◌, same,
}
use mess.Rooms.{split_agent_key}
use mess.Mentions.{mentions_in, is_user_handle, user_handles, missing_mentions}
use mess.Wire.{Message, blank, kind_topic}
use mess.State.{Env}
use mess.Core.{new_broker}
use mess.Topics.{subscribe, is_subscribed}
use mess.Topics.Publish.{inbox_of, published}
use mess.Audience.{mentions_not_subscribed}
use mess.Audience.Silent.{mentions_not_subscribed_lem}
use mess.Topics.Subscriptions.{subscribe_lem}
use mess.Runs.{Call, run, registers, subscribes, publishes, asks, renames, cleans_up}
use mess.Runs.Helpers.{IsValid}
use mess.Runs.Reachable.{run-IsValid}
use mess.Examples.Scene.{alice, bob, carol, news, day, town}

abbrev story : List (Env × Call)
story =
    (day, registers alice)
    ∷ (day, subscribes bob news)
    ∷ (day, subscribes bob news)
    ∷ (day, publishes alice news (codes "@bob hi") [] none)
    ∷ (day, asks alice bob (codes "ready?"))
    ∷ (day, renames bob carol (codes "s2") 9 true)
    ∷ (day, cleans_up (pos 500) true)
    ∷ []

run-IsValid_example : IsValid (run story new_broker)
run-IsValid_example = run-IsValid story

subscribe_lem_example :
    is_subscribed carol news (subscribe day carol news town)
    ≡ is_subscribed carol news town || same carol carol && same news news
subscribe_lem_example = (subscribe_lem day carol news carol news town).0

abbrev notice : Message
notice = record blank { id = codes "m3"; from = alice; kind = kind_topic; body = codes "@carol hi" }

mentions_not_subscribed_lem_example :
    inbox_of carol (published news notice alice false town) ≡ inbox_of carol town
unfolding mentions_not_subscribed missing_mentions mentions_in add contains is_user_handle
    user_handles split_agent_key text_discrete select sort_by insert_by find
mentions_not_subscribed_lem_example =
    (mentions_not_subscribed_lem day news alice carol false notice town (refl, (refl, tt)) refl).2
