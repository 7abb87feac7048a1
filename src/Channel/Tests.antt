-- ===== src/Channel/Tests.antt =====
-- The channel list and the users of a channel at concrete inputs.
use bcirc.Base.{codes, [], ◌∷◌, some, ◌≡◌, refl, strtok}
use bcirc.Channel.{Channel, Channels, new_channel, get_channel, get_or_create, spent, remove_user}
use bcirc.Channel.Lookup.{IsUnique, get_or_create_lem}
use bcirc.Channel.Users.{remove_user_loops}

abbrev one_channel : Channels
one_channel = record { channel_list = new_channel 1 (codes "#a") 7 ∷ []; next_addr = 2 }

get_or_create_lem_example :
    let (chan, cs') = get_or_create (codes "#b") 7 one_channel in
    IsUnique cs'.channel_list
    × (get_channel (some (codes "#b")) (some 7) cs' ≡ chan)
    × (get_or_create (codes "#b") 7 cs' ≡ (chan, cs'))
get_or_create_lem_example = get_or_create_lem (codes "#b") 7 one_channel (tt, tt)

abbrev two_users : Channel
two_users = record (new_channel 1 (codes "#a") 7) { users = some (codes "joona mikko") }

remove_user_loops_example : remove_user 100 (codes "joona") two_users ≡ spent
remove_user_loops_example =
    remove_user_loops 100 (codes "joona") (codes "joona mikko") (codes "mikko") two_users refl
      (unfold strtok in refl)
