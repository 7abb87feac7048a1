-- ===== src/ChannelHandler/Tests.antt =====
-- The channel handler on concrete lines.
use bcirc.Base.{codes, [], ◌∷◌, some, ◌≡◌, refl}
use bcirc.Channel.{Channel, Channels, new_channel}
use bcirc.ChannelHandler.{get_channel_title}
use bcirc.ChannelHandler.Topic.{with_topic, copied, get_channel_title_lem}

abbrev chan_a : Channel
chan_a = new_channel 1 (codes "#a") 10

-- The title loses its last byte, and no zero byte is copied.
topic_cut :
    with_topic chan_a (copied 3 (codes "news"))
    ≡ some (record chan_a { topic = some (codes "new") })
topic_cut = refl

get_channel_title_lem_example :
    get_channel_title (codes ":h :news") chan_a ≡ with_topic chan_a (copied 3 (codes "news"))
get_channel_title_lem_example =
    get_channel_title_lem b':' (codes "h ") (codes "news") chan_a (refl, (refl, tt))

abbrev only_a : Channels
only_a = record { channel_list = chan_a ∷ []; next_addr = 2 }
