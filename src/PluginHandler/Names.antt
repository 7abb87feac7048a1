-- ===== src/PluginHandler/Names.antt =====
-- The event names of headers/callback_defines.h.
use bcirc.Base.{Bytes, codes}

abbrev pub callback_got_numeric : Bytes
callback_got_numeric = codes "got_numeric"

abbrev pub callback_got_privmsg : Bytes
callback_got_privmsg = codes "got_privmsg"

abbrev pub callback_server_connected : Bytes
callback_server_connected = codes "server_connected"

abbrev pub callback_server_disconnected : Bytes
callback_server_disconnected = codes "server_disconnected"

abbrev pub callback_server_recv : Bytes
callback_server_recv = codes "server_recv"

abbrev pub callback_server_send : Bytes
callback_server_send = codes "server_send"

abbrev pub callback_channel_join : Bytes
callback_channel_join = codes "channel_join"

abbrev pub callback_channel_part : Bytes
callback_channel_part = codes "channel_part"

abbrev pub callback_channel_kick : Bytes
callback_channel_kick = codes "channel_kick"

abbrev pub callback_channel_quit : Bytes
callback_channel_quit = codes "channel_quit"

abbrev pub callback_channel_invite : Bytes
callback_channel_invite = codes "channel_invite"

abbrev pub callback_got_input : Bytes
callback_got_input = codes "callback_got_input"

abbrev pub callback_callbacks_executed : Bytes
callback_callbacks_executed = codes "callback_callbacks_executed"
