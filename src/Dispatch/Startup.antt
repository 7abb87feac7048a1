-- ===== src/Dispatch/Startup.antt =====
-- The callbacks that the plugins under plugins/src register in their plugin_init, by the positions of
-- their functions in `plugin_functions`.
pub mod Answer
pub mod OneLine
pub mod Renamed
pub mod Refused
pub mod Rejoined
pub mod Received
pub mod Connected
use mathlib.Core.List.{Permᴰ}
use bcirc.Base.{
  ℕ, suc, ◌+◌, ◌≤◌, Bytes, codes, List, [], ◌∷◌, ◌++◌, map, append-nil, Option, none, some, ◌≡◌,
  refl, sym, subst, ap, ◌∙◌, ◌⊎◌, inl, inr, ℤ, pos, arith, All, length, strstr, is_space,
  Option-cases,
}
use bcirc.PluginHandler.{Callback, CallbackIndex, Handler, bcirc_plugin_ok}
use bcirc.PluginHandler.Names.{
  callback_got_numeric, callback_got_privmsg, callback_server_recv, callback_server_send,
  callback_server_connected, callback_server_disconnected, callback_channel_join,
  callback_channel_kick, callback_channel_part, callback_channel_quit, callback_channel_invite,
  callback_callbacks_executed,
}
use bcirc.PluginHandler.Index.{Qsort, init_index, get_cb_index, callbacks_for}
use bcirc.PluginHandler.Index.Content.{callbacks_for-none}
use bcirc.PluginHandler.Execute.{done}
use bcirc.PluginHandler.Load.{SharedObject, DirEntry, get_plugins}
use bcirc.PluginHandler.Load.Startup.{Registration, functions}
use bcirc.PluginHandler.Load.Directory.{all_registered, IsPlugin, IsSilent, get_plugins_reaches}
use bcirc.Server.{Server, Bot, Bots, find_server}
use bcirc.Server.Receive.{line_received}
use bcirc.Events.{privmsg_word}
use bcirc.Events.Words.{IsWord}
use bcirc.Dispatch.{Surroundings, call_plugin}

abbrev pub core_callbacks : List Registration
core_callbacks =
    record { cb_name = callback_got_numeric; cb_func = 1; priority = pos 5 }
    ∷ record { cb_name = callback_server_recv; cb_func = 0; priority = pos 5 }
    ∷ record { cb_name = callback_server_connected; cb_func = 2; priority = pos 5 }
    ∷ record { cb_name = callback_got_numeric; cb_func = 3; priority = pos 5 }
    ∷ record { cb_name = callback_server_disconnected; cb_func = 4; priority = pos 5 }
    ∷ []

abbrev pub events_callbacks : List Registration
events_callbacks =
    record { cb_name = callback_server_recv; cb_func = 5; priority = pos 3 }
    ∷ record { cb_name = callback_server_recv; cb_func = 6; priority = pos 3 }
    ∷ record { cb_name = callback_server_recv; cb_func = 7; priority = pos 2 }
    ∷ []

abbrev pub channel_callbacks : List Registration
channel_callbacks =
    record { cb_name = callback_got_numeric; cb_func = 8; priority = pos 10 }
    ∷ record { cb_name = callback_channel_kick; cb_func = 9; priority = pos 10 }
    ∷ record { cb_name = callback_channel_part; cb_func = 9; priority = pos 10 }
    ∷ record { cb_name = callback_channel_quit; cb_func = 9; priority = pos 10 }
    ∷ []

abbrev pub logger_callbacks : List Registration
logger_callbacks =
    record { cb_name = callback_server_recv; cb_func = 12; priority = pos 0 }
    ∷ record { cb_name = callback_got_privmsg; cb_func = 13; priority = pos 0 }
    ∷ record { cb_name = callback_channel_join; cb_func = 14; priority = pos 0 }
    ∷ record { cb_name = callback_channel_part; cb_func = 15; priority = pos 0 }
    ∷ record { cb_name = callback_channel_kick; cb_func = 16; priority = pos 0 }
    ∷ record { cb_name = callback_channel_quit; cb_func = 17; priority = pos 0 }
    ∷ []

abbrev pub nick_callbacks : List Registration
nick_callbacks = record { cb_name = callback_got_privmsg; cb_func = 10; priority = pos 20 } ∷ []

abbrev pub autojoin_callbacks : List Registration
autojoin_callbacks =
    record { cb_name = callback_channel_invite; cb_func = 11; priority = pos 20 } ∷ []

-- A directory with these six plugins.
abbrev pub installed :
    DirEntry
    → DirEntry
    → DirEntry
    → DirEntry
    → DirEntry
    → DirEntry
    → List (DirEntry × List Registration)
installed autojoin channel core events logger nick =
    (autojoin, autojoin_callbacks)
    ∷ (channel, channel_callbacks)
    ∷ (core, core_callbacks)
    ∷ (events, events_callbacks)
    ∷ (logger, logger_callbacks)
    ∷ (nick, nick_callbacks)
    ∷ []
