-- ===== src/Main/Tests.antt =====
-- The start with a directory of six plugins.
use bcirc.Base.{suc, Bytes, codes, List, [], ◌∷◌, Option, some, none, ◌≡◌, refl, arith, pos}
use bcirc.PluginHandler.Execute.{done}
use bcirc.PluginHandler.Index.InsertionSort.{insertion_qsort}
use bcirc.Server.{Server, Bots}
use bcirc.Server.Pool.{ServerSetting, server_of}
use bcirc.Server.Examples.{short_net, full_setting}
use bcirc.Dispatch.{call_plugin}
use bcirc.Dispatch.Examples.{outside, directory, plugin_file, All-installed}
use bcirc.Main.{first_state, start}
use bcirc.Main.LogIn.{start-log_in}
use bcirc.PluginHandler.Load.{DirEntry, get_plugins}

abbrev six_files : List DirEntry
six_files =
    plugin_file (codes "autojoin.so")
    ∷ plugin_file (codes "channel.so")
    ∷ plugin_file (codes "core.so")
    ∷ plugin_file (codes "events.so")
    ∷ plugin_file (codes "logger.so")
    ∷ plugin_file (codes "nick.so")
    ∷ []

abbrev with_plugins : Bots
with_plugins = (get_plugins directory (codes "/p") (some six_files) first_state).1

abbrev configured_server : Server
configured_server = record {
  addr = with_plugins.next_addr;
  network_name = codes "net";
  host = codes "irc.example.org";
  port = codes "6667";
  pass = none;
  autorejoin = pos 1;
  realname = codes "Bot";
  username = codes "bot";
  nick = codes "bcirc";
  alt_nick = codes "bcirc2";
  motd_sent = 0;
  s = pos 0;
  time_connected = 0;
  rejoin_tries = 0;
  sent_len = 0;
  recvd_len = 0;
  connected = 0;
}

-- The same server twice, at two addresses.
abbrev second_server : Server
second_server = record configured_server { addr = suc with_plugins.next_addr }

abbrev two_settings : Bytes → Option (Option (List ServerSetting))
two_settings file = some (some (full_setting ∷ full_setting ∷ []))

start-log_in_example :
    (h' : Bots) × (start (call_plugin 3 outside) short_net directory (record {
      plugin_dir = some (codes "/p");
      entries = some six_files;
      configdir = some (codes "/c");
      read_config = two_settings;
      thread_result = 0;
    })
      ≡ some (done (pos 1) h'))
    × (h'.world.wire
        ≡ (pos 7, codes "PASS asd\r\n")
          ∷ (pos 7, codes "USER Bot 8 * :bot\r\n")
          ∷ (pos 7, codes "NICK bcirc\r\n")
          ∷ (pos 7, codes "PASS asd\r\n")
          ∷ (pos 7, codes "USER Bot 8 * :bot\r\n")
          ∷ (pos 7, codes "NICK bcirc\r\n")
          ∷ [])
    × (h'.world.server_list ≡ with_plugins.next_addr ∷ suc with_plugins.next_addr ∷ [])
    × (h'.world.threads ≡ with_plugins.next_addr ∷ suc with_plugins.next_addr ∷ [])
    × (h'.index_list ≡ with_plugins.index_list)
start-log_in_example =
    start-log_in insertion_qsort directory (codes "/p") (plugin_file (codes "autojoin.so"))
      (plugin_file (codes "channel.so")) (plugin_file (codes "core.so"))
      (plugin_file (codes "events.so")) (plugin_file (codes "logger.so"))
      (plugin_file (codes "nick.so")) All-installed 2 outside (codes "/c") two_settings
      (full_setting ∷ full_setting ∷ []) (configured_server ∷ second_server ∷ []) (λ n. omega arith)
      refl
      (
        unfold server_of in refl,
        (refl, refl, refl, omega arith, omega arith),
        (unfold server_of in refl, (refl, refl, refl, omega arith, omega arith), tt),
      )
