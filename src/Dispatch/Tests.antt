-- ===== src/Dispatch/Tests.antt =====
-- The plugins' callbacks on a received line.
use bcirc.Base.{inl, ℤ, negsuc, inr, some, codes, [], ◌∷◌, none, ◌≡◌, refl, arith, pos, strstr}
use bcirc.PluginHandler.Index.{get_cb_index, callbacks_for}
use bcirc.PluginHandler.Execute.{done}
use bcirc.Server.{Sockets, Server, Bots, find_server}
use bcirc.Server.Receive.{recv_chunk}
use bcirc.Server.Examples.{
  short_net, two_servers, welcomed_server, welcomed_servers, known_welcomed,
}
use bcirc.PluginHandler.Index.{init_index}
use bcirc.PluginHandler.Index.InsertionSort.{insertion_qsort}
use mathlib.Core.List.{Permᴰ}
use bcirc.PluginHandler.Names.{callback_got_privmsg, callback_server_send}
use bcirc.PluginHandler.Load.Startup.{functions}
use bcirc.PluginHandler.Load.Directory.{get_plugins_reaches}
use bcirc.Dispatch.Startup.{installed}
use bcirc.Dispatch.Startup.Received.{recv_chunk-ping}
use bcirc.Dispatch.Startup.Rejoined.{try_rejoin-log_in}
use bcirc.Core.Rejoin.{try_rejoin}
use bcirc.Dispatch.Startup.Renamed.{recv_chunk-nick}
use bcirc.Dispatch.Startup.Refused.{recv_chunk-refused}
use bcirc.Dispatch.{call_plugin}
use bcirc.Dispatch.Examples.{
  outside, directory, plugin_file, started, All-installed, visible-All, printable-All,
}

-- The server has welcomed the bot, and its name is long.
abbrev running : Bots
running = record welcomed_servers { index_list = started.index_list }

recv_chunk-ping_example :
    (h' : Bots) × (recv_chunk
        (call_plugin 3 outside)
        short_net
        10
        (codes "PING :irc.example.org\r\n")
        running
      ≡ done (pos 0) h')
    × (h'.world.wire ≡ (pos 7, codes "PONG :irc.example.org\r\n") ∷ [])
    × (h'.index_list ≡ running.index_list)
recv_chunk-ping_example =
    recv_chunk-ping insertion_qsort directory (codes "/p") (plugin_file (codes "autojoin.so"))
      (plugin_file (codes "channel.so")) (plugin_file (codes "core.so"))
      (plugin_file (codes "events.so")) (plugin_file (codes "logger.so"))
      (plugin_file (codes "nick.so")) (record two_servers { index_list = init_index }) All-installed
      refl 2 outside 10 b'i' (codes "rc.example.org") running welcomed_server
      (visible-All (codes "irc.example.org") refl) (omega arith) (omega arith)
      (unfold strstr in refl) (omega arith) refl known_welcomed (inr refl)

recv_chunk-nick_example :
    (h' : Bots) × (v' : Server) × (recv_chunk
        (call_plugin 3 outside)
        short_net
        10
        (codes ":ann!a@b PRIVMSG #c :!nick bobby\r\n")
        running
      ≡ done (pos 0) h')
    × (h'.world.wire ≡ (pos 7, codes "NICK bobby\r\n") ∷ [])
    × (find_server 10 h'.world.servers ≡ some v')
    × (v'.nick ≡ codes "bobby")
    × (h'.index_list ≡ running.index_list)
recv_chunk-nick_example =
    recv_chunk-nick insertion_qsort directory (codes "/p") (plugin_file (codes "autojoin.so"))
      (plugin_file (codes "channel.so")) (plugin_file (codes "core.so"))
      (plugin_file (codes "events.so")) (plugin_file (codes "logger.so"))
      (plugin_file (codes "nick.so")) (record two_servers { index_list = init_index }) All-installed
      refl 1 outside 10 (codes "ann") b'a' (codes "@b") b'#' (codes "c") b'b' (codes "obby") running
      welcomed_server (visible-All (codes "ann") refl) (refl, (refl, (refl, tt)))
      (visible-All (codes "a@b") refl) (visible-All (codes "#c") refl)
      (visible-All (codes "bobby") refl) (omega arith) (λ k. omega arith) refl known_welcomed refl

recv_chunk-refused_example :
    (h' : Bots) × (v' : Server) × (recv_chunk
        (call_plugin 3 outside)
        short_net
        10
        (codes ":irc.example.org 433 bcirc bobby :Nickname is already in use.\r\n")
        running
      ≡ done (pos 0) h')
    × (h'.world.wire ≡ (pos 7, codes "NICK bcirc2\r\n") ∷ [])
    × (find_server 10 h'.world.servers ≡ some v')
    × (v'.nick ≡ codes "bcirc2")
    × (h'.index_list ≡ running.index_list)
recv_chunk-refused_example =
    recv_chunk-refused insertion_qsort directory (codes "/p") (plugin_file (codes "autojoin.so"))
      (plugin_file (codes "channel.so")) (plugin_file (codes "core.so"))
      (plugin_file (codes "events.so")) (plugin_file (codes "logger.so"))
      (plugin_file (codes "nick.so")) (record two_servers { index_list = init_index }) All-installed
      refl 1 outside 10 (codes "irc.example.org") 4 3 3
      (codes "bcirc bobby :Nickname is already in use.") running welcomed_server
      (visible-All (codes "irc.example.org") refl) (omega arith) (omega arith) (omega arith)
      (printable-All (codes "bcirc bobby :Nickname is already in use.") refl) refl
      (unfold strstr in refl) (omega arith) (λ k. omega arith) refl known_welcomed refl (inr refl)

abbrev no_net : Sockets
no_net = record short_net { socket = λ v. negsuc 0 }

try_rejoin-log_in_example :
    (h' : Bots) × (v' : Server) × (sock : ℤ) × (try_rejoin
        (call_plugin 3 outside)
        0
        (no_net ∷ no_net ∷ short_net ∷ [])
        10
        running
      ≡ done (pos 0) h')
    × (h'.world.wire
        ≡ (sock, codes "PASS asd\r\n")
          ∷ (sock, codes "USER Bot 8 * :bot\r\n")
          ∷ (sock, codes "NICK bcirc\r\n")
          ∷ [])
    × (h'.world.server_list ≡ 11 ∷ 10 ∷ [])
    × (h'.world.threads ≡ 10 ∷ 11 ∷ 10 ∷ [])
    × (find_server 10 h'.world.servers ≡ some v')
    × (v'.motd_sent ≡ 1)
    × (v'.rejoin_tries ≡ 0)
try_rejoin-log_in_example =
    try_rejoin-log_in insertion_qsort directory (codes "/p") (plugin_file (codes "autojoin.so"))
      (plugin_file (codes "channel.so")) (plugin_file (codes "core.so"))
      (plugin_file (codes "events.so")) (plugin_file (codes "logger.so"))
      (plugin_file (codes "nick.so")) (record two_servers { index_list = init_index }) All-installed
      refl 2 outside 10 (no_net ∷ no_net ∷ []) [] running welcomed_server (λ n. omega arith) refl
      known_welcomed ((λ v. (refl, inl refl)), ((λ v. (refl, inl refl)), tt))
      (λ v. (refl, refl, refl)) (omega arith) (omega arith)

get_plugins_reaches_example :
    Permᴰ (functions callback_got_privmsg started.index_list) (10 ∷ 13 ∷ [])
    × (get_cb_index callback_server_send started.index_list ≡ none)
unfolding get_cb_index callbacks_for init_index
get_plugins_reaches_example =
    get_plugins_reaches insertion_qsort directory (codes "/p") callback_got_privmsg
      callback_server_send
      (installed (plugin_file (codes "autojoin.so")) (plugin_file (codes "channel.so"))
        (plugin_file (codes "core.so")) (plugin_file (codes "events.so"))
        (plugin_file (codes "logger.so")) (plugin_file (codes "nick.so")))
      (record two_servers { index_list = init_index }) All-installed
      (
        (refl, tt),
        (
          (refl, (refl, (refl, (refl, tt)))),
          (
            (refl, (refl, (refl, (refl, (refl, tt))))),
            (
              (refl, (refl, (refl, tt))),
              ((refl, (refl, (refl, (refl, (refl, (refl, tt)))))), ((refl, tt), tt)),
            ),
          ),
        ),
      )
      refl
