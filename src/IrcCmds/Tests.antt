-- ===== src/IrcCmds/Tests.antt =====
-- The commands at a concrete state.
use bcirc.Base.{ℕ, ◌+◌, ◌*◌, ◌/◌, Bytes, codes, none, some, ◌≡◌, refl, arith}
use bcirc.PluginHandler.Execute.{fault}
use bcirc.Server.{set_server, server_send}
use bcirc.Server.Examples.{silent_call, short_net, example_server, two_servers, known_server}
use bcirc.IrcCmds.{privmsg, join_channel, nick, quit}
use bcirc.IrcCmds.Texts.{commands_sent, join_channel_overflows}

-- Buffers in blocks of sixteen bytes, one more than needed where the size is a multiple.
abbrev blocks : ℕ → ℕ
blocks n = (n / 16 + 1) * 16

abbrev exactly : ℕ → ℕ
exactly n = n

abbrev left_alone : Bytes → Bytes → Bytes
left_alone text x = text

commands_sent_example :
    (privmsg silent_call short_net blocks left_alone (codes "hi") (codes "#a") 10 two_servers
      ≡ server_send silent_call short_net (some (codes "PRIVMSG #a :hi\r\n")) 10 two_servers)
    × (nick silent_call short_net blocks left_alone (codes "bot") 10 two_servers
        ≡ server_send silent_call short_net
            (some (codes "NICK bot\r\n"))
            10
            (set_server two_servers 10 (λ u. record u { nick = codes "bot" })))
    × (quit silent_call short_net blocks left_alone (codes "bye") 10 two_servers
        ≡ server_send silent_call short_net (some (codes "QUIT :bye\r\n")) 10 two_servers)
commands_sent_example =
    commands_sent silent_call short_net blocks left_alone (λ n. omega arith) 10 two_servers
      (example_server 10) (codes "hi") (codes "#a") (codes "bot") (codes "bye") known_server.0

join_channel_overflows_example :
    join_channel silent_call short_net exactly left_alone (codes "#bcirc") none 10 two_servers
    ≡ fault
join_channel_overflows_example =
    join_channel_overflows silent_call short_net exactly left_alone (codes "#bcirc") none 10
      two_servers (λ n. refl)
