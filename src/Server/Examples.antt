-- ===== src/Server/Examples.antt =====
-- A network, settings and a state with two servers, for the tests.
use bcirc.Base.{codes, [], ◌∷◌, some, none, ◌≡◌, refl, pos, ℕ, true}
use bcirc.PluginHandler.{Params}
use bcirc.PluginHandler.Index.{get_cb_index}
use bcirc.PluginHandler.Names.{callback_server_recv, callback_server_send}
use bcirc.PluginHandler.Execute.{Run, done}
use bcirc.Scripts.{no_scripts}
use bcirc.Server.{Bot, Server, Bots, Sockets, find_server}
use bcirc.Server.Pool.{ServerSetting}

abbrev pub silent_call : ℕ → Params → Bots → Run Bot
silent_call f args h = done (pos 1) h

-- Every connection is made, and six bytes at most are sent.
abbrev pub short_net : Sockets
short_net = record {
  resolve = λ v. true;
  socket = λ v. pos 7;
  connect = λ v sock. pos 0;
  send = λ sock text. pos 6;
  close = λ sock. pos 0;
}

abbrev pub example_server : ℕ → Server
example_server address = record {
  addr = address;
  network_name = codes "net";
  host = codes "irc.example.org";
  port = codes "6667";
  pass = none;
  autorejoin = pos 1;
  realname = codes "Bot";
  username = codes "bot";
  nick = codes "bcirc";
  alt_nick = codes "bcirc2";
  motd_sent = 0;
  s = pos 7;
  time_connected = 0;
  rejoin_tries = 0;
  sent_len = 10;
  recvd_len = 0;
  connected = 1;
}

abbrev pub two_servers : Bots
two_servers = record {
  plugin_list = [];
  index_list =
      record {
        cb_name = callback_server_recv;
        callbacks =
            record { addr = 1; cb_name = callback_server_recv; cb_func = 5; priority = pos 0 } ∷ [];
      }
      ∷ [];
  next_addr = 12;
  world = record {
    servers = example_server 10 ∷ example_server 11 ∷ [];
    server_list = 10 ∷ 11 ∷ [];
    threads = 10 ∷ 11 ∷ [];
    channels = record { channel_list = []; next_addr = 1 };
    wire = [];
    scripts = no_scripts;
  };
}

pub known_server :
    (find_server 10 two_servers.world.servers ≡ some (example_server 10))
    × (find_server 11 two_servers.world.servers ≡ some (example_server 11))
unfolding find_server
known_server = (refl, refl)

pub send_unknown : get_cb_index callback_server_send two_servers.index_list ≡ none
unfolding get_cb_index
send_unknown = refl

-- The first of the two, after its welcome.
abbrev pub welcomed_server : Server
welcomed_server = record (example_server 10) { motd_sent = 1 }

abbrev pub welcomed_servers : Bots
welcomed_servers = record two_servers {
  world = record two_servers.world { servers = welcomed_server ∷ example_server 11 ∷ [] };
}

pub known_welcomed : find_server 10 welcomed_servers.world.servers ≡ some welcomed_server
unfolding find_server
known_welcomed = refl

abbrev pub full_setting : ServerSetting
full_setting = record {
  network_name = some (codes "net");
  server_host = some (codes "irc.example.org");
  server_port = some (codes "6667");
  autorejoin = some (pos 1);
  realname = some (codes "Bot");
  username = some (codes "bot");
  nick = some (codes "bcirc");
  alt_nick = some (codes "bcirc2");
  server_pass = none;
}

-- A setting without a nick.
abbrev pub lacking_setting : ServerSetting
lacking_setting = record full_setting { nick = none }
