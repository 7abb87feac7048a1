-- ===== src/Core.antt =====
-- The core plugin, plugins/src/core/core.c: answering PING, logging in, joining the configured
-- channels, another nick where one is taken, and whether to reconnect. The configuration is what
-- its lookups find; for `room` and `reprint` see IrcCmds.
pub mod Ping
pub mod Registration
pub mod Nick
pub mod Rejoin
pub mod Shutdown
mod Tests
use bcirc.Base.{
  ℕ, zero, suc, ◌+◌, ◌-◌, Bytes, codes, List, [], ◌∷◌, ◌++◌, Option, none, some, ℤ, pos, negsuc,
  ◌==ℤ◌, Bool, true, false, ◌==◌, ◌&&◌, ◌||◌, not, leb, ltb, str_eq, strtok, is_space,
  if◌then◌else◌, length, set,
}
use bcirc.PluginHandler.{
  Arg, bcirc_plugin_ok, bcirc_plugin_continue, bcirc_plugin_break, bcirc_plugin_fail, Params,
  params,
}
use bcirc.PluginHandler.Execute.{Run, done, fault}
use bcirc.Server.{
  Server, Bot, Bots, Sockets, set_server, then_run, with_server, server_send, server_intentional_dc,
}
use bcirc.IrcCmds.{written_to, nick, join_channel}

-- The numeric replies that the plugin reads (headers/numeric.h).
abbrev pub rpl_welcome : ℕ
rpl_welcome = 1

abbrev pub is_nick_refused : ℕ → Bool
is_nick_refused numeric =
    numeric == 431 || numeric == 432 || numeric == 433 || numeric == 436 || numeric == 437

-- One element of "channels", and one of "servers", of the configuration.
pub record ChannelSetting : Type 0 where
  pub chan_name : Option Bytes
  pub chan_key : Option Bytes

pub record NetworkSetting : Type 0 where
  pub network_name : Option Bytes
  pub channels : Option (List ChannelSetting)

abbrev pub ping_word : Bytes
ping_word = codes "PING"

-- The line with its line end and with an `O` for its second byte. The buffer for it is as long as
-- it is.
abbrev pub pong_text : Bytes → Bytes
pong_text buf = set (buf ++ codes "\r\n") 1 b'O'

abbrev pub pass_text : Option Bytes → Bytes
pass_text none = codes "PASS asd\r\n"
pass_text (some pass) = codes "PASS " ++ (pass ++ codes "\r\n")

abbrev pub user_text : Bytes → Bytes → Bytes
user_text realname username =
    codes "USER " ++ (realname ++ (codes " 8 * :" ++ (username ++ codes "\r\n")))

-- What server_rejoin returns; 0 is a started thread.
unfoldable pub server_rejoin : ℕ → Option ℕ → Option ℤ → ℤ
server_rejoin thread_result none reason = negsuc 0
server_rejoin thread_result (some srv) none = negsuc 0
server_rejoin thread_result (some srv) (some reason) =
    if reason ==ℤ server_intentional_dc
    then bcirc_plugin_ok
    else if thread_result == 0
    then bcirc_plugin_ok
    else bcirc_plugin_fail

module _ (call : ℕ → Params → Bots → Run Bot) (net : Sockets) (room : ℕ → ℕ)
    (reprint : Bytes → Bytes → Bytes) where
  -- The callback's own value, whatever the commands that it gave returned.
  abbrev pub returning : ℤ → Run Bot → Run Bot
  returning value r = then_run r (λ res after. done value after)

  abbrev pub answer_ping : ℕ → Bytes → Option (Bytes × Bytes) → Bots → Run Bot
  answer_ping srv buf none h = done bcirc_plugin_continue h
  answer_ping srv buf (some (word, save)) h =
      if str_eq word ping_word
      then returning bcirc_plugin_ok (server_send call net (some (pong_text buf)) srv h)
      else done bcirc_plugin_continue h

  unfoldable pub handle_ping : Option ℕ → Option Bytes → Bots → Run Bot
  handle_ping srv none h = done bcirc_plugin_continue h
  handle_ping none (some buf) h = done bcirc_plugin_continue h
  handle_ping (some srv) (some buf) h =
      if ltb (length buf) 7
      then done bcirc_plugin_continue h
      else answer_ping srv buf (strtok is_space buf) h

  -- The two texts are printed to arrays of 512 bytes.
  unfoldable pub handle_registeration : ℕ → Option ℕ → Bots → Run Bot
  handle_registeration time_now none h = done bcirc_plugin_break h
  handle_registeration time_now (some srv) h = with_server srv h λ v.
      let key = pass_text v.pass in
      let user = user_text v.realname v.username in
      let connected_at = set_server h srv (λ u. record u { time_connected = time_now }) in
      written_to call net room reprint 512 key (
        written_to call net room reprint 512 user (
          then_run (server_send call net (some key) srv connected_at) (λ res after.
            then_run (server_send call net (some user) srv after) (λ res' after'.
              with_server srv after'
                λ v'. returning bcirc_plugin_ok (nick call net room reprint v'.nick srv after')))))

  -- The buffer for the longer nick has the size `strlen(srv->nick + 2)`: the nick's less 2, and not
  -- defined for a nick of less than two bytes.
  abbrev pub longer_nick : Bytes → ℕ → Bots → Run Bot
  longer_nick [] srv h = fault
  longer_nick (c ∷ []) srv h = fault
  longer_nick (c ∷ d ∷ rest) srv h =
      let new_nick = (c ∷ d ∷ rest) ++ codes "_" in
      written_to call net room reprint (length rest) new_nick
        (nick call net room reprint new_nick srv h)

  unfoldable pub handle_nick : ℕ → ℕ → Bots → Run Bot
  handle_nick srv numeric h = with_server srv h λ v.
      if not (is_nick_refused numeric)
      then done bcirc_plugin_ok h
      else if not (str_eq v.nick v.alt_nick)
      then returning bcirc_plugin_ok (nick call net room reprint v.alt_nick srv h)
      else returning bcirc_plugin_ok (longer_nick v.nick srv h)

  unfoldable pub join_all : List ChannelSetting → ℕ → Bots → Run Bot
  join_all [] srv h = done (pos 0) h
  join_all (c ∷ cs) srv h = elim c.chan_name [
    | none ↦ join_all cs srv h
    | some name ↦
        then_run (join_channel call net room reprint name c.chan_key srv h)
          (λ res after. join_all cs srv after)
  ]

  abbrev pub join_network : NetworkSetting → ℕ → Bots → Run Bot
  join_network c srv h = elim c.channels [
    | none ↦ done (pos 0) h
    | some chans ↦ join_all chans srv h
  ]

  -- A network without a name is compared through a null pointer.
  unfoldable pub join_networks : List NetworkSetting → ℕ → Bots → Run Bot
  unfolding join_all
  join_networks [] srv h = done (pos 0) h
  join_networks (c ∷ cs) srv h =
      let others = join_networks cs srv in
      with_server srv h λ v. elim c.network_name [
        | none ↦ fault
        | some name ↦
            if str_eq v.network_name name
            then then_run (join_network c srv h) (λ res after. others after)
            else others h
      ]

  -- `none` is a configuration that cannot be read or that has no servers.
  abbrev pub autojoin_channels : Option (List NetworkSetting) → ℕ → Bots → Run Bot
  autojoin_channels none srv h = done (pos 0) h
  autojoin_channels (some settings) srv h = join_networks settings srv h

  unfoldable pub got_in : Option (List NetworkSetting) → ℕ → ℕ → Bots → Run Bot
  unfolding join_networks
  got_in config srv numeric h =
      if not (numeric == rpl_welcome)
      then done bcirc_plugin_continue h
      else returning bcirc_plugin_ok (
          autojoin_channels config srv
            (set_server h srv (λ u. record u { motd_sent = 1; rejoin_tries = 0 })))
