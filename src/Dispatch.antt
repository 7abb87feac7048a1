-- ===== src/Dispatch.antt =====
-- The callbacks of the plugins behind the function pointers of execute_callbacks: how each reads its
-- parameters (plugin_init and the first lines of the callbacks under plugins/src).
pub mod OneAnswer
pub mod Ping
pub mod Command
pub mod Refusal
pub mod ScriptEvents
pub mod Startup
pub mod Examples
mod Tests
use bcirc.Base.{
  ℕ, zero, suc, Bytes, List, [], ◌∷◌, Option, none, some, ℤ, pos, negsuc, Bool, true, false, ◌==◌,
  ◌&&◌, get_elem?, get_or, if◌then◌else◌, keep,
}
use bcirc.PluginHandler.{
  Arg, Params, srv_of, str_of, num_of, chan_of, bcirc_plugin_ok, bcirc_plugin_break,
}
use bcirc.PluginHandler.Execute.{Run, done, fault, spent}
use bcirc.Channel.{
  Channel, Channels, Removed, find_chan, users_now, undefined, update_channel, remove_user_callback,
}
use bcirc.Server.{Server, Bot, Bots, Sockets, find_server}
use bcirc.Python.{Python, py_execute_callbacks}
use bcirc.Events.{get_privmsg, get_numeric}
use bcirc.Events.ChanEvent.{get_chan_event, with_channels}
use bcirc.Core.{
  NetworkSetting, server_rejoin, handle_ping, handle_registeration, handle_nick, got_in,
}
use bcirc.ChannelHandler.{Handled, returned, get_channel_info}
use bcirc.Plugins.NickCommand
use bcirc.Plugins.Invites.{autojoin_on_invite}
use bcirc.Plugins.Logger.{
  Logged, printed, unprinted, on_recv, on_privmsg, on_join, on_part, on_kick, on_quit,
}

-- The functions that the plugins register.
pub data PluginFunction : Type 0 where
  ping_answer welcome log_in nick_refused rejoin : PluginFunction
  privmsg_event numeric_event chan_event : PluginFunction
  channel_info user_removal : PluginFunction
  nick_change invitation : PluginFunction
  log_recv log_privmsg log_join log_part log_kick log_quit : PluginFunction
  script_event : PluginFunction

-- A function pointer is a position in this list.
abbrev pub plugin_functions : List PluginFunction
plugin_functions =
    ping_answer ∷ welcome ∷ log_in ∷ nick_refused ∷ rejoin ∷ privmsg_event ∷ numeric_event
    ∷ chan_event ∷ channel_info ∷ user_removal ∷ nick_change ∷ invitation ∷ log_recv ∷ log_privmsg
    ∷ log_join ∷ log_part ∷ log_kick ∷ log_quit ∷ script_event ∷ []

abbrev pub param : Params → ℕ → Arg
param p i = get_or p.array i Arg.null

abbrev pub chan_param : Params → ℕ → Bots → Option Channel
chan_param p i h = elim (chan_of (param p i)) [
  | none ↦ none
  | some addr ↦ find_chan addr h.world.channels.channel_list
]

-- The object behind a parameter's pointer, and the server of a channel.
abbrev pub server_param : Params → ℕ → Bots → Option Server
server_param p i h = elim (srv_of (param p i)) [
  | none ↦ none
  | some addr ↦ find_server addr h.world.servers
]

abbrev pub channel_server : Option Channel → Bots → Option Server
channel_server none h = none
channel_server (some chan) h = find_server chan.srv h.world.servers

-- What is printed changes no state.
abbrev pub logged : Bots → Logged → Run Bot
logged h (printed text res) = done res h
logged h (unprinted res) = done res h
logged h Logged.undefined = fault

-- A numeric reply is never negative.
abbrev pub numeric_of : ℤ → ℕ
numeric_of (pos n) = n
numeric_of (negsuc n) = 0

-- A parameter that the callback uses without a test.
abbrev pub needed {ℓ} : {A : Type ℓ} → Option A → (A → Run Bot) → Run Bot
needed none k = fault
needed (some a) k = k a

abbrev pub as_run : Bots → Handled → Run Bot
as_run h (returned res cs) = done res (with_channels h cs)
as_run h Handled.undefined = fault

abbrev pub with_users : Channel → Option Bytes → Channels → Channels
with_users chan us cs = record cs {
  channel_list = update_channel chan.addr (λ c. record c { users = us }) cs.channel_list;
}

abbrev pub after_removal : Option Channel → Bots → Option Removed → Run Bot
after_removal chan h none = done bcirc_plugin_break h
after_removal chan h (some undefined) = fault
after_removal chan h (some Removed.spent) = spent
after_removal none h (some (users_now us)) = done bcirc_plugin_ok h
after_removal (some chan) h (some (users_now us)) =
    done bcirc_plugin_ok (with_channels h (with_users chan us h.world.channels))

-- What the callbacks take from their surroundings.
pub record Surroundings : Type 0 where
  pub net : Sockets
  pub room : ℕ → ℕ
  pub reprint : Bytes → Bytes → Bytes
  pub config : Option (List NetworkSetting)
  pub time_now : ℕ
  pub thread_result : ℕ
  pub rounds : ℕ  -- for the loop of remove_user
  pub python : Python
  pub script_rounds : ℕ  -- for the loops of py_execute_callbacks

module _ (call : ℕ → Params → Bots → Run Bot) (e : Surroundings) where
  abbrev pub run_function : PluginFunction → Params → Bots → Run Bot
  run_function ping_answer p h =
      handle_ping call e.net e.room e.reprint (srv_of (param p 0)) (str_of (param p 1)) h
  run_function welcome p h = needed (srv_of (param p 0)) λ srv.
      needed (num_of (param p 1))
        λ n. got_in call e.net e.room e.reprint e.config srv (numeric_of n) h
  run_function log_in p h =
      handle_registeration call e.net e.room e.reprint e.time_now (srv_of (param p 0)) h
  run_function nick_refused p h = needed (srv_of (param p 0)) λ srv.
      needed (num_of (param p 1)) λ n.
        needed (str_of (param p 2))
          λ line. handle_nick call e.net e.room e.reprint srv (numeric_of n) h
  run_function rejoin p h =
      done (server_rejoin e.thread_result (srv_of (param p 0)) (num_of (param p 1))) h
  run_function privmsg_event p h =
      needed (srv_of (param p 0))
        λ srv. needed (str_of (param p 1)) λ line. get_privmsg call e.room srv line h
  run_function numeric_event p h =
      needed (str_of (param p 1)) λ line. get_numeric call e.room (srv_of (param p 0)) line h
  run_function chan_event p h =
      get_chan_event call e.room (srv_of (param p 0)) (str_of (param p 1)) h
  run_function channel_info p h = needed (srv_of (param p 0)) λ srv.
      needed (num_of (param p 1)) λ n.
        needed (str_of (param p 2))
          λ line. as_run h (get_channel_info e.room srv (numeric_of n) line h.world.channels)
  run_function user_removal p h =
      after_removal (chan_param p 0 h) h
        (remove_user_callback e.rounds (chan_param p 0 h) (str_of (param p 1)))
  run_function nick_change p h = needed (srv_of (param p 0)) λ srv.
      needed (str_of (param p 4))
        λ msg. NickCommand.handle_nick call e.net e.room e.reprint p srv msg h
  run_function invitation p h = autojoin_on_invite call e.net e.room e.reprint (chan_param p 0 h) h
  run_function log_recv p h = logged h (on_recv (srv_of (param p 0)) (str_of (param p 1)))
  run_function log_privmsg p h = logged h (
      on_privmsg (server_param p 0 h) (str_of (param p 1)) (str_of (param p 3))
        (str_of (param p 4)))
  run_function log_join p h =
      let chan = chan_param p 0 h in
      logged h (on_join chan (channel_server chan h) (str_of (param p 1)))
  run_function log_part p h =
      let chan = chan_param p 0 h in
      logged h (on_part chan (channel_server chan h) (str_of (param p 1)) (str_of (param p 3)))
  run_function log_kick p h =
      let chan = chan_param p 0 h in
      logged h (on_kick chan (channel_server chan h) (str_of (param p 1)) (str_of (param p 3)))
  run_function log_quit p h =
      logged h (on_quit (server_param p 4 h) (str_of (param p 1)) (str_of (param p 3)))
  run_function script_event p h = py_execute_callbacks call e.python e.script_rounds p h

-- A call through a function pointer; what it calls has one level less. A pointer to no function is
-- undefined behaviour.
unfoldable pub call_plugin : ℕ → Surroundings → ℕ → Params → Bots → Run Bot
call_plugin zero e f p h = spent
call_plugin (suc depth) e f p h = elim (get_elem? plugin_functions f) [
  | none ↦ fault
  | some function ↦ run_function (call_plugin depth e) e function p h
]
