-- ===== src/Events/ChanEvent.antt =====
-- get_chan_event of plugins/src/events-handler/events.c: joins, kicks, parts, quits and invites.
pub mod Sender
pub mod Joined
use bcirc.Base.{
  ℕ, zero, suc, ◌+◌, ◌-◌, Bytes, codes, List, [], ◌∷◌, ◌++◌, Option, none, some, pos, Bool, true,
  false, ◌==◌, leb, ltb, str_eq, strchr, strtok, is_space, if◌then◌else◌, length, take, drop,
}
use bcirc.PluginHandler.{Arg, Params, bcirc_plugin_ok, bcirc_plugin_continue, bcirc_plugin_break}
use bcirc.PluginHandler.Execute.{Run, done, fault, execute_callbacks}
use bcirc.PluginHandler.Names.{
  callback_channel_join, callback_channel_kick, callback_channel_part, callback_channel_quit,
  callback_channel_invite,
}
use bcirc.Channel.{Channel, Channels, get_channel, get_or_create}
use bcirc.Server.{Bot, Bots, set_bot, with_server}
use bcirc.Events.{arg_of, return_value}

-- CHAN_JOIN and the others.
pub data ChanEvent : Type 0 where
  join kick part quit invite : ChanEvent

-- The event of a command's word.
abbrev pub event_of : Bytes → Option ChanEvent
event_of word =
    if str_eq word (codes "JOIN")
    then some join
    else if str_eq word (codes "KICK")
    then some kick
    else if str_eq word (codes "PART")
    then some part
    else if str_eq word (codes "QUIT")
    then some quit
    else if str_eq word (codes "INVITE")
    then some invite
    else none

abbrev pub event_name : ChanEvent → Bytes
event_name join = callback_channel_join
event_name kick = callback_channel_kick
event_name part = callback_channel_part
event_name quit = callback_channel_quit
event_name invite = callback_channel_invite

-- The nick and the host mask of a line; or the line has none; or a length is below zero, and as a
-- `size_t` so large that the copy runs out of its memory.
pub data Sent : Type 0 where
  by : Bytes → Bytes → Sent
  unknown : Sent
  overrun : Sent

-- `nick_len` is the position of the exclamation mark less 1, `mask_len` what is between it and the
-- first space.
abbrev pub sender_at : Bytes → ℕ → Option ℕ → Sent
sender_at line zero mask_end = overrun
sender_at line (suc nick_len) none = unknown
sender_at line (suc nick_len) (some mask_end) =
    if ltb mask_end (nick_len + 2)
    then overrun
    else by (take nick_len (drop 1 line))
        (take (mask_end - nick_len - 2) (drop (nick_len + 2) line))

unfoldable pub sender : Bytes → Sent
sender line = elim (strchr line b'!') [
  | none ↦ unknown
  | some nick_end ↦ sender_at line nick_end (strchr line b' ')
]

-- The reason, from the token that starts it and the text behind: for a quit with its colon.
abbrev pub reason_start : ChanEvent → Bytes → Bytes
reason_start quit token = token
reason_start join token = drop 1 token
reason_start kick token = drop 1 token
reason_start part token = drop 1 token
reason_start invite token = drop 1 token

abbrev pub reason_of : ChanEvent → Bytes → Bytes → Bytes
reason_of ev token [] = reason_start ev token
reason_of ev token (c ∷ save) = reason_start ev token ++ b' ' ∷ c ∷ save

abbrev pub chan_arg : Option Channel → Arg
chan_arg none = Arg.null
chan_arg (some chan) = Arg.chan chan.addr

-- The array has five elements, of which four are counted.
abbrev pub event_params : Option Channel → Option Bytes → Option Bytes → Option Bytes → ℕ → Params
event_params chan nick hostmask reason srv = record {
  array = chan_arg chan ∷ arg_of nick ∷ arg_of hostmask ∷ arg_of reason ∷ Arg.srv srv ∷ [];
  argc = 4;
}

abbrev pub with_channels : Bots → Channels → Bots
with_channels h cs = set_bot h (λ b. record b { channels = cs })

module _ (call : ℕ → Params → Bots → Run Bot) (room : ℕ → ℕ) where
  -- Behind the loop.
  abbrev pub run_event :
      ChanEvent → Option Channel → Option Bytes → Option Bytes → Option Bytes → ℕ → Bots → Run Bot
  run_event ev chan nick hostmask reason srv h =
      return_value call room bcirc_plugin_ok
        (execute_callbacks call (event_name ev) (event_params chan nick hostmask reason srv) h)

  module _ (srv : ℕ) (nick hostmask : Bytes) where
    -- Round 3, for a token and the text behind it.
    abbrev pub with_reason : ChanEvent → Option Channel → Option (Bytes × Bytes) → Bots → Run Bot
    with_reason ev chan none h = run_event ev chan (some nick) (some hostmask) none srv h
    with_reason ev chan (some (token, save)) h =
        run_event ev chan (some nick) (some hostmask) (some (reason_of ev token save)) srv h

    -- A channel that was found or made; making one fails for no memory only.
    abbrev pub in_channel : ChanEvent → Option Channel → Option (Bytes × Bytes) → Bots → Run Bot
    in_channel ev none next h = done bcirc_plugin_continue h
    in_channel ev (some chan) next h = with_reason ev (some chan) next h

    -- Round 2 of a quit: the token is the first word of the reason if it is not a channel's name.
    abbrev pub quit_round : Bytes → Bytes → Option Channel → Bots → Run Bot
    quit_round token save none h = with_reason quit none (some (token, save)) h
    quit_round token save (some chan) h = with_reason quit (some chan) (strtok is_space save) h

    abbrev pub named_round : ChanEvent → Bytes → Bytes → Bots → Run Bot
    named_round ev token save h =
        let (chan, cs) = get_or_create token srv h.world.channels in
        in_channel ev chan (strtok is_space save) (with_channels h cs)

    -- Round 3 of an invite takes the text behind its token for the channel.
    abbrev pub invite_round : Bytes → Bots → Run Bot
    invite_round save h =
        let (chan, cs) = get_or_create save srv h.world.channels in
        in_channel invite chan none (with_channels h cs)

    abbrev pub third_round : ChanEvent → Option (Bytes × Bytes) → Bots → Run Bot
    third_round ev none h = run_event ev none (some nick) (some hostmask) none srv h
    third_round join (some (token, save)) h = named_round join token save h
    third_round kick (some (token, save)) h = named_round kick token save h
    third_round part (some (token, save)) h = named_round part token save h
    third_round quit (some (token, save)) h =
        quit_round token save (get_channel (some token) (some srv) h.world.channels) h
    third_round invite (some (token, save)) h = invite_round save h

  abbrev pub with_sender : ℕ → ChanEvent → Sent → Option (Bytes × Bytes) → Bots → Run Bot
  with_sender srv ev (by nick hostmask) next h = third_round srv nick hostmask ev next h
  with_sender srv ev unknown next h = done bcirc_plugin_continue h
  with_sender srv ev overrun next h = fault

  abbrev pub with_event : ℕ → Bytes → Option ChanEvent → Bytes → Bots → Run Bot
  with_event srv line none save h = done bcirc_plugin_ok h
  with_event srv line (some ev) save h = with_sender srv ev (sender line) (strtok is_space save) h

  -- A line of less than two words counts as a join of nobody.
  abbrev pub second_token : ℕ → Bytes → Option (Bytes × Bytes) → Bots → Run Bot
  second_token srv line none h = run_event join none none none none srv h
  second_token srv line (some (token, save)) h = with_event srv line (event_of token) save h

  abbrev pub first_token : ℕ → Bytes → Option (Bytes × Bytes) → Bots → Run Bot
  first_token srv line none h = run_event join none none none none srv h
  first_token srv line (some (token, save)) h = second_token srv line (strtok is_space save) h

  unfoldable pub get_chan_event : Option ℕ → Option Bytes → Bots → Run Bot
  get_chan_event srv none h = done bcirc_plugin_break h
  get_chan_event none (some line) h = done bcirc_plugin_break h
  get_chan_event (some srv) (some line) h =
      if leb (length line + 1) 20
      then done bcirc_plugin_continue h
      else with_server srv h λ v.
        if v.motd_sent == 0
        then done (pos 0) h
        else if leb (length line + 1) (room 1024)
        then first_token srv line (strtok is_space line) h
        else fault
