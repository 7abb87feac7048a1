-- ===== src/Dispatch/Refusal.antt =====
-- A numeric reply that refuses the bot's nick, through src/plugin_handler.c, the events-handler plugin
-- and the core plugin.
pub mod Line
use bcirc.Base.{
  ℕ, suc, ◌+◌, ◌*◌, ◌≤◌, ◌<◌, Bytes, codes, [], ◌∷◌, ◌++◌, none, some, ◌≡◌, refl, ap, ◌∙◌, ◌⊎◌, inl,
  inr, ℤ, pos, subst, sym, Bool, true, false, ◌==◌, leb, ltb, arith, length, is_space, strtok,
  str_eq, strstr, Bool-cases, if◌then◌else◌,
}
use bcirc.PluginHandler.{Arg, Params, params, bcirc_plugin_ok, bcirc_plugin_continue}
use bcirc.PluginHandler.Index.{get_cb_index, callbacks_for}
use bcirc.PluginHandler.Names.{
  callback_server_recv, callback_server_send, callback_got_numeric, callback_callbacks_executed,
}
use bcirc.PluginHandler.Execute.{Run, done, execute_callbacks}
use bcirc.PluginHandler.Execute.Order.{execute_callbacks-unknown}
use bcirc.Server.{Server, Bot, Bots, find_server, then_run}
use bcirc.Server.Connection.{server_send_lem}
use bcirc.Server.Receive.{line_received}
use bcirc.IrcCmds.{nick_text}
use bcirc.Events.{privmsg_word, return_value}
use bcirc.Events.Words.{IsWord, strtok-append}
use bcirc.Events.Privmsg.{get_privmsg_other}
use bcirc.Events.Numeric.{three_digits, digit_plain, get_numeric_lem}
use bcirc.Events.ChanEvent.{event_of, with_event, second_token, first_token}
use bcirc.Events.ChanEvent.Joined.{guards, get_chan_event_short}
use bcirc.Core.{answer_ping, handle_ping, is_nick_refused, rpl_welcome, got_in}
use bcirc.Core.Nick.{with_alt_nick, handle_nick_lem}
use bcirc.ChannelHandler.{is_channel_numeric, get_channel_info}
use bcirc.Plugins.Logger.{on_recv}
use bcirc.Dispatch.{Surroundings, call_plugin}
use bcirc.Dispatch.Ping.{still_welcome}
use bcirc.Dispatch.Command.{same_nick}
use bcirc.Dispatch.OneAnswer.{Names, IsReturn, one_answers}

-- The functions that pass over a numeric reply as a line, and those that pass over the refusal.
abbrev pub IsOther : ℕ → Type 0
IsOther f = (f ≡ 0) ⊎ (f ≡ 5) ⊎ (f ≡ 7) ⊎ (f ≡ 12)

abbrev pub IsUnmoved : ℕ → Type 0
IsUnmoved f = (f ≡ 1) ⊎ (f ≡ 8)

abbrev pub reply_line : Bytes → ℕ → ℕ → ℕ → Bytes → Bytes
reply_line server a b c rest = (b':' ∷ server) ++ b' ' ∷ (three_digits a b c ++ b' ' ∷ rest)

-- A number that refuses a nick is another one than those that the others look for.
pub refused_alone :
    (n : ℕ)
    → is_nick_refused n ≡ true
    → ((n == rpl_welcome) ≡ false) × (is_channel_numeric n ≡ false)
refused_alone n h = (ground (arith, h), ground (arith, h))

pub no_event : (a b c : ℕ) → a < 10 → event_of (three_digits a b c) ≡ none
no_event a b c h = ground (arith, h)

module _ (depth : ℕ) (e : Surroundings) (srv : ℕ) (server : Bytes) (a b c : ℕ) (rest : Bytes)
    (server_word : IsWord is_space server) (small_a : a < 10) (small_b : b < 10) (small_c : c < 10)
    (refused : is_nick_refused (100 * a + 10 * b + c) ≡ true)
    (spare : (k : ℕ) → k + 1 ≤ e.room k) where
  abbrev number : ℕ
  number = 100 * a + 10 * b + c

  abbrev line : Bytes
  line = reply_line server a b c rest

  abbrev reply_params : Params
  reply_params = params (Arg.srv srv ∷ Arg.num (pos number) ∷ Arg.str line ∷ [])

  abbrev line_params : Params
  line_params = params (Arg.srv srv ∷ Arg.str line ∷ [])

  -- The server exists, and get_chan_event passes the line over.
  abbrev pub IsSettled : Bots → Type 0
  IsSettled h =
      (v : Server) × (find_server srv h.world.servers ≡ some v)
      × ((length line + 1 ≤ 20) ⊎ ((v.motd_sent == 0) ≡ false))

  pub unmoved_passes :
      (f : ℕ) (h : Bots)
      → IsSettled h
      → IsUnmoved f
      → (res : ℤ) × (call_plugin (suc depth) e f reply_params h ≡ done res h) × IsReturn res
  unfolding call_plugin got_in get_channel_info
  unmoved_passes f h settled unmoved =
      let Passes : ℕ → Type 0 =
        λ g. (res : ℤ) × (call_plugin (suc depth) e g reply_params h ≡ done res h) × IsReturn res in
      let (other, no_channel) = refused_alone number refused in
      let held : ltb (e.room (length line)) (length line + 1) ≡ false =
        ground (arith, spare (length line)) in
      elim unmoved [
        | inl one ↦ subst Passes (sym one) (bcirc_plugin_continue, rw other refl, inr refl)
        | inr eight ↦
            subst Passes (sym eight) (bcirc_plugin_ok, rw held (rw no_channel refl), inl refl)
      ]

  -- The core plugin's callback.
  pub alternative_sent :
      (h : Bots) (v : Server)
      → get_cb_index callback_server_send h.index_list ≡ none
      → find_server srv h.world.servers ≡ some v
      → str_eq v.nick v.alt_nick ≡ false
      → (h' : Bots) × (v' : Server) × (call_plugin (suc depth) e 3 reply_params h
          ≡ done bcirc_plugin_ok h')
        × (h'.world.wire ≡ h.world.wire ++ (v.s, nick_text v.alt_nick) ∷ [])
        × (find_server srv h'.world.servers ≡ some v')
        × (v'.nick ≡ v.alt_nick)
        × (v'.motd_sent ≡ v.motd_sent)
        × (h'.index_list ≡ h.index_list)
  unfolding call_plugin
  alternative_sent h v silent found differs =
      let call = call_plugin depth e in
      let enough : (k : ℕ) → k ≤ e.room k = λ k. omega (arith, spare k) in
      let (chosen, stored, passed) =
        handle_nick_lem call e.net e.room e.reprint enough srv number 0 h v found differs refused
          refl in
      let start : Bots = with_alt_nick call e.net e.room e.reprint srv v h in
      let (h', sent, wire, kept, index) =
        server_send_lem call e.net (nick_text v.alt_nick) srv start start bcirc_plugin_ok
          (record v { nick = v.alt_nick })
          (execute_callbacks-unknown call callback_server_send _ start silent) stored in
      (
        h',
        _,
        chosen ∙ ap (λ (r : Run Bot). then_run r (λ res after. done bcirc_plugin_ok after)) sent,
        wire,
        kept,
        same_nick _ _ (record v { nick = v.alt_nick }),
        still_welcome _ _ (record v { nick = v.alt_nick }),
        index,
      )
