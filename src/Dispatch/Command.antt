-- ===== src/Dispatch/Command.antt =====
-- A message with the command `!nick` through src/plugin_handler.c, the events-handler plugin and the
-- nick plugin.
pub mod Line
use bcirc.Base.{
  ℕ, suc, ◌+◌, ◌≤◌, ◌<◌, Bytes, codes, [], ◌∷◌, ◌++◌, none, some, ◌≡◌, refl, ap, ◌∙◌, ◌⊎◌, inl, inr,
  ℤ, Bool, true, false, ◌==◌, leb, ltb, arith, length, length-append, is_space, strtok, All-append,
  Bool-cases, if◌then◌else◌,
}
use bcirc.PluginHandler.{Arg, Params, params, bcirc_plugin_ok, bcirc_plugin_continue}
use bcirc.PluginHandler.Index.{get_cb_index, callbacks_for}
use bcirc.PluginHandler.Names.{
  callback_server_recv, callback_server_send, callback_got_privmsg, callback_callbacks_executed,
}
use bcirc.PluginHandler.Execute.{Run, done, execute_callbacks}
use bcirc.PluginHandler.Execute.Order.{execute_callbacks-unknown}
use bcirc.Server.{Server, Bot, Bots, find_server, set_server, then_run}
use bcirc.Server.Connection.{server_send_lem, set_server_found}
use bcirc.Server.Receive.{line_received}
use bcirc.IrcCmds.{nick_text}
use bcirc.Events.{is_bang, return_value, get_numeric, numeric_words, numeric_word}
use bcirc.Events.Words.{IsWord, strtok-append}
use bcirc.Events.Privmsg.{command, relayed, get_privmsg-privmsg_text}
use bcirc.Core.{answer_ping, handle_ping}
use bcirc.Plugins.NickCommand.Command.{handle_nick-command}
use bcirc.Plugins.Logger.{on_recv, on_privmsg}
use bcirc.Dispatch.{Surroundings, call_plugin}
use bcirc.Dispatch.Ping.{still_welcome}
use bcirc.Dispatch.OneAnswer.{HasOne, Names, IsReturn, one_answers}

-- The functions that pass over a message, and the one that prints it.
abbrev pub IsPassing : ℕ → Type 0
IsPassing f = (f ≡ 0) ⊎ (f ≡ 6) ⊎ (f ≡ 7) ⊎ (f ≡ 12)

abbrev pub IsPrinting : ℕ → Type 0
IsPrinting f = f ≡ 13

-- The server exists, and has welcomed the bot.
abbrev pub IsWelcomed : ℕ → Bots → Type 0
IsWelcomed srv h =
    (v : Server) × (find_server srv h.world.servers ≡ some v) × ((v.motd_sent == 0) ≡ false)

abbrev pub nick_message : ℕ → Bytes → Bytes
nick_message c word = codes "!nick " ++ c ∷ word

abbrev pub nick_line : Bytes → Bytes → Bytes → ℕ → Bytes → Bytes
nick_line n mask target c word = relayed n mask (command (nick_message c word) target)

pub same_nick :
    (b : Bool) (k : ℕ) (v : Server) → (if b then record v { sent_len = k } else v).nick ≡ v.nick
same_nick true k v = refl
same_nick false k v = refl

module _ (depth : ℕ) (e : Surroundings) (srv : ℕ) (n : Bytes) (m : ℕ) (mask : Bytes) (t : ℕ)
    (target : Bytes) (c : ℕ) (word : Bytes) (nick_word : IsWord is_space n)
    (nick_plain : IsWord is_bang n) (mask_word : IsWord is_space (m ∷ mask))
    (target_word : IsWord is_space (t ∷ target)) (plain : IsWord is_space (c ∷ word))
    (short : length word < 500) (spare : (k : ℕ) → k + 1 ≤ e.room k) where
  abbrev line : Bytes
  line = nick_line n (m ∷ mask) (t ∷ target) c word

  abbrev message_params : Params
  message_params = params (
      Arg.srv srv
      ∷ Arg.str n
      ∷ Arg.str (m ∷ mask)
      ∷ Arg.str (t ∷ target)
      ∷ Arg.str (nick_message c word)
      ∷ [])

  -- The nick plugin's callback.
  nick_changed :
      (h : Bots) (v : Server)
      → get_cb_index callback_server_send h.index_list ≡ none
      → find_server srv h.world.servers ≡ some v
      → (h' : Bots) × (v' : Server) × (call_plugin (suc depth) e 10 message_params h
          ≡ done bcirc_plugin_ok h')
        × (h'.world.wire ≡ h.world.wire ++ (v.s, nick_text (c ∷ word)) ∷ [])
        × (find_server srv h'.world.servers ≡ some v')
        × (v'.nick ≡ c ∷ word)
        × (v'.motd_sent ≡ v.motd_sent)
        × (h'.index_list ≡ h.index_list)
  unfolding call_plugin
  nick_changed h v silent found =
      let renamed : Server → Server = λ u. record u { nick = c ∷ word } in
      let (h', sent, wire, kept, index) =
        server_send_lem (call_plugin depth e) e.net (nick_text (c ∷ word)) srv
          (set_server h srv renamed) (set_server h srv renamed) bcirc_plugin_ok (renamed v)
          (execute_callbacks-unknown (call_plugin depth e) callback_server_send _
            (set_server h srv renamed) silent)
          (set_server_found srv renamed h v (λ u. refl) found) in
      let enough : (k : ℕ) → k ≤ e.room k = λ k. omega (arith, spare k) in
      (
        h',
        _,
        handle_nick-command (call_plugin depth e) e.net e.room e.reprint message_params srv c word h
              v refl plain short enough found
            ∙ ap (λ (r : Run Bot). then_run r (λ res after. done bcirc_plugin_ok after)) sent,
        wire,
        kept,
        same_nick _ _ (renamed v),
        still_welcome _ _ (renamed v),
        index,
      )

  printing_passes :
      (f : ℕ) (h : Bots)
      → IsWelcomed srv h
      → IsPrinting f
      → (res : ℤ) × (call_plugin (suc depth) e f message_params h ≡ done res h) × IsReturn res
  unfolding call_plugin on_privmsg
  printing_passes f h (v, found, welcome) printing = (
    bcirc_plugin_ok,
    ap (λ g. call_plugin (suc depth) e g message_params h) printing ∙ rw found refl,
    inl refl,
  )

  -- The event for the message changes the nick.
  pub message_answered :
      (h : Bots) (v : Server)
      → Names 10 IsPrinting (callbacks_for callback_got_privmsg h.index_list)
      → get_cb_index callback_server_send h.index_list ≡ none
      → get_cb_index callback_callbacks_executed h.index_list ≡ none
      → find_server srv h.world.servers ≡ some v
      → (v.motd_sent == 0) ≡ false
      → (h' : Bots) × (v' : Server) × (execute_callbacks
            (call_plugin (suc depth) e)
            callback_got_privmsg
            message_params
            h
          ≡ done bcirc_plugin_ok h')
        × (h'.world.wire ≡ h.world.wire ++ (v.s, nick_text (c ∷ word)) ∷ [])
        × (find_server srv h'.world.servers ≡ some v')
        × (v'.nick ≡ c ∷ word)
        × (v'.motd_sent ≡ v.motd_sent)
        × (h'.index_list ≡ h.index_list)
  message_answered h v one silent unannounced found welcome =
      let (h', v', ran, wire, found', nick, motd, index) = nick_changed h v silent found in
      (
        h',
        v',
        one_answers (call_plugin (suc depth) e) message_params 10 IsPrinting (IsWelcomed srv)
            printing_passes callback_got_privmsg h h' one refl unannounced (v, found, welcome) ran
            index (v', found', ap (λ (k : ℕ). k == 0) motd ∙ welcome),
        wire,
        found',
        nick,
        motd,
        index,
      )
