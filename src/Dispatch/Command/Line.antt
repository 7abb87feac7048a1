-- ===== src/Dispatch/Command/Line.antt =====
-- A received line with the command `!nick` through src/plugin_handler.c and the plugins.
use bcirc.Base.{
  ℕ, suc, ◌+◌, ◌≤◌, ◌<◌, Bytes, codes, [], ◌∷◌, ◌++◌, none, some, ◌≡◌, refl, ap, ◌∙◌, inl, inr, ℤ,
  subst, sym, false, ◌==◌, ltb, arith, length, length-append, is_space, strtok, All-append,
  Bool-cases,
}
use bcirc.PluginHandler.{Arg, Params, params, bcirc_plugin_ok, bcirc_plugin_continue}
use bcirc.PluginHandler.Index.{get_cb_index, callbacks_for}
use bcirc.PluginHandler.Names.{
  callback_server_recv, callback_server_send, callback_got_privmsg, callback_callbacks_executed,
}
use bcirc.PluginHandler.Execute.{done}
use bcirc.Server.{Server, Bots, find_server}
use bcirc.Server.Receive.{line_received}
use bcirc.IrcCmds.{nick_text}
use bcirc.Events.{is_bang, return_value, get_numeric, numeric_words, numeric_word}
use bcirc.Events.Words.{IsWord, strtok-append}
use bcirc.Events.Privmsg.{command, get_privmsg-relayed}
use bcirc.Events.ChanEvent.{second_token, first_token}
use bcirc.Events.ChanEvent.Joined.{guards}
use bcirc.Core.{answer_ping, handle_ping}
use bcirc.Plugins.Logger.{on_recv}
use bcirc.Dispatch.{Surroundings, call_plugin}
use bcirc.Dispatch.OneAnswer.{Names, IsReturn, one_answers}
use bcirc.Dispatch.Command.{
  IsPassing, IsPrinting, IsWelcomed, nick_message, nick_line, message_answered,
}

module _ (depth : ℕ) (e : Surroundings) (srv : ℕ) (n : Bytes) (m : ℕ) (mask : Bytes) (t : ℕ)
    (target : Bytes) (c : ℕ) (word : Bytes) (nick_word : IsWord is_space n)
    (nick_plain : IsWord is_bang n) (mask_word : IsWord is_space (m ∷ mask))
    (target_word : IsWord is_space (t ∷ target)) (plain : IsWord is_space (c ∷ word))
    (short : length word < 500) (spare : (k : ℕ) → k + 1 ≤ e.room k) where
  abbrev line : Bytes
  line = nick_line n (m ∷ mask) (t ∷ target) c word

  abbrev line_params : Params
  line_params = params (Arg.srv srv ∷ Arg.str line ∷ [])

  -- The words of the line.
  abbrev rest : Bytes
  rest = (t ∷ target) ++ b' ' ∷ b':' ∷ nick_message c word

  sender_token :
      strtok is_space line
      ≡ some (b':' ∷ (n ++ b'!' ∷ m ∷ mask), command (nick_message c word) (t ∷ target))
  sender_token =
      strtok-append is_space b':' (n ++ b'!' ∷ m ∷ mask) b' '
        (command (nick_message c word) (t ∷ target))
        (refl, All-append _ n (b'!' ∷ m ∷ mask) nick_word (refl, mask_word)) refl

  command_token :
      strtok is_space (command (nick_message c word) (t ∷ target)) ≡ some (codes "PRIVMSG", rest)
  command_token =
      strtok-append is_space b'P' (codes "RIVMSG") b' ' rest
        (refl, (refl, (refl, (refl, (refl, (refl, (refl, tt))))))) refl

  -- It is no PING.
  answer_passes :
      (h : Bots)
      → (res : ℤ) × (call_plugin (suc (suc depth)) e 0 line_params h ≡ done res h) × IsReturn res
  unfolding call_plugin handle_ping
  answer_passes h =
      let call = call_plugin (suc depth) e in
      let silent : answer_ping call e.net e.room e.reprint srv line (strtok is_space line) h
          ≡ done bcirc_plugin_continue h =
        ap (λ o. answer_ping call e.net e.room e.reprint srv line o h) sender_token in
      (
        bcirc_plugin_continue,
        elim (Bool-cases (ltb (length line) 7)) [
          | inl little ↦ rw little refl
          | inr long ↦ rw long silent
        ],
        inr refl,
      )

  -- It is no numeric reply.
  numeric_passes :
      (h : Bots)
      → (res : ℤ) × (call_plugin (suc (suc depth)) e 6 line_params h ≡ done res h) × IsReturn res
  unfolding call_plugin get_numeric
  numeric_passes h =
      let call = call_plugin (suc depth) e in
      (
        bcirc_plugin_ok,
        ap (λ o. numeric_words call e.room srv line o h) sender_token
            ∙ ap (λ o. numeric_word call e.room srv line o h) command_token,
        inl refl,
      )

  long_line : 20 ≤ length line
  long_line = omega (
    arith,
    length-append (b':' ∷ (n ++ b'!' ∷ m ∷ mask))
        (b' ' ∷ command (nick_message c word) (t ∷ target)),
    length-append (t ∷ target) (b' ' ∷ b':' ∷ nick_message c word),
    length-append n (b'!' ∷ m ∷ mask),
  )

  -- It is no event of a channel.
  chan_event_passes :
      (h : Bots)
      → IsWelcomed srv h
      → length line + 1 ≤ e.room 1024
      → (res : ℤ) × (call_plugin (suc (suc depth)) e 7 line_params h ≡ done res h) × IsReturn res
  unfolding call_plugin
  chan_event_passes h (v, found, welcome) fits =
      let call = call_plugin (suc depth) e in
      (
        bcirc_plugin_ok,
        guards call e.room srv line h v found welcome long_line fits
            ∙ (ap (λ o. first_token call e.room srv line o h) sender_token
                ∙ ap (λ o. second_token call e.room srv line o h) command_token),
        inl refl,
      )

  line_passes :
      length line + 1 ≤ e.room 1024
      → (f : ℕ) (h : Bots) → IsWelcomed srv h
      → IsPassing f
      → (res : ℤ) × (call_plugin (suc (suc depth)) e f line_params h ≡ done res h) × IsReturn res
  unfolding call_plugin on_recv
  line_passes fits f h welcomed passing =
      let Passes : ℕ → Type 0 = λ g.
        (res : ℤ) × (call_plugin (suc (suc depth)) e g line_params h ≡ done res h) × IsReturn res in
      elim passing [
        | inl zero ↦ subst Passes (sym zero) (answer_passes h)
        | inr (inl six) ↦ subst Passes (sym six) (numeric_passes h)
        | inr (inr (inl seven)) ↦ subst Passes (sym seven) (chan_event_passes h welcomed fits)
        | inr (inr (inr twelve)) ↦ subst Passes (sym twelve) (bcirc_plugin_ok, refl, inl refl)
      ]

  -- A line with the message `!nick` and a word for the bot, as a server that has welcomed the bot
  -- relays it: where one callback for received lines is get_privmsg and the others pass over it, and
  -- one callback for messages is that of the nick plugin and the others print, one text goes to the
  -- server's socket, the NICK command for the word, and the word is stored as the server's nick.
  pub line_received-nick :
      length line + 1 ≤ e.room 1024
      → (h : Bots) (v : Server)
      → Names 5 IsPassing (callbacks_for callback_server_recv h.index_list)
      → Names 10 IsPrinting (callbacks_for callback_got_privmsg h.index_list)
      → get_cb_index callback_server_send h.index_list ≡ none
      → get_cb_index callback_callbacks_executed h.index_list ≡ none
      → find_server srv h.world.servers ≡ some v
      → (v.motd_sent == 0) ≡ false
      → (h' : Bots) × (v' : Server) × (line_received
            (call_plugin (suc (suc depth)) e)
            e.net
            srv
            line
            h
          ≡ done bcirc_plugin_ok h')
        × (h'.world.wire ≡ h.world.wire ++ (v.s, nick_text (c ∷ word)) ∷ [])
        × (find_server srv h'.world.servers ≡ some v')
        × (v'.nick ≡ c ∷ word)
        × (h'.index_list ≡ h.index_list)
  unfolding call_plugin
  line_received-nick fits h v one_line one_message silent unannounced found welcome =
      let call = call_plugin (suc depth) e in
      let (h', v', answered, wire, found', nick, motd, index) =
        message_answered depth e srv n m mask t target c word nick_word nick_plain mask_word
          target_word plain short spare h v one_message silent unannounced found welcome in
      let ran : call_plugin (suc (suc depth)) e 5 line_params h ≡ done bcirc_plugin_ok h' =
        get_privmsg-relayed call e.room srv h n m mask t target (nick_message c word) nick_word
          nick_plain mask_word target_word spare
        ∙ ap (return_value call e.room bcirc_plugin_ok) answered in
      (
        h',
        v',
        one_answers (call_plugin (suc (suc depth)) e) line_params 5 IsPassing (IsWelcomed srv)
            (line_passes fits) callback_server_recv h h' one_line refl unannounced
            (v, found, welcome) ran index (v', found', ap (λ (k : ℕ). k == 0) motd ∙ welcome),
        wire,
        found',
        nick,
        index,
      )
