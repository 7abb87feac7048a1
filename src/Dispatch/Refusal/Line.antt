-- ===== src/Dispatch/Refusal/Line.antt =====
-- A received line with a numeric reply that refuses the bot's nick, through src/plugin_handler.c and
-- the plugins.
use bcirc.Base.{
  ℕ, suc, ◌+◌, ◌*◌, ◌≤◌, ◌<◌, Bytes, [], ◌∷◌, ◌++◌, none, some, ◌≡◌, refl, ap, ◌∙◌, ◌⊎◌, inl, inr,
  ℤ, subst, sym, true, false, ◌==◌, leb, ltb, arith, length, is_space, strtok, str_eq, strstr,
  Bool-cases,
}
use bcirc.PluginHandler.{Arg, Params, params, bcirc_plugin_ok, bcirc_plugin_continue}
use bcirc.PluginHandler.Index.{get_cb_index, callbacks_for}
use bcirc.PluginHandler.Names.{
  callback_server_recv, callback_server_send, callback_got_numeric, callback_callbacks_executed,
}
use bcirc.PluginHandler.Execute.{done}
use bcirc.Server.{Server, Bots, find_server}
use bcirc.Server.Receive.{line_received}
use bcirc.IrcCmds.{nick_text}
use bcirc.Events.{privmsg_word, return_value}
use bcirc.Events.Words.{IsWord, strtok-append}
use bcirc.Events.Privmsg.{get_privmsg_other}
use bcirc.Events.Numeric.{three_digits, digit_plain, get_numeric_lem}
use bcirc.Events.ChanEvent.{with_event, second_token, first_token}
use bcirc.Events.ChanEvent.Joined.{guards, get_chan_event_short}
use bcirc.Core.{answer_ping, handle_ping, is_nick_refused}
use bcirc.Plugins.Logger.{on_recv}
use bcirc.Dispatch.{Surroundings, call_plugin}
use bcirc.Dispatch.OneAnswer.{Names, IsReturn, one_answers}
use bcirc.Dispatch.Refusal.{
  IsOther, IsUnmoved, IsSettled, reply_line, no_event, unmoved_passes, alternative_sent,
}

module _ (depth : ℕ) (e : Surroundings) (srv : ℕ) (server : Bytes) (a b c : ℕ) (rest : Bytes)
    (server_word : IsWord is_space server) (small_a : a < 10) (small_b : b < 10) (small_c : c < 10)
    (refused : is_nick_refused (100 * a + 10 * b + c) ≡ true)
    (spare : (k : ℕ) → k + 1 ≤ e.room k) where
  abbrev line : Bytes
  line = reply_line server a b c rest

  abbrev line_params : Params
  line_params = params (Arg.srv srv ∷ Arg.str line ∷ [])

  abbrev Settled : Bots → Type 0
  Settled =
      IsSettled depth e srv server a b c rest server_word small_a small_b small_c refused spare

  server_token : strtok is_space line ≡ some (b':' ∷ server, three_digits a b c ++ b' ' ∷ rest)
  server_token =
      strtok-append is_space b':' server b' ' (three_digits a b c ++ b' ' ∷ rest)
        (refl, server_word) refl

  number_token :
      strtok is_space (three_digits a b c ++ b' ' ∷ rest) ≡ some (three_digits a b c, rest)
  number_token =
      strtok-append is_space (b'0' + a) ((b'0' + b) ∷ (b'0' + c) ∷ []) b' ' rest
        ((digit_plain a small_a).0, ((digit_plain b small_b).0, ((digit_plain c small_c).0, tt)))
        refl

  -- It is no PING.
  answer_passes :
      (h : Bots)
      → (res : ℤ) × (call_plugin (suc (suc depth)) e 0 line_params h ≡ done res h) × IsReturn res
  unfolding call_plugin handle_ping
  answer_passes h =
      let call = call_plugin (suc depth) e in
      let silent : answer_ping call e.net e.room e.reprint srv line (strtok is_space line) h
          ≡ done bcirc_plugin_continue h =
        ap (λ o. answer_ping call e.net e.room e.reprint srv line o h) server_token in
      (
        bcirc_plugin_continue,
        elim (Bool-cases (ltb (length line) 7)) [
          | inl little ↦ rw little refl
          | inr long ↦ rw long silent
        ],
        inr refl,
      )

  -- It is no event of a channel.
  chan_event_passes :
      (h : Bots)
      → Settled h
      → length line + 1 ≤ e.room 1024
      → (res : ℤ) × (call_plugin (suc (suc depth)) e 7 line_params h ≡ done res h) × IsReturn res
  unfolding call_plugin
  chan_event_passes h (v, found, passed) fits =
      let call = call_plugin (suc depth) e in
      elim (Bool-cases (leb (length line + 1) 20)) [
        | inl little ↦ (
          bcirc_plugin_continue,
          get_chan_event_short call e.room srv line h (ground (arith, little)),
          inr refl,
        )
        | inr long ↦ elim passed [
          | inl short ↦ absurd (ground (arith, long, short))
          | inr welcome ↦ (
            bcirc_plugin_ok,
            guards call e.room srv line h v found welcome (ground (arith, long)) fits
                ∙ (ap (λ o. first_token call e.room srv line o h) server_token
                    ∙ (ap (λ o. second_token call e.room srv line o h) number_token
                        ∙ ap (λ o. with_event call e.room srv line o rest h)
                            (no_event a b c small_a))),
            inl refl,
          )
        ]
      ]

  module _ (other : strstr line privmsg_word ≡ none) (fits : length line + 1 ≤ e.room 1024) where
    line_passes :
        (f : ℕ) (h : Bots)
        → Settled h
        → IsOther f
        → (res : ℤ) × (call_plugin (suc (suc depth)) e f line_params h ≡ done res h) × IsReturn res
    unfolding call_plugin on_recv
    line_passes f h settled passing =
        let Passes : ℕ → Type 0 = λ g.
          (res : ℤ) × (call_plugin (suc (suc depth)) e g line_params h ≡ done res h)
          × IsReturn res in
        elim passing [
          | inl zero ↦ subst Passes (sym zero) (answer_passes h)
          | inr (inl five) ↦ subst Passes (sym five) (
            bcirc_plugin_ok,
            get_privmsg_other (call_plugin (suc depth) e) e.room srv line h other
                (spare (length line)),
            inl refl,
          )
          | inr (inr (inl seven)) ↦ subst Passes (sym seven) (chan_event_passes h settled fits)
          | inr (inr (inr twelve)) ↦ subst Passes (sym twelve) (bcirc_plugin_ok, refl, inl refl)
        ]

    -- A numeric reply that refuses the bot's nick, of a server whose alternative nick is another one:
    -- where one callback for received lines is get_numeric and the others pass over it, and
    -- one callback for numeric replies is handle_nick and the others pass over it too, one text goes to
    -- the server's socket, the NICK command for the alternative, which is stored as the server's nick.
    -- The line is short or the server has welcomed the bot.
    pub line_received-refused :
        (h : Bots) (v : Server)
        → Names 6 IsOther (callbacks_for callback_server_recv h.index_list)
        → Names 3 IsUnmoved (callbacks_for callback_got_numeric h.index_list)
        → get_cb_index callback_server_send h.index_list ≡ none
        → get_cb_index callback_callbacks_executed h.index_list ≡ none
        → find_server srv h.world.servers ≡ some v
        → str_eq v.nick v.alt_nick ≡ false
        → (length line + 1 ≤ 20) ⊎ ((v.motd_sent == 0) ≡ false)
        → (h' : Bots) × (v' : Server) × (line_received
              (call_plugin (suc (suc depth)) e)
              e.net
              srv
              line
              h
            ≡ done bcirc_plugin_ok h')
          × (h'.world.wire ≡ h.world.wire ++ (v.s, nick_text v.alt_nick) ∷ [])
          × (find_server srv h'.world.servers ≡ some v')
          × (v'.nick ≡ v.alt_nick)
          × (h'.index_list ≡ h.index_list)
    unfolding call_plugin
    line_received-refused h v one_line one_reply silent unannounced found differs passed =
        let call = call_plugin (suc depth) e in
        let (h', v', sent, wire, found', nick, motd, index) =
          alternative_sent depth e srv server a b c rest server_word small_a small_b small_c refused
            spare h v silent found differs in
        let settled' : Settled h' = (
          v',
          found',
          elim passed [
            | inl short ↦ inl short
            | inr welcome ↦ inr (ap (λ (k : ℕ). k == 0) motd ∙ welcome)
          ],
        ) in
        let answered =
          one_answers call _ 3 IsUnmoved Settled
            (unmoved_passes depth e srv server a b c rest server_word small_a small_b small_c
              refused spare)
            callback_got_numeric h h' one_reply refl unannounced (v, found, passed) sent index
            settled' in
        let ran : call_plugin (suc (suc depth)) e 6 line_params h ≡ done bcirc_plugin_ok h' =
          get_numeric_lem call e.room srv h b':' server a b c rest (refl, server_word) small_a
            small_b small_c
          ∙ ap (return_value call e.room bcirc_plugin_ok) answered in
        (
          h',
          v',
          one_answers (call_plugin (suc (suc depth)) e) line_params 6 IsOther Settled line_passes
              callback_server_recv h h' one_line refl unannounced (v, found, passed) ran index
              settled',
          wire,
          found',
          nick,
          index,
        )
