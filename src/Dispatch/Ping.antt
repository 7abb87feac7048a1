-- ===== src/Dispatch/Ping.antt =====
-- A PING line through src/plugin_handler.c, the events-handler plugin and the core plugin.
use bcirc.Base.{
  if◌then◌else◌, false, true, Bool, ◌==◌, leb, Bool-cases, ℕ, suc, ◌+◌, ◌≤◌, Bytes, codes, [], ◌∷◌,
  ◌++◌, none, some, ◌≡◌, refl, ap, ◌∙◌, ◌⊎◌, inl, inr, ℤ, arith, length, strstr, is_space,
}
use bcirc.PluginHandler.{Arg, Params, params, bcirc_plugin_ok, bcirc_plugin_continue}
use bcirc.PluginHandler.Index.{get_cb_index, callbacks_for}
use bcirc.PluginHandler.Names.{
  callback_server_recv, callback_server_send, callback_callbacks_executed,
}
use bcirc.PluginHandler.Execute.{Run, done}
use bcirc.PluginHandler.Execute.Order.{execute_callbacks-unknown}
use bcirc.Server.{Server, Bot, Bots, find_server, then_run}
use bcirc.Server.Connection.{server_send_lem}
use bcirc.Server.Receive.{line_received}
use bcirc.Events.{privmsg_word}
use bcirc.Events.Words.{IsWord}
use bcirc.Events.Privmsg.{get_privmsg_other}
use bcirc.Events.Numeric.{get_numeric_other}
use bcirc.Events.ChanEvent.Joined.{get_chan_event_short, get_chan_event_other}
use bcirc.Core.Ping.{handle_ping-pong}
use bcirc.Plugins.Logger.{on_recv}
use bcirc.Dispatch.{Surroundings, call_plugin}
use bcirc.Dispatch.OneAnswer.{Names, IsReturn, one_answers}

-- The functions of the plugin that makes events of lines, and of the logger, for received lines.
abbrev pub IsReading : ℕ → Type 0
IsReading f = (f ≡ 5) ⊎ (f ≡ 6) ⊎ (f ≡ 7) ⊎ (f ≡ 12)

abbrev pub ping_line : ℕ → Bytes → Bytes
ping_line c host = codes "PING " ++ b':' ∷ c ∷ host

-- get_chan_event passes the line over: it is short, or the server has welcomed the bot.
abbrev pub IsPassedOver : ℕ → Bytes → Server → Type 0
IsPassedOver c host v = (length (ping_line c host) + 1 ≤ 20) ⊎ ((v.motd_sent == 0) ≡ false)

pub still_welcome :
    (b : Bool) (n : ℕ) (v : Server)
    → (if b then record v { sent_len = n } else v).motd_sent ≡ v.motd_sent
still_welcome true n v = refl
still_welcome false n v = refl

module _ (depth : ℕ) (e : Surroundings) (srv c : ℕ) (host : Bytes) where
  abbrev ping_params : Params
  ping_params = params (Arg.srv srv ∷ Arg.str (ping_line c host) ∷ [])

  abbrev caller : ℕ → Params → Bots → Run Bot
  caller = call_plugin (suc depth) e

  module _ (fits : length (ping_line c host) + 1 ≤ e.room 1024) (plain : IsWord is_space (c ∷ host))
      (other : strstr (ping_line c host) privmsg_word ≡ none)
      (spare : length (ping_line c host) + 1 ≤ e.room (length (ping_line c host))) where
    chan_event_passes :
        (h : Bots) (v : Server)
        → find_server srv h.world.servers ≡ some v
        → IsPassedOver c host v
        → (res : ℤ) × (caller 7 ping_params h ≡ done res h)
          × ((res ≡ bcirc_plugin_ok) ⊎ (res ≡ bcirc_plugin_continue))
    unfolding call_plugin
    chan_event_passes h v found passed =
        elim (Bool-cases (leb (length (ping_line c host) + 1) 20)) [
          | inl little ↦ (
            bcirc_plugin_continue,
            get_chan_event_short (call_plugin depth e) e.room srv (ping_line c host) h
                (ground (arith, little)),
            inr refl,
          )
          | inr long ↦ elim passed [
            | inl short ↦ absurd (ground (arith, long, short))
            | inr welcome ↦ (
              bcirc_plugin_ok,
              get_chan_event_other (call_plugin depth e) e.room srv b'P' (codes "ING") b':'
                  (c ∷ host) h v (refl, (refl, (refl, (refl, tt)))) (refl, plain) refl found welcome
                  (ground (arith, long)) fits,
              inl refl,
            )
          ]
        ]

    -- The server exists, and the line passes get_chan_event.
    abbrev IsSettled : Bots → Type 0
    IsSettled h = (v : Server) × (find_server srv h.world.servers ≡ some v) × IsPassedOver c host v

    reader_passes :
        (f : ℕ) (h : Bots)
        → IsSettled h
        → IsReading f
        → (res : ℤ) × (caller f ping_params h ≡ done res h) × IsReturn res
    unfolding call_plugin
    reader_passes f h (v, found, passed) (inl five) = (
      bcirc_plugin_ok,
      ap (λ g. caller g ping_params h) five
          ∙ get_privmsg_other (call_plugin depth e) e.room srv (ping_line c host) h other spare,
      inl refl,
    )
    reader_passes f h (v, found, passed) (inr (inl six)) = (
      bcirc_plugin_ok,
      ap (λ g. caller g ping_params h) six
          ∙ get_numeric_other (call_plugin depth e) e.room srv h b'P' (codes "ING") b':' (c ∷ host)
              (refl, (refl, (refl, (refl, tt)))) (refl, plain) refl,
      inl refl,
    )
    reader_passes f h (v, found, passed) (inr (inr (inr twelve))) = (
      bcirc_plugin_ok,
      ap (λ g. caller g ping_params h) twelve ∙ (unfold on_recv in refl),
      inl refl,
    )
    reader_passes f h (v, found, passed) (inr (inr (inl seven))) =
        let (res, returned, content) = chan_event_passes h v found passed in
        (res, ap (λ g. caller g ping_params h) seven ∙ returned, content)

    -- The answer of the core plugin.
    ping_answered :
        (h : Bots) (v : Server)
        → get_cb_index callback_server_send h.index_list ≡ none
        → find_server srv h.world.servers ≡ some v
        → IsPassedOver c host v
        → (h' : Bots) × (caller 0 ping_params h ≡ done bcirc_plugin_ok h')
          × (h'.world.wire
              ≡ h.world.wire ++ (v.s, codes "PONG :" ++ ((c ∷ host) ++ codes "\r\n")) ∷ [])
          × (h'.index_list ≡ h.index_list)
          × IsSettled h'
    unfolding call_plugin
    ping_answered h v silent found passed =
        let pong : Bytes = codes "PONG :" ++ ((c ∷ host) ++ codes "\r\n") in
        let (h', sent, wire, kept, index) =
          server_send_lem (call_plugin depth e) e.net pong srv h h bcirc_plugin_ok v
            (execute_callbacks-unknown (call_plugin depth e) callback_server_send _ h silent)
            found in
        (
          h',
          handle_ping-pong (call_plugin depth e) e.net e.room e.reprint srv h (b':' ∷ c ∷ host)
                (omega arith)
              ∙ ap (λ (r : Run Bot). then_run r (λ res after. done bcirc_plugin_ok after)) sent,
          wire,
          index,
          (
            _,
            kept,
            elim passed [
              | inl short ↦ inl short
              | inr welcome ↦ inr (ap (λ (m : ℕ). m == 0) (still_welcome _ _ v) ∙ welcome)
            ],
          ),
        )

    -- One callback for received lines is that of the core plugin, and the others are those of the
    -- events-handler plugin and the logger; nothing listens for callback_server_send or
    -- callback_callbacks_executed. Then a line "PING :" with a word behind it, which is
    -- short or comes from a server that has welcomed the bot, without "PRIVMSG" in it, and with room for
    -- its copies, runs all of them, and hands one text to the server's socket: the same word behind
    -- "PONG :".
    pub line_received-ping :
        (h : Bots) (v : Server)
        → Names 0 IsReading (callbacks_for callback_server_recv h.index_list)
        → get_cb_index callback_server_send h.index_list ≡ none
        → get_cb_index callback_callbacks_executed h.index_list ≡ none
        → find_server srv h.world.servers ≡ some v
        → IsPassedOver c host v
        → (h' : Bots) × (line_received (call_plugin (suc depth) e) e.net srv (ping_line c host) h
            ≡ done bcirc_plugin_ok h')
          × (h'.world.wire
              ≡ h.world.wire ++ (v.s, codes "PONG :" ++ ((c ∷ host) ++ codes "\r\n")) ∷ [])
          × (h'.index_list ≡ h.index_list)
    line_received-ping h v one silent unannounced found passed =
        let (h', answered, wire, index, settled) = ping_answered h v silent found passed in
        (
          h',
          one_answers caller ping_params 0 IsReading IsSettled reader_passes callback_server_recv h
              h' one refl unannounced (v, found, passed) answered index settled,
          wire,
          index,
        )
