-- ===== src/Core/Nick.antt =====
-- handle_nick of plugins/src/core/core.c.
use bcirc.Base.{
  ℕ, ◌≤◌, Bytes, [], some, ◌≡◌, refl, ap, ◌∙◌, Bool, true, false, not, str_eq, if◌then◌else◌,
}
use bcirc.PluginHandler.{bcirc_plugin_ok, Params}
use bcirc.PluginHandler.Execute.{Run, done}
use bcirc.Server.{Server, Bot, Bots, Sockets, find_server, set_server, server_send}
use bcirc.Server.Connection.{with_server_found, find_server-update_server, found_here}
use bcirc.IrcCmds.{nick_text, nick}
use bcirc.IrcCmds.Texts.{commands_sent}
use bcirc.Core.{is_nick_refused, longer_nick, handle_nick, returning}

module _ (call : ℕ → Params → Bots → Run Bot) (net : Sockets) (room : ℕ → ℕ)
    (reprint : Bytes → Bytes → Bytes) where
  -- The state after a server's nick is replaced by its alternative.
  abbrev pub with_alt_nick : ℕ → Server → Bots → Bots
  with_alt_nick srv v h = set_server h srv (λ u. record u { nick = v.alt_nick })

  -- Where a server refuses the bot's nick and the alternative is another one: the alternative is
  -- stored as the server's nick before the NICK command for it is sent, once, and the callback
  -- returns OK; every other numeric reply leaves the state as it is.
  pub handle_nick_lem :
      ((n : ℕ) → n ≤ room n)
      → (srv refusal other : ℕ) (h : Bots) (v : Server) → find_server srv h.world.servers ≡ some v
      → str_eq v.nick v.alt_nick ≡ false
      → is_nick_refused refusal ≡ true
      → is_nick_refused other ≡ false
      → (handle_nick call net room reprint srv refusal h
          ≡ returning call net room reprint bcirc_plugin_ok
              (server_send call net (some (nick_text v.alt_nick)) srv (with_alt_nick srv v h)))
        × (find_server srv (with_alt_nick srv v h).world.servers
            ≡ some (record v { nick = v.alt_nick }))
        × (handle_nick call net room reprint srv other h ≡ done bcirc_plugin_ok h)
  unfolding handle_nick
  handle_nick_lem enough srv refusal other h v found differs refused accepted =
      let alternative : Run Bot =
        returning call net room reprint bcirc_plugin_ok
          (nick call net room reprint v.alt_nick srv h) in
      let longer : Run Bot =
        returning call net room reprint bcirc_plugin_ok
          (longer_nick call net room reprint v.nick srv h) in
      let chosen : Bool → Bool → Run Bot = λ taken same.
        if not taken then done bcirc_plugin_ok h else if not same then alternative else longer in
      (
        with_server_found srv h _ found
            ∙ (ap (λ (b : Bool). chosen b (str_eq v.nick v.alt_nick)) refused
                ∙ (ap (λ (b : Bool). chosen true b) differs
                    ∙ ap (returning call net room reprint bcirc_plugin_ok)
                        (commands_sent call net room reprint enough srv h v [] [] v.alt_nick []
                          found).1)),
        find_server-update_server srv srv _ h.world.servers (λ u. refl) found
            ∙ ap (λ (b : Bool). some (if b then record v { nick = v.alt_nick } else v))
                (found_here srv h.world.servers found),
        with_server_found srv h _ found
            ∙ ap (λ (b : Bool). chosen b (str_eq v.nick v.alt_nick)) accepted,
      )
