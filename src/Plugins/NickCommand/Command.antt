-- ===== src/Plugins/NickCommand/Command.antt =====
-- What the command `!nick` of plugins/src/nick/nick.c does.
use bcirc.Base.{
  ℕ, ◌≤◌, ◌<◌, Bytes, codes, [], ◌∷◌, ◌++◌, some, ◌≡◌, refl, ap, ◌∙◌, Bool, false, arith, leb,
  if◌then◌else◌, length, strtok, is_space,
}
use bcirc.PluginHandler.{Params, bcirc_plugin_ok, bcirc_plugin_fail}
use bcirc.PluginHandler.Execute.{Run, done, fault}
use bcirc.Server.{Server, Bot, Bots, Sockets, find_server, set_server, server_send, then_run}
use bcirc.IrcCmds.{nick_text}
use bcirc.IrcCmds.Texts.{commands_sent}
use bcirc.Events.Words.{IsWord, strtok-append, strtok_all}
use bcirc.Plugins.{has_null}
use bcirc.Plugins.NickCommand.{on_command, change_to, handle_nick}

module _ (call : ℕ → Params → Bots → Run Bot) (net : Sockets) (room : ℕ → ℕ)
    (reprint : Bytes → Bytes → Bytes) where
  -- A message `!nick` with a word behind it, of anybody, stores the word as the server's nick and
  -- sends the NICK command for it; the callback returns OK.
  pub handle_nick-command :
      (p : Params) (srv c : ℕ) (word : Bytes) (h : Bots) (v : Server)
      → has_null p ≡ false
      → IsWord is_space (c ∷ word)
      → length word < 500
      → ((n : ℕ) → n ≤ room n)
      → find_server srv h.world.servers ≡ some v
      → handle_nick call net room reprint p srv (codes "!nick " ++ c ∷ word) h
        ≡ then_run
            (server_send call net
              (some (nick_text (c ∷ word)))
              srv
              (set_server h srv (λ u. record u { nick = c ∷ word })))
            (λ res after. done bcirc_plugin_ok after)
  unfolding handle_nick
  handle_nick-command p srv c word h v given plain short enough found =
      let msg : Bytes = codes "!nick " ++ c ∷ word in
      let fits : leb 512 (length msg) ≡ false = ground (arith, short) in
      let run : Run Bot = on_command call net room reprint srv (strtok is_space msg) h in
      ap
        (λ (b : Bool).
          if b then done bcirc_plugin_fail h else (if leb 512 (length msg) then fault else run))
        given
      ∙ (ap (λ (b : Bool). if b then fault else run) fits
          ∙ (ap (λ o. on_command call net room reprint srv o h)
                (strtok-append is_space b'!' (codes "nick") b' ' (c ∷ word)
                  (refl, (refl, (refl, (refl, (refl, tt))))) refl)
              ∙ (ap (λ o. change_to call net room reprint srv o h)
                    (strtok_all is_space c word plain)
                  ∙ ap (λ (r : Run Bot). then_run r (λ res after. done bcirc_plugin_ok after))
                      (commands_sent call net room reprint enough srv h v [] [] (c ∷ word) []
                        found).1)))
