-- ===== src/Core/Registration/Keeping.antt =====
-- What handle_registeration of plugins/src/core/core.c leaves alone.
use bcirc.Base.{ℕ, ◌+◌, Bytes, none, some, ◌≡◌, refl, ap, ◌∙◌, inl, inr, length, leb, Bool-cases}
use bcirc.PluginHandler.{Params}
use bcirc.PluginHandler.Index.{get_cb_index}
use bcirc.PluginHandler.Names.{callback_server_send}
use bcirc.PluginHandler.Execute.{Run}
use bcirc.Server.{Bot, Bots, Sockets, set_server}
use bcirc.Server.Places.{
  Keeps, Keeps-from, SamePlaces-refl, then_run-Keeps, with_server-Keeps, set_server-SamePlaces,
  server_send-Keeps,
}
use bcirc.IrcCmds.{nick_text, nick_size, nick, written_to}
use bcirc.Core.{pass_text, user_text, handle_registeration}

module _ (call : ℕ → Params → Bots → Run Bot) (net : Sockets) where
  module _ (room : ℕ → ℕ) (reprint : Bytes → Bytes → Bytes) where
    written_to-Keeps :
        (size : ℕ) (text : Bytes) (h : Bots) (r : Run Bot)
        → Keeps h r
        → Keeps h (written_to call net room reprint size text r)
    written_to-Keeps size text h r kept = elim (Bool-cases (leb (length text + 1) (room size))) [
      | inl fit ↦ rw (fit, Keeps) kept
      | inr large ↦ rw (large, Keeps) tt
    ]

    nick-Keeps :
        (new_nick : Bytes) (srv : ℕ) (h : Bots)
        → get_cb_index callback_server_send h.index_list ≡ none
        → Keeps h (nick call net room reprint new_nick srv h)
    unfolding nick
    nick-Keeps new_nick srv h silent = with_server-Keeps srv h _ λ v.
        written_to-Keeps (nick_size new_nick) (nick_text new_nick) h _ (
          Keeps-from h (set_server h srv (λ u. record u { nick = new_nick })) _
            (set_server-SamePlaces srv (λ u. record u { nick = new_nick }) h (λ u. refl))
            (server_send-Keeps call net (nick_text new_nick) srv
              (set_server h srv (λ u. record u { nick = new_nick })) silent))

    -- The servers, the pool, the next address and the index are as they were.
    pub handle_registeration-Keeps :
        (time_now srv : ℕ) (h : Bots)
        → get_cb_index callback_server_send h.index_list ≡ none
        → Keeps h (handle_registeration call net room reprint time_now (some srv) h)
    unfolding handle_registeration
    handle_registeration-Keeps time_now srv h silent = with_server-Keeps srv h _ λ v.
        let h0 : Bots = set_server h srv (λ u. record u { time_connected = time_now }) in
        written_to-Keeps 512 (pass_text v.pass) h _ (
          written_to-Keeps 512 (user_text v.realname v.username) h _ (
            Keeps-from h h0 _
              (set_server-SamePlaces srv (λ u. record u { time_connected = time_now }) h
                (λ u. refl))
              (then_run-Keeps h0 _ _ (server_send-Keeps call net (pass_text v.pass) srv h0 silent)
                (λ res h1 same.
                  then_run-Keeps h1 _ _
                    (server_send-Keeps call net (user_text v.realname v.username) srv h1
                      (ap (get_cb_index callback_server_send) same.index ∙ silent))
                    (λ res' h2 same'. with_server-Keeps srv h2 _ (λ v'.
                      then_run-Keeps h2 _ _
                        (nick-Keeps v'.nick srv h2 (
                          ap (get_cb_index callback_server_send) (same'.index ∙ same.index)
                          ∙ silent))
                        (λ res'' h3 kept. SamePlaces-refl h3)))))))
