-- ===== src/Core/Registration.antt =====
-- handle_registeration of plugins/src/core/core.c: what a connected bot sends first.
pub mod Keeping
use bcirc.Base.{
  ℕ, ◌+◌, ◌≤◌, Bytes, List, [], ◌∷◌, ◌++◌, append_assoc, none, some, ◌≡◌, refl, ap, ◌∙◌, ℤ, Bool,
  true, false, arith, length, if◌then◌else◌,
}
use bcirc.PluginHandler.{Params, bcirc_plugin_ok}
use bcirc.PluginHandler.Index.{get_cb_index}
use bcirc.PluginHandler.Names.{callback_server_send}
use bcirc.PluginHandler.Execute.{Run, done}
use bcirc.PluginHandler.Execute.Order.{execute_callbacks-unknown}
use bcirc.Server.{
  Server, Bot, Bots, Sockets, find_server, set_server, server_send, then_run, with_server,
}
use bcirc.Server.Connection.{set_server_found, server_send_lem, with_server_found}
use bcirc.IrcCmds.{nick_text, nick}
use bcirc.IrcCmds.Texts.{fits, commands_sent}
use bcirc.Core.{pass_text, user_text, returning, handle_registeration}

same_socket :
    (b : Bool) (n : ℕ) (v : Server)
    → let u = if b then record v { sent_len = n } else v in (u.s ≡ v.s) × (u.nick ≡ v.nick)
same_socket true n v = (refl, refl)
same_socket false n v = (refl, refl)

three_more :
    {A : Type 0} (w0 : List A) (a b c : A) {w1 w2 w3 : List A}
    → w1 ≡ w0 ++ a ∷ []
    → w2 ≡ w1 ++ b ∷ []
    → w3 ≡ w2 ++ c ∷ []
    → w3 ≡ w0 ++ a ∷ b ∷ c ∷ []
three_more w0 a b c e1 e2 e3 =
    e3
    ∙ (ap (λ w. w ++ c ∷ []) (e2 ∙ ap (λ w. w ++ b ∷ []) e1)
        ∙ (append_assoc (w0 ++ a ∷ []) (b ∷ []) (c ∷ []) ∙ append_assoc w0 (a ∷ []) (b ∷ c ∷ [])))

-- The socket and the nick of a server that keeps them.
same_wire :
    (w : List (ℤ × Bytes)) (first : ℤ × Bytes) (user : Bytes) {s1 s2 s : ℤ} {n2 n : Bytes}
    → s1 ≡ s
    → s2 ≡ s
    → n2 ≡ n
    → w ++ first ∷ (s1, user) ∷ (s2, nick_text n2) ∷ []
      ≡ w ++ first ∷ (s, user) ∷ (s, nick_text n) ∷ []
same_wire w first user {s2 = s2} {s = s} {n2 = n2} e1 e2 e3 =
    ap (λ t. w ++ first ∷ (t, user) ∷ (s2, nick_text n2) ∷ []) e1
    ∙ (ap (λ t. w ++ first ∷ (s, user) ∷ (t, nick_text n2) ∷ []) e2
        ∙ ap (λ m. w ++ first ∷ (s, user) ∷ (s, nick_text m) ∷ []) e3)

module _ (call : ℕ → Params → Bots → Run Bot) (net : Sockets) where
  -- A text sent where nothing listens for callback_server_send.
  pub sent_silently :
      (text : Bytes) (srv : ℕ) (h : Bots) (v : Server)
      → get_cb_index callback_server_send h.index_list ≡ none
      → find_server srv h.world.servers ≡ some v
      → (h' : Bots) × (v' : Server) × (server_send call net (some text) srv h
          ≡ done (net.send v.s text) h')
        × (h'.world.wire ≡ h.world.wire ++ (v.s, text) ∷ [])
        × (find_server srv h'.world.servers ≡ some v')
        × ((v'.s ≡ v.s) × (v'.nick ≡ v.nick))
        × (h'.index_list ≡ h.index_list)
  sent_silently text srv h v silent found =
      let (h', sent, wire, kept, index) =
        server_send_lem call net text srv h h bcirc_plugin_ok v
          (execute_callbacks-unknown call callback_server_send _ h silent) found in
      (h', _, sent, wire, kept, same_socket _ _ v, index)

  module _ (room : ℕ → ℕ) (reprint : Bytes → Bytes → Bytes) where
    -- Where nothing listens for callback_server_send, the server exists, and the texts fit in their
    -- buffers: three commands are handed to the server's socket, in this order: PASS with the
    -- password or "asd", USER, and NICK with the server's nick; the callback returns OK.
    pub handle_registeration_lem :
        (time_now srv : ℕ) (h : Bots) (v : Server)
        → ((n : ℕ) → n ≤ room n)
        → get_cb_index callback_server_send h.index_list ≡ none
        → find_server srv h.world.servers ≡ some v
        → length (pass_text v.pass) + 1 ≤ 512
        → length (user_text v.realname v.username) + 1 ≤ 512
        → (h' : Bots) × (handle_registeration call net room reprint time_now (some srv) h
            ≡ done bcirc_plugin_ok h')
          × (h'.world.wire
              ≡ h.world.wire
                ++ (v.s, pass_text v.pass)
                  ∷ (v.s, user_text v.realname v.username)
                  ∷ (v.s, nick_text v.nick)
                  ∷ [])
          × (h'.index_list ≡ h.index_list)
    unfolding handle_registeration
    handle_registeration_lem time_now srv h v enough silent found short short' =
        let key : Bytes = pass_text v.pass in
        let user : Bytes = user_text v.realname v.username in
        let stamp : Server → Server = λ u. record u { time_connected = time_now } in
        let h0 : Bots = set_server h srv stamp in
        let found0 : find_server srv h0.world.servers ≡ some (stamp v) =
          set_server_found srv stamp h v (λ u. refl) found in
        let (h1, v1, sent1, wire1, found1, same1, index1) =
          sent_silently key srv h0 (stamp v) silent found0 in
        let (h2, v2, sent2, wire2, found2, same2, index2) =
          sent_silently user srv h1 v1 (ap (get_cb_index callback_server_send) index1 ∙ silent)
            found1 in
        let rename : Server → Server = λ u. record u { nick = v2.nick } in
        let h2' : Bots = set_server h2 srv rename in
        let found2' : find_server srv h2'.world.servers ≡ some (rename v2) =
          set_server_found srv rename h2 v2 (λ u. refl) found2 in
        let (h3, v3, sent3, wire3, found3, same3, index3) =
          sent_silently (nick_text v2.nick) srv h2' (rename v2)
            (ap (get_cb_index callback_server_send) (index2 ∙ index1) ∙ silent) found2' in
        let last : Server → Bots → Run Bot = λ u after.
          returning call net room reprint bcirc_plugin_ok
            (nick call net room reprint u.nick srv after) in
        let second : ℤ → Bots → Run Bot = λ res after. with_server srv after (λ u. last u after) in
        let first : ℤ → Bots → Run Bot =
          λ res after. then_run (server_send call net (some user) srv after) second in
        let named : nick call net room reprint v2.nick srv h2
            ≡ done (net.send v2.s (nick_text v2.nick)) h3 =
          (commands_sent call net room reprint enough srv h2 v2 [] [] v2.nick [] found2).1
          ∙ sent3 in
        let large : 512 ≤ room 512 = enough 512 in
        (
          h3,
          with_server_found srv h _ found
              ∙ (fits call net room reprint 512 key _ (omega (arith, short, large))
                  ∙ (fits call net room reprint 512 user _ (omega (arith, short', large))
                      ∙ (ap (λ (r : Run Bot). then_run r first) sent1
                          ∙ (ap (λ (r : Run Bot). then_run r second) sent2
                              ∙ (with_server_found srv h2 (λ u. last u h2) found2
                                  ∙ ap (returning call net room reprint bcirc_plugin_ok) named))))),
          three_more h.world.wire _ _ _ wire1 wire2 wire3
              ∙ same_wire h.world.wire (v.s, key) user same1.0 (same2.0 ∙ same1.0)
                  (same2.1 ∙ same1.1),
          index3 ∙ (index2 ∙ index1),
        )
