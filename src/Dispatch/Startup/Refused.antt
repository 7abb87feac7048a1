-- ===== src/Dispatch/Startup/Refused.antt =====
-- A refused nick once get_plugins of src/plugin_handler.c has loaded the plugins.
use bcirc.Base.{
  pos, arith, All-append, ℕ, suc, ◌+◌, ◌≤◌, ◌<◌, Bytes, codes, List, [], ◌∷◌, ◌++◌, map, Option,
  some, ◌≡◌, refl, sym, subst, ap, ◌∙◌, inl, inr, false, ◌==◌, All, length,
}
use bcirc.Events.{privmsg_word}
use bcirc.Events.Numeric.{three_digits}
use bcirc.Core.{is_nick_refused}
use bcirc.PluginHandler.Names.{callback_got_numeric}
use bcirc.Dispatch.Refusal.{IsOther, IsUnmoved, reply_line}
use bcirc.Dispatch.Refusal.Line.{line_received-refused}
use bcirc.Base.{strstr, str_eq, true, none, ◌*◌, ◌⊎◌}
use bcirc.PluginHandler.Names.{
  callback_server_recv, callback_server_send, callback_callbacks_executed,
}
use bcirc.PluginHandler.Index.{Qsort, init_index, get_cb_index}
use bcirc.PluginHandler.Execute.{Run, done}
use bcirc.PluginHandler.Load.{SharedObject, DirEntry, get_plugins}
use bcirc.PluginHandler.Load.Startup.{Registration, functions}
use bcirc.PluginHandler.Load.Directory.{IsPlugin}
use bcirc.Server.{Server, Bot, Bots, find_server, then_run}
use bcirc.Server.Receive.{recv_chunk}
use bcirc.Server.Receive.Chunk.{counted}
use bcirc.IrcCmds.{nick_text}
use bcirc.Dispatch.{Surroundings, call_plugin}
use bcirc.Dispatch.OneAnswer.{HasOne}
use bcirc.Dispatch.Startup.{installed}
use bcirc.Dispatch.Startup.OneLine.{IsText, IsVisible, visible-IsText, recv_chunk-one_line}
use bcirc.Dispatch.Startup.Answer.{heard, unheard}

digit-IsText : (a : ℕ) → a < 10 → IsText (b'0' + a)
digit-IsText a small = (ground (arith, small), ground (arith, small))

reply_line-IsText :
    (server : Bytes) (a b c : ℕ) (rest : Bytes)
    → a < 10
    → b < 10
    → c < 10
    → All IsText server
    → All IsText rest
    → All IsText (reply_line server a b c rest)
reply_line-IsText server a b c rest small_a small_b small_c server_text rest_text =
    All-append IsText (b':' ∷ server) (b' ' ∷ (three_digits a b c ++ b' ' ∷ rest))
      ((refl, refl), server_text)
      (
        (refl, refl),
        (
          digit-IsText a small_a,
          (digit-IsText b small_b, (digit-IsText c small_c, ((refl, refl), rest_text))),
        ),
      )

module _ (q : Qsort) (dl_open : Bytes → Option (SharedObject Bot)) (dir : Bytes)
    (autojoin channel core events logger nick : DirEntry) (h : Bots) where
  abbrev files : List (DirEntry × List Registration)
  files = installed autojoin channel core events logger nick

  abbrev loaded : Bots
  loaded = (get_plugins dl_open dir (some (map (λ f. f.0) files)) h).1

  module _ (plugins : All (IsPlugin q dl_open dir) files) (fresh : h.index_list ≡ init_index) where
    line_heard : HasOne 6 IsOther (functions callback_server_recv loaded.index_list)
    line_heard =
        heard q dl_open dir autojoin channel core events logger nick h plugins fresh
          callback_server_recv 6 IsOther
          (inr (
            inr (inr (inr refl)),
            inr (inr (inl refl), inl (refl, (inr (inr (inl refl)), (inl refl, tt)))),
          ))

    reply_heard : HasOne 3 IsUnmoved (functions callback_got_numeric loaded.index_list)
    reply_heard =
        heard q dl_open dir autojoin channel core events logger nick h plugins fresh
          callback_got_numeric 3 IsUnmoved (inr (inl refl, inl (refl, (inr refl, tt))))

    -- A bot that started with an empty index and loaded the plugins core, events-handler,
    -- channel-handler, logger, nick and autojoin by get_plugins, in whatever order `qsort` leaves
    -- their callbacks: as long as the index is the one loaded, a chunk that is one line with a
    -- server's name, one of the numbers that refuse a nick and anything behind it, for a server
    -- whose nick is not the alternative one, hands exactly one text to the server's socket, the
    -- NICK command for the alternative, which is stored as the server's nick. The bytes of the
    -- line are printable and no percent signs, it has less than 510 bytes and no "PRIVMSG", and
    -- its copies have room; it is short or the server has welcomed the bot.
    pub recv_chunk-refused :
        (depth : ℕ) (e : Surroundings) (srv : ℕ) (server : Bytes) (a b c : ℕ) (rest : Bytes)
        (now : Bots) (v : Server)
        → All IsVisible server
        → a < 10
        → b < 10
        → c < 10
        → All IsText rest
        → is_nick_refused (100 * a + 10 * b + c) ≡ true
        → let line = reply_line server a b c rest in
          strstr line privmsg_word ≡ none
          → length line < 510
          → ((k : ℕ) → k + 1 ≤ e.room k)
          → now.index_list ≡ loaded.index_list
          → find_server srv now.world.servers ≡ some v
          → str_eq v.nick v.alt_nick ≡ false
          → (length line + 1 ≤ 20) ⊎ ((v.motd_sent == 0) ≡ false)
          → (h' : Bots) × (v' : Server) × (recv_chunk
                (call_plugin (suc (suc depth)) e)
                e.net
                srv
                (line ++ codes "\r\n")
                now
              ≡ done (pos 0) h')
            × (h'.world.wire ≡ now.world.wire ++ (v.s, nick_text v.alt_nick) ∷ [])
            × (find_server srv h'.world.servers ≡ some v')
            × (v'.nick ≡ v.alt_nick)
            × (h'.index_list ≡ now.index_list)
    recv_chunk-refused depth e srv server a b c rest now v server_visible small_a small_b small_c
          rest_text refused other short spare same found differs passed =
        let (server_text, server_word) = visible-IsText server server_visible in
        let line : Bytes = reply_line server a b c rest in
        let call = call_plugin (suc (suc depth)) e in
        let start : Bots = counted srv ((line ++ 13 ∷ []) ++ 10 ∷ []) now in
        let (sends, announced) =
          unheard q dl_open dir autojoin channel core events logger nick h plugins fresh in
        let (chunk, (count, counted_server), index) =
          recv_chunk-one_line call e.net srv b':'
            (server ++ b' ' ∷ (three_digits a b c ++ b' ' ∷ rest)) now v
            (reply_line-IsText server a b c rest small_a small_b small_c server_text rest_text)
            short found in
        let (h', v', answered, sent, found', nick', kept) =
          line_received-refused depth e srv server a b c rest server_word small_a small_b small_c
            refused spare other (omega (arith, short, spare 1024)) start
            (record v { recvd_len = count })
            (subst (λ i. HasOne 6 IsOther (functions callback_server_recv i)) (sym (index ∙ same))
              line_heard)
            (subst (λ i. HasOne 3 IsUnmoved (functions callback_got_numeric i)) (sym (index ∙ same))
              reply_heard)
            (ap (get_cb_index callback_server_send) (index ∙ same) ∙ sends)
            (ap (get_cb_index callback_callbacks_executed) (index ∙ same) ∙ announced)
            counted_server differs passed in
        (
          h',
          v',
          chunk ∙ ap (λ (r : Run Bot). then_run r (λ res after. done (pos 0) after)) answered,
          sent,
          found',
          nick',
          kept ∙ index,
        )
