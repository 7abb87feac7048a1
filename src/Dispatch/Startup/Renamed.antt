-- ===== src/Dispatch/Startup/Renamed.antt =====
-- The command `!nick` once get_plugins of src/plugin_handler.c has loaded the plugins.
use bcirc.Base.{
  pos, arith, All-append, length-append, ℕ, suc, ◌+◌, ◌≤◌, ◌<◌, Bytes, codes, List, [], ◌∷◌, ◌++◌,
  map, Option, some, ◌≡◌, refl, sym, subst, ap, ◌∙◌, inl, inr, false, ◌==◌, All, length, is_space,
}
use bcirc.PluginHandler.{bcirc_plugin_ok}
use bcirc.PluginHandler.Names.{
  callback_server_recv, callback_server_send, callback_got_privmsg, callback_callbacks_executed,
}
use bcirc.PluginHandler.Index.{Qsort, init_index, get_cb_index}
use bcirc.PluginHandler.Execute.{Run, done}
use bcirc.PluginHandler.Load.{SharedObject, DirEntry, get_plugins}
use bcirc.PluginHandler.Load.Startup.{Registration, functions}
use bcirc.PluginHandler.Load.Directory.{IsPlugin}
use bcirc.Server.{Server, Bot, Bots, find_server, then_run}
use bcirc.Server.Receive.{line_received, recv_chunk}
use bcirc.Server.Receive.Chunk.{counted}
use bcirc.Events.Privmsg.{command}
use bcirc.IrcCmds.{nick_text}
use bcirc.Events.{is_bang}
use bcirc.Events.Words.{IsWord}
use bcirc.Dispatch.{Surroundings, call_plugin}
use bcirc.Dispatch.OneAnswer.{HasOne}
use bcirc.Dispatch.Command.{IsPassing, IsPrinting, nick_message, nick_line}
use bcirc.Dispatch.Command.Line.{line_received-nick}
use bcirc.Dispatch.Startup.{installed}
use bcirc.Dispatch.Startup.OneLine.{IsText, IsVisible, visible-IsText, recv_chunk-one_line}
use bcirc.Dispatch.Startup.Answer.{heard, unheard}

nick_line-IsText :
    (n : Bytes) (m : ℕ) (mask : Bytes) (t : ℕ) (target : Bytes) (c : ℕ) (word : Bytes)
    → All IsText n
    → All IsText (m ∷ mask)
    → All IsText (t ∷ target)
    → All IsText (c ∷ word)
    → All IsText (nick_line n (m ∷ mask) (t ∷ target) c word)
nick_line-IsText n m mask t target c word a b d f =
    let tail : All IsText (codes " :!nick " ++ c ∷ word) = (
      (refl, refl),
      (
        (refl, refl),
        (
          (refl, refl),
          ((refl, refl), ((refl, refl), ((refl, refl), ((refl, refl), ((refl, refl), f))))),
        ),
      ),
    ) in
    let behind : All IsText ((t ∷ target) ++ (codes " :!nick " ++ c ∷ word)) =
      All-append IsText (t ∷ target) (codes " :!nick " ++ c ∷ word) d tail in
    All-append IsText (b':' ∷ (n ++ b'!' ∷ m ∷ mask))
      (codes " PRIVMSG " ++ ((t ∷ target) ++ (codes " :!nick " ++ c ∷ word)))
      ((refl, refl), All-append IsText n (b'!' ∷ m ∷ mask) a ((refl, refl), b))
      (
        (refl, refl),
        (
          (refl, refl),
          (
            (refl, refl),
            (
              (refl, refl),
              (
                (refl, refl),
                ((refl, refl), ((refl, refl), ((refl, refl), ((refl, refl), behind)))),
              ),
            ),
          ),
        ),
      )

module _ (q : Qsort) (dl_open : Bytes → Option (SharedObject Bot)) (dir : Bytes)
    (autojoin channel core events logger nick : DirEntry) (h : Bots) where
  abbrev files : List (DirEntry × List Registration)
  files = installed autojoin channel core events logger nick

  abbrev loaded : Bots
  loaded = (get_plugins dl_open dir (some (map (λ f. f.0) files)) h).1

  module _ (plugins : All (IsPlugin q dl_open dir) files) (fresh : h.index_list ≡ init_index) where
    line_heard : HasOne 5 IsPassing (functions callback_server_recv loaded.index_list)
    line_heard =
        heard q dl_open dir autojoin channel core events logger nick h plugins fresh
          callback_server_recv 5 IsPassing
          (inr (
            inr (inr (inr refl)),
            inl (refl, (inr (inl refl), (inr (inr (inl refl)), (inl refl, tt)))),
          ))

    message_heard : HasOne 10 IsPrinting (functions callback_got_privmsg loaded.index_list)
    message_heard =
        heard q dl_open dir autojoin channel core events logger nick h plugins fresh
          callback_got_privmsg 10 IsPrinting (inl (refl, (refl, tt)))

    get_plugins-nick :
        (depth : ℕ) (e : Surroundings) (srv : ℕ) (n : Bytes) (m : ℕ) (mask : Bytes) (t : ℕ)
        (target : Bytes) (c : ℕ) (word : Bytes) (now : Bots) (v : Server)
        → IsWord is_space n
        → IsWord is_bang n
        → IsWord is_space (m ∷ mask)
        → IsWord is_space (t ∷ target)
        → IsWord is_space (c ∷ word)
        → length word < 500
        → ((k : ℕ) → k + 1 ≤ e.room k)
        → let line = nick_line n (m ∷ mask) (t ∷ target) c word in
          length line + 1 ≤ e.room 1024
          → now.index_list ≡ loaded.index_list
          → find_server srv now.world.servers ≡ some v
          → (v.motd_sent == 0) ≡ false
          → (h' : Bots) × (v' : Server) × (line_received
                (call_plugin (suc (suc depth)) e)
                e.net
                srv
                line
                now
              ≡ done bcirc_plugin_ok h')
            × (h'.world.wire ≡ now.world.wire ++ (v.s, nick_text (c ∷ word)) ∷ [])
            × (find_server srv h'.world.servers ≡ some v')
            × (v'.nick ≡ c ∷ word)
            × (h'.index_list ≡ now.index_list)
    get_plugins-nick depth e srv n m mask t target c word now v nick_word nick_plain mask_word
          target_word plain short spare fits same found welcome =
        let (sends, announced) =
          unheard q dl_open dir autojoin channel core events logger nick h plugins fresh in
        line_received-nick depth e srv n m mask t target c word nick_word nick_plain mask_word
          target_word plain short spare fits now v
          (subst (λ i. HasOne 5 IsPassing (functions callback_server_recv i)) (sym same) line_heard)
          (subst (λ i. HasOne 10 IsPrinting (functions callback_got_privmsg i)) (sym same)
            message_heard)
          (ap (get_cb_index callback_server_send) same ∙ sends)
          (ap (get_cb_index callback_callbacks_executed) same ∙ announced) found welcome

    -- A bot that started with an empty index and loaded the plugins core, events-handler,
    -- channel-handler, logger, nick and autojoin by get_plugins, in whatever order `qsort` leaves
    -- their callbacks: as long as the index is the one loaded, a chunk that is the message `!nick`
    -- and a word, behind its sender, its target and PRIVMSG, with a line end, for a server that
    -- has welcomed the bot, hands exactly one text to the server's socket, the NICK command for
    -- the word, and the word is stored as the server's nick. The bytes of the sender, the target
    -- and the word are printable and no percent signs, the sender's nick has no exclamation mark,
    -- the line has less than 510 bytes, and its copies have room.
    pub recv_chunk-nick :
        (depth : ℕ) (e : Surroundings) (srv : ℕ) (n : Bytes) (m : ℕ) (mask : Bytes) (t : ℕ)
        (target : Bytes) (c : ℕ) (word : Bytes) (now : Bots) (v : Server)
        → All IsVisible n
        → IsWord is_bang n
        → All IsVisible (m ∷ mask)
        → All IsVisible (t ∷ target)
        → All IsVisible (c ∷ word)
        → let line = nick_line n (m ∷ mask) (t ∷ target) c word in
          length line < 510
          → ((k : ℕ) → k + 1 ≤ e.room k)
          → now.index_list ≡ loaded.index_list
          → find_server srv now.world.servers ≡ some v
          → (v.motd_sent == 0) ≡ false
          → (h' : Bots) × (v' : Server) × (recv_chunk
                (call_plugin (suc (suc depth)) e)
                e.net
                srv
                (line ++ codes "\r\n")
                now
              ≡ done (pos 0) h')
            × (h'.world.wire ≡ now.world.wire ++ (v.s, nick_text (c ∷ word)) ∷ [])
            × (find_server srv h'.world.servers ≡ some v')
            × (v'.nick ≡ c ∷ word)
            × (h'.index_list ≡ now.index_list)
    recv_chunk-nick depth e srv n m mask t target c word now v nick_visible nick_plain mask_visible
          target_visible word_visible short spare same found welcome =
        let (nick_text', nick_word) = visible-IsText n nick_visible in
        let (mask_text, mask_word) = visible-IsText (m ∷ mask) mask_visible in
        let (target_text, target_word) = visible-IsText (t ∷ target) target_visible in
        let (text, plain) = visible-IsText (c ∷ word) word_visible in
        let sender : Bytes = n ++ b'!' ∷ m ∷ mask in
        let rest : Bytes = b' ' ∷ command (nick_message c word) (t ∷ target) in
        let line : Bytes = nick_line n (m ∷ mask) (t ∷ target) c word in
        let call = call_plugin (suc (suc depth)) e in
        let (chunk, (count, counted_server), index) =
          recv_chunk-one_line call e.net srv b':' (sender ++ rest) now v
            (nick_line-IsText n m mask t target c word nick_text' mask_text target_text text) short
            found in
        let (h', v', answered, sent, found', nick', kept) =
          get_plugins-nick depth e srv n m mask t target c word
            (counted srv ((line ++ 13 ∷ []) ++ 10 ∷ []) now) (record v { recvd_len = count })
            nick_word nick_plain mask_word target_word plain
            (omega (
              arith,
              short,
              length-append (b':' ∷ sender) rest,
              length-append (t ∷ target) (b' ' ∷ b':' ∷ nick_message c word),
            ))
            spare (omega (arith, short, spare 1024)) (index ∙ same) counted_server welcome in
        (
          h',
          v',
          chunk ∙ ap (λ (r : Run Bot). then_run r (λ res after. done (pos 0) after)) answered,
          sent,
          found',
          nick',
          kept ∙ index,
        )
