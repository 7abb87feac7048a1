-- ===== src/Dispatch/Startup/Received.antt =====
-- From the bytes that recv() gives in src/server.c to the answer of plugins/src/core/core.c.
use bcirc.Base.{
  ℕ, suc, ◌+◌, ◌≤◌, ◌<◌, Bytes, codes, [], ◌∷◌, ◌++◌, map, Option, none, some, ◌≡◌, refl, ap, ◌∙◌,
  pos, All, length, strstr,
}
use bcirc.PluginHandler.Index.{Qsort, init_index}
use bcirc.PluginHandler.Execute.{Run, done}
use bcirc.PluginHandler.Load.{SharedObject, DirEntry, get_plugins}
use bcirc.PluginHandler.Load.Directory.{IsPlugin}
use bcirc.Server.{Server, Bot, Bots, find_server, then_run}
use bcirc.Server.Receive.{recv_chunk}
use bcirc.Server.Receive.Chunk.{counted}
use bcirc.Events.{privmsg_word}
use bcirc.Dispatch.{Surroundings, call_plugin}
use bcirc.Dispatch.Ping.{IsPassedOver, ping_line}
use bcirc.Dispatch.Startup.{installed}
use bcirc.Dispatch.Startup.OneLine.{IsText, IsVisible, visible-IsText, recv_chunk-one_line}
use bcirc.Dispatch.Startup.Answer.{get_plugins-ping}

module _ (q : Qsort) (dl_open : Bytes → Option (SharedObject Bot)) (dir : Bytes)
    (autojoin channel core events logger nick : DirEntry) (h : Bots)
    (plugins : All (IsPlugin q dl_open dir) (installed autojoin channel core events logger nick))
    (fresh : h.index_list ≡ init_index) where
  abbrev loaded : Bots
  loaded =
      (get_plugins dl_open dir
        (some (map (λ f. f.0) (installed autojoin channel core events logger nick))) h).1

  -- A bot that started with an empty index and loaded the plugins core, events-handler,
  -- channel-handler, logger, nick and autojoin by get_plugins, in whatever order `qsort` leaves
  -- their callbacks: as long as the index is the one loaded, a chunk "PING :", a word and a line
  -- end, for a server that exists, is answered by exactly one text to the server's socket, the
  -- same word behind "PONG :". The bytes of the word are printable and no percent signs, there is
  -- no "PRIVMSG" in the line, the line has less than 510 bytes, and its copies have room; it is
  -- short or the server has welcomed the bot.
  pub recv_chunk-ping :
      (depth : ℕ) (e : Surroundings) (srv c : ℕ) (host : Bytes) (now : Bots) (v : Server)
      → All IsVisible (c ∷ host)
      → length (ping_line c host) + 1 ≤ e.room 1024
      → length (ping_line c host) < 510
      → strstr (ping_line c host) privmsg_word ≡ none
      → length (ping_line c host) + 1 ≤ e.room (length (ping_line c host))
      → now.index_list ≡ loaded.index_list
      → find_server srv now.world.servers ≡ some v
      → IsPassedOver c host v
      → (h' : Bots) × (recv_chunk
            (call_plugin (suc depth) e)
            e.net
            srv
            (ping_line c host ++ codes "\r\n")
            now
          ≡ done (pos 0) h')
        × (h'.world.wire
            ≡ now.world.wire ++ (v.s, codes "PONG :" ++ ((c ∷ host) ++ codes "\r\n")) ∷ [])
        × (h'.index_list ≡ now.index_list)
  recv_chunk-ping depth e srv c host now v visible fits short other spare same found passed =
      let line : Bytes = ping_line c host in
      let (text, word) = visible-IsText (c ∷ host) visible in
      let printable : All IsText line = (
        (refl, refl),
        ((refl, refl), ((refl, refl), ((refl, refl), ((refl, refl), ((refl, refl), text))))),
      ) in
      let start : Bots = counted srv ((line ++ 13 ∷ []) ++ 10 ∷ []) now in
      let (chunk, (count, counted_server), index) =
        recv_chunk-one_line (call_plugin (suc depth) e) e.net srv b'P' (codes "ING :" ++ c ∷ host)
          now v printable short found in
      let (h', answered, sent, kept) =
        get_plugins-ping q dl_open dir autojoin channel core events logger nick h plugins fresh
          depth e srv c host start (record v { recvd_len = count }) fits word other spare
          (index ∙ same) counted_server passed in
      (
        h',
        chunk ∙ ap (λ (r : Run Bot). then_run r (λ res after. done (pos 0) after)) answered,
        sent,
        kept ∙ index,
      )
