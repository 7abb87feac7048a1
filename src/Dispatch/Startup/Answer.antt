-- ===== src/Dispatch/Startup/Answer.antt =====
-- The answer to a PING once get_plugins of src/plugin_handler.c has loaded the plugins.
use mathlib.Core.List.Permᴰ
use bcirc.Base.{
  ℕ, suc, ◌+◌, ◌≤◌, Bytes, codes, List, [], ◌∷◌, ◌++◌, map, append-nil, Option, none, some, ◌≡◌,
  refl, sym, subst, ap, ◌∙◌, inl, inr, All, length, strstr, is_space,
}
use bcirc.PluginHandler.{bcirc_plugin_ok}
use bcirc.PluginHandler.Names.{
  callback_server_recv, callback_server_send, callback_callbacks_executed,
}
use bcirc.PluginHandler.Index.{Qsort, init_index, get_cb_index, callbacks_for}
use bcirc.PluginHandler.Execute.{done}
use bcirc.PluginHandler.Load.{SharedObject, DirEntry, get_plugins}
use bcirc.PluginHandler.Load.Startup.{Registration, functions}
use bcirc.PluginHandler.Load.Directory.{IsPlugin, IsSilent, get_plugins_reaches, all_registered}
use bcirc.Server.{Server, Bot, Bots, find_server}
use bcirc.Server.Receive.{line_received}
use bcirc.Events.{privmsg_word}
use bcirc.Events.Words.{IsWord}
use bcirc.Dispatch.{Surroundings, call_plugin}
use bcirc.Dispatch.OneAnswer.{HasOne, HasOne-perm}
use bcirc.Dispatch.Ping.{IsPassedOver, IsReading, ping_line, line_received-ping}
use bcirc.Dispatch.Startup.{installed}

module _ (q : Qsort) (dl_open : Bytes → Option (SharedObject Bot)) (dir : Bytes)
    (autojoin channel core events logger nick : DirEntry) (h : Bots) where
  abbrev files : List (DirEntry × List Registration)
  files = installed autojoin channel core events logger nick

  abbrev loaded : Bots
  loaded = (get_plugins dl_open dir (some (map (λ f. f.0) files)) h).1

  module _ (plugins : All (IsPlugin q dl_open dir) files) (fresh : h.index_list ≡ init_index) where
    pub unknown_before : (name : Bytes) → get_cb_index name h.index_list ≡ none
    unfolding init_index get_cb_index
    unknown_before name = rw fresh refl

    nothing_before : (name : Bytes) → functions name h.index_list ≡ []
    unfolding init_index callbacks_for
    nothing_before name = rw fresh refl

    pub sends_unheard : All (IsSilent callback_server_send) files
    sends_unheard = (
      (refl, tt),
      (
        (refl, (refl, (refl, (refl, tt)))),
        (
          (refl, (refl, (refl, (refl, (refl, tt))))),
          (
            (refl, (refl, (refl, tt))),
            ((refl, (refl, (refl, (refl, (refl, (refl, tt)))))), ((refl, tt), tt)),
          ),
        ),
      ),
    )

    nothing_announced : All (IsSilent callback_callbacks_executed) files
    nothing_announced = (
      (refl, tt),
      (
        (refl, (refl, (refl, (refl, tt)))),
        (
          (refl, (refl, (refl, (refl, (refl, tt))))),
          (
            (refl, (refl, (refl, tt))),
            ((refl, (refl, (refl, (refl, (refl, (refl, tt)))))), ((refl, tt), tt)),
          ),
        ),
      ),
    )

    -- One of the functions that the plugins register for an event acts, and the others read: so it is
    -- with those in the index.
    pub heard :
        (name : Bytes) (k : ℕ) (Reads : ℕ → Type 0)
        → HasOne k Reads (all_registered name files)
        → HasOne k Reads (functions name loaded.index_list)
    heard name k Reads one =
        let reached =
          (get_plugins_reaches q dl_open dir name callback_server_send files h plugins sends_unheard
            (unknown_before callback_server_send)).0 in
        HasOne-perm k Reads (Permᴰ.symm reached)
          (rw (nothing_before name, append-nil (all_registered name files)) one)

    answered : HasOne 0 IsReading (functions callback_server_recv loaded.index_list)
    answered = heard callback_server_recv 0 IsReading (
        inr (
          inr (inr (inr refl)),
          inr (inl refl, inr (inr (inl refl), inr (inr (inr (inl refl)), inl (refl, tt)))),
        ))

    pub unheard :
        (get_cb_index callback_server_send loaded.index_list ≡ none)
        × (get_cb_index callback_callbacks_executed loaded.index_list ≡ none)
    unheard = (
      (get_plugins_reaches q dl_open dir callback_server_recv callback_server_send files h plugins
          sends_unheard (unknown_before callback_server_send)).1,
      (get_plugins_reaches q dl_open dir callback_server_recv callback_callbacks_executed files h
          plugins nothing_announced (unknown_before callback_callbacks_executed)).1,
    )

    -- A bot that started with an empty index and loaded the plugins core, events-handler,
    -- channel-handler, logger, nick and autojoin by get_plugins, in whatever order `qsort` leaves
    -- their callbacks: as long as the index is the one loaded, a line "PING :" with a word behind
    -- it is answered by exactly one text to the server's socket, the same word behind "PONG :".
    -- The line is short or the server has welcomed the bot, there is no "PRIVMSG" in it, and its
    -- copies have room.
    pub get_plugins-ping :
        (depth : ℕ) (e : Surroundings) (srv c : ℕ) (host : Bytes) (now : Bots) (v : Server)
        → length (ping_line c host) + 1 ≤ e.room 1024
        → IsWord is_space (c ∷ host)
        → strstr (ping_line c host) privmsg_word ≡ none
        → length (ping_line c host) + 1 ≤ e.room (length (ping_line c host))
        → now.index_list ≡ loaded.index_list
        → find_server srv now.world.servers ≡ some v
        → IsPassedOver c host v
        → (h' : Bots) × (line_received (call_plugin (suc depth) e) e.net srv (ping_line c host) now
            ≡ done bcirc_plugin_ok h')
          × (h'.world.wire
              ≡ now.world.wire ++ (v.s, codes "PONG :" ++ ((c ∷ host) ++ codes "\r\n")) ∷ [])
          × (h'.index_list ≡ now.index_list)
    get_plugins-ping depth e srv c host now v fits plain other spare same found passed =
        line_received-ping depth e srv c host fits plain other spare now v
          (subst (λ i. HasOne 0 IsReading (functions callback_server_recv i)) (sym same) answered)
          (ap (get_cb_index callback_server_send) same ∙ unheard.0)
          (ap (get_cb_index callback_callbacks_executed) same ∙ unheard.1) found passed
