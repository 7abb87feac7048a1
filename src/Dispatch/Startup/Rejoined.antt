-- ===== src/Dispatch/Startup/Rejoined.antt =====
-- try_rejoin of plugins/src/core/core.c on a bot whose plugins get_plugins of src/plugin_handler.c has
-- loaded: connecting again runs the callbacks that log in.
use bcirc.Base.{
  ℕ, suc, ◌+◌, ◌≤◌, Bytes, List, [], ◌∷◌, ◌++◌, map, keep, Option, some, ◌≡◌, refl, ap, ◌∙◌, ℤ, pos,
  All, length,
}
use bcirc.PluginHandler.Index.{Qsort, init_index}
use bcirc.PluginHandler.Execute.{Run, done}
use bcirc.PluginHandler.Load.{SharedObject, DirEntry, get_plugins}
use bcirc.PluginHandler.Load.Directory.{IsPlugin}
use bcirc.Server.{Server, Bot, Bots, Sockets, find_server, set_server, then_run}
use bcirc.Server.Connection.{with_server_found}
use bcirc.Server.Connecting.{find_server-set_server, IsReachable, IsUnreachable}
use bcirc.Server.Places.{find_server-SamePlaces}
use bcirc.Server.Pool.{other_server, add_to_serverpool, remove_from_serverpool}
use bcirc.IrcCmds.{nick_text}
use bcirc.Core.{pass_text, user_text}
use bcirc.Core.Rejoin.{connect_loop, try_rejoin}
use bcirc.Core.Rejoin.Attempts.{go_on, connect_loop-IsUnreachable}
use bcirc.Dispatch.{Surroundings, call_plugin}
use bcirc.Dispatch.Startup.{installed}
use bcirc.Dispatch.Startup.Connected.{server_connect-log_in}

module _ (q : Qsort) (dl_open : Bytes → Option (SharedObject Bot)) (dir : Bytes)
    (autojoin channel core events logger nick : DirEntry) (h : Bots)
    (plugins : All (IsPlugin q dl_open dir) (installed autojoin channel core events logger nick))
    (fresh : h.index_list ≡ init_index) where
  abbrev loaded : Bots
  loaded =
      (get_plugins dl_open dir
        (some (map (λ f. f.0) (installed autojoin channel core events logger nick))) h).1

  -- A bot that started with an empty index and loaded the plugins core, events-handler,
  -- channel-handler, logger, nick and autojoin by get_plugins, in whatever order `qsort` leaves
  -- their callbacks: as long as the index is the one loaded, after any number of attempts to
  -- connect to a server that fail, one that succeeds ends try_rejoin. It has then sent exactly
  -- PASS, USER and NICK, with the server's values, to one socket; the server is in the pool once,
  -- behind the others, and a thread for it has been started; it counts as welcomed and has no
  -- failed attempts. For each attempt an address is found, the texts fit in their buffers, and
  -- pthread_create succeeds; what other threads do meanwhile is left out.
  pub try_rejoin-log_in :
      (depth : ℕ) (e : Surroundings) (srv : ℕ) (fails rest : List Sockets) (now : Bots) (v : Server)
      → ((n : ℕ) → n ≤ e.room n)
      → now.index_list ≡ loaded.index_list
      → find_server srv now.world.servers ≡ some v
      → All IsUnreachable fails
      → IsReachable e.net
      → length (pass_text v.pass) + 1 ≤ 512
      → length (user_text v.realname v.username) + 1 ≤ 512
      → (h' : Bots) × (v' : Server) × (sock : ℤ) × (try_rejoin
            (call_plugin (suc depth) e)
            0
            (fails ++ e.net ∷ rest)
            srv
            now
          ≡ done (pos 0) h')
        × (h'.world.wire
            ≡ now.world.wire
              ++ (sock, pass_text v.pass)
                ∷ (sock, user_text v.realname v.username)
                ∷ (sock, nick_text v.nick)
                ∷ [])
        × (h'.world.server_list ≡ keep (other_server srv) now.world.server_list ++ srv ∷ [])
        × (h'.world.threads ≡ now.world.threads ++ srv ∷ [])
        × (find_server srv h'.world.servers ≡ some v')
        × (v'.motd_sent ≡ 1)
        × (v'.rejoin_tries ≡ 0)
  unfolding try_rejoin connect_loop remove_from_serverpool add_to_serverpool
  try_rejoin-log_in depth e srv fails rest now v enough same found down up short short' =
      let call = call_plugin (suc depth) e in
      let counted : Server → Server = λ u. record u { rejoin_tries = suc u.rejoin_tries } in
      let start : Bots = (remove_from_serverpool (some srv) (set_server now srv counted)).1 in
      let (h1, old, failed, there, wire, kept) =
        connect_loop-IsUnreachable call 0 srv fails (e.net ∷ rest) start (counted v)
          (find_server-set_server srv now v counted (λ u. refl) found) down in
      let v1 : Server = record v { rejoin_tries = suc v.rejoin_tries; s = old } in
      let (known, made, joined) = up v1 in
      let (h2, connected, sent, kept') =
        server_connect-log_in q dl_open dir autojoin channel core events logger nick h plugins fresh
          depth e srv h1 v1 enough (kept.index ∙ same) there known made joined short short' in
      let (v2, there') = find_server-SamePlaces srv h1 h2 v1 kept' there in
      let log_in = λ (w : List (ℤ × Bytes)).
        w
        ++ (e.net.socket v1, pass_text v.pass)
          ∷ (e.net.socket v1, user_text v.realname v.username)
          ∷ (e.net.socket v1, nick_text v.nick)
          ∷ [] in
      (
        _,
        _,
        e.net.socket v1,
        with_server_found srv now _ found
            ∙ (failed ∙ ap (λ (r : Run Bot). then_run r (go_on call 0 srv rest)) connected),
        sent ∙ ap log_in wire,
        ap (λ (l : List ℕ). l ++ srv ∷ []) (kept'.pool ∙ kept.pool),
        ap (λ (l : List ℕ). l ++ srv ∷ []) (kept'.started ∙ kept.started),
        find_server-set_server srv h2 v2 (λ u. record u { motd_sent = 1; rejoin_tries = 0 })
            (λ u. refl) there',
        refl,
        refl,
      )
