-- ===== src/Dispatch/Startup/Connected.antt =====
-- From connect() in src/server.c to the log-in of plugins/src/core/core.c.
use mathlib.Core.List.{Permᴰ}
use mathlib.Core.List.Permᴰ
use bcirc.Base.{
  ℕ, suc, ◌+◌, ◌≤◌, Bytes, List, [], ◌∷◌, ◌++◌, map, Option, some, ◌≡◌, refl, sym, subst, ap, ◌∙◌,
  inl, inr, pos, negsuc, ◌==ℤ◌, true, false, All, length, Option-cases,
}
use bcirc.PluginHandler.{Arg, Params, params, Callback, bcirc_plugin_ok}
use bcirc.PluginHandler.Index.{Qsort, init_index, get_cb_index, callbacks_for}
use bcirc.PluginHandler.Index.Content.{callbacks_for-none}
use bcirc.PluginHandler.Names.{
  callback_server_connected, callback_server_send, callback_callbacks_executed,
}
use bcirc.PluginHandler.Execute.{done, execute_callbacks}
use bcirc.PluginHandler.Execute.Rounds.{IsQuiet-cons}
use bcirc.PluginHandler.Execute.Order.{execute_callbacks-unannounced}
use bcirc.PluginHandler.Load.{SharedObject, DirEntry, get_plugins}
use bcirc.PluginHandler.Load.Startup.{functions}
use bcirc.PluginHandler.Load.Directory.{IsPlugin, get_plugins_reaches}
use bcirc.Server.{Server, Bot, Bots, find_server, set_server, server_connect}
use bcirc.Server.Connection.{set_server_found, with_server_found}
use bcirc.IrcCmds.{nick_text}
use bcirc.Core.{pass_text, user_text}
use bcirc.Core.Registration.{handle_registeration_lem}
use bcirc.Core.Registration.Keeping.{handle_registeration-Keeps}
use bcirc.Server.Places.{SamePlaces, Keeps, SamePlaces-trans, set_server-SamePlaces}
use bcirc.Dispatch.{Surroundings, call_plugin}
use bcirc.Dispatch.Startup.{installed}
use bcirc.Dispatch.Startup.Answer.{unheard, unknown_before, sends_unheard}

-- Nothing; one element, which is this.
abbrev pub IsNothing : List ℕ → Type 0
IsNothing [] = Unit
IsNothing (f ∷ fs) = ⊥

abbrev pub IsOne : ℕ → List ℕ → Type 0
IsOne f [] = ⊥
IsOne f (g ∷ gs) = (g ≡ f) × IsNothing gs

IsNothing-perm : {xs ys : List ℕ} → Permᴰ xs ys → IsNothing xs → IsNothing ys
IsNothing-perm Permᴰ.nil h = h
IsNothing-perm (Permᴰ.cons e p) h = absurd h
IsNothing-perm (Permᴰ.swap e f) h = absurd h
IsNothing-perm (Permᴰ.trans p r) h = IsNothing-perm r (IsNothing-perm p h)

pub IsOne-perm : (f : ℕ) {xs ys : List ℕ} → Permᴰ xs ys → IsOne f xs → IsOne f ys
IsOne-perm n Permᴰ.nil h = h
IsOne-perm n (Permᴰ.cons e p) h = (sym e ∙ h.0, IsNothing-perm p h.1)
IsOne-perm n (Permᴰ.swap e f) h = absurd h.1
IsOne-perm n (Permᴰ.trans p r) h = IsOne-perm n r (IsOne-perm n p h)

pub only_callback :
    (f : ℕ) (cs : List Callback)
    → IsOne f (map (λ c. c.cb_func) cs)
    → (cb : Callback) × (cs ≡ cb ∷ []) × (cb.cb_func ≡ f)
only_callback f [] h = absurd h
only_callback f (c ∷ []) h = (c, refl, h.0)
only_callback f (c ∷ d ∷ cs) h = absurd h.1

module _ (q : Qsort) (dl_open : Bytes → Option (SharedObject Bot)) (dir : Bytes)
    (autojoin channel core events logger nick : DirEntry) (h : Bots)
    (plugins : All (IsPlugin q dl_open dir) (installed autojoin channel core events logger nick))
    (fresh : h.index_list ≡ init_index) where
  abbrev loaded : Bots
  loaded =
      (get_plugins dl_open dir
        (some (map (λ f. f.0) (installed autojoin channel core events logger nick))) h).1

  log_in_reached : IsOne 2 (functions callback_server_connected loaded.index_list)
  unfolding init_index callbacks_for
  log_in_reached =
      let reached =
        (get_plugins_reaches q dl_open dir callback_server_connected callback_server_send
          (installed autojoin channel core events logger nick) h plugins
          (sends_unheard q dl_open dir autojoin channel core events logger nick h plugins fresh)
          (unknown_before q dl_open dir autojoin channel core events logger nick h plugins fresh
            callback_server_send)).0 in
      IsOne-perm 2 (Permᴰ.symm reached) (rw fresh (refl, tt))

  log_in_known :
      (cb : Callback)
      → callbacks_for callback_server_connected loaded.index_list ≡ cb ∷ []
      → (point : ℕ) × (get_cb_index callback_server_connected loaded.index_list ≡ some point)
  log_in_known cb listed =
      elim (Option-cases (get_cb_index callback_server_connected loaded.index_list)) [
        | inl absent ↦ absurd (
            subst (λ (ds : List Callback). IsNothing (map (λ c. c.cb_func) ds))
              (sym (callbacks_for-none callback_server_connected loaded.index_list absent) ∙ listed)
              tt)
        | inr found ↦ found
      ]

  -- The callbacks of a new connection, on a state with the index that was loaded.
  connected_logs_in :
      (depth : ℕ) (e : Surroundings) (srv : ℕ) (now : Bots) (v : Server)
      → ((n : ℕ) → n ≤ e.room n)
      → now.index_list ≡ loaded.index_list
      → find_server srv now.world.servers ≡ some v
      → length (pass_text v.pass) + 1 ≤ 512
      → length (user_text v.realname v.username) + 1 ≤ 512
      → (h' : Bots) × (execute_callbacks
            (call_plugin (suc depth) e)
            callback_server_connected
            (params (Arg.srv srv ∷ []))
            now
          ≡ done bcirc_plugin_ok h')
        × (h'.world.wire
            ≡ now.world.wire
              ++ (v.s, pass_text v.pass)
                ∷ (v.s, user_text v.realname v.username)
                ∷ (v.s, nick_text v.nick)
                ∷ [])
        × SamePlaces now h'
  unfolding call_plugin
  connected_logs_in depth e srv now v enough same found short short' =
      let (cb, alone, is_log_in) =
        only_callback 2 (callbacks_for callback_server_connected loaded.index_list)
          log_in_reached in
      let (point, known) = log_in_known cb alone in
      let (silent, unannounced) =
        unheard q dl_open dir autojoin channel core events logger nick h plugins fresh in
      let args : Params = params (Arg.srv srv ∷ []) in
      let (h', logged_in, wire, index) =
        handle_registeration_lem (call_plugin depth e) e.net e.room e.reprint e.time_now srv now v
          enough (ap (get_cb_index callback_server_send) same ∙ silent) found short short' in
      let kept : SamePlaces now h' = subst (Keeps now) logged_in (
        handle_registeration-Keeps (call_plugin depth e) e.net e.room e.reprint e.time_now srv now
          (ap (get_cb_index callback_server_send) same ∙ silent)) in
      let called : call_plugin (suc depth) e cb.cb_func args now ≡ done bcirc_plugin_ok h' =
        ap (λ f. call_plugin (suc depth) e f args now) is_log_in ∙ logged_in in
      let (quiet, run) =
        IsQuiet-cons (call_plugin (suc depth) e) args cb [] now h' bcirc_plugin_ok called (inl refl)
          index tt in
      (
        h',
        execute_callbacks-unannounced (call_plugin (suc depth) e) callback_server_connected point
              args (cb ∷ []) now (ap (get_cb_index callback_server_connected) same ∙ known) refl
              (ap (callbacks_for callback_server_connected) same ∙ alone)
              (ap (get_cb_index callback_callbacks_executed) same ∙ unannounced) quiet
            ∙ ap (λ (end : Bots). done bcirc_plugin_ok end) run,
        wire,
        kept,
      )

  -- A bot that started with an empty index and loaded the plugins core, events-handler,
  -- channel-handler, logger, nick and autojoin by get_plugins, in whatever order `qsort` leaves
  -- their callbacks: as long as the index is the one loaded, a server_connect for which
  -- getaddrinfo(), socket() and connect() succeed hands three commands to the new socket, in this
  -- order: PASS with the password or "asd", USER, and NICK with the server's nick; it returns 1
  -- and leaves the pool, the places of the servers and the index alone. The texts fit in their
  -- buffers.
  pub server_connect-log_in :
      (depth : ℕ) (e : Surroundings) (srv : ℕ) (now : Bots) (v : Server)
      → ((n : ℕ) → n ≤ e.room n)
      → now.index_list ≡ loaded.index_list
      → find_server srv now.world.servers ≡ some v
      → e.net.resolve v ≡ true
      → (e.net.socket v ==ℤ negsuc 0) ≡ false
      → (e.net.connect v (e.net.socket v) ==ℤ pos 0) ≡ true
      → length (pass_text v.pass) + 1 ≤ 512
      → length (user_text v.realname v.username) + 1 ≤ 512
      → (h' : Bots) × (server_connect (call_plugin (suc depth) e) e.net srv now ≡ done (pos 1) h')
        × (h'.world.wire
            ≡ now.world.wire
              ++ (e.net.socket v, pass_text v.pass)
                ∷ (e.net.socket v, user_text v.realname v.username)
                ∷ (e.net.socket v, nick_text v.nick)
                ∷ [])
        × SamePlaces now h'
  unfolding server_connect
  server_connect-log_in depth e srv now v enough same found known made joined short short' =
      let opened : Server → Server =
        λ u. record u { s = e.net.socket v; motd_sent = 0; connected = 1 } in
      let (h', ran, wire, kept) =
        connected_logs_in depth e srv (set_server now srv opened) (opened v) enough same
          (set_server_found srv opened now v (λ u. refl) found) short short' in
      (
        h',
        with_server_found srv now _ found ∙ rw known (rw made (rw joined (rw ran refl))),
        wire,
        SamePlaces-trans now (set_server now srv opened) h'
            (set_server-SamePlaces srv opened now (λ u. refl)) kept,
      )
