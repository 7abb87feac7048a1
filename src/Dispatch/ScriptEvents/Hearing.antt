-- ===== src/Dispatch/ScriptEvents/Hearing.antt =====
-- From plugin_init of plugins/src/python/pymain.c to the functions that are called for an event.
use mathlib.Core.List.Permᴰ
use bcirc.Base.{
  ℕ, suc, ◌≤◌, Bytes, List, [], ◌∷◌, map, some, ◌≡◌, refl, sym, subst, ap, ◌∙◌, ℤ, false, All, take,
  str_eq,
}
use bcirc.PluginHandler.{Params, Plugin, Callback, bcirc_plugin_ok}
use bcirc.PluginHandler.Index.{Qsort, get_cb_index, callbacks_for}
use bcirc.PluginHandler.Names.{callback_callbacks_executed}
use bcirc.PluginHandler.Execute.{done, execute_callbacks}
use bcirc.PluginHandler.Execute.Rounds.{IsQuiet, run_all}
use bcirc.PluginHandler.Load.Startup.{
  functions, register_all, register_all_returns, register_all_world, register_all_reaches,
}
use bcirc.Scripts.{functions_for, rounds_needed, IsValid}
use bcirc.Scripts.Validity.{AllBelow}
use bcirc.Server.{Bot, Bots}
use bcirc.Python.{without_scripts, python_callbacks, registered_init, python_init}
use bcirc.Python.Events.Steady.{AreSteady, run_functions}
use bcirc.Python.Loading.{
  ScriptFile, IsScript, with_scripts, file_functions, load_script_dir-functions_for,
}
use bcirc.Dispatch.{Surroundings, call_plugin}
use bcirc.Dispatch.Startup.Connected.{IsOne, IsOne-perm, only_callback}
use bcirc.Dispatch.ScriptEvents.{execute_callbacks-functions_for}

module _ (q : Qsort) (depth : ℕ) (e : Surroundings) (fs : List ScriptFile) (p : Plugin)
    (h : Bots) where
  -- The plugin, and the state, behind its plugin_init.
  abbrev pub python_state : ℤ × Plugin × Bots
  python_state =
      register_all q (python_callbacks 18) p
        (with_scripts (call_plugin depth e) e.python e.room fs (without_scripts h))

  abbrev pub with_python : Bots
  with_python = python_state.2

  python_reached :
      functions callback_callbacks_executed h.index_list ≡ []
      → (with_scripts (call_plugin depth e) e.python e.room fs (without_scripts h)).index_list
        ≡ h.index_list
      → (cb : Callback) × (callbacks_for callback_callbacks_executed with_python.index_list
          ≡ cb ∷ [])
        × (cb.cb_func ≡ 18)
  python_reached nobody index =
      let reaches =
        register_all_reaches q callback_callbacks_executed (python_callbacks 18) p
          (with_scripts (call_plugin depth e) e.python e.room fs (without_scripts h)) in
      only_callback 18 (callbacks_for callback_callbacks_executed with_python.index_list) (
        IsOne-perm 18 (Permᴰ.symm reaches) (
          subst (λ gs. IsOne 18 (18 ∷ gs))
            (sym (ap (functions callback_callbacks_executed) index ∙ nobody)) (refl, tt)))

  -- Nothing hears of callbacks executed, no object stands at the next address or behind it, and the
  -- 8 bytes asked for a script's object are 60 in fact: then the plugin for scripts, whose directory
  -- holds scripts that register themselves, is initialised and returns OK. As long as the scripts and
  -- the index are as it left them, each event that the index knows, and whose callbacks return OK or
  -- CONTINUE and leave the index alone, then reaches the functions that the files registered for it:
  -- once each, in the order of the directory and of registering, with the event's arguments, and
  -- execute_callbacks returns OK. Each function returns and leaves the scripts and the index alone, and
  -- there are enough rounds for the plugin's loops.
  python_init-execute_callbacks :
      (name : Bytes) (point : ℕ) (args : Params) (now now' : Bots)
      → 60 ≤ e.room 8
      → All (IsScript (call_plugin depth e) e.python e.room) fs
      → AllBelow h.next_addr h.world.scripts.objects
      → functions callback_callbacks_executed h.index_list ≡ []
      → now.index_list ≡ with_python.index_list
      → get_cb_index name now.index_list ≡ some point
      → str_eq name callback_callbacks_executed ≡ false
      → IsQuiet (call_plugin (suc depth) e) args (callbacks_for name now.index_list) now
      → run_all (call_plugin (suc depth) e) args (callbacks_for name now.index_list) now ≡ now'
      → now'.world.scripts ≡ with_python.world.scripts
      → AreSteady
          (call_plugin depth e)
          e.python
          (take args.argc args.array)
          (file_functions name fs)
          now'
      → rounds_needed with_python.world.scripts ≤ e.script_rounds
      → (python_init
            (call_plugin depth e)
            e.python
            e.room
            q
            18
            (some (some (map (λ (f : ScriptFile). f.entry) fs)))
            p
            h
          ≡ some (bcirc_plugin_ok, python_state.1, with_python))
        × (execute_callbacks (call_plugin (suc depth) e) name args now
            ≡ done bcirc_plugin_ok (
                run_functions
                  (call_plugin depth e)
                  e.python
                  (take args.argc args.array)
                  (file_functions name fs)
                  now'))
  unfolding python_init
  python_init-execute_callbacks name point args now now' enough scripts below nobody same found
        plain quiet ran unchanged steady rounds =
      let loaded : Bots =
        with_scripts (call_plugin depth e) e.python e.room fs (without_scripts h) in
      let (loads, registered, valid, index) =
        load_script_dir-functions_for (call_plugin depth e) e.python e.room fs (without_scripts h)
          enough scripts (record { objects_below = below; listed_below = tt }) tt in
      let (cb, alone, is_scripts) = python_reached nobody index in
      let world : with_python.world.scripts ≡ loaded.world.scripts =
        ap (λ (b : Bot). b.scripts) (register_all_world q (python_callbacks 18) p loaded) in
      let now_loaded : now'.world.scripts ≡ loaded.world.scripts = unchanged ∙ world in
      let heard : functions_for name now'.world.scripts ≡ file_functions name fs =
        ap (functions_for name) now_loaded ∙ registered name in
      (
        ap (registered_init q 18 p) loads
            ∙ ap (λ res. some (res, python_state.1, with_python))
                (register_all_returns q (python_callbacks 18) p loaded),
        execute_callbacks-functions_for depth e name point args now now' cb found plain quiet ran
              (ap (callbacks_for callback_callbacks_executed) same ∙ alone) is_scripts
              (subst (IsValid e.python.callable) (sym now_loaded) valid)
              (subst
                (λ gs. AreSteady (call_plugin depth e) e.python (take args.argc args.array) gs now')
                (sym heard) steady)
              (subst (λ ss. rounds_needed ss ≤ e.script_rounds) (sym unchanged) rounds)
            ∙ ap
                (λ gs. done bcirc_plugin_ok (
                  run_functions (call_plugin depth e) e.python (take args.argc args.array) gs now'))
                heard,
      )
