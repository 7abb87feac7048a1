-- ===== src/Dispatch/ScriptEvents.antt =====
-- From execute_callbacks (src/plugin_handler.c) to the functions of Python scripts
-- (plugins/src/python/pymain.c), by way of the announcement of each event.
pub mod Hearing
mod Tests
use bcirc.Base.{
  ℕ, suc, ◌≤◌, Bytes, List, [], ◌∷◌, ◌++◌, some, ◌≡◌, refl, sym, subst, ap, ◌∙◌, inl, false, take,
  str_eq,
}
use bcirc.PluginHandler.{Arg, Params, params, announced, Callback, bcirc_plugin_ok}
use bcirc.PluginHandler.Index.{get_cb_index, callbacks_for}
use bcirc.PluginHandler.Names.{callback_callbacks_executed}
use bcirc.PluginHandler.Execute.{done, execute_callbacks}
use bcirc.PluginHandler.Execute.Rounds.{IsQuiet, IsQuiet-cons, run_all}
use bcirc.PluginHandler.Execute.Order.{execute_callbacks-quiet}
use bcirc.Scripts.{functions_for, rounds_needed, IsValid}
use bcirc.Server.{Bots}
use bcirc.Python.Events.Steady.{AreSteady, run_functions, run_functions_same}
use bcirc.Python.Events.{py_execute_callbacks-functions_for}
use bcirc.PluginHandler.{Plugin}
use bcirc.Dispatch.{Surroundings, call_plugin}

module _ (depth : ℕ) (e : Surroundings) where
  -- The announcement of an event to the plugin for scripts, as a call through its pointer.
  announce-scripts :
      (name : Bytes) (args : Params) (f : ℕ) (h : Bots)
      → f ≡ 18
      → IsValid e.python.callable h.world.scripts
      → AreSteady
          (call_plugin depth e)
          e.python
          (take args.argc args.array)
          (functions_for name h.world.scripts)
          h
      → rounds_needed h.world.scripts ≤ e.script_rounds
      → call_plugin (suc depth) e f (announced name args) h
        ≡ done bcirc_plugin_ok (
            run_functions
              (call_plugin depth e)
              e.python
              (take args.argc args.array)
              (functions_for name h.world.scripts)
              h)
  unfolding call_plugin
  announce-scripts name args f h is_scripts valid steady enough =
      ap (λ g. call_plugin (suc depth) e g (announced name args) h) is_scripts
      ∙ py_execute_callbacks-functions_for (call_plugin depth e) e.python e.script_rounds name
          (take args.argc args.array) h valid steady enough

  -- An event that the index knows, whose callbacks return OK or CONTINUE and leave the index alone,
  -- where the plugin for scripts is the only one that hears of callbacks executed: behind those
  -- callbacks, the functions that the scripts registered for the event are called once each, in the
  -- order of the scripts and of registering, with the event's arguments; execute_callbacks returns OK.
  -- The scripts are valid then, each function returns and leaves the scripts and the index alone, and
  -- there are enough rounds for the plugin's loops.
  pub execute_callbacks-functions_for :
      (name : Bytes) (point : ℕ) (args : Params) (h h' : Bots) (cb : Callback)
      → get_cb_index name h.index_list ≡ some point
      → str_eq name callback_callbacks_executed ≡ false
      → IsQuiet (call_plugin (suc depth) e) args (callbacks_for name h.index_list) h
      → run_all (call_plugin (suc depth) e) args (callbacks_for name h.index_list) h ≡ h'
      → callbacks_for callback_callbacks_executed h.index_list ≡ cb ∷ []
      → cb.cb_func ≡ 18
      → IsValid e.python.callable h'.world.scripts
      → AreSteady
          (call_plugin depth e)
          e.python
          (take args.argc args.array)
          (functions_for name h'.world.scripts)
          h'
      → rounds_needed h'.world.scripts ≤ e.script_rounds
      → execute_callbacks (call_plugin (suc depth) e) name args h
        ≡ done bcirc_plugin_ok (
            run_functions
              (call_plugin depth e)
              e.python
              (take args.argc args.array)
              (functions_for name h'.world.scripts)
              h')
  execute_callbacks-functions_for name point args h h' cb found plain quiet ran alone is_scripts
        valid steady enough =
      let end : Bots =
        run_functions (call_plugin depth e) e.python (take args.argc args.array)
          (functions_for name h'.world.scripts) h' in
      let (scripts, index) =
        run_functions_same (call_plugin depth e) e.python (take args.argc args.array)
          (functions_for name h'.world.scripts) h' steady in
      let (told, run) =
        IsQuiet-cons (call_plugin (suc depth) e) (announced name args) cb [] h' end bcirc_plugin_ok
          (announce-scripts name args cb.cb_func h' is_scripts valid steady enough) (inl refl) index
          tt in
      execute_callbacks-quiet (call_plugin (suc depth) e) name point args h found plain quiet (
        subst
          (λ cs.
            IsQuiet (call_plugin (suc depth) e) (announced name args) cs
              (run_all (call_plugin (suc depth) e) args (callbacks_for name h.index_list) h))
          (sym alone)
          (subst (IsQuiet (call_plugin (suc depth) e) (announced name args) (cb ∷ [])) (sym ran)
            told))
      ∙ (ap
            (λ cs. done bcirc_plugin_ok (
              run_all (call_plugin (suc depth) e) (announced name args) cs
                (run_all (call_plugin (suc depth) e) args (callbacks_for name h.index_list) h)))
            alone
          ∙ (ap
                (λ b.
                  done bcirc_plugin_ok
                    (run_all (call_plugin (suc depth) e) (announced name args) (cb ∷ []) b))
                ran
              ∙ ap (done bcirc_plugin_ok) run))
