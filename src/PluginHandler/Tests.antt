-- ===== src/PluginHandler/Tests.antt =====
-- The plugin handler at concrete inputs: small runs, and the theorems where their hypotheses hold.
use mathlib.Core.List.{Permᴰ}
use bcirc.Base.{
  ℕ, codes, List, [], ◌∷◌, Option, none, some, ◌≡◌, ◌≢◌, refl, inl, inr, ℤ, pos, negsuc, true,
  false, ◌==◌, keep,
}
use bcirc.PluginHandler.{
  Callback, CallbackIndex, Plugin, PluginStatus, Handler, Params, params, announced,
  bcirc_plugin_ok, bcirc_plugin_continue, bcirc_plugin_break, bcirc_plugin_fail,
}
use bcirc.PluginHandler.Names.{
  callback_server_recv, callback_got_privmsg, callback_callbacks_executed,
}
use bcirc.PluginHandler.Index.{
  callbacks_for, get_cb_index, index_callback, remove_index, other_addr,
}
use bcirc.PluginHandler.Index.Content.{with_added, callbacks_for-index_callback}
use bcirc.PluginHandler.Index.InsertionSort.{insertion_qsort}
use bcirc.PluginHandler.Index.Content.{callbacks_for-remove_index}
use bcirc.PluginHandler.Index.Validity.{IsValid, index_callback-IsValid}
use bcirc.PluginHandler.Registry.{register_callback, remove_plugin}
use bcirc.PluginHandler.Registry.Removal.{owned, none_of, remove_plugin_lem}
use bcirc.PluginHandler.Registry.Registration.{created}
use bcirc.PluginHandler.Execute.{Run, done, spent, react, call_loop, execute, execute_callbacks}
use bcirc.PluginHandler.Execute.Rounds.{run_all}
use bcirc.PluginHandler.Execute.Order.{
  execute_total, execute_callbacks-quiet, execute_callbacks-broken, execute_callbacks-unknown,
}
use bcirc.PluginHandler.Load.{SharedObject, load_plugin}
use bcirc.PluginHandler.Load.Outcomes.{registering, load_plugin_orphan}

abbrev recv_callback : ℕ → ℕ → ℕ → Callback
recv_callback address func prio = record {
  addr = address;
  cb_name = callback_server_recv;
  cb_func = func;
  priority = pos prio;
}

abbrev recv_only : List CallbackIndex
recv_only =
    record {
      cb_name = callback_server_recv;
      callbacks = recv_callback 1 10 3 ∷ recv_callback 2 20 5 ∷ [];
    }
    ∷ []

abbrev small_plugin : ℕ → List Callback → Plugin
small_plugin address cbs = record {
  addr = address;
  handle = 0;
  plugin_name = codes "a";
  plugin_version = codes "1";
  plugin_author = codes "b";
  path = codes "/x.so";
  status = PluginStatus.running;
  callback_list = cbs;
}

-- The world is the list of the functions called, latest first.
abbrev small_handler : Handler (List ℕ)
small_handler = record {
  plugin_list = small_plugin 7 (recv_callback 1 10 3 ∷ []) ∷ [];
  index_list = recv_only;
  next_addr = 9;
  world = [];
}

-- Function 10 answers OK, function 20 CONTINUE, function 30 BREAK, any other FAIL.
abbrev answer : ℕ → ℤ
answer f = elim (f == 10) [
  | true ↦ bcirc_plugin_ok
  | false ↦ elim (f == 20) [
    | true ↦ bcirc_plugin_continue
    | false ↦ elim (f == 30) [ true ↦ bcirc_plugin_break | false ↦ bcirc_plugin_fail ]
  ]
]

abbrev log_call : ℕ → Params → Handler (List ℕ) → Run (List ℕ)
log_call f p h = done (answer f) (record h { world = f ∷ h.world })

runs_in_order :
    execute_callbacks log_call callback_server_recv (params []) small_handler
    ≡ done bcirc_plugin_ok (record small_handler { world = 20 ∷ 10 ∷ [] })
unfolding execute_callbacks call_loop react get_cb_index
runs_in_order = refl

execute_total_example :
    (execute log_call 5 callback_server_recv (params []) small_handler
      ≡ execute_callbacks log_call callback_server_recv (params []) small_handler)
    × (execute_callbacks log_call callback_server_recv (params []) small_handler ≢ spent)
execute_total_example =
    execute_total log_call 3 callback_server_recv (params []) small_handler (λ f p h e. cc)

execute_callbacks-quiet_example :
    execute_callbacks log_call callback_server_recv (params []) small_handler
    ≡ done bcirc_plugin_ok (
        run_all log_call
          (announced callback_server_recv (params []))
          (callbacks_for callback_callbacks_executed recv_only)
          (run_all log_call
            (params [])
            (callbacks_for callback_server_recv recv_only)
            small_handler))
unfolding callbacks_for get_cb_index
execute_callbacks-quiet_example =
    execute_callbacks-quiet log_call callback_server_recv 0 (params []) small_handler refl refl
      ((inl refl, refl), ((inr refl, refl), tt)) tt

abbrev breaking_handler : Handler (List ℕ)
breaking_handler = record small_handler {
  index_list =
      record {
        cb_name = callback_server_recv;
        callbacks = recv_callback 1 10 2 ∷ recv_callback 3 30 3 ∷ recv_callback 2 20 5 ∷ [];
      }
      ∷ [];
}

execute_callbacks-broken_example :
    execute_callbacks log_call callback_server_recv (params []) breaking_handler
    ≡ done bcirc_plugin_fail (record breaking_handler { world = 30 ∷ 10 ∷ [] })
unfolding callbacks_for get_cb_index
execute_callbacks-broken_example =
    execute_callbacks-broken log_call callback_server_recv 0 (params []) (recv_callback 1 10 2 ∷ [])
      (recv_callback 2 20 5 ∷ []) (recv_callback 3 30 3) breaking_handler _ refl refl
      ((inl refl, refl), tt) refl

execute_callbacks-unknown_example :
    execute_callbacks log_call callback_got_privmsg (params []) small_handler
    ≡ done bcirc_plugin_ok small_handler
unfolding get_cb_index
execute_callbacks-unknown_example =
    execute_callbacks-unknown log_call callback_got_privmsg (params []) small_handler refl

-- One plugin with two callbacks, the second of which fails.
abbrev failing_handler : Handler (List ℕ)
failing_handler = record small_handler {
  index_list =
      record {
        cb_name = callback_server_recv;
        callbacks = recv_callback 1 10 2 ∷ recv_callback 4 40 3 ∷ [];
      }
      ∷ [];
}

abbrev two_plugins : Handler (List ℕ)
two_plugins = record small_handler {
  plugin_list =
      small_plugin 7 (recv_callback 1 10 3 ∷ []) ∷ small_plugin 8 (recv_callback 2 20 5 ∷ []) ∷ [];
}

callbacks_for-index_callback_example :
    Permᴰ
      (callbacks_for callback_server_recv
        (index_callback insertion_qsort (recv_callback 3 30 4) recv_only))
      (with_added callback_server_recv (recv_callback 3 30 4) recv_only)
callbacks_for-index_callback_example =
    callbacks_for-index_callback insertion_qsort (recv_callback 3 30 4) callback_server_recv
      recv_only

callbacks_for-remove_index_example :
    callbacks_for callback_server_recv (remove_index 1 recv_only)
    ≡ keep (other_addr 1) (callbacks_for callback_server_recv recv_only)
callbacks_for-remove_index_example = callbacks_for-remove_index callback_server_recv 1 recv_only

recv_only-IsValid : IsValid recv_only
recv_only-IsValid = record {
  distinct = (tt, tt);
  entries = (record { named = (refl, (refl, tt)) }, tt);
}

index_callback-IsValid_example :
    IsValid (index_callback insertion_qsort (recv_callback 3 30 4) recv_only)
index_callback-IsValid_example =
    index_callback-IsValid insertion_qsort (recv_callback 3 30 4) recv_only recv_only-IsValid

remove_plugin_lem_example :
    ((remove_plugin 7 small_handler).1.plugin_list ≡ [])
    × (callbacks_for callback_server_recv (remove_plugin 7 small_handler).1.index_list
        ≡ keep
            (none_of (owned 7 small_handler.plugin_list))
            (callbacks_for callback_server_recv recv_only))
remove_plugin_lem_example = remove_plugin_lem 7 callback_server_recv small_handler

-- A null name is refused.
register_without_name :
    register_callback insertion_qsort none
      (some 10)
      (pos 5)
      (some (small_plugin 7 []))
      small_handler
    ≡ (negsuc 0, some (small_plugin 7 []), small_handler)
unfolding register_callback
register_without_name = refl

-- A plugin that can be opened only at one path, with every symbol.
abbrev one_object :
    Option (Plugin → Handler (List ℕ) → ℤ × Plugin × Handler (List ℕ)) → SharedObject (List ℕ)
one_object init = record {
  handle = 5;
  plugin_author = some (codes "Joona");
  plugin_name = some (codes "Nick");
  plugin_version = some (codes "0.1");
  plugin_init = init;
}

abbrev late_failure : Plugin → Handler (List ℕ) → ℤ × Plugin × Handler (List ℕ)
late_failure = registering insertion_qsort callback_server_recv 30 (pos 4) bcirc_plugin_fail

load_plugin_orphan_example :
    let r =
      load_plugin (λ path. some (one_object (some late_failure))) (codes "/x.so") small_handler in
    (r.0 ≡ negsuc 3)
    × (r.1.plugin_list ≡ small_handler.plugin_list)
    × Permᴰ (callbacks_for callback_server_recv r.1.index_list) (
        created callback_server_recv 30 (pos 4) (record small_handler { next_addr = 10 })
        ∷ callbacks_for callback_server_recv recv_only)
load_plugin_orphan_example =
    load_plugin_orphan insertion_qsort (λ path. some (one_object (some late_failure)))
      (codes "/x.so") small_handler (one_object (some late_failure)) (codes "Joona") (codes "Nick")
      (codes "0.1") callback_server_recv 30 (pos 4) bcirc_plugin_fail refl refl refl refl refl refl
