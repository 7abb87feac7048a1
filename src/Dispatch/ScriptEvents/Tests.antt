-- ===== src/Dispatch/ScriptEvents/Tests.antt =====
-- A script that answers messages.
use bcirc.Base.{
  ℕ, ◌+◌, Bytes, codes, List, [], ◌∷◌, some, ◌≡◌, refl, inl, pos, true, ◌==◌, if◌then◌else◌, arith,
}
use bcirc.PluginHandler.{Arg, Params, params, Plugin, bcirc_plugin_ok}
use bcirc.PluginHandler.Index.{get_cb_index, callbacks_for, index_callback}
use bcirc.PluginHandler.Registry.{register_callback}
use bcirc.PluginHandler.Load.Startup.{register_all}
use bcirc.Scripts.{
  find_script, update_script, add_script, add_callback, script_callbacks, rounds_in,
}
use bcirc.Scripts.Validity.{add_callbacks}
use bcirc.Server.{find_server, server_send}
use bcirc.IrcCmds.{privmsg}
use bcirc.Plugins.Logger.{on_privmsg}
use bcirc.PluginHandler.Index.InsertionSort.{insertion_qsort}
use bcirc.PluginHandler.Execute.{done, execute_callbacks}
use bcirc.PluginHandler.Load.{fresh_plugin}
use bcirc.PluginHandler.Names.{callback_got_privmsg}
use bcirc.Scripts.{PyCallback}
use bcirc.Server.{Bots}
use bcirc.Server.Examples.{short_net, two_servers}
use bcirc.Python.{PyObject, null, script, PyRun, returned, Python}
use bcirc.Python.Api.{py_privmsg}
use bcirc.Python.Api.Registering.{script_main}
use bcirc.Python.Events.Steady.{run_functions}
use bcirc.Python.Loading.{ScriptFile, IsScript}
use bcirc.Dispatch.{Surroundings, call_plugin}
use bcirc.Dispatch.Examples.{outside, plugin_file}
use bcirc.Dispatch.ScriptEvents.Hearing.{python_state, with_python}
use bcirc.Dispatch.ScriptEvents.{execute_callbacks-functions_for}
use bcirc.PluginHandler.{Callback}
use bcirc.PluginHandler.Names.{callback_callbacks_executed}
use bcirc.Base.{leb}

abbrev large : ℕ → ℕ
large n = n + 100

abbrev same_text : Bytes → Bytes → Bytes
same_text before text = text

abbrev greeter_cbs : List PyCallback
greeter_cbs = record { cb_func = 3; cb_name = callback_got_privmsg } ∷ []

abbrev greeter_init : List PyObject → Bots → PyRun
greeter_init (script addr ∷ []) h =
    script_main (λ object. true) large addr (codes "greet", codes "1", codes "me") greeter_cbs h
greeter_init args h = returned null h

abbrev greeter : Python
greeter = record {
  import_script = λ name h. (some 1, h);
  script_init = λ object. some 2;
  callable = λ object. true;
  call_object = λ call f args h.
      if f == 2
      then greeter_init args h
      else py_privmsg call short_net large same_text (some (codes "hi", codes "#a", Arg.srv 10)) h;
  object_addr = λ n. 0;
}

abbrev with_greeter : Surroundings
with_greeter = record outside { room = large; python = greeter; script_rounds = 10 }

abbrev greet_file : ScriptFile
greet_file = record {
  entry = plugin_file (codes "greet.py");
  object = 1;
  init_func = 2;
  name = codes "greet";
  version = codes "1";
  author = codes "me";
  cbs = greeter_cbs;
}

-- A bot whose only callback prints messages.
abbrev quiet_bot : Bots
quiet_bot = record two_servers {
  index_list =
      record {
        cb_name = callback_got_privmsg;
        callbacks =
            record { addr = 1; cb_name = callback_got_privmsg; cb_func = 13; priority = pos 0 }
            ∷ [];
      }
      ∷ [];
}

abbrev python_plugin : Plugin
python_plugin = fresh_plugin 5 0 (codes "Joona") (codes "Python") (codes "0.1")

abbrev greeting : Bots
greeting = with_python insertion_qsort 2 with_greeter (greet_file ∷ []) python_plugin quiet_bot

abbrev greeted_plugin : Plugin
greeted_plugin =
    (python_state insertion_qsort 2 with_greeter (greet_file ∷ []) python_plugin quiet_bot).1

abbrev message : Params
message = params (
    Arg.srv 10
    ∷ Arg.str (codes "jo")
    ∷ Arg.str (codes "j@h")
    ∷ Arg.str (codes "#a")
    ∷ Arg.str (codes "hello")
    ∷ [])

greet_file-IsScript : IsScript (call_plugin 2 with_greeter) greeter large greet_file
greet_file-IsScript = record {
  regular = refl;
  unlike_init = refl;
  long_enough = omega arith;
  imports = λ h. refl;
  inits = refl;
  can_init = refl;
  registers = λ addr h. refl;
  can_call = (refl, tt);
}

abbrev script_callback : Callback
script_callback = record {
  addr = 13;
  cb_name = callback_callbacks_executed;
  cb_func = 18;
  priority = pos 20;
}

execute_callbacks-functions_for_example :
    execute_callbacks (call_plugin 3 with_greeter) callback_got_privmsg message greeting
    ≡ done bcirc_plugin_ok
        (run_functions (call_plugin 2 with_greeter) greeter message.array (3 ∷ []) greeting)
unfolding call_plugin on_privmsg get_cb_index callbacks_for execute_callbacks find_server py_privmsg
    privmsg server_send add_callbacks add_callback add_script find_script update_script
    script_callbacks rounds_in index_callback register_all register_callback
execute_callbacks-functions_for_example =
    execute_callbacks-functions_for 2 with_greeter callback_got_privmsg 0 message greeting greeting
      script_callback refl refl ((inl refl, refl), tt) refl refl refl ((refl, tt), tt)
      ((refl, refl), tt) (omega arith)

-- The object has the 24 bytes of which some allocators have no smaller piece.
abbrev pieces : ℕ → ℕ
pieces n = if leb n 24 then 24 else n

-- The bot answers.
greeting_answered :
    (run_functions (call_plugin 2 with_greeter) greeter message.array (3 ∷ []) greeting).world.wire
    ≡ (pos 7, codes "PRIVMSG #a :hi\r\n") ∷ []
unfolding call_plugin get_cb_index callbacks_for execute_callbacks find_server py_privmsg privmsg
    server_send add_callbacks add_callback add_script find_script update_script script_callbacks
    rounds_in index_callback register_all register_callback
greeting_answered = refl
