-- ===== src/Python/Tests.antt =====
-- Scripts on concrete inputs.
use bcirc.Base.{ℕ, ◌+◌, ◌*◌, ltb, codes, List, [], ◌∷◌, Option, some, none, ◌≡◌, refl, pos, true}
use bcirc.PluginHandler.{Arg, params}
use bcirc.PluginHandler.Execute.{Run, done, fault, spent}
use bcirc.MessageQueue.{empty_queue}
use bcirc.Scripts.{PyCallback, PyScript, script_callbacks, find_script}
use bcirc.Server.{Bot, Bots}
use bcirc.Server.Examples.{silent_call, two_servers}
use bcirc.Python.{null, returned, faulty, Python, py_execute_callbacks, load_script_dir}
use bcirc.Python.Api.{py_register_callback, py_privmsg_queue}

abbrev for_event : List ℕ → List PyCallback
for_event [] = []
for_event (f ∷ fs) = record { cb_func = f; cb_name = codes "event" } ∷ for_event fs

abbrev a_script : ℕ → List ℕ → PyScript
a_script address functions = record {
  addr = address;
  name = codes "a";
  author = none;
  version = none;
  handle = 0;
  cbs = some (for_event functions);
}

-- Objects from 100 on cannot be called; a call leaves its number as the next address.
abbrev counting : Python
counting = record {
  import_script = λ name h. (none, h);
  script_init = λ object. none;
  callable = λ object. ltb object 100;
  call_object = λ call f args h. returned null (record h { next_addr = h.next_addr * 10 + f });
  object_addr = λ n. 0;
}

abbrev with_scripts : List ℕ → List PyScript → Bots
with_scripts list scripts = record two_servers {
  next_addr = 0;
  world = record two_servers.world {
    scripts = record { objects = scripts; py_scripts_list = list };
  };
}

abbrev next_of : Run Bot → Option ℕ
next_of (done res h) = some h.next_addr
next_of fault = none
next_of spent = none

-- The second script comes first in the list; the object behind its first function cannot be called,
-- so its third is not called either.
calls_in_order :
    next_of (
      py_execute_callbacks silent_call counting 20
        (params (Arg.srv 10 ∷ Arg.str (codes "event") ∷ []))
        (with_scripts (2 ∷ 1 ∷ []) (a_script 1 (1 ∷ 2 ∷ []) ∷ a_script 2 (3 ∷ 100 ∷ 4 ∷ []) ∷ [])))
    ≡ some 312
unfolding py_execute_callbacks script_callbacks find_script
calls_in_order = refl

-- A script that is listed twice hears everything twice.
listed_twice :
    next_of (
      py_execute_callbacks silent_call counting 20
        (params (Arg.str (codes "event") ∷ []))
        (with_scripts (1 ∷ 1 ∷ []) (a_script 1 (1 ∷ 2 ∷ []) ∷ [])))
    ≡ some 1212
unfolding py_execute_callbacks script_callbacks find_script
listed_twice = refl

-- A callback for a script that was not registered reads a count that is not set.
not_registered :
    py_register_callback counting.callable
      (some (some 1, codes "event", 5))
      (with_scripts [] (record (a_script 1 []) { cbs = none } ∷ []))
    ≡ faulty
unfolding py_register_callback script_callbacks find_script
not_registered = refl

-- A message that may not be dropped is refused.
undroppable_refused :
    py_privmsg_queue (some (codes "hi", codes "#a", pos 0, Arg.srv 10)) empty_queue ≡ none
unfolding py_privmsg_queue
undroppable_refused = refl

-- A file with a short name.
short_name :
    load_script_dir silent_call counting
      (λ n. n + 100)
      (some (some (record { d_name = codes "py"; is_regular = true } ∷ [])))
      two_servers
    ≡ fault
unfolding load_script_dir
short_name = refl
