-- ===== src/Python/Events.antt =====
-- py_execute_callbacks of plugins/src/python/pymain.c, over functions that return and leave the
-- scripts and the index alone.
pub mod Rounds
pub mod Steady
use bcirc.Base.{
  ℕ, zero, suc, ◌+◌, ◌-◌, ◌≤◌, Bytes, List, [], ◌∷◌, ◌++◌, Option, none, some, ◌≡◌, refl, sym, ap,
  ◌∙◌, subst, inl, inr, ℤ, Bool, true, false, arith, All, str_eq, Bool-cases, Option-cases,
  length-append, keep, map, length, take, drop, get_elem?, get_elem?_of_drop, drop-suc,
}
use bcirc.PluginHandler.{Arg, Params, params, bcirc_plugin_ok}
use bcirc.PluginHandler.Execute.{Run, done}
use bcirc.Scripts.{
  PyCallback, Scripts, script_callbacks, functions_of, listed_functions, functions_in,
  functions_for, callback_count, rounds_in, rounds_needed, AllCallable, IsValid,
}
use bcirc.Server.{Bot, Bots}
use bcirc.Python.{
  PyObject, PyRun, returned, faulty, unfinished, Python, then_py, event_args, name_arg, args_before,
  py_loop, with_name, py_execute_callbacks,
}
use bcirc.Python.Events.Rounds.{all_rounds}
use bcirc.Python.Events.Steady.{AreSteady, run_functions}

module _ (call : ℕ → Params → Bots → Run Bot) (py : Python) where
  get_elem?-length-append :
      (xs : List Arg) (a : Arg) → get_elem? (xs ++ a ∷ []) (length xs) ≡ some a
  get_elem?-length-append [] a = refl
  get_elem?-length-append (x ∷ xs) a = get_elem?-length-append xs a

  take-length-append : (xs : List Arg) (a : Arg) → take (length xs) (xs ++ a ∷ []) ≡ xs
  take-length-append [] a = refl
  take-length-append (x ∷ xs) a = ap (λ ys. x ∷ ys) (take-length-append xs a)

  read_event :
      (args : List Arg) (a : Arg)
      → (name_arg (params (args ++ a ∷ [])) ≡ some a)
        × (args_before (params (args ++ a ∷ [])) ≡ args)
  read_event args a =
      let behind : length (args ++ a ∷ []) ≡ suc (length args) =
        omega (arith, length-append args) in
      let before : length (args ++ a ∷ []) - 1 ≡ length args = omega (arith, behind) in
      (rw behind (get_elem?-length-append args a), rw before (take-length-append args a))

  -- The functions that valid scripts registered for an event are called once each, in the order of the
  -- scripts and, in each, of registering, with what is in front of the event's name; the callback
  -- returns OK, where each call returns and leaves the scripts and the index alone. There are enough
  -- rounds if there is one for each callback and for each script, and one more.
  pub py_execute_callbacks-functions_for :
      (rounds : ℕ) (event : Bytes) (args : List Arg) (h : Bots)
      → IsValid py.callable h.world.scripts
      → AreSteady call py args (functions_for event h.world.scripts) h
      → rounds_needed h.world.scripts ≤ rounds
      → py_execute_callbacks call py rounds (params (args ++ Arg.str event ∷ [])) h
        ≡ done bcirc_plugin_ok (run_functions call py args (functions_for event h.world.scripts) h)
  unfolding py_execute_callbacks
  py_execute_callbacks-functions_for rounds event args h valid steady enough =
      let (named, before) = read_event args (Arg.str event) in
      let p : Params = params (args ++ Arg.str event ∷ []) in
      ap (λ name. with_name call py rounds (args_before p) name h) named
      ∙ (ap (λ given. with_name call py rounds given (some (Arg.str event)) h) before
          ∙ all_rounds call py event args rounds 0 h.world.scripts.py_scripts_list h.world.scripts h
              refl refl valid steady enough)
