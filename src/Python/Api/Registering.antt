-- ===== src/Python/Api/Registering.antt =====
-- A script's `script_init` that registers the script and then its callbacks, as the example at the end
-- of plugins/src/python/pyapi.h.
use bcirc.Base.{
  ℕ, ◌≤◌, Bytes, List, [], ◌∷◌, ◌++◌, some, Bool, true, ◌≡◌, refl, ap, ◌∙◌, pos, All, arith, leb,
}
use bcirc.Scripts.{
  PyCallback, PyScript, find_script, script_callbacks, cbs_of, as_registered, add_script,
  with_callback, add_callback,
}
use bcirc.Scripts.Validity.{find_script-update_script_self, add_callbacks}
use bcirc.Server.{Bots}
use bcirc.Python.{PyObject, long, PyRun, returned, faulty, unfinished, set_scripts}
use bcirc.Python.Api.{py_register_script, py_register_callback}

-- The next statement of a Python function.
abbrev pub then_object : PyRun → (PyObject → Bots → PyRun) → PyRun
then_object (returned res h) k = k res h
then_object faulty k = faulty
then_object unfinished k = unfinished

unfoldable pub register_callbacks : (ℕ → Bool) → ℕ → List PyCallback → Bots → PyRun
register_callbacks callable addr [] h = returned (long (pos 1)) h
register_callbacks callable addr (c ∷ cs) h =
    then_object (py_register_callback callable (some (some addr, c.cb_name, c.cb_func)) h)
      (λ res after. register_callbacks callable addr cs after)

unfoldable pub script_main :
    (ℕ → Bool) → (ℕ → ℕ) → ℕ → Bytes × Bytes × Bytes → List PyCallback → Bots → PyRun
unfolding register_callbacks
script_main callable room addr names cbs h =
    then_object (py_register_script room (some addr) (some names) h)
      (λ res after. register_callbacks callable addr cbs after)

register_callbacks_lem :
    (callable : ℕ → Bool) (addr : ℕ) (cs old : List PyCallback) (s : PyScript) (h : Bots)
    → find_script addr h.world.scripts.objects ≡ some s
    → s.cbs ≡ some old
    → All (λ (c : PyCallback). callable c.cb_func ≡ true) cs
    → register_callbacks callable addr cs h
      ≡ returned (long (pos 1)) (set_scripts (add_callbacks addr cs) h)
unfolding register_callbacks py_register_callback script_callbacks add_callbacks add_callback
register_callbacks_lem callable addr [] old s h found has can = refl
register_callbacks_lem callable addr (c ∷ cs) old s h found has can =
    let here : script_callbacks addr h.world.scripts ≡ some old = ap cbs_of found ∙ has in
    rw can.0 (
      rw here (
        register_callbacks_lem callable addr cs (old ++ c ∷ []) (with_callback c s)
          (set_scripts (add_callback addr c) h)
          (find_script-update_script_self addr (with_callback c) h.world.scripts.objects s
            (λ t. refl) found)
          (rw has refl) can.1))

py_register_script_lem :
    (room : ℕ → ℕ) (addr : ℕ) (name version author : Bytes) (s : PyScript) (h : Bots)
    → 60 ≤ room 8
    → find_script addr h.world.scripts.objects ≡ some s
    → py_register_script room (some addr) (some (name, version, author)) h
      ≡ returned (long (pos 1)) (set_scripts (add_script addr name version author) h)
unfolding py_register_script
py_register_script_lem room addr name version author s h enough found =
    let fits : leb 60 (room 8) ≡ true = ground arith in
    rw (found, py_register_script) (rw fits refl)

-- Such a script is registered with its callbacks.
pub script_main_lem :
    (callable : ℕ → Bool) (room : ℕ → ℕ) (addr : ℕ) (name version author : Bytes)
    (cbs : List PyCallback) (s : PyScript) (h : Bots)
    → 60 ≤ room 8
    → find_script addr h.world.scripts.objects ≡ some s
    → All (λ (c : PyCallback). callable c.cb_func ≡ true) cbs
    → script_main callable room addr (name, version, author) cbs h
      ≡ returned
          (long (pos 1))
          (set_scripts (λ ss. add_callbacks addr cbs (add_script addr name version author ss)) h)
unfolding script_main add_script
script_main_lem callable room addr name version author cbs s h enough found can =
    ap (λ r. then_object r (λ res after. register_callbacks callable addr cbs after))
      (py_register_script_lem room addr name version author s h enough found)
    ∙ register_callbacks_lem callable addr cbs [] (as_registered name version author s)
        (set_scripts (add_script addr name version author) h)
        (find_script-update_script_self addr (as_registered name version author)
          h.world.scripts.objects s (λ t. refl) found)
        refl can
