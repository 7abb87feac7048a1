-- ===== src/Python.antt =====
-- The plugin for Python scripts, plugins/src/python/pymain.c: loading scripts, and handing the
-- program's events to the functions that they registered. The interpreter is a parameter; `room n`
-- is as in IrcCmds.
pub mod Overflow
pub mod Api
pub mod Events
pub mod Loading
mod Tests
use bcirc.Base.{
  ℕ, zero, suc, ◌-◌, Bytes, codes, List, [], ◌∷◌, ◌++◌, Option, none, some, ℤ, pos, negsuc, ◌==ℤ◌,
  Bool, true, false, ◌&&◌, not, leb, str_eq, if◌then◌else◌, length, take, get_elem?,
}
use bcirc.PluginHandler.{Arg, Params, Plugin, str_of, bcirc_plugin_ok}
use bcirc.PluginHandler.Index.{Qsort}
use bcirc.PluginHandler.Names.{callback_callbacks_executed}
use bcirc.PluginHandler.Load.Startup.{Registration, register_all}
use bcirc.PluginHandler.Execute.{Run, done, fault, spent}
use bcirc.PluginHandler.Load.{DirEntry}
use bcirc.Scripts.{PyCallback, PyScript, Scripts, script_callbacks, set_script}
use bcirc.Server.{Bot, Bots, set_bot, then_run}

-- What crosses to Python and back: a null pointer, a number, a pointer that was made a number, one
-- to a script, a list of pointers, a text.
pub data PyObject : Type 0 where
  null : PyObject
  long : ℤ → PyObject
  pointer : Arg → PyObject
  script : ℕ → PyObject
  pointers : List Arg → PyObject
  text : Bytes → PyObject

-- A call of a Python function: the object returned, undefined behaviour, or no fuel left.
pub data PyRun : Type 0 where
  returned : PyObject → Bots → PyRun
  faulty : PyRun
  unfinished : PyRun

abbrev pub then_py : PyRun → (PyObject → Bots → Run Bot) → Run Bot
then_py (returned res h) k = k res h
then_py faulty k = fault
then_py unfinished k = spent

abbrev pub is_null_object : PyObject → Bool
is_null_object null = true
is_null_object (long n) = false
is_null_object (pointer a) = false
is_null_object (script addr) = false
is_null_object (pointers args) = false
is_null_object (text t) = false

-- The interpreter: the module of a name, after its statements have run; its `script_init`; whether
-- an object can be called; what a call does, by way of the calls back into the program; and the
-- address of the object for a number.
pub record Python : Type 0 where
  pub import_script : Bytes → Bots → Option ℕ × Bots
  pub script_init : ℕ → Option ℕ
  pub callable : ℕ → Bool
  pub call_object : (ℕ → Params → Bots → Run Bot) → ℕ → List PyObject → Bots → PyRun
  pub object_addr : ℕ → ℕ

-- `params[argc-1]`, and what is in front of it.
abbrev pub name_arg : Params → Option Arg
name_arg p = elim p.argc [ zero ↦ none | suc n ↦ get_elem? p.array n ]

abbrev pub args_before : Params → List Arg
args_before p = take (p.argc - 1) p.array

abbrev pub set_scripts : (Scripts → Scripts) → Bots → Bots
set_scripts f h = set_bot h (λ b. record b { scripts = f b.scripts })

-- A script whose object is in no list yet.
abbrev pub new_script : ℕ → Bytes → PyScript
new_script address filename = record {
  addr = address;
  name = filename;
  author = none;
  version = none;
  handle = 0;
  cbs = none;
}

abbrev pub allocate_script : Bytes → Bots → Bots
allocate_script filename h = record h {
  next_addr = suc h.next_addr;
  world = record (h.world) {
    scripts = record (h.world.scripts) {
      objects = h.world.scripts.objects ++ new_script h.next_addr filename ∷ [];
    };
  };
}

-- `script_event` is the number of py_execute_callbacks; the result is none where a script's call
-- does not return.
abbrev pub python_callbacks : ℕ → List Registration
python_callbacks script_event =
    record { cb_name = callback_callbacks_executed; cb_func = script_event; priority = pos 20 } ∷ []

abbrev pub registered_init : Qsort → ℕ → Plugin → Run Bot → Option (ℤ × Plugin × Bots)
registered_init q script_event p (done res h) =
    some (register_all q (python_callbacks script_event) p h)
registered_init q script_event p fault = none
registered_init q script_event p spent = none

abbrev pub without_scripts : Bots → Bots
without_scripts = set_scripts (λ ss. record ss { py_scripts_list = [] })

module _ (call : ℕ → Params → Bots → Run Bot) (py : Python) where
  -- The format is "(Ol)", and the argument for its `l` the address of a Python object.
  abbrev pub event_args : List Arg → List PyObject
  event_args args = pointers args ∷ long (pos (py.object_addr (length args))) ∷ []

  -- Both loops, `i` over the scripts and `y` over a script's callbacks. The arrays are read anew in
  -- each round, and Python may change them. An object that cannot be called ends the inner loop.
  unfoldable pub py_loop : ℕ → ℕ → ℕ → Arg → List Arg → Bots → Run Bot
  py_loop zero i y name args h = spent
  py_loop (suc fuel) i y name args h = elim (get_elem? h.world.scripts.py_scripts_list i) [
    | none ↦ done bcirc_plugin_ok h
    | some addr ↦ elim (script_callbacks addr h.world.scripts) [
      | none ↦ fault
      | some cbs ↦ elim (get_elem? cbs y) [
        | none ↦ py_loop fuel (suc i) 0 name args h
        | some cb ↦ elim (str_of name) [
          | none ↦ fault
          | some event ↦ elim (str_eq event cb.cb_name) [
            | false ↦ py_loop fuel i (suc y) name args h
            | true ↦ elim (py.callable cb.cb_func) [
              | false ↦ py_loop fuel (suc i) 0 name args h
              | true ↦
                  then_py (py.call_object call cb.cb_func (event_args args) h)
                    (λ res after. py_loop fuel i (suc y) name args after)
            ]
          ]
        ]
      ]
    ]
  ]

  -- A parameter behind the array is undefined behaviour.
  abbrev pub with_name : ℕ → List Arg → Option Arg → Bots → Run Bot
  with_name rounds args none h = fault
  with_name rounds args (some name) h = py_loop rounds 0 0 name args h

  unfoldable pub py_execute_callbacks : ℕ → Params → Bots → Run Bot
  unfolding py_loop
  py_execute_callbacks rounds p h = with_name rounds (args_before p) (name_arg p) h

  module _ (room : ℕ → ℕ) where
    -- A script's object is given the bytes of a pointer, 8; a write reaches up to `size` bytes.
    abbrev pub in_object : ℕ → Run Bot → Run Bot
    in_object size next = if leb size (room 8) then next else fault

    -- The value of `script_init`: null, or anything else.
    abbrev pub init_result : PyObject → Bots → Run Bot
    init_result res h = if is_null_object res then done (negsuc 0) h else done (pos 1) h

    abbrev pub call_init : ℕ → Option ℕ → Bots → Run Bot
    call_init addr none h = done (negsuc 0) h
    call_init addr (some init_func) h =
        if py.callable init_func
        then in_object 56 (
            then_py
              (py.call_object call init_func (script addr ∷ [])
                (set_scripts (set_script addr (λ s. record s { cbs = none })) h))
              init_result)
        else done (negsuc 0) h

    unfoldable pub init_script : ℕ → ℕ → Bots → Run Bot
    init_script addr handle h = call_init addr (py.script_init handle) h

    abbrev pub imported_result : Run Bot → Run Bot
    imported_result r =
        then_run r
          (λ res after. if res ==ℤ pos 1 then done (pos 1) after else done (negsuc 1) after)

    abbrev pub imported : ℕ → Option ℕ × Bots → Run Bot
    imported addr (none, h) = done (negsuc 0) h
    imported addr (some found, h) = imported_result (
        init_script addr found (set_scripts (set_script addr (λ s. record s { handle = found })) h))

    unfoldable pub load_script : Bytes → Bots → Run Bot
    unfolding init_script
    load_script filename h =
        in_object 48 (imported h.next_addr (py.import_script filename (allocate_script filename h)))

    -- The name without its last three bytes. A shorter name wraps the length around, and the copy
    -- leaves its array.
    abbrev pub load_named : Bytes → Bots → Run Bot
    load_named name h =
        if leb 3 (length name) then load_script (take (length name - 3) name) h else fault

    unfoldable pub load_scripts : List DirEntry → Bots → Run Bot
    unfolding load_script
    load_scripts [] h = done (pos 1) h
    load_scripts (d ∷ ds) h =
        then_run
          (if d.is_regular && not (str_eq d.d_name (codes "__init__"))
            then load_named d.d_name h
            else done (pos 1) h)
          (λ res after. load_scripts ds after)

    -- The directory: none where the variable is not set, and `some none` if it cannot be opened.
    unfoldable pub load_script_dir : Option (Option (List DirEntry)) → Bots → Run Bot
    unfolding load_scripts
    load_script_dir none h = fault
    load_script_dir (some none) h = done (pos 1) h
    load_script_dir (some (some entries)) h = load_scripts entries h

    unfoldable pub python_init :
        Qsort → ℕ → Option (Option (List DirEntry)) → Plugin → Bots → Option (ℤ × Plugin × Bots)
    unfolding load_script_dir
    python_init q script_event dir p h =
        registered_init q script_event p (load_script_dir dir (without_scripts h))
