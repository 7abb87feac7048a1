-- ===== src/Python/Api.antt =====
-- What scripts can call, plugins/src/python/pyapi.c. An argument is what PyArg_ParseTuple found, with
-- `none` where it failed; a pointer is what PyLong_AsVoidPtr made of a number.
pub mod Registering
use bcirc.Base.{
  ℕ, suc, Bytes, List, [], ◌∷◌, Option, none, some, ℤ, pos, negsuc, ◌==ℤ◌, Bool, true, false, leb,
  if◌then◌else◌,
}
use bcirc.PluginHandler.{Arg, Params, srv_of, chan_of}
use bcirc.PluginHandler.Execute.{Run, done, fault, spent}
use bcirc.Log.Format.{printed}
use bcirc.Log.Output.{Environment, Written, Logging, bcirc_printf, bcirc_log}
use bcirc.MessageQueue.{Queue, Added, add_to_privmsg_queue}
use bcirc.Channel.{Channel, find_chan}
use bcirc.Scripts.{PyCallback, Scripts, script_callbacks, find_script, add_script, add_callback}
use bcirc.Server.{Bot, Bots, Sockets, server_connect, server_send}
use bcirc.Server.Pool.{
  ServerSetting, add_to_serverpool, remove_from_serverpool, free_server, load_servers,
}
use bcirc.IrcCmds.{privmsg, join_channel, part_channel, nick}
use bcirc.Python.{
  PyObject, null, long, pointer, text, PyRun, returned, faulty, unfinished, Python, set_scripts,
}

-- The value of a function of the program, as a Python number.
abbrev pub as_py : Run Bot → PyRun
as_py (done res h) = returned (long res) h
as_py fault = faulty
as_py spent = unfinished

abbrev pub state_as_py : ℤ × Bots → PyRun
state_as_py (res, h) = returned (long res) h

-- What is parsed is used; where it is not, the result is a null pointer, which Python reads as an
-- error.
abbrev pub parsed_or_null {ℓ} : {A : Type ℓ} → Option A → Bots → (A → PyRun) → PyRun
parsed_or_null none h k = returned null h
parsed_or_null (some a) h k = k a

-- A pointer that must not be null, used as one to a server.
abbrev pub as_server : Arg → Bots → (ℕ → PyRun) → PyRun
as_server Arg.null h k = returned null h
as_server (Arg.str t) h k = faulty
as_server (Arg.num n) h k = faulty
as_server (Arg.srv addr) h k = k addr
as_server (Arg.chan addr) h k = faulty

abbrev pub as_channel : Arg → Bots → (Channel → PyRun) → PyRun
as_channel Arg.null h k = returned null h
as_channel (Arg.str t) h k = faulty
as_channel (Arg.num n) h k = faulty
as_channel (Arg.srv addr) h k = faulty
as_channel (Arg.chan addr) h k = elim (find_chan addr h.world.channels.channel_list) [
  | none ↦ faulty
  | some c ↦ k c
]

-- The object of the script, whose pointer is not null; an object of `room 8` bytes holds what is
-- written up to `cb_count`.
unfoldable pub py_register_script :
    (ℕ → ℕ) → Option ℕ → Option (Bytes × Bytes × Bytes) → Bots → PyRun
py_register_script room none names h = returned (long (negsuc 0)) h
py_register_script room (some addr) none h = faulty
py_register_script room (some addr) (some (name, version, author)) h =
    elim (find_script addr h.world.scripts.objects) [
      | none ↦ faulty
      | some s ↦
          if leb 60 (room 8)
          then returned (long (pos 1)) (set_scripts (add_script addr name version author) h)
          else faulty
    ]

-- The pointer to the script, the event's name and the function; the script must be registered, for
-- `cb_count` to be set.
unfoldable pub py_register_callback : (ℕ → Bool) → Option (Option ℕ × Bytes × ℕ) → Bots → PyRun
py_register_callback callable none h = returned null h
py_register_callback callable (some (none, name, func)) h = returned (long (negsuc 1)) h
py_register_callback callable (some (some addr, name, func)) h =
    if callable func
    then elim (script_callbacks addr h.world.scripts) [
      | none ↦ faulty
      | some cbs ↦
          returned (long (pos 1))
            (set_scripts (add_callback addr (record { cb_func = func; cb_name = name })) h)
    ]
    else returned null h

-- The server of a channel, as a pointer that was made a number.
unfoldable pub py_get_chan_srv : Option Arg → Bots → PyRun
py_get_chan_srv parsed h =
    parsed_or_null parsed h λ a. as_channel a h λ c. returned (pointer (Arg.srv c.srv)) h

-- A text that is not UTF-8 is not converted. A null pointer is read.
abbrev pub string_object : (Bytes → Bool) → Bots → Arg → PyRun
string_object is_utf8 h Arg.null = faulty
string_object is_utf8 h (Arg.str t) = returned (if is_utf8 t then text t else null) h
string_object is_utf8 h (Arg.num n) = faulty
string_object is_utf8 h (Arg.srv addr) = faulty
string_object is_utf8 h (Arg.chan addr) = faulty

unfoldable pub py_get_string_from_ptr : (Bytes → Bool) → Option Arg → Bots → PyRun
py_get_string_from_ptr is_utf8 parsed h = parsed_or_null parsed h (string_object is_utf8 h)

unfoldable pub py_add_to_serverpool : ℕ → Option Arg → Bots → PyRun
py_add_to_serverpool thread_result parsed h =
    parsed_or_null parsed h
      λ a. as_server a h λ srv. state_as_py (add_to_serverpool thread_result (some srv) h)

unfoldable pub py_remove_from_serverpool : Option Arg → Bots → PyRun
py_remove_from_serverpool parsed h =
    parsed_or_null parsed h
      λ a. as_server a h λ srv. state_as_py (remove_from_serverpool (some srv) h)

unfoldable pub py_free_server : Option Arg → Bots → PyRun
py_free_server parsed h =
    parsed_or_null parsed h λ a. as_server a h λ srv. state_as_py (free_server (some srv) h)

-- The state of the queue stands beside that of the bot. A message that may not be dropped is refused,
-- with a null pointer.
abbrev pub magnitude : ℤ → ℕ
magnitude (pos n) = n
magnitude (negsuc n) = suc n

abbrev pub queued : Bytes → Bytes → ℤ → Queue → Arg → Option Added
queued msg target drop q a = elim (srv_of a) [
  | none ↦ none
  | some srv ↦
      if drop ==ℤ pos 0 then none else some (add_to_privmsg_queue msg target srv (magnitude drop) q)
]

-- `none` is the null pointer; the last argument parsed is the pointer to a server or null.
unfoldable pub py_privmsg_queue : Option (Bytes × Bytes × ℤ × Arg) → Queue → Option Added
py_privmsg_queue none q = none
py_privmsg_queue (some (msg, target, drop, a)) q = queued msg target drop q a

-- The text is a format without arguments. The null pointer is `none`.
unfoldable pub py_bcirc_printf : ℕ → Environment → Option Bytes → Written → Option Logging
py_bcirc_printf depth e none w = none
py_bcirc_printf depth e (some buf) w =
    some
      (elim (printed buf) [ none ↦ Logging.faulty | some output ↦ bcirc_printf depth e output w ])

unfoldable pub py_bcirc_log : ℕ → Environment → Option (Bytes × Bytes) → Written → Option Logging
py_bcirc_log depth e none w = none
py_bcirc_log depth e (some (buf, logname)) w = some (bcirc_log depth e buf (some logname) w)

module _ (call : ℕ → Params → Bots → Run Bot) (net : Sockets) where
  unfoldable pub py_server_send : Option (Arg × Bytes) → Bots → PyRun
  py_server_send parsed h =
      parsed_or_null parsed h
        λ p. as_server p.0 h λ srv. as_py (server_send call net (some p.1) srv h)

  unfoldable pub py_server_connect : Option Arg → Bots → PyRun
  py_server_connect parsed h =
      parsed_or_null parsed h λ a. as_server a h λ srv. as_py (server_connect call net srv h)

  unfoldable pub py_load_servers :
      ℕ → (Bytes → Option (Option (List ServerSetting))) → Option Bytes → Bots → PyRun
  py_load_servers thread_result read_config parsed h =
      parsed_or_null parsed h
        λ file. as_py (load_servers call net thread_result (read_config file) h)

  module _ (room : ℕ → ℕ) (reprint : Bytes → Bytes → Bytes) where
    unfoldable pub py_privmsg : Option (Bytes × Bytes × Arg) → Bots → PyRun
    py_privmsg parsed h =
        parsed_or_null parsed h
          λ p. as_server p.2 h λ srv. as_py (privmsg call net room reprint p.0 p.1 srv h)

    -- The password is always a text.
    unfoldable pub py_join_channel : Option (Bytes × Bytes × Arg) → Bots → PyRun
    py_join_channel parsed h =
        parsed_or_null parsed h λ p.
          as_server p.2 h λ srv. as_py (join_channel call net room reprint p.0 (some p.1) srv h)

    -- The reason is not used, and `memory` is as for part_channel.
    unfoldable pub py_part_channel : Bytes → Option (Bytes × Arg) → Bots → PyRun
    py_part_channel memory parsed h =
        parsed_or_null parsed h λ p.
          as_channel p.1 h λ c. as_py (part_channel call net room reprint memory c.name c.srv h)

    unfoldable pub py_nick : Option (Bytes × Arg) → Bots → PyRun
    py_nick parsed h =
        parsed_or_null parsed h
          λ p. as_server p.1 h λ srv. as_py (nick call net room reprint p.0 srv h)
