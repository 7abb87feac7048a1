-- ===== src/PluginHandler.antt =====
-- The data of src/plugin_handler.c and headers/plugin_handler.h: callbacks, the index of callbacks
-- by event name, plugins. A pointer is a number, the `addr` of the object that it points to; an
-- array with its count is a list, the count its length.
pub mod Index
pub mod Registry
pub mod Execute
pub mod Load
pub mod Names
mod Tests
use bcirc.Base.{ℕ, Bytes, Option, none, some, List, [], ◌∷◌, ◌++◌, ℤ, pos, negsuc, length, take}

-- What a callback returns. The numbers are those of the `#define` lines.
abbrev pub bcirc_plugin_continue : ℤ
bcirc_plugin_continue = pos 3

abbrev pub bcirc_plugin_break : ℤ
bcirc_plugin_break = pos 2

abbrev pub bcirc_plugin_ok : ℤ
bcirc_plugin_ok = pos 1

abbrev pub bcirc_plugin_stop : ℤ
bcirc_plugin_stop = pos 0

abbrev pub bcirc_plugin_fail : ℤ
bcirc_plugin_fail = negsuc 0

pub data PluginStatus : Type 0 where
  running paused : PluginStatus

-- A function pointer is the number of the function.
pub record Callback : Type 0 where
  pub addr : ℕ
  pub cb_name : Bytes
  pub cb_func : ℕ
  pub priority : ℤ

pub record CallbackIndex : Type 0 where
  pub cb_name : Bytes
  pub callbacks : List Callback

pub record Plugin : Type 0 where
  pub addr : ℕ
  pub handle : ℕ
  pub plugin_name : Bytes
  pub plugin_version : Bytes
  pub plugin_author : Bytes
  pub path : Bytes
  pub status : PluginStatus
  pub callback_list : List Callback

-- The global variables of the handler. `next_addr` is the address of the next object allocated;
-- `world` is whatever else a callback can read and change.
pub record Handler (W : Type 0) : Type 0 where
  pub plugin_list : List Plugin
  pub index_list : List CallbackIndex
  pub next_addr : ℕ
  pub world : W

-- One element of a callback's `void **` argument array.
pub data Arg : Type 0 where
  null : Arg
  str : Bytes → Arg
  num : ℤ → Arg
  srv : ℕ → Arg
  chan : ℕ → Arg

-- `params[i]`, by the type that it is used at; null, and what is not of the type, is `none`.
abbrev pub srv_of : Arg → Option ℕ
srv_of Arg.null = none
srv_of (Arg.str text) = none
srv_of (Arg.num n) = none
srv_of (Arg.srv addr) = some addr
srv_of (Arg.chan addr) = none

abbrev pub str_of : Arg → Option Bytes
str_of Arg.null = none
str_of (Arg.str text) = some text
str_of (Arg.num n) = none
str_of (Arg.srv addr) = none
str_of (Arg.chan addr) = none

abbrev pub num_of : Arg → Option ℤ
num_of Arg.null = none
num_of (Arg.str text) = none
num_of (Arg.num n) = some n
num_of (Arg.srv addr) = none
num_of (Arg.chan addr) = none

abbrev pub chan_of : Arg → Option ℕ
chan_of Arg.null = none
chan_of (Arg.str text) = none
chan_of (Arg.num n) = none
chan_of (Arg.srv addr) = none
chan_of (Arg.chan addr) = some addr

-- The `void **` array and the `int` that a callback is given. The array may hold more than is
-- counted.
pub record Params : Type 0 where
  pub array : List Arg
  pub argc : ℕ

-- An array that is counted in full.
abbrev pub params : List Arg → Params
params args = record { array = args; argc = length args }

-- What callback_callbacks_executed is given: the arguments counted, and the event's name.
abbrev pub announced : Bytes → Params → Params
announced name p = params (take p.argc p.array ++ Arg.str name ∷ [])
