-- ===== src/Scripts.antt =====
-- The data of the plugin for Python scripts, plugins/src/python/pyapi.h: the scripts and the
-- callbacks that they register. A Python object is a number.
pub mod Validity
pub mod Loaded
use bcirc.Base.{
  ℕ, suc, ◌+◌, length, Bytes, List, [], ◌∷◌, ◌++◌, Option, none, some, Bool, true, false, ◌==◌,
  str_eq, if◌then◌else◌, map, keep, ◌≡◌, All,
}

-- Of the source's `priority` only a part of a floating point number is ever written, and it is never
-- read.
pub record PyCallback : Type 0 where
  pub cb_func : ℕ
  pub cb_name : Bytes

-- `cbs` is `none` as long as `cb_count` is not set. `author` and `version` are not set before the
-- script is registered.
pub record PyScript : Type 0 where
  pub addr : ℕ
  pub name : Bytes
  pub author : Option Bytes
  pub version : Option Bytes
  pub handle : ℕ
  pub cbs : Option (List PyCallback)

-- The objects that are allocated, and the pointers in `py_scripts_list`.
pub record Scripts : Type 0 where
  pub objects : List PyScript
  pub py_scripts_list : List ℕ

abbrev pub no_scripts : Scripts
no_scripts = record { objects = []; py_scripts_list = [] }

-- The object at an address; `none` for a pointer to nothing.
unfoldable pub find_script : ℕ → List PyScript → Option PyScript
find_script addr [] = none
find_script addr (s ∷ ss) = if s.addr == addr then some s else find_script addr ss

-- A write through a pointer.
unfoldable pub update_script : ℕ → (PyScript → PyScript) → List PyScript → List PyScript
update_script addr f [] = []
update_script addr f (s ∷ ss) = (if s.addr == addr then f s else s) ∷ update_script addr f ss

abbrev pub set_script : ℕ → (PyScript → PyScript) → Scripts → Scripts
set_script addr f ss = record ss { objects = update_script addr f ss.objects }

abbrev pub cbs_of : Option PyScript → Option (List PyCallback)
cbs_of none = none
cbs_of (some s) = s.cbs

-- The callbacks of the object behind a pointer: `none` for a pointer to nothing, or where `cb_count`
-- is not set.
unfoldable pub script_callbacks : ℕ → Scripts → Option (List PyCallback)
script_callbacks addr ss = cbs_of (find_script addr ss.objects)

-- What py_register_script writes to the object, and the list with the object behind it. A script
-- that is registered again loses its callbacks.
abbrev pub as_registered : Bytes → Bytes → Bytes → PyScript → PyScript
as_registered script_name script_version script_author s = record s {
  name = script_name;
  version = some script_version;
  author = some script_author;
  cbs = some [];
}

unfoldable pub add_script : ℕ → Bytes → Bytes → Bytes → Scripts → Scripts
add_script addr script_name script_version script_author ss = record {
  objects = update_script addr (as_registered script_name script_version script_author) ss.objects;
  py_scripts_list = ss.py_scripts_list ++ addr ∷ [];
}

-- One callback more behind those of a script, where `cb_count` is set.
abbrev pub with_callback : PyCallback → PyScript → PyScript
with_callback cb s = record s {
  cbs = elim s.cbs [ none ↦ none | some cbs ↦ some (cbs ++ cb ∷ []) ];
}

unfoldable pub add_callback : ℕ → PyCallback → Scripts → Scripts
add_callback addr cb ss = set_script addr (with_callback cb) ss

-- The functions that the scripts registered for an event: in the order of the scripts in the list,
-- and for each script in the order of its callbacks.
abbrev pub functions_of : Bytes → List PyCallback → List ℕ
functions_of name cbs = map (λ (c : PyCallback). c.cb_func) (keep (λ c. str_eq name c.cb_name) cbs)

abbrev pub listed_functions : Bytes → Option (List PyCallback) → List ℕ
listed_functions name none = []
listed_functions name (some cbs) = functions_of name cbs

abbrev pub functions_in : Bytes → Scripts → List ℕ → List ℕ
functions_in name ss [] = []
functions_in name ss (addr ∷ addrs) =
    listed_functions name (script_callbacks addr ss) ++ functions_in name ss addrs

abbrev pub functions_for : Bytes → Scripts → List ℕ
functions_for name ss = functions_in name ss ss.py_scripts_list

-- Every script in the list is registered, and all its callbacks can be called.
abbrev pub AllCallable : (ℕ → Bool) → Option (List PyCallback) → Type 0
AllCallable callable none = ⊥
AllCallable callable (some cbs) = All (λ (c : PyCallback). callable c.cb_func ≡ true) cbs

abbrev pub IsValid : (ℕ → Bool) → Scripts → Type 0
IsValid callable ss =
    All (λ addr. AllCallable callable (script_callbacks addr ss)) ss.py_scripts_list

abbrev pub callback_count : Option (List PyCallback) → ℕ
callback_count none = 0
callback_count (some cbs) = length cbs

-- The rounds that both loops take for one event: one for each callback, for each script and for the
-- end.
unfoldable pub rounds_in : Scripts → List ℕ → ℕ
rounds_in ss [] = 1
rounds_in ss (addr ∷ addrs) = suc (callback_count (script_callbacks addr ss)) + rounds_in ss addrs

abbrev pub rounds_needed : Scripts → ℕ
rounds_needed ss = rounds_in ss ss.py_scripts_list
