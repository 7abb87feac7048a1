-- ===== src/PluginHandler/Index.antt =====
-- The index of src/plugin_handler.c: one entry for each event name, with the callbacks of that
-- name. The C library's `qsort` is a parameter, of which only is assumed that it keeps the elements.
pub mod Content
pub mod Validity
pub mod InsertionSort
use mathlib.Core.List.{Permᴰ}
use mathlib.Core.Option
use bcirc.Base.{
  ℕ, zero, suc, Bytes, List, [], ◌∷◌, ◌++◌, map, Option, none, some, ℤ, pos, ltb_ℤ, ◌≤ℤ◌, Bool,
  true, false, ◌==◌, not, str_eq, if◌then◌else◌, modify, keep, All,
}
use bcirc.PluginHandler.{Callback, CallbackIndex}

-- The comparison function for `qsort`: 1 where the first priority is greater, and else 0.
abbrev pub compare_index : Callback → Callback → ℤ
compare_index a b = if ltb_ℤ b.priority a.priority then pos 1 else pos 0

-- `qsort`: the array afterwards has the same elements. Their order is not assumed: the comparison is
-- never negative, which is not what `qsort` asks of one.
pub record Qsort : Type 0 where
  pub sort : (Callback → Callback → ℤ) → List Callback → List Callback
  pub sort-perm : (cs : List Callback) → Permᴰ (sort compare_index cs) cs

unfoldable pub init_index : List CallbackIndex
init_index = []

-- The position of the entry for a name; `none` is the -1 of the source.
unfoldable pub get_cb_index : Bytes → List CallbackIndex → Option ℕ
get_cb_index name [] = none
get_cb_index name (e ∷ es) =
    if str_eq e.cb_name name then some 0 else Option.map suc (get_cb_index name es)

-- `remove_index` on one entry: the callbacks at another address, in order.
abbrev pub other_addr : ℕ → Callback → Bool
other_addr addr c = not (c.addr == addr)

unfoldable pub remove_index : ℕ → List CallbackIndex → List CallbackIndex
remove_index addr [] = []
remove_index addr (e ∷ es) =
    record e { callbacks = keep (other_addr addr) e.callbacks } ∷ remove_index addr es

-- A new entry with one callback.
abbrev pub single : Callback → CallbackIndex
single cb = record { cb_name = cb.cb_name; callbacks = cb ∷ [] }

module _ (q : Qsort) where
  open q use {sort}

  -- The entry with one more callback, sorted again.
  abbrev pub add_sorted : Callback → CallbackIndex → CallbackIndex
  add_sorted cb e = record e { callbacks = sort compare_index (e.callbacks ++ cb ∷ []) }

  unfoldable pub index_callback : Callback → List CallbackIndex → List CallbackIndex
  index_callback cb index = elim (get_cb_index cb.cb_name index) [
    | some point ↦ modify point (add_sorted cb) index
    | none ↦ index ++ (single cb ∷ [])
  ]

-- The callbacks that an event name reaches: those of the entry which `get_cb_index` finds.
unfoldable pub callbacks_for : Bytes → List CallbackIndex → List Callback
callbacks_for name [] = []
callbacks_for name (e ∷ es) = if str_eq e.cb_name name then e.callbacks else callbacks_for name es
