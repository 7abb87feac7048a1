-- ===== src/PluginHandler/Registry.antt =====
-- register_callback, pause_plugin and remove_plugin of src/plugin_handler.c. A plugin that is being
-- initialised is not yet in `plugin_list`, so register_callback returns it beside the handler.
pub mod Removal
pub mod Registration
use bcirc.Base.{
  ℕ, suc, Bytes, List, [], ◌∷◌, ◌++◌, Option, none, some, ℤ, pos, negsuc, Bool, true, false, ◌==◌,
  not, if◌then◌else◌, map,
}
use bcirc.PluginHandler.{Callback, CallbackIndex, Plugin, paused, Handler}
use bcirc.PluginHandler.Index.{Qsort, index_callback, remove_index}

-- The `status` of the object at an address; other objects stay.
pause_at : ℕ → Plugin → Plugin
pause_at addr p = if p.addr == addr then record p { status = paused } else p

module _ {W : Type 0} where
  -- `pluginptr`, `cb_name` and `cb_func` may be null. The result is the value returned, the plugin
  -- and the handler afterwards.
  unfoldable pub register_callback :
      Qsort
      → Option Bytes
      → Option ℕ
      → ℤ
      → Option Plugin
      → Handler W
      → ℤ × Option Plugin × Handler W
  register_callback q cb_name cb_func priority none h = (negsuc 0, none, h)
  register_callback q none cb_func priority (some p) h = (negsuc 0, some p, h)
  register_callback q (some cb_name) none priority (some p) h = (negsuc 0, some p, h)
  register_callback q (some name) (some func) prio (some p) h =
      let new_callback : Callback = record {
        addr = h.next_addr;
        cb_name = name;
        cb_func = func;
        priority = prio;
      } in
      (
        pos 1,
        some (record p { callback_list = p.callback_list ++ new_callback ∷ [] }),
        record h {
          index_list = index_callback q new_callback h.index_list;
          next_addr = suc h.next_addr;
        },
      )

  unfoldable pub pause_plugin : Option ℕ → Handler W → ℤ × Handler W
  unfolding pause_at
  pause_plugin none h = (negsuc 0, h)
  pause_plugin (some addr) h = (pos 1, record h { plugin_list = map (pause_at addr) h.plugin_list })

-- The inner loop of `remove_plugin`.
unfoldable pub remove_callbacks : List Callback → List CallbackIndex → List CallbackIndex
remove_callbacks [] index = index
remove_callbacks (c ∷ cs) index = remove_callbacks cs (remove_index c.addr index)

-- The outer loop: the plugins kept, and the index.
unfoldable pub remove_loop : ℕ → List Plugin → List CallbackIndex → List Plugin × List CallbackIndex
remove_loop addr [] index = ([], index)
remove_loop addr (p ∷ ps) index = elim (p.addr == addr) [
  | true ↦ remove_loop addr ps (remove_callbacks p.callback_list index)
  | false ↦ let (new_list, index') = remove_loop addr ps index in (p ∷ new_list, index')
]

module _ {W : Type 0} where
  unfoldable pub remove_plugin : ℕ → Handler W → ℤ × Handler W
  unfolding remove_loop remove_callbacks
  remove_plugin addr h =
      let (new_list, index) = remove_loop addr h.plugin_list h.index_list in
      (pos 1, record h { plugin_list = new_list; index_list = index })
