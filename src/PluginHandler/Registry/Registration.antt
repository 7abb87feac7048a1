-- ===== src/PluginHandler/Registry/Registration.antt =====
-- register_callback of src/plugin_handler.c on success.
use mathlib.Core.List.{Permᴰ}
use bcirc.Base.{ℕ, Bytes, [], ◌∷◌, ◌++◌, some, ◌≡◌, refl, ℤ, pos}
use bcirc.PluginHandler.{Callback, Plugin, Handler}
use bcirc.PluginHandler.Index.{Qsort, callbacks_for}
use bcirc.PluginHandler.Index.Content.{with_added, callbacks_for-index_callback}
use bcirc.PluginHandler.Index.Validity.{IsValid, index_callback-IsValid}
use bcirc.PluginHandler.Registry.{register_callback}

-- The callback that a registration creates.
abbrev pub created : {W : Type 0} → Bytes → ℕ → ℤ → Handler W → Callback
created name func prio h = record {
  addr = h.next_addr;
  cb_name = name;
  cb_func = func;
  priority = prio;
}

-- A registration returns 1, appends the callback to the plugin's own list, keeps the index valid,
-- and makes the callback reachable by its name, in some order with what the name reached before;
-- what other names reach, and the list of plugins, stay.
register_callback_lem :
    {W : Type 0} (q : Qsort) (name other : Bytes) (func : ℕ) (prio : ℤ) (p : Plugin) (h : Handler W)
    → IsValid h.index_list
    → let (res, p', h') = register_callback q (some name) (some func) prio (some p) h in
      (res ≡ pos 1)
      × (p' ≡ some (record p { callback_list = p.callback_list ++ created name func prio h ∷ [] }))
      × IsValid h'.index_list
      × Permᴰ
          (callbacks_for other h'.index_list)
          (with_added other (created name func prio h) h.index_list)
      × (h'.plugin_list ≡ h.plugin_list)
unfolding register_callback
register_callback_lem q name other func prio p h v = (
  refl,
  refl,
  index_callback-IsValid q (created name func prio h) h.index_list v,
  callbacks_for-index_callback q (created name func prio h) other h.index_list,
  refl,
)
