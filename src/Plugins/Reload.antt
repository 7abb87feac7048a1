-- ===== src/Plugins/Reload.antt =====
-- Loading a plugin anew when its file changes, load_new_plugin of plugins/src/autoload/autoload.c.
-- The dynamic linker is a parameter, as for src/plugin_handler.c.
pub mod Unloading
pub mod Watching
use bcirc.Base.{
  ℕ, zero, suc, Bytes, codes, ◌++◌, Option, none, some, ℤ, Bool, true, false, str_eq, if◌then◌else◌,
  get_elem?, length,
}
use bcirc.PluginHandler.{Plugin, Handler}
use bcirc.PluginHandler.Registry.{remove_plugin}
use bcirc.PluginHandler.Load.{SharedObject, load_plugin}

abbrev pub path_of : Bytes → Bytes → Bytes
path_of dir name = dir ++ codes "/" ++ name

module _ {W : Type 0} where
  -- One round: the plugin's removal, if it has the path.
  abbrev pub unload : Bytes → Plugin → Handler W → Handler W
  unload path p h = if str_eq path p.path then (remove_plugin p.addr h).1 else h

  -- The `for` loop over `plugin_list`, whose length is read anew in each round. It goes on behind
  -- the place of the plugin removed, where the next one has moved to.
  unfoldable pub unload_loop : ℕ → ℕ → Bytes → Handler W → Handler W
  unload_loop zero i path h = h
  unload_loop (suc fuel) i path h = elim (get_elem? h.plugin_list i) [
    | none ↦ h
    | some p ↦ unload_loop fuel (suc i) path (unload path p h)
  ]

  -- No plugin is added in the loop, so it has at most as many rounds as there are plugins.
  -- `none` is the length of a null pointer's text, if the directory is not set.
  unfoldable pub load_new_plugin :
      (Bytes → Option (SharedObject W)) → Option Bytes → Bytes → Handler W → Option (ℤ × Handler W)
  unfolding unload_loop
  load_new_plugin dl_open none name h = none
  load_new_plugin dl_open (some dir) name h = some (
      load_plugin dl_open (path_of dir name)
        (unload_loop (length h.plugin_list) 0 (path_of dir name) h))
