-- ===== src/PluginHandler/Load/Directory.antt =====
-- get_plugins of src/plugin_handler.c on a directory of plugins that register callbacks: which
-- functions each event reaches afterwards.
use mathlib.Core.List.{Permᴰ}
use mathlib.Core.List.Permᴰ
use bcirc.Base.{
  ℕ, suc, Bytes, codes, List, [], ◌∷◌, ◌++◌, ◌∙◌, map, append_assoc, Option, none, some, ◌≡◌, refl,
  ℤ, true, false, ◌&&◌, All, str_eq, if◌then◌else◌,
}
use bcirc.PluginHandler.{Plugin, Handler, bcirc_plugin_ok}
use bcirc.PluginHandler.Index.{Qsort, get_cb_index}
use bcirc.PluginHandler.Load.{
  SharedObject, fresh_plugin, initialised, loaded, load_plugin, is_plugin_file, DirEntry,
  load_entries, get_plugins,
}
use bcirc.PluginHandler.Load.Startup.{
  Registration, register_all, functions, registered, register_all_returns, register_all_world,
  register_all_silent, register_all_reaches,
}

initialised_index :
    {W : Type 0} (path : Bytes) (r : ℤ × Plugin × Handler W)
    → r.0 ≡ bcirc_plugin_ok
    → (initialised path r).1.index_list ≡ r.2.index_list
initialised_index path (res, p, h) good = rw good refl

initialised_world :
    {W : Type 0} (path : Bytes) (r : ℤ × Plugin × Handler W)
    → r.0 ≡ bcirc_plugin_ok
    → (initialised path r).1.world ≡ r.2.world
initialised_world path (res, p, h) good = rw good refl

-- The functions registered for a name by all of the plugins.
abbrev pub all_registered : Bytes → List (DirEntry × List Registration) → List ℕ
all_registered name [] = []
all_registered name (f ∷ files) = all_registered name files ++ registered name f.1

-- No plugin registers a callback for the name.
abbrev pub IsSilent : Bytes → DirEntry × List Registration → Type 0
IsSilent name f = All (λ r. str_eq r.cb_name name ≡ false) f.1

module _ {W : Type 0} (q : Qsort) (dl_open : Bytes → Option (SharedObject W)) (dir : Bytes) where
  -- The object has all four symbols, and its `plugin_init` registers these callbacks.
  abbrev pub IsObject : List Registration → SharedObject W → Type 0
  IsObject rs so =
      (author : Bytes) × (name : Bytes) × (version : Bytes) × (so.plugin_author ≡ some author)
      × (so.plugin_name ≡ some name)
      × (so.plugin_version ≡ some version)
      × (so.plugin_init ≡ some (register_all q rs))

  -- The entry is a regular file ".so", and an object with these callbacks.
  abbrev pub IsPlugin : DirEntry × List Registration → Type 0
  IsPlugin f =
      ((f.0.is_regular && is_plugin_file f.0.d_name) ≡ true)
      × (so : SharedObject W) × (dl_open (dir ++ codes "/" ++ f.0.d_name) ≡ some so)
      × IsObject f.1 so

  load_plugin_indexed :
      (path : Bytes) (rs : List Registration) (so : SharedObject W) (h : Handler W)
      → dl_open path ≡ some so
      → IsObject rs so
      → (p : Plugin) × ((load_plugin dl_open path h).1.index_list
          ≡ (register_all q rs p (record h { next_addr = suc h.next_addr })).2.index_list)
  unfolding load_plugin
  load_plugin_indexed path rs so h opened (author, name, version, ea, en, ev, ei) =
      let p : Plugin = fresh_plugin h.next_addr so.handle author name version in
      let h0 : Handler W = record h { next_addr = suc h.next_addr } in
      (
        p,
        rw (opened, load_plugin)
            (rw (loaded, ea)
              (rw (loaded, en)
                (rw ev (
                  rw ei (
                    initialised_index path (register_all q rs p h0)
                      (register_all_returns q rs p h0)))))),
      )

  -- One entry of the directory.
  abbrev after_entry : DirEntry × List Registration → Handler W → Handler W
  after_entry f h =
      if f.0.is_regular && is_plugin_file f.0.d_name
      then (load_plugin dl_open (dir ++ codes "/" ++ f.0.d_name) h).1
      else h

  entry_indexed :
      (f : DirEntry × List Registration) (h : Handler W)
      → IsPlugin f
      → (p : Plugin) × ((after_entry f h).index_list
          ≡ (register_all q f.1 p (record h { next_addr = suc h.next_addr })).2.index_list)
  entry_indexed f h (regular, so, opened, object) =
      let (p, index) =
        load_plugin_indexed (dir ++ codes "/" ++ f.0.d_name) f.1 so h opened object in
      (p, rw regular index)

  -- Each name reaches in some order the functions that the plugins registered for it, and what it
  -- reached before.
  load_entries_reaches :
      (name : Bytes) (files : List (DirEntry × List Registration)) (h : Handler W)
      → All IsPlugin files
      → Permᴰ
          (functions name (load_entries dl_open dir (map (λ f. f.0) files) h).index_list)
          (all_registered name files ++ functions name h.index_list)
  unfolding load_entries
  load_entries_reaches name [] h plugins = Permᴰ.refl _
  load_entries_reaches name (f ∷ files) h plugins =
      let (p, index) = entry_indexed f h plugins.0 in
      let rest = all_registered name files in
      let next = load_entries_reaches name files (after_entry f h) plugins.1 in
      let first = register_all_reaches q name f.1 p (record h { next_addr = suc h.next_addr }) in
      rw (append_assoc rest (registered name f.1) (functions name h.index_list)) (
        Permᴰ.trans next (
          Permᴰ.append_left {t₂ = registered name f.1 ++ functions name h.index_list} rest
            (rw index first)))

  load_entries_silent :
      (name : Bytes) (files : List (DirEntry × List Registration)) (h : Handler W)
      → All IsPlugin files
      → All (IsSilent name) files
      → get_cb_index name h.index_list ≡ none
      → get_cb_index name (load_entries dl_open dir (map (λ f. f.0) files) h).index_list ≡ none
  unfolding load_entries
  load_entries_silent name [] h plugins silent unknown = unknown
  load_entries_silent name (f ∷ files) h plugins silent unknown =
      let (p, index) = entry_indexed f h plugins.0 in
      load_entries_silent name files (after_entry f h) plugins.1 silent.1 (
        rw index (
          register_all_silent q name f.1 p (record h { next_addr = suc h.next_addr }) silent.0
            unknown))

  load_plugin_world :
      (path : Bytes) (rs : List Registration) (so : SharedObject W) (h : Handler W)
      → dl_open path ≡ some so
      → IsObject rs so
      → (load_plugin dl_open path h).1.world ≡ h.world
  unfolding load_plugin
  load_plugin_world path rs so h opened (author, name, version, ea, en, ev, ei) =
      let p : Plugin = fresh_plugin h.next_addr so.handle author name version in
      let h0 : Handler W = record h { next_addr = suc h.next_addr } in
      rw (opened, load_plugin)
        (rw (loaded, ea)
          (rw (loaded, en)
            (rw ev (
              rw ei (
                initialised_world path (register_all q rs p h0) (register_all_returns q rs p h0)
                ∙ register_all_world q rs p h0)))))

  entry_world :
      (f : DirEntry × List Registration) (h : Handler W)
      → IsPlugin f
      → (after_entry f h).world ≡ h.world
  entry_world f h (regular, so, opened, object) =
      rw regular (load_plugin_world (dir ++ codes "/" ++ f.0.d_name) f.1 so h opened object)

  load_entries_world :
      (files : List (DirEntry × List Registration)) (h : Handler W)
      → All IsPlugin files
      → (load_entries dl_open dir (map (λ f. f.0) files) h).world ≡ h.world
  unfolding load_entries
  load_entries_world [] h plugins = refl
  load_entries_world (f ∷ files) h plugins =
      load_entries_world files (after_entry f h) plugins.1 ∙ entry_world f h plugins.0

  -- Such plugins touch nothing but the handler.
  pub get_plugins_world :
      (files : List (DirEntry × List Registration)) (h : Handler W)
      → All IsPlugin files
      → (get_plugins dl_open dir (some (map (λ f. f.0) files)) h).1.world ≡ h.world
  unfolding get_plugins
  get_plugins_world files h plugins = load_entries_world files h plugins

  -- get_plugins on a directory of plugins whose `plugin_init` registers callbacks and then returns OK:
  -- every event reaches afterwards, in some order, the functions that they registered for it, and those
  -- that it reached before; an event that nobody knew and for which they register nothing is still
  -- unknown.
  pub get_plugins_reaches :
      (name other : Bytes) (files : List (DirEntry × List Registration)) (h : Handler W)
      → All IsPlugin files
      → All (IsSilent other) files
      → get_cb_index other h.index_list ≡ none
      → let h' = (get_plugins dl_open dir (some (map (λ f. f.0) files)) h).1 in
        Permᴰ
          (functions name h'.index_list)
          (all_registered name files ++ functions name h.index_list)
        × (get_cb_index other h'.index_list ≡ none)
  unfolding get_plugins
  get_plugins_reaches name other files h plugins silent unknown = (
    load_entries_reaches name files h plugins,
    load_entries_silent other files h plugins silent unknown,
  )
