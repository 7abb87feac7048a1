-- ===== src/PluginHandler/Load.antt =====
-- load_plugin and get_plugins of src/plugin_handler.c. The dynamic linker (dlopen, dlsym) and the
-- directory reader (opendir, readdir) are parameters.
pub mod Files
pub mod Startup
pub mod Directory
pub mod Outcomes
use bcirc.Base.{
  ℕ, suc, ◌+◌, Bytes, codes, List, [], ◌∷◌, ◌++◌, Option, none, some, ℤ, pos, negsuc, ◌==ℤ◌, Bool,
  true, false, ◌==◌, ◌&&◌, leb, if◌then◌else◌, length, strstr,
}
use bcirc.PluginHandler.{Plugin, PluginStatus, Handler, bcirc_plugin_ok}

-- What `dlopen` opens: its handle, and the symbols that `dlsym` finds in it.
pub record SharedObject (W : Type 0) : Type 0 where
  pub handle : ℕ
  pub plugin_author : Option Bytes
  pub plugin_name : Option Bytes
  pub plugin_version : Option Bytes
  pub plugin_init : Option (Plugin → Handler W → ℤ × Plugin × Handler W)

-- The plugin that is handed to `plugin_init`.
abbrev pub fresh_plugin : ℕ → ℕ → Bytes → Bytes → Bytes → Plugin
fresh_plugin address object author name version = record {
  addr = address;
  handle = object;
  plugin_name = name;
  plugin_version = version;
  plugin_author = author;
  path = [];
  status = PluginStatus.running;
  callback_list = [];
}

module _ {W : Type 0} where
  -- What follows the call of `plugin_init`.
  abbrev pub initialised : Bytes → ℤ × Plugin × Handler W → ℤ × Handler W
  initialised file (res, p, h) =
      if res ==ℤ bcirc_plugin_ok
      then (pos 1, record h { plugin_list = h.plugin_list ++ record p { path = file } ∷ [] })
      else (negsuc 3, h)

  abbrev pub loaded : Bytes → Handler W → SharedObject W → ℤ × Handler W
  loaded path h so = elim so.plugin_author [
    | none ↦ (negsuc 1, h)
    | some author ↦ elim so.plugin_name [
      | none ↦ (negsuc 1, h)
      | some name ↦ elim so.plugin_version [
        | none ↦ (negsuc 1, h)
        | some version ↦ elim so.plugin_init [
          | none ↦ (negsuc 2, h)
          | some init_func ↦ initialised path (
              init_func (fresh_plugin h.next_addr so.handle author name version)
                (record h { next_addr = suc h.next_addr }))
        ]
      ]
    ]
  ]

-- `strlen(name) >= 3`, and the first ".so" in it is at the end.
unfoldable pub is_plugin_file : Bytes → Bool
is_plugin_file name =
    leb 3 (length name)
    && elim (strstr name (codes ".so")) [ none ↦ false | some at ↦ at + 3 == length name ]

pub record DirEntry : Type 0 where
  pub d_name : Bytes
  pub is_regular : Bool

module _ {W : Type 0} (dl_open : Bytes → Option (SharedObject W)) where
  unfoldable pub load_plugin : Bytes → Handler W → ℤ × Handler W
  load_plugin path h = elim (dl_open path) [ none ↦ (negsuc 0, h) | some so ↦ loaded path h so ]

  -- The loop over the directory; what `load_plugin` returns is dropped.
  unfoldable pub load_entries : Bytes → List DirEntry → Handler W → Handler W
  unfolding is_plugin_file
  load_entries dir [] h = h
  load_entries dir (d ∷ ds) h = load_entries dir ds (
      if d.is_regular && is_plugin_file d.d_name
      then (load_plugin (dir ++ codes "/" ++ d.d_name) h).1
      else h)

  -- `none` is a directory that cannot be opened.
  unfoldable pub get_plugins : Bytes → Option (List DirEntry) → Handler W → ℤ × Handler W
  unfolding load_entries
  get_plugins dir none h = (negsuc 0, h)
  get_plugins dir (some entries) h = (pos 1, load_entries dir entries h)
